-- ===== src/Unpack/Order.antt =====
-- The order in which the files of a parallel dump are restored.
use pgwarden.Prelude.{
  ◌≡◌, ◌≢◌, sym, ◌∙◌, false, Option, none, some, ok, ok_inj, ok≢err, ◌>>◌, List, [], ◌∷◌, ◌++◌,
  Bytes, text_eq, text_eq_iff, All, inl, inr, Bool-cases,
}
use mathlib.Core.List.{append-nil, append_assoc}
use pgwarden.Dump.{Arrival, run_parallel_dump, pre_data_file_name, post_data_file_name}
use pgwarden.Dump.Archive.{names_of, outcome, parallel_dump_outcome}
use pgwarden.Unpack.{
  ZipFile, Manifest, UnpackError, Parts, no_parts, find_file, add_part, sort_parts, file_error,
  unit_or, restore_parallel_dump,
}

-- The archive has the files of these names, and these are the files.
abbrev pub Holds : List ZipFile → List Bytes → List ZipFile → Type 0
Holds files [] [] = Unit
Holds files [] (g ∷ gs) = ⊥
Holds files (n ∷ names) [] = ⊥
Holds files (n ∷ names) (g ∷ gs) = (find_file files n ≡ some g) × Holds files names gs

-- The name of a file of data.
unfoldable pub IsDataName : Bytes → Type 0
IsDataName n = (n ≢ pre_data_file_name) × (n ≢ post_data_file_name)

other_text : (a b : Bytes) → a ≢ b → text_eq a b ≡ false
other_text a b h = elim (Bool-cases (text_eq a b)) [
  | inl same ↦ absurd (h ((text_eq_iff a b).0 same))
  | inr other ↦ other
]

add_part-data :
    (parts : Parts) (n : Bytes) (f : ZipFile)
    → IsDataName n
    → add_part parts n f ≡ record parts { data_files = parts.data_files ++ f ∷ [] }
unfolding add_part IsDataName
add_part-data parts n f h =
    rw (other_text n pre_data_file_name h.0, other_text n post_data_file_name h.1)

-- The files of data, in the order of the manifest, and then the last file.
sort_parts-data :
    (files : List ZipFile) (parts : Parts) (names : List Bytes) (gs : List ZipFile) (b : ZipFile)
    → Holds files names gs
    → All IsDataName names
    → find_file files post_data_file_name ≡ some b
    → sort_parts files parts (names ++ post_data_file_name ∷ [])
      ≡ ok (record parts { data_files = parts.data_files ++ gs; post_data = some b })
unfolding sort_parts add_part text_eq
sort_parts-data files parts [] [] b h k l = rw (l, append-nil parts.data_files)
sort_parts-data files parts [] (g ∷ gs) b h k l = absurd h
sort_parts-data files parts (n ∷ names) [] b h k l = absurd h
sort_parts-data files parts (n ∷ names) (g ∷ gs) b h k l =
    rw (h.0, add_part-data parts n g k.0, ← append_assoc parts.data_files (g ∷ []) gs)
      (sort_parts-data files (record parts { data_files = parts.data_files ++ g ∷ [] }) names gs b
        h.1 k.1 l)

outcome-ok :
    (o : Option Bytes) (names files : List Bytes) → outcome o names ≡ ok files → files ≡ names
outcome-ok none names files h = sym (ok_inj h)
outcome-ok (some e) names files h = absurd (ok≢err h)

-- The first file, and the rest of the manifest.
sort_parts-dump :
    (files : List ZipFile) (names : List Bytes) (gs : List ZipFile) (a b : ZipFile)
    → find_file files pre_data_file_name ≡ some a
    → Holds files names gs
    → All IsDataName names
    → find_file files post_data_file_name ≡ some b
    → sort_parts files no_parts (pre_data_file_name ∷ (names ++ post_data_file_name ∷ []))
      ≡ ok (record { pre_data = some a; post_data = some b; data_files = gs })
unfolding sort_parts add_part text_eq
sort_parts-dump files names gs a b first held named last =
    rw first
      (sort_parts-data files (record no_parts { pre_data = some a }) names gs b held named last)

-- What a parallel dump has written is restored in its order: the archive whose manifest lists the files that
-- the dump returned, and which holds them, restores as pre-data, the data files together, post-data, and
-- fails with the first error among the three. The names of the data files are taken to be other than the
-- two names of the sections.
pub dump_restores :
    (psql : ZipFile → Option Bytes) (data_phase : List ZipFile → Option UnpackError)
    (files : List ZipFile) (manifest : Manifest) (pre post meta : Option Bytes)
    (arrivals : List Arrival) (a b : ZipFile) (gs : List ZipFile)
    → run_parallel_dump pre arrivals post meta ≡ ok manifest.files
    → find_file files pre_data_file_name ≡ some a
    → find_file files post_data_file_name ≡ some b
    → Holds files (names_of arrivals) gs
    → All IsDataName (names_of arrivals)
    → restore_parallel_dump psql data_phase files manifest ≡ (
        unit_or (file_error a (psql a))
        >> (unit_or (data_phase gs) >> unit_or (file_error b (psql b))))
unfolding restore_parallel_dump
dump_restores psql data_phase files manifest pre post meta arrivals a b gs dumped first last held
      named =
    let wrote =
      outcome-ok _ _ manifest.files (sym (parallel_dump_outcome pre arrivals post meta) ∙ dumped) in
    rw (wrote, sort_parts-dump files (names_of arrivals) gs a b first held named last)
