-- ===== src/Dump/Archive.antt =====
-- What a parallel dump returns, in terms of the results of its parts.
use pgwarden.Prelude.{
  ◌≡◌, refl, ap, ◌∙◌, Option, none, some, Result, ok, err, List, [], ◌∷◌, ◌++◌, Bytes,
}
use mathlib.Core.List.{append_assoc}
use pgwarden.Dump.{
  Arrival, name_if, collect, after_data, run_parallel_dump, pre_data_file_name, post_data_file_name,
}

abbrev pub errors_of : List Arrival → List (Option Bytes)
errors_of [] = []
errors_of (a ∷ arrivals) = a.error ∷ errors_of arrivals

abbrev pub names_of : List Arrival → List Bytes
names_of [] = []
names_of (a ∷ arrivals) = a.name ∷ names_of arrivals

abbrev pub first_error : List (Option Bytes) → Option Bytes
first_error [] = none
first_error (none ∷ es) = first_error es
first_error (some e ∷ es) = some e

abbrev pub outcome : Option Bytes → List Bytes → Result Bytes (List Bytes)
outcome none names = ok names
outcome (some e) names = err e

collect_error :
    (e : Bytes) (names : List Bytes) (arrivals : List Arrival)
    → collect (some e) names arrivals ≡ (some e, names)
unfolding collect
collect_error e names [] = refl
collect_error e names (a ∷ arrivals) = collect_error e names arrivals

-- One entry, with what is known of the others if it has no error.
by_error :
    (names : List Bytes) (name : Bytes) (error : Option Bytes) (arrivals : List Arrival)
    (post meta : Option Bytes)
    → after_data (collect none (names ++ name ∷ []) arrivals) post meta
      ≡ outcome
          (first_error (errors_of arrivals ++ post ∷ meta ∷ []))
          ((names ++ name ∷ []) ++ (names_of arrivals ++ post_data_file_name ∷ []))
    → after_data (collect error (name_if error name names) arrivals) post meta
      ≡ outcome
          (first_error (error ∷ (errors_of arrivals ++ post ∷ meta ∷ [])))
          (names ++ (name ∷ (names_of arrivals ++ post_data_file_name ∷ [])))
by_error names name none arrivals post meta h =
    h
    ∙ ap (outcome (first_error (errors_of arrivals ++ post ∷ meta ∷ [])))
        (append_assoc names (name ∷ []) (names_of arrivals ++ post_data_file_name ∷ []))
by_error names name (some e) arrivals post meta h = rw (collect_error e names arrivals)

-- The results of the entries, one after the other, and then the post-data section.
collect-outcome :
    (names : List Bytes) (arrivals : List Arrival) (post meta : Option Bytes)
    → after_data (collect none names arrivals) post meta
      ≡ outcome
          (first_error (errors_of arrivals ++ post ∷ meta ∷ []))
          (names ++ (names_of arrivals ++ post_data_file_name ∷ []))
unfolding collect
collect-outcome names [] none none = refl
collect-outcome names [] none (some e) = refl
collect-outcome names [] (some e) meta = refl
collect-outcome names (a ∷ arrivals) post meta =
    by_error names a.name a.error arrivals post meta
      (collect-outcome (names ++ a.name ∷ []) arrivals post meta)

-- A parallel dump fails with the first error among the pre-data section, the entries as they arrive,
-- the post-data section and the writing of its manifest; with no error its manifest lists the pre-data file first, the post-data
-- file last, and in between every entry once, in the order of arrival.
pub parallel_dump_outcome :
    (pre : Option Bytes) (arrivals : List Arrival) (post meta : Option Bytes)
    → run_parallel_dump pre arrivals post meta
      ≡ outcome
          (first_error (pre ∷ (errors_of arrivals ++ post ∷ meta ∷ [])))
          (pre_data_file_name ∷ (names_of arrivals ++ post_data_file_name ∷ []))
unfolding run_parallel_dump
parallel_dump_outcome none arrivals post meta =
    collect-outcome (pre_data_file_name ∷ []) arrivals post meta
parallel_dump_outcome (some e) arrivals post meta = refl
