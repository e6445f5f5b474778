-- ===== src/Paths/Create.antt =====
-- What `create_path` makes of its parts.
use pgwarden.Prelude.{
  ℕ, ◌≡◌, refl, ap, sym, ◌∙◌, Bool, true, false, List, [], ◌∷◌, ◌++◌, Bytes, codes, All, is_empty,
  arith, ◌==◌,
}
use mathlib.Core.List.{append_assoc, append-nil}
use pgwarden.Go.Strings.{join}
use pgwarden.Paths.{remove_trailing_slash, remove_leading_slash, add_part, add_parts, create_path}

abbrev pub ends_in_slash : Bytes → Bool
ends_in_slash [] = false
ends_in_slash (c ∷ []) = c == b'/'
ends_in_slash (c ∷ d ∷ s) = ends_in_slash (d ∷ s)

-- A part that, but for one slash in front, is not empty and does not end in a slash.
pub record IsCleanPart (p : Bytes) : Type 0 where
  pub not_empty : is_empty (remove_leading_slash p) ≡ false
  pub clean_end : ends_in_slash (remove_leading_slash p) ≡ false

-- The parts, each without the slash in front.
unfoldable pub stripped : List Bytes → List Bytes
stripped [] = []
stripped (p ∷ parts) = remove_leading_slash p ∷ stripped parts

remove_trailing_slash_clean : (s : Bytes) → ends_in_slash s ≡ false → remove_trailing_slash s ≡ s
unfolding remove_trailing_slash
remove_trailing_slash_clean [] h = refl
remove_trailing_slash_clean (c ∷ []) h = ground arith
remove_trailing_slash_clean (c ∷ d ∷ s) h = ap (λ l. c ∷ l) (remove_trailing_slash_clean (d ∷ s) h)

ends-append :
    (xs : Bytes) (c : ℕ) (ys : Bytes) → ends_in_slash (xs ++ (c ∷ ys)) ≡ ends_in_slash (c ∷ ys)
ends-append [] c ys = refl
ends-append (x ∷ []) c ys = refl
ends-append (x ∷ y ∷ xs) c ys = ends-append (y ∷ xs) c ys

-- The text behind a slash that is put in front of it.
ends_behind :
    (path q : Bytes)
    → is_empty q ≡ false
    → ends_in_slash q ≡ false
    → ends_in_slash (path ++ (b'/' ∷ q)) ≡ false
ends_behind path [] e h = cc
ends_behind path (c ∷ q) e h = ends-append path b'/' (c ∷ q) ∙ h

empty_part : ¬ (is_empty (remove_leading_slash []) ≡ false)
unfolding remove_leading_slash
empty_part h = cc

add_part_clean :
    (is_last : Bool) (path p : Bytes)
    → IsCleanPart p
    → add_part is_last path p ≡ path ++ (b'/' ∷ remove_leading_slash p)
unfolding add_part
add_part_clean is_last path [] h = absurd (empty_part h.not_empty)
add_part_clean true path (c ∷ p) h = refl
add_part_clean false path (c ∷ p) h =
    remove_trailing_slash_clean (path ++ (b'/' ∷ remove_leading_slash (c ∷ p)))
      (ends_behind path (remove_leading_slash (c ∷ p)) h.not_empty h.clean_end)

-- Each part with a slash before it.
abbrev slashed : List Bytes → Bytes
slashed [] = []
slashed (p ∷ ps) = (b'/' ∷ p) ++ slashed ps

add_parts_clean :
    (path : Bytes) (parts : List Bytes)
    → All IsCleanPart parts
    → add_parts path parts ≡ path ++ slashed (stripped parts)
unfolding add_parts stripped
add_parts_clean path [] h = sym (append-nil path)
add_parts_clean path (p ∷ parts) h =
    ap (λ l. add_parts l parts) (add_part_clean (is_empty parts) path p h.0)
    ∙ add_parts_clean (path ++ (b'/' ∷ remove_leading_slash p)) parts h.1
    ∙ append_assoc path (b'/' ∷ remove_leading_slash p) (slashed (stripped parts))

slashed-join :
    (p : Bytes) (parts : List Bytes) → slashed (p ∷ parts) ≡ b'/' ∷ join (codes "/") (p ∷ parts)
unfolding join
slashed-join p [] = ap (λ l. b'/' ∷ l) (append-nil p)
slashed-join p (q ∷ parts) = ap (λ l. b'/' ∷ (p ++ l)) (slashed-join q parts)

joined_parts :
    (p : Bytes) (parts : List Bytes)
    → All IsCleanPart (p ∷ parts)
    → add_parts [] (p ∷ parts) ≡ b'/' ∷ join (codes "/") (stripped (p ∷ parts))
unfolding stripped
joined_parts p parts h =
    add_parts_clean [] (p ∷ parts) h ∙ slashed-join (remove_leading_slash p) (stripped parts)

-- Parts that are not empty and end in no slash, each but for one slash in front that is dropped, are
-- joined by single slashes, with one in front exactly when it is asked for.
pub create_path_joins :
    (p : Bytes) (parts : List Bytes)
    → All IsCleanPart (p ∷ parts)
    → (create_path false (p ∷ parts) ≡ join (codes "/") (stripped (p ∷ parts)))
      × (create_path true (p ∷ parts) ≡ b'/' ∷ join (codes "/") (stripped (p ∷ parts)))
unfolding create_path
create_path_joins p parts h =
    let joined = joined_parts p parts h in
    (ap remove_leading_slash joined ∙ (unfold remove_leading_slash in refl), joined)

-- Each part loses one slash at each end and no more: a part that begins with two slashes leaves two
-- of them side by side in the path.
pub double_slash_stays : (p : Bytes) → create_path true ((b'/' ∷ b'/' ∷ p) ∷ []) ≡ b'/' ∷ b'/' ∷ p
unfolding create_path add_parts add_part remove_leading_slash
double_slash_stays p = refl
