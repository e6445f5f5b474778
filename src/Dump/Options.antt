-- ===== src/Dump/Options.antt =====
-- The values of an option on a command line.
use pgwarden.Prelude.{
  true, false, drop, Bool-cases, inl, inr, ==_iff, if◌then◌else◌, ◌≡◌, refl, List, [], ◌∷◌, ◌++◌,
  Bytes, length,
}
use pgwarden.Go.Strings.{has_prefix}
use pgwarden.Dump.{with_prefix}

-- The values of an option, given as its name with `=`, on a command line.
unfoldable pub values_of : Bytes → List Bytes → List Bytes
values_of name [] = []
values_of name (a ∷ args) =
    let rest = values_of name args in
    if has_prefix a name then drop (length name) a ∷ rest else rest

pub values_of-append :
    (name : Bytes) (xs ys : List Bytes)
    → values_of name (xs ++ ys) ≡ values_of name xs ++ values_of name ys
unfolding values_of
values_of-append name [] ys = refl
values_of-append name (x ∷ xs) ys = elim (Bool-cases (has_prefix x name)) [
  | inl hit ↦ rw (hit, values_of-append name xs ys)
  | inr miss ↦ rw (miss, values_of-append name xs ys)
]

pub has_prefix-append : (name v : Bytes) → has_prefix (name ++ v) name ≡ true
unfolding has_prefix
has_prefix-append [] v = refl
has_prefix-append (c ∷ name) v = rw ((==_iff c c).1 refl) (has_prefix-append name v)

pub drop-prefix : (name v : Bytes) → drop (length name) (name ++ v) ≡ v
drop-prefix [] v = refl
drop-prefix (c ∷ name) v = drop-prefix name v

pub values_of-with_prefix :
    (name : Bytes) (vs : List Bytes) → values_of name (with_prefix name vs) ≡ vs
unfolding values_of with_prefix
values_of-with_prefix name [] = refl
values_of-with_prefix name (v ∷ vs) =
    rw (has_prefix-append name v, drop-prefix name v, values_of-with_prefix name vs)

pub values_of-other :
    (name other : Bytes) (vs : List Bytes)
    → ((v : Bytes) → has_prefix (other ++ v) name ≡ false)
    → values_of name (with_prefix other vs) ≡ []
unfolding values_of with_prefix
values_of-other name other [] h = refl
values_of-other name other (v ∷ vs) h = rw (h v, values_of-other name other vs h)
