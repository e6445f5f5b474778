-- ===== src/Sanitize/Lines.antt =====
-- The lines of a dump, as bufio.Reader.ReadString reads them.
use pgwarden.Prelude.{
  ℕ, ◌≡◌, refl, ap, ◌∙◌, Bool, true, false, List, [], ◌∷◌, ◌++◌, concat, Bytes, All, inl, inr,
  Bool-cases, ◌==◌,
}
use mathlib.Core.List.{append-nil}
use pgwarden.Sanitize.{push_line, lines}

-- A line has no line break but at its end, and is not empty.
abbrev IsLine : Bytes → Type 0
IsLine [] = ⊥
IsLine (c ∷ []) = Unit
IsLine (c ∷ d ∷ l) = ((c == 10) ≡ false) × IsLine (d ∷ l)

abbrev ends_line : Bytes → Bool
ends_line [] = false
ends_line (c ∷ []) = c == 10
ends_line (c ∷ d ∷ l) = ends_line (d ∷ l)

-- Lines as they are read: each but the last ends with a line break.
abbrev pub AreLines : List Bytes → Type 0
AreLines [] = Unit
AreLines (l ∷ []) = IsLine l
AreLines (l ∷ m ∷ ls) = IsLine l × ((ends_line l ≡ true) × AreLines (m ∷ ls))

push_line-AreLines :
    (c : ℕ) (ls : List Bytes)
    → (c == 10) ≡ false
    → AreLines ls
    → All (λ l. IsLine l) ls
    → AreLines (push_line c ls)
push_line-AreLines c [] h k a = tt
push_line-AreLines c ([] ∷ ls) h k a = absurd a.0
push_line-AreLines c ((d ∷ l) ∷ []) h k a = (h, k)
push_line-AreLines c ((d ∷ l) ∷ m ∷ ls) h k a = ((h, k.0), (k.1.0, k.1.1))

AreLines-All : (ls : List Bytes) → AreLines ls → All (λ l. IsLine l) ls
AreLines-All [] h = tt
AreLines-All (l ∷ []) h = (h, tt)
AreLines-All (l ∷ m ∷ ls) h = (h.0, AreLines-All (m ∷ ls) h.1.1)

break-AreLines :
    (c : ℕ) (ls : List Bytes) → (c == 10) ≡ true → AreLines ls → AreLines ((c ∷ []) ∷ ls)
break-AreLines c [] h k = tt
break-AreLines c (m ∷ ls) h k = (tt, (h, k))

pub lines-AreLines : (s : Bytes) → AreLines (lines s)
unfolding lines
lines-AreLines [] = tt
lines-AreLines (c ∷ s) = elim (Bool-cases (c == 10)) [
  | inl br ↦ rw br (break-AreLines c (lines s) br (lines-AreLines s))
  | inr other ↦ rw other (
      push_line-AreLines c (lines s) other (lines-AreLines s)
        (AreLines-All (lines s) (lines-AreLines s)))
]

push_line-concat : (c : ℕ) (ls : List Bytes) → concat (push_line c ls) ≡ c ∷ concat ls
push_line-concat c [] = refl
push_line-concat c (l ∷ ls) = refl

-- The lines make up the text.
pub lines-concat : (s : Bytes) → concat (lines s) ≡ s
unfolding lines
lines-concat [] = refl
lines-concat (c ∷ s) = elim (Bool-cases (c == 10)) [
  | inl br ↦ rw (br, lines-concat s)
  | inr other ↦ rw (other, push_line-concat c (lines s), lines-concat s)
]

lines-break : (l s : Bytes) → IsLine l → ends_line l ≡ true → lines (l ++ s) ≡ l ∷ lines s
unfolding lines
lines-break [] s h k = absurd h
lines-break (c ∷ []) s h k = rw k
lines-break (c ∷ d ∷ l) s h k = rw (h.0, lines-break (d ∷ l) s h.1 k)

lines-last : (l : Bytes) → IsLine l → lines l ≡ l ∷ []
unfolding lines
lines-last [] h = absurd h
lines-last (c ∷ []) h = elim (Bool-cases (c == 10)) [ inl br ↦ rw br | inr other ↦ rw other ]
lines-last (c ∷ d ∷ l) h = rw (h.0, lines-last (d ∷ l) h.1)

-- Lines that are written one after the other are read as they were.
pub lines-of_concat : (ls : List Bytes) → AreLines ls → lines (concat ls) ≡ ls
unfolding lines
lines-of_concat [] h = refl
lines-of_concat (l ∷ []) h = rw (append-nil l) (lines-last l h)
lines-of_concat (l ∷ m ∷ ls) h =
    lines-break l (concat (m ∷ ls)) h.0 h.1.0
    ∙ ap (λ (r : List Bytes). l ∷ r) (lines-of_concat (m ∷ ls) h.1.1)

-- The rest of lines, some of which are dropped.
pub AreLines-tail : (l : Bytes) (ls : List Bytes) → AreLines (l ∷ ls) → AreLines ls
AreLines-tail l [] h = tt
AreLines-tail l (m ∷ ls) h = h.1.1

pub AreLines-cons :
    (l : Bytes) (ls ks : List Bytes)
    → AreLines (l ∷ ls)
    → AreLines ks
    → (ls ≡ [] → ks ≡ [])
    → AreLines (l ∷ ks)
AreLines-cons l ls [] h k e = (AreLines-All (l ∷ ls) h).0
AreLines-cons l [] (m ∷ ks) h k e = absurd (let no = e refl in cc)
AreLines-cons l (n ∷ ls) (m ∷ ks) h k e = (h.0, (h.1.0, k))
