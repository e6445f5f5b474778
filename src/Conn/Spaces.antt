-- ===== src/Conn/Spaces.antt =====
-- Texts without spaces, and the fields between spaces.
use pgwarden.Prelude.{
  ap, not, ◌||◌, ◌==◌, if◌then◌else◌, ltb, true, ℕ, ◌≡◌, refl, Bool, false, [], ◌∷◌, ◌++◌, Bytes,
  any, arith,
}
use pgwarden.Go.Strings.{
  trim, trim_left, trim_right, trim_space, is_space, is_wide_space2, is_wide_space3, wide_space,
  space_width, skip_spaces, cut_spaces,
}

trim_left-none : (p : ℕ → Bool) (s : Bytes) → any p s ≡ false → trim_left p s ≡ s
unfolding trim_left
trim_left-none p [] h = refl
trim_left-none p (c ∷ s) h = ground (arith, h)

trim_right-none : (p : ℕ → Bool) (s : Bytes) → any p s ≡ false → trim_right p s ≡ s
unfolding trim_right
trim_right-none p [] h = refl
trim_right-none p (c ∷ s) h = rw (trim_right-none p s (ground (arith, h))) (ground (arith, h))

pub trim-none : (p : ℕ → Bool) (s : Bytes) → any p s ≡ false → trim p s ≡ s
unfolding trim
trim-none p s h = rw (trim_left-none p s h) (trim_right-none p s h)

-- Whether a text holds a space, be it one beyond ASCII.
unfoldable pub has_space : Bytes → Bool
has_space [] = false
has_space (c ∷ s) = not (space_width c s == 0) || has_space s

-- No space beyond ASCII reaches over an ASCII space.
wide_space-blank : (c : ℕ) (w rest : Bytes) → wide_space c (w ++ (32 ∷ rest)) ≡ wide_space c w
unfolding wide_space is_wide_space2 is_wide_space3
wide_space-blank c [] [] = ground arith
wide_space-blank c [] (d ∷ rest) = ground arith
wide_space-blank c (d ∷ []) rest = ground arith
wide_space-blank c (d ∷ e ∷ w) rest = refl

pub space_width-blank :
    (c : ℕ) (w rest : Bytes) → space_width c (w ++ (32 ∷ rest)) ≡ space_width c w
unfolding space_width
space_width-blank c w rest = ap (λ (n : ℕ). if is_space c then 1 else n) (wide_space-blank c w rest)

-- An ASCII byte begins no space beyond ASCII.
pub wide_space-ascii : (c : ℕ) (s : Bytes) → ltb c 128 ≡ true → wide_space c s ≡ 0
unfolding wide_space is_wide_space2 is_wide_space3
wide_space-ascii c [] h = refl
wide_space-ascii c (d ∷ []) h = ground (arith, h)
wide_space-ascii c (d ∷ e ∷ s) h = ground (arith, h)

pub solid : (b : Bool) (n : ℕ) → (not (n == 0) || b) ≡ false → ((n == 0) ≡ true) × (b ≡ false)
solid b n h = ground arith

skip_spaces-none : (s : Bytes) → has_space s ≡ false → skip_spaces 0 s ≡ s
unfolding has_space skip_spaces
skip_spaces-none [] h = refl
skip_spaces-none (c ∷ s) h = rw ((solid (has_space s) (space_width c s) h).0) refl

cut_spaces-none : (s : Bytes) → has_space s ≡ false → cut_spaces s ≡ s
unfolding has_space cut_spaces
cut_spaces-none [] h = refl
cut_spaces-none (c ∷ s) h =
    rw (skip_spaces-none (c ∷ s) h, cut_spaces-none s (solid (has_space s) (space_width c s) h).1)
      refl

pub trim_space-none : (s : Bytes) → has_space s ≡ false → trim_space s ≡ s
unfolding trim_space
trim_space-none s h = rw (skip_spaces-none s h) (cut_spaces-none s h)
