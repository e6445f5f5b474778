-- ===== src/Go/Strings.antt =====
-- The functions of package `strings` that the source calls. The letters that Go knows beyond ASCII are not
-- among those that change their case.
use pgwarden.Prelude.{
  ℕ, zero, suc, ◌+◌, ◌-◌, Bool, true, false, ◌&&◌, ◌||◌, Option, none, some, List, [], ◌∷◌, ◌++◌,
  Bytes, text_eq, length, drop, is_empty, any, leb, ◌==◌, if◌then◌else◌,
}

unfoldable pub is_space : ℕ → Bool
is_space c = c == 32 || (leb 9 c && leb c 13)

-- The bytes of a space beyond ASCII, by unicode.IsSpace: U+0085 and U+00A0, then U+1680, U+2000 to U+200A,
-- U+2028, U+2029, U+202F, U+205F and U+3000. No byte of a character is the first one of another.
unfoldable pub is_wide_space2 : ℕ → ℕ → Bool
is_wide_space2 c d = c == 194 && (d == 133 || d == 160)

unfoldable pub is_wide_space3 : ℕ → ℕ → ℕ → Bool
is_wide_space3 c d e =
    (c == 225 && (d == 154 && e == 128))
    || ((c == 226
          && ((d == 128 && ((leb 128 e && leb e 138) || (e == 168 || (e == 169 || e == 175))))
              || (d == 129 && e == 159)))
        || (c == 227 && (d == 128 && e == 128)))

unfoldable pub wide_space : ℕ → Bytes → ℕ
unfolding is_wide_space2 is_wide_space3
wide_space c [] = 0
wide_space c (d ∷ []) = if is_wide_space2 c d then 2 else 0
wide_space c (d ∷ e ∷ s) = if is_wide_space2 c d then 2 else if is_wide_space3 c d e then 3 else 0

-- How many bytes the space takes that a text begins with; 0 if it begins with none.
unfoldable pub space_width : ℕ → Bytes → ℕ
unfolding is_space wide_space
space_width c s = if is_space c then 1 else wide_space c s

unfoldable pub trim_left : (ℕ → Bool) → Bytes → Bytes
trim_left p [] = []
trim_left p (c ∷ s) = let rest = trim_left p s in if p c then rest else c ∷ s

unfoldable pub trim_right : (ℕ → Bool) → Bytes → Bytes
trim_right p [] = []
trim_right p (c ∷ s) = let rest = trim_right p s in if is_empty rest && p c then [] else c ∷ rest

unfoldable pub trim : (ℕ → Bool) → Bytes → Bytes
unfolding trim_left trim_right
trim p s = trim_right p (trim_left p s)

-- The text behind the spaces that it begins with; so many bytes of a space are still to come.
unfoldable pub skip_spaces : ℕ → Bytes → Bytes
unfolding space_width
skip_spaces k [] = []
skip_spaces (suc k) (c ∷ s) = skip_spaces k s
skip_spaces zero (c ∷ s) =
    let rest = skip_spaces (space_width c s - 1) s in if space_width c s == 0 then c ∷ s else rest

unfoldable pub cut_spaces : Bytes → Bytes
unfolding skip_spaces
cut_spaces [] = []
cut_spaces (c ∷ s) =
    let rest = cut_spaces s in if is_empty (skip_spaces 0 (c ∷ s)) then [] else c ∷ rest

-- strings.TrimSpace
unfoldable pub trim_space : Bytes → Bytes
unfolding skip_spaces cut_spaces
trim_space s = cut_spaces (skip_spaces 0 s)

-- strings.HasPrefix
unfoldable pub has_prefix : Bytes → Bytes → Bool
has_prefix s [] = true
has_prefix [] (p ∷ ps) = false
has_prefix (c ∷ s) (p ∷ ps) = c == p && has_prefix s ps

-- strings.HasSuffix
unfoldable pub has_suffix : Bytes → Bytes → Bool
unfolding text_eq
has_suffix s suffix =
    leb (length suffix) (length s) && text_eq (drop (length s - length suffix) s) suffix

-- strings.TrimPrefix
unfoldable pub trim_prefix : Bytes → Bytes → Bytes
unfolding has_prefix
trim_prefix s prefix = if has_prefix s prefix then drop (length prefix) s else s

-- strings.Contains with a text of one byte
unfoldable pub contains : Bytes → ℕ → Bool
contains s c = any (λ d. d == c) s

unfoldable pub before_cut : ℕ → Option (Bytes × Bytes) → Option (Bytes × Bytes)
before_cut c none = none
before_cut c (some (a, b)) = some (c ∷ a, b)

-- strings.Cut at a separator of one byte: what stands before and after its first occurrence.
unfoldable pub cut : ℕ → Bytes → Option (Bytes × Bytes)
cut sep [] = none
cut sep (c ∷ s) = let rest = cut sep s in if c == sep then some ([], s) else before_cut c rest

abbrev push_head : ℕ → List Bytes → List Bytes
push_head c [] = (c ∷ []) ∷ []
push_head c (p ∷ ps) = (c ∷ p) ∷ ps

-- strings.Split at a separator of one byte
unfoldable pub split : ℕ → Bytes → List Bytes
split sep [] = [] ∷ []
split sep (c ∷ s) = let rest = split sep s in if c == sep then [] ∷ rest else push_head c rest

unfoldable pub cons_field : Bytes → List Bytes → List Bytes
cons_field [] fs = fs
cons_field (c ∷ w) fs = (c ∷ w) ∷ fs

-- The word that the text begins with, and the fields behind it; so many bytes of a space are still to come.
unfoldable pub fields_from : ℕ → Bytes → Bytes × List Bytes
unfolding space_width
fields_from k [] = ([], [])
fields_from (suc k) (c ∷ s) = fields_from k s
fields_from zero (c ∷ s) =
    let (w, fs) = fields_from (space_width c s - 1) s in
    if space_width c s == 0 then (c ∷ w, fs) else ([], cons_field w fs)

-- strings.Fields
unfoldable pub fields : Bytes → List Bytes
unfolding fields_from
fields s = let (w, fs) = fields_from 0 s in cons_field w fs

-- strings.Join
unfoldable pub join : Bytes → List Bytes → Bytes
join sep [] = []
join sep (p ∷ []) = p
join sep (p ∷ q ∷ ps) = p ++ (sep ++ join sep (q ∷ ps))

-- What stands behind the last separator, where there is one: s[strings.LastIndex(s, sep)+1:].
unfoldable pub after_last : ℕ → Bytes → Bytes
unfolding contains
after_last sep [] = []
after_last sep (c ∷ s) =
    let rest = after_last sep s in if contains s sep then rest else if c == sep then s else c ∷ s

-- strings.ReplaceAll of one byte by nothing
unfoldable pub remove_all : ℕ → Bytes → Bytes
remove_all d [] = []
remove_all d (c ∷ s) = let rest = remove_all d s in if c == d then rest else c ∷ rest

-- strings.ToUpper
unfoldable pub to_upper : Bytes → Bytes
to_upper [] = []
to_upper (c ∷ s) = (if leb b'a' c && leb c b'z' then c - 32 else c) ∷ to_upper s

-- strings.ToLower
unfoldable pub to_lower : Bytes → Bytes
to_lower [] = []
to_lower (c ∷ s) = (if leb b'A' c && leb c b'Z' then c + 32 else c) ∷ to_lower s

-- strings.EqualFold
unfoldable pub equal_fold : Bytes → Bytes → Bool
unfolding text_eq to_lower
equal_fold a b = text_eq (to_lower a) (to_lower b)
