-- ===== src/LogTail/Lines.antt =====
-- The lines of a tail (internal/util/logtail), however the output is cut into writes.
use pgwarden.Prelude.{
  ℕ, zero, suc, ◌-◌, ◌≤◌, ◌≡◌, refl, ap, sym, ◌∙◌, subst, false, not, ◌||◌, none, some, List, [],
  ◌∷◌, ◌++◌, Bytes, length, is_empty, length-keep_last-le, length-append, keep_last-drop, All,
  All-append, any, ltb, drop, ◌==◌, arith, Bool-cases, ==_iff, inl, inr, if◌then◌else◌,
}
use mathlib.Core.List.{append_assoc, append-nil}
use pgwarden.Go.Strings.{cut, before_cut, trim_space}
use pgwarden.LogTail.{Tail, max_lines, min_flush_gap, add_line, drain, drained, maybe_flush, write}

-- The same, a byte at a time.
pub feed : Bytes → List Bytes → Bytes → Bytes × List Bytes
feed pending lines [] = (pending, lines)
feed pending lines (c ∷ s) =
    let ended = feed [] (add_line (trim_space pending) lines) s in
    let longer = feed (pending ++ c ∷ []) lines s in if c == b'\n' then ended else longer

-- A text that holds no line break.
abbrev pub IsOneLine : Bytes → Type 0
IsOneLine s = any (λ d. d == b'\n') s ≡ false

cut-one_line : (s rest : Bytes) → IsOneLine s → cut b'\n' (s ++ (b'\n' ∷ rest)) ≡ some (s, rest)
unfolding cut before_cut
cut-one_line [] rest h = refl
cut-one_line (c ∷ s) rest h = elim (Bool-cases (c == b'\n')) [
  | inl e ↦ absurd (ground (arith))
  | inr e ↦ rw e (rw (cut-one_line s rest (ground arith)) refl)
]

cut-none : (s : Bytes) → IsOneLine s → cut b'\n' s ≡ none
unfolding cut before_cut
cut-none [] h = refl
cut-none (c ∷ s) h = elim (Bool-cases (c == b'\n')) [
  | inl e ↦ absurd (ground (arith))
  | inr e ↦ rw e (rw (cut-none s (ground arith)) refl)
]

IsOneLine-snoc : (s : Bytes) (c : ℕ) → IsOneLine s → (c == b'\n') ≡ false → IsOneLine (s ++ c ∷ [])
IsOneLine-snoc [] c h e = rw e refl
IsOneLine-snoc (d ∷ s) c h e = elim (Bool-cases (d == b'\n')) [
  | inl e' ↦ absurd (ground (arith))
  | inr e' ↦ rw e' (IsOneLine-snoc s c (ground arith) e)
]

drain-none : (f : ℕ) (s : Bytes) (lines : List Bytes) → IsOneLine s → drain f s lines ≡ (s, lines)
unfolding drain
drain-none zero s lines h = refl
drain-none (suc f) s lines h = rw (cut-none s h, drain) refl

drain-line :
    (f : ℕ) (s rest : Bytes) (lines : List Bytes)
    → IsOneLine s
    → drain (suc f) (s ++ (b'\n' ∷ rest)) lines ≡ drain f rest (add_line (trim_space s) lines)
unfolding drain
drain-line f s rest lines h = rw (cut-one_line s rest h, drain) refl

pub drain-feed :
    (f : ℕ) (pending s : Bytes) (lines : List Bytes)
    → IsOneLine pending
    → length s ≤ f
    → drain f (pending ++ s) lines ≡ feed pending lines s
unfolding feed
drain-feed f pending [] lines h le = rw (append-nil pending) (drain-none f pending lines h)
drain-feed zero pending (c ∷ s) lines h le = absurd (omega arith)
drain-feed (suc f) pending (c ∷ s) lines h le = elim (Bool-cases (c == b'\n')) [
  | inl e ↦ rw e (
      subst
        (λ (d : ℕ).
          drain (suc f) (pending ++ (d ∷ s)) lines
          ≡ feed [] (add_line (trim_space pending) lines) s)
        (sym ((==_iff c b'\n').0 e))
        (drain-line f pending s lines h
          ∙ drain-feed f [] s (add_line (trim_space pending) lines) refl (omega arith)))
  | inr e ↦ rw e (
      rw (← append_assoc pending (c ∷ []) s) (
        drain-feed (suc f) (pending ++ c ∷ []) s lines (IsOneLine-snoc pending c h e)
          (omega arith)))
]

feed-append :
    (pending p q : Bytes) (lines : List Bytes)
    → feed pending lines (p ++ q) ≡ feed (feed pending lines p).0 (feed pending lines p).1 q
unfolding feed
feed-append pending [] q lines = refl
feed-append pending (c ∷ p) q lines = elim (Bool-cases (c == b'\n')) [
  | inl e ↦ rw e (feed-append [] p q (add_line (trim_space pending) lines))
  | inr e ↦ rw e (feed-append (pending ++ c ∷ []) p q lines)
]

feed-IsOneLine :
    (pending s : Bytes) (lines : List Bytes)
    → IsOneLine pending
    → IsOneLine (feed pending lines s).0
unfolding feed
feed-IsOneLine pending [] lines h = h
feed-IsOneLine pending (c ∷ s) lines h = elim (Bool-cases (c == b'\n')) [
  | inl e ↦ rw e (feed-IsOneLine [] s (add_line (trim_space pending) lines) refl)
  | inr e ↦ rw e (feed-IsOneLine (pending ++ c ∷ []) s lines (IsOneLine-snoc pending c h e))
]

-- A flush changes neither the lines nor the pending text.
maybe_flush-text :
    (now : ℕ) (t : Tail)
    → ((maybe_flush now t).pending ≡ t.pending) × ((maybe_flush now t).lines ≡ t.lines)
unfolding maybe_flush
maybe_flush-text now t = elim (Bool-cases (not t.has_flush || is_empty t.lines)) [
  | inl off ↦ rw off (refl, refl)
  | inr on ↦ elim (Bool-cases (ltb (now - t.last_flush) min_flush_gap)) [
    | inl early ↦ rw on (rw early (refl, refl))
    | inr due ↦ rw on (rw due (refl, refl))
  ]
]

-- The pending text and the lines of a tail.
abbrev pub text_of : Tail → Bytes × List Bytes
text_of t = (t.pending, t.lines)

write-feed :
    (t : Tail) (now : ℕ) (p : Bytes)
    → IsOneLine t.pending
    → text_of (write t now p) ≡ feed t.pending t.lines p
unfolding write drained
write-feed t now p h =
    let fed =
      drain-feed (length (t.pending ++ p)) t.pending p t.lines h
        (omega (arith, length-append t.pending p)) in
    let kept =
      maybe_flush-text now (record t { pending = (drained t p).0; lines = (drained t p).1 }) in
    rw (kept.0, kept.1) fed

-- The output of `pg_dump` may reach the tail in pieces: two writes, at any times, leave the same lines
-- and the same pending text as one write of both texts, where no complete line was pending before; and
-- then none is pending afterwards.
pub write_split :
    (t : Tail) (now later at_once : ℕ) (p q : Bytes)
    → IsOneLine t.pending
    → (text_of (write (write t now p) later q) ≡ text_of (write t at_once (p ++ q)))
      × IsOneLine (write t at_once (p ++ q)).pending
write_split t now later at_once p q h =
    let first = write-feed t now p h in
    let whole = write-feed t at_once (p ++ q) h in
    let first_one : IsOneLine (write t now p).pending =
      subst (λ (r : Bytes × List Bytes). IsOneLine r.0) (sym first)
        (feed-IsOneLine t.pending p t.lines h) in
    (
      write-feed (write t now p) later q first_one
          ∙ (ap (λ (r : Bytes × List Bytes). feed r.0 r.1 q) first
              ∙ (sym (feed-append t.pending p q t.lines) ∙ sym whole)),
      subst (λ (r : Bytes × List Bytes). IsOneLine r.0) (sym whole)
          (feed-IsOneLine t.pending (p ++ q) t.lines h),
    )

-- At most `max_lines` lines, none of them empty.
unfoldable pub IsTail : List Bytes → Type 0
IsTail lines = (length lines ≤ max_lines) × All (λ l. is_empty l ≡ false) lines

All-drop : (P : Bytes → Type 0) (n : ℕ) (xs : List Bytes) → All P xs → All P (drop n xs)
All-drop P zero xs h = h
All-drop P (suc n) [] h = tt
All-drop P (suc n) (x ∷ xs) h = All-drop P n xs h.1

add_line-IsTail : (l : Bytes) (lines : List Bytes) → IsTail lines → IsTail (add_line l lines)
unfolding add_line IsTail
add_line-IsTail l lines h = elim (Bool-cases (is_empty l)) [
  | inl e ↦ rw e h
  | inr e ↦ rw e (
    length-keep_last-le max_lines (lines ++ l ∷ []),
    rw (keep_last-drop max_lines (lines ++ l ∷ [])) (
        All-drop (λ x. is_empty x ≡ false) (length (lines ++ l ∷ []) - max_lines) (lines ++ l ∷ [])
          (All-append (λ x. is_empty x ≡ false) lines (l ∷ []) h.1 (e, tt))),
  )
]

feed-IsTail :
    (pending s : Bytes) (lines : List Bytes) → IsTail lines → IsTail (feed pending lines s).1
unfolding feed
feed-IsTail pending [] lines h = h
feed-IsTail pending (c ∷ s) lines h = elim (Bool-cases (c == b'\n')) [
  | inl e ↦ rw e (
      feed-IsTail [] s (add_line (trim_space pending) lines)
        (add_line-IsTail (trim_space pending) lines h))
  | inr e ↦ rw e (feed-IsTail (pending ++ c ∷ []) s lines h)
]

-- A write keeps the tail at no more than twenty lines, none of them empty, where no complete line was
-- pending before it.
pub write-IsTail :
    (t : Tail) (now : ℕ) (p : Bytes)
    → IsOneLine t.pending
    → IsTail t.lines
    → IsTail (write t now p).lines
write-IsTail t now p one h =
    subst (λ (r : Bytes × List Bytes). IsTail r.1) (sym (write-feed t now p one))
      (feed-IsTail t.pending p t.lines h)
