-- ===== src/LogTail/Flushes.antt =====
-- The flushes of a log tail land in goroutines of their own, in any order.
use pgwarden.Prelude.{
  ℕ, ◌+◌, ◌-◌, ◌≤◌, ◌<◌, ◌≡◌, refl, ap, true, false, not, ◌||◌, List, [], ◌∷◌, Bytes, is_empty, ltb,
  leb, arith, All, All-In, All-imp, All-append, In, Bool-cases, inl, inr,
}
use pgwarden.LogTail.{
  Tail, Flush, new_tail, min_flush_gap, maybe_flush, drained, write, run_flush, flush_now,
}

leb-true : (a b : ℕ) → a ≤ b → leb a b ≡ true
leb-true a b h = ground arith

leb-false : (a b : ℕ) → b < a → leb a b ≡ false
leb-false a b h = ground arith

-- What happens to a tail during a run: the dump writes, or a flush that was started lands.
pub data Step : Tail → Tail → Type 0 where
  wrote : (t : Tail) (now : ℕ) (p : Bytes) → Step t (write t now p)
  landed : (t : Tail) (f : Flush) → In f t.in_flight → Step t (run_flush t f)

pub data Steps (t : Tail) : Tail → Type 0 where
  here : Steps t t
  next : {u v : Tail} → Steps t u → Step u v → Steps t v

-- No flush has a number that was not given out.
IsOrdered : Tail → Type 0
IsOrdered t = All (λ f. f.seq ≤ t.seq) t.in_flight × (t.flushed_seq ≤ t.seq)

maybe_flush-IsOrdered : (now : ℕ) (t : Tail) → IsOrdered t → IsOrdered (maybe_flush now t)
unfolding maybe_flush IsOrdered
maybe_flush-IsOrdered now t h = elim (Bool-cases (not t.has_flush || is_empty t.lines)) [
  | inl off ↦ rw off h
  | inr on ↦ elim (Bool-cases (ltb (now - t.last_flush) min_flush_gap)) [
    | inl early ↦ rw on (rw early h)
    | inr due ↦ rw on (
        rw due (
          All-append (λ f. f.seq ≤ t.seq + 1) t.in_flight
              (record { seq = t.seq + 1; lines = t.lines } ∷ [])
              (All-imp (λ f. f.seq ≤ t.seq) (λ f. f.seq ≤ t.seq + 1) t.in_flight
                (λ f le. omega arith) h.0)
              (omega arith, tt),
          omega (arith, h.1),
        ))
  ]
]

run_flush-IsOrdered :
    (t : Tail) (f : Flush) → f.seq ≤ t.seq → IsOrdered t → IsOrdered (run_flush t f)
unfolding run_flush IsOrdered
run_flush-IsOrdered t f le h = elim (Bool-cases (leb f.seq t.flushed_seq)) [
  | inl old ↦ rw old h
  | inr new ↦ rw new (h.0, le)
]

Step-IsOrdered : {t u : Tail} → Step t u → IsOrdered t → IsOrdered u
unfolding write IsOrdered
Step-IsOrdered (wrote t now p) h =
    maybe_flush-IsOrdered now (record t { pending = (drained t p).0; lines = (drained t p).1 }) h
Step-IsOrdered (landed t f m) h =
    run_flush-IsOrdered t f (All-In (λ f. f.seq ≤ t.seq) t.in_flight h.0 m) h

Steps-IsOrdered : {t u : Tail} → Steps t u → IsOrdered t → IsOrdered u
Steps-IsOrdered here h = h
Steps-IsOrdered (next r s) h = Step-IsOrdered s (Steps-IsOrdered r h)

-- The flushes land, one after the other.
pub land_all : Tail → List Flush → Tail
land_all t [] = t
land_all t (f ∷ fs) = land_all (run_flush t f) fs

land_all-old :
    (t : Tail) (fs : List Flush) → All (λ f. f.seq ≤ t.flushed_seq) fs → land_all t fs ≡ t
unfolding land_all run_flush
land_all-old t [] h = refl
land_all-old t (f ∷ fs) h = rw (leb-true f.seq t.flushed_seq h.0) (land_all-old t fs h.1)

flush_now-lands :
    (t : Tail)
    → t.has_flush ≡ true
    → is_empty t.lines ≡ false
    → t.flushed_seq ≤ t.seq
    → flush_now t ≡ record t {
      seq = t.seq + 1;
      flushed_seq = t.seq + 1;
      flushed = record { seq = t.seq + 1; lines = t.lines } ∷ t.flushed;
    }
unfolding flush_now run_flush
flush_now-lands t on full le = rw (on, full, leb-false (t.seq + 1) t.flushed_seq (omega arith)) refl

-- However the writes and the flushes of a run went, `FlushNow` at its end publishes the lines that the
-- tail then holds, and no flush that was started before can overwrite them, in whatever order those
-- that were started land afterwards; the tail has a flush function and holds a line.
pub flush_now-wins :
    (t : Tail) (late : List Flush)
    → Steps (new_tail true) t
    → t.has_flush ≡ true
    → is_empty t.lines ≡ false
    → All (λ f. In f t.in_flight) late
    → (land_all (flush_now t) late).flushed
      ≡ record { seq = t.seq + 1; lines = t.lines } ∷ t.flushed
unfolding IsOrdered new_tail
flush_now-wins t late steps on full started =
    let ordered = Steps-IsOrdered steps (tt, omega arith) in
    rw (flush_now-lands t on full ordered.1) (
      ap (λ (u : Tail). u.flushed)
        (land_all-old
          (record t {
            seq = t.seq + 1;
            flushed_seq = t.seq + 1;
            flushed = record { seq = t.seq + 1; lines = t.lines } ∷ t.flushed;
          })
          late
          (All-imp (λ f. In f t.in_flight) (λ f. f.seq ≤ t.seq + 1) late
            (λ f m. let le = All-In (λ g. g.seq ≤ t.seq) t.in_flight ordered.0 m in omega arith)
            started)))
