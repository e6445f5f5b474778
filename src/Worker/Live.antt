-- ===== src/Worker/Live.antt =====
-- The fate of a queued execution under the rounds of claimLoop (internal/service/worker/worker.go).
use pgwarden.Prelude.{
  ℕ, zero, suc, ◌+◌, ◌≤◌, ◌≡◌, refl, sym, ap, ◌∙◌, subst, Bool, true, false, ◌&&◌, Option, none,
  some, List, [], ◌∷◌, Bytes, All, All-All, All-In, In, ◌⊎◌, inl, inr, Bool-cases, Option-cases,
  ◌==◌, ==_iff, leb, arith, if◌then◌else◌,
}
use pgwarden.Queue.{
  Status, success, failed, Execution, Db, claimable, oldest, claimed, update_where,
}
use pgwarden.Queue.Rows.{All-update_split, All-update_where, IsOldest, oldest_lem, oldest-none}
use pgwarden.Run.{Calls, RunEnv}
use pgwarden.Run.Settles.{IsSettled, EndsAreWritten, run_settles}
use pgwarden.Worker.{Worker, claim_and_run_execution, claim_loop}
use pgwarden.Worker.Rounds.{worked, round-rows, round-none}

abbrev pub no_locks : ℕ → Bool
no_locks id = false

abbrev pub count_rows : (Execution → Bool) → List Execution → ℕ
count_rows p [] = 0
count_rows p (e ∷ es) = (if p e then 1 else 0) + count_rows p es

-- A row that the worker may claim no later than `e`.
pub is_ahead : Db → List Bytes → Execution → Execution → Bool
is_ahead db tags e f = claimable db tags no_locks f && leb f.started_at e.started_at

-- The rows that the worker may claim no later than `e`, among them `e` itself.
pub ahead : Db → List Bytes → Execution → ℕ
ahead db tags e = count_rows (is_ahead db tags e) db.executions

-- The execution is over.
abbrev pub HasEnded : Status → Type 0
HasEnded s = (s ≡ success) ⊎ (s ≡ failed)

count_rows-le :
    (q p : Execution → Bool) (f : Execution → Execution) (es : List Execution)
    → ((e : Execution) → p e ≡ true → q (f e) ≡ false)
    → count_rows q (update_where p f es) ≤ count_rows q es
unfolding update_where
count_rows-le q p f [] h = omega arith
count_rows-le q p f (e ∷ es) h = elim (Bool-cases (p e)) [
  | inl fits ↦ rw (fits, h e fits) (omega (arith, count_rows-le q p f es h))
  | inr other ↦ rw other (omega (arith, count_rows-le q p f es h))
]

-- An update that takes a row of a count away makes it smaller.
count_rows-lt :
    (q p : Execution → Bool) (f : Execution → Execution) (es : List Execution) (r : Execution)
    → ((e : Execution) → p e ≡ true → q (f e) ≡ false)
    → In r es
    → p r ≡ true
    → q r ≡ true
    → suc (count_rows q (update_where p f es)) ≤ count_rows q es
unfolding update_where
count_rows-lt q p f [] r h m a b = absurd m
count_rows-lt q p f (e ∷ es) r h (inl same) a b =
    let here = ap (λ (x : Execution). p x) same ∙ a in
    let counted = ap (λ (x : Execution). q x) same ∙ b in
    rw (here, h e here, counted) (omega (arith, count_rows-le q p f es h))
count_rows-lt q p f (e ∷ es) r h (inr m) a b = elim (Bool-cases (p e)) [
  | inl fits ↦ rw (fits, h e fits) (omega (arith, count_rows-lt q p f es r h m a b))
  | inr other ↦ rw other (omega (arith, count_rows-lt q p f es r h m a b))
]

In-update_where :
    (p : Execution → Bool) (f : Execution → Execution) (es : List Execution) (e : Execution)
    → In e es
    → p e ≡ false
    → In e (update_where p f es)
unfolding update_where
In-update_where p f [] e m h = absurd m
In-update_where p f (x ∷ es) e (inl same) h =
    let still = ap (λ (y : Execution). p y) same ∙ h in rw still (inl same)
In-update_where p f (x ∷ es) e (inr m) h = inr (In-update_where p f es e m h)

settled-HasEnded :
    (e : Execution) (o : Option Bytes) (now : ℕ) → IsSettled e o now → HasEnded e.status
unfolding IsSettled
settled-HasEnded e none now h = inl h.0
settled-HasEnded e (some x) now h = inr h.0

passed :
    (db : Db) (tags : List Bytes) (e f : Execution)
    → claimable db tags no_locks f ≡ false
    → is_ahead db tags e f ≡ false
unfolding is_ahead
passed db tags e f h = rw h refl

comes_first :
    (db : Db) (tags : List Bytes) (e r : Execution)
    → claimable db tags no_locks r ≡ true
    → r.started_at ≤ e.started_at
    → is_ahead db tags e r ≡ true
unfolding is_ahead
comes_first db tags e r h le = rw h (ground arith)

count_rows-pos :
    (q : Execution → Bool) (es : List Execution) (e : Execution)
    → In e es
    → q e ≡ true
    → 1 ≤ count_rows q es
count_rows-pos q [] e m h = absurd m
count_rows-pos q (x ∷ es) e (inl same) h =
    let counted = ap (λ (y : Execution). q y) same ∙ h in rw counted (omega arith)
count_rows-pos q (x ∷ es) e (inr m) h = omega (arith, count_rows-pos q es e m h)

module _ (calls : ℕ → Calls) (env : RunEnv) (w : Worker)
    (written : (i : ℕ) → EndsAreWritten (calls i)) where
  -- The row that a round has worked on is over.
  worked-HasEnded :
      (db : Db) (e : Execution) (i : ℕ) → e.id ≡ i → HasEnded (worked calls env w db i e).status
  unfolding worked
  worked-HasEnded db e i same =
      subst (λ (n : ℕ). HasEnded (worked calls env w db n e).status) same
        (settled-HasEnded _ _ _ (run_settles (calls e.id) env (claimed db w.name e) (written e.id)))

  ended-unclaimable :
      (db : Db) (tags : List Bytes) (e : Execution)
      → HasEnded e.status
      → claimable db tags no_locks e ≡ false
  unfolding claimable
  ended-unclaimable db tags e (inl h) = rw h
  ended-unclaimable db tags e (inr h) = rw h

  -- The table after a round that claims `r`.
  after_round : Db → Execution → Db
  after_round db r = record db {
    executions = update_where (λ e. e.id == r.id) (worked calls env w db r.id) db.executions;
  }

  rounds :
      (db : Db) (r : Execution)
      → oldest (claimable db w.tags no_locks) db.executions ≡ some r
      → claim_and_run_execution calls env w none no_locks db ≡ (true, after_round db r)
  unfolding after_round
  rounds db r found = round-rows calls env w db no_locks r found

  -- Once the rows of an identifier are over, they stay so.
  round_keeps :
      (db : Db) (i : ℕ) (r : Execution)
      → All (λ f. f.id ≡ i → HasEnded f.status) db.executions
      → All (λ f. f.id ≡ i → HasEnded f.status) (after_round db r).executions
  unfolding after_round
  round_keeps db i r h = All-update_where _ _ _ db.executions h (
      All-All _ db.executions
        (λ e fits same. worked-HasEnded db e r.id ((==_iff e.id r.id).0 fits)))

  -- The loop, after its first round.
  loop-round :
      (n : ℕ) (db after : Db) (b : Bool)
      → claim_and_run_execution calls env w none no_locks db ≡ (b, after)
      → claim_loop calls env w (suc n) db ≡ claim_loop calls env w n after
  unfolding claim_loop
  loop-round n db after b h = ap (λ (r : Bool × Db). claim_loop calls env w n r.1) h

  loop_keeps :
      (n : ℕ) (db : Db) (i : ℕ)
      → All (λ f. f.id ≡ i → HasEnded f.status) db.executions
      → All (λ f. f.id ≡ i → HasEnded f.status) (claim_loop calls env w n db).executions
  unfolding claim_loop
  loop_keeps zero db i h = h
  loop_keeps (suc n) db i h =
      elim (Option-cases (oldest (claimable db w.tags no_locks) db.executions)) [
        | inl empty ↦
            subst (λ (d : Db). All (λ f. f.id ≡ i → HasEnded f.status) d.executions)
              (sym (loop-round n db db false (round-none calls env w db no_locks empty)))
              (loop_keeps n db i h)
        | inr (r, found) ↦
            subst (λ (d : Db). All (λ f. f.id ≡ i → HasEnded f.status) d.executions)
              (sym (loop-round n db (after_round db r) true (rounds db r found)))
              (loop_keeps n (after_round db r) i (round_keeps db i r h))
      ]

  -- A round that claims a row of the identifier ends all rows of it.
  round_ends :
      (db : Db) (e r : Execution)
      → e.id ≡ r.id
      → All (λ f. f.id ≡ e.id → HasEnded f.status) (after_round db r).executions
  unfolding after_round
  round_ends db e r same =
      All-update_split _ _ _ db.executions
        (All-All _ db.executions
          (λ f other at. absurd (let yes = (==_iff f.id r.id).1 (at ∙ same) in cc)))
        (All-All _ db.executions
          (λ f fits at. worked-HasEnded db f r.id ((==_iff f.id r.id).0 fits)))

  -- A round that claims another row brings the row nearer.
  round_nears :
      (db : Db) (e r : Execution)
      → In e db.executions
      → claimable db w.tags no_locks e ≡ true
      → IsOldest (claimable db w.tags no_locks) db.executions r
      → suc (ahead (after_round db r) w.tags e) ≤ ahead db w.tags e
  unfolding ahead after_round is_ahead claimable
  round_nears db e r m fits old =
      count_rows-lt (is_ahead db w.tags e) (λ f. f.id == r.id) _ db.executions r
        (λ f taken. passed (after_round db r) w.tags e (worked calls env w db r.id f) (
          ended-unclaimable (after_round db r) w.tags (worked calls env w db r.id f)
            (worked-HasEnded db f r.id ((==_iff f.id r.id).0 taken))))
        old.0 ((==_iff r.id r.id).1 refl)
        (comes_first db w.tags e r old.1 (
          All-In
            (λ (f : Execution). claimable db w.tags no_locks f ≡ true → r.started_at ≤ f.started_at)
            db.executions old.2 m fits))

  row_is_reached :
      (n : ℕ) (db : Db) (e : Execution)
      → ahead db w.tags e ≤ n
      → In e db.executions
      → claimable db w.tags no_locks e ≡ true
      → All (λ f. f.id ≡ e.id → HasEnded f.status) (claim_loop calls env w n db).executions
  unfolding claim_loop
  row_is_reached zero db e h m fits =
      let near : 1 ≤ ahead db w.tags e =
        unfold ahead in
        count_rows-pos (is_ahead db w.tags e) db.executions e m
          (comes_first db w.tags e e fits (omega arith)) in
      absurd (omega (arith, h, near))
  row_is_reached (suc n) db e h m fits =
      elim (Option-cases (oldest (claimable db w.tags no_locks) db.executions)) [
        | inl empty ↦ absurd (
            let no =
              All-In (λ (f : Execution). claimable db w.tags no_locks f ≡ false) db.executions
                (oldest-none _ db.executions empty) m in
            cc)
        | inr (r, found) ↦
            subst (λ (d : Db). All (λ f. f.id ≡ e.id → HasEnded f.status) d.executions)
              (sym (loop-round n db (after_round db r) true (rounds db r found)))
              (elim (Bool-cases (e.id == r.id)) [
                | inl same ↦
                    loop_keeps n (after_round db r) e.id
                      (round_ends db e r ((==_iff e.id r.id).0 same))
                | inr other ↦
                    row_is_reached n (after_round db r) e
                      (omega
                        (arith, h, round_nears db e r m fits (oldest_lem _ db.executions r found)))
                      (unfold after_round in In-update_where _ _ db.executions e m other)
                      (unfold after_round claimable in fits)
              ])
      ]

-- A worker gets to every execution that it may claim: if nobody else touches the table and the metadata
-- database answers, executing the updates of a status, then after as many rounds as there are rows to claim that are not younger, every
-- row of the execution says success or failed, whatever the runs before it came to.
pub queued_is_reached :
    (calls : ℕ → Calls) (env : RunEnv) (w : Worker) (db : Db) (e : Execution)
    → ((i : ℕ) → EndsAreWritten (calls i))
    → In e db.executions
    → claimable db w.tags no_locks e ≡ true
    → All
        (λ f. f.id ≡ e.id → HasEnded f.status)
        (claim_loop calls env w (ahead db w.tags e) db).executions
queued_is_reached calls env w db e written m fits =
    row_is_reached calls env w written (ahead db w.tags e) db e (omega arith) m fits
