-- ===== src/Queue/Rows.antt =====
-- What the updates of the queue do to the rows of the table.
use pgwarden.Prelude.{
  ℕ, ◌≤◌, ◌≡◌, ◌≢◌, refl, sym, ap, ◌∙◌, Bool, true, false, none, some, List, [], ◌∷◌, All, All-imp,
  All-In, In, subst, inl, inr, any, arith, leb, Bool-cases, Option-cases, some_inj, leb→le,
  if◌then◌else◌,
}
use native.Mathlib.Nat.{le_refl, le_trans}
use pgwarden.Queue.{Execution, earlier, is_active, active_for, update_where, oldest}

-- Every backup has one active row at most.
abbrev pub OneActive : List Execution → Type 0
OneActive [] = Unit
OneActive (e ∷ es) = (is_active e ≡ true → any (active_for e.backup_id) es ≡ false) × OneActive es

abbrev pub DistinctIds : List Execution → Type 0
DistinctIds [] = Unit
DistinctIds (e ∷ es) = All (λ f. f.id ≢ e.id) es × DistinctIds es

-- An update of the rows under `p` keeps what identifies a row, and activates none.
pub record IsCalm (p : Execution → Bool) (f : Execution → Execution) (es : List Execution)
    : Type 0 where
  pub same_id : (e : Execution) → (f e).id ≡ e.id
  pub same_backup : (e : Execution) → (f e).backup_id ≡ e.backup_id
  pub no_activity : All (λ e. p e ≡ true → is_active (f e) ≡ true → is_active e ≡ true) es

-- A predicate holds of all rows after an update if it holds of those that the update leaves and of
-- what it makes of the others.
pub All-update_split {κ} :
    (P : Execution → Type κ) (p : Execution → Bool) (f : Execution → Execution)
    (es : List Execution)
    → All (λ e. p e ≡ false → P e) es
    → All (λ e. p e ≡ true → P (f e)) es
    → All P (update_where p f es)
unfolding update_where
All-update_split P p f [] h k = tt
All-update_split P p f (e ∷ es) h k = elim (Bool-cases (p e)) [
  | inl fits ↦ rw fits (k.0 fits, All-update_split P p f es h.1 k.1)
  | inr other ↦ rw other (h.0 other, All-update_split P p f es h.1 k.1)
]

pub All-update_where {κ} :
    (P : Execution → Type κ) (p : Execution → Bool) (f : Execution → Execution)
    (es : List Execution)
    → All P es
    → All (λ e. p e ≡ true → P (f e)) es
    → All P (update_where p f es)
All-update_where P p f es h k = All-update_split P p f es (All-imp _ _ es (λ e q _. q) h) k

module _ (p : Execution → Bool) (f : Execution → Execution) where
  pub IsCalm-tail : (e : Execution) (es : List Execution) → IsCalm p f (e ∷ es) → IsCalm p f es
  IsCalm-tail e es c = record {
    same_id = c.same_id;
    same_backup = c.same_backup;
    no_activity = c.no_activity.1;
  }

  -- No row of a backup is active after the update if none was before.
  pub inactive-update_where :
      (b : ℕ) (es : List Execution)
      → IsCalm p f es
      → any (active_for b) es ≡ false
      → any (active_for b) (update_where p f es) ≡ false
  unfolding update_where active_for
  inactive-update_where b [] c h = refl
  inactive-update_where b (e ∷ es) c h =
      ground
        (arith, inactive-update_where b es (IsCalm-tail e es c), c.same_backup e, c.no_activity.0)

  pub OneActive-update_where :
      (es : List Execution) → IsCalm p f es → OneActive es → OneActive (update_where p f es)
  unfolding update_where
  OneActive-update_where [] c h = tt
  OneActive-update_where (e ∷ es) c h = (
    ground (
      arith,
      inactive-update_where e.backup_id es (IsCalm-tail e es c),
      c.same_backup e,
      c.no_activity.0,
      h.0,
    ),
    OneActive-update_where es (IsCalm-tail e es c) h.1,
  )

  -- An update keeps whatever is said of the identifiers alone.
  pub ids-update_where {κ} :
      (P : ℕ → Type κ) (es : List Execution)
      → ((e : Execution) → (f e).id ≡ e.id)
      → All (λ e. P e.id) es
      → All (λ e. P e.id) (update_where p f es)
  ids-update_where P es same h =
      All-update_where (λ e. P e.id) p f es h
        (All-imp (λ e. P e.id) (λ e. p e ≡ true → P (f e).id) es (λ e k _. subst P (sym (same e)) k)
          h)

  updated_id :
      (e : Execution) → ((e : Execution) → (f e).id ≡ e.id) → (if p e then f e else e).id ≡ e.id
  updated_id e same = ground (arith, same e)

  pub DistinctIds-update_where :
      (es : List Execution)
      → ((e : Execution) → (f e).id ≡ e.id)
      → DistinctIds es
      → DistinctIds (update_where p f es)
  unfolding update_where
  DistinctIds-update_where [] same h = tt
  DistinctIds-update_where (e ∷ es) same h = (
    ids-update_where (λ n. n ≢ (if p e then f e else e).id) es same
        (subst (λ n. All (λ f'. f'.id ≢ n) es) (sym (updated_id e same)) h.0),
    DistinctIds-update_where es same h.1,
  )

-- Rows of the same identifier are the same row.
pub DistinctIds-In :
    (es : List Execution) (a : Execution)
    → DistinctIds es
    → In a es
    → All (λ e. e.id ≡ a.id → e ≡ a) es
DistinctIds-In [] a d m = tt
DistinctIds-In (e ∷ es) a d (inl x) = (
  λ _. x,
  All-imp _ _ es (λ f ne same. absurd (ne (same ∙ sym (ap (λ (r : Execution). r.id) x)))) d.0,
)
DistinctIds-In (e ∷ es) a d (inr m) =
    (λ same. absurd (All-In (λ f. f.id ≢ e.id) es d.0 m (sym same)), DistinctIds-In es a d.1 m)

pub oldest-none :
    (p : Execution → Bool) (es : List Execution) → oldest p es ≡ none → All (λ e. p e ≡ false) es
unfolding oldest
oldest-none p [] h = tt
oldest-none p (e ∷ es) h = elim (Bool-cases (p e)) [
  | inl fits ↦ ground (arith, rw fits at h)
  | inr other ↦ (other, oldest-none p es (rw other at h))
]

-- `a` is the oldest of the rows that fit.
abbrev pub IsOldest : (Execution → Bool) → List Execution → Execution → Type 0
IsOldest p es a = In a es × (p a ≡ true) × All (λ e. p e ≡ true → a.started_at ≤ e.started_at) es

module _ (p : Execution → Bool) (e : Execution) (es : List Execution) where
  IsOldest-first :
      p e ≡ true → All (λ f. p f ≡ true → e.started_at ≤ f.started_at) es → IsOldest p (e ∷ es) e
  IsOldest-first fits later = (inl refl, fits, (λ _. le_refl e.started_at, later))

  -- The choice between the row at hand and the oldest of the others.
  IsOldest-earlier :
      (b a : Execution)
      → p e ≡ true
      → IsOldest p es b
      → earlier e (some b) ≡ a
      → IsOldest p (e ∷ es) a
  IsOldest-earlier b a fits h eq = elim (Bool-cases (leb e.started_at b.started_at)) [
    | inl le ↦
        subst (IsOldest p (e ∷ es)) (rw le at eq)
          (IsOldest-first fits (All-imp _ _ es (λ f k pf. le_trans (leb→le _ _ le) (k pf)) h.2))
    | inr gt ↦
        subst (IsOldest p (e ∷ es)) (rw gt at eq) (inr h.0, h.1, (λ _. ground (arith, gt), h.2))
  ]

-- What ORDER BY started_at LIMIT 1 returns is a row that fits, and no row that fits is older.
pub oldest_lem :
    (p : Execution → Bool) (es : List Execution) (a : Execution)
    → oldest p es ≡ some a
    → IsOldest p es a
unfolding oldest
oldest_lem p [] a h = cc
oldest_lem p (e ∷ es) a h = elim (Bool-cases (p e)) [
  | inl fits ↦ elim (Option-cases (oldest p es)) [
    | inl alone ↦
        subst (IsOldest p (e ∷ es)) (some_inj (rw (fits, alone) at h))
          (IsOldest-first p e es fits (All-imp _ _ es (λ f k pf. cc) (oldest-none p es alone)))
    | inr (b, rest) ↦
        IsOldest-earlier p e es b a fits (oldest_lem p es b rest) (some_inj (rw (fits, rest) at h))
  ]
  | inr other ↦ let ih = oldest_lem p es a (rw other at h) in (inr ih.0, ih.1, (λ fits. cc, ih.2))
]
