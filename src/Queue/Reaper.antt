-- ===== src/Queue/Reaper.antt =====
-- The reaper and the heartbeat, and what becomes of a worker that comes back too late.
use pgwarden.Prelude.{
  ℕ, ◌+◌, ◌<◌, ◌≤◌, ◌≡◌, refl, ap, subst, Bool, true, false, ◌&&◌, none, some, List, [], ◌∷◌, In,
  inl, inr, arith, ◌==◌, if◌then◌else◌,
}
use pgwarden.Queue.{
  running, is_running, Execution, Db, update_where, heartbeat_execution, is_stale, lost,
  reap_stale_executions,
}

module _ (p : Execution → Bool) (f : Execution → Execution) where
  In-update_where :
      (es : List Execution) (e : Execution)
      → In e es
      → In (if p e then f e else e) (update_where p f es)
  unfolding update_where
  In-update_where [] e m = absurd m
  In-update_where (x ∷ es) e (inl same) = inl (ap (λ (r : Execution). if p r then f r else r) same)
  In-update_where (x ∷ es) e (inr m) = inr (In-update_where es e m)

  In-updated :
      (es : List Execution) (e : Execution) → In e es → p e ≡ true → In (f e) (update_where p f es)
  In-updated es e m h =
      subst (λ b. In (if b then f e else e) (update_where p f es)) h (In-update_where es e m)

  In-left :
      (es : List Execution) (e : Execution) → In e es → p e ≡ false → In e (update_where p f es)
  In-left es e m h =
      subst (λ b. In (if b then f e else e) (update_where p f es)) h (In-update_where es e m)

  -- An update whose outcome it would not take again does nothing the second time.
  update_where_twice :
      (es : List Execution)
      → ((e : Execution) → p (f e) ≡ false)
      → update_where p f (update_where p f es) ≡ update_where p f es
  unfolding update_where
  update_where_twice [] out = refl
  update_where_twice (e ∷ es) out = ground (arith, out e, update_where_twice es out)

-- The reaper may run in every worker: a second run at the same time changes nothing.
pub reap_idempotent :
    (db : Db) (stale : ℕ)
    → reap_stale_executions (reap_stale_executions db stale) stale ≡ reap_stale_executions db stale
unfolding reap_stale_executions is_stale
reap_idempotent db stale =
    ap (λ es. record db { executions = es }) (update_where_twice _ _ db.executions (λ e. refl))

-- After the heartbeat of a running execution, the reaper leaves it alone for as long as the allowed
-- age of a heartbeat; once that is passed with no other heartbeat, the reaper fails it.
pub heartbeat_lease :
    (db : Db) (d stale : ℕ) (e : Execution)
    → In e db.executions
    → e.status ≡ running
    → e.deleted_at ≡ none
    → let beaten = heartbeat_execution db e.id in
      let later = record beaten { now = db.now + d } in
      let kept = record e { heartbeat_at = some db.now } in
      (d ≤ stale → In kept (reap_stale_executions later stale).executions)
      × (stale < d → In (lost (db.now + d) kept) (reap_stale_executions later stale).executions)
unfolding heartbeat_execution reap_stale_executions is_stale
heartbeat_lease db d stale e m r u = (
  λ fresh. In-left _ _ _ _ beaten (ground (arith, fresh)),
  λ late. In-updated _ _ _ _ beaten (ground (arith, late)),
)
  where
    beaten :
        In
          (record e { heartbeat_at = some db.now })
          (update_where
            (λ x. x.id == e.id && is_running x.status)
            (λ x. record x { heartbeat_at = some db.now })
            db.executions)
    beaten = In-updated _ _ db.executions e m (ground arith)
