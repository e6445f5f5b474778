-- ===== src/Scan/Quiet.antt =====
-- The log of a host's scan (discoverClusters), as far as the counters of a run are concerned.
use pgwarden.Prelude.{
  ℕ, suc, ◌≡◌, refl, Bool, true, false, not, ◌&&◌, Result, ok, err, List, [], ◌∷◌, ◌++◌, Bytes,
  length, is_empty, leb, Bool-cases, inl, inr, All, All-append, if◌then◌else◌,
}
use pgwarden.Config.{Config, HostConfig, ConfigError, scan_ports}
use pgwarden.Scan.{
  Event, EventKind, info, Probe, found, rejected, other_error, ProbeResult, TcpResult, Network,
  host_event, is_due, collect_open, scan_open_tcp_ports, probe_events, collect_probes,
  probe_postgres_ports, probe_open, scan_all, discover_clusters, discovery_progress_step,
  discovery_probe_failure_log_limit, failure, cluster_list_started, database_found,
  database_created, backup_created, skipped_existing, scan_progress,
}

-- The events that go with a counter.
abbrev pub is_tallied : EventKind → Bool
is_tallied failure = true
is_tallied cluster_list_started = true
is_tallied database_found = true
is_tallied database_created = true
is_tallied backup_created = true
is_tallied skipped_existing = true
is_tallied _ = false

abbrev pub AreQuiet : List Event → Type 0
AreQuiet events = All (λ e. is_tallied e.event ≡ false) events

both : (xs ys : List Event) → AreQuiet xs → AreQuiet ys → AreQuiet (xs ++ ys)
both xs ys = All-append (λ e. is_tallied e.event ≡ false) xs ys

quiet_if : (b : Bool) (e : Event) → is_tallied e.event ≡ false → AreQuiet (if b then e ∷ [] else [])
quiet_if true e h = (h, tt)
quiet_if false e h = tt

collect_open-quiet :
    (host : Bytes) (step total checked : ℕ) (ports : List ℕ) (results : List TcpResult)
    → AreQuiet (collect_open host step total checked ports results).0
unfolding collect_open
collect_open-quiet host step total checked ports [] = tt
collect_open-quiet host step total checked ports (r ∷ results) =
    let rest =
      collect_open-quiet host step total (suc checked)
        (if r.is_open then ports ++ r.port ∷ [] else ports) results in
    elim (Bool-cases (is_due (suc checked) step total)) [
      | inl due ↦ rw due (refl, rest)
      | inr not_yet ↦ rw not_yet rest
    ]

probe_events-quiet :
    (host : Bytes) (log_each due : Bool) (port : ℕ) (p : Probe)
    → AreQuiet (probe_events host log_each due port p)
unfolding probe_events
probe_events-quiet host log_each due port (found version) = (refl, tt)
probe_events-quiet host log_each due port (rejected e) =
    both (if log_each then _ else []) (if due then _ else []) (quiet_if log_each _ refl)
      (quiet_if due _ refl)
probe_events-quiet host log_each due port (other_error e) =
    both (if log_each then _ else []) (if due then _ else []) (quiet_if log_each _ refl)
      (quiet_if due _ refl)

collect_probes-quiet :
    (host : Bytes) (log_each : Bool) (step total checked : ℕ) (results : List ProbeResult)
    → AreQuiet (collect_probes host log_each step total checked results).0
unfolding collect_probes
collect_probes-quiet host log_each step total checked [] = tt
collect_probes-quiet host log_each step total checked (r ∷ results) =
    both (probe_events host log_each (is_due (suc checked) step total) r.port r.probe) _
      (probe_events-quiet host log_each (is_due (suc checked) step total) r.port r.probe)
      (collect_probes-quiet host log_each step total (suc checked) results)

probe_postgres_ports-quiet :
    (host : Bytes) (total : ℕ) (results : List ProbeResult)
    → AreQuiet (probe_postgres_ports host total results).0
unfolding probe_postgres_ports
probe_postgres_ports-quiet host total results =
    let log_each = leb total discovery_probe_failure_log_limit in
    let collected = collect_probes host log_each (discovery_progress_step total) total 0 results in
    both collected.0 _
      (collect_probes-quiet host log_each (discovery_progress_step total) total 0 results)
      (quiet_if (not log_each && not (is_empty collected.1.1)) (host_event info scan_progress host)
        refl)

probe_open-quiet :
    (net : Network) (host : HostConfig) (open_ports : List ℕ)
    → AreQuiet (probe_open net host open_ports).0
unfolding probe_open
probe_open-quiet net host open_ports = elim (Bool-cases (is_empty open_ports)) [
  | inl closed ↦ rw closed (refl, tt)
  | inr some_open ↦ rw some_open (
    refl,
    both (probe_postgres_ports host.name (length open_ports) (net.probes host open_ports)).0 _
        (probe_postgres_ports-quiet host.name (length open_ports) (net.probes host open_ports))
        (refl, (refl, tt)),
  )
]

scan_all-quiet :
    (net : Network) (host : HostConfig) (ports : Result ConfigError (List ℕ))
    → AreQuiet (scan_all net host ports).0
unfolding scan_open_tcp_ports
scan_all-quiet net host (err e) = tt
scan_all-quiet net host (ok ports) =
    let step = discovery_progress_step (length ports) in
    let collected = collect_open host.name step (length ports) 0 [] (net.tcp host ports) in
    (
      refl,
      both collected.0 _
          (collect_open-quiet host.name step (length ports) 0 [] (net.tcp host ports))
          (
            refl,
            probe_open-quiet net host
                (scan_open_tcp_ports host.name (length ports) step (net.tcp host ports)).1,
          ),
    )

pub discover_clusters-quiet :
    (net : Network) (cfg : Config) (host : HostConfig) → AreQuiet (discover_clusters net cfg host).0
unfolding discover_clusters
discover_clusters-quiet net cfg host = elim (Bool-cases (is_empty host.clusters)) [
  | inl scanned ↦ rw scanned (scan_all-quiet net host (scan_ports cfg))
  | inr given ↦ rw given (refl, tt)
]
