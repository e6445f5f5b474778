-- ===== src/Scan.antt =====
-- The port scan of a discovery: discoverClusters and what it calls (internal/service/discovery/discovery.go).
-- Goroutines dial the ports; what counts is the order in which their results arrive, so the arrivals are
-- an argument. Events are returned in the order in which they are logged, without their message texts.
pub mod Open
pub mod Quiet
mod Tests
use pgwarden.Prelude.{
  ℕ, zero, suc, ◌+◌, ◌-◌, ◌*◌, ◌/◌, ◌%◌, Bool, true, false, not, ◌&&◌, ◌||◌, Option, none, some,
  Result, ok, err, List, [], ◌∷◌, ◌++◌, Bytes, codes, length, is_empty, ltb, leb, ◌==◌,
  if◌then◌else◌,
}
use pgwarden.Go.Strings.{join}
use pgwarden.Go.Strconv.{ℤ, pos, exceeds, itoa}
use pgwarden.Config.{Config, ConfigError, HostConfig, ClusterConfig, scan_ports, before}

pub data Level : Type 0 where
  info warn error : Level

pub data EventKind : Type 0 where
  scan_started scan_finished failure cluster_list_started cluster_list_finished : EventKind
  database_skipped_size database_found database_register_started : EventKind
  database_created backup_created skipped_existing : EventKind
  host_scan_started tcp_scan_finished host_scan_finished postgres_probe_started : EventKind
  postgres_probe_finished scan_progress port_found postgres_auth_failed port_not_postgres :
      EventKind

pub record Event : Type 0 where
  pub level : Level
  pub event : EventKind
  pub host : Bytes
  pub port : Option ℤ
  pub database_name : Option Bytes

-- logEvent keeps a port that is above 0.
abbrev pub port_column : ℤ → Option ℤ
port_column port = if exceeds port 0 then some port else none

-- logEvent of an event of a host: no port, no database
abbrev pub host_event : Level → EventKind → Bytes → Event
host_event level event host = record {
  level = level;
  event = event;
  host = host;
  port = none;
  database_name = none;
}

abbrev pub port_event : Level → EventKind → Bytes → ℤ → Event
port_event level event host port = record {
  level = level;
  event = event;
  host = host;
  port = port_column port;
  database_name = none;
}

pub discovery_progress_step : ℕ → ℕ
discovery_progress_step total =
    if leb total 500 then 100 else let step = total / 50 in if ltb step 500 then 500 else step

-- The result of one dial.
pub record TcpResult : Type 0 where
  pub port : ℕ
  pub is_open : Bool

-- sort.Ints
pub insert_sorted : ℕ → List ℕ → List ℕ
insert_sorted p [] = p ∷ []
insert_sorted p (q ∷ ports) =
    let rest = insert_sorted p ports in if leb p q then p ∷ q ∷ ports else q ∷ rest

pub sort_ports : List ℕ → List ℕ
sort_ports [] = []
sort_ports (p ∷ ports) = insert_sorted p (sort_ports ports)

-- `checked%progressStep == 0 || checked == total`
abbrev pub is_due : ℕ → ℕ → ℕ → Bool
is_due checked step total = checked % step == 0 || checked == total

-- The loop over the results of `scanOpenTCPPorts`: the open ports and the events.
pub collect_open : Bytes → ℕ → ℕ → ℕ → List ℕ → List TcpResult → List Event × List ℕ
collect_open host step total checked found [] = ([], found)
collect_open host step total checked found (r ∷ results) =
    let found = if r.is_open then found ++ r.port ∷ [] else found in
    let (events, all) = collect_open host step total (suc checked) found results in
    (
      if is_due (suc checked) step total
          then host_event info scan_progress host ∷ events
          else events,
      all,
    )

pub scan_open_tcp_ports : Bytes → ℕ → ℕ → List TcpResult → List Event × List ℕ
scan_open_tcp_ports host total step results =
    let (events, found) = collect_open host step total 0 [] results in (events, sort_ports found)

-- What probing a port gives: the major version, or the error's text; `rejected` is a PostgreSQL that
-- refuses the credentials (codes 28000 and 28P01).
pub data Probe : Type 0 where
  found : Bytes → Probe
  rejected other_error : Bytes → Probe

pub record ProbeResult : Type 0 where
  pub port : ℕ
  pub probe : Probe

abbrev pub discovery_probe_failure_log_limit : ℕ
discovery_probe_failure_log_limit = 50

abbrev pub cluster_of : ℕ → Bytes → ClusterConfig
cluster_of port version = record { port = pos port; pg_version = version; exclude_databases = [] }

-- What one result of `probePostgresPorts` adds to the clusters and the failed ports, and its events; a
-- success goes on to the next result at once.
pub probe_events : Bytes → Bool → Bool → ℕ → Probe → List Event
probe_events host log_each due port (found version) =
    port_event info port_found host (pos port) ∷ []
probe_events host log_each due port (rejected e) =
    (if log_each then port_event warn postgres_auth_failed host (pos port) ∷ [] else [])
    ++ (if due then host_event info scan_progress host ∷ [] else [])
probe_events host log_each due port (other_error e) =
    (if log_each then port_event info port_not_postgres host (pos port) ∷ [] else [])
    ++ (if due then host_event info scan_progress host ∷ [] else [])

abbrev pub probed_cluster : ℕ → Probe → List ClusterConfig
probed_cluster port (found version) = cluster_of port version ∷ []
probed_cluster port p = []

abbrev pub probed_failure : ℕ → Probe → List ℕ
probed_failure port (found version) = []
probed_failure port p = port ∷ []

pub collect_probes :
    Bytes → Bool → ℕ → ℕ → ℕ → List ProbeResult → List Event × (List ClusterConfig × List ℕ)
collect_probes host log_each step total checked [] = ([], ([], []))
collect_probes host log_each step total checked (r ∷ results) =
    let (events, (clusters, failures)) =
      collect_probes host log_each step total (suc checked) results in
    (
      probe_events host log_each (is_due (suc checked) step total) r.port r.probe ++ events,
      (probed_cluster r.port r.probe ++ clusters, probed_failure r.port r.probe ++ failures),
    )

pub probe_postgres_ports : Bytes → ℕ → List ProbeResult → List Event × (List ClusterConfig × List ℕ)
probe_postgres_ports host total results =
    let log_each = leb total discovery_probe_failure_log_limit in
    let (events, (clusters, failures)) =
      collect_probes host log_each (discovery_progress_step total) total 0 results in
    (
      events
          ++ (if not log_each && not (is_empty failures)
              then host_event info scan_progress host ∷ []
              else []),
      (clusters, failures),
    )

-- sort.Slice by port
pub insert_cluster : ClusterConfig → List ClusterConfig → List ClusterConfig
insert_cluster c [] = c ∷ []
insert_cluster c (d ∷ clusters) =
    let rest = insert_cluster c clusters in
    if before d.port c.port then d ∷ rest else c ∷ d ∷ clusters

pub sort_clusters : List ClusterConfig → List ClusterConfig
sort_clusters [] = []
sort_clusters (c ∷ clusters) = insert_cluster c (sort_clusters clusters)

-- What the network answers on a host, in the order of arrival.
pub record Network : Type 0 where
  pub tcp : HostConfig → List ℕ → List TcpResult
  pub probes : HostConfig → List ℕ → List ProbeResult

-- `discoverClusters` from the probe on
pub probe_open : Network → HostConfig → List ℕ → List Event × List ClusterConfig
probe_open net host open_ports =
    if is_empty open_ports
    then (host_event warn host_scan_finished host.name ∷ [], [])
    else let (events, (clusters, failures)) =
        probe_postgres_ports host.name (length open_ports) (net.probes host open_ports) in
      (
        host_event info postgres_probe_started host.name
            ∷ (events
                ++ (host_event info postgres_probe_finished host.name
                    ∷ host_event (if is_empty clusters then warn else info) host_scan_finished
                        host.name
                    ∷ [])),
        sort_clusters clusters,
      )

abbrev pub scan_all :
    Network
    → HostConfig
    → Result ConfigError (List ℕ)
    → List Event × Result ConfigError (List ClusterConfig)
scan_all net host (err e) = ([], err e)
scan_all net host (ok ports) =
    let (events, open_ports) =
      scan_open_tcp_ports host.name (length ports) (discovery_progress_step (length ports))
        (net.tcp host ports) in
    let (probe_log, clusters) = probe_open net host open_ports in
    (
      host_event info host_scan_started host.name
          ∷ (events ++ (host_event info tcp_scan_finished host.name ∷ probe_log)),
      ok clusters,
    )

unfoldable pub discover_clusters :
    Network → Config → HostConfig → List Event × Result ConfigError (List ClusterConfig)
discover_clusters net cfg host =
    if not (is_empty host.clusters)
    then (host_event info host_scan_started host.name ∷ [], ok host.clusters)
    else scan_all net host (scan_ports cfg)

pub join_numbers : List ℕ → List Bytes
join_numbers [] = []
join_numbers (p ∷ ports) = itoa p ∷ join_numbers ports

pub format_port_list : List ℕ → Bytes
format_port_list ports =
    if is_empty ports then codes "[]" else join (codes ", ") (join_numbers ports)
