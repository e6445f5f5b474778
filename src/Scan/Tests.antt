-- ===== src/Scan/Tests.antt =====
-- The scan of three ports.
use pgwarden.Prelude.{◌≡◌, refl, true, false, List, [], ◌∷◌, codes}
use pgwarden.Config.{has_port}
use pgwarden.Scan.{
  TcpResult, ProbeResult, found, rejected, other_error, scan_open_tcp_ports, probe_postgres_ports,
  cluster_of, format_port_list, discovery_progress_step,
}
use pgwarden.Scan.Open.{IsSorted, says_open, scan_reports_open}

abbrev results : List TcpResult
results =
    record { port = 5433; is_open = true }
    ∷ record { port = 80; is_open = false }
    ∷ record { port = 5432; is_open = true }
    ∷ []

sorted_ports : (scan_open_tcp_ports (codes "h") 3 100 results).1 ≡ 5432 ∷ 5433 ∷ []
unfolding scan_open_tcp_ports pgwarden.Scan.sort_ports pgwarden.Scan.collect_open
    pgwarden.Scan.insert_sorted
sorted_ports = refl

port_text : format_port_list (5432 ∷ 5433 ∷ []) ≡ codes "5432, 5433"
unfolding format_port_list pgwarden.Go.Strings.join pgwarden.Scan.join_numbers
    pgwarden.Go.Strconv.itoa
port_text = refl

steps : discovery_progress_step 40000 ≡ 800
unfolding discovery_progress_step
steps = refl

abbrev probes : List ProbeResult
probes =
    record { port = 5432; probe = rejected (codes "28000") }
    ∷ record { port = 5433; probe = found (codes "17") }
    ∷ []

one_cluster :
    (probe_postgres_ports (codes "h") 2 probes).1 ≡ (cluster_of 5433 (codes "17") ∷ [], 5432 ∷ [])
unfolding probe_postgres_ports pgwarden.Scan.collect_probes
one_cluster = refl

scan_reports_open_example :
    let (events, ports) = scan_open_tcp_ports (codes "h") 3 100 results in
    IsSorted ports × (has_port 5433 ports ≡ says_open 5433 results)
scan_reports_open_example = scan_reports_open (codes "h") 3 100 results 5433
