-- ===== src/Scan/Open.antt =====
-- The open ports that a scan reports.
use pgwarden.Prelude.{
  ℕ, suc, ◌≤◌, ◌≡◌, refl, ◌∙◌, Bool, ◌||◌, ◌&&◌, List, [], ◌∷◌, ◌++◌, Bytes, any, leb, ◌==◌, arith,
  Bool-cases, inl, inr, All, All-imp,
}
use pgwarden.Config.{has_port}
use pgwarden.Scan.{TcpResult, insert_sorted, sort_ports, collect_open, scan_open_tcp_ports}

pub IsSorted : List ℕ → Type 0
IsSorted [] = Unit
IsSorted (p ∷ ports) = All (λ q. p ≤ q) ports × IsSorted ports

has_port-insert :
    (x p : ℕ) (ports : List ℕ) → has_port x (insert_sorted p ports) ≡ ((p == x) || has_port x ports)
unfolding insert_sorted
has_port-insert x p [] = refl
has_port-insert x p (q ∷ ports) = ground (arith, has_port-insert x p ports)

has_port-sort : (x : ℕ) (ports : List ℕ) → has_port x (sort_ports ports) ≡ has_port x ports
unfolding sort_ports
has_port-sort x [] = refl
has_port-sort x (p ∷ ports) =
    has_port-insert x p (sort_ports ports) ∙ ground (arith, has_port-sort x ports)

insert-All :
    (m p : ℕ) (ports : List ℕ)
    → m ≤ p
    → All (λ q. m ≤ q) ports
    → All (λ q. m ≤ q) (insert_sorted p ports)
unfolding insert_sorted
insert-All m p [] le h = (le, tt)
insert-All m p (q ∷ ports) le h = elim (Bool-cases (leb p q)) [
  | inl first ↦ rw first (le, h)
  | inr later ↦ rw later (h.0, insert-All m p ports le h.1)
]

insert-IsSorted : (p : ℕ) (ports : List ℕ) → IsSorted ports → IsSorted (insert_sorted p ports)
unfolding insert_sorted IsSorted
insert-IsSorted p [] h = (tt, tt)
insert-IsSorted p (q ∷ ports) h = elim (Bool-cases (leb p q)) [
  | inl first ↦
      let le : p ≤ q = ground (arith, first) in
      rw first
        ((le, All-imp (λ r. q ≤ r) (λ r. p ≤ r) ports (λ r lt. omega (arith, le, lt)) h.0), h)
  | inr later ↦
      rw later (insert-All q p ports (ground (arith, later)) h.0, insert-IsSorted p ports h.1)
]

sort-IsSorted : (ports : List ℕ) → IsSorted (sort_ports ports)
unfolding sort_ports IsSorted
sort-IsSorted [] = tt
sort-IsSorted (p ∷ ports) = insert-IsSorted p (sort_ports ports) (sort-IsSorted ports)

-- The results that say that `x` is open.
pub says_open : ℕ → List TcpResult → Bool
says_open x results = any (λ r. r.is_open && (r.port == x)) results

has_port-snoc :
    (p q : ℕ) (ports : List ℕ) → has_port p (ports ++ q ∷ []) ≡ (has_port p ports || (q == p))
has_port-snoc p q [] = ground arith
has_port-snoc p q (r ∷ ports) = ground (arith, has_port-snoc p q ports)

collect_open-ports :
    (x : ℕ) (host : Bytes) (step total checked : ℕ) (ports : List ℕ) (results : List TcpResult)
    → has_port x (collect_open host step total checked ports results).1
      ≡ (has_port x ports || says_open x results)
unfolding collect_open says_open
collect_open-ports x host step total checked ports [] = ground arith
collect_open-ports x host step total checked ports (r ∷ results) = elim (Bool-cases r.is_open) [
  | inl opened ↦ rw opened (
      collect_open-ports x host step total (suc checked) (ports ++ r.port ∷ []) results
      ∙ ground (arith, has_port-snoc x r.port ports))
  | inr closed ↦ rw closed (collect_open-ports x host step total (suc checked) ports results)
]

-- The scan reports the open ports in ascending order, and just those that some dial found open, in whatever
-- order the results of the dials arrive.
pub scan_reports_open :
    (host : Bytes) (total step : ℕ) (results : List TcpResult) (x : ℕ)
    → let (events, ports) = scan_open_tcp_ports host total step results in
      IsSorted ports × (has_port x ports ≡ says_open x results)
unfolding scan_open_tcp_ports
scan_reports_open host total step results x =
    let collected = collect_open host step total 0 [] results in
    (
      sort-IsSorted collected.1,
      has_port-sort x collected.1 ∙ collect_open-ports x host step total 0 [] results,
    )
