-- ===== src/Config/Ports.antt =====
-- The ports of a discovery scan.
use pgwarden.Prelude.{
  ℕ, zero, suc, ◌+◌, ◌-◌, ◌≤◌, ◌≡◌, refl, subst, ◌∙◌, false, ◌||◌, Option, none, some, Result, ok,
  err, ◌>>=◌, ok_inj, List, [], ◌∷◌, ◌++◌, Bytes, is_empty, ltb, ◌==◌, arith, Bool-cases, inl, inr,
  All, All-append,
}
use pgwarden.Go.Strings.{trim_space, contains, cut}
use pgwarden.Go.Strconv.{ℤ, pos, negsuc, atoi}
use pgwarden.Config.{
  Config, ConfigError, has_port, add_port, add_range, ranged, add_item_range, add_single, add_item,
  add_items, some_ports, scan_ports,
}

pub IsDistinct : List ℕ → Type 0
IsDistinct [] = Unit
IsDistinct (p ∷ ports) = (has_port p ports ≡ false) × IsDistinct ports

abbrev pub IsPort : ℕ → Type 0
IsPort p = (1 ≤ p) × (p ≤ 65535)

-- Ports between 1 and 65535, none of them twice.
pub ArePorts : List ℕ → Type 0
ArePorts ports = All IsPort ports × IsDistinct ports

none-ArePorts : ArePorts []
unfolding ArePorts IsDistinct
none-ArePorts = (tt, tt)

has_port-snoc :
    (p q : ℕ) (ports : List ℕ) → has_port p (ports ++ q ∷ []) ≡ (has_port p ports || (q == p))
has_port-snoc p q [] = ground arith
has_port-snoc p q (r ∷ ports) = ground (arith, has_port-snoc p q ports)

snoc-IsDistinct :
    (p : ℕ) (ports : List ℕ)
    → has_port p ports ≡ false
    → IsDistinct ports
    → IsDistinct (ports ++ p ∷ [])
unfolding IsDistinct
snoc-IsDistinct p [] h d = (refl, tt)
snoc-IsDistinct p (q ∷ ports) h d =
    (has_port-snoc q p ports ∙ ground (arith, d.0), snoc-IsDistinct p ports (ground arith) d.1)

add_port-ArePorts :
    (p : ℕ) (ports : List ℕ) → IsPort p → ArePorts ports → ArePorts (add_port p ports)
unfolding add_port ArePorts
add_port-ArePorts p ports fits h = elim (Bool-cases (has_port p ports)) [
  | inl known ↦ rw known h
  | inr fresh ↦
      rw fresh (All-append IsPort ports (p ∷ []) h.0 (fits, tt), snoc-IsDistinct p ports fresh h.1)
]

add_range-ArePorts :
    (n from : ℕ) (ports : List ℕ)
    → 1 ≤ from
    → from + n ≤ 65536
    → ArePorts ports
    → ArePorts (add_range n from ports)
unfolding add_range
add_range-ArePorts zero from ports low high h = h
add_range-ArePorts (suc n) from ports low high h =
    add_range-ArePorts n (suc from) (add_port from ports) (omega arith) (omega arith)
      (add_port-ArePorts from ports (low, omega arith) h)

err≢ok : {A : Type 0} {a : A} {e : ConfigError} → ◌≡◌ {A = Result ConfigError A} (err e) (ok a) → ⊥
err≢ok h = cc

-- The result is good, if there is one.
abbrev Gives : Result ConfigError (List ℕ) → Type 0
Gives (ok ports) = ArePorts ports
Gives (err e) = Unit

ranged-Gives :
    (item : Bytes) (from to : Option ℤ) (ports : List ℕ)
    → ArePorts ports
    → Gives (ranged item from to ports)
unfolding ranged
ranged-Gives item none to ports h = tt
ranged-Gives item (some from) none ports h = tt
ranged-Gives item (some (negsuc a)) (some to) ports h = tt
ranged-Gives item (some (pos a)) (some (negsuc b)) ports h = elim (Bool-cases (ltb a 1)) [
  | inl low ↦ rw low tt
  | inr high ↦ rw high tt
]
ranged-Gives item (some (pos a)) (some (pos b)) ports h =
    elim (Bool-cases (ltb a 1 || ltb 65535 b || ltb b a)) [
      | inl bad ↦ rw bad tt
      | inr good ↦
          rw good
            (add_range-ArePorts (suc b - a) a ports (ground (arith, good)) (ground (arith, good)) h)
    ]

single-Gives :
    (item : Bytes) (port : Option ℤ) (ports : List ℕ)
    → ArePorts ports
    → Gives (add_single item port ports)
unfolding add_single
single-Gives item none ports h = tt
single-Gives item (some (negsuc a)) ports h = tt
single-Gives item (some (pos a)) ports h = elim (Bool-cases (ltb a 1 || ltb 65535 a)) [
  | inl bad ↦ rw bad tt
  | inr good ↦ rw good (add_port-ArePorts a ports (ground (arith, good)) h)
]

range-Gives :
    (item : Bytes) (c : Option (Bytes × Bytes)) (ports : List ℕ)
    → ArePorts ports
    → Gives (add_item_range item c ports)
unfolding add_item_range
range-Gives item none ports h = tt
range-Gives item (some (a, b)) ports h =
    ranged-Gives item (atoi (trim_space a)) (atoi (trim_space b)) ports h

item-Gives : (item : Bytes) (ports : List ℕ) → ArePorts ports → Gives (add_item item ports)
unfolding add_item
item-Gives item ports h =
    let s = trim_space item in
    elim (Bool-cases (is_empty s)) [
      | inl blank ↦ rw blank h
      | inr full ↦ elim (Bool-cases (contains s b'-')) [
        | inl dash ↦ rw full (rw dash (range-Gives s (cut b'-' s) ports h))
        | inr plain ↦ rw full (rw plain (single-Gives s (atoi s) ports h))
      ]
    ]

bind-Gives :
    (m : Result ConfigError (List ℕ)) (f : List ℕ → Result ConfigError (List ℕ))
    → Gives m
    → ((ports : List ℕ) → ArePorts ports → Gives (f ports))
    → Gives (m >>= f)
bind-Gives (ok ports) f h k = k ports h
bind-Gives (err e) f h k = tt

items-Gives : (items : List Bytes) (ports : List ℕ) → ArePorts ports → Gives (add_items items ports)
unfolding add_items
items-Gives [] ports h = h
items-Gives (item ∷ items) ports h =
    bind-Gives (add_item item ports) (add_items items) (item-Gives item ports h) (items-Gives items)

some_ports-Gives : (ports : List ℕ) → ArePorts ports → Gives (some_ports ports)
some_ports-Gives [] h = tt
some_ports-Gives (p ∷ ports) h = h

some_ports-full :
    (m : Result ConfigError (List ℕ)) (ports : List ℕ)
    → (m >>= some_ports) ≡ ok ports
    → is_empty ports ≡ false
some_ports-full (err e) ports h = absurd (err≢ok h)
some_ports-full (ok []) ports h = absurd (err≢ok h)
some_ports-full (ok (p ∷ found)) ports h = rw (← ok_inj h) refl

-- A list of scan ports that is accepted is not empty, and holds ports between 1 and 65535, none of them
-- twice.
pub scan_ports_sound :
    (c : Config) (ports : List ℕ)
    → scan_ports c ≡ ok ports
    → (is_empty ports ≡ false) × ArePorts ports
unfolding scan_ports
scan_ports_sound c ports h = (
  some_ports-full (add_items c.defaults.scan_ports []) ports h,
  subst Gives h (
      bind-Gives (add_items c.defaults.scan_ports []) some_ports
        (items-Gives c.defaults.scan_ports [] none-ArePorts) some_ports-Gives),
)
