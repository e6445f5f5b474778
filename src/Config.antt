-- ===== src/Config.antt =====
-- internal/service/discovery/config.go: the discovery's configuration, and the schedule that
-- randomCron (internal/service/discovery/discovery.go) draws from it. The YAML decoder and uuid.Parse
-- are outside: the configuration comes decoded, and `is_uuid` says what uuid.Parse accepts. The map
-- `host_tags` is listed in the order in which Go visits it. Numbers are Go integers.
pub mod Ports
pub mod Schedule
mod Tests
use pgwarden.Prelude.{
  ℕ, zero, suc, ◌+◌, ◌-◌, ◌*◌, ◌/◌, ◌%◌, ◌^◌, Bool, true, false, not, ◌&&◌, ◌||◌, Option, none,
  some, Result, ok, err, ◌>>=◌, List, [], ◌∷◌, ◌++◌, Bytes, codes, text_eq, length, take, is_empty,
  any, ltb, leb, ◌==◌, if◌then◌else◌,
}
use pgwarden.Go.Strings.{trim_space, contains, cut, has_suffix, remove_all, to_upper}
use pgwarden.Go.Strconv.{ℤ, pos, negsuc, less, exceeds, pos_part, atoi, itoa}

pub record DefaultsConfig : Type 0 where
  pub destination_id : Bytes
  pub retention_days : ℤ
  pub monthly_retention_enabled : Bool
  pub parallel_dump : Bool
  pub time_zone : Bytes
  pub is_active : Option Bool
  pub exclude_databases : List Bytes
  pub cron_minute_step : ℤ
  pub cron_hour_from : ℤ
  pub cron_hour_to : ℤ
  pub connection_sslmode : Bytes
  pub scan_ports : List Bytes
  pub max_db_size : Bytes
  pub tag : Bytes

pub record ClusterConfig : Type 0 where
  pub port : ℤ
  pub pg_version : Bytes
  pub exclude_databases : List Bytes

pub record HostConfig : Type 0 where
  pub name : Bytes
  pub connection_host : Bytes
  pub exclude_databases : List Bytes
  pub clusters : List ClusterConfig
  pub tag : Bytes

pub record Config : Type 0 where
  pub defaults : DefaultsConfig
  pub hosts : List HostConfig
  pub hosts_no_replica : List HostConfig
  pub host_tags : List (Bytes × List Bytes)

pub data ConfigError : Type 0 where
  destination_required destination_invalid bad_minute_step bad_hour_from bad_hour_to : ConfigError
  bad_ports_entry bad_ports_range invalid_max_db_size unrecognized_unit : Bytes → ConfigError
  no_ports no_hosts no_host_name : ConfigError
  bad_cluster_port : Bytes → ℤ → ConfigError

pub tag_in : Bytes → List (Bytes × List Bytes) → Option Bytes
tag_in name [] = none
tag_in name ((tag, names) ∷ tags) =
    let rest = tag_in name tags in if any (λ n. text_eq n name) names then some tag else rest

abbrev or_else : Option Bytes → Bytes → Bytes
or_else none d = d
or_else (some a) d = a

pub tag_for_host : Config → HostConfig → Bytes
tag_for_host c host =
    if not (is_empty host.tag)
    then host.tag
    else or_else (tag_in host.name c.host_tags)
        (if not (is_empty c.defaults.tag) then c.defaults.tag else codes "default")

-- A product of numbers at least 0, as an int64.
pub wrap_int64 : ℕ → ℤ
wrap_int64 n = let m = n % 2 ^ 64 in if ltb m (2 ^ 63) then pos m else negsuc (2 ^ 64 - 1 - m)

abbrev pub units : List (Bytes × ℕ)
units =
    (codes "TB", 2 ^ 40)
    ∷ (codes "GB", 2 ^ 30)
    ∷ (codes "MB", 2 ^ 20)
    ∷ (codes "KB", 2 ^ 10)
    ∷ (codes "B", 1)
    ∷ []

pub size_of : Bytes → ℕ → Option ℤ → Result ConfigError ℤ
size_of s mult (some (pos n)) = ok (wrap_int64 (n * mult))
size_of s mult (some (negsuc n)) = err (invalid_max_db_size s)
size_of s mult none = err (invalid_max_db_size s)

pub with_unit : Bytes → Bytes → List (Bytes × ℕ) → Result ConfigError ℤ
with_unit s upper [] = err (unrecognized_unit s)
with_unit s upper ((suffix, mult) ∷ us) =
    let rest = with_unit s upper us in
    if has_suffix upper suffix
    then size_of s mult (atoi (take (length upper - length suffix) upper))
    else rest

-- MaxDBSizeBytes
unfoldable pub max_db_size_bytes : DefaultsConfig → Result ConfigError ℤ
max_db_size_bytes d =
    let s = trim_space d.max_db_size in
    if is_empty s || text_eq s (codes "0")
    then ok (pos 0)
    else with_unit s (to_upper (remove_all b' ' s)) units

abbrev default_text : Bytes → Bytes → Bytes
default_text s d = if is_empty s then d else s

abbrev default_number : ℤ → ℕ → ℤ
default_number (pos zero) d = pos d
default_number (pos (suc n)) d = pos (suc n)
default_number (negsuc n) d = negsuc n

abbrev default_flag : Option Bool → Option Bool
default_flag none = some true
default_flag (some b) = some b

pub set_defaults : Config → Config
set_defaults c = record c {
  defaults = record c.defaults {
    time_zone = default_text c.defaults.time_zone (codes "Asia/Yekaterinburg");
    retention_days = default_number c.defaults.retention_days 30;
    is_active = default_flag c.defaults.is_active;
    cron_minute_step = default_number c.defaults.cron_minute_step 5;
    cron_hour_to = default_number c.defaults.cron_hour_to 5;
    connection_sslmode = default_text c.defaults.connection_sslmode (codes "disable");
    scan_ports =
        if is_empty c.defaults.scan_ports
        then codes "5432" ∷ codes "10000-20000" ∷ []
        else c.defaults.scan_ports;
  };
}

abbrev pub has_port : ℕ → List ℕ → Bool
has_port p ports = any (λ q. q == p) ports

-- `if !seen[port] { seen[port] = true; ports = append(ports, port) }`: the ports seen are those listed.
pub add_port : ℕ → List ℕ → List ℕ
add_port p ports = if has_port p ports then ports else ports ++ p ∷ []

-- `for port := from; port <= to; port++`, with the number of rounds
pub add_range : ℕ → ℕ → List ℕ → List ℕ
add_range zero from ports = ports
add_range (suc n) from ports = add_range n (suc from) (add_port from ports)

pub ranged : Bytes → Option ℤ → Option ℤ → List ℕ → Result ConfigError (List ℕ)
ranged item (some from) (some to) ports =
    if less from 1 || exceeds to 65535 || less to (pos_part from)
    then err (bad_ports_range item)
    else ok (add_range (suc (pos_part to) - pos_part from) (pos_part from) ports)
ranged item (some from) none ports = err (bad_ports_entry item)
ranged item none to ports = err (bad_ports_entry item)

pub add_item_range : Bytes → Option (Bytes × Bytes) → List ℕ → Result ConfigError (List ℕ)
add_item_range item (some (a, b)) ports =
    ranged item (atoi (trim_space a)) (atoi (trim_space b)) ports
add_item_range item none ports = err (bad_ports_entry item)

pub add_single : Bytes → Option ℤ → List ℕ → Result ConfigError (List ℕ)
add_single item none ports = err (bad_ports_entry item)
add_single item (some port) ports =
    if less port 1 || exceeds port 65535
    then err (bad_ports_entry item)
    else ok (add_port (pos_part port) ports)

-- One round of the loop of `scanPorts`.
pub add_item : Bytes → List ℕ → Result ConfigError (List ℕ)
add_item item ports =
    let item = trim_space item in
    if is_empty item
    then ok ports
    else if contains item b'-'
    then add_item_range item (cut b'-' item) ports
    else add_single item (atoi item) ports

pub add_items : List Bytes → List ℕ → Result ConfigError (List ℕ)
add_items [] ports = ok ports
add_items (item ∷ items) ports = add_item item ports >>= add_items items

abbrev pub some_ports : List ℕ → Result ConfigError (List ℕ)
some_ports [] = err no_ports
some_ports (p ∷ ports) = ok (p ∷ ports)

pub scan_ports : Config → Result ConfigError (List ℕ)
scan_ports c = add_items c.defaults.scan_ports [] >>= some_ports

pub check_clusters : Bytes → List ClusterConfig → Result ConfigError (Unit {0})
check_clusters name [] = ok tt
check_clusters name (cluster ∷ clusters) =
    let rest = check_clusters name clusters in
    if less cluster.port 1 || exceeds cluster.port 65535
    then err (bad_cluster_port name cluster.port)
    else rest

pub check_hosts : List HostConfig → Result ConfigError (Unit {0})
check_hosts [] = ok tt
check_hosts (host ∷ hosts) =
    let rest = check_clusters host.name host.clusters >>= λ _. check_hosts hosts in
    if is_empty host.name then err no_host_name else rest

-- `to < from` on Go integers
abbrev pub before : ℤ → ℤ → Bool
before (pos a) (pos b) = ltb a b
before (pos a) (negsuc b) = false
before (negsuc a) (pos b) = true
before (negsuc a) (negsuc b) = ltb b a

pub validate : (Bytes → Bool) → Config → Result ConfigError (Unit {0})
validate is_uuid c =
    if is_empty c.defaults.destination_id
    then err destination_required
    else if not (is_uuid c.defaults.destination_id)
    then err destination_invalid
    else if less c.defaults.cron_minute_step 1 || exceeds c.defaults.cron_minute_step 59
    then err bad_minute_step
    else if less c.defaults.cron_hour_from 0 || exceeds c.defaults.cron_hour_from 23
    then err bad_hour_from
    else if before c.defaults.cron_hour_to c.defaults.cron_hour_from
        || exceeds c.defaults.cron_hour_to 23
    then err bad_hour_to
    else scan_ports c >>= λ ports. max_db_size_bytes c.defaults >>= λ size.
        if is_empty c.hosts && is_empty c.hosts_no_replica
        then err no_hosts
        else check_hosts (c.hosts ++ c.hosts_no_replica)

-- LoadConfigFromBytes, and LoadConfig once the file is read, on the decoded configuration
pub load_config : (Bytes → Bool) → Config → Result ConfigError Config
load_config is_uuid c = let c = set_defaults c in validate is_uuid c >>= λ _. ok c

-- `to - from + 1`, and 1 where that is not positive
pub hour_range : ℤ → ℤ → ℕ
hour_range (pos from) (pos to) = if ltb to from then 1 else to - from + 1
hour_range (pos from) (negsuc to) = 1
hour_range (negsuc from) (pos to) = to + from + 2
hour_range (negsuc from) (negsuc to) = if ltb from to then 1 else from - to + 1

abbrev pub plus : ℤ → ℕ → ℤ
plus (pos a) n = pos (a + n)
plus (negsuc a) n = if leb n a then negsuc (a - n) else pos (n - a - 1)

pub minute_step : DefaultsConfig → ℕ
minute_step d =
    if less d.cron_minute_step 1 || exceeds d.cron_minute_step 60
    then 5
    else pos_part d.cron_minute_step

-- randomCron: the minute and the hour. `rand n` is what rand.Intn draws below `n`: the first draw is
-- for the minute, the second one for the hour.
pub random_cron : DefaultsConfig → (ℕ → ℕ) → (ℕ → ℕ) → ℕ × ℤ
random_cron d rand_minute rand_hour =
    let step = minute_step d in
    (
      rand_minute (60 / step) * step,
      plus d.cron_hour_from (rand_hour (hour_range d.cron_hour_from d.cron_hour_to)),
    )
