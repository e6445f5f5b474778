-- ===== src/Config/Tests.antt =====
-- A configuration with two port ranges.
use pgwarden.Prelude.{
  ℕ, ◌-◌, ◌*◌, ◌≤◌, ◌<◌, ◌≡◌, refl, Bool, true, false, none, ok, [], ◌∷◌, Bytes, codes, is_empty,
  arith, text_eq,
}
use pgwarden.Go.Strconv.{ℤ, pos, negsuc, pos_part}
use pgwarden.Config.{
  DefaultsConfig, HostConfig, ClusterConfig, Config, tag_for_host, max_db_size_bytes, set_defaults,
  scan_ports, validate, load_config, minute_step, random_cron, ConfigError, add_items, tag_in,
  add_item, add_single, with_unit, size_of, wrap_int64,
}
use pgwarden.Config.Ports.{ArePorts, scan_ports_sound}
use pgwarden.Config.Schedule.{random_cron_fits}

abbrev defaults : DefaultsConfig
defaults = record {
  destination_id = codes "d";
  retention_days = pos 0;
  monthly_retention_enabled = false;
  parallel_dump = true;
  time_zone = [];
  is_active = none;
  exclude_databases = [];
  cron_minute_step = pos 7;
  cron_hour_from = pos 1;
  cron_hour_to = pos 4;
  connection_sslmode = [];
  scan_ports = codes "5432" ∷ codes " 5430-5433 " ∷ [];
  max_db_size = codes "10 gb";
  tag = codes "prod";
}

abbrev host : HostConfig
host = record {
  name = codes "h";
  connection_host = [];
  exclude_databases = [];
  clusters = [];
  tag = [];
}

abbrev config : Config
config = record {
  defaults = defaults;
  hosts = host ∷ [];
  hosts_no_replica = [];
  host_tags = (codes "dev", codes "x" ∷ []) ∷ [];
}

abbrev any_uuid : Bytes → Bool
any_uuid s = true

ten_gigabytes : max_db_size_bytes defaults ≡ ok (pos 10737418240)
unfolding max_db_size_bytes pgwarden.Go.Strings.trim_space text_eq with_unit
    pgwarden.Go.Strings.has_suffix pgwarden.Go.Strings.to_upper pgwarden.Go.Strings.remove_all
    size_of pgwarden.Go.Strconv.atoi wrap_int64
ten_gigabytes = refl

-- 2^24 TB are 2^64 bytes: the product is 0, which switches the limit off.
huge_limit : max_db_size_bytes (record defaults { max_db_size = codes "16777216TB" }) ≡ ok (pos 0)
unfolding max_db_size_bytes pgwarden.Go.Strings.trim_space text_eq with_unit
    pgwarden.Go.Strings.has_suffix pgwarden.Go.Strings.to_upper pgwarden.Go.Strings.remove_all
    size_of pgwarden.Go.Strconv.atoi wrap_int64
huge_limit = refl

-- An hour of 0 is taken for a missing one: backups from 0 to 0 hours become backups from 0 to 5.
midnight :
    (set_defaults
      (record config { defaults = record defaults { cron_hour_to = pos 0 } })).defaults.cron_hour_to
    ≡ pos 5
unfolding set_defaults
midnight = refl

default_tag : tag_for_host config host ≡ codes "prod"
unfolding tag_for_host tag_in text_eq
default_tag = refl

ports : scan_ports config ≡ ok (5432 ∷ 5430 ∷ 5431 ∷ 5433 ∷ [])
unfolding scan_ports add_items add_item pgwarden.Go.Strings.trim_space pgwarden.Go.Strings.contains
    add_single pgwarden.Go.Strconv.atoi pgwarden.Config.add_item_range pgwarden.Go.Strings.cut
    pgwarden.Go.Strings.before_cut pgwarden.Config.ranged pgwarden.Config.add_range
    pgwarden.Config.add_port
ports = refl

scan_ports_sound_example :
    (is_empty {A = ℕ} (5432 ∷ 5430 ∷ 5431 ∷ 5433 ∷ []) ≡ false)
    × ArePorts (5432 ∷ 5430 ∷ 5431 ∷ 5433 ∷ [])
unfolding scan_ports add_items add_item pgwarden.Go.Strings.trim_space pgwarden.Go.Strings.contains
    add_single pgwarden.Go.Strconv.atoi pgwarden.Config.add_item_range pgwarden.Go.Strings.cut
    pgwarden.Go.Strings.before_cut pgwarden.Config.ranged pgwarden.Config.add_range
    pgwarden.Config.add_port
scan_ports_sound_example = scan_ports_sound config (5432 ∷ 5430 ∷ 5431 ∷ 5433 ∷ []) refl

random_cron_fits_example :
    let (minute, hour) = random_cron (set_defaults config).defaults (λ n. n - 1) (λ n. 0) in
    (minute < 60)
    × (((k : ℕ) × (minute ≡ k * minute_step (set_defaults config).defaults))
        × ((h : ℕ) × ((hour ≡ pos h)
              × ((h ≤ 23)
                  × ((pos_part (set_defaults config).defaults.cron_hour_from ≤ h)
                      × (h ≤ pos_part (set_defaults config).defaults.cron_hour_to))))))
unfolding load_config validate set_defaults scan_ports add_items add_item
    pgwarden.Go.Strings.trim_space pgwarden.Go.Strings.contains add_single pgwarden.Go.Strconv.atoi
    pgwarden.Config.add_item_range pgwarden.Go.Strings.cut pgwarden.Go.Strings.before_cut
    pgwarden.Config.ranged pgwarden.Config.add_range pgwarden.Config.add_port max_db_size_bytes
    pgwarden.Config.check_clusters pgwarden.Config.check_hosts size_of with_unit wrap_int64
    pgwarden.Go.Strconv.is_digit pgwarden.Go.Strconv.parse_digits pgwarden.Go.Strconv.parse_number
    pgwarden.Go.Strings.has_suffix pgwarden.Go.Strings.is_space pgwarden.Go.Strings.remove_all
    pgwarden.Go.Strings.to_upper pgwarden.Go.Strings.trim pgwarden.Go.Strings.trim_left
    pgwarden.Go.Strings.trim_right text_eq
random_cron_fits_example =
    random_cron_fits any_uuid config (set_defaults config) (λ n. n - 1) (λ n. 0) refl
      (λ n h. omega arith) (λ n h. h)
