-- ===== src/Config/Schedule.antt =====
-- The schedule that the discovery draws for a new backup.
use pgwarden.Prelude.{
  ℕ, ◌+◌, ◌-◌, ◌*◌, ◌/◌, ◌≤◌, ◌<◌, ◌≡◌, refl, subst, Bool, false, ◌||◌, Result, ok, err, ◌>>=◌,
  ok_inj, Bytes, is_empty, ltb, arith, Bool-cases, inl, inr,
}
use native.Mathlib.Nat.{div-mul-le_self, mul-le-mul_right, le-div_iff_mul-le}
use pgwarden.Go.Strconv.{ℤ, pos, negsuc, less, exceeds, pos_part}
use pgwarden.Config.{
  Config, ConfigError, DefaultsConfig, set_defaults, validate, load_config, before, hour_range,
  plus, minute_step, random_cron,
}

-- What `validate` asks of the three numbers of the schedule.
HasSchedule : DefaultsConfig → Type 0
HasSchedule d =
    ((less d.cron_minute_step 1 || exceeds d.cron_minute_step 59) ≡ false)
    × (((less d.cron_hour_from 0 || exceeds d.cron_hour_from 23) ≡ false)
        × ((before d.cron_hour_to d.cron_hour_from || exceeds d.cron_hour_to 23) ≡ false))

err≢ok : {A : Type 0} {a : A} {e : ConfigError} → ◌≡◌ {A = Result ConfigError A} (err e) (ok a) → ⊥
err≢ok h = cc

validate-HasSchedule :
    (is_uuid : Bytes → Bool) (c : Config) (u : Unit {0})
    → validate is_uuid c ≡ ok u
    → HasSchedule c.defaults
unfolding validate HasSchedule
validate-HasSchedule is_uuid c u h = elim (Bool-cases (is_empty c.defaults.destination_id)) [
  | inl a ↦ absurd (err≢ok (rw a at h))
  | inr a ↦ elim (Bool-cases (is_uuid c.defaults.destination_id)) [
    | inr b ↦ absurd (err≢ok (rw (a, b) at h))
    | inl b ↦
        elim (Bool-cases
          (less c.defaults.cron_minute_step 1 || exceeds c.defaults.cron_minute_step 59)) [
            | inl m ↦ absurd (err≢ok (rw (a, b, m) at h))
            | inr m ↦
                elim (Bool-cases
                  (less c.defaults.cron_hour_from 0 || exceeds c.defaults.cron_hour_from 23)) [
                    | inl f ↦ absurd (err≢ok (rw (a, b, m, f) at h))
                    | inr f ↦
                        elim (Bool-cases (
                          before c.defaults.cron_hour_to c.defaults.cron_hour_from
                          || exceeds c.defaults.cron_hour_to 23)) [
                            | inl t ↦ absurd (err≢ok (rw (a, b, m, f, t) at h))
                            | inr t ↦ (m, (f, t))
                          ]
                  ]
          ]
  ]
]

loaded-valid :
    (is_uuid : Bytes → Bool) (c c' : Config) (m : Result ConfigError (Unit {0}))
    → (m >>= λ _. ok c) ≡ ok c'
    → ((u : Unit {0}) × (m ≡ ok u)) × (c ≡ c')
loaded-valid is_uuid c c' (ok u) h = ((u, refl), ok_inj h)
loaded-valid is_uuid c c' (err e) h = absurd (err≢ok h)

draw-bound : (r n s : ℕ) → r < n → n * s ≤ 60 → 1 ≤ s → r * s < 60
draw-bound r n s lt le one = omega (arith, mul-le-mul_right s lt)

inside_60 : (z : ℤ) → (less z 1 || exceeds z 59) ≡ false → (less z 1 || exceeds z 60) ≡ false
inside_60 (pos a) h = ground arith
inside_60 (negsuc a) h = h

at_least_1 : (z : ℤ) → (less z 1 || exceeds z 59) ≡ false → 1 ≤ pos_part z
at_least_1 (pos a) h = ground arith
at_least_1 (negsuc a) h = absurd (ground arith)

below_60 : (z : ℤ) → (less z 1 || exceeds z 59) ≡ false → pos_part z ≤ 60
below_60 (pos a) h = ground arith
below_60 (negsuc a) h = omega arith

minute-fits :
    (d : DefaultsConfig) (rand : ℕ → ℕ)
    → ((n : ℕ) → 0 < n → rand n < n)
    → HasSchedule d
    → (1 ≤ minute_step d) × (rand (60 / minute_step d) * minute_step d < 60)
unfolding HasSchedule minute_step
minute-fits d rand h s =
    let inside : (less d.cron_minute_step 1 || exceeds d.cron_minute_step 60) ≡ false =
      inside_60 d.cron_minute_step s.0 in
    let one : 1 ≤ pos_part d.cron_minute_step = at_least_1 d.cron_minute_step s.0 in
    rw inside (
      one,
      draw-bound (rand (60 / pos_part d.cron_minute_step)) (60 / pos_part d.cron_minute_step)
          (pos_part d.cron_minute_step)
          (h (60 / pos_part d.cron_minute_step) (
            (le-div_iff_mul-le {x = 1} {y = 60} one).1
              (omega (arith, below_60 d.cron_minute_step s.0))))
          (div-mul-le_self 60 (pos_part d.cron_minute_step)) one,
    )

hour-fits :
    (from to : ℤ) (rand : ℕ → ℕ)
    → ((n : ℕ) → 0 < n → rand n < n)
    → (less from 0 || exceeds from 23) ≡ false
    → (before to from || exceeds to 23) ≡ false
    → (hour : ℕ) × ((plus from (rand (hour_range from to)) ≡ pos hour)
        × ((hour ≤ 23) × ((pos_part from ≤ hour) × (hour ≤ pos_part to))))
unfolding hour_range
hour-fits (pos a) (pos b) rand h f t =
    let low : ltb b a ≡ false = ground (arith, t) in
    let drawn = h (b - a + 1) (omega arith) in
    rw low (
      a + rand (b - a + 1),
      (refl, (ground (arith, t, drawn), (omega arith, ground (arith, t, drawn)))),
    )
hour-fits (pos a) (negsuc b) rand h f t = absurd (ground (arith, t))
hour-fits (negsuc a) to rand h f t = absurd (ground (arith, f))

HasSchedule-hours :
    (d : DefaultsConfig)
    → HasSchedule d
    → ((less d.cron_hour_from 0 || exceeds d.cron_hour_from 23) ≡ false)
      × ((before d.cron_hour_to d.cron_hour_from || exceeds d.cron_hour_to 23) ≡ false)
unfolding HasSchedule
HasSchedule-hours d h = h.1

-- A configuration that is accepted gives every new backup a schedule of its own window: a minute below
-- 60 that is a multiple of the step, and an hour from `cron_hour_from` to `cron_hour_to`, at most 23;
-- rand.Intn draws below its argument.
pub random_cron_fits :
    (is_uuid : Bytes → Bool) (given c : Config) (rand_minute rand_hour : ℕ → ℕ)
    → load_config is_uuid given ≡ ok c
    → ((n : ℕ) → 0 < n → rand_minute n < n)
    → ((n : ℕ) → 0 < n → rand_hour n < n)
    → let (minute, hour) = random_cron c.defaults rand_minute rand_hour in
      (minute < 60)
      × (((k : ℕ) × (minute ≡ k * minute_step c.defaults))
          × ((h : ℕ) × ((hour ≡ pos h)
                × ((h ≤ 23)
                    × ((pos_part c.defaults.cron_hour_from ≤ h)
                        × (h ≤ pos_part c.defaults.cron_hour_to))))))
unfolding load_config random_cron
random_cron_fits is_uuid given c rand_minute rand_hour loaded minute_ok hour_ok =
    let ((u, valid), same) =
      loaded-valid is_uuid (set_defaults given) c (validate is_uuid (set_defaults given)) loaded in
    let schedule =
      subst (λ (x : Config). HasSchedule x.defaults) same
        (validate-HasSchedule is_uuid (set_defaults given) u valid) in
    let facts = HasSchedule-hours c.defaults schedule in
    (
      (minute-fits c.defaults rand_minute minute_ok schedule).1,
      (
        (rand_minute (60 / minute_step c.defaults), refl),
        hour-fits c.defaults.cron_hour_from c.defaults.cron_hour_to rand_hour hour_ok facts.0
            facts.1,
      ),
    )
