-- ===== src/Mac/DutyCycle.antt =====
-- mesh/src/mac/duty_cycle.rs. Instants and durations are whole nanoseconds, instants counted from
-- the first one that the clock can represent; the readings of the clock are arguments. What the code
-- computes in floating point is a parameter (`Floats`). Sums of airtimes beyond 2 ^ 64 seconds, where
-- the addition of durations panics, are left out.
pub mod Ledger
pub mod Budget
use meshtastic_lora_rs.Common.{
  ℕ, ◌+◌, ◌-◌, ◌*◌, ◌^◌, ◌≤◌, Bool, ◌&&◌, List, [], ◌∷◌, ◌++◌, ltb, leb, if◌then◌else◌, Option,
  none, some,
}

-- `f64` with the operations and the literals that the code uses, and `Duration::from_secs_f64`, which
-- is none where it panics: for what is negative, no number, infinite or too large.
pub record Floats : Type 1 where
  pub F64 : Type 0
  pub of_ℕ : ℕ → F64
  pub hundredth : F64
  pub four_and_a_quarter : F64
  pub add : F64 → F64 → F64
  pub sub : F64 → F64 → F64
  pub mul : F64 → F64 → F64
  pub div : F64 → F64 → F64
  pub max : F64 → F64 → F64
  pub ceil : F64 → F64
  pub from_secs_f64 : F64 → Option ℕ

-- `const WINDOW`: 3600 seconds.
abbrev pub window_secs : ℕ
window_secs = 3600

abbrev pub window : ℕ
window = window_secs * 10 ^ 9

-- A timestamp and an airtime.
abbrev pub Entry : Type 0
Entry = ℕ × ℕ

-- `Instant::checked_sub`: none if the result lies before the first representable instant.
abbrev pub checked_sub : ℕ → ℕ → Option ℕ
checked_sub t d = if ltb t d then none else some (t - d)

abbrev pub unwrap_or : Option ℕ → ℕ → ℕ
unwrap_or none d = d
unwrap_or (some t) d = t

-- `now` and `later` are the two readings of the clock.
pub cutoff : ℕ → ℕ → ℕ
cutoff now later = unwrap_or (checked_sub now window) later

-- The `while` loop over the front of the queue.
unfoldable pub pop_stale : ℕ → List Entry → List Entry
pop_stale limit [] = []
pop_stale limit ((t, d) ∷ log) =
    let rest = pop_stale limit log in if ltb t limit then rest else (t, d) ∷ log

abbrev pub total : List Entry → ℕ
total [] = 0
total ((t, d) ∷ log) = d + total log

pub record DutyCycle (F : Type 0) : Type 0 where
  pub limit_fraction : F
  pub log : List Entry

unfoldable pub evict_stale : {F : Type 0} → ℕ → ℕ → DutyCycle F → DutyCycle F
unfolding cutoff
evict_stale now later d = record d { log = pop_stale (cutoff now later) d.log }

-- `now` is the reading of the clock when the transmission has ended.
unfoldable pub record_tx : {F : Type 0} → ℕ → ℕ → DutyCycle F → DutyCycle F
record_tx now t_air d = record d { log = d.log ++ ((now, t_air) ∷ []) }

module _ (fl : Floats) where
  open fl use {
    F64, of_ℕ, hundredth, four_and_a_quarter, add, sub, mul, div, max, ceil, from_secs_f64,
  }

  abbrev pub new : F64 → DutyCycle F64
  new limit_fraction = record { limit_fraction = limit_fraction; log = [] }

  abbrev pub eu868 : DutyCycle F64
  eu868 = new hundredth

  abbrev pub uncapped : DutyCycle F64
  uncapped = new (of_ℕ 1)

  abbrev pub budget : F64 → Option ℕ
  budget limit_fraction = from_secs_f64 (mul (of_ℕ window_secs) limit_fraction)

  -- The comparison with the budget; `none` is the panic of a budget that is no duration.
  abbrev pub compared : ℕ → DutyCycle F64 → Option ℕ → Option (Bool × DutyCycle F64)
  compared wanted d none = none
  compared wanted d (some limit) = some (leb wanted limit, d)

  unfoldable pub can_send : ℕ → ℕ → ℕ → DutyCycle F64 → Option (Bool × DutyCycle F64)
  can_send now later t_air d =
      let d' = evict_stale now later d in
      compared (total d'.log + t_air) d' (budget d.limit_fraction)

  -- The float arithmetic of `time_on_air`.
  unfoldable pub airtime : ℕ → F64 → ℕ → ℕ → ℕ → Option ℕ
  airtime sf bw_hz cr payload_len preamble =
      let t_sym = div (of_ℕ (2 ^ sf)) bw_hz in
      let pl = of_ℕ payload_len in
      let sf_f = of_ℕ sf in
      let cr_f = of_ℕ (cr - 4) in
      let inner =
        max (add (add (sub (mul (of_ℕ 8) pl) (mul (of_ℕ 4) sf_f)) (of_ℕ 28)) (of_ℕ 16)) (of_ℕ 0) in
      let n_data = mul (ceil (div inner (mul (of_ℕ 4) sf_f))) (add cr_f (of_ℕ 4)) in
      let n_sym = add (add (add (of_ℕ preamble) four_and_a_quarter) (of_ℕ 8)) n_data in
      from_secs_f64 (mul n_sym t_sym)

  -- `none` is a panic: a shift by 32 or more, `cr - 4` below zero, or a product that is no duration, as
  -- for a bandwidth or a spreading factor of zero.
  unfoldable pub time_on_air : ℕ → F64 → ℕ → ℕ → ℕ → Option ℕ
  time_on_air sf bw_hz cr payload_len preamble =
      if ltb sf 32 && leb 4 cr then airtime sf bw_hz cr payload_len preamble else none
