-- ===== src/Tests/DutyCycle.antt =====
-- Runs and examples for the duty cycle.
use meshtastic_lora_rs.Common.{
  ℕ, ◌+◌, ◌-◌, ◌*◌, ◌^◌, ◌≤◌, ◌≡◌, refl, List, [], ◌∷◌, leb, some, arith,
}
use meshtastic_lora_rs.Mac.DutyCycle.{
  DutyCycle, window, total, new, can_send, pop_stale, evict_stale, record_tx,
}
use meshtastic_lora_rs.Mac.DutyCycle.Ledger.{in_window}
use meshtastic_lora_rs.Mac.DutyCycle.Budget.{
  Attempt, allowance, sent, sent-within_budget, can_send_young_clock,
}
use meshtastic_lora_rs.Tests.Concrete.{toy_floats}

-- Ten seconds at the start of the second hour, and an hour and a second later.
abbrev wishes : List Attempt
wishes =
    record { now = window; later = window; done = window + 10; airtime = 10 * 10 ^ 9 }
    ∷ record {
      now = 2 * window + 10 ^ 9;
      later = 2 * window + 10 ^ 9;
      done = 2 * window + 11 * 10 ^ 9;
      airtime = 10 * 10 ^ 9;
    }
    ∷ []

both_sent : total (sent toy_floats wishes (new toy_floats 1)) ≡ 20 * 10 ^ 9
unfolding can_send evict_stale pop_stale record_tx
both_sent = refl

sent-within_budget_example :
    total (in_window (2 * window) (sent toy_floats wishes (new toy_floats 1)))
    ≤ allowance toy_floats 1
sent-within_budget_example = sent-within_budget toy_floats 1 wishes (2 * window) (omega arith)

-- Half an hour after the first instant, a ledger that is used up.
abbrev used_up : DutyCycle ℕ
used_up = record { limit_fraction = 1; log = (5, window) ∷ [] }

can_send_young_clock_example :
    can_send toy_floats (window - 7) (window - 7) 9 used_up
    ≡ some (leb 9 window, record { limit_fraction = 1; log = [] })
can_send_young_clock_example =
    can_send_young_clock toy_floats (window - 7) (window - 7) 9 used_up (omega arith) (omega arith)
