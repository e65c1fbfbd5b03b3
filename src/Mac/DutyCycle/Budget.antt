-- ===== src/Mac/DutyCycle/Budget.antt =====
-- A client that transmits only when `can_send` agrees stays within the budget in every window; and
-- where the clock has run for less than a window, the ledger forgets.
use meshtastic_lora_rs.Common.{
  ℕ, Bool, Option, none, some, Option-cases, ◌+◌, ◌-◌, ◌≤◌, ◌<◌, ◌≡◌, refl, sym, ap, ◌∙◌, true,
  false, List, [], ◌∷◌, ◌++◌, All, All-append, leb, leb→le, arith, Bool-cases, inl, inr,
}
use mathlib.Core.List.{append-nil, append_assoc}
use meshtastic_lora_rs.Mac.DutyCycle.{
  Floats, Entry, pop_stale, total, window, unwrap_or, cutoff, DutyCycle, new, budget, compared,
  can_send, record_tx, evict_stale,
}
use meshtastic_lora_rs.Mac.DutyCycle.Ledger.{
  Chrono, Until, Until-mono, Chrono-snoc, live, live-append, pop_stale-live, live-live, live-Chrono,
  total-append, in_window, in_window-append, in_window-le-live,
}

-- A wish to transmit: the two readings of the clock inside `can_send`, the reading when the
-- transmission has ended, and its airtime.
pub record Attempt : Type 0 where
  pub now : ℕ
  pub later : ℕ
  pub done : ℕ
  pub airtime : ℕ

-- The clock does not go back, from `t` on.
abbrev pub Ticking : ℕ → List Attempt → Type 0
Ticking t [] = Unit {0}
Ticking t (a ∷ as') = (t ≤ a.now) × (a.now ≤ a.later) × (a.later ≤ a.done) × Ticking a.done as'

module _ (fl : Floats) where
  open fl use {F64}

  -- The budget of a limit, and nothing where it is no duration and `can_send` panics.
  abbrev pub allowance : F64 → ℕ
  allowance limit = unwrap_or (budget fl limit) 0

  -- On agreement transmit and record; a client that panics transmits nothing.
  abbrev answered :
      Attempt → DutyCycle F64 → Option (Bool × DutyCycle F64) → DutyCycle F64 × List Entry
  answered a d none = (d, [])
  answered a d (some (true, d')) = (record_tx a.done a.airtime d', (a.done, a.airtime) ∷ [])
  answered a d (some (false, d')) = (d', [])

  abbrev pub attempt : Attempt → DutyCycle F64 → DutyCycle F64 × List Entry
  attempt a d = answered a d (can_send fl a.now a.later a.airtime d)

  -- What a client has transmitted after a run of attempts, oldest first.
  abbrev pub sent : List Attempt → DutyCycle F64 → List Entry
  sent [] d = []
  sent (a ∷ as') d = (attempt a d).1 ++ sent as' (attempt a d).0

  -- The ledger holds what was sent, but for entries that are older than the window.
  record Holds (clock : ℕ) (history : List Entry) (d : DutyCycle F64) : Type 0 where
    chrono : Chrono 0 history
    until : Until clock history
    oldest : ℕ
    reach : oldest + window ≤ clock
    kept : d.log ≡ live oldest history

  evicted :
      (clock now later : ℕ) (history : List Entry) (d : DutyCycle F64)
      → Holds clock history d
      → clock ≤ now
      → (evict_stale now later d).log ≡ live (now - window) history
  unfolding evict_stale cutoff
  evicted clock now later history d h le =
      let limit : cutoff now later ≡ now - window = ground arith in
      rw (limit, h.kept)
        (pop_stale-live (now - window) 0 (live h.oldest history)
            (live-Chrono h.oldest 0 history h.chrono)
          ∙ live-live h.oldest (now - window) history (omega arith))

  -- Every window holds at most the budget.
  abbrev Within : ℕ → List Entry → Type 0
  Within limit history = (t : ℕ) → total (in_window t history) ≤ limit

  Within-snoc :
      (limit now done airtime : ℕ) (history : List Entry)
      → Within limit history
      → now ≤ done
      → total (live (now - window) history) + airtime ≤ limit
      → Within limit (history ++ ((done, airtime) ∷ []))
  Within-snoc limit now done airtime history w le fits t =
      rw (in_window-append t history ((done, airtime) ∷ [])) (
        rw (total-append (in_window t history) (in_window t ((done, airtime) ∷ [])))
          (ground (arith, w t, in_window-le-live t now history)))

  live_after :
      (clock now : ℕ) (history : List Entry) (done airtime : ℕ)
      → now ≤ done
      → live (now - window) (history ++ ((done, airtime) ∷ []))
        ≡ live (now - window) history ++ ((done, airtime) ∷ [])
  live_after clock now history done airtime le =
      live-append (now - window) history ((done, airtime) ∷ [])
      ∙ ap (λ xs. live (now - window) history ++ xs) (ground arith)

  -- What a run keeps true of the history and the ledger.
  record Keeps (limit : F64) (clock : ℕ) (history : List Entry) (d : DutyCycle F64) : Type 0 where
    holds : Holds clock history d
    within : Within (allowance limit) history
    same_limit : d.limit_fraction ≡ limit

  refused :
      (limit : F64) (clock : ℕ) (history : List Entry) (d : DutyCycle F64) (a : Attempt)
      → Ticking clock (a ∷ [])
      → Keeps limit clock history d
      → Keeps limit a.done history (evict_stale a.now a.later d)
  refused limit clock history d a t k = record {
    holds = record {
      chrono = k.holds.chrono;
      until = Until-mono clock a.done history (omega arith) k.holds.until;
      oldest = a.now - window;
      reach = omega arith;
      kept = evicted clock a.now a.later history d k.holds t.0;
    };
    within = k.within;
    same_limit = unfold evict_stale in k.same_limit;
  }

  agreed :
      (limit : F64) (clock : ℕ) (history : List Entry) (d : DutyCycle F64) (a : Attempt)
      → Ticking clock (a ∷ [])
      → Keeps limit clock history d
      → total (evict_stale a.now a.later d).log + a.airtime ≤ allowance limit
      → Keeps limit a.done
          (history ++ ((a.done, a.airtime) ∷ []))
          (record_tx a.done a.airtime (evict_stale a.now a.later d))
  unfolding record_tx
  agreed limit clock history d a t k fits =
      let kept = evicted clock a.now a.later history d k.holds t.0 in
      let until = Until-mono clock a.done history (omega arith) k.holds.until in
      record {
        holds = record {
          chrono = Chrono-snoc 0 a.done a.airtime history (omega arith) k.holds.chrono until;
          until =
              All-append (λ e. e.0 ≤ a.done) history ((a.done, a.airtime) ∷ []) until (omega arith);
          oldest = a.now - window;
          reach = omega arith;
          kept =
              ap (λ xs. xs ++ ((a.done, a.airtime) ∷ [])) kept
              ∙ sym (live_after clock a.now history a.done a.airtime (omega arith));
        };
        within =
            Within-snoc (allowance limit) a.now a.done a.airtime history k.within (omega arith)
              (omega (arith, ap total kept));
        same_limit = unfold evict_stale in k.same_limit;
      }

  -- A client that panics leaves the ledger.
  panicked :
      (limit : F64) (clock : ℕ) (history : List Entry) (d : DutyCycle F64) (a : Attempt)
      → Ticking clock (a ∷ [])
      → Keeps limit clock history d
      → Keeps limit a.done history d
  panicked limit clock history d a t k = record {
    holds = record {
      chrono = k.holds.chrono;
      until = Until-mono clock a.done history (omega arith) k.holds.until;
      oldest = k.holds.oldest;
      reach = omega (arith, k.holds.reach);
      kept = k.holds.kept;
    };
    within = k.within;
    same_limit = k.same_limit;
  }

  -- The answers of `can_send`.
  can_send_panics :
      (a : Attempt) (d : DutyCycle F64)
      → budget fl d.limit_fraction ≡ none
      → can_send fl a.now a.later a.airtime d ≡ none
  unfolding can_send
  can_send_panics a d e =
      let d' = evict_stale a.now a.later d in ap (compared fl (total d'.log + a.airtime) d') e

  can_send_answers :
      (a : Attempt) (d : DutyCycle F64) (b : ℕ) (agrees : Bool)
      → budget fl d.limit_fraction ≡ some b
      → leb (total (evict_stale a.now a.later d).log + a.airtime) b ≡ agrees
      → can_send fl a.now a.later a.airtime d ≡ some (agrees, evict_stale a.now a.later d)
  unfolding can_send
  can_send_answers a d b agrees e h =
      let d' = evict_stale a.now a.later d in
      ap (compared fl (total d'.log + a.airtime) d') e ∙ ap (λ agreed. some (agreed, d')) h

  step_Keeps :
      (limit : F64) (clock : ℕ) (history : List Entry) (d : DutyCycle F64) (a : Attempt)
      → Ticking clock (a ∷ [])
      → Keeps limit clock history d
      → Keeps limit a.done (history ++ (attempt a d).1) (attempt a d).0
  step_Keeps limit clock history d a t k = elim (Option-cases (budget fl d.limit_fraction)) [
    | inl bad ↦
        rw (can_send_panics a d bad, append-nil history) (panicked limit clock history d a t k)
    | inr (b, good) ↦
        let used = total (evict_stale a.now a.later d).log in
        let allowed : allowance limit ≡ b =
          ap (λ f. unwrap_or (budget fl f) 0) (sym k.same_limit) ∙ ap (λ o. unwrap_or o 0) good in
        elim (Bool-cases (leb (used + a.airtime) b)) [
          | inl yes_ ↦
              rw (can_send_answers a d b true good yes_)
                (agreed limit clock history d a t k (omega (arith, leb→le _ _ yes_, allowed)))
          | inr no_ ↦
              rw (can_send_answers a d b false good no_, append-nil history)
                (refused limit clock history d a t k)
        ]
  ]

  run_Keeps :
      (limit : F64) (clock : ℕ) (history : List Entry) (d : DutyCycle F64) (as' : List Attempt)
      → Ticking clock as'
      → Keeps limit clock history d
      → Within (allowance limit) (history ++ sent as' d)
  run_Keeps limit clock history d [] t k = rw (append-nil history) k.within
  run_Keeps limit clock history d (a ∷ as') t k =
      rw (← append_assoc history (attempt a d).1 (sent as' (attempt a d).0)) (
        run_Keeps limit a.done (history ++ (attempt a d).1) (attempt a d).0 as' t.3
          (step_Keeps limit clock history d a (t.0, t.1, t.2, tt) k))

  -- Where the clock reads at least an hour and does not go back, a client that transmits only when
  -- `can_send` agrees, and records what it transmits, has in every window of 3600 seconds no more
  -- airtime than the budget, and none at all where the limit makes `can_send` panic.
  pub sent-within_budget :
      (limit : F64) (as' : List Attempt) (t : ℕ)
      → Ticking window as'
      → total (in_window t (sent as' (new fl limit))) ≤ allowance limit
  sent-within_budget limit as' t ticking =
      run_Keeps limit window [] (new fl limit) as' ticking start t
    where
      start : Keeps limit window [] (new fl limit)
      start = record {
        holds = record { chrono = tt; until = tt; oldest = 0; reach = omega arith; kept = refl };
        within = λ t. omega arith;
        same_limit = refl;
      }

pop_stale-All :
    (limit : ℕ) (log : List Entry) → All (λ e. e.0 < limit) log → pop_stale limit log ≡ []
unfolding pop_stale
pop_stale-All limit [] h = refl
pop_stale-All limit ((t, d) ∷ log) h = ground (arith, pop_stale-All limit log h.1)

-- Where the clock reads less than an hour, so that the start of the window cannot be represented,
-- `can_send` throws away every entry that lies before its second reading of the clock, and agrees to
-- whatever fits the budget alone; it panics where the budget is no duration.
pub can_send_young_clock :
    (fl : Floats) (now later airtime : ℕ) (d : DutyCycle fl.F64)
    → now < window
    → All (λ e. e.0 < later) d.log
    → can_send fl now later airtime d
      ≡ compared fl airtime (record d { log = [] }) (budget fl d.limit_fraction)
unfolding can_send evict_stale cutoff
can_send_young_clock fl now later airtime d young old =
    let limit : cutoff now later ≡ later = ground arith in
    let gone : pop_stale (cutoff now later) d.log ≡ [] =
      ap (λ t. pop_stale t d.log) limit ∙ pop_stale-All later d.log old in
    let wanted : total [] + airtime ≡ airtime = omega arith in
    let b = budget fl d.limit_fraction in
    ap (λ log. compared fl (total log + airtime) (record d { log = log }) b) gone
    ∙ ap (λ n. compared fl n (record d { log = [] }) b) wanted
