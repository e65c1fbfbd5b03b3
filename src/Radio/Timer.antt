-- ===== src/Radio/Timer.antt =====
-- The beacons of a run of turns, against a timer that reads only the count of samples.
use meshtastic_lora_rs.Common.{
  ℕ, ◌+◌, ◌≤◌, ◌<◌, ◌≡◌, refl, ap, subst, ◌∙◌, Bool, true, false, ◌&&◌, List, [], ◌∷◌, Option, none,
  some, Bool-cases, inl, inr, arith, leb, leb→le, if_true, if_false, if◌then◌else◌,
}
use meshtastic_lora_rs.Mac.Packet.{MeshFrame}
use meshtastic_lora_rs.Mac.Crypto.{Cipher}
use meshtastic_lora_rs.Proto.{Proto}
use meshtastic_lora_rs.App.{build_nodeinfo_frame}
use meshtastic_lora_rs.Model.{Ui, Command, apply_all}
use meshtastic_lora_rs.Radio.{Lora, Loop, wrap64, beacon_interval, transmit}
use meshtastic_lora_rs.Radio.Send.{
  tx_allowed, send_built, send_nodeinfo, beacon, manual_tx, auto_tx,
}
use meshtastic_lora_rs.Radio.Tick.{tick, send_phases}
use meshtastic_lora_rs.Radio.Turns.{commanded}
use meshtastic_lora_rs.Radio.Typed.{on_air}
use meshtastic_lora_rs.Radio.Outgoing.{listened, tick-runs}
use meshtastic_lora_rs.Radio.NextBeacon.{ready, tick-next, tick-paused}
use meshtastic_lora_rs.Radio.Clock.{settle-beacon_clock}

-- A timer that is asked in turns, each of which runs or not at some time: it goes off in the first that
-- runs at a time not before `from`, and is then set again, `gap` later.
unfoldable pub timer : ℕ → ℕ → List (Bool × ℕ) → List Bool
timer gap from [] = []
timer gap from ((runs, t) ∷ later) =
    if runs && leb from t then true ∷ timer gap (t + gap) later else false ∷ timer gap from later

-- The times of the turns in which a timer went off.
abbrev pub rings : List Bool → List (Bool × ℕ) → List ℕ
rings [] calls = []
rings (off ∷ bits) [] = []
rings (true ∷ bits) ((runs, t) ∷ later) = t ∷ rings bits later
rings (false ∷ bits) ((runs, t) ∷ later) = rings bits later

-- The first time is not before `from`, and each next one at least `gap` after the one before.
abbrev pub SpacedFrom : ℕ → ℕ → List ℕ → Type 0
SpacedFrom gap from [] = Unit
SpacedFrom gap from (t ∷ times) = (from ≤ t) × SpacedFrom gap (t + gap) times

timer-SpacedFrom :
    (gap from : ℕ) (calls : List (Bool × ℕ))
    → SpacedFrom gap from (rings (timer gap from calls) calls)
unfolding timer
timer-SpacedFrom gap from [] = tt
timer-SpacedFrom gap from ((false, t) ∷ later) = timer-SpacedFrom gap from later
timer-SpacedFrom gap from ((true, t) ∷ later) = elim (Bool-cases (leb from t)) [
  | inl due ↦ rw due (leb→le from t due, timer-SpacedFrom gap (t + gap) later)
  | inr early ↦ rw early (timer-SpacedFrom gap from later)
]

abbrev as_list : Option MeshFrame → List MeshFrame
as_list none = []
as_list (some f) = f ∷ []

module _ (pr : Proto) (c : Cipher) (ui : Ui) (lora : Lora ui) where
  -- The node info of the loop's node under the next random id, if it fits a frame and may be sent.
  abbrev pub announcement : Loop ui lora → List MeshFrame
  announcement s =
      if tx_allowed s.vm.mode
      then as_list (build_nodeinfo_frame pr c s.node (lora.random_u32 s.world).0)
      else []

  -- The turn is the beacon's phase on the settled state, then the others; and this phase hands the
  -- announcement to the driver.
  abbrev pub Sends : List (Command ui) → Loop ui lora → Type 0
  Sends cmds s =
      let r = ready pr c ui lora cmds s in
      let b = beacon pr c ui lora r in
      (tick pr c ui lora cmds s
        ≡ listened pr c ui lora (auto_tx pr c ui lora (manual_tx pr c ui lora b)))
      × (b.driver ≡ on_air pr c ui lora r.tx_modem r.driver (announcement r))

  -- The same, but the phase leaves the driver.
  abbrev pub IsSilent : List (Command ui) → Loop ui lora → Type 0
  IsSilent cmds s =
      let r = ready pr c ui lora cmds s in
      let b = beacon pr c ui lora r in
      (tick pr c ui lora cmds s
        ≡ listened pr c ui lora (auto_tx pr c ui lora (manual_tx pr c ui lora b)))
      × (b.driver ≡ r.driver)

  -- Whether each turn runs, and the count of samples at its start.
  unfoldable pub calls : List (List (Command ui)) → Loop ui lora → List (Bool × ℕ)
  calls [] s = []
  calls (cmds ∷ later) s =
      ((apply_all ui cmds s.vm).running, s.produced) ∷ calls later (tick pr c ui lora cmds s)

  -- No turn is to rebuild the driver, and the count of samples stays an interval below 64 bits.
  unfoldable pub Undisturbed : List (List (Command ui)) → Loop ui lora → Type 0
  Undisturbed [] s = Unit
  Undisturbed (cmds ∷ later) s =
      ((apply_all ui cmds s.vm).rebuild_driver ≡ false)
      × (s.produced + beacon_interval < 18_446_744_073_709_551_616)
      × Undisturbed later (tick pr c ui lora cmds s)

-- The turns of a run: one in which the timer goes off sends the announcement, one that runs in which
-- it does not is silent, and one that does not run leaves the driver.
pub data Announced (pr : Proto) (c : Cipher) (ui : Ui) (lora : Lora ui)
    : List Bool → List (List (Command ui)) → Loop ui lora → Type 0 where
  done : {s : Loop ui lora} → Announced pr c ui lora [] [] s
  sends :
      {bits : List Bool} {cmds : List (Command ui)} {later : List (List (Command ui))}
      {s : Loop ui lora}
      → Sends pr c ui lora cmds s
      → Announced pr c ui lora bits later (tick pr c ui lora cmds s)
      → Announced pr c ui lora (true ∷ bits) (cmds ∷ later) s
  silent :
      {bits : List Bool} {cmds : List (Command ui)} {later : List (List (Command ui))}
      {s : Loop ui lora}
      → IsSilent pr c ui lora cmds s
      → Announced pr c ui lora bits later (tick pr c ui lora cmds s)
      → Announced pr c ui lora (false ∷ bits) (cmds ∷ later) s
  paused :
      {bits : List Bool} {cmds : List (Command ui)} {later : List (List (Command ui))}
      {s : Loop ui lora}
      → (apply_all ui cmds s.vm).running ≡ false
      → (tick pr c ui lora cmds s).driver ≡ s.driver
      → Announced pr c ui lora bits later (tick pr c ui lora cmds s)
      → Announced pr c ui lora (false ∷ bits) (cmds ∷ later) s

module _ (pr : Proto) (c : Cipher) (ui : Ui) (lora : Lora ui) where
  abbrev driver_of : Loop ui lora → lora.Driver
  driver_of s = s.driver

  send_built-driver :
      (o : Option MeshFrame) (ready s : Loop ui lora)
      → ready.driver ≡ s.driver
      → ready.tx_modem ≡ s.tx_modem
      → (send_built ui lora o ready s).driver ≡ on_air pr c ui lora s.tx_modem s.driver (as_list o)
  unfolding send_built transmit
  send_built-driver none ready s driver modem = refl
  send_built-driver (some f) ready s driver modem = rw (driver, modem) refl

  -- The beacon's phase, when it is due and when it is not.
  beacon-due :
      (s : Loop ui lora)
      → leb s.next_beacon_at s.produced ≡ true
      → (beacon pr c ui lora s).driver
        ≡ on_air pr c ui lora s.tx_modem s.driver (announcement pr c ui lora s)
  unfolding beacon send_nodeinfo
  beacon-due s due =
      let set : Loop ui lora = record s {
        next_beacon_at = wrap64 (s.produced + beacon_interval);
      } in
      let (drawn, w) = lora.random_u32 s.world in
      elim (Bool-cases (tx_allowed s.vm.mode)) [
        | inl on ↦
            rw (due, on)
              (send_built-driver (build_nodeinfo_frame pr c s.node drawn) (record set { world = w })
                set refl refl)
        | inr off ↦ rw (due, off) refl
      ]

  beacon-early :
      (s : Loop ui lora)
      → leb s.next_beacon_at s.produced ≡ false
      → (beacon pr c ui lora s).driver ≡ s.driver
  unfolding beacon
  beacon-early s early = rw early refl

  turn_phases :
      (cmds : List (Command ui)) (s : Loop ui lora)
      → (apply_all ui cmds s.vm).running ≡ true
      → tick pr c ui lora cmds s
        ≡ listened pr c ui lora (
            auto_tx pr c ui lora
              (manual_tx pr c ui lora (beacon pr c ui lora (ready pr c ui lora cmds s))))
  unfolding send_phases
  turn_phases cmds s runs = tick-runs pr c ui lora cmds s runs

  tick_paused :
      (cmds : List (Command ui)) (s : Loop ui lora)
      → (apply_all ui cmds s.vm).running ≡ false
      → (tick pr c ui lora cmds s).driver ≡ s.driver
  unfolding tick
  tick_paused cmds s stopped = ap driver_of (if_false _ stopped)

  -- One turn of the run, in which `from` is when the timer goes off.
  turn-Announced :
      (cmds : List (Command ui)) (later : List (List (Command ui))) (s : Loop ui lora)
      → (apply_all ui cmds s.vm).rebuild_driver ≡ false
      → s.produced + beacon_interval < 18_446_744_073_709_551_616
      → let s' = tick pr c ui lora cmds s in
        let rest = calls pr c ui lora later s' in
        Announced pr c ui lora (timer beacon_interval s'.next_beacon_at rest) later s'
        → Announced pr c ui lora
            (timer beacon_interval s.next_beacon_at
              (((apply_all ui cmds s.vm).running, s.produced) ∷ rest))
            (cmds ∷ later)
            s
  unfolding timer
  turn-Announced cmds later s keep small ih =
      let r = ready pr c ui lora cmds s in
      let s' = tick pr c ui lora cmds s in
      let same = settle-beacon_clock ui lora (commanded pr c ui lora cmds s) keep in
      let due_same : leb r.next_beacon_at r.produced ≡ leb s.next_beacon_at s.produced =
        ap (λ t. leb t.0 t.1) same in
      let from_next : ℕ → Type 0 = λ n.
        Announced pr c ui lora (timer beacon_interval n (calls pr c ui lora later s')) later s' in
      elim (Bool-cases (apply_all ui cmds s.vm).running) [
        | inr stopped ↦ rw stopped (
            paused stopped (tick_paused cmds s stopped)
              (subst from_next (tick-paused pr c ui lora cmds s stopped) ih))
        | inl runs ↦ elim (Bool-cases (leb s.next_beacon_at s.produced)) [
          | inl due ↦
              let next : s'.next_beacon_at ≡ s.produced + beacon_interval =
                tick-next pr c ui lora cmds s runs
                ∙ if_true _ (due_same ∙ due)
                ∙ omega (arith, small, ap (λ t. t.1) same) in
              rw (runs, due)
                (sends (turn_phases cmds s runs, beacon-due r (due_same ∙ due))
                  (subst from_next next ih))
          | inr early ↦
              let next : s'.next_beacon_at ≡ s.next_beacon_at =
                tick-next pr c ui lora cmds s runs
                ∙ if_false _ (due_same ∙ early)
                ∙ ap (λ t. t.0) same in
              rw (runs, early)
                (silent (turn_phases cmds s runs, beacon-early r (due_same ∙ early))
                  (subst from_next next ih))
        ]
      ]

  turns-Announced :
      (turns : List (List (Command ui))) (s : Loop ui lora)
      → Undisturbed pr c ui lora turns s
      → Announced pr c ui lora
          (timer beacon_interval s.next_beacon_at (calls pr c ui lora turns s))
          turns
          s
  unfolding Undisturbed calls
  turns-Announced [] s h = unfold timer in done
  turns-Announced (cmds ∷ later) s (keep, small, rest) =
      turn-Announced cmds later s keep small (turns-Announced later (tick pr c ui lora cmds s) rest)

  -- Where no turn rebuilds the driver and the count of samples stays below 64 bits, the beacons of a
  -- run of turns are those of the timer with the beacon's interval, whatever else is sent, received or
  -- commanded: in each turn that runs, the beacon's phase hands the node info to the driver if the
  -- timer goes off (and sending is allowed, and the info fits a frame), and nothing otherwise; and the
  -- times at which the timer goes off are at least 5,000,000 samples apart.
  pub beacon-timer :
      (turns : List (List (Command ui))) (s : Loop ui lora)
      → Undisturbed pr c ui lora turns s
      → let times = calls pr c ui lora turns s in
        let bits = timer beacon_interval s.next_beacon_at times in
        Announced pr c ui lora bits turns s
        × SpacedFrom beacon_interval s.next_beacon_at (rings bits times)
  beacon-timer turns s h = (
    turns-Announced turns s h,
    timer-SpacedFrom beacon_interval s.next_beacon_at (calls pr c ui lora turns s),
  )
