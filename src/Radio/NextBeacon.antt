-- ===== src/Radio/NextBeacon.antt =====
-- The time of the next beacon through the phases of a turn and a whole turn.
use meshtastic_lora_rs.Common.{
  ℕ, ◌+◌, ◌≡◌, refl, ap, ◌∙◌, true, false, ◌&&◌, List, [], ◌∷◌, Option, none, some, Bool-cases, inl,
  inr, leb, if_true, if_false, if◌then◌else◌,
}
use meshtastic_lora_rs.Mac.Packet.{MeshFrame}
use meshtastic_lora_rs.Mac.Crypto.{Cipher}
use meshtastic_lora_rs.Proto.{Proto}
use meshtastic_lora_rs.Common.Result.{Str}
use meshtastic_lora_rs.Model.{Ui, Command, apply_all}
use meshtastic_lora_rs.Radio.{
  Lora, Loop, wrap64, beacon_interval, push_log, push_log_full, transmit,
}
use meshtastic_lora_rs.Radio.Send.{
  tx_allowed, send_built, send_nodeinfo, beacon, send_text, send_texts, manual_tx, auto_tx,
}
use meshtastic_lora_rs.Radio.Tick.{settle, send_phases, tick}
use meshtastic_lora_rs.Radio.Turns.{commanded}
use meshtastic_lora_rs.Radio.Outgoing.{tick-runs}
use meshtastic_lora_rs.Radio.Clock.{listened-due_times}

module _ (pr : Proto) (c : Cipher) (ui : Ui) (lora : Lora ui) where
  abbrev pub next_beacon : Loop ui lora → ℕ
  next_beacon s = s.next_beacon_at

  send_built-next :
      (o : Option MeshFrame) (ready s : Loop ui lora)
      → next_beacon ready ≡ next_beacon s
      → next_beacon (send_built ui lora o ready s) ≡ next_beacon s
  unfolding send_built transmit
  send_built-next none ready s same = refl
  send_built-next (some f) ready s same = same

  send_nodeinfo-next :
      (s : Loop ui lora) → next_beacon (send_nodeinfo pr c ui lora s) ≡ next_beacon s
  unfolding send_nodeinfo
  send_nodeinfo-next s = search (send_built-next)

  beacon-next :
      (s : Loop ui lora)
      → next_beacon (beacon pr c ui lora s) ≡ (
          if leb s.next_beacon_at s.produced
          then wrap64 (s.produced + beacon_interval)
          else s.next_beacon_at)
  unfolding beacon
  beacon-next s = elim (Bool-cases (leb s.next_beacon_at s.produced)) [
    | inr later ↦ rw later refl
    | inl due ↦ elim (Bool-cases (tx_allowed s.vm.mode)) [
      | inl on ↦
          rw (due, on)
            (send_nodeinfo-next
              (record s { next_beacon_at = wrap64 (s.produced + beacon_interval) }))
      | inr off ↦ rw (due, off) refl
    ]
  ]

  send_text-next :
      (text : Str) (s : Loop ui lora) → next_beacon (send_text pr c ui lora text s) ≡ next_beacon s
  unfolding send_text push_log push_log_full
  send_text-next text s = search (send_built-next)

  send_texts-next :
      (texts : List Str) (s : Loop ui lora)
      → next_beacon (send_texts pr c ui lora texts s) ≡ next_beacon s
  unfolding send_texts
  send_texts-next [] s = refl
  send_texts-next (text ∷ texts) s =
      send_texts-next texts (send_text pr c ui lora text s) ∙ send_text-next text s

  manual_tx-next : (s : Loop ui lora) → next_beacon (manual_tx pr c ui lora s) ≡ next_beacon s
  unfolding manual_tx
  manual_tx-next s = elim (Bool-cases (tx_allowed s.vm.mode)) [
    | inl on ↦ ap next_beacon (if_true _ on) ∙ search send_texts-next
    | inr off ↦ ap next_beacon (if_false _ off)
  ]

  auto_tx-next : (s : Loop ui lora) → next_beacon (auto_tx pr c ui lora s) ≡ next_beacon s
  unfolding auto_tx
  auto_tx-next s =
      elim (Bool-cases (tx_allowed s.vm.mode && s.vm.auto_tx && leb s.next_tx_at s.produced)) [
        | inl due ↦ ap next_beacon (if_true _ due) ∙ search send_text-next
        | inr later ↦ ap next_beacon (if_false _ later)
      ]

  send_phases-next :
      (s : Loop ui lora)
      → next_beacon (send_phases pr c ui lora s) ≡ (
          if leb s.next_beacon_at s.produced
          then wrap64 (s.produced + beacon_interval)
          else s.next_beacon_at)
  unfolding send_phases
  send_phases-next s =
      auto_tx-next (manual_tx pr c ui lora (beacon pr c ui lora s))
      ∙ manual_tx-next (beacon pr c ui lora s)
      ∙ beacon-next s

  -- The state in which a turn sends.
  abbrev pub ready : List (Command ui) → Loop ui lora → Loop ui lora
  ready cmds s = settle ui lora (commanded pr c ui lora cmds s)

  -- The beacon's time after a turn that runs.
  pub tick-next :
      (cmds : List (Command ui)) (s : Loop ui lora)
      → (apply_all ui cmds s.vm).running ≡ true
      → let r = ready cmds s in
        next_beacon (tick pr c ui lora cmds s) ≡ (
          if leb r.next_beacon_at r.produced
          then wrap64 (r.produced + beacon_interval)
          else r.next_beacon_at)
  tick-next cmds s runs =
      ap next_beacon (tick-runs pr c ui lora cmds s runs)
      ∙ ap (λ t. t.0) (listened-due_times pr c ui lora (send_phases pr c ui lora (ready cmds s)))
      ∙ send_phases-next (ready cmds s)

  pub tick-paused :
      (cmds : List (Command ui)) (s : Loop ui lora)
      → (apply_all ui cmds s.vm).running ≡ false
      → next_beacon (tick pr c ui lora cmds s) ≡ s.next_beacon_at
  unfolding tick
  tick-paused cmds s paused = ap next_beacon (if_false _ paused)
