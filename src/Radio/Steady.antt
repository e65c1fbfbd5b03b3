-- ===== src/Radio/Steady.antt =====
-- What the phases of a turn leave alone: the identity, the flag for a new node, and the node's own
-- names and id.
use meshtastic_lora_rs.Common.{
  ℕ, ◌≡◌, refl, ap, ◌∙◌, Bool, false, ◌&&◌, List, [], ◌∷◌, Option, none, some, Bool-cases, inl, inr,
  leb, ◌==◌, if_true, if_false,
}
use meshtastic_lora_rs.Common.Text.{bytes_eq}
use meshtastic_lora_rs.Common.Result.{Result, ok, err, Str}
use meshtastic_lora_rs.Mac.Packet.{MeshFrame}
use meshtastic_lora_rs.Mac.Crypto.{Cipher}
use meshtastic_lora_rs.Mesh.Node.{LocalNode}
use meshtastic_lora_rs.Proto.{Proto}
use meshtastic_lora_rs.App.{build_nodeinfo_frame}
use meshtastic_lora_rs.Model.{Ui, SimMode, LogEntry}
use meshtastic_lora_rs.Model.Commands.{identity}
use meshtastic_lora_rs.Model.Chosen.{Chosen, chosen}
use meshtastic_lora_rs.Radio.{Lora, Loop, push_log, push_log_full, transmit}
use meshtastic_lora_rs.Radio.Rebuild.{
  install, make_driver, open_new, reuse_or_open, use_device, leave_device, rebuild_driver,
  read_interval, set_levels, set_modems,
}
use meshtastic_lora_rs.Radio.Tick.{send_phases}
use meshtastic_lora_rs.Radio.Send.{
  send_built, send_nodeinfo, beacon, send_text, send_texts, manual_tx, auto_tx, tx_allowed,
}

module _ (ui : Ui) where
  -- The mode and what the node is built from, the flag, the node's own id and names, and the users' choices.
  abbrev pub View : Type 0
  View = (SimMode × Str × Str × ℕ) × Bool × LocalNode × Chosen ui

module _ (ui : Ui) (lora : Lora ui) where
  abbrev pub view : Loop ui lora → View ui
  view s = (identity ui s.vm, s.vm.rebuild_nodes, s.node.local, chosen ui s.vm)

  -- The view, the log, the typed messages and the counters.
  abbrev pub calm : Loop ui lora → View ui × List LogEntry × List Str × ℕ × ℕ
  calm s = (view s, s.vm.log, s.vm.tx_queue, s.vm.tx_count, s.vm.rx_count)

  install-calm :
      (r : Result Str lora.Driver) (d : lora.Driver) (s : Loop ui lora)
      → calm (install ui lora r d s) ≡ calm s
  unfolding install
  install-calm (ok dev) d s = refl
  install-calm (err e) d s = refl

  pub make_driver-calm : (s : Loop ui lora) → calm (make_driver ui lora s) ≡ calm s
  unfolding make_driver
  make_driver-calm s = elim (Bool-cases s.vm.use_uhd) [
    | inl used ↦ ap calm (if_true _ used) ∙ search install-calm
    | inr unused ↦ ap calm (if_false _ unused)
  ]

  open_new-calm : (s : Loop ui lora) → calm (open_new ui lora s) ≡ calm s
  unfolding open_new
  open_new-calm s = search install-calm

  reuse_or_open-calm :
      (o : Option (lora.Driver × Str)) (s : Loop ui lora)
      → calm (reuse_or_open ui lora o s) ≡ calm s
  unfolding reuse_or_open
  reuse_or_open-calm none s = open_new-calm s
  reuse_or_open-calm (some (dev, args)) s = elim (Bool-cases (bytes_eq args s.vm.uhd_args)) [
    | inl same ↦ ap calm (if_true _ same)
    | inr new_ ↦ ap calm (if_false _ new_) ∙ open_new-calm s
  ]

  use_device-calm : (s : Loop ui lora) → calm (use_device ui lora s) ≡ calm s
  unfolding use_device
  use_device-calm s =
      elim (Bool-cases (lora.is_parkable s.driver && bytes_eq s.active_uhd_args s.vm.uhd_args)) [
        | inl same ↦ ap calm (if_true _ same)
        | inr new_ ↦ ap calm (if_false _ new_) ∙ reuse_or_open-calm s.parked_uhd s
      ]

  leave_device-calm : (s : Loop ui lora) → calm (leave_device ui lora s) ≡ calm s
  unfolding leave_device
  leave_device-calm s = elim (Bool-cases (lora.is_parkable s.driver)) [
    | inl parks ↦ ap calm (if_true _ parks)
    | inr stays ↦ ap calm (if_false _ stays) ∙ make_driver-calm s
  ]

  pub rebuild_driver-calm : (s : Loop ui lora) → calm (rebuild_driver ui lora s) ≡ calm s
  unfolding rebuild_driver
  rebuild_driver-calm s =
      let lowered : Loop ui lora = record s { vm = record s.vm { rebuild_driver = false } } in
      elim (Bool-cases s.vm.rebuild_driver) [
        | inr keep ↦ ap calm (if_false _ keep)
        | inl anew ↦ ap calm (if_true _ anew) ∙ elim (Bool-cases s.vm.use_uhd) [
          | inl used ↦ ap calm (if_true _ used) ∙ use_device-calm lowered
          | inr unused ↦ ap calm (if_false _ unused) ∙ leave_device-calm lowered
        ]
      ]

  pub read_interval-calm : (s : Loop ui lora) → calm (read_interval ui lora s) ≡ calm s
  unfolding read_interval
  read_interval-calm s = elim (Bool-cases (s.vm.interval_ms == s.prev_interval_ms)) [
    | inl same ↦ ap calm (if_true _ same)
    | inr new_ ↦ ap calm (if_false _ new_)
  ]

  pub set_modems-calm : (s : Loop ui lora) → calm (set_modems ui lora s) ≡ calm s
  unfolding set_modems
  set_modems-calm s = elim (Bool-cases (s.vm.sf == s.cur_sf)) [
    | inl same ↦ ap calm (if_true _ same)
    | inr new_ ↦ ap calm (if_false _ new_)
  ]

  pub settled-calm :
      (s : Loop ui lora)
      → calm (
          set_modems ui lora
            (set_levels ui lora (read_interval ui lora (rebuild_driver ui lora s))))
        ≡ calm s
  unfolding set_levels
  settled-calm s =
      set_modems-calm (set_levels ui lora (read_interval ui lora (rebuild_driver ui lora s)))
      ∙ read_interval-calm (rebuild_driver ui lora s)
      ∙ rebuild_driver-calm s

  send_built-view :
      (f : Option MeshFrame) (ready s : Loop ui lora)
      → view ready ≡ view s
      → view (send_built ui lora f ready s) ≡ view s
  unfolding send_built transmit
  send_built-view none ready s same = refl
  send_built-view (some f) ready s same = same

module _ (pr : Proto) (c : Cipher) (ui : Ui) (lora : Lora ui) where
  send_nodeinfo-view :
      (s : Loop ui lora) → view ui lora (send_nodeinfo pr c ui lora s) ≡ view ui lora s
  unfolding send_nodeinfo
  send_nodeinfo-view s =
      let (drawn, w) = lora.random_u32 s.world in
      send_built-view ui lora (build_nodeinfo_frame pr c s.node drawn) (record s { world = w }) s
        refl

  beacon-view : (s : Loop ui lora) → view ui lora (beacon pr c ui lora s) ≡ view ui lora s
  unfolding beacon
  beacon-view s = elim (Bool-cases (leb s.next_beacon_at s.produced)) [
    | inr later ↦ ap (view ui lora) (if_false _ later)
    | inl due ↦ ap (view ui lora) (if_true _ due) ∙ elim (Bool-cases (tx_allowed s.vm.mode)) [
      | inl on ↦ ap (view ui lora) (if_true _ on) ∙ search send_nodeinfo-view
      | inr off ↦ ap (view ui lora) (if_false _ off)
    ]
  ]

  send_text-view :
      (text : Str) (s : Loop ui lora)
      → view ui lora (send_text pr c ui lora text s) ≡ view ui lora s
  unfolding send_text push_log push_log_full
  send_text-view text s =
      let (drawn, w) = lora.random_u32 s.world in search (send_built-view ui lora)

  send_texts-view :
      (texts : List Str) (s : Loop ui lora)
      → view ui lora (send_texts pr c ui lora texts s) ≡ view ui lora s
  unfolding send_texts
  send_texts-view [] s = refl
  send_texts-view (text ∷ texts) s =
      send_texts-view texts (send_text pr c ui lora text s) ∙ send_text-view text s

  manual_tx-view : (s : Loop ui lora) → view ui lora (manual_tx pr c ui lora s) ≡ view ui lora s
  unfolding manual_tx
  manual_tx-view s = elim (Bool-cases (tx_allowed s.vm.mode)) [
    | inl on ↦ ap (view ui lora) (if_true _ on) ∙ search send_texts-view
    | inr off ↦ ap (view ui lora) (if_false _ off)
  ]

  auto_tx-view : (s : Loop ui lora) → view ui lora (auto_tx pr c ui lora s) ≡ view ui lora s
  unfolding auto_tx
  auto_tx-view s =
      elim (Bool-cases (tx_allowed s.vm.mode && s.vm.auto_tx && leb s.next_tx_at s.produced)) [
        | inl due ↦ ap (view ui lora) (if_true _ due) ∙ search send_text-view
        | inr later ↦ ap (view ui lora) (if_false _ later)
      ]

  pub send_phases-view :
      (s : Loop ui lora) → view ui lora (send_phases pr c ui lora s) ≡ view ui lora s
  unfolding send_phases
  send_phases-view s =
      auto_tx-view (manual_tx pr c ui lora (beacon pr c ui lora s))
      ∙ manual_tx-view (beacon pr c ui lora s)
      ∙ beacon-view s
