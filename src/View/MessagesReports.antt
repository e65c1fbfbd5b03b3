-- ===== src/View/MessagesReports.antt =====
-- The switches, the text fields and the messages report what they change.
use meshtastic_lora_rs.Common.{
  ℕ, ◌+◌, refl, Bool, true, false, not, ◌&&◌, ◌||◌, List, [], ◌∷◌, Option, none, some,
  if◌then◌else◌,
}
use meshtastic_lora_rs.Common.Result.{Str}
use meshtastic_lora_rs.Mac.Packet.{broadcast}
use meshtastic_lora_rs.Model.{
  Ui, ViewModel, set_tx_dest, send_text, set_interval_ms, set_node_short, set_node_long,
  set_uhd_enabled, set_uhd_args, set_uhd_freq_hz, set_auto_tx, set_running, reset_stats,
}
use meshtastic_lora_rs.View.{Gui, Responses, on_change, send}
use meshtastic_lora_rs.View.Settings.{
  App, restore_defaults, ui_auto_tx, ui_playback_and_defaults, ui_driver_selector, ui_uhd_settings,
  ui_nodes_info, ui_stats,
}
use meshtastic_lora_rs.View.Messages.{
  is_empty, entry_dest, typed_dest, write_to, write_to_if, pick_neighbours, ui_dest,
  ui_dest_and_input,
}
use meshtastic_lora_rs.View.Reports.{
  Reports, Reports-trans, Reports-same, Reports-one, if-Reports, on_change-Reports,
}
use meshtastic_lora_rs.View.SettingsReports.{Reports-refl, restore_defaults-Reports}

module _ (ui : Ui) (gui : Gui ui) where
  -- What a click does.
  pub sends-Reports :
      (b : Bool) (v w : App ui gui) → Reports ui gui v w → Reports ui gui v (if b then w else v)
  sends-Reports b v w h = if-Reports ui gui b v w v h (Reports-refl ui gui v)

  -- Two clicks, one after the other.
  pub then-Reports :
      (b : Bool) (v v₁ w : App ui gui)
      → Reports ui gui v v₁
      → Reports ui gui v₁ w
      → Reports ui gui v (if b then w else v₁)
  then-Reports b v v₁ w p q = if-Reports ui gui b v w v₁ (Reports-trans ui gui v v₁ w p q) p

  pub ui_auto_tx-Reports :
      (r : Responses ui gui) (v : App ui gui) → Reports ui gui v (ui_auto_tx ui gui r v)
  unfolding ui_auto_tx
  ui_auto_tx-Reports r v =
      let checked : Bool → App ui gui =
        λ on. send ui gui (set_auto_tx on) (record v { auto_tx = on }) in
      let v₁ : App ui gui = on_change r.auto_tx_changed checked v in
      let slid : ℕ → App ui gui =
        λ n. send ui gui (set_interval_ms n) (record v₁ { interval_ms = n }) in
      then-Reports v₁.auto_tx v v₁ (on_change r.interval_changed slid v₁)
        (on_change-Reports ui gui r.auto_tx_changed checked v v
          (λ on. Reports-one ui gui v (checked on) (set_auto_tx on) refl refl refl)
          (Reports-refl ui gui v))
        (on_change-Reports ui gui r.interval_changed slid v₁ v₁
          (λ n. Reports-one ui gui v₁ (slid n) (set_interval_ms n) refl refl refl)
          (Reports-refl ui gui v₁))

  pub ui_playback_and_defaults-Reports :
      (shared : ViewModel ui) (r : Responses ui gui) (v : App ui gui)
      → Reports ui gui v (ui_playback_and_defaults ui gui shared r v)
  unfolding ui_playback_and_defaults
  ui_playback_and_defaults-Reports shared r v =
      let w : App ui gui = send ui gui (set_running (not shared.running)) v in
      let v₁ : App ui gui = if r.pause_clicked then w else v in
      then-Reports r.defaults_clicked v v₁ (restore_defaults ui gui v₁)
        (sends-Reports r.pause_clicked v w
          (Reports-one ui gui v w (set_running (not shared.running)) refl refl refl))
        (restore_defaults-Reports ui gui v₁)

  pub ui_driver_selector-Reports :
      (r : Responses ui gui) (v : App ui gui) → Reports ui gui v (ui_driver_selector ui gui r v)
  unfolding ui_driver_selector
  ui_driver_selector-Reports r v =
      let w : App ui gui = send ui gui (set_uhd_enabled false) (record v { use_uhd = false }) in
      let v₁ : App ui gui = if r.sim_clicked && v.use_uhd then w else v in
      let w₁ : App ui gui =
        send ui gui (set_uhd_enabled true) (record v₁ { use_uhd = true; uhd_warning = none }) in
      then-Reports (r.uhd_clicked && not v₁.use_uhd) v v₁ w₁
        (sends-Reports (r.sim_clicked && v.use_uhd) v w
          (Reports-one ui gui v w (set_uhd_enabled false) refl refl refl))
        (Reports-one ui gui v₁ w₁ (set_uhd_enabled true) refl refl refl)

  pub ui_uhd_settings-Reports :
      (r : Responses ui gui) (v : App ui gui) → Reports ui gui v (ui_uhd_settings ui gui r v)
  unfolding ui_uhd_settings
  ui_uhd_settings-Reports r v =
      let v₁ : App ui gui = record v { uhd_args = r.args_typed } in
      let w : App ui gui = send ui gui (set_uhd_args r.args_typed) v₁ in
      let v₂ : App ui gui = if r.args_lost_focus then w else v₁ in
      let dragged : ui.F64 → App ui gui =
        λ x. send ui gui (set_uhd_freq_hz (ui.times_1e6 x)) (record v₂ { uhd_freq_mhz = x }) in
      let fine : Reports ui gui v v₂ =
        then-Reports r.args_lost_focus v v₁ w (Reports-same ui gui v v₁ refl refl refl)
          (Reports-one ui gui v₁ w (set_uhd_args r.args_typed) refl refl refl) in
      if-Reports ui gui (not v.use_uhd) v v (on_change r.freq_changed dragged v₂)
        (Reports-refl ui gui v)
        (Reports-trans ui gui v v₂ (on_change r.freq_changed dragged v₂) fine (
          on_change-Reports ui gui r.freq_changed dragged v₂ v₂
            (λ x.
              Reports-one ui gui v₂ (dragged x) (set_uhd_freq_hz (ui.times_1e6 x)) refl refl refl)
            (Reports-refl ui gui v₂)))

  pub ui_nodes_info-Reports :
      (r : Responses ui gui) (v : App ui gui) → Reports ui gui v (ui_nodes_info ui gui r v)
  unfolding ui_nodes_info
  ui_nodes_info-Reports r v =
      let v₁ : App ui gui = record v { node_short = r.short_typed } in
      let w : App ui gui = send ui gui (set_node_short r.short_typed) v₁ in
      let v₂ : App ui gui = if r.short_lost_focus then w else v₁ in
      let v₃ : App ui gui = record v₂ { node_long = r.long_typed } in
      let w₁ : App ui gui = send ui gui (set_node_long r.long_typed) v₃ in
      let fine : Reports ui gui v v₂ =
        then-Reports r.short_lost_focus v v₁ w (Reports-same ui gui v v₁ refl refl refl)
          (Reports-one ui gui v₁ w (set_node_short r.short_typed) refl refl refl) in
      then-Reports r.long_lost_focus v v₃ w₁
        (Reports-trans ui gui v v₂ v₃ fine (Reports-same ui gui v₂ v₃ refl refl refl))
        (Reports-one ui gui v₃ w₁ (set_node_long r.long_typed) refl refl refl)

  pub ui_stats-Reports :
      (r : Responses ui gui) (v : App ui gui) → Reports ui gui v (ui_stats ui gui r v)
  unfolding ui_stats
  ui_stats-Reports r v =
      sends-Reports r.reset_clicked v (send ui gui reset_stats v)
        (Reports-one ui gui v (send ui gui reset_stats v) reset_stats refl refl refl)

  write_to-Reports : (id : ℕ) (v : App ui gui) → Reports ui gui v (write_to ui gui id v)
  write_to-Reports id v =
      Reports-one ui gui v (write_to ui gui id v) (set_tx_dest id) refl refl refl

  write_to_if-Reports : (o : Option ℕ) (v : App ui gui) → Reports ui gui v (write_to_if ui gui o v)
  write_to_if-Reports none v = Reports-refl ui gui v
  write_to_if-Reports (some id) v = write_to-Reports id v

  pick_neighbours-Reports :
      (clicked : ℕ → Bool) (i : ℕ) (entries : List Str) (v : App ui gui)
      → Reports ui gui v (pick_neighbours ui gui clicked i entries v)
  unfolding pick_neighbours
  pick_neighbours-Reports clicked i [] v = Reports-refl ui gui v
  pick_neighbours-Reports clicked i (entry ∷ entries) v =
      let w : App ui gui = write_to_if ui gui (entry_dest entry) v in
      let v₁ : App ui gui = if clicked i then w else v in
      Reports-trans ui gui v v₁ (pick_neighbours ui gui clicked (i + 1) entries v₁)
        (sends-Reports (clicked i) v w (write_to_if-Reports (entry_dest entry) v))
        (pick_neighbours-Reports clicked (i + 1) entries v₁)

  ui_dest-Reports :
      (shared : ViewModel ui) (r : Responses ui gui) (v : App ui gui)
      → Reports ui gui v (ui_dest ui gui shared r v)
  unfolding ui_dest
  ui_dest-Reports shared r v =
      let w : App ui gui = write_to ui gui broadcast v in
      let v₁ : App ui gui = if r.broadcast_clicked then w else v in
      let v₂ : App ui gui = pick_neighbours ui gui r.neighbour_clicked 0 shared.neighbours v₁ in
      let v₃ : App ui gui = record v₂ { tx_dest_input = r.dest_typed } in
      let w₁ : App ui gui = write_to_if ui gui (typed_dest r.dest_typed) v₃ in
      let w₂ : App ui gui = record w₁ { tx_dest_input = [] } in
      let fine : Reports ui gui v v₂ =
        Reports-trans ui gui v v₁ v₂
          (sends-Reports r.broadcast_clicked v w (write_to-Reports broadcast v))
          (pick_neighbours-Reports r.neighbour_clicked 0 shared.neighbours v₁) in
      then-Reports (r.dest_lost_focus && not (is_empty r.dest_typed)) v v₃ w₂
        (Reports-trans ui gui v v₂ v₃ fine (Reports-same ui gui v₂ v₃ refl refl refl))
        (Reports-trans ui gui v₃ w₁ w₂ (write_to_if-Reports (typed_dest r.dest_typed) v₃)
          (Reports-same ui gui w₁ w₂ refl refl refl))

  pub ui_dest_and_input-Reports :
      (shared : ViewModel ui) (r : Responses ui gui) (v : App ui gui)
      → Reports ui gui v (ui_dest_and_input ui gui shared r v)
  unfolding ui_dest_and_input
  ui_dest_and_input-Reports shared r v =
      let v₀ : App ui gui = ui_dest ui gui shared r v in
      let v₁ : App ui gui = record v₀ { msg_input = r.msg_typed } in
      let w : App ui gui = send ui gui (send_text r.msg_typed) (record v₁ { msg_input = [] }) in
      then-Reports
        ((r.send_clicked || (r.msg_lost_focus && r.enter_pressed)) && not (is_empty r.msg_typed)) v
        v₁ w
        (Reports-trans ui gui v v₀ v₁ (ui_dest-Reports shared r v)
          (Reports-same ui gui v₀ v₁ refl refl refl))
        (Reports-one ui gui v₁ w (send_text r.msg_typed) refl refl refl)
