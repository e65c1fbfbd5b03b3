-- ===== src/View/Settings.antt =====
-- The settings of the graphical interface: what each widget's response does to the state.
use meshtastic_lora_rs.Common.{
  ℕ, ◌+◌, Bool, true, false, not, ◌&&◌, List, [], ◌∷◌, none, if◌then◌else◌,
}
use meshtastic_lora_rs.Presets.{ModemPreset, Region, presets, regions, channel_freq}
use meshtastic_lora_rs.Model.{
  Ui, SimMode, terminal, listen, ViewModel, default_sf, default_interval_ms, set_sf, set_signal_db,
  set_noise_db, set_interval_ms, set_mode, set_node_short, set_node_long, set_uhd_enabled,
  set_uhd_args, set_uhd_freq_hz, set_uhd_rx_gain_db, set_uhd_tx_gain_db, set_auto_tx, set_running,
  reset_stats,
}
use meshtastic_lora_rs.View.{
  Gui, Responses, MeshSimApp, on_change, send, preset_at, region_at, default_preset_idx,
  default_region_idx, default_signal_db, default_noise_db,
}

abbrev pub is_listen : SimMode → Bool
is_listen terminal = false
is_listen listen = true

module _ (ui : Ui) (gui : Gui ui) where
  abbrev pub App : Type 0
  App = MeshSimApp ui gui

  -- The frequency of a channel of that width in a region, which is sent as well.
  abbrev pub retune : Region → ModemPreset → App → App
  retune r p v =
      let mhz = ui.mhz_of_half_hz (channel_freq r p.bw_hz) in
      send ui gui (set_uhd_freq_hz (ui.times_1e6 mhz)) (record v { uhd_freq_mhz = mhz })

  unfoldable pub apply_preset : ModemPreset → App → App
  apply_preset p v =
      retune (region_at v.region_idx) p (send ui gui (set_sf p.sf) (record v { sf = p.sf }))

  unfoldable pub apply_region : Region → App → App
  apply_region r v = retune r (preset_at v.preset_idx) v

  unfoldable pub restore_defaults : App → App
  restore_defaults v = send ui gui (set_auto_tx true) (
      send ui gui (set_interval_ms default_interval_ms) (
        send ui gui (set_noise_db (default_noise_db ui gui)) (
          send ui gui (set_signal_db (default_signal_db ui gui)) (
            send ui gui (set_sf default_sf) (record v {
              preset_idx = default_preset_idx;
              region_idx = default_region_idx;
              sf = default_sf;
              signal_db = default_signal_db ui gui;
              noise_db = default_noise_db ui gui;
              interval_ms = default_interval_ms;
              auto_tx = true;
            })))))

  abbrev pub snr_db : App → ui.F32
  snr_db v = gui.sub32 v.signal_db v.noise_db

  abbrev pub switch_mode : SimMode → App → App
  switch_mode m v = send ui gui (set_mode m) (record v { mode = m })

  unfoldable pub ui_mode_selector : Responses ui gui → App → App
  ui_mode_selector r v =
      let v₁ : App = if r.terminal_clicked && is_listen v.mode then switch_mode terminal v else v in
      if r.listen_clicked && not (is_listen v₁.mode) then switch_mode listen v₁ else v₁

  -- The presets from index `i` on.
  unfoldable pub pick_presets : (ℕ → Bool) → ℕ → List ModemPreset → App → App
  unfolding apply_preset
  pick_presets clicked i [] v = v
  pick_presets clicked i (p ∷ ps) v =
      pick_presets clicked (i + 1) ps
        (if clicked i then apply_preset p (record v { preset_idx = i }) else v)

  unfoldable pub ui_preset_selector : Responses ui gui → App → App
  unfolding pick_presets
  ui_preset_selector r v = pick_presets r.preset_clicked 0 presets v

  unfoldable pub pick_regions : (ℕ → Bool) → ℕ → List Region → App → App
  unfolding apply_region
  pick_regions clicked i [] v = v
  pick_regions clicked i (g ∷ gs) v =
      pick_regions clicked (i + 1) gs
        (if clicked i then apply_region g (record v { region_idx = i }) else v)

  unfoldable pub ui_region_selector : Responses ui gui → App → App
  unfolding pick_regions
  ui_region_selector r v = pick_regions r.region_clicked 0 regions v

  unfoldable pub ui_sf_slider : Responses ui gui → App → App
  ui_sf_slider r v = on_change r.sf_changed (λ n. send ui gui (set_sf n) (record v { sf = n })) v

  unfoldable pub ui_tx_gain : Responses ui gui → App → App
  ui_tx_gain r v =
      if not v.use_uhd
      then on_change r.signal_changed
          (λ x. send ui gui (set_signal_db x) (record v { signal_db = x })) v
      else on_change r.tx_gain_changed
          (λ x. send ui gui (set_uhd_tx_gain_db x) (record v { uhd_tx_gain_db = x })) v

  unfoldable pub ui_rx_gain_or_noise : Responses ui gui → App → App
  ui_rx_gain_or_noise r v =
      if not v.use_uhd
      then on_change r.noise_changed (λ x. send ui gui (set_noise_db x) (record v { noise_db = x }))
          v
      else on_change r.rx_gain_changed
          (λ x. send ui gui (set_uhd_rx_gain_db x) (record v { uhd_rx_gain_db = x })) v

  -- The slider is enabled while the box is checked.
  unfoldable pub ui_auto_tx : Responses ui gui → App → App
  ui_auto_tx r v =
      let v₁ : App =
        on_change r.auto_tx_changed (λ on. send ui gui (set_auto_tx on) (record v { auto_tx = on }))
          v in
      if v₁.auto_tx
      then on_change r.interval_changed
          (λ n. send ui gui (set_interval_ms n) (record v₁ { interval_ms = n })) v₁
      else v₁

  unfoldable pub ui_playback_and_defaults : ViewModel ui → Responses ui gui → App → App
  unfolding restore_defaults
  ui_playback_and_defaults shared r v =
      let v₁ : App =
        if r.pause_clicked then send ui gui (set_running (not shared.running)) v else v in
      if r.defaults_clicked then restore_defaults v₁ else v₁

  unfoldable pub ui_driver_selector : Responses ui gui → App → App
  ui_driver_selector r v =
      let v₁ : App =
        if r.sim_clicked && v.use_uhd
        then send ui gui (set_uhd_enabled false) (record v { use_uhd = false })
        else v in
      if r.uhd_clicked && not v₁.use_uhd
      then send ui gui (set_uhd_enabled true) (record v₁ { use_uhd = true; uhd_warning = none })
      else v₁

  unfoldable pub ui_uhd_settings : Responses ui gui → App → App
  ui_uhd_settings r v =
      let v₁ : App = record v { uhd_args = r.args_typed } in
      let v₂ : App = if r.args_lost_focus then send ui gui (set_uhd_args r.args_typed) v₁ else v₁ in
      if not v.use_uhd
      then v
      else on_change r.freq_changed
          (λ x. send ui gui (set_uhd_freq_hz (ui.times_1e6 x)) (record v₂ { uhd_freq_mhz = x })) v₂

  unfoldable pub ui_nodes_info : Responses ui gui → App → App
  ui_nodes_info r v =
      let v₁ : App = record v { node_short = r.short_typed } in
      let v₂ : App =
        if r.short_lost_focus then send ui gui (set_node_short r.short_typed) v₁ else v₁ in
      let v₃ : App = record v₂ { node_long = r.long_typed } in
      if r.long_lost_focus then send ui gui (set_node_long r.long_typed) v₃ else v₃

  -- The button below the counters.
  unfoldable pub ui_stats : Responses ui gui → App → App
  ui_stats r v = if r.reset_clicked then send ui gui reset_stats v else v
