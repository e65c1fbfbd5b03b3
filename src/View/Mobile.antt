-- ===== src/View/Mobile.antt =====
-- `update_mobile`: the layout of a narrow screen, which repeats some widgets of the desktop's.
use meshtastic_lora_rs.Common.{false, not, if◌then◌else◌}
use meshtastic_lora_rs.Model.{
  Ui, ViewModel, set_sf, set_signal_db, set_noise_db, set_interval_ms, set_uhd_args,
  set_uhd_freq_hz, set_uhd_rx_gain_db, set_uhd_tx_gain_db, set_auto_tx, set_running, reset_stats,
}
use meshtastic_lora_rs.View.{Gui, Responses, on_change, send}
use meshtastic_lora_rs.View.Settings.{
  App, ui_mode_selector, ui_region_selector, ui_preset_selector, ui_driver_selector,
  restore_defaults,
}
use meshtastic_lora_rs.View.Messages.{ui_dest_and_input}
use meshtastic_lora_rs.View.Layout.{show_charts}

module _ (ui : Ui) (gui : Gui ui) where
  unfoldable pub mobile_toolbar : ViewModel ui → Responses ui gui → App ui gui → App ui gui
  mobile_toolbar shared r v =
      let v₁ = if r.pause_clicked then send ui gui (set_running (not shared.running)) v else v in
      let v₂ = if r.menu_clicked then record v₁ { menu_open = not v₁.menu_open } else v₁ in
      if r.drawer_clicked then record v₂ { msg_drawer_open = not v₂.msg_drawer_open } else v₂

  unfoldable pub mobile_sf : Responses ui gui → App ui gui → App ui gui
  mobile_sf r v = on_change r.sf_changed (λ n. send ui gui (set_sf n) (record v { sf = n })) v

  unfoldable pub mobile_tx_gain : Responses ui gui → App ui gui → App ui gui
  mobile_tx_gain r v =
      if not v.use_uhd
      then on_change r.signal_changed
          (λ x. send ui gui (set_signal_db x) (record v { signal_db = x })) v
      else on_change r.tx_gain_changed
          (λ x. send ui gui (set_uhd_tx_gain_db x) (record v { uhd_tx_gain_db = x })) v

  unfoldable pub mobile_noise_or_rx_gain : Responses ui gui → App ui gui → App ui gui
  mobile_noise_or_rx_gain r v =
      if not v.use_uhd
      then on_change r.noise_changed (λ x. send ui gui (set_noise_db x) (record v { noise_db = x }))
          v
      else on_change r.rx_gain_changed
          (λ x. send ui gui (set_uhd_rx_gain_db x) (record v { uhd_rx_gain_db = x })) v

  -- The interval has a row of its own while the box is checked.
  unfoldable pub mobile_auto_tx : Responses ui gui → App ui gui → App ui gui
  mobile_auto_tx r v =
      let v₁ : App ui gui =
        on_change r.auto_tx_changed (λ on. send ui gui (set_auto_tx on) (record v { auto_tx = on }))
          v in
      if v₁.auto_tx
      then on_change r.interval_changed
          (λ n. send ui gui (set_interval_ms n) (record v₁ { interval_ms = n })) v₁
      else v₁

  unfoldable pub mobile_uhd : Responses ui gui → App ui gui → App ui gui
  mobile_uhd r v =
      let v₁ : App ui gui = record v { uhd_args = r.args_typed } in
      let v₂ : App ui gui =
        if r.args_lost_focus then send ui gui (set_uhd_args r.args_typed) v₁ else v₁ in
      let v₃ : App ui gui =
        on_change r.freq_changed
          (λ x. send ui gui (set_uhd_freq_hz (ui.times_1e6 x)) (record v₂ { uhd_freq_mhz = x }))
          v₂ in
      if v.use_uhd then v₃ else v

  -- The grid of the settings drawer, and the row of buttons below it.
  unfoldable pub mobile_grid : Responses ui gui → App ui gui → App ui gui
  unfolding ui_mode_selector ui_region_selector ui_preset_selector mobile_sf mobile_tx_gain
      mobile_noise_or_rx_gain mobile_auto_tx ui_driver_selector mobile_uhd
  mobile_grid r v = mobile_uhd r (
      ui_driver_selector ui gui r (
        mobile_auto_tx r (
          mobile_noise_or_rx_gain r (
            mobile_tx_gain r (
              mobile_sf r (
                ui_preset_selector ui gui r
                  (ui_region_selector ui gui r (ui_mode_selector ui gui r v))))))))

  unfoldable pub mobile_settings : Responses ui gui → App ui gui → App ui gui
  unfolding mobile_grid restore_defaults
  mobile_settings r v =
      let v₁ = mobile_grid r v in
      let v₂ = if r.defaults_clicked then restore_defaults ui gui v₁ else v₁ in
      if r.reset_clicked then send ui gui reset_stats v₂ else v₂

  unfoldable pub mobile_messages : ViewModel ui → Responses ui gui → App ui gui → App ui gui
  unfolding ui_dest_and_input
  mobile_messages shared r v =
      ui_dest_and_input ui gui shared r
        (if r.drawer_closed then record v { msg_drawer_open = false } else v)

  unfoldable pub update_mobile : ViewModel ui → Responses ui gui → App ui gui → App ui gui
  unfolding mobile_toolbar mobile_settings mobile_messages
  update_mobile shared r v =
      let v₁ = mobile_toolbar shared r v in
      let v₂ = if v₁.menu_open then mobile_settings r v₁ else v₁ in
      let v₃ = if v₂.msg_drawer_open then mobile_messages shared r v₂ else v₂ in
      show_charts ui gui r v₃
