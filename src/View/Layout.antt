-- ===== src/View/Layout.antt =====
-- The two layouts and a frame of the graphical interface.
use meshtastic_lora_rs.Common.{not, if◌then◌else◌}
use meshtastic_lora_rs.Model.{Ui, ViewModel}
use meshtastic_lora_rs.View.{Gui, Responses}
use meshtastic_lora_rs.View.Settings.{
  App, ui_mode_selector, ui_region_selector, ui_preset_selector, ui_sf_slider, ui_tx_gain,
  ui_rx_gain_or_noise, ui_auto_tx, ui_playback_and_defaults, ui_driver_selector, ui_uhd_settings,
  ui_nodes_info, ui_stats,
}
use meshtastic_lora_rs.View.Messages.{ui_dest_and_input}

module _ (ui : Ui) (gui : Gui ui) where
  -- Both charts are shown, and take what the user does to them.
  abbrev pub show_charts : Responses ui gui → App ui gui → App ui gui
  show_charts r v = record v {
    spectrum_chart = gui.show v.spectrum_chart r.spectrum_gesture;
    waterfall_chart = gui.show v.waterfall_chart r.waterfall_gesture;
  }

  -- The radio's settings in the panel on the left.
  unfoldable pub desktop_radio : Responses ui gui → App ui gui → App ui gui
  unfolding ui_mode_selector ui_region_selector ui_preset_selector ui_sf_slider ui_tx_gain
      ui_rx_gain_or_noise ui_auto_tx
  desktop_radio r v = ui_auto_tx ui gui r (
      ui_rx_gain_or_noise ui gui r (
        ui_tx_gain ui gui r (
          ui_sf_slider ui gui r (
            ui_preset_selector ui gui r
              (ui_region_selector ui gui r (ui_mode_selector ui gui r v))))))

  -- The whole panel.
  unfoldable pub desktop_settings : ViewModel ui → Responses ui gui → App ui gui → App ui gui
  unfolding desktop_radio ui_playback_and_defaults ui_driver_selector ui_uhd_settings ui_nodes_info
      ui_stats
  desktop_settings shared r v =
      let v₁ = ui_nodes_info ui gui r (
        ui_stats ui gui r (
          ui_uhd_settings ui gui r (
            ui_driver_selector ui gui r
              (ui_playback_and_defaults ui gui shared r (desktop_radio r v))))) in
      if r.qr_clicked then record v₁ { show_qr = not v₁.show_qr } else v₁

  unfoldable pub update_desktop : ViewModel ui → Responses ui gui → App ui gui → App ui gui
  unfolding desktop_settings ui_dest_and_input
  update_desktop shared r v =
      ui_dest_and_input ui gui shared r (show_charts r (desktop_settings shared r v))
