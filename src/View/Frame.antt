-- ===== src/View/Frame.antt =====
-- `update`: a frame of the graphical interface.
use meshtastic_lora_rs.Common.{Bool, true, false, not, none, if◌then◌else◌}
use meshtastic_lora_rs.Model.{Ui, ViewModel, fft_size}
use meshtastic_lora_rs.View.{Gui, Responses, preset_at}
use meshtastic_lora_rs.View.Qr.{qr_texture}
use meshtastic_lora_rs.View.Settings.{App}
use meshtastic_lora_rs.View.Layout.{update_desktop}
use meshtastic_lora_rs.View.Mobile.{update_mobile}

-- `!=` of two flags.
abbrev pub differs : Bool → Bool → Bool
differs true b = not b
differs false b = b

module _ (ui : Ui) (gui : Gui ui) where
  -- The toggle follows the shared state; a warning is taken out of it.
  unfoldable pub mirror_uhd : ViewModel ui → App ui gui → App ui gui × ViewModel ui
  mirror_uhd shared v =
      let followed : App ui gui = record v { use_uhd = shared.use_uhd } in
      let warned : App ui gui × ViewModel ui = (
        record followed { uhd_warning = shared.uhd_warning },
        record shared { uhd_warning = none },
      ) in
      if differs v.use_uhd shared.use_uhd
      then (if shared.use_uhd then (followed, shared) else warned)
      else (v, shared)

  unfoldable pub qr_window : Responses ui gui → App ui gui → App ui gui
  unfolding qr_texture
  qr_window r v =
      let drawn = (qr_texture ui gui v).1 in
      if v.show_qr then record drawn { show_qr = r.qr_stays_open } else v

  unfoldable pub x_axis : App ui gui → App ui gui
  x_axis v =
      let center_hz = ui.times_1e6 v.uhd_freq_mhz in
      let bw_hz = ui.f64_of_ℕ (preset_at v.preset_idx).bw_hz in
      let in_mhz : gui.Chart → gui.Chart =
        λ chart. gui.set_x_freq_display chart center_hz bw_hz fft_size in
      if v.use_uhd
      then record v {
        spectrum_chart = in_mhz v.spectrum_chart;
        waterfall_chart = in_mhz v.waterfall_chart;
      }
      else record v {
        spectrum_chart = gui.clear_x_freq_display v.spectrum_chart;
        waterfall_chart = gui.clear_x_freq_display v.waterfall_chart;
      }

  -- Whichever chart moved hands its range to the other.
  unfoldable pub sync_x : App ui gui → App ui gui
  sync_x v =
      let sx = gui.last_x_bounds v.spectrum_chart in
      let wx = gui.last_x_bounds v.waterfall_chart in
      if gui.ne_bounds sx v.last_synced_x
      then record v { waterfall_chart = gui.sync_x_bounds v.waterfall_chart sx; last_synced_x = sx }
      else if gui.ne_bounds wx v.last_synced_x
      then record v { spectrum_chart = gui.sync_x_bounds v.spectrum_chart wx; last_synced_x = wx }
      else v

  -- A frame; it may change the shared state.
  unfoldable pub update : ViewModel ui → Responses ui gui → App ui gui → App ui gui × ViewModel ui
  unfolding mirror_uhd qr_window x_axis update_mobile update_desktop sync_x
  update shared r v =
      let (followed, shared') = mirror_uhd shared v in
      let ready = x_axis (qr_window r followed) in
      let handled =
        if r.is_mobile
        then update_mobile ui gui shared' r ready
        else update_desktop ui gui shared' r ready in
      (sync_x handled, shared')
