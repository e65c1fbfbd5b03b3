-- ===== src/View/Layouts.antt =====
-- The widgets that the narrow layout writes out again do what the desktop's do.
use meshtastic_lora_rs.Common.{◌≡◌, refl, ap, ◌∙◌, Bool, true, false, not, if◌then◌else◌}
use meshtastic_lora_rs.Model.{Ui}
use meshtastic_lora_rs.View.{Gui, Responses}
use meshtastic_lora_rs.View.Settings.{
  App, ui_mode_selector, ui_preset_selector, ui_region_selector, ui_sf_slider, ui_tx_gain,
  ui_rx_gain_or_noise, ui_auto_tx, ui_driver_selector, ui_uhd_settings,
}
use meshtastic_lora_rs.View.Layout.{desktop_radio}
use meshtastic_lora_rs.View.Mobile.{
  mobile_sf, mobile_tx_gain, mobile_noise_or_rx_gain, mobile_auto_tx, mobile_uhd, mobile_grid,
}

-- A test the other way round.
if-not : {A : Type 0} (b : Bool) (x y : A) → (if b then x else y) ≡ (if not b then y else x)
if-not true x y = refl
if-not false x y = refl

module _ (ui : Ui) (gui : Gui ui) where
  mobile_uhd_lem :
      (r : Responses ui gui) (v : App ui gui) → mobile_uhd ui gui r v ≡ ui_uhd_settings ui gui r v
  unfolding mobile_uhd ui_uhd_settings
  mobile_uhd_lem r v = if-not v.use_uhd _ v

  mobile_radio_lem :
      (r : Responses ui gui) (v : App ui gui)
      → mobile_auto_tx ui gui r (
          mobile_noise_or_rx_gain ui gui r (
            mobile_tx_gain ui gui r (
              mobile_sf ui gui r (
                ui_preset_selector ui gui r
                  (ui_region_selector ui gui r (ui_mode_selector ui gui r v))))))
        ≡ desktop_radio ui gui r v
  unfolding desktop_radio mobile_auto_tx ui_auto_tx mobile_noise_or_rx_gain ui_rx_gain_or_noise
      mobile_tx_gain ui_tx_gain mobile_sf ui_sf_slider
  mobile_radio_lem r v = refl

  -- The grid of the settings drawer, with its own copies of the sliders, the check box and the text
  -- fields, does to any state, on any responses, what the desktop's panel does from the mode to the
  -- interval and then in the driver's part: it leaves the same state and sends the same commands in
  -- the same order.
  pub mobile_grid_lem :
      (r : Responses ui gui) (v : App ui gui)
      → mobile_grid ui gui r v
        ≡ ui_uhd_settings ui gui r (ui_driver_selector ui gui r (desktop_radio ui gui r v))
  unfolding mobile_grid
  mobile_grid_lem r v =
      mobile_uhd_lem r _
      ∙ ap (λ w. ui_uhd_settings ui gui r (ui_driver_selector ui gui r w)) (mobile_radio_lem r v)
