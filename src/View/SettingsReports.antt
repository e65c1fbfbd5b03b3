-- ===== src/View/SettingsReports.antt =====
-- Every settings widget reports what it changes.
use mathlib.Core.List.{append_assoc}
use meshtastic_lora_rs.Common.{
  length, arith, ℕ, ◌+◌, ◌≡◌, refl, Bool, true, not, ◌&&◌, List, [], ◌∷◌, if◌then◌else◌,
}
use meshtastic_lora_rs.Presets.{ModemPreset, Region, presets, regions}
use meshtastic_lora_rs.Model.{
  Ui, terminal, listen, default_sf, default_interval_ms, set_sf, set_signal_db, set_noise_db,
  set_interval_ms, set_mode, set_uhd_freq_hz, set_uhd_rx_gain_db, set_uhd_tx_gain_db, set_auto_tx,
}
use meshtastic_lora_rs.View.{
  Gui, Responses, send, preset_at, region_at, default_signal_db, default_noise_db,
}
use meshtastic_lora_rs.View.Settings.{
  App, is_listen, switch_mode, apply_preset, apply_region, restore_defaults, retune,
  ui_mode_selector, pick_presets, ui_preset_selector, pick_regions, ui_region_selector,
  ui_sf_slider, ui_tx_gain, ui_rx_gain_or_noise,
}
use meshtastic_lora_rs.View.Reports.{
  Reports, IsInRange, Reports-pick, Reports-trans, Reports-same, Reports-one, if-Reports,
  on_change-Reports,
}

module _ (ui : Ui) (gui : Gui ui) where
  pub Reports-refl : (v : App ui gui) → Reports ui gui v v
  Reports-refl v = Reports-same ui gui v v refl refl refl

  apply_preset-Reports :
      (p : ModemPreset) (v v₁ : App ui gui)
      → Reports ui gui v v₁
      → Reports ui gui v (apply_preset ui gui p v₁)
  unfolding apply_preset
  apply_preset-Reports p v v₁ h =
      let v₂ : App ui gui = send ui gui (set_sf p.sf) (record v₁ { sf = p.sf }) in
      Reports-trans ui gui v v₂ (retune ui gui (region_at v₁.region_idx) p v₂)
        (Reports-trans ui gui v v₁ v₂ h (Reports-one ui gui v₁ v₂ (set_sf p.sf) refl refl refl))
        (Reports-one ui gui v₂ _ (set_uhd_freq_hz _) refl refl refl)

  apply_region-Reports :
      (g : Region) (v v₁ : App ui gui)
      → Reports ui gui v v₁
      → Reports ui gui v (apply_region ui gui g v₁)
  unfolding apply_region
  apply_region-Reports g v v₁ h =
      Reports-trans ui gui v v₁ (retune ui gui g (preset_at v₁.preset_idx) v₁) h
        (Reports-one ui gui v₁ _ (set_uhd_freq_hz _) refl refl refl)

  pub restore_defaults-Reports : (v : App ui gui) → Reports ui gui v (restore_defaults ui gui v)
  unfolding restore_defaults Reports
  restore_defaults-Reports v = (
    set_sf default_sf
        ∷ set_signal_db (default_signal_db ui gui)
        ∷ set_noise_db (default_noise_db ui gui)
        ∷ set_interval_ms default_interval_ms
        ∷ set_auto_tx true
        ∷ [],
    simp append_assoc,
    refl,
    λ h. unfold IsInRange in (omega arith, omega arith),
  )

  pub ui_mode_selector-Reports :
      (r : Responses ui gui) (v : App ui gui) → Reports ui gui v (ui_mode_selector ui gui r v)
  unfolding ui_mode_selector
  ui_mode_selector-Reports r v =
      let w : App ui gui = switch_mode ui gui terminal v in
      let c = r.terminal_clicked && is_listen v.mode in
      let v₁ : App ui gui = if c then w else v in
      let first : Reports ui gui v v₁ =
        if-Reports ui gui c v w v (Reports-one ui gui v w (set_mode terminal) refl refl refl)
          (Reports-refl v) in
      let w₁ : App ui gui = switch_mode ui gui listen v₁ in
      let second : Reports ui gui v₁ w₁ =
        Reports-one ui gui v₁ w₁ (set_mode listen) refl refl refl in
      if-Reports ui gui (r.listen_clicked && not (is_listen v₁.mode)) v w₁ v₁
        (Reports-trans ui gui v v₁ w₁ first second) first

  pick_presets-Reports :
      (clicked : ℕ → Bool) (i : ℕ) (ps : List ModemPreset) (v : App ui gui)
      → i + length ps ≡ length presets
      → Reports ui gui v (pick_presets ui gui clicked i ps v)
  unfolding pick_presets
  pick_presets-Reports clicked i [] v all = Reports-refl v
  pick_presets-Reports clicked i (p ∷ ps) v all =
      let w : App ui gui = record v { preset_idx = i } in
      let w₁ : App ui gui = apply_preset ui gui p w in
      let v₁ : App ui gui = if clicked i then w₁ else v in
      Reports-trans ui gui v v₁ (pick_presets ui gui clicked (i + 1) ps v₁)
        (if-Reports ui gui (clicked i) v w₁ v
          (apply_preset-Reports p v w (
            Reports-pick ui gui v w refl refl (λ h. unfold IsInRange in (omega (arith, all), h.1))))
          (Reports-refl v))
        (pick_presets-Reports clicked (i + 1) ps v₁ (omega (arith, all)))

  pick_regions-Reports :
      (clicked : ℕ → Bool) (i : ℕ) (gs : List Region) (v : App ui gui)
      → i + length gs ≡ length regions
      → Reports ui gui v (pick_regions ui gui clicked i gs v)
  unfolding pick_regions
  pick_regions-Reports clicked i [] v all = Reports-refl v
  pick_regions-Reports clicked i (g ∷ gs) v all =
      let w : App ui gui = record v { region_idx = i } in
      let w₁ : App ui gui = apply_region ui gui g w in
      let v₁ : App ui gui = if clicked i then w₁ else v in
      Reports-trans ui gui v v₁ (pick_regions ui gui clicked (i + 1) gs v₁)
        (if-Reports ui gui (clicked i) v w₁ v
          (apply_region-Reports g v w (
            Reports-pick ui gui v w refl refl (λ h. unfold IsInRange in (h.0, omega (arith, all)))))
          (Reports-refl v))
        (pick_regions-Reports clicked (i + 1) gs v₁ (omega (arith, all)))

  pub ui_preset_selector-Reports :
      (r : Responses ui gui) (v : App ui gui) → Reports ui gui v (ui_preset_selector ui gui r v)
  unfolding ui_preset_selector
  ui_preset_selector-Reports r v = pick_presets-Reports r.preset_clicked 0 presets v refl

  pub ui_region_selector-Reports :
      (r : Responses ui gui) (v : App ui gui) → Reports ui gui v (ui_region_selector ui gui r v)
  unfolding ui_region_selector
  ui_region_selector-Reports r v = pick_regions-Reports r.region_clicked 0 regions v refl

  pub ui_sf_slider-Reports :
      (r : Responses ui gui) (v : App ui gui) → Reports ui gui v (ui_sf_slider ui gui r v)
  unfolding ui_sf_slider
  ui_sf_slider-Reports r v =
      on_change-Reports ui gui r.sf_changed _ v v
        (λ n. Reports-one ui gui v _ (set_sf n) refl refl refl) (Reports-refl v)

  pub ui_tx_gain-Reports :
      (r : Responses ui gui) (v : App ui gui) → Reports ui gui v (ui_tx_gain ui gui r v)
  unfolding ui_tx_gain
  ui_tx_gain-Reports r v =
      if-Reports ui gui (not v.use_uhd) v _ _
        (on_change-Reports ui gui r.signal_changed _ v v
          (λ x. Reports-one ui gui v _ (set_signal_db x) refl refl refl) (Reports-refl v))
        (on_change-Reports ui gui r.tx_gain_changed _ v v
          (λ x. Reports-one ui gui v _ (set_uhd_tx_gain_db x) refl refl refl) (Reports-refl v))

  pub ui_rx_gain_or_noise-Reports :
      (r : Responses ui gui) (v : App ui gui) → Reports ui gui v (ui_rx_gain_or_noise ui gui r v)
  unfolding ui_rx_gain_or_noise
  ui_rx_gain_or_noise-Reports r v =
      if-Reports ui gui (not v.use_uhd) v _ _
        (on_change-Reports ui gui r.noise_changed _ v v
          (λ x. Reports-one ui gui v _ (set_noise_db x) refl refl refl) (Reports-refl v))
        (on_change-Reports ui gui r.rx_gain_changed _ v v
          (λ x. Reports-one ui gui v _ (set_uhd_rx_gain_db x) refl refl refl) (Reports-refl v))
