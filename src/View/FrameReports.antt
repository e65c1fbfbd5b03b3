-- ===== src/View/FrameReports.antt =====
-- Both layouts and a whole frame report what they change.
use meshtastic_lora_rs.Common.{
  List, ℕ, ◌≡◌, refl, false, not, Option, none, some, if◌then◌else◌, Bool-cases, inl, inr, ap, ◌∙◌,
  sym, subst, if_true, if_false,
}
use meshtastic_lora_rs.Model.{Ui, ViewModel, Command, set_running, reset_stats}
use meshtastic_lora_rs.View.{Gui, Responses, send}
use meshtastic_lora_rs.View.Qr.{qr_texture, texture_or}
use meshtastic_lora_rs.View.Settings.{App, restore_defaults}
use meshtastic_lora_rs.View.Layout.{show_charts, desktop_radio, desktop_settings, update_desktop}
use meshtastic_lora_rs.View.Mobile.{
  mobile_toolbar, mobile_grid, mobile_settings, mobile_messages, update_mobile,
}
use meshtastic_lora_rs.Model.Chosen.{Chosen, chosen}
use meshtastic_lora_rs.View.Layouts.{mobile_grid_lem}
use meshtastic_lora_rs.View.Messages.{ui_dest_and_input}
use meshtastic_lora_rs.View.Frame.{mirror_uhd, qr_window, x_axis, sync_x, update, differs}
use meshtastic_lora_rs.View.Reports.{
  Reports, Reports-trans, Reports-same, Reports-quiet, quiet, Shown, Reports-one, if-Reports,
}
use meshtastic_lora_rs.View.SettingsReports.{
  restore_defaults-Reports, ui_mode_selector-Reports, ui_preset_selector-Reports,
  ui_region_selector-Reports, ui_sf_slider-Reports, ui_tx_gain-Reports, ui_rx_gain_or_noise-Reports,
}
use meshtastic_lora_rs.View.MessagesReports.{
  sends-Reports, then-Reports, ui_auto_tx-Reports, ui_playback_and_defaults-Reports,
  ui_driver_selector-Reports, ui_uhd_settings-Reports, ui_nodes_info-Reports, ui_stats-Reports,
  ui_dest_and_input-Reports,
}

module _ (ui : Ui) (gui : Gui ui) where
  -- One handler after another.
  chain :
      (f g : App ui gui → App ui gui)
      → ((v : App ui gui) → Reports ui gui v (f v))
      → ((v : App ui gui) → Reports ui gui v (g v))
      → (v : App ui gui) → Reports ui gui v (g (f v))
  chain f g p q v = Reports-trans ui gui v (f v) (g (f v)) (p v) (q (f v))

  desktop_radio-Reports :
      (r : Responses ui gui) (v : App ui gui) → Reports ui gui v (desktop_radio ui gui r v)
  unfolding desktop_radio
  desktop_radio-Reports r v =
      chain _ _ (ui_mode_selector-Reports ui gui r)
        (chain _ _ (ui_region_selector-Reports ui gui r) (
          chain _ _ (ui_preset_selector-Reports ui gui r) (
            chain _ _ (ui_sf_slider-Reports ui gui r) (
              chain _ _ (ui_tx_gain-Reports ui gui r)
                (chain _ _ (ui_rx_gain_or_noise-Reports ui gui r) (ui_auto_tx-Reports ui gui r))))))
        v

  desktop_settings-Reports :
      (shared : ViewModel ui) (r : Responses ui gui) (v : App ui gui)
      → Reports ui gui v (desktop_settings ui gui shared r v)
  unfolding desktop_settings
  desktop_settings-Reports shared r v =
      chain _ _
        (chain _ _ (desktop_radio-Reports r) (
          chain _ _ (ui_playback_and_defaults-Reports ui gui shared r) (
            chain _ _ (ui_driver_selector-Reports ui gui r) (
              chain _ _ (ui_uhd_settings-Reports ui gui r)
                (chain _ _ (ui_stats-Reports ui gui r) (ui_nodes_info-Reports ui gui r))))))
        (λ v₁.
          sends-Reports ui gui r.qr_clicked v₁ (record v₁ { show_qr = not v₁.show_qr })
            (Reports-same ui gui v₁ (record v₁ { show_qr = not v₁.show_qr }) refl refl refl))
        v

  show_charts-Reports :
      (r : Responses ui gui) (v : App ui gui) → Reports ui gui v (show_charts ui gui r v)
  show_charts-Reports r v = Reports-same ui gui v (show_charts ui gui r v) refl refl refl

  update_desktop-Reports :
      (shared : ViewModel ui) (r : Responses ui gui) (v : App ui gui)
      → Reports ui gui v (update_desktop ui gui shared r v)
  unfolding update_desktop
  update_desktop-Reports shared r v =
      chain _ _ (desktop_settings-Reports shared r)
        (chain _ _ (show_charts-Reports r) (ui_dest_and_input-Reports ui gui shared r)) v

  mobile_toolbar-Reports :
      (shared : ViewModel ui) (r : Responses ui gui) (v : App ui gui)
      → Reports ui gui v (mobile_toolbar ui gui shared r v)
  unfolding mobile_toolbar
  mobile_toolbar-Reports shared r v =
      let w : App ui gui = send ui gui (set_running (not shared.running)) v in
      let v₁ : App ui gui = if r.pause_clicked then w else v in
      let w₁ : App ui gui = record v₁ { menu_open = not v₁.menu_open } in
      let v₂ : App ui gui = if r.menu_clicked then w₁ else v₁ in
      let w₂ : App ui gui = record v₂ { msg_drawer_open = not v₂.msg_drawer_open } in
      then-Reports ui gui r.drawer_clicked v v₂ w₂
        (then-Reports ui gui r.menu_clicked v v₁ w₁
          (sends-Reports ui gui r.pause_clicked v w
            (Reports-one ui gui v w (set_running (not shared.running)) refl refl refl))
          (Reports-same ui gui v₁ w₁ refl refl refl))
        (Reports-same ui gui v₂ w₂ refl refl refl)

  mobile_grid-Reports :
      (r : Responses ui gui) (v : App ui gui) → Reports ui gui v (mobile_grid ui gui r v)
  mobile_grid-Reports r v = subst (Reports ui gui v) (sym (mobile_grid_lem ui gui r v)) (
      chain _ _ (desktop_radio-Reports r)
        (chain _ _ (ui_driver_selector-Reports ui gui r) (ui_uhd_settings-Reports ui gui r)) v)

  mobile_settings-Reports :
      (r : Responses ui gui) (v : App ui gui) → Reports ui gui v (mobile_settings ui gui r v)
  unfolding mobile_settings
  mobile_settings-Reports r v =
      let v₁ = mobile_grid ui gui r v in
      let v₂ = if r.defaults_clicked then restore_defaults ui gui v₁ else v₁ in
      then-Reports ui gui r.reset_clicked v v₂ (send ui gui reset_stats v₂)
        (then-Reports ui gui r.defaults_clicked v v₁ (restore_defaults ui gui v₁)
          (mobile_grid-Reports r v) (restore_defaults-Reports ui gui v₁))
        (Reports-one ui gui v₂ (send ui gui reset_stats v₂) reset_stats refl refl refl)

  mobile_messages-Reports :
      (shared : ViewModel ui) (r : Responses ui gui) (v : App ui gui)
      → Reports ui gui v (mobile_messages ui gui shared r v)
  unfolding mobile_messages
  mobile_messages-Reports shared r v =
      let w : App ui gui = record v { msg_drawer_open = false } in
      let v₁ : App ui gui = if r.drawer_closed then w else v in
      Reports-trans ui gui v v₁ (ui_dest_and_input ui gui shared r v₁)
        (sends-Reports ui gui r.drawer_closed v w (Reports-same ui gui v w refl refl refl))
        (ui_dest_and_input-Reports ui gui shared r v₁)

  update_mobile-Reports :
      (shared : ViewModel ui) (r : Responses ui gui) (v : App ui gui)
      → Reports ui gui v (update_mobile ui gui shared r v)
  unfolding update_mobile
  update_mobile-Reports shared r v =
      let v₁ = mobile_toolbar ui gui shared r v in
      let v₂ = if v₁.menu_open then mobile_settings ui gui r v₁ else v₁ in
      let v₃ = if v₂.msg_drawer_open then mobile_messages ui gui shared r v₂ else v₂ in
      Reports-trans ui gui v v₃ (show_charts ui gui r v₃)
        (then-Reports ui gui v₂.msg_drawer_open v v₂ (mobile_messages ui gui shared r v₂)
          (then-Reports ui gui v₁.menu_open v v₁ (mobile_settings ui gui r v₁)
            (mobile_toolbar-Reports shared r v) (mobile_settings-Reports r v₁))
          (mobile_messages-Reports shared r v₂))
        (show_charts-Reports r v₃)

  mirror_uhd-Reports :
      (shared : ViewModel ui) (v : App ui gui) → Reports ui gui v (mirror_uhd ui gui shared v).0
  unfolding mirror_uhd
  mirror_uhd-Reports shared v =
      let kept : App ui gui × ViewModel ui → List (Command ui) × Shown ui × (ℕ × ℕ) =
        λ p. quiet ui gui p.0 in
      Reports-quiet ui gui v (mirror_uhd ui gui shared v).0
        (elim (Bool-cases (differs v.use_uhd shared.use_uhd)) [
          | inr same ↦ ap kept (if_false _ same)
          | inl new_ ↦ ap kept (if_true _ new_) ∙ elim (Bool-cases shared.use_uhd) [
            | inl on ↦ ap kept (if_true _ on)
            | inr off ↦ ap kept (if_false _ off)
          ]
        ])

  -- The shared state keeps the users' choices.
  pub mirror_uhd-chosen :
      (shared : ViewModel ui) (v : App ui gui)
      → chosen ui (mirror_uhd ui gui shared v).1 ≡ chosen ui shared
  unfolding mirror_uhd
  mirror_uhd-chosen shared v =
      let choices : App ui gui × ViewModel ui → Chosen ui = λ p. chosen ui p.1 in
      elim (Bool-cases (differs v.use_uhd shared.use_uhd)) [
        | inr same ↦ ap choices (if_false _ same)
        | inl new_ ↦ ap choices (if_true _ new_) ∙ elim (Bool-cases shared.use_uhd) [
          | inl on ↦ ap choices (if_true _ on)
          | inr off ↦ ap choices (if_false _ off)
        ]
      ]

  texture_or-quiet :
      (o : Option gui.TextureHandle) (v : App ui gui)
      → quiet ui gui (texture_or ui gui o v).1 ≡ quiet ui gui v
  unfolding texture_or
  texture_or-quiet none v = refl
  texture_or-quiet (some tex) v = refl

  qr_window-Reports :
      (r : Responses ui gui) (v : App ui gui) → Reports ui gui v (qr_window ui gui r v)
  unfolding qr_window
  qr_window-Reports r v =
      let drawn = (qr_texture ui gui v).1 in
      let w : App ui gui = record drawn { show_qr = r.qr_stays_open } in
      sends-Reports ui gui v.show_qr v w (
        Reports-trans ui gui v drawn w
          (Reports-quiet ui gui v drawn (unfold qr_texture in texture_or-quiet v.qr_texture v))
          (Reports-same ui gui drawn w refl refl refl))

  x_axis-Reports : (v : App ui gui) → Reports ui gui v (x_axis ui gui v)
  unfolding x_axis
  x_axis-Reports v = Reports-quiet ui gui v (x_axis ui gui v) (elim (Bool-cases v.use_uhd) [
    | inl on ↦ ap (quiet ui gui) (if_true _ on)
    | inr off ↦ ap (quiet ui gui) (if_false _ off)
  ])

  sync_x-Reports : (v : App ui gui) → Reports ui gui v (sync_x ui gui v)
  unfolding sync_x
  sync_x-Reports v =
      let sx = gui.last_x_bounds v.spectrum_chart in
      let wx = gui.last_x_bounds v.waterfall_chart in
      Reports-quiet ui gui v (sync_x ui gui v)
        (elim (Bool-cases (gui.ne_bounds sx v.last_synced_x)) [
          | inl moved ↦ ap (quiet ui gui) (if_true _ moved)
          | inr still ↦
              ap (quiet ui gui) (if_false _ still)
              ∙ elim (Bool-cases (gui.ne_bounds wx v.last_synced_x)) [
                | inl moved ↦ ap (quiet ui gui) (if_true _ moved)
                | inr still' ↦ ap (quiet ui gui) (if_false _ still')
              ]
        ])

  -- A frame reports what it changes.
  pub update-Reports :
      (shared : ViewModel ui) (r : Responses ui gui) (v : App ui gui)
      → Reports ui gui v (update ui gui shared r v).0
  unfolding update
  update-Reports shared r v =
      let (followed, shared') = mirror_uhd ui gui shared v in
      let ready = x_axis ui gui (qr_window ui gui r followed) in
      let narrow = update_mobile ui gui shared' r ready in
      let wide = update_desktop ui gui shared' r ready in
      let handled : App ui gui = if r.is_mobile then narrow else wide in
      let begun : Reports ui gui v ready =
        Reports-trans ui gui v followed ready (mirror_uhd-Reports shared v)
          (chain _ _ (qr_window-Reports r) x_axis-Reports followed) in
      let done : Reports ui gui ready handled =
        if-Reports ui gui r.is_mobile ready narrow wide (update_mobile-Reports shared' r ready)
          (update_desktop-Reports shared' r ready) in
      Reports-trans ui gui v handled (sync_x ui gui handled)
        (Reports-trans ui gui v ready handled begun done) (sync_x-Reports handled)
