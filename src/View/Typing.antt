-- ===== src/View/Typing.antt =====
-- From the input field to the air: what becomes of a text that a user types.
use meshtastic_lora_rs.Common.{
  ℕ, ◌≤◌, ◌<◌, ◌≡◌, refl, sym, ap, subst, ◌∙◌, true, false, ◌&&◌, ◌||◌, List, [], ◌∷◌, ◌++◌, length,
  if_true, if_false, Bool-cases, inl, inr,
}
use meshtastic_lora_rs.Common.Result.{Str}
use meshtastic_lora_rs.Mac.Packet.{max_payload}
use meshtastic_lora_rs.Mac.Crypto.{Cipher}
use meshtastic_lora_rs.Proto.{Proto}
use meshtastic_lora_rs.Model.{Ui, ViewModel, Command, terminal, send_text}
use meshtastic_lora_rs.Radio.{Lora}
use meshtastic_lora_rs.Radio.Tick.{settle, send_phases}
use meshtastic_lora_rs.Radio.Turns.{commanded}
use meshtastic_lora_rs.Radio.Typed.{on_air}
use meshtastic_lora_rs.View.Synced.{Desk, frame, turn, step}
use meshtastic_lora_rs.View.{Gui, Responses}
use meshtastic_lora_rs.View.Settings.{App}
use meshtastic_lora_rs.View.Messages.{is_empty, ui_dest, ui_dest_and_input}
use meshtastic_lora_rs.View.Layout.{update_desktop, show_charts, desktop_settings}
use meshtastic_lora_rs.View.Frame.{update, sync_x, differs, mirror_uhd, x_axis, qr_window}
use meshtastic_lora_rs.Radio.Plan.{frames_of}
use meshtastic_lora_rs.Radio.Outgoing.{GoesOut, listened, turn-GoesOut}

module _ (ui : Ui) (gui : Gui ui) where
  -- The text in the input field is to be sent.
  abbrev pub Submits : Responses ui gui → Str → Type 0
  Submits r text =
      (r.msg_typed ≡ text)
      × ((r.send_clicked || (r.msg_lost_focus && r.enter_pressed)) ≡ true)
      × (is_empty text ≡ false)

  ui_dest_and_input-sends :
      (shared : ViewModel ui) (r : Responses ui gui) (v : App ui gui) (text : Str)
      → Submits r text
      → (ui_dest_and_input ui gui shared r v).cmd_tx
        ≡ (ui_dest ui gui shared r v).cmd_tx ++ (send_text text ∷ [])
  unfolding ui_dest_and_input
  ui_dest_and_input-sends shared r v text (typed, now, full) = rw (typed, now, full) refl

  abbrev commands : App ui gui → List (Command ui)
  commands v = v.cmd_tx

  sync_x-cmd_tx : (v : App ui gui) → (sync_x ui gui v).cmd_tx ≡ v.cmd_tx
  unfolding sync_x
  sync_x-cmd_tx v =
      elim (Bool-cases (gui.ne_bounds (gui.last_x_bounds v.spectrum_chart) v.last_synced_x)) [
        | inl left ↦ ap commands (if_true _ left)
        | inr same ↦
            ap commands (if_false _ same)
            ∙ (elim (Bool-cases
                (gui.ne_bounds (gui.last_x_bounds v.waterfall_chart) v.last_synced_x)) [
                  | inl right ↦ ap commands (if_true _ right)
                  | inr still ↦ ap commands (if_false _ still)
                ])
      ]

  -- A frame of the desktop's layout sends the text last.
  update-sends :
      (shared : ViewModel ui) (r : Responses ui gui) (v : App ui gui) (text : Str)
      → r.is_mobile ≡ false
      → Submits r text
      → (cmds : List (Command ui)) × ((update ui gui shared r v).0.cmd_tx
          ≡ cmds ++ (send_text text ∷ []))
  unfolding update update_desktop
  update-sends shared r v text wide submits =
      let (followed, shared') = mirror_uhd ui gui shared v in
      let ready = x_axis ui gui (qr_window ui gui r followed) in
      let settings = show_charts ui gui r (desktop_settings ui gui shared' r ready) in
      (
        (ui_dest ui gui shared' r settings).cmd_tx,
        sync_x-cmd_tx _
            ∙ ap commands (if_false _ wide)
            ∙ ui_dest_and_input-sends shared' r settings text submits,
      )

module _ (ui : Ui) (gui : Gui ui) where
  update-count :
      (shared : ViewModel ui) (r : Responses ui gui) (v : App ui gui)
      → (update ui gui shared r v).1.tx_count ≡ shared.tx_count
  unfolding update mirror_uhd
  update-count shared r v = elim (Bool-cases (differs v.use_uhd shared.use_uhd)) [
    | inr same ↦ ap count (if_false _ same)
    | inl other ↦ ap count (if_true _ other) ∙ (elim (Bool-cases shared.use_uhd) [
      | inl used ↦ ap count (if_true _ used)
      | inr unused ↦ ap count (if_false _ unused)
    ])
  ]
    where
      count : App ui gui × ViewModel ui → ℕ
      count p = p.1.tx_count

module _ (pr : Proto) (c : Cipher) (ui : Ui) (gui : Gui ui) (lora : Lora ui) where
  -- If a user of the desktop's layout submits a text that fits, the radio runs and is in Terminal mode
  -- once the commands of that frame have arrived, and the counter is a u64, then the next turn makes a
  -- frame of the text, under an id that it draws, from the node that it settles on and for the chosen destination,
  -- and hands it to the driver among the turn's frames, before it samples the channel.
  pub typed-GoesOut :
      (desk : Desk pr c ui gui lora) (r : Responses ui gui) (text : Str)
      → desk.1.vm.tx_count < 18_446_744_073_709_551_616
      → r.is_mobile ≡ false
      → Submits ui gui r text
      → length (pr.encode_data (pr.new_data pr.text_message_app text)) ≤ max_payload
      → let (v, s) = step pr c ui gui lora (frame r) desk in
        let begun = commanded pr c ui lora v.cmd_tx s in
        begun.vm.running ≡ true
        → begun.vm.mode ≡ terminal
        → let ready = settle ui lora begun in
          let frames = frames_of pr c ui lora ready in
          GoesOut pr c ui lora ready.node begun.vm.tx_dest text frames
          × ((send_phases pr c ui lora ready).driver
              ≡ on_air pr c ui lora ready.tx_modem ready.driver frames)
          × ((step pr c ui gui lora turn (v, s)).1
              ≡ listened pr c ui lora (send_phases pr c ui lora ready))
  unfolding step
  typed-GoesOut (v, s) r text small wide submits fits runs on =
      let (earlier, sent) = update-sends ui gui s.vm r v text wide submits in
      let (v', vm) = update ui gui s.vm r v in
      turn-GoesOut pr c ui lora v'.cmd_tx earlier (record s { vm = vm }) text
        (subst (λ n. n < 18_446_744_073_709_551_616) (sym (update-count ui gui s.vm r v)) small)
        sent fits runs on
