-- ===== src/Radio/Silence.antt =====
-- In Listen mode nothing is handed to the driver.
use meshtastic_lora_rs.Common.{
  ℕ, zero, suc, ◌≡◌, refl, ap, ◌∙◌, Bool, false, [], Option, some, none, leb, drop, Bool-cases, inl,
  inr, if_false, if_true,
}
use meshtastic_lora_rs.Common.Result.{ok, err}
use meshtastic_lora_rs.Mac.Packet.{MeshFrame}
use meshtastic_lora_rs.Mac.Crypto.{Cipher}
use meshtastic_lora_rs.Proto.{Proto}
use meshtastic_lora_rs.App.{MeshMessage, Outcome, process_rx_frame}
use meshtastic_lora_rs.Model.{Ui, SimMode, listen}
use meshtastic_lora_rs.Radio.{
  Lora, Loop, StreamDecodeResult, decode_ok, crc_fail, decode_failed, no_frame, push_log,
  push_log_full,
}
use meshtastic_lora_rs.Radio.Send.{tx_allowed, beacon, manual_tx, auto_tx}
use meshtastic_lora_rs.Radio.Decode.{
  relay_frame, log_message, handle_outcome, handle_frame, handle_result, decode_loop, is_over,
  off_hz,
}
use meshtastic_lora_rs.Radio.Tick.{send_phases}

module _ (pr : Proto) (c : Cipher) (ui : Ui) (lora : Lora ui) where
  -- The driver and the mode.
  abbrev heard : Loop ui lora → lora.Driver × SimMode
  heard s = (s.driver, s.vm.mode)

  off : (s : Loop ui lora) → s.vm.mode ≡ listen → tx_allowed s.vm.mode ≡ false
  off s m = rw m refl

  beacon_silent : (s : Loop ui lora) → s.vm.mode ≡ listen → heard (beacon pr c ui lora s) ≡ heard s
  unfolding beacon
  beacon_silent s m =
      let quiet = off s m in
      elim (Bool-cases (leb s.next_beacon_at s.produced)) [
        | inl due ↦ rw (due, quiet) refl
        | inr later ↦ rw (later, quiet) refl
      ]

  manual_tx_silent :
      (s : Loop ui lora)
      → s.vm.mode ≡ listen
      → (heard (manual_tx pr c ui lora s) ≡ heard s) × ((manual_tx pr c ui lora s).vm.tx_queue ≡ [])
  unfolding manual_tx
  manual_tx_silent s m = let quiet = off s m in rw quiet (refl, refl)

  auto_tx_silent : (s : Loop ui lora) → s.vm.mode ≡ listen → auto_tx pr c ui lora s ≡ s
  unfolding auto_tx
  auto_tx_silent s m = let quiet = off s m in rw quiet refl

  relay_frame_silent :
      (f : Option MeshFrame) (s : Loop ui lora)
      → s.vm.mode ≡ listen
      → heard (relay_frame pr c ui lora f s) ≡ heard s
  unfolding relay_frame push_log push_log_full
  relay_frame_silent none s m = refl
  relay_frame_silent (some f) s m = let quiet = off s m in rw quiet refl

  log_message-heard :
      (hz : ui.F64) (msg : MeshMessage pr.Data) (s : Loop ui lora)
      → heard (log_message pr c ui lora hz msg s) ≡ heard s
  unfolding log_message push_log_full
  log_message-heard hz msg s = elim (Bool-cases msg.self_origin) [
    | inl own ↦ rw own refl
    | inr other ↦ rw other refl
  ]

  handle_outcome_silent :
      (hz : ui.F64) (o : Outcome pr c) (s : Loop ui lora)
      → s.vm.mode ≡ listen
      → heard (handle_outcome pr c ui lora hz o s) ≡ heard s
  unfolding handle_outcome push_log push_log_full
  handle_outcome_silent hz (ok (some msg, f)) s m =
      relay_frame_silent f (log_message pr c ui lora hz msg s)
        (ap (λ h. h.1) (log_message-heard hz msg s) ∙ m)
      ∙ log_message-heard hz msg s
  handle_outcome_silent hz (ok (none, f)) s m = relay_frame_silent f s m
  handle_outcome_silent hz (err e) s m = refl

  handle_result_silent :
      (r : StreamDecodeResult ui) (s : Loop ui lora)
      → s.vm.mode ≡ listen
      → heard (handle_result pr c ui lora r s) ≡ heard s
  unfolding handle_result handle_frame push_log push_log_full
  handle_result_silent (decode_ok payload consumed bins) s m =
      let outcome = process_rx_frame pr c s.node payload in
      let consumed_ : Loop ui lora = record s {
        rx_buffer = drop consumed s.rx_buffer;
        node = outcome.1;
      } in
      handle_outcome_silent (off_hz pr c ui lora s.cur_sf bins) outcome.0 consumed_ m
  handle_result_silent (crc_fail payload_len cr has_crc consumed bins) s m = refl
  handle_result_silent (decode_failed consumed) s m = refl
  handle_result_silent no_frame s m = refl

  decode_loop_silent :
      (fuel : ℕ) (s : Loop ui lora)
      → s.vm.mode ≡ listen
      → heard (decode_loop pr c ui lora fuel s).1 ≡ heard s
  unfolding decode_loop
  decode_loop_silent zero s m = refl
  decode_loop_silent (suc fuel) s m =
      let (r, modem) = lora.decode_streaming s.rx_modem s.rx_buffer in
      let s' : Loop ui lora = record s { rx_modem = modem } in
      let here = handle_result_silent r s' m in
      let later =
        decode_loop_silent fuel (handle_result pr c ui lora r s') (ap (λ h. h.1) here ∙ m) in
      elim (Bool-cases (is_over pr c ui lora r)) [
        | inl over ↦ ap (λ (p : Bool × Loop ui lora). heard p.1) (if_true _ over)
        | inr more ↦ ap (λ (p : Bool × Loop ui lora). heard p.1) (if_false _ more) ∙ later ∙ here
      ]

  send_phases_silent :
      (s : Loop ui lora)
      → s.vm.mode ≡ listen
      → (heard (send_phases pr c ui lora s) ≡ heard s)
        × ((send_phases pr c ui lora s).vm.tx_queue ≡ [])
  unfolding send_phases
  send_phases_silent s m =
      let b = beacon pr c ui lora s in
      let mb : b.vm.mode ≡ listen = ap (λ h. h.1) (beacon_silent s m) ∙ m in
      let (kept, empty) = manual_tx_silent b mb in
      let t = manual_tx pr c ui lora b in
      let mt : t.vm.mode ≡ listen = ap (λ h. h.1) kept ∙ mb in
      let same = auto_tx_silent t mt in
      (
        ap heard same ∙ kept ∙ beacon_silent s m,
        ap (λ (u : Loop ui lora). u.vm.tx_queue) same ∙ empty,
      )

  -- In Listen mode the sending phases and the decoder, whatever it finds, hand nothing to the driver:
  -- it is the same after as before. What users have typed is thrown away.
  pub listen-silent :
      (fuel : ℕ) (s : Loop ui lora)
      → s.vm.mode ≡ listen
      → ((send_phases pr c ui lora s).driver ≡ s.driver)
        × ((send_phases pr c ui lora s).vm.tx_queue ≡ [])
        × ((decode_loop pr c ui lora fuel s).1.driver ≡ s.driver)
  listen-silent fuel s m =
      let (same, empty) = send_phases_silent s m in
      (ap (λ h. h.0) same, empty, ap (λ h. h.0) (decode_loop_silent fuel s m))
