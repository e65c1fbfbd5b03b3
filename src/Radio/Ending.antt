-- ===== src/Radio/Ending.antt =====
-- The decoding loop ends, and the receive buffer stays bounded.
use meshtastic_lora_rs.Common.{
  ℕ, zero, suc, ◌-◌, ◌/◌, ◌≤◌, ◌<◌, ◌≡◌, refl, ap, ◌∙◌, Bool, true, false, List, Option, none, some,
  length, drop, length-drop, arith, Bool-cases, inl, inr, ltb, if_true, if_false,
}
use meshtastic_lora_rs.Common.Result.{ok, err}
use meshtastic_lora_rs.Mac.Packet.{MeshFrame}
use meshtastic_lora_rs.Mac.Crypto.{Cipher}
use meshtastic_lora_rs.Proto.{Proto}
use meshtastic_lora_rs.App.{Outcome, MeshMessage, process_rx_frame}
use meshtastic_lora_rs.Model.{Ui}
use meshtastic_lora_rs.Radio.{
  Lora, Loop, max_rx_buf, StreamDecodeResult, decode_ok, crc_fail, decode_failed, no_frame,
  push_log, push_log_full, transmit,
}
use meshtastic_lora_rs.Radio.Spectrum.{bounded, take_samples}
use meshtastic_lora_rs.Radio.Send.{tx_allowed}
use meshtastic_lora_rs.Radio.Decode.{
  relay_frame, log_message, handle_outcome, handle_frame, handle_result, decode_loop, is_over,
  off_hz,
}

-- The samples that a result takes from the buffer.
abbrev pub consumed_of : {ui : Ui} → StreamDecodeResult ui → ℕ
consumed_of (decode_ok payload consumed bins) = consumed
consumed_of (crc_fail payload_len cr has_crc consumed bins) = consumed
consumed_of (decode_failed consumed) = consumed
consumed_of no_frame = 0

-- Every result other than `no_frame` consumes something, and no more than there is.
pub record IsConsuming (pr : Proto) (c : Cipher) (ui : Ui) (lora : Lora ui) : Type 0 where
  pub consumes :
      (modem : lora.Rx) (buffer : List lora.Sample)
      → is_over pr c ui lora (lora.decode_streaming modem buffer).0 ≡ false
      → (0 < consumed_of (lora.decode_streaming modem buffer).0)
        × (consumed_of (lora.decode_streaming modem buffer).0 ≤ length buffer)

module _ (pr : Proto) (c : Cipher) (ui : Ui) (lora : Lora ui) where
  length-bounded : (buffer : List lora.Sample) → length (bounded ui lora buffer) ≤ max_rx_buf
  length-bounded buffer = elim (Bool-cases (ltb max_rx_buf (length buffer))) [
    | inl long ↦ rw long (omega (arith, length-drop (length buffer - max_rx_buf / 2) buffer))
    | inr short ↦ rw short (ground arith)
  ]

  -- Whatever the driver delivers, the buffer that the decoder is given has at most four million
  -- samples.
  pub take_samples-bounded :
      (s : Loop ui lora) → length (take_samples ui lora s).rx_buffer ≤ max_rx_buf
  unfolding take_samples
  take_samples-bounded s = search length-bounded

  relay_frame-buffer :
      (f : Option MeshFrame) (s : Loop ui lora)
      → (relay_frame pr c ui lora f s).rx_buffer ≡ s.rx_buffer
  unfolding relay_frame push_log push_log_full transmit
  relay_frame-buffer none s = refl
  relay_frame-buffer (some f) s = elim (Bool-cases (tx_allowed s.vm.mode)) [
    | inl on ↦ rw on refl
    | inr off ↦ rw off refl
  ]

  log_message-buffer :
      (hz : ui.F64) (msg : MeshMessage pr.Data) (s : Loop ui lora)
      → (log_message pr c ui lora hz msg s).rx_buffer ≡ s.rx_buffer
  unfolding log_message push_log_full
  log_message-buffer hz msg s = elim (Bool-cases msg.self_origin) [
    | inl own ↦ rw own refl
    | inr other ↦ rw other refl
  ]

  handle_outcome-buffer :
      (hz : ui.F64) (o : Outcome pr c) (s : Loop ui lora)
      → (handle_outcome pr c ui lora hz o s).rx_buffer ≡ s.rx_buffer
  unfolding handle_outcome push_log push_log_full
  handle_outcome-buffer hz (ok (some msg, f)) s =
      relay_frame-buffer f (log_message pr c ui lora hz msg s) ∙ log_message-buffer hz msg s
  handle_outcome-buffer hz (ok (none, f)) s = relay_frame-buffer f s
  handle_outcome-buffer hz (err e) s = refl

  handle_result-buffer :
      (r : StreamDecodeResult ui) (s : Loop ui lora)
      → (handle_result pr c ui lora r s).rx_buffer ≡ drop (consumed_of r) s.rx_buffer
  unfolding handle_result handle_frame push_log push_log_full
  handle_result-buffer (decode_ok payload consumed bins) s =
      let (outcome, node) = process_rx_frame pr c s.node payload in
      let taken : Loop ui lora = record s { rx_buffer = drop consumed s.rx_buffer; node = node } in
      handle_outcome-buffer (off_hz pr c ui lora s.cur_sf bins) outcome taken
  handle_result-buffer (crc_fail payload_len cr has_crc consumed bins) s = refl
  handle_result-buffer (decode_failed consumed) s = refl
  handle_result-buffer no_frame s = refl

  -- Where every result of the modem consumes a part of the buffer, the decoding loop comes to its end
  -- within one turn more than the buffer has samples: the fuel that a turn gives it is enough.
  pub decode_loop-ends :
      IsConsuming pr c ui lora
      → (fuel : ℕ) (s : Loop ui lora) → length s.rx_buffer < fuel
      → (decode_loop pr c ui lora fuel s).0 ≡ true
  unfolding decode_loop
  decode_loop-ends takes zero s h = absurd (omega arith)
  decode_loop-ends takes (suc fuel) s h =
      let (r, modem) = lora.decode_streaming s.rx_modem s.rx_buffer in
      let s' : Loop ui lora = record s { rx_modem = modem } in
      elim (Bool-cases (is_over pr c ui lora r)) [
        | inl over ↦ ap (λ (p : Bool × Loop ui lora). p.0) (if_true _ over)
        | inr more ↦
            let (some_, all_) = takes.consumes s.rx_modem s.rx_buffer more in
            let left : length (handle_result pr c ui lora r s').rx_buffer
                ≡ length s.rx_buffer - consumed_of r =
              ap length (handle_result-buffer r s') ∙ length-drop (consumed_of r) s.rx_buffer in
            ap (λ (p : Bool × Loop ui lora). p.0) (if_false _ more)
            ∙ decode_loop-ends takes fuel (handle_result pr c ui lora r s') (omega arith)
      ]
