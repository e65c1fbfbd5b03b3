-- ===== src/Radio/Decode.antt =====
-- The receiving phase of a turn: the frames that the modem finds in the buffer.
use meshtastic_lora_rs.Common.{
  ℕ, zero, suc, ◌+◌, ◌^◌, Bool, true, false, List, [], ◌++◌, drop, length, Option, none, some,
  if◌then◌else◌,
}
use meshtastic_lora_rs.Common.Text.{decimal}
use meshtastic_lora_rs.Common.Result.{ok, err, Str, codes}
use meshtastic_lora_rs.Mac.Packet.{MeshFrame, to_bytes}
use meshtastic_lora_rs.Mac.Crypto.{Cipher}
use meshtastic_lora_rs.Proto.{Proto, text}
use meshtastic_lora_rs.App.{MeshMessage, Outcome, process_rx_frame, error_text}
use meshtastic_lora_rs.Model.{Ui, rx, fwd, error}
use meshtastic_lora_rs.Radio.{
  Lora, Loop, StreamDecodeResult, decode_ok, crc_fail, decode_failed, no_frame, wrap64, bw_hz,
  f64_int, push_log, push_log_full, transmit,
}
use meshtastic_lora_rs.Radio.Send.{tx_allowed}

module _ (pr : Proto) (c : Cipher) (ui : Ui) (lora : Lora ui) where
  open pr use {Data}
  open ui use {F64}

  abbrev pub off_hz : ℕ → F64 → F64
  off_hz sf bins = lora.div64 (lora.mul64 bins (bw_hz ui lora)) (ui.f64_of_ℕ (2 ^ sf))

  abbrev pub off_text : F64 → Str
  off_text hz = codes " [" ++ lora.signed_text hz ++ codes "Hz]"

  abbrev pub label : Data → Str
  label d = elim (text pr d) [
    | some t ↦ codes "\"" ++ t ++ codes "\""
    | none ↦
        codes "portnum="
        ++ decimal (pr.portnum d)
        ++ codes " len="
        ++ decimal (length (pr.payload d))
  ]

  unfoldable pub relay_frame : Option MeshFrame → Loop ui lora → Loop ui lora
  unfolding transmit push_log
  relay_frame none s = s
  relay_frame (some frame) s =
      let relayed = push_log ui lora fwd (codes "relay") (transmit ui lora (to_bytes frame) s) in
      if tx_allowed s.vm.mode then relayed else s

  unfoldable pub log_message : F64 → MeshMessage Data → Loop ui lora → Loop ui lora
  unfolding push_log_full
  log_message hz msg s =
      let counted : Loop ui lora =
        if msg.self_origin
        then s
        else record s { vm = record s.vm { rx_count = wrap64 (s.vm.rx_count + 1) } } in
      let off = if lora.gt64 (lora.abs64 hz) (f64_int ui lora 10) then off_text hz else [] in
      push_log_full ui lora rx (label msg.content ++ off) (some msg.from) (some msg.hop_limit)
        msg.self_origin counted

  -- What the node made of a frame.
  unfoldable pub handle_outcome : F64 → Outcome pr c → Loop ui lora → Loop ui lora
  unfolding relay_frame log_message push_log
  handle_outcome hz (ok (some msg, fwd_frame)) s = relay_frame fwd_frame (log_message hz msg s)
  handle_outcome hz (ok (none, fwd_frame)) s = relay_frame fwd_frame s
  handle_outcome hz (err e) s = push_log ui lora error (error_text pr c e) s

  unfoldable pub handle_frame : F64 → List ℕ → Loop ui lora → Loop ui lora
  unfolding handle_outcome
  handle_frame hz payload s =
      let (outcome, node) = process_rx_frame pr c s.node payload in
      handle_outcome hz outcome (record s { node = node })

  abbrev consume : ℕ → Loop ui lora → Loop ui lora
  consume n s = record s { rx_buffer = drop n s.rx_buffer }

  -- A result of the modem other than `no_frame`.
  unfoldable pub handle_result : StreamDecodeResult ui → Loop ui lora → Loop ui lora
  unfolding handle_frame push_log
  handle_result (decode_ok payload consumed bins) s =
      handle_frame (off_hz s.cur_sf bins) payload (consume consumed s)
  handle_result (crc_fail payload_len cr has_crc consumed bins) s =
      push_log ui lora error
        (codes "CRC fail (hdr: len="
          ++ decimal payload_len
          ++ codes " cr=4/"
          ++ decimal (cr + 4)
          ++ codes " crc="
          ++ (if has_crc then codes "yes" else codes "no")
          ++ codes ")"
          ++ off_text (off_hz s.cur_sf bins))
        (consume consumed s)
  handle_result (decode_failed consumed) s =
      push_log ui lora error (codes "decode failed (header)") (consume consumed s)
  handle_result no_frame s = s

  abbrev pub is_over : StreamDecodeResult ui → Bool
  is_over no_frame = true
  is_over _ = false

  -- The decoding loop, of at most `fuel` turns; whether it came to `no_frame` comes first.
  unfoldable pub decode_loop : ℕ → Loop ui lora → Bool × Loop ui lora
  unfolding handle_result
  decode_loop zero s = (false, s)
  decode_loop (suc fuel) s =
      let (result, modem) = lora.decode_streaming s.rx_modem s.rx_buffer in
      let s' : Loop ui lora = record s { rx_modem = modem } in
      let rest = decode_loop fuel (handle_result result s') in
      if is_over result then (true, s') else rest
