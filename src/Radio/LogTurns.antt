-- ===== src/Radio/LogTurns.antt =====
-- The log stays bounded while frames are received, so it does over whole turns.
use meshtastic_lora_rs.Common.{
  ℕ, zero, suc, ◌+◌, ◌≤◌, sym, subst, Bool, false, List, [], ◌∷◌, Option, none, some, length, drop,
  arith, if◌then◌else◌, Bool-cases, inl, inr, if_true, if_false,
}
use meshtastic_lora_rs.Common.Result.{ok, err}
use meshtastic_lora_rs.Mac.Packet.{MeshFrame, to_bytes}
use meshtastic_lora_rs.Mac.Crypto.{Cipher}
use meshtastic_lora_rs.Proto.{Proto}
use meshtastic_lora_rs.App.{Outcome, MeshMessage, process_rx_frame}
use meshtastic_lora_rs.Model.{
  Ui, ViewModel, Command, apply, apply_all, fwd, set_sf, set_signal_db, set_noise_db,
  set_interval_ms, set_mode, set_node_short, set_node_long, set_tx_dest, set_uhd_args,
  set_uhd_freq_hz, set_uhd_rx_gain_db, set_uhd_tx_gain_db, set_auto_tx, set_running,
  set_uhd_enabled, send_text, reset_stats,
}
use meshtastic_lora_rs.Common.Result.{codes}
use meshtastic_lora_rs.Radio.{
  Lora, Loop, StreamDecodeResult, decode_ok, crc_fail, decode_failed, no_frame, push_log, transmit,
  max_log, wrap64,
}
use meshtastic_lora_rs.Radio.Send.{tx_allowed}
use meshtastic_lora_rs.Radio.Spectrum.{take_samples}
use meshtastic_lora_rs.Radio.Decode.{
  relay_frame, log_message, handle_outcome, handle_frame, handle_result, decode_loop, is_over,
  off_hz,
}
use meshtastic_lora_rs.Radio.Tick.{settle, send_phases, tick, ticks}
use meshtastic_lora_rs.Radio.Receiving.{take_samples-view}
use meshtastic_lora_rs.Radio.LogBound.{
  IsBounded, if-IsBounded, push_log_full-IsBounded, settle-IsBounded, send_phases-IsBounded,
}

module _ (ui : Ui) where
  apply-log :
      (cmd : Command ui) (vm : ViewModel ui)
      → length vm.log ≤ max_log
      → length (apply ui cmd vm).log ≤ max_log
  unfolding apply
  apply-log (set_sf n) vm h = h
  apply-log (set_signal_db v) vm h = h
  apply-log (set_noise_db v) vm h = h
  apply-log (set_interval_ms v) vm h = h
  apply-log (set_mode m) vm h = h
  apply-log (set_node_short s) vm h = h
  apply-log (set_node_long s) vm h = h
  apply-log (set_tx_dest i) vm h = h
  apply-log (set_uhd_enabled on) vm h = h
  apply-log (set_uhd_args s) vm h = h
  apply-log (set_uhd_freq_hz hz) vm h = h
  apply-log (set_uhd_rx_gain_db v) vm h = h
  apply-log (set_uhd_tx_gain_db v) vm h = h
  apply-log (set_auto_tx on) vm h = h
  apply-log (set_running on) vm h = h
  apply-log (send_text s) vm h = h
  apply-log reset_stats vm h = omega arith

  apply_all-log :
      (cmds : List (Command ui)) (vm : ViewModel ui)
      → length vm.log ≤ max_log
      → length (apply_all ui cmds vm).log ≤ max_log
  unfolding apply_all
  apply_all-log [] vm h = h
  apply_all-log (cmd ∷ cmds) vm h = apply_all-log cmds (apply ui cmd vm) (apply-log cmd vm h)

module _ (pr : Proto) (c : Cipher) (ui : Ui) (lora : Lora ui) where
  relay_frame-IsBounded :
      (f : Option MeshFrame) (s : Loop ui lora)
      → IsBounded ui lora s
      → IsBounded ui lora (relay_frame pr c ui lora f s)
  unfolding relay_frame push_log transmit
  relay_frame-IsBounded none s h = h
  relay_frame-IsBounded (some f) s h =
      let pushed = transmit ui lora (to_bytes f) s in
      if-IsBounded ui lora (tx_allowed s.vm.mode) (push_log ui lora fwd (codes "relay") pushed) s
        (push_log_full-IsBounded ui lora fwd (codes "relay") none none false pushed
          (unfold IsBounded in h))
        h

  log_message-IsBounded :
      (hz : ui.F64) (msg : MeshMessage pr.Data) (s : Loop ui lora)
      → IsBounded ui lora s
      → IsBounded ui lora (log_message pr c ui lora hz msg s)
  unfolding log_message
  log_message-IsBounded hz msg s h =
      let more : Loop ui lora = record s {
        vm = record s.vm { rx_count = wrap64 (s.vm.rx_count + 1) };
      } in
      let counted : Loop ui lora = if msg.self_origin then s else more in
      let fine : IsBounded ui lora counted =
        if-IsBounded ui lora msg.self_origin s more h (unfold IsBounded in h) in
      push_log_full-IsBounded ui lora _ _ _ _ _ counted fine

  handle_outcome-IsBounded :
      (hz : ui.F64) (o : Outcome pr c) (s : Loop ui lora)
      → IsBounded ui lora s
      → IsBounded ui lora (handle_outcome pr c ui lora hz o s)
  unfolding handle_outcome push_log
  handle_outcome-IsBounded hz (ok (some msg, f)) s h =
      relay_frame-IsBounded f (log_message pr c ui lora hz msg s) (log_message-IsBounded hz msg s h)
  handle_outcome-IsBounded hz (ok (none, f)) s h = relay_frame-IsBounded f s h
  handle_outcome-IsBounded hz (err e) s h = push_log_full-IsBounded ui lora _ _ _ _ _ s h

  handle_result-IsBounded :
      (r : StreamDecodeResult ui) (s : Loop ui lora)
      → IsBounded ui lora s
      → IsBounded ui lora (handle_result pr c ui lora r s)
  unfolding handle_result handle_frame push_log
  handle_result-IsBounded (decode_ok payload consumed bins) s h =
      let (outcome, node) = process_rx_frame pr c s.node payload in
      let taken : Loop ui lora = record s { rx_buffer = drop consumed s.rx_buffer; node = node } in
      handle_outcome-IsBounded (off_hz pr c ui lora s.cur_sf bins) outcome taken
        (unfold IsBounded in h)
  handle_result-IsBounded (crc_fail payload_len cr has_crc consumed bins) s h =
      let taken : Loop ui lora = record s { rx_buffer = drop consumed s.rx_buffer } in
      push_log_full-IsBounded ui lora _ _ _ _ _ taken (unfold IsBounded in h)
  handle_result-IsBounded (decode_failed consumed) s h =
      let taken : Loop ui lora = record s { rx_buffer = drop consumed s.rx_buffer } in
      push_log_full-IsBounded ui lora _ _ _ _ _ taken (unfold IsBounded in h)
  handle_result-IsBounded no_frame s h = h

  decode_loop-IsBounded :
      (fuel : ℕ) (s : Loop ui lora)
      → IsBounded ui lora s
      → IsBounded ui lora (decode_loop pr c ui lora fuel s).1
  unfolding decode_loop
  decode_loop-IsBounded zero s h = h
  decode_loop-IsBounded (suc fuel) s h =
      let (r, modem) = lora.decode_streaming s.rx_modem s.rx_buffer in
      let s' : Loop ui lora = record s { rx_modem = modem } in
      let fine : IsBounded ui lora s' = unfold IsBounded in h in
      let Fine : Bool × Loop ui lora → Type 0 = λ p. IsBounded ui lora p.1 in
      elim (Bool-cases (is_over pr c ui lora r)) [
        | inl over ↦ subst Fine (sym (if_true _ over)) fine
        | inr more ↦ subst Fine (sym (if_false _ more)) (
            decode_loop-IsBounded fuel (handle_result pr c ui lora r s')
              (handle_result-IsBounded r s' fine))
      ]

  take_samples-IsBounded :
      (s : Loop ui lora) → IsBounded ui lora s → IsBounded ui lora (take_samples ui lora s)
  unfolding IsBounded
  take_samples-IsBounded s h =
      subst (λ log. length log ≤ max_log) (sym (take_samples-view ui lora s).2) h

  tick-IsBounded :
      (cmds : List (Command ui)) (s : Loop ui lora)
      → IsBounded ui lora s
      → IsBounded ui lora (tick pr c ui lora cmds s)
  unfolding tick
  tick-IsBounded cmds s h =
      let begun : Loop ui lora = record s { vm = apply_all ui cmds s.vm } in
      let fine : IsBounded ui lora begun = unfold IsBounded in apply_all-log ui cmds s.vm h in
      let ready = settle ui lora begun in
      let sent = send_phases pr c ui lora ready in
      let sampled = take_samples ui lora sent in
      let decoded = (decode_loop pr c ui lora (suc (length sampled.rx_buffer)) sampled).1 in
      if-IsBounded ui lora begun.vm.running decoded begun
        (decode_loop-IsBounded (suc (length sampled.rx_buffer)) sampled (
          take_samples-IsBounded sent
            (send_phases-IsBounded pr c ui lora ready (settle-IsBounded ui lora begun fine))))
        fine

  -- If the log has at most two hundred entries before a run of turns, it has at most two hundred after
  -- it, whatever commands come and whatever is sent, received or fails on the way.
  pub ticks-IsBounded :
      (turns : List (List (Command ui))) (s : Loop ui lora)
      → IsBounded ui lora s
      → IsBounded ui lora (ticks pr c ui lora turns s)
  unfolding ticks
  ticks-IsBounded [] s h = h
  ticks-IsBounded (cmds ∷ later) s h =
      ticks-IsBounded later (tick pr c ui lora cmds s) (tick-IsBounded cmds s h)
