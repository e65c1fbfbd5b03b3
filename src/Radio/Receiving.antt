-- ===== src/Radio/Receiving.antt =====
-- What sampling and decoding leave alone.
use meshtastic_lora_rs.Common.{
  ℕ, zero, suc, ◌+◌, ◌≡◌, refl, ap, ◌∙◌, Bool, List, [], ◌∷◌, Option, none, some, Bool-cases, inl,
  inr, leb, length, take, drop, if_true, if_false,
}
use meshtastic_lora_rs.Common.Result.{ok, err}
use meshtastic_lora_rs.Mac.Packet.{MeshFrame}
use meshtastic_lora_rs.Mac.Crypto.{Cipher}
use meshtastic_lora_rs.Mesh.Node.{LocalNode}
use meshtastic_lora_rs.Proto.{Proto}
use meshtastic_lora_rs.App.{Outcome, MeshMessage, process_rx_frame}
use meshtastic_lora_rs.App.State.{process-local}
use meshtastic_lora_rs.Model.{Ui, LogEntry, fft_size}
use meshtastic_lora_rs.Model.Commands.{identity}
use meshtastic_lora_rs.Model.Chosen.{chosen}
use meshtastic_lora_rs.Radio.{
  wrap64, Lora, Loop, StreamDecodeResult, decode_ok, crc_fail, decode_failed, no_frame, push_log,
  push_log_full, transmit, samples_per_tick,
}
use meshtastic_lora_rs.Radio.Send.{tx_allowed}
use meshtastic_lora_rs.Radio.Spectrum.{Spectrum, analyze, analyze_block, show_peak, take_samples}
use meshtastic_lora_rs.Radio.Decode.{
  relay_frame, log_message, handle_outcome, handle_frame, handle_result, decode_loop, is_over,
  off_hz,
}
use meshtastic_lora_rs.Radio.Steady.{View, view}

module _ (ui : Ui) (lora : Lora ui) where
  -- The view, the driver and the log.
  abbrev seen_by : Loop ui lora → View ui × lora.Driver × List LogEntry
  seen_by s = (view ui lora s, s.driver, s.vm.log)

  analyze-view :
      (fuel : ℕ) (mixed : List lora.Sample) (acc : Spectrum ui lora × Loop ui lora)
      → seen_by (analyze ui lora fuel mixed acc).1 ≡ seen_by acc.1
  unfolding analyze analyze_block
  analyze-view zero mixed acc = refl
  analyze-view (suc fuel) mixed acc =
      let pair : Spectrum ui lora × Loop ui lora → View ui × lora.Driver × List LogEntry =
        λ p. seen_by p.1 in
      elim (Bool-cases (leb fft_size (length mixed))) [
        | inl whole ↦
            ap pair (if_true _ whole)
            ∙ analyze-view fuel (drop fft_size mixed)
                (analyze_block ui lora (take fft_size mixed) acc)
        | inr part ↦ ap pair (if_false _ part)
      ]

  show_peak-view :
      (peak : Spectrum ui lora) (s : Loop ui lora) → seen_by (show_peak ui lora peak s) ≡ seen_by s
  show_peak-view [] s = refl
  show_peak-view (p ∷ peak) s = refl

  -- The samples of a turn come from one tick of the driver.
  pub take_samples-view :
      (s : Loop ui lora)
      → (view ui lora (take_samples ui lora s) ≡ view ui lora s)
        × ((take_samples ui lora s).driver
            ≡ (lora.driver_tick s.driver samples_per_tick s.world).0.1)
        × ((take_samples ui lora s).vm.log ≡ s.vm.log)
  unfolding take_samples
  take_samples-view s =
      let ((mixed, driver), w) = lora.driver_tick s.driver samples_per_tick s.world in
      let heard : Loop ui lora = record s {
        driver = driver;
        world = w;
        produced = wrap64 (s.produced + length mixed);
      } in
      let (peak, analyzed) = analyze ui lora (length mixed) mixed ([], heard) in
      let same : seen_by (show_peak ui lora peak analyzed) ≡ seen_by heard =
        show_peak-view peak analyzed ∙ analyze-view (length mixed) mixed ([], heard) in
      (ap (λ p. p.0) same, ap (λ p. p.1) same, ap (λ p. p.2) same)

module _ (pr : Proto) (c : Cipher) (ui : Ui) (lora : Lora ui) where
  relay_frame-view :
      (f : Option MeshFrame) (s : Loop ui lora)
      → view ui lora (relay_frame pr c ui lora f s) ≡ view ui lora s
  unfolding relay_frame push_log push_log_full transmit
  relay_frame-view none s = refl
  relay_frame-view (some f) s = elim (Bool-cases (tx_allowed s.vm.mode)) [
    | inl on ↦ ap (view ui lora) (if_true _ on)
    | inr off ↦ ap (view ui lora) (if_false _ off)
  ]

  log_message-view :
      (hz : ui.F64) (msg : MeshMessage pr.Data) (s : Loop ui lora)
      → view ui lora (log_message pr c ui lora hz msg s) ≡ view ui lora s
  unfolding log_message push_log_full
  log_message-view hz msg s = elim (Bool-cases msg.self_origin) [
    | inl own ↦ ap (view ui lora) (if_true _ own)
    | inr other ↦ ap (view ui lora) (if_false _ other)
  ]

  handle_outcome-view :
      (hz : ui.F64) (o : Outcome pr c) (s : Loop ui lora)
      → view ui lora (handle_outcome pr c ui lora hz o s) ≡ view ui lora s
  unfolding handle_outcome push_log push_log_full
  handle_outcome-view hz (ok (some msg, f)) s =
      relay_frame-view f (log_message pr c ui lora hz msg s) ∙ log_message-view hz msg s
  handle_outcome-view hz (ok (none, f)) s = relay_frame-view f s
  handle_outcome-view hz (err e) s = refl

  handle_result-view :
      (r : StreamDecodeResult ui) (s : Loop ui lora)
      → view ui lora (handle_result pr c ui lora r s) ≡ view ui lora s
  unfolding handle_result handle_frame push_log push_log_full
  handle_result-view (decode_ok payload consumed bins) s =
      let (outcome, node) = process_rx_frame pr c s.node payload in
      let taken : Loop ui lora = record s { rx_buffer = drop consumed s.rx_buffer; node = node } in
      handle_outcome-view (off_hz pr c ui lora s.cur_sf bins) outcome taken
      ∙ ap (λ (l : LocalNode). (identity ui s.vm, s.vm.rebuild_nodes, l, chosen ui s.vm))
          (process-local pr c s.node payload)
  handle_result-view (crc_fail payload_len cr has_crc consumed bins) s = refl
  handle_result-view (decode_failed consumed) s = refl
  handle_result-view no_frame s = refl

  pub decode_loop-view :
      (fuel : ℕ) (s : Loop ui lora)
      → view ui lora (decode_loop pr c ui lora fuel s).1 ≡ view ui lora s
  unfolding decode_loop
  decode_loop-view zero s = refl
  decode_loop-view (suc fuel) s =
      let (r, modem) = lora.decode_streaming s.rx_modem s.rx_buffer in
      let s' : Loop ui lora = record s { rx_modem = modem } in
      let shown : Bool × Loop ui lora → View ui = λ p. view ui lora p.1 in
      elim (Bool-cases (is_over pr c ui lora r)) [
        | inl over ↦ ap shown (if_true _ over)
        | inr more ↦
            ap shown (if_false _ more)
            ∙ decode_loop-view fuel (handle_result pr c ui lora r s')
            ∙ handle_result-view r s'
      ]
