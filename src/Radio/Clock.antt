-- ===== src/Radio/Clock.antt =====
-- When the beacon and the automatic message are due, over a turn.
use meshtastic_lora_rs.Common.{
  ℕ, zero, suc, ◌+◌, ◌≡◌, refl, sym, ap, ==_iff, ◌∙◌, Bool, true, false, List, [], ◌∷◌, Option,
  none, some, Bool-cases, inl, inr, leb, ◌==◌, length, take, drop, if_true, if_false,
}
use meshtastic_lora_rs.Common.Result.{ok, err}
use meshtastic_lora_rs.Mac.Packet.{MeshFrame}
use meshtastic_lora_rs.Mac.Crypto.{Cipher}
use meshtastic_lora_rs.Proto.{Proto}
use meshtastic_lora_rs.App.{Outcome, MeshMessage, process_rx_frame}
use meshtastic_lora_rs.Model.{Ui, fft_size}
use meshtastic_lora_rs.Radio.{
  Lora, Loop, StreamDecodeResult, decode_ok, crc_fail, decode_failed, no_frame, wrap64, push_log,
  push_log_full, transmit, samples_per_tick, build_node,
}
use meshtastic_lora_rs.Radio.Rebuild.{
  rebuild_node, rebuild_driver, read_interval, set_levels, set_modems,
}
use meshtastic_lora_rs.Radio.Send.{tx_allowed}
use meshtastic_lora_rs.Radio.Spectrum.{Spectrum, analyze, analyze_block, show_peak, take_samples}
use meshtastic_lora_rs.Radio.Decode.{
  relay_frame, log_message, handle_outcome, handle_frame, handle_result, decode_loop, is_over,
  off_hz,
}
use meshtastic_lora_rs.Radio.Outgoing.{listened}
use meshtastic_lora_rs.Radio.Tick.{settle}

module _ (ui : Ui) (lora : Lora ui) where
  -- The two next times, and the interval that the second was set with.
  abbrev pub due_times : Loop ui lora → ℕ × ℕ × ℕ
  due_times s = (s.next_beacon_at, s.next_tx_at, s.prev_interval_ms)

  analyze-due_times :
      (fuel : ℕ) (mixed : List lora.Sample) (acc : Spectrum ui lora × Loop ui lora)
      → due_times (analyze ui lora fuel mixed acc).1 ≡ due_times acc.1
  unfolding analyze analyze_block
  analyze-due_times zero mixed acc = refl
  analyze-due_times (suc fuel) mixed acc =
      let times : Spectrum ui lora × Loop ui lora → ℕ × ℕ × ℕ = λ p. due_times p.1 in
      elim (Bool-cases (leb fft_size (length mixed))) [
        | inl whole ↦
            ap times (if_true _ whole)
            ∙ analyze-due_times fuel (drop fft_size mixed)
                (analyze_block ui lora (take fft_size mixed) acc)
        | inr part ↦ ap times (if_false _ part)
      ]

  show_peak-due_times :
      (peak : Spectrum ui lora) (s : Loop ui lora)
      → due_times (show_peak ui lora peak s) ≡ due_times s
  show_peak-due_times [] s = refl
  show_peak-due_times (p ∷ peak) s = refl

  take_samples-due_times : (s : Loop ui lora) → due_times (take_samples ui lora s) ≡ due_times s
  unfolding take_samples
  take_samples-due_times s =
      let ((mixed, driver), w) = lora.driver_tick s.driver samples_per_tick s.world in
      let heard : Loop ui lora = record s {
        driver = driver;
        world = w;
        produced = wrap64 (s.produced + length mixed);
      } in
      let (peak, analyzed) = analyze ui lora (length mixed) mixed ([], heard) in
      show_peak-due_times peak analyzed ∙ analyze-due_times (length mixed) mixed ([], heard)

  -- The times and the count of samples.
  abbrev pub clock : Loop ui lora → (ℕ × ℕ × ℕ) × ℕ
  clock s = (due_times s, s.produced)

  rebuild_node-clock :
      (s : Loop ui lora)
      → (clock (rebuild_node ui lora s) ≡ clock s)
        × ((rebuild_node ui lora s).vm.rebuild_driver ≡ s.vm.rebuild_driver)
        × ((rebuild_node ui lora s).vm.interval_ms ≡ s.vm.interval_ms)
  unfolding rebuild_node build_node push_log push_log_full
  rebuild_node-clock s = elim (Bool-cases s.vm.rebuild_nodes) [
    | inl up ↦ rw up (refl, refl, refl)
    | inr down ↦ rw down (refl, refl, refl)
  ]

  set_modems-clock : (s : Loop ui lora) → clock (set_modems ui lora s) ≡ clock s
  unfolding set_modems
  set_modems-clock s = elim (Bool-cases (s.vm.sf == s.cur_sf)) [
    | inl same ↦ ap clock (if_true _ same)
    | inr new_ ↦ ap clock (if_false _ new_)
  ]

  set_levels-clock : (s : Loop ui lora) → clock (set_levels ui lora s) ≡ clock s
  unfolding set_levels
  set_levels-clock s = refl

  read_interval-same :
      (s : Loop ui lora)
      → (s.vm.interval_ms == s.prev_interval_ms) ≡ true
      → read_interval ui lora s ≡ s
  unfolding read_interval
  read_interval-same s same = if_true _ same

  -- A new interval leaves the beacon's time.
  abbrev pub beacon_clock : Loop ui lora → ℕ × ℕ
  beacon_clock s = (s.next_beacon_at, s.produced)

  read_interval-clock : (s : Loop ui lora) → beacon_clock (read_interval ui lora s) ≡ beacon_clock s
  unfolding read_interval
  read_interval-clock s = elim (Bool-cases (s.vm.interval_ms == s.prev_interval_ms)) [
    | inl same ↦ ap beacon_clock (if_true _ same)
    | inr new_ ↦ ap beacon_clock (if_false _ new_)
  ]

  rebuild_driver-same :
      (s : Loop ui lora) → s.vm.rebuild_driver ≡ false → rebuild_driver ui lora s ≡ s
  unfolding rebuild_driver
  rebuild_driver-same s keep = if_false _ keep

  -- Without a new driver, settling leaves the beacon's time and the count of samples.
  pub settle-beacon_clock :
      (s : Loop ui lora)
      → s.vm.rebuild_driver ≡ false
      → beacon_clock (settle ui lora s) ≡ beacon_clock s
  unfolding settle
  settle-beacon_clock s keep =
      let n = rebuild_node ui lora s in
      let (same, flag, _) = rebuild_node-clock s in
      let beacons : (ℕ × ℕ × ℕ) × ℕ → ℕ × ℕ = λ t. (t.0.0, t.1) in
      ap beacons
        (set_modems-clock _ ∙ set_levels-clock (read_interval ui lora (rebuild_driver ui lora n)))
      ∙ read_interval-clock (rebuild_driver ui lora n)
      ∙ ap beacon_clock (rebuild_driver-same n (flag ∙ keep))
      ∙ ap beacons same

  -- Without a new driver and a new interval, settling leaves the whole clock.
  pub settle-clock :
      (s : Loop ui lora)
      → s.vm.rebuild_driver ≡ false
      → s.vm.interval_ms ≡ s.prev_interval_ms
      → clock (settle ui lora s) ≡ clock s
  unfolding settle
  settle-clock s keep unchanged =
      let n = rebuild_node ui lora s in
      let (same, flag, interval) = rebuild_node-clock s in
      let d_same = rebuild_driver-same n (flag ∙ keep) in
      let still : (n.vm.interval_ms == n.prev_interval_ms) ≡ true =
        (==_iff _ _).1 (interval ∙ unchanged ∙ sym (ap (λ t. t.0.2) same)) in
      set_modems-clock _
      ∙ set_levels-clock (read_interval ui lora (rebuild_driver ui lora n))
      ∙ ap (λ d. clock (read_interval ui lora d)) d_same
      ∙ ap clock (read_interval-same n still)
      ∙ same

module _ (pr : Proto) (c : Cipher) (ui : Ui) (lora : Lora ui) where
  relay_frame-due_times :
      (f : Option MeshFrame) (s : Loop ui lora)
      → due_times ui lora (relay_frame pr c ui lora f s) ≡ due_times ui lora s
  unfolding relay_frame push_log push_log_full transmit
  relay_frame-due_times none s = refl
  relay_frame-due_times (some f) s = elim (Bool-cases (tx_allowed s.vm.mode)) [
    | inl on ↦ ap (due_times ui lora) (if_true _ on)
    | inr off ↦ ap (due_times ui lora) (if_false _ off)
  ]

  log_message-due_times :
      (hz : ui.F64) (msg : MeshMessage pr.Data) (s : Loop ui lora)
      → due_times ui lora (log_message pr c ui lora hz msg s) ≡ due_times ui lora s
  unfolding log_message push_log_full
  log_message-due_times hz msg s = elim (Bool-cases msg.self_origin) [
    | inl own ↦ ap (due_times ui lora) (if_true _ own)
    | inr other ↦ ap (due_times ui lora) (if_false _ other)
  ]

  handle_outcome-due_times :
      (hz : ui.F64) (o : Outcome pr c) (s : Loop ui lora)
      → due_times ui lora (handle_outcome pr c ui lora hz o s) ≡ due_times ui lora s
  unfolding handle_outcome push_log push_log_full
  handle_outcome-due_times hz (ok (some msg, f)) s =
      relay_frame-due_times f (log_message pr c ui lora hz msg s) ∙ log_message-due_times hz msg s
  handle_outcome-due_times hz (ok (none, f)) s = relay_frame-due_times f s
  handle_outcome-due_times hz (err e) s = refl

  handle_result-due_times :
      (r : StreamDecodeResult ui) (s : Loop ui lora)
      → due_times ui lora (handle_result pr c ui lora r s) ≡ due_times ui lora s
  unfolding handle_result handle_frame push_log push_log_full
  handle_result-due_times (decode_ok payload consumed bins) s =
      let (outcome, node) = process_rx_frame pr c s.node payload in
      let taken : Loop ui lora = record s { rx_buffer = drop consumed s.rx_buffer; node = node } in
      handle_outcome-due_times (off_hz pr c ui lora s.cur_sf bins) outcome taken
  handle_result-due_times (crc_fail payload_len cr has_crc consumed bins) s = refl
  handle_result-due_times (decode_failed consumed) s = refl
  handle_result-due_times no_frame s = refl

  decode_loop-due_times :
      (fuel : ℕ) (s : Loop ui lora)
      → due_times ui lora (decode_loop pr c ui lora fuel s).1 ≡ due_times ui lora s
  unfolding decode_loop
  decode_loop-due_times zero s = refl
  decode_loop-due_times (suc fuel) s =
      let (r, modem) = lora.decode_streaming s.rx_modem s.rx_buffer in
      let s' : Loop ui lora = record s { rx_modem = modem } in
      let times : Bool × Loop ui lora → ℕ × ℕ × ℕ = λ p. due_times ui lora p.1 in
      elim (Bool-cases (is_over pr c ui lora r)) [
        | inl over ↦ ap times (if_true _ over)
        | inr more ↦
            ap times (if_false _ more)
            ∙ decode_loop-due_times fuel (handle_result pr c ui lora r s')
            ∙ handle_result-due_times r s'
      ]

  -- What follows the sending leaves the times.
  pub listened-due_times :
      (s : Loop ui lora) → due_times ui lora (listened pr c ui lora s) ≡ due_times ui lora s
  listened-due_times s =
      let sampled = take_samples ui lora s in
      decode_loop-due_times (suc (length sampled.rx_buffer)) sampled
      ∙ take_samples-due_times ui lora s
