-- ===== src/Radio/Tick.antt =====
-- `sim_loop`: its start and one turn.
use meshtastic_lora_rs.Common.{suc, ◌/◌, false, List, [], ◌∷◌, none, length, if◌then◌else◌}
use meshtastic_lora_rs.Mac.Crypto.{Cipher}
use meshtastic_lora_rs.Proto.{Proto}
use meshtastic_lora_rs.Model.{
  Ui, ViewModel, Command, apply_all, default_sf, default_interval_ms, fft_size, sr_hz,
}
use meshtastic_lora_rs.Radio.{Lora, Loop, build_node, new_tx, new_rx}
use meshtastic_lora_rs.Radio.Rebuild.{
  make_driver, rebuild_node, rebuild_driver, read_interval, set_levels, set_modems,
}
use meshtastic_lora_rs.Radio.Send.{beacon, manual_tx, auto_tx}
use meshtastic_lora_rs.Radio.Spectrum.{take_samples}
use meshtastic_lora_rs.Radio.Decode.{decode_loop}

module _ (ui : Ui) (lora : Lora ui) where
  -- The locals at the start, with a driver that is replaced at once.
  unfoldable pub initial : lora.Driver → lora.W → ViewModel ui → Loop ui lora
  unfolding build_node
  initial driver w vm =
      let (node, named) = build_node ui lora vm in
      record {
        vm = named;
        world = w;
        node = node;
        driver = driver;
        analyzer = lora.analyzer_new fft_size;
        tx_modem = new_tx ui lora default_sf;
        rx_modem = new_rx ui lora default_sf vm.uhd_freq_hz;
        cur_sf = default_sf;
        rx_buffer = [];
        produced = 0;
        seq = 0;
        next_tx_at = sr_hz;
        next_beacon_at = sr_hz / 2;
        prev_interval_ms = default_interval_ms;
        last_uhd_rx_gain = lora.nan;
        last_uhd_tx_gain = lora.nan;
        parked_uhd = none;
        active_uhd_args = [];
      }

  -- What precedes the loop.
  unfoldable pub start : lora.Driver → lora.W → ViewModel ui → Loop ui lora
  unfolding initial make_driver
  start driver w vm =
      let opened = make_driver ui lora (initial driver w vm) in
      record opened { vm = record opened.vm { uhd_loading = false; rebuild_driver = false } }

  -- The phases between the commands and the decoder.
  unfoldable pub settle : Loop ui lora → Loop ui lora
  unfolding rebuild_node rebuild_driver read_interval set_levels set_modems
  settle s =
      set_modems ui lora (
        set_levels ui lora
          (read_interval ui lora (rebuild_driver ui lora (rebuild_node ui lora s))))

module _ (pr : Proto) (c : Cipher) (ui : Ui) (lora : Lora ui) where
  unfoldable pub send_phases : Loop ui lora → Loop ui lora
  unfolding beacon manual_tx auto_tx
  send_phases s = auto_tx pr c ui lora (manual_tx pr c ui lora (beacon pr c ui lora s))

  -- One turn: the commands that wait, and, while the radio runs, every phase. The decoding loop may
  -- take one turn more than the buffer has samples.
  unfoldable pub tick : List (Command ui) → Loop ui lora → Loop ui lora
  unfolding apply_all settle send_phases take_samples decode_loop
  tick cmds s =
      let commanded : Loop ui lora = record s { vm = apply_all ui cmds s.vm } in
      let sampled = take_samples ui lora (send_phases (settle ui lora commanded)) in
      let decoded = (decode_loop pr c ui lora (suc (length sampled.rx_buffer)) sampled).1 in
      if commanded.vm.running then decoded else commanded

  -- A run of turns, each with the commands that came before it.
  unfoldable pub ticks : List (List (Command ui)) → Loop ui lora → Loop ui lora
  unfolding tick
  ticks [] s = s
  ticks (cmds ∷ later) s = ticks later (tick cmds s)
