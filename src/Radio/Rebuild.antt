-- ===== src/Radio/Rebuild.antt =====
-- The phases of a turn that bring the node, the driver and the modems in line with the shared state.
use meshtastic_lora_rs.Common.{
  ℕ, ◌+◌, ◌*◌, ◌/◌, false, ◌&&◌, [], ◌++◌, ◌∷◌, none, some, if◌then◌else◌, ltb, ◌==◌, Option,
}
use meshtastic_lora_rs.Common.Text.{bytes_eq}
use meshtastic_lora_rs.Common.Int.{ℤ}
use meshtastic_lora_rs.Common.Result.{Result, ok, err, Str, codes}
use meshtastic_lora_rs.Model.{Ui, ViewModel, SimMode, terminal, listen, system, sr_hz}
use meshtastic_lora_rs.Radio.{
  Lora, Loop, wrap64, f64_int, db_to_amp, noise_sigma, bw_hz, new_tx, new_rx, push_log, build_node,
}

-- The UTF-8 bytes of an arrow.
abbrev arrow : Str
arrow = 0xe2 ∷ 0x86 ∷ 0x92 ∷ []

abbrev pub mode_text : SimMode → Str
mode_text terminal = codes "Mode " ++ arrow ++ codes " Terminal"
mode_text listen = codes "Mode " ++ arrow ++ codes " Listen (RX only)"

module _ (ui : Ui) (lora : Lora ui) where
  -- `rebuild_nodes.swap(false)` and the rebuild.
  unfoldable pub rebuild_node : Loop ui lora → Loop ui lora
  unfolding build_node
  rebuild_node s =
      let lowered = record s.vm { rebuild_nodes = false } in
      let (node, vm) = build_node ui lora lowered in
      if s.vm.rebuild_nodes
      then push_log ui lora system (mode_text vm.mode) (record s { vm = vm; node = node })
      else s

  abbrev pub open_device : Str → Loop ui lora → Result Str lora.Driver × lora.W
  open_device args s =
      lora.uhd_new args s.vm.uhd_freq_hz (f64_int ui lora sr_hz) (bw_hz ui lora) s.vm.uhd_rx_gain_db
        s.vm.uhd_tx_gain_db s.world

  -- What a failure to open the device leaves in the shared state.
  abbrev fall_back : Str → ViewModel ui → ViewModel ui
  fall_back e vm = record vm {
    uhd_warning = some (codes "UHD open failed: " ++ e);
    use_uhd = false;
  }

  -- The `match` on the opened device: on an error the driver is `otherwise`.
  unfoldable pub install : Result Str lora.Driver → lora.Driver → Loop ui lora → Loop ui lora
  install (ok dev) otherwise s = record s { driver = dev }
  install (err e) otherwise s = record s { driver = otherwise; vm = fall_back e s.vm }

  -- `make_driver` with the `uhd` feature.
  unfoldable pub make_driver : Loop ui lora → Loop ui lora
  unfolding install
  make_driver s =
      let simulated =
        lora.channel_new (noise_sigma ui lora s.vm) (db_to_amp ui lora s.vm.signal_db) in
      let (opened, w) = open_device s.vm.uhd_args s in
      if s.vm.use_uhd
      then install opened simulated (record s { world = w })
      else record s { driver = simulated }

  abbrev pub unparked : lora.Driver → Loop ui lora → lora.Driver
  unparked dev s =
      lora.unpark dev s.vm.uhd_freq_hz (f64_int ui lora sr_hz) (bw_hz ui lora) s.vm.uhd_rx_gain_db
        s.vm.uhd_tx_gain_db

  -- The device is opened anew, with a placeholder driver meanwhile.
  unfoldable pub open_new : Loop ui lora → Loop ui lora
  unfolding install
  open_new s =
      let placeholder = lora.channel_new (ui.f32_of_ℤ (ℤ.pos 0)) (ui.f32_of_ℤ (ℤ.pos 1)) in
      let (opened, w) = open_device s.vm.uhd_args s in
      install opened placeholder
        (record s { world = w; vm = record s.vm { uhd_loading = false }; parked_uhd = none })

  -- A parked device with the same arguments is taken up again.
  unfoldable pub reuse_or_open : Option (lora.Driver × Str) → Loop ui lora → Loop ui lora
  unfolding open_new
  reuse_or_open none s = open_new s
  reuse_or_open (some (dev, args)) s =
      if bytes_eq args s.vm.uhd_args
      then record s { driver = unparked dev s; parked_uhd = none }
      else open_new s

  -- The branch with a UHD device in use.
  unfoldable pub use_device : Loop ui lora → Loop ui lora
  unfolding reuse_or_open
  use_device s =
      let moved : Loop ui lora =
        if lora.is_parkable s.driver && bytes_eq s.active_uhd_args s.vm.uhd_args
        then record s { driver = unparked (lora.park s.driver) s }
        else record (reuse_or_open s.parked_uhd s) { active_uhd_args = s.vm.uhd_args } in
      record moved { last_uhd_rx_gain = lora.nan; last_uhd_tx_gain = lora.nan }

  -- The branch without.
  unfoldable pub leave_device : Loop ui lora → Loop ui lora
  unfolding make_driver
  leave_device s =
      if lora.is_parkable s.driver
      then record s {
        driver = lora.channel_new (noise_sigma ui lora s.vm) (db_to_amp ui lora s.vm.signal_db);
        parked_uhd = some (lora.park s.driver, s.vm.uhd_args);
      }
      else make_driver s

  unfoldable pub rebuild_driver : Loop ui lora → Loop ui lora
  unfolding use_device leave_device
  rebuild_driver s =
      let lowered : Loop ui lora = record s { vm = record s.vm { rebuild_driver = false } } in
      let moved : Loop ui lora =
        if s.vm.use_uhd then use_device lowered else leave_device lowered in
      if s.vm.rebuild_driver
      then record moved {
        rx_buffer = [];
        produced = 0;
        next_tx_at = sr_hz;
        next_beacon_at = sr_hz / 2;
      }
      else s

  abbrev pub interval_samples : ViewModel ui → ℕ
  interval_samples vm = wrap64 (vm.interval_ms * sr_hz) / 1000

  -- A changed interval may bring the next automatic transmission forward.
  unfoldable pub read_interval : Loop ui lora → Loop ui lora
  read_interval s =
      let earliest = wrap64 (s.produced + interval_samples s.vm) in
      if s.vm.interval_ms == s.prev_interval_ms then s else record s {
        prev_interval_ms = s.vm.interval_ms;
        next_tx_at = if ltb earliest s.next_tx_at then earliest else s.next_tx_at;
      }

  -- Amplitudes and gains go to the driver.
  unfoldable pub set_levels : Loop ui lora → Loop ui lora
  set_levels s =
      let d = lora.set_signal_amp s.driver (db_to_amp ui lora s.vm.signal_db) in
      let d = lora.set_noise_sigma d (noise_sigma ui lora s.vm) in
      let d =
        if lora.ne64 s.vm.uhd_rx_gain_db s.last_uhd_rx_gain
        then lora.set_hw_rx_gain d s.vm.uhd_rx_gain_db
        else d in
      let d =
        if lora.ne64 s.vm.uhd_tx_gain_db s.last_uhd_tx_gain
        then lora.set_hw_tx_gain d s.vm.uhd_tx_gain_db
        else d in
      record s {
        driver = d;
        last_uhd_rx_gain =
            if lora.ne64 s.vm.uhd_rx_gain_db s.last_uhd_rx_gain
            then s.vm.uhd_rx_gain_db
            else s.last_uhd_rx_gain;
        last_uhd_tx_gain =
            if lora.ne64 s.vm.uhd_tx_gain_db s.last_uhd_tx_gain
            then s.vm.uhd_tx_gain_db
            else s.last_uhd_tx_gain;
      }

  -- A changed spreading factor makes new modems; the centre frequency always follows.
  unfoldable pub set_modems : Loop ui lora → Loop ui lora
  set_modems s =
      let renewed : Loop ui lora = if s.vm.sf == s.cur_sf then s else record s {
        cur_sf = s.vm.sf;
        tx_modem = new_tx ui lora s.vm.sf;
        rx_modem = new_rx ui lora s.vm.sf s.vm.uhd_freq_hz;
        rx_buffer = [];
        driver = lora.clear s.driver;
      } in
      record renewed { rx_modem = lora.set_center_freq_hz renewed.rx_modem s.vm.uhd_freq_hz }
