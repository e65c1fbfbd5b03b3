-- ===== src/Radio.antt =====
-- mesh/src/radio.rs: the state of the radio loop and what its phases share. The drivers, the modems
-- and the spectrum analyzer of the `lora` submodule, the clock, the random numbers and the arithmetic
-- of floats are the parameter `Lora`; `W` is what answers for the world outside.
pub mod Rebuild
pub mod Send
pub mod Spectrum
pub mod Decode
pub mod Tick
pub mod Silence
pub mod Ending
pub mod Steady
pub mod Receiving
pub mod Turns
pub mod Typed
pub mod Plan
pub mod Sending
pub mod Outgoing
pub mod Hearing
pub mod Clock
pub mod NextBeacon
pub mod Timer
pub mod Devices
pub mod Control
pub mod LogBound
pub mod LogTurns
use meshtastic_lora_rs.Common.{
  ℕ, ◌%◌, Bool, true, false, List, [], ◌∷◌, ◌++◌, Option, none, some, if◌then◌else◌, ltb, length,
  drop,
}
use meshtastic_lora_rs.Common.Int.{ℤ}
use meshtastic_lora_rs.Common.Hex.{hex8}
use meshtastic_lora_rs.Common.Text.{padded}
use meshtastic_lora_rs.Common.Result.{Result, ok, err, Str, codes}
use meshtastic_lora_rs.Mac.Packet.{MeshFrame}
use meshtastic_lora_rs.Mesh.Node.{NodeInfo}
use meshtastic_lora_rs.App
use meshtastic_lora_rs.App.{MeshNode, default_channel}
use meshtastic_lora_rs.Model.{Ui, ViewModel, LogEntry, MsgDir, sr_hz}

-- The result of `decode_streaming`.
pub data StreamDecodeResult (ui : Ui) : Type 0 where
  decode_ok : List ℕ → ℕ → ui.F64 → StreamDecodeResult ui
  crc_fail : ℕ → ℕ → Bool → ℕ → ui.F64 → StreamDecodeResult ui
  decode_failed : ℕ → StreamDecodeResult ui
  no_frame : StreamDecodeResult ui

pub record Lora (ui : Ui) : Type 1 where
  pub W : Type 0
  -- The hours, minutes and seconds of the local clock: what `localtime_r` makes of the system time, or
  -- what the browser's `Date` shows.
  pub local_time : W → (ℕ × ℕ × ℕ) × W
  pub random_u32 : W → ℕ × W
  pub Sample : Type 0
  -- The trait `Driver`, the simulated channel and the UHD device.
  pub Driver : Type 0
  pub channel_new : ui.F32 → ui.F32 → Driver
  pub uhd_new : Str → ui.F64 → ui.F64 → ui.F64 → ui.F64 → ui.F64 → W → Result Str Driver × W
  pub is_parkable : Driver → Bool
  pub park : Driver → Driver
  pub unpark : Driver → ui.F64 → ui.F64 → ui.F64 → ui.F64 → ui.F64 → Driver
  pub set_signal_amp : Driver → ui.F32 → Driver
  pub set_noise_sigma : Driver → ui.F32 → Driver
  pub set_hw_rx_gain : Driver → ui.F64 → Driver
  pub set_hw_tx_gain : Driver → ui.F64 → Driver
  pub clear : Driver → Driver
  pub push_samples : Driver → List Sample → Driver
  pub driver_tick : Driver → ℕ → W → (List Sample × Driver) × W
  -- The modems and the analyzer.
  pub Tx : Type 0
  pub tx_new : ℕ → ℕ → ℕ → ℕ → ℕ → Tx
  pub modulate : Tx → List ℕ → List Sample
  pub Rx : Type 0
  pub rx_new_with_freq : ℕ → ℕ → ℕ → ℕ → ℕ → ui.F64 → ui.F64 → Rx
  pub set_center_freq_hz : Rx → ui.F64 → Rx
  pub decode_streaming : Rx → List Sample → StreamDecodeResult ui × Rx
  pub SpectrumAnalyzer : Type 0
  pub analyzer_new : ℕ → SpectrumAnalyzer
  pub compute : SpectrumAnalyzer → List Sample → List (ui.F64 × ui.F64) × SpectrumAnalyzer
  -- Floats.
  pub sqrt_2 : ui.F32
  pub div32 : ui.F32 → ui.F32 → ui.F32
  pub powf : ui.F32 → ui.F32 → ui.F32
  pub nan : ui.F64
  pub mul64 : ui.F64 → ui.F64 → ui.F64
  pub div64 : ui.F64 → ui.F64 → ui.F64
  pub abs64 : ui.F64 → ui.F64
  pub gt64 : ui.F64 → ui.F64 → Bool
  pub ne64 : ui.F64 → ui.F64 → Bool
  pub f32_of_f64 : ui.F64 → ui.F32
  -- `{:+.0}`.
  pub signed_text : ui.F64 → Str

abbrev pub max_log : ℕ
max_log = 200

abbrev pub os_factor : ℕ
os_factor = 4

abbrev pub coding_rate : ℕ
coding_rate = 4

abbrev pub sync_word : ℕ
sync_word = 0x2b

abbrev pub preamble : ℕ
preamble = 16

abbrev pub beacon_interval : ℕ
beacon_interval = 5_000_000

-- 16 ms of samples.
abbrev pub samples_per_tick : ℕ
samples_per_tick = 16_000

abbrev pub max_rx_buf : ℕ
max_rx_buf = 4_000_000

-- A u64 wraps.
abbrev pub wrap64 : ℕ → ℕ
wrap64 n = n % 18_446_744_073_709_551_616

-- The locals of `sim_loop`, the shared state and the world.
pub record Loop (ui : Ui) (lora : Lora ui) : Type 0 where
  pub vm : ViewModel ui
  pub world : lora.W
  pub node : MeshNode
  pub driver : lora.Driver
  pub analyzer : lora.SpectrumAnalyzer
  pub tx_modem : lora.Tx
  pub rx_modem : lora.Rx
  pub cur_sf : ℕ
  pub rx_buffer : List lora.Sample
  pub produced : ℕ
  pub seq : ℕ
  pub next_tx_at : ℕ
  pub next_beacon_at : ℕ
  pub prev_interval_ms : ℕ
  pub last_uhd_rx_gain : ui.F64
  pub last_uhd_tx_gain : ui.F64
  pub parked_uhd : Option (lora.Driver × Str)
  pub active_uhd_args : Str

module _ (ui : Ui) (lora : Lora ui) where
  abbrev pub f64_int : ℕ → ui.F64
  f64_int n = ui.f64_of_ℤ (ℤ.pos n)

  abbrev pub db_to_amp : ui.F32 → ui.F32
  db_to_amp db = lora.powf (ui.f32_of_ℤ (ℤ.pos 10)) (lora.div32 db (ui.f32_of_ℤ (ℤ.pos 20)))

  abbrev pub noise_sigma : ViewModel ui → ui.F32
  noise_sigma vm = lora.div32 (db_to_amp vm.noise_db) lora.sqrt_2

  abbrev pub bw_hz : ui.F64
  bw_hz = lora.div64 (f64_int sr_hz) (f64_int os_factor)

  abbrev pub new_tx : ℕ → lora.Tx
  new_tx sf = lora.tx_new sf coding_rate os_factor sync_word preamble

  abbrev pub new_rx : ℕ → ui.F64 → lora.Rx
  new_rx sf freq = lora.rx_new_with_freq sf coding_rate os_factor sync_word preamble freq bw_hz

  -- A queue that is pushed at the back, and popped once in front when it is too long.
  abbrev pub push_bounded : List LogEntry → LogEntry → List LogEntry
  push_bounded log e =
      let longer = log ++ (e ∷ []) in if ltb max_log (length longer) then drop 1 longer else longer

  -- `format!("{:02}:{:02}:{:02}", hour, min, sec)`.
  unfoldable pub now_hms : lora.W → Str × lora.W
  unfolding padded
  now_hms w =
      let ((hour, min, sec), w') = lora.local_time w in
      (padded 2 hour ++ codes ":" ++ padded 2 min ++ codes ":" ++ padded 2 sec, w')

  unfoldable pub push_log_full :
      MsgDir → Str → Option ℕ → Option ℕ → Bool → Loop ui lora → Loop ui lora
  push_log_full dir text from_id hops self_origin s =
      let (time, w) = now_hms s.world in
      let entry : LogEntry = record {
        time = time;
        dir = dir;
        text = text;
        from_id = from_id;
        hops = hops;
        self_origin = self_origin;
      } in
      record s { vm = record s.vm { log = push_bounded s.vm.log entry }; world = w }

  unfoldable pub push_log : MsgDir → Str → Loop ui lora → Loop ui lora
  unfolding push_log_full
  push_log dir text s = push_log_full dir text none none false s

  -- `build_node`, which also writes the id's text.
  unfoldable pub build_node : ViewModel ui → MeshNode × ViewModel ui
  build_node vm = (
    App.with_id default_channel vm.node_id vm.node_short vm.node_long,
    record vm { node_id_str = codes "!" ++ hex8 vm.node_id },
  )

  -- `driver.push_samples(tx_modem.modulate(&frame.to_bytes()))`.
  unfoldable pub transmit : List ℕ → Loop ui lora → Loop ui lora
  transmit bytes s = record s {
    driver = lora.push_samples s.driver (lora.modulate s.tx_modem bytes);
  }
