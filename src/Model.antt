-- ===== src/Model.antt =====
-- mesh/src/model.rs: the state that the radio loop and the user interfaces share, and the commands
-- that change it. Every field is a mutex or an atomic of its own and the loop applies a command at a
-- time, so the state is a record that is passed on. The number types and the plots of the `lora`
-- submodule are the parameter `Ui`.
pub mod Commands
pub mod Chosen
use meshtastic_lora_rs.Common.{
  ℕ, Bool, true, false, List, [], ◌∷◌, ◌++◌, foldl, Option, none, some, if◌then◌else◌, ◌*◌,
}
use meshtastic_lora_rs.Common.Int.{ℤ}
use meshtastic_lora_rs.Common.Result.{Str, codes}
use meshtastic_lora_rs.Mac.Packet.{broadcast}
use meshtastic_lora_rs.Presets.{ModemPreset, Region, taiwan, long_fast, channel_freq}

pub record Ui : Type 1 where
  pub F32 : Type 0
  pub F64 : Type 0
  -- A literal that is a whole number, a frequency of that many half hertz in megahertz, and `* 1e6`.
  pub f32_of_ℤ : ℤ → F32
  pub f64_of_ℤ : ℤ → F64
  pub mhz_of_half_hz : ℕ → F64
  pub times_1e6 : F64 → F64
  -- `as f64` of a number or an index.
  pub f64_of_f32 : F32 → F64
  pub f64_of_ℕ : ℕ → F64
  pub SpectrumPlot : Type 0
  pub WaterfallPlot : Type 0
  -- The plots as `ViewModel::new` sets them up, and their `update`.
  pub spectrum_plot_new : SpectrumPlot
  pub waterfall_plot_new : WaterfallPlot
  pub spectrum_update : SpectrumPlot → List (F64 × F64) → SpectrumPlot
  pub waterfall_update : WaterfallPlot → List (F64 × F64) → WaterfallPlot

abbrev pub default_sf : ℕ
default_sf = 11

abbrev pub default_interval_ms : ℕ
default_interval_ms = 2000

abbrev pub fft_size : ℕ
fft_size = 2048

abbrev pub sr_hz : ℕ
sr_hz = 1_000_000

pub data SimMode : Type 0 where
  terminal : SimMode
  listen : SimMode

pub data MsgDir : Type 0 where
  tx : MsgDir
  rx : MsgDir
  fwd : MsgDir
  system : MsgDir
  error : MsgDir

pub record LogEntry : Type 0 where
  pub time : Str
  pub dir : MsgDir
  pub text : Str
  pub from_id : Option ℕ
  pub hops : Option ℕ
  pub self_origin : Bool

pub data Command (ui : Ui) : Type 0 where
  set_sf : ℕ → Command ui
  set_signal_db : ui.F32 → Command ui
  set_noise_db : ui.F32 → Command ui
  set_interval_ms : ℕ → Command ui
  set_mode : SimMode → Command ui
  set_node_short : Str → Command ui
  set_node_long : Str → Command ui
  set_tx_dest : ℕ → Command ui
  set_uhd_enabled : Bool → Command ui
  set_uhd_args : Str → Command ui
  set_uhd_freq_hz : ui.F64 → Command ui
  set_uhd_rx_gain_db : ui.F64 → Command ui
  set_uhd_tx_gain_db : ui.F64 → Command ui
  set_auto_tx : Bool → Command ui
  set_running : Bool → Command ui
  send_text : Str → Command ui
  reset_stats : Command ui

pub record ViewModel (ui : Ui) : Type 0 where
  pub running : Bool
  pub sf : ℕ
  pub signal_db : ui.F32
  pub noise_db : ui.F32
  pub interval_ms : ℕ
  pub log : List LogEntry
  pub neighbours : List Str
  pub node_id_str : Str
  pub tx_count : ℕ
  pub rx_count : ℕ
  pub spectrum_plot : ui.SpectrumPlot
  pub waterfall_plot : ui.WaterfallPlot
  pub latest_spectrum : List ui.F32
  pub latest_waterfall_row : List ui.F32
  pub use_uhd : Bool
  pub uhd_args : Str
  pub uhd_freq_hz : ui.F64
  pub uhd_rx_gain_db : ui.F64
  pub uhd_tx_gain_db : ui.F64
  pub rebuild_driver : Bool
  pub uhd_loading : Bool
  pub uhd_warning : Option Str
  pub auto_tx : Bool
  pub tx_queue : List Str
  pub mode : SimMode
  pub rebuild_nodes : Bool
  pub node_short : Str
  pub node_long : Str
  pub node_id : ℕ
  pub tx_dest : ℕ

module _ (ui : Ui) where
  -- `ViewModel::new`; the node id is the one drawn.
  abbrev pub new : ℕ → ViewModel ui
  new drawn = record {
    running = true;
    sf = default_sf;
    signal_db = ui.f32_of_ℤ (ℤ.negsuc 19);
    noise_db = ui.f32_of_ℤ (ℤ.negsuc 59);
    interval_ms = default_interval_ms;
    log = [];
    neighbours = [];
    node_id_str = [];
    tx_count = 0;
    rx_count = 0;
    spectrum_plot = ui.spectrum_plot_new;
    waterfall_plot = ui.waterfall_plot_new;
    latest_spectrum = [];
    latest_waterfall_row = [];
    use_uhd = false;
    uhd_args = [];
    uhd_freq_hz = ui.times_1e6 (ui.mhz_of_half_hz (channel_freq taiwan long_fast.bw_hz));
    uhd_rx_gain_db = ui.f64_of_ℤ (ℤ.pos 40);
    uhd_tx_gain_db = ui.f64_of_ℤ (ℤ.pos 40);
    rebuild_driver = false;
    uhd_loading = false;
    uhd_warning = none;
    auto_tx = true;
    tx_queue = [];
    mode = listen;
    rebuild_nodes = false;
    node_short = codes "TERM";
    node_long = codes "Mesh Terminal";
    node_id = drawn;
    tx_dest = broadcast;
  }

  -- `store(true)` under `if`.
  abbrev raised_if : Bool → Bool → Bool
  raised_if c flag = if c then true else flag

  unfoldable pub apply : Command ui → ViewModel ui → ViewModel ui
  apply (set_sf n) vm = record vm { sf = n }
  apply (set_signal_db v) vm = record vm { signal_db = v }
  apply (set_noise_db v) vm = record vm { noise_db = v }
  apply (set_interval_ms v) vm = record vm { interval_ms = v }
  apply (set_mode m) vm = record vm { mode = m; rebuild_nodes = true }
  apply (set_node_short s) vm = record vm { node_short = s; rebuild_nodes = true }
  apply (set_node_long s) vm = record vm { node_long = s; rebuild_nodes = true }
  apply (set_tx_dest i) vm = record vm { tx_dest = i }
  apply (set_uhd_enabled on) vm = record vm {
    use_uhd = on;
    uhd_warning = if on then none else vm.uhd_warning;
    rebuild_driver = true;
  }
  apply (set_uhd_args s) vm = record vm {
    uhd_args = s;
    rebuild_driver = raised_if vm.use_uhd vm.rebuild_driver;
  }
  apply (set_uhd_freq_hz hz) vm = record vm {
    uhd_freq_hz = hz;
    rebuild_driver = raised_if vm.use_uhd vm.rebuild_driver;
  }
  apply (set_uhd_rx_gain_db v) vm = record vm { uhd_rx_gain_db = v }
  apply (set_uhd_tx_gain_db v) vm = record vm { uhd_tx_gain_db = v }
  apply (set_auto_tx on) vm = record vm { auto_tx = on }
  apply (set_running on) vm = record vm { running = on }
  apply (send_text s) vm = record vm { tx_queue = vm.tx_queue ++ (s ∷ []) }
  apply reset_stats vm = record vm { tx_count = 0; rx_count = 0; log = [] }

  -- The commands that wait in the channel, in the order they were sent.
  unfoldable pub apply_all : List (Command ui) → ViewModel ui → ViewModel ui
  unfolding apply
  apply_all [] vm = vm
  apply_all (cmd ∷ cmds) vm = apply_all cmds (apply cmd vm)
