-- ===== src/ProtoWs.antt =====
-- mesh/src/proto_ws.rs: the snapshot that the server sends and the web client writes into its copy of
-- the shared state.
pub mod Mirror
use meshtastic_lora_rs.Common.{ℕ, ◌+◌, Bool, List, [], ◌∷◌, Option}
use meshtastic_lora_rs.Common.Result.{Str}
use meshtastic_lora_rs.Model.{Ui, SimMode, LogEntry, ViewModel}

pub record Snapshot (ui : Ui) : Type 0 where
  pub running : Bool
  pub sf : ℕ
  pub signal_db : ui.F32
  pub noise_db : ui.F32
  pub interval_ms : ℕ
  pub mode : SimMode
  pub node_id_str : Str
  pub node_short : Str
  pub node_long : Str
  pub neighbours : List Str
  pub tx_count : ℕ
  pub rx_count : ℕ
  pub use_uhd : Bool
  pub uhd_args : Str
  pub uhd_freq_hz : ui.F64
  pub uhd_rx_gain_db : ui.F64
  pub uhd_tx_gain_db : ui.F64
  pub uhd_loading : Bool
  pub uhd_warning : Option Str
  pub auto_tx : Bool
  pub tx_dest : ℕ
  pub spectrum : List ui.F32
  pub waterfall_row : List ui.F32

pub data ServerMsg (ui : Ui) : Type 0 where
  snapshot : Snapshot ui → ServerMsg ui
  log_append : LogEntry → ServerMsg ui
  error : Str → ServerMsg ui

module _ (ui : Ui) where
  open ui use {F32, F64}

  unfoldable pub from_view : ViewModel ui → Snapshot ui
  from_view vm = record {
    running = vm.running;
    sf = vm.sf;
    signal_db = vm.signal_db;
    noise_db = vm.noise_db;
    interval_ms = vm.interval_ms;
    mode = vm.mode;
    node_id_str = vm.node_id_str;
    node_short = vm.node_short;
    node_long = vm.node_long;
    neighbours = vm.neighbours;
    tx_count = vm.tx_count;
    rx_count = vm.rx_count;
    use_uhd = vm.use_uhd;
    uhd_args = vm.uhd_args;
    uhd_freq_hz = vm.uhd_freq_hz;
    uhd_rx_gain_db = vm.uhd_rx_gain_db;
    uhd_tx_gain_db = vm.uhd_tx_gain_db;
    uhd_loading = vm.uhd_loading;
    uhd_warning = vm.uhd_warning;
    auto_tx = vm.auto_tx;
    tx_dest = vm.tx_dest;
    spectrum = vm.latest_spectrum;
    waterfall_row = vm.latest_waterfall_row;
  }

  -- `enumerate`, with both sides as f64, from index `i`.
  abbrev pub pairs : ℕ → List F32 → List (F64 × F64)
  pairs i [] = []
  pairs i (v ∷ vs) = (ui.f64_of_ℕ i, ui.f64_of_f32 v) ∷ pairs (i + 1) vs

  abbrev pub spectrum_with : List F32 → ui.SpectrumPlot → ui.SpectrumPlot
  spectrum_with [] plot = plot
  spectrum_with (v ∷ vs) plot = ui.spectrum_update plot (pairs 0 (v ∷ vs))

  abbrev pub waterfall_with : List F32 → ui.WaterfallPlot → ui.WaterfallPlot
  waterfall_with [] plot = plot
  waterfall_with (v ∷ vs) plot = ui.waterfall_update plot (pairs 0 (v ∷ vs))

  unfoldable pub apply : Snapshot ui → ViewModel ui → ViewModel ui
  apply s vm = record vm {
    running = s.running;
    sf = s.sf;
    signal_db = s.signal_db;
    noise_db = s.noise_db;
    interval_ms = s.interval_ms;
    mode = s.mode;
    node_id_str = s.node_id_str;
    node_short = s.node_short;
    node_long = s.node_long;
    neighbours = s.neighbours;
    tx_count = s.tx_count;
    rx_count = s.rx_count;
    use_uhd = s.use_uhd;
    uhd_args = s.uhd_args;
    uhd_freq_hz = s.uhd_freq_hz;
    uhd_rx_gain_db = s.uhd_rx_gain_db;
    uhd_tx_gain_db = s.uhd_tx_gain_db;
    uhd_loading = s.uhd_loading;
    uhd_warning = s.uhd_warning;
    auto_tx = s.auto_tx;
    tx_dest = s.tx_dest;
    spectrum_plot = spectrum_with s.spectrum vm.spectrum_plot;
    waterfall_plot = waterfall_with s.waterfall_row vm.waterfall_plot;
  }
