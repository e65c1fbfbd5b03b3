-- ===== src/View.antt =====
-- mesh/src/view/mod.rs: the state of the graphical interface, `MeshSimApp`, and what its parts share.
-- egui, the charts of the `lora` submodule, the QR encoder and the arithmetic of floats are the
-- parameter `Gui`. What egui tells the code of its widgets in one frame is the record `Responses`; the
-- channel to the radio loop is the list of the commands sent and not yet taken.
pub mod Qr
pub mod Settings
pub mod Messages
pub mod Layout
pub mod Mobile
pub mod Frame
pub mod Reports
pub mod SettingsReports
pub mod MessagesReports
pub mod FrameReports
pub mod Synced
pub mod Typing
pub mod Heard
pub mod Destination
pub mod Layouts
pub mod Picture
use meshtastic_lora_rs.Common.{
  ℕ, Bool, true, false, not, List, [], ◌∷◌, ◌++◌, Option, none, some, if◌then◌else◌, get_or,
}
use meshtastic_lora_rs.Common.Int.{ℤ}
use meshtastic_lora_rs.Common.Result.{Str, codes}
use meshtastic_lora_rs.Mac.Packet.{broadcast}
use meshtastic_lora_rs.Presets.{
  ModemPreset, Region, presets, regions, long_fast, taiwan, channel_freq,
}
use meshtastic_lora_rs.Model.{
  Ui, SimMode, listen, ViewModel, Command, set_auto_tx, set_mode, default_sf, default_interval_ms,
  fft_size, sr_hz,
}

pub record Gui (ui : Ui) : Type 1 where
  -- `lora::ui::Chart`; `show` is its `ui`, with what the user does to it.
  pub Chart : Type 0
  pub Gesture : Type 0
  pub chart_new : Str → Chart
  pub set_x_limits : Chart → ui.F64 × ui.F64 → Chart
  pub set_y_limits : Chart → ui.F64 × ui.F64 → Chart
  pub set_link_axis : Chart → Str → Bool → Bool → Chart
  pub set_link_cursor : Chart → Str → Bool → Bool → Chart
  pub add_spectrum : Chart → ui.SpectrumPlot → Chart
  pub add_waterfall : Chart → ui.WaterfallPlot → Chart
  pub set_y_time_display : Chart → ui.F64 → Chart
  pub set_x_freq_display : Chart → ui.F64 → ui.F64 → ℕ → Chart
  pub clear_x_freq_display : Chart → Chart
  pub last_x_bounds : Chart → ui.F64 × ui.F64
  pub sync_x_bounds : Chart → ui.F64 × ui.F64 → Chart
  pub show : Chart → Gesture → Chart
  -- A QR code as its modules, whether each is dark, and its width; and `load_texture`, of the size and
  -- the bytes of an image.
  pub qr_encode : Str → List Bool × ℕ
  pub TextureHandle : Type 0
  pub load_texture : Str → ℕ × ℕ → List ℕ → TextureHandle
  -- Floats; `!=` of two bounds.
  pub ne_bounds : ui.F64 × ui.F64 → ui.F64 × ui.F64 → Bool
  pub mul64 : ui.F64 → ui.F64 → ui.F64
  pub div64 : ui.F64 → ui.F64 → ui.F64
  pub sub32 : ui.F32 → ui.F32 → ui.F32
  pub mul32 : ui.F32 → ui.F32 → ui.F32
  pub div32 : ui.F32 → ui.F32 → ui.F32
  pub lt32 : ui.F32 → ui.F32 → Bool
  pub f32_of_ℕ : ℕ → ui.F32

-- What egui reports in one frame. A slider, a checkbox or a drag value that changed gives its new
-- value, a text field the text that it holds after the frame's typing.
pub record Responses (ui : Ui) (gui : Gui ui) : Type 0 where
  -- The width of the screen is below `MOBILE_BREAKPOINT`.
  pub is_mobile : Bool
  pub terminal_clicked : Bool
  pub listen_clicked : Bool
  pub preset_clicked : ℕ → Bool
  pub region_clicked : ℕ → Bool
  pub sf_changed : Option ℕ
  pub signal_changed : Option ui.F32
  pub noise_changed : Option ui.F32
  pub tx_gain_changed : Option ui.F64
  pub rx_gain_changed : Option ui.F64
  pub auto_tx_changed : Option Bool
  pub interval_changed : Option ℕ
  pub pause_clicked : Bool
  pub defaults_clicked : Bool
  pub sim_clicked : Bool
  pub uhd_clicked : Bool
  pub args_typed : Str
  pub args_lost_focus : Bool
  pub freq_changed : Option ui.F64
  pub reset_clicked : Bool
  pub short_typed : Str
  pub short_lost_focus : Bool
  pub long_typed : Str
  pub long_lost_focus : Bool
  pub broadcast_clicked : Bool
  pub neighbour_clicked : ℕ → Bool
  pub dest_typed : Str
  pub dest_lost_focus : Bool
  pub msg_typed : Str
  pub msg_lost_focus : Bool
  pub enter_pressed : Bool
  pub send_clicked : Bool
  pub qr_clicked : Bool
  pub qr_stays_open : Bool
  pub menu_clicked : Bool
  pub drawer_clicked : Bool
  pub drawer_closed : Bool
  pub spectrum_gesture : gui.Gesture
  pub waterfall_gesture : gui.Gesture

pub record MeshSimApp (ui : Ui) (gui : Gui ui) : Type 0 where
  pub cmd_tx : List (Command ui)
  pub sf : ℕ
  pub signal_db : ui.F32
  pub noise_db : ui.F32
  pub interval_ms : ℕ
  pub preset_idx : ℕ
  pub region_idx : ℕ
  pub spectrum_chart : gui.Chart
  pub waterfall_chart : gui.Chart
  pub use_uhd : Bool
  pub uhd_args : Str
  pub uhd_freq_mhz : ui.F64
  pub uhd_rx_gain_db : ui.F64
  pub uhd_tx_gain_db : ui.F64
  pub uhd_warning : Option Str
  pub auto_tx : Bool
  pub msg_input : Str
  pub mode : SimMode
  pub node_short : Str
  pub node_long : Str
  pub tx_dest : ℕ
  pub tx_dest_input : Str
  pub last_synced_x : ui.F64 × ui.F64
  pub menu_open : Bool
  pub msg_drawer_open : Bool
  pub show_qr : Bool
  pub qr_texture : Option gui.TextureHandle

abbrev pub default_preset_idx : ℕ
default_preset_idx = 5

abbrev pub default_region_idx : ℕ
default_region_idx = 10

-- `PRESETS[i]` and `REGIONS[i]`, for an index in range; the code panics at another.
abbrev pub preset_at : ℕ → ModemPreset
preset_at i = get_or presets i long_fast

abbrev pub region_at : ℕ → Region
region_at i = get_or regions i taiwan

module _ {ℓ κ} {A : Type ℓ} {B : Type κ} where
  -- What a widget's new value, if it has one, makes of `v`.
  abbrev pub on_change : Option A → (A → B) → B → B
  on_change none f v = v
  on_change (some a) f v = f a

module _ (ui : Ui) (gui : Gui ui) where
  open ui use {F32, F64}

  abbrev pub int64 : ℤ → F64
  int64 z = ui.f64_of_ℤ z

  abbrev pub default_signal_db : F32
  default_signal_db = ui.f32_of_ℤ (ℤ.negsuc 19)

  abbrev pub default_noise_db : F32
  default_noise_db = ui.f32_of_ℤ (ℤ.negsuc 59)

  -- All bins of a spectrum.
  abbrev whole : F64 × F64
  whole = (int64 (ℤ.pos 0), ui.f64_of_ℕ fft_size)

  abbrev linked : gui.Chart → gui.Chart
  linked chart =
      gui.set_link_cursor (gui.set_link_axis chart (codes "mesh_link") true false)
        (codes "mesh_link") true false

  abbrev new_spectrum_chart : ui.SpectrumPlot → gui.Chart
  new_spectrum_chart plot =
      let wide = gui.set_x_limits (gui.chart_new (codes "spectrum")) whole in
      let tall = gui.set_y_limits wide (int64 (ℤ.negsuc 89), int64 (ℤ.pos 50)) in
      gui.add_spectrum (linked tall) plot

  abbrev new_waterfall_chart : ui.WaterfallPlot → gui.Chart
  new_waterfall_chart plot =
      let wide = gui.set_x_limits (gui.chart_new (codes "waterfall")) whole in
      let tall = gui.set_y_limits wide (int64 (ℤ.pos 0), int64 (ℤ.pos 1)) in
      let seconds =
        gui.div64 (gui.mul64 (ui.f64_of_ℕ fft_size) (int64 (ℤ.pos 512))) (ui.f64_of_ℕ sr_hz) in
      gui.set_y_time_display (gui.add_waterfall (linked tall) plot) seconds

  -- `MeshSimApp::new`, on a channel that holds `pending`.
  unfoldable pub new : ViewModel ui → List (Command ui) → MeshSimApp ui gui
  new shared pending = record {
    cmd_tx =
        if shared.use_uhd then pending ++ (set_auto_tx false ∷ set_mode listen ∷ []) else pending;
    sf = default_sf;
    signal_db = default_signal_db;
    noise_db = default_noise_db;
    interval_ms = default_interval_ms;
    preset_idx = default_preset_idx;
    region_idx = default_region_idx;
    spectrum_chart = new_spectrum_chart shared.spectrum_plot;
    waterfall_chart = new_waterfall_chart shared.waterfall_plot;
    use_uhd = shared.use_uhd;
    uhd_args = [];
    uhd_freq_mhz =
        ui.mhz_of_half_hz
          (channel_freq (region_at default_region_idx) (preset_at default_preset_idx).bw_hz);
    uhd_rx_gain_db = int64 (ℤ.pos 40);
    uhd_tx_gain_db = int64 (ℤ.pos 40);
    uhd_warning = none;
    auto_tx = not shared.use_uhd;
    msg_input = [];
    mode = listen;
    node_short = codes "TERM";
    node_long = codes "Mesh Terminal";
    tx_dest = broadcast;
    tx_dest_input = [];
    last_synced_x = whole;
    menu_open = false;
    msg_drawer_open = false;
    show_qr = false;
    qr_texture = none;
  }

  abbrev pub send : Command ui → MeshSimApp ui gui → MeshSimApp ui gui
  send cmd v = record v { cmd_tx = v.cmd_tx ++ (cmd ∷ []) }
