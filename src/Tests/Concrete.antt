-- ===== src/Tests/Concrete.antt =====
-- Concrete parameters: a stream cipher, message types with a codec, and three nodes.
use Prim.Native.Nat.{max}
use meshtastic_lora_rs.Common.{
  ℕ, ◌+◌, ◌-◌, ◌*◌, ◌/◌, ◌%◌, ◌^◌, ◌≡◌, refl, ap, List, [], ◌∷◌, ◌++◌, length, take, drop, arith,
  foldl,
}
use meshtastic_lora_rs.Common.Bytes.{IsByte}
use meshtastic_lora_rs.Common.Result.{Result, ok, err, Str, codes}
use meshtastic_lora_rs.Mac.Crypto.{Cipher, IsStreamCipher, xor_from}
use meshtastic_lora_rs.Mac.DutyCycle.{Floats}
use meshtastic_lora_rs.Model.{Ui}
use meshtastic_lora_rs.Radio.{Lora, StreamDecodeResult, decode_ok, no_frame}
use meshtastic_lora_rs.Common.{ltb, not, ◌==◌, ◌&&◌, false, true, none, some}
use meshtastic_lora_rs.View.{Gui, Responses}
use meshtastic_lora_rs.Proto.{Proto, IsCodec}
use meshtastic_lora_rs.App.{MeshNode, with_id, default_channel}

abbrev toy_stream : List ℕ → List ℕ → ℕ → ℕ
toy_stream key iv i = (foldl (λ a b. a + b) i key + foldl (λ a b. a + b) 0 iv) % 256

abbrev pub toy_cipher : Cipher
toy_cipher = record { apply_keystream = λ key iv buf. xor_from (toy_stream key iv) 0 buf }

pub toy_cipher-IsStreamCipher : IsStreamCipher toy_cipher
toy_cipher-IsStreamCipher = record {
  stream = toy_stream;
  stream-IsByte = toy_stream-IsByte;
  xors = λ key iv buf. refl;
}
  where
    toy_stream-IsByte : (key iv : List ℕ) (i : ℕ) → IsByte (toy_stream key iv i)
    toy_stream-IsByte key iv i = omega arith

pub take-length : (l s : Str) → take (length l) (l ++ s) ≡ l
take-length [] s = refl
take-length (x ∷ l) s = ap (λ r. x ∷ r) (take-length l s)

pub drop-length : (l s : Str) → drop (length l) (l ++ s) ≡ s
drop-length [] s = refl
drop-length (x ∷ l) s = drop-length l s

-- Messages as pairs; a user is a long and a short name.
abbrev decode_pair : List ℕ → Result (Unit {0}) (ℕ × List ℕ)
decode_pair [] = err tt
decode_pair (p ∷ bs) = ok (p, bs)

abbrev decode_names : List ℕ → Result (Unit {0}) (Str × Str)
decode_names [] = err tt
decode_names (k ∷ bs) = ok (take k bs, drop k bs)

abbrev pub toy_proto : Proto
toy_proto = record {
  Data = ℕ × List ℕ;
  User = Str × Str;
  DecodeError = Unit {0};
  new_data = λ p bs. (p, bs);
  portnum = λ d. d.0;
  payload = λ d. d.1;
  new_user = λ i l s. (l, s);
  short_name = λ u. u.1;
  long_name = λ u. u.0;
  encode_data = λ d. d.0 ∷ d.1;
  decode_data = decode_pair;
  encode_user = λ u. length u.0 ∷ (u.0 ++ u.1);
  decode_user_bytes = decode_names;
  error_text = λ e. [];
  text_message_app = 1;
  nodeinfo_app = 4;
}

pub toy_proto-IsCodec : IsCodec toy_proto
toy_proto-IsCodec = record {
  portnum-new_data = λ p bs. refl;
  payload-new_data = λ p bs. refl;
  short_name-new_user = λ i l s. refl;
  long_name-new_user = λ i l s. refl;
  decode-encode_data = λ d. refl;
  decode-encode_user = λ u. names u.0 u.1;
}
  where
    names : (l s : Str) → decode_names (length l ∷ (l ++ s)) ≡ ok (l, s)
    names l s = λ i. ok (take-length l s i, drop-length l s i)

-- Floats by natural numbers.
abbrev pub toy_floats : Floats
toy_floats = record {
  F64 = ℕ;
  of_ℕ = λ n. n;
  hundredth = 0;
  four_and_a_quarter = 4;
  add = λ a b. a + b;
  sub = λ a b. a - b;
  mul = λ a b. a * b;
  div = λ a b. a / b;
  max = max;
  ceil = λ a. a;
  from_secs_f64 = λ a. some (a * 10 ^ 9);
}

abbrev pub alice : MeshNode
alice = with_id default_channel 1 (codes "AL") (codes "Alice")

abbrev pub bob : MeshNode
bob = with_id default_channel 2 (codes "BO") (codes "Bob")

-- Numbers for floats, and plots that keep the last spectrum.
abbrev pub toy_ui : Ui
toy_ui = record {
  F32 = ℕ;
  F64 = ℕ;
  f32_of_ℤ = λ z. 0;
  f64_of_ℤ = λ z. 0;
  mhz_of_half_hz = λ n. n;
  times_1e6 = λ f. f * 1_000_000;
  f64_of_f32 = λ n. n;
  f64_of_ℕ = λ n. n;
  SpectrumPlot = List (ℕ × ℕ);
  WaterfallPlot = List (ℕ × ℕ);
  spectrum_plot_new = [];
  waterfall_plot_new = [];
  spectrum_update = λ plot spec. spec;
  waterfall_update = λ plot spec. spec;
}

-- A loopback: the driver gives back what was pushed, and the modem finds a frame in every sample.
abbrev toy_decode : List ℕ → StreamDecodeResult toy_ui
toy_decode [] = no_frame
toy_decode (x ∷ xs) = decode_ok (take x xs) 1 0

abbrev pub toy_lora : Lora toy_ui
toy_lora = record {
  W = ℕ;
  local_time = λ w. ((12, 0, 5), w);
  random_u32 = λ w. (w % 4_294_967_296, w + 1);
  Sample = ℕ;
  Driver = List ℕ;
  channel_new = λ n s. [];
  uhd_new = λ a f s b r t w. (err (codes "no device"), w);
  is_parkable = λ d. false;
  park = λ d. d;
  unpark = λ d f s b r t. d;
  set_signal_amp = λ d a. d;
  set_noise_sigma = λ d a. d;
  set_hw_rx_gain = λ d g. d;
  set_hw_tx_gain = λ d g. d;
  clear = λ d. [];
  push_samples = λ d xs. d ++ xs;
  driver_tick = λ d n w. ((d, []), w);
  Tx = ℕ;
  tx_new = λ sf cr os sw p. sf;
  modulate = λ t bs. length bs ∷ bs;
  Rx = ℕ;
  rx_new_with_freq = λ sf cr os sw p f b. sf;
  set_center_freq_hz = λ r f. r;
  decode_streaming = λ r buf. (toy_decode buf, r);
  SpectrumAnalyzer = Unit {0};
  analyzer_new = λ n. tt;
  compute = λ a block. ([], a);
  sqrt_2 = 1;
  div32 = λ a b. a;
  powf = λ a b. a;
  nan = 0;
  mul64 = λ a b. a * b;
  div64 = λ a b. a / b;
  abs64 = λ a. a;
  gt64 = λ a b. ltb b a;
  ne64 = λ a b. not (a == b);
  f32_of_f64 = λ a. a;
  signed_text = λ a. [];
}

-- Charts that keep the range they were given last, and the quarter of a QR code.
abbrev pub toy_gui : Gui toy_ui
toy_gui = record {
  Chart = ℕ × ℕ;
  Gesture = ℕ × ℕ;
  chart_new = λ name. (0, 0);
  set_x_limits = λ chart x. x;
  set_y_limits = λ chart y. chart;
  set_link_axis = λ chart name x y. chart;
  set_link_cursor = λ chart name x y. chart;
  add_spectrum = λ chart plot. chart;
  add_waterfall = λ chart plot. chart;
  set_y_time_display = λ chart secs. chart;
  set_x_freq_display = λ chart center bw fft. chart;
  clear_x_freq_display = λ chart. chart;
  last_x_bounds = λ chart. chart;
  sync_x_bounds = λ chart x. x;
  show = λ chart gesture. gesture;
  qr_encode = λ text. (true ∷ false ∷ false ∷ true ∷ [], 2);
  TextureHandle = List ℕ;
  load_texture = λ name size bytes. bytes;
  ne_bounds = λ x y. not (x.0 == y.0 && x.1 == y.1);
  mul64 = λ a b. a * b;
  div64 = λ a b. a / b;
  sub32 = λ a b. a - b;
  mul32 = λ a b. a * b;
  div32 = λ a b. a / b;
  lt32 = λ a b. ltb a b;
  f32_of_ℕ = λ n. n;
}

-- A frame in which nothing happens.
abbrev pub idle : Responses toy_ui toy_gui
idle = record {
  is_mobile = false;
  terminal_clicked = false;
  listen_clicked = false;
  preset_clicked = λ i. false;
  region_clicked = λ i. false;
  sf_changed = none;
  signal_changed = none;
  noise_changed = none;
  tx_gain_changed = none;
  rx_gain_changed = none;
  auto_tx_changed = none;
  interval_changed = none;
  pause_clicked = false;
  defaults_clicked = false;
  sim_clicked = false;
  uhd_clicked = false;
  args_typed = [];
  args_lost_focus = false;
  freq_changed = none;
  reset_clicked = false;
  short_typed = codes "TERM";
  short_lost_focus = false;
  long_typed = codes "Mesh Terminal";
  long_lost_focus = false;
  broadcast_clicked = false;
  neighbour_clicked = λ i. false;
  dest_typed = [];
  dest_lost_focus = false;
  msg_typed = [];
  msg_lost_focus = false;
  enter_pressed = false;
  send_clicked = false;
  qr_clicked = false;
  qr_stays_open = false;
  menu_clicked = false;
  drawer_clicked = false;
  drawer_closed = false;
  spectrum_gesture = (0, 2048);
  waterfall_gesture = (0, 2048);
}
