-- ===== src/Tests/WireCommand.antt =====
-- A wire format for commands.
use meshtastic_lora_rs.Common.{ℕ, ◌≡◌, refl, ap, Bool, true, false, [], ◌∷◌, if◌then◌else◌, ◌==◌}
use meshtastic_lora_rs.Common.Result.{Result, ok, err, Str, codes}
use meshtastic_lora_rs.Model.{
  SimMode, terminal, listen, Command, set_sf, set_signal_db, set_noise_db, set_interval_ms,
  set_mode, set_node_short, set_node_long, set_tx_dest, set_uhd_enabled, set_uhd_args,
  set_uhd_freq_hz, set_uhd_rx_gain_db, set_uhd_tx_gain_db, set_auto_tx, set_running, send_text,
  reset_stats,
}
use meshtastic_lora_rs.Tests.Concrete.{toy_ui}

abbrev pub bit : Bool → ℕ
bit true = 1
bit false = 0

abbrev pub mode_number : SimMode → ℕ
mode_number terminal = 0
mode_number listen = 1

abbrev pub mode_at : ℕ → SimMode
mode_at n = if n == 0 then terminal else listen

abbrev pub is_set : ℕ → Bool
is_set n = n == 1

pub is_set-bit : (b : Bool) → is_set (bit b) ≡ b
is_set-bit true = refl
is_set-bit false = refl

pub mode_at-number : (m : SimMode) → mode_at (mode_number m) ≡ m
mode_at-number terminal = refl
mode_at-number listen = refl

abbrev pub encode_command : Command toy_ui → Str
encode_command (set_sf n) = 0 ∷ n ∷ []
encode_command (set_signal_db n) = 1 ∷ n ∷ []
encode_command (set_noise_db n) = 2 ∷ n ∷ []
encode_command (set_interval_ms n) = 3 ∷ n ∷ []
encode_command (set_mode m) = 4 ∷ mode_number m ∷ []
encode_command (set_node_short s) = 5 ∷ 0 ∷ s
encode_command (set_node_long s) = 6 ∷ 0 ∷ s
encode_command (set_tx_dest n) = 7 ∷ n ∷ []
encode_command (set_uhd_enabled b) = 8 ∷ bit b ∷ []
encode_command (set_uhd_args s) = 9 ∷ 0 ∷ s
encode_command (set_uhd_freq_hz n) = 10 ∷ n ∷ []
encode_command (set_uhd_rx_gain_db n) = 11 ∷ n ∷ []
encode_command (set_uhd_tx_gain_db n) = 12 ∷ n ∷ []
encode_command (set_auto_tx b) = 13 ∷ bit b ∷ []
encode_command (set_running b) = 14 ∷ bit b ∷ []
encode_command (send_text s) = 15 ∷ 0 ∷ s
encode_command reset_stats = 16 ∷ 0 ∷ []

abbrev pick : ℕ → ℕ → Str → Command toy_ui
pick k n s =
    if k == 0
    then set_sf n
    else if k == 1
    then set_signal_db n
    else if k == 2
    then set_noise_db n
    else if k == 3
    then set_interval_ms n
    else if k == 4
    then set_mode (mode_at n)
    else if k == 5
    then set_node_short s
    else if k == 6
    then set_node_long s
    else if k == 7
    then set_tx_dest n
    else if k == 8
    then set_uhd_enabled (is_set n)
    else if k == 9
    then set_uhd_args s
    else if k == 10
    then set_uhd_freq_hz n
    else if k == 11
    then set_uhd_rx_gain_db n
    else if k == 12
    then set_uhd_tx_gain_db n
    else if k == 13
    then set_auto_tx (is_set n)
    else if k == 14
    then set_running (is_set n)
    else if k == 15
    then send_text s
    else reset_stats

abbrev pub decode_command : Str → Result Str (Command toy_ui)
decode_command (k ∷ n ∷ s) = ok (pick k n s)
decode_command _ = err (codes "EOF")

pub decode-encode_command : (cmd : Command toy_ui) → decode_command (encode_command cmd) ≡ ok cmd
decode-encode_command (set_sf n) = refl
decode-encode_command (set_signal_db n) = refl
decode-encode_command (set_noise_db n) = refl
decode-encode_command (set_interval_ms n) = refl
decode-encode_command (set_mode m) = ap (λ x. ok (set_mode x)) (mode_at-number m)
decode-encode_command (set_node_short s) = refl
decode-encode_command (set_node_long s) = refl
decode-encode_command (set_tx_dest n) = refl
decode-encode_command (set_uhd_enabled b) = ap (λ x. ok (set_uhd_enabled x)) (is_set-bit b)
decode-encode_command (set_uhd_args s) = refl
decode-encode_command (set_uhd_freq_hz n) = refl
decode-encode_command (set_uhd_rx_gain_db n) = refl
decode-encode_command (set_uhd_tx_gain_db n) = refl
decode-encode_command (set_auto_tx b) = ap (λ x. ok (set_auto_tx x)) (is_set-bit b)
decode-encode_command (set_running b) = ap (λ x. ok (set_running x)) (is_set-bit b)
decode-encode_command (send_text s) = refl
decode-encode_command reset_stats = refl
