-- ===== src/Model/Chosen.antt =====
-- What the users choose, as an abstract state of its own, and what each command makes of it.
use meshtastic_lora_rs.Common.{ℕ, ◌≡◌, refl, ap, ◌∙◌, Bool, List, [], ◌∷◌, ◌++◌}
use meshtastic_lora_rs.Common.Result.{Str}
use meshtastic_lora_rs.Model.{
  Ui, SimMode, ViewModel, Command, apply, apply_all, set_sf, set_signal_db, set_noise_db,
  set_interval_ms, set_mode, set_node_short, set_node_long, set_tx_dest, set_uhd_args,
  set_uhd_freq_hz, set_uhd_rx_gain_db, set_uhd_tx_gain_db, set_auto_tx, set_running,
  set_uhd_enabled, send_text, reset_stats,
}

pub record Chosen (ui : Ui) : Type 0 where
  pub mode : SimMode
  pub node_short : Str
  pub node_long : Str
  pub node_id : ℕ
  pub sf : ℕ
  pub signal_db : ui.F32
  pub noise_db : ui.F32
  pub interval_ms : ℕ
  pub auto_tx : Bool
  pub running : Bool
  pub tx_dest : ℕ
  pub uhd_args : Str
  pub uhd_freq_hz : ui.F64
  pub uhd_rx_gain_db : ui.F64
  pub uhd_tx_gain_db : ui.F64

module _ (ui : Ui) where
  abbrev pub chosen : ViewModel ui → Chosen ui
  chosen vm = record {
    mode = vm.mode;
    node_short = vm.node_short;
    node_long = vm.node_long;
    node_id = vm.node_id;
    sf = vm.sf;
    signal_db = vm.signal_db;
    noise_db = vm.noise_db;
    interval_ms = vm.interval_ms;
    auto_tx = vm.auto_tx;
    running = vm.running;
    tx_dest = vm.tx_dest;
    uhd_args = vm.uhd_args;
    uhd_freq_hz = vm.uhd_freq_hz;
    uhd_rx_gain_db = vm.uhd_rx_gain_db;
    uhd_tx_gain_db = vm.uhd_tx_gain_db;
  }

  -- The specification of a command: it sets the one choice that it names. Whether a device is in use
  -- is no choice of the users alone, a text is not kept, and the counters are not chosen.
  abbrev pub choose : Command ui → Chosen ui → Chosen ui
  choose (set_sf n) k = record k { sf = n }
  choose (set_signal_db v) k = record k { signal_db = v }
  choose (set_noise_db v) k = record k { noise_db = v }
  choose (set_interval_ms v) k = record k { interval_ms = v }
  choose (set_mode m) k = record k { mode = m }
  choose (set_node_short s) k = record k { node_short = s }
  choose (set_node_long s) k = record k { node_long = s }
  choose (set_tx_dest i) k = record k { tx_dest = i }
  choose (set_uhd_args s) k = record k { uhd_args = s }
  choose (set_uhd_freq_hz hz) k = record k { uhd_freq_hz = hz }
  choose (set_uhd_rx_gain_db v) k = record k { uhd_rx_gain_db = v }
  choose (set_uhd_tx_gain_db v) k = record k { uhd_tx_gain_db = v }
  choose (set_auto_tx on) k = record k { auto_tx = on }
  choose (set_running on) k = record k { running = on }
  choose (set_uhd_enabled on) k = k
  choose (send_text s) k = k
  choose reset_stats k = k

  abbrev pub choose_all : List (Command ui) → Chosen ui → Chosen ui
  choose_all [] k = k
  choose_all (cmd ∷ cmds) k = choose_all cmds (choose cmd k)

  chosen-apply :
      (cmd : Command ui) (vm : ViewModel ui) → chosen (apply ui cmd vm) ≡ choose cmd (chosen vm)
  unfolding apply
  chosen-apply (set_sf n) vm = refl
  chosen-apply (set_signal_db v) vm = refl
  chosen-apply (set_noise_db v) vm = refl
  chosen-apply (set_interval_ms v) vm = refl
  chosen-apply (set_mode m) vm = refl
  chosen-apply (set_node_short s) vm = refl
  chosen-apply (set_node_long s) vm = refl
  chosen-apply (set_tx_dest i) vm = refl
  chosen-apply (set_uhd_args s) vm = refl
  chosen-apply (set_uhd_freq_hz hz) vm = refl
  chosen-apply (set_uhd_rx_gain_db v) vm = refl
  chosen-apply (set_uhd_tx_gain_db v) vm = refl
  chosen-apply (set_auto_tx on) vm = refl
  chosen-apply (set_running on) vm = refl
  chosen-apply (set_uhd_enabled on) vm = refl
  chosen-apply (send_text s) vm = refl
  chosen-apply reset_stats vm = refl

  -- A run of commands does to the shared state what the specification says.
  pub chosen-apply_all :
      (cmds : List (Command ui)) (vm : ViewModel ui)
      → chosen (apply_all ui cmds vm) ≡ choose_all cmds (chosen vm)
  unfolding apply_all
  chosen-apply_all [] vm = refl
  chosen-apply_all (cmd ∷ cmds) vm =
      chosen-apply_all cmds (apply ui cmd vm) ∙ ap (choose_all cmds) (chosen-apply cmd vm)

  pub choose_all-append :
      (cmds more : List (Command ui)) (k : Chosen ui)
      → choose_all (cmds ++ more) k ≡ choose_all more (choose_all cmds k)
  choose_all-append [] more k = refl
  choose_all-append (cmd ∷ cmds) more k = choose_all-append cmds more (choose cmd k)
