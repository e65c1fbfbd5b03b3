-- ===== src/Model/Commands.antt =====
-- What a run of commands does to the shared state.
use mathlib.Core.List.{append-nil, append_assoc}
use meshtastic_lora_rs.Common.{
  ℕ, ◌≡◌, refl, ap, sym, ◌∙◌, Bool, false, List, [], ◌∷◌, ◌++◌, Option, none, some, Bool-cases, inl,
  inr, if◌then◌else◌,
}
use meshtastic_lora_rs.Common.Result.{Str}
use meshtastic_lora_rs.Model.{
  Ui, SimMode, ViewModel, Command, apply, apply_all, raised_if, set_sf, set_signal_db, set_noise_db,
  set_interval_ms, set_mode, set_node_short, set_node_long, set_tx_dest, set_uhd_enabled,
  set_uhd_args, set_uhd_freq_hz, set_uhd_rx_gain_db, set_uhd_tx_gain_db, set_auto_tx, set_running,
  send_text, reset_stats,
}

module _ (ui : Ui) where
  open ui use {F64}

  -- What the node is built from, and its mode.
  abbrev pub identity : ViewModel ui → SimMode × Str × Str × ℕ
  identity vm = (vm.mode, vm.node_short, vm.node_long, vm.node_id)

  -- Whether a UHD device is in use, and what it is opened with if it is.
  abbrev pub device : ViewModel ui → Bool × Option (Str × F64)
  device vm = (vm.use_uhd, if vm.use_uhd then some (vm.uhd_args, vm.uhd_freq_hz) else none)

  abbrev pub text_of : Command ui → List Str
  text_of (send_text s) = s ∷ []
  text_of _ = []

  -- The texts that a run of commands sends.
  abbrev pub texts : List (Command ui) → List Str
  texts [] = []
  texts (cmd ∷ cmds) = text_of cmd ++ texts cmds

  apply-identity :
      (cmd : Command ui) (vm : ViewModel ui)
      → (apply ui cmd vm).rebuild_nodes ≡ false
      → (vm.rebuild_nodes ≡ false) × (identity (apply ui cmd vm) ≡ identity vm)
  unfolding apply
  apply-identity (set_sf n) vm h = (h, refl)
  apply-identity (set_signal_db v) vm h = (h, refl)
  apply-identity (set_noise_db v) vm h = (h, refl)
  apply-identity (set_interval_ms v) vm h = (h, refl)
  apply-identity (set_mode m) vm h = cc
  apply-identity (set_node_short s) vm h = cc
  apply-identity (set_node_long s) vm h = cc
  apply-identity (set_tx_dest i) vm h = (h, refl)
  apply-identity (set_uhd_enabled on) vm h = (h, refl)
  apply-identity (set_uhd_args s) vm h = (h, refl)
  apply-identity (set_uhd_freq_hz hz) vm h = (h, refl)
  apply-identity (set_uhd_rx_gain_db v) vm h = (h, refl)
  apply-identity (set_uhd_tx_gain_db v) vm h = (h, refl)
  apply-identity (set_auto_tx on) vm h = (h, refl)
  apply-identity (set_running on) vm h = (h, refl)
  apply-identity (send_text s) vm h = (h, refl)
  apply-identity reset_stats vm h = (h, refl)

  idle_device :
      (vm : ViewModel ui) {P : Type 0}
      → raised_if ui vm.use_uhd vm.rebuild_driver ≡ false
      → (vm.use_uhd ≡ false → P)
      → (vm.rebuild_driver ≡ false) × P
  idle_device vm h k = elim (Bool-cases vm.use_uhd) [
    | inl used ↦ cc (rw used at h)
    | inr idle ↦ (rw idle at h, k idle)
  ]

  apply-device :
      (cmd : Command ui) (vm : ViewModel ui)
      → (apply ui cmd vm).rebuild_driver ≡ false
      → (vm.rebuild_driver ≡ false) × (device (apply ui cmd vm) ≡ device vm)
  unfolding apply
  apply-device (set_sf n) vm h = (h, refl)
  apply-device (set_signal_db v) vm h = (h, refl)
  apply-device (set_noise_db v) vm h = (h, refl)
  apply-device (set_interval_ms v) vm h = (h, refl)
  apply-device (set_mode m) vm h = (h, refl)
  apply-device (set_node_short s) vm h = (h, refl)
  apply-device (set_node_long s) vm h = (h, refl)
  apply-device (set_tx_dest i) vm h = (h, refl)
  apply-device (set_uhd_enabled on) vm h = cc
  apply-device (set_uhd_args s) vm h = idle_device vm h (λ idle. rw idle refl)
  apply-device (set_uhd_freq_hz hz) vm h = idle_device vm h (λ idle. rw idle refl)
  apply-device (set_uhd_rx_gain_db v) vm h = (h, refl)
  apply-device (set_uhd_tx_gain_db v) vm h = (h, refl)
  apply-device (set_auto_tx on) vm h = (h, refl)
  apply-device (set_running on) vm h = (h, refl)
  apply-device (send_text s) vm h = (h, refl)
  apply-device reset_stats vm h = (h, refl)

  -- A run of commands that leaves `rebuild_nodes` down found it down and has changed neither the mode
  -- nor the names nor the id that the node is built from.
  pub apply_all-identity :
      (cmds : List (Command ui)) (vm : ViewModel ui)
      → (apply_all ui cmds vm).rebuild_nodes ≡ false
      → (vm.rebuild_nodes ≡ false) × (identity (apply_all ui cmds vm) ≡ identity vm)
  unfolding apply_all
  apply_all-identity [] vm h = (h, refl)
  apply_all-identity (cmd ∷ cmds) vm h =
      let (later, same) = apply_all-identity cmds (apply ui cmd vm) h in
      let (now, same_now) = apply-identity cmd vm later in (now, same ∙ same_now)

  -- A run of commands that leaves `rebuild_driver` down found it down, and has changed neither whether
  -- a UHD device is in use nor, if one is, the arguments and the frequency it is opened with.
  pub apply_all-device :
      (cmds : List (Command ui)) (vm : ViewModel ui)
      → (apply_all ui cmds vm).rebuild_driver ≡ false
      → (vm.rebuild_driver ≡ false) × (device (apply_all ui cmds vm) ≡ device vm)
  unfolding apply_all
  apply_all-device [] vm h = (h, refl)
  apply_all-device (cmd ∷ cmds) vm h =
      let (later, same) = apply_all-device cmds (apply ui cmd vm) h in
      let (now, same_now) = apply-device cmd vm later in (now, same ∙ same_now)

  apply-queue :
      (cmd : Command ui) (vm : ViewModel ui)
      → (apply ui cmd vm).tx_queue ≡ vm.tx_queue ++ text_of cmd
  unfolding apply
  apply-queue (set_sf n) vm = sym (append-nil vm.tx_queue)
  apply-queue (set_signal_db v) vm = sym (append-nil vm.tx_queue)
  apply-queue (set_noise_db v) vm = sym (append-nil vm.tx_queue)
  apply-queue (set_interval_ms v) vm = sym (append-nil vm.tx_queue)
  apply-queue (set_mode m) vm = sym (append-nil vm.tx_queue)
  apply-queue (set_node_short s) vm = sym (append-nil vm.tx_queue)
  apply-queue (set_node_long s) vm = sym (append-nil vm.tx_queue)
  apply-queue (set_tx_dest i) vm = sym (append-nil vm.tx_queue)
  apply-queue (set_uhd_enabled on) vm = sym (append-nil vm.tx_queue)
  apply-queue (set_uhd_args s) vm = sym (append-nil vm.tx_queue)
  apply-queue (set_uhd_freq_hz hz) vm = sym (append-nil vm.tx_queue)
  apply-queue (set_uhd_rx_gain_db v) vm = sym (append-nil vm.tx_queue)
  apply-queue (set_uhd_tx_gain_db v) vm = sym (append-nil vm.tx_queue)
  apply-queue (set_auto_tx on) vm = sym (append-nil vm.tx_queue)
  apply-queue (set_running on) vm = sym (append-nil vm.tx_queue)
  apply-queue (send_text s) vm = refl
  apply-queue reset_stats vm = sym (append-nil vm.tx_queue)

  -- The texts that a run of commands sends join the queue at its end, in their order, and nothing
  -- else does.
  pub apply_all-queue :
      (cmds : List (Command ui)) (vm : ViewModel ui)
      → (apply_all ui cmds vm).tx_queue ≡ vm.tx_queue ++ texts cmds
  unfolding apply_all
  apply_all-queue [] vm = sym (append-nil vm.tx_queue)
  apply_all-queue (cmd ∷ cmds) vm =
      apply_all-queue cmds (apply ui cmd vm)
      ∙ ap (λ q. q ++ texts cmds) (apply-queue cmd vm)
      ∙ append_assoc vm.tx_queue (text_of cmd) (texts cmds)
