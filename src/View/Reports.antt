-- ===== src/View/Reports.antt =====
-- What the interface shows of the radio's settings, what a command makes of them, and when a step of
-- the interface reports every change of them.
use mathlib.Core.List.{append_assoc, append-nil}
use meshtastic_lora_rs.Presets.{presets, regions}
use meshtastic_lora_rs.Common.{
  ◌<◌, length, subst, ℕ, ◌≡◌, refl, sym, ap, ◌∙◌, Bool, true, false, List, [], ◌∷◌, ◌++◌, Option,
  none, some, if◌then◌else◌,
}
use meshtastic_lora_rs.Model.{
  Ui, SimMode, Command, set_sf, set_signal_db, set_noise_db, set_interval_ms, set_mode,
  set_node_short, set_node_long, set_tx_dest, set_uhd_args, set_uhd_freq_hz, set_uhd_rx_gain_db,
  set_uhd_tx_gain_db, set_auto_tx, set_running, set_uhd_enabled, send_text, reset_stats,
}
use meshtastic_lora_rs.Model.Chosen.{Chosen, choose, choose_all}
use meshtastic_lora_rs.View.{Gui, on_change}
use meshtastic_lora_rs.View.Settings.{App}

pub record Shown (ui : Ui) : Type 0 where
  pub mode : SimMode
  pub sf : ℕ
  pub signal_db : ui.F32
  pub noise_db : ui.F32
  pub interval_ms : ℕ
  pub auto_tx : Bool
  pub tx_dest : ℕ
  pub freq_hz : ui.F64
  pub rx_gain_db : ui.F64
  pub tx_gain_db : ui.F64

module _ (ui : Ui) where
  -- The settings among the users' choices.
  abbrev pub shown_of : Chosen ui → Shown ui
  shown_of k = record {
    mode = k.mode;
    sf = k.sf;
    signal_db = k.signal_db;
    noise_db = k.noise_db;
    interval_ms = k.interval_ms;
    auto_tx = k.auto_tx;
    tx_dest = k.tx_dest;
    freq_hz = k.uhd_freq_hz;
    rx_gain_db = k.uhd_rx_gain_db;
    tx_gain_db = k.uhd_tx_gain_db;
  }

  -- What a command makes of the settings.
  abbrev pub show : Command ui → Shown ui → Shown ui
  show (set_mode m) k = record k { mode = m }
  show (set_sf n) k = record k { sf = n }
  show (set_signal_db v) k = record k { signal_db = v }
  show (set_noise_db v) k = record k { noise_db = v }
  show (set_interval_ms v) k = record k { interval_ms = v }
  show (set_auto_tx on) k = record k { auto_tx = on }
  show (set_tx_dest i) k = record k { tx_dest = i }
  show (set_uhd_freq_hz hz) k = record k { freq_hz = hz }
  show (set_uhd_rx_gain_db v) k = record k { rx_gain_db = v }
  show (set_uhd_tx_gain_db v) k = record k { tx_gain_db = v }
  show _ k = k

  -- The commands that set nothing that is shown.
  abbrev pub is_beside : Command ui → Bool
  is_beside (set_node_short s) = true
  is_beside (set_node_long s) = true
  is_beside (set_uhd_args s) = true
  is_beside (set_uhd_enabled on) = true
  is_beside (set_running on) = true
  is_beside (send_text s) = true
  is_beside reset_stats = true
  is_beside _ = false

  pub show-is_beside : (cmd : Command ui) (k : Shown ui) → is_beside cmd ≡ true → show cmd k ≡ k
  show-is_beside (set_node_short s) k h = refl
  show-is_beside (set_node_long s) k h = refl
  show-is_beside (set_uhd_args s) k h = refl
  show-is_beside (set_uhd_enabled on) k h = refl
  show-is_beside (set_running on) k h = refl
  show-is_beside (send_text s) k h = refl
  show-is_beside reset_stats k h = refl
  show-is_beside (set_mode m) k h = cc
  show-is_beside (set_sf n) k h = cc
  show-is_beside (set_signal_db v) k h = cc
  show-is_beside (set_noise_db v) k h = cc
  show-is_beside (set_interval_ms v) k h = cc
  show-is_beside (set_auto_tx on) k h = cc
  show-is_beside (set_tx_dest i) k h = cc
  show-is_beside (set_uhd_freq_hz hz) k h = cc
  show-is_beside (set_uhd_rx_gain_db v) k h = cc
  show-is_beside (set_uhd_tx_gain_db v) k h = cc

  abbrev pub show_all : List (Command ui) → Shown ui → Shown ui
  show_all [] k = k
  show_all (cmd ∷ cmds) k = show_all cmds (show cmd k)

  show_all-append :
      (cmds more : List (Command ui)) (k : Shown ui)
      → show_all (cmds ++ more) k ≡ show_all more (show_all cmds k)
  show_all-append [] more k = refl
  show_all-append (cmd ∷ cmds) more k = show_all-append cmds more (show cmd k)

  shown_of-choose :
      (cmd : Command ui) (k : Chosen ui) → shown_of (choose ui cmd k) ≡ show cmd (shown_of k)
  shown_of-choose (set_sf n) k = refl
  shown_of-choose (set_signal_db v) k = refl
  shown_of-choose (set_noise_db v) k = refl
  shown_of-choose (set_interval_ms v) k = refl
  shown_of-choose (set_mode m) k = refl
  shown_of-choose (set_node_short s) k = refl
  shown_of-choose (set_node_long s) k = refl
  shown_of-choose (set_tx_dest i) k = refl
  shown_of-choose (set_uhd_args s) k = refl
  shown_of-choose (set_uhd_freq_hz hz) k = refl
  shown_of-choose (set_uhd_rx_gain_db v) k = refl
  shown_of-choose (set_uhd_tx_gain_db v) k = refl
  shown_of-choose (set_auto_tx on) k = refl
  shown_of-choose (set_running on) k = refl
  shown_of-choose (set_uhd_enabled on) k = refl
  shown_of-choose (send_text s) k = refl
  shown_of-choose reset_stats k = refl

  pub shown_of-choose_all :
      (cmds : List (Command ui)) (k : Chosen ui)
      → shown_of (choose_all ui cmds k) ≡ show_all cmds (shown_of k)
  shown_of-choose_all [] k = refl
  shown_of-choose_all (cmd ∷ cmds) k =
      shown_of-choose_all cmds (choose ui cmd k) ∙ ap (show_all cmds) (shown_of-choose cmd k)

module _ (ui : Ui) (gui : Gui ui) where
  -- The settings that the interface shows.
  abbrev pub shown : App ui gui → Shown ui
  shown v = record {
    mode = v.mode;
    sf = v.sf;
    signal_db = v.signal_db;
    noise_db = v.noise_db;
    interval_ms = v.interval_ms;
    auto_tx = v.auto_tx;
    tx_dest = v.tx_dest;
    freq_hz = ui.times_1e6 v.uhd_freq_mhz;
    rx_gain_db = v.uhd_rx_gain_db;
    tx_gain_db = v.uhd_tx_gain_db;
  }

  -- The selected preset and region are in their tables.
  unfoldable pub IsInRange : App ui gui → Type 0
  IsInRange v = (v.preset_idx < length presets) × (v.region_idx < length regions)

  -- A step sends commands that make of the settings before it those after it, and keeps the indices in
  -- range.
  unfoldable pub Reports : App ui gui → App ui gui → Type 0
  Reports v v' =
      (cmds : List (Command ui)) × (v'.cmd_tx ≡ v.cmd_tx ++ cmds)
      × (shown v' ≡ show_all ui cmds (shown v))
      × (IsInRange v → IsInRange v')

  pub Reports-trans : (v v₁ v₂ : App ui gui) → Reports v v₁ → Reports v₁ v₂ → Reports v v₂
  unfolding Reports
  Reports-trans v v₁ v₂ (cmds, sent, same, keep) (cmds₁, sent₁, same₁, keep₁) = (
    cmds ++ cmds₁,
    sent₁ ∙ ap (λ q. q ++ cmds₁) sent ∙ append_assoc v.cmd_tx cmds cmds₁,
    same₁ ∙ ap (show_all ui cmds₁) same ∙ sym (show_all-append ui cmds cmds₁ (shown v)),
    λ h. keep₁ (keep h),
  )

  abbrev pub indices : App ui gui → ℕ × ℕ
  indices v = (v.preset_idx, v.region_idx)

  same_indices : (v v' : App ui gui) → indices v' ≡ indices v → IsInRange v → IsInRange v'
  unfolding IsInRange
  same_indices v v' same h =
      subst (λ (i : ℕ × ℕ). (i.0 < length presets) × (i.1 < length regions)) (sym same) h

  -- Nothing is sent, and nothing that is shown changes.
  pub Reports-pick :
      (v v' : App ui gui)
      → v'.cmd_tx ≡ v.cmd_tx
      → shown v' ≡ shown v
      → (IsInRange v → IsInRange v')
      → Reports v v'
  unfolding Reports
  Reports-pick v v' sent same keep = ([], sent ∙ sym (append-nil v.cmd_tx), same, keep)

  pub Reports-same :
      (v v' : App ui gui)
      → v'.cmd_tx ≡ v.cmd_tx
      → shown v' ≡ shown v
      → indices v' ≡ indices v
      → Reports v v'
  Reports-same v v' sent same kept = Reports-pick v v' sent same (same_indices v v' kept)

  -- What counts of a state.
  abbrev pub quiet : App ui gui → List (Command ui) × Shown ui × (ℕ × ℕ)
  quiet v = (v.cmd_tx, shown v, indices v)

  pub Reports-quiet : (v v' : App ui gui) → quiet v' ≡ quiet v → Reports v v'
  Reports-quiet v v' same =
      Reports-same v v' (ap (λ q. q.0) same) (ap (λ q. q.1) same) (ap (λ q. q.2) same)

  -- One command reports the change.
  pub Reports-one :
      (v v' : App ui gui) (cmd : Command ui)
      → v'.cmd_tx ≡ v.cmd_tx ++ (cmd ∷ [])
      → shown v' ≡ show ui cmd (shown v)
      → indices v' ≡ indices v
      → Reports v v'
  unfolding Reports
  Reports-one v v' cmd sent same kept = (cmd ∷ [], sent, same, same_indices v v' kept)

  -- Either branch of a test, and what a widget does that may have changed.
  pub if-Reports :
      (b : Bool) (v v₁ v₂ : App ui gui)
      → Reports v v₁
      → Reports v v₂
      → Reports v (if b then v₁ else v₂)
  if-Reports true v v₁ v₂ p q = p
  if-Reports false v v₁ v₂ p q = q

  pub on_change-Reports {ℓ} :
      {A : Type ℓ} (o : Option A) (f : A → App ui gui) (v v₁ : App ui gui)
      → ((a : A) → Reports v (f a))
      → Reports v v₁
      → Reports v (on_change o f v₁)
  on_change-Reports none f v v₁ p q = q
  on_change-Reports (some a) f v v₁ p q = p a
