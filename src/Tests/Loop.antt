-- ===== src/Tests/Loop.antt =====
-- The radio loop over a loopback driver.
use meshtastic_lora_rs.Common.{ℕ, ◌<◌, ◌≤◌, ◌≡◌, refl, true, false, List, [], ◌∷◌, length, arith}
use meshtastic_lora_rs.Common.Result.{codes}
use meshtastic_lora_rs.Model
use meshtastic_lora_rs.Model.{
  ViewModel, Command, send_text, set_mode, set_node_short, terminal, apply_all,
}
use meshtastic_lora_rs.Radio.{Loop, samples_per_tick}
use meshtastic_lora_rs.Radio.Decode.{decode_loop, is_over}
use meshtastic_lora_rs.Common.{replicate}
use meshtastic_lora_rs.Model.{listen}
use meshtastic_lora_rs.Radio.{wrap64}
use meshtastic_lora_rs.Radio.Plan.{joined, beacon_of, queued_of, auto_of}
use meshtastic_lora_rs.Radio.Typed.{on_air}
use meshtastic_lora_rs.Radio.Sending.{send_phases-Pushed}
use meshtastic_lora_rs.App.{build_text_frame, build_frame}
use meshtastic_lora_rs.Radio.Tick.{send_phases}
use meshtastic_lora_rs.Common.{◌+◌}
use meshtastic_lora_rs.Radio.Ending.{IsConsuming, consumed_of, decode_loop-ends}
use meshtastic_lora_rs.Radio.Turns.{
  IsNamed, IsCurrent, commanded, tick-IsNamed, tick-silent, start-IsCurrent,
}
use meshtastic_lora_rs.Radio.Tick.{initial, start, settle, tick}
use meshtastic_lora_rs.Tests.Concrete.{toy_cipher, toy_proto, toy_ui, toy_lora}

abbrev pub begun : Loop toy_ui toy_lora
begun = start toy_ui toy_lora [] 0 (Model.new toy_ui 7)

begun-IsCurrent : IsCurrent toy_proto toy_cipher toy_ui toy_lora begun
begun-IsCurrent = start-IsCurrent toy_proto toy_cipher toy_ui toy_lora [] 0 (Model.new toy_ui 7)

abbrev typed : List (Command toy_ui)
typed = send_text (codes "hi") ∷ set_node_short (codes "X") ∷ []

abbrev after_one : Loop toy_ui toy_lora
after_one = tick toy_proto toy_cipher toy_ui toy_lora typed begun

runs_on : (apply_all toy_ui typed begun.vm).running ≡ true
unfolding apply_all start initial
runs_on = refl

tick-IsNamed_example :
    IsNamed toy_proto toy_cipher toy_ui toy_lora after_one × (after_one.vm.rebuild_nodes ≡ false)
tick-IsNamed_example =
    tick-IsNamed toy_proto toy_cipher toy_ui toy_lora typed begun begun-IsCurrent runs_on

tick-silent_example :
    (w : ℕ) × (after_one.driver
      ≡ (toy_lora.driver_tick
          (settle toy_ui toy_lora
            (commanded toy_proto toy_cipher toy_ui toy_lora typed begun)).driver
          samples_per_tick
          w).0.1)
tick-silent_example =
    tick-silent toy_proto toy_cipher toy_ui toy_lora typed begun begun-IsCurrent runs_on
      (unfold apply_all start initial in refl)

toy_consumes :
    (buffer : List ℕ)
    → is_over toy_proto toy_cipher toy_ui toy_lora (toy_lora.decode_streaming 0 buffer).0 ≡ false
    → (0 < consumed_of (toy_lora.decode_streaming 0 buffer).0)
      × (consumed_of (toy_lora.decode_streaming 0 buffer).0 ≤ length buffer)
toy_consumes [] more = cc
toy_consumes (x ∷ xs) more = (omega arith, omega arith)

toy-IsConsuming : IsConsuming toy_proto toy_cipher toy_ui toy_lora
toy-IsConsuming = record { consumes = λ modem buffer more. toy_consumes buffer more }

abbrev loaded : Loop toy_ui toy_lora
loaded = record begun { rx_buffer = 2 ∷ 5 ∷ 6 ∷ [] }

decode_loop-ends_example : (decode_loop toy_proto toy_cipher toy_ui toy_lora 4 loaded).0 ≡ true
decode_loop-ends_example =
    decode_loop-ends toy_proto toy_cipher toy_ui toy_lora toy-IsConsuming 4 loaded (omega arith)

-- A text that fits, one that does not, and one more.
abbrev queued : Loop toy_ui toy_lora
queued = record begun {
  vm = record begun.vm {
    mode = terminal;
    tx_queue = codes "hi" ∷ replicate 300 0x61 ∷ codes "ho" ∷ [];
  };
}

send_phases-Pushed_example :
    let frames =
      joined toy_proto toy_cipher toy_ui toy_lora
        (beacon_of toy_proto toy_cipher toy_ui toy_lora queued)
        (queued_of toy_proto toy_cipher toy_ui toy_lora queued)
        (auto_of toy_proto toy_cipher toy_ui toy_lora queued) in
    let s = send_phases toy_proto toy_cipher toy_ui toy_lora queued in
    ((s.driver ≡ on_air toy_proto toy_cipher toy_ui toy_lora queued.tx_modem queued.driver frames.0)
      × (s.world ≡ frames.1)
      × (s.vm.tx_count
          ≡ wrap64 (
              queued.vm.tx_count
              + (length (queued_of toy_proto toy_cipher toy_ui toy_lora queued).0
                  + length (auto_of toy_proto toy_cipher toy_ui toy_lora queued).0))))
    × (s.vm.tx_queue ≡ [])
send_phases-Pushed_example =
    send_phases-Pushed toy_proto toy_cipher toy_ui toy_lora queued
      (unfold start initial in omega arith)

-- Two texts of the three fit.
two_fit : length (queued_of toy_proto toy_cipher toy_ui toy_lora queued).0 ≡ 2
unfolding start initial build_text_frame build_frame
two_fit = refl
