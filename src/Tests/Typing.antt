-- ===== src/Tests/Typing.antt =====
-- A text from the input field to the loopback and to another node's log.
use meshtastic_lora_rs.Common.{ℕ, ◌<◌, subst, sym, ap, inl, true, ◌≡◌, refl, arith}
use meshtastic_lora_rs.Common.Result.{codes, is_utf8}
use meshtastic_lora_rs.Mac.Packet.{MeshFrame}
use meshtastic_lora_rs.Model.{apply_all, terminal}
use meshtastic_lora_rs.Cli.{probed}
use meshtastic_lora_rs.Radio.{Loop}
use meshtastic_lora_rs.Radio.Typed.{on_air}
use meshtastic_lora_rs.Radio.Tick.{start, initial, settle, send_phases}
use meshtastic_lora_rs.Radio.Turns.{commanded}
use meshtastic_lora_rs.Radio.Plan.{frames_of}
use meshtastic_lora_rs.Common.Bytes.{IsU32}
use meshtastic_lora_rs.App.Delivery.{IsTypedNode}
use meshtastic_lora_rs.Common.Among.{Among}
use meshtastic_lora_rs.Mac.Packet.{to_bytes}
use meshtastic_lora_rs.Mesh.Router.{contains}
use meshtastic_lora_rs.Mesh.Router.Relay.{here}
use meshtastic_lora_rs.App.{node_id, with_id, default_channel}
use meshtastic_lora_rs.Radio.{decode_ok}
use meshtastic_lora_rs.Radio.Decode.{handle_result}
use meshtastic_lora_rs.View.Messages.{ui_message_log}
use meshtastic_lora_rs.View.Heard.{shown_line, typed-heard}
use meshtastic_lora_rs.View
use meshtastic_lora_rs.View.Synced.{frame, step}
use meshtastic_lora_rs.Tests.Concrete.{
  toy_proto-IsCodec, toy_cipher-IsStreamCipher, toy_cipher, toy_proto, toy_ui, toy_lora, toy_gui,
}
use meshtastic_lora_rs.Tests.View.{begun, shown_first, clicks}

-- The loop once the commands of the frame have arrived.
abbrev told : Loop toy_ui toy_lora
told =
    let (v, s) =
      step toy_proto toy_cipher toy_ui toy_gui toy_lora (frame clicks) (shown_first, begun) in
    commanded toy_proto toy_cipher toy_ui toy_lora v.cmd_tx s

told-running : told.vm.running ≡ true
unfolding step apply_all start initial probed View.new
told-running = refl

told-mode : told.vm.mode ≡ terminal
unfolding step apply_all start initial probed View.new
told-mode = refl

uncounted : begun.vm.tx_count < 18_446_744_073_709_551_616
unfolding start initial probed
uncounted = omega arith

-- The loop of the node that the text is for, with nothing in its cache.
abbrev hearer : Loop toy_ui toy_lora
hearer = record begun { node = with_id default_channel 42 (codes "BO") (codes "Bob") }

drawn-IsU32 : (w : ℕ) → IsU32 (toy_lora.random_u32 w).0
drawn-IsU32 w = omega arith

told_dest : told.vm.tx_dest ≡ 42
unfolding step apply_all start initial probed View.new
told_dest = refl

told_node :
    (settle toy_ui toy_lora told).node
    ≡ with_id default_channel 7 (codes "TERM") (codes "Mesh Terminal")
unfolding step apply_all start initial probed View.new
told_node = refl

typed-heard_example :
    let ready = settle toy_ui toy_lora told in
    let frames = frames_of toy_proto toy_cipher toy_ui toy_lora ready in
    ((send_phases toy_proto toy_cipher toy_ui toy_lora ready).driver
      ≡ on_air toy_proto toy_cipher toy_ui toy_lora ready.tx_modem ready.driver frames)
    × ((f : MeshFrame) × Among f frames
        × Among
            (shown_line toy_proto toy_cipher toy_ui toy_gui toy_lora hearer
              (node_id ready.node)
              (codes "hello")
              0
              0)
            (ui_message_log toy_ui toy_gui
              (handle_result toy_proto toy_cipher toy_ui toy_lora
                (decode_ok (to_bytes f) 20 0)
                hearer).vm))
typed-heard_example =
    typed-heard toy_proto toy_cipher toy_ui toy_gui toy_lora toy_proto-IsCodec
      toy_cipher-IsStreamCipher drawn-IsU32 (shown_first, begun) clicks (codes "hello") uncounted
      refl (refl, refl, refl) (omega arith) (unfold is_utf8 in refl) told-running told-mode
      (subst IsTypedNode (sym told_node) (record { id_u32 = omega arith; key_byte = omega arith }))
      (omega (arith, told_dest)) hearer 0 20 0 (λ f. f) (ap (λ n. n.channel) (sym told_node))
      (ap (λ n. n.crypto) (sym told_node)) (inl told_dest) (λ f among. here)
      (λ f among. unfold contains in refl)
