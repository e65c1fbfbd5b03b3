-- ===== src/Tests/Heard.antt =====
-- Alice's text in the log of Bob's loop.
use meshtastic_lora_rs.Common.{◌+◌, ◌≡◌, refl, false, some, arith, inr}
use meshtastic_lora_rs.Common.Among.{Among}
use meshtastic_lora_rs.Common.Result.{codes, is_utf8}
use meshtastic_lora_rs.Mac.Packet.{to_bytes, broadcast}
use meshtastic_lora_rs.Mesh.Router.{contains}
use meshtastic_lora_rs.App.{build_text_frame}
use meshtastic_lora_rs.Model.{LogEntry, rx}
use meshtastic_lora_rs.Radio.{now_hms, Loop, decode_ok, wrap64}
use meshtastic_lora_rs.Radio.Decode.{handle_result}
use meshtastic_lora_rs.Radio.Tick.{start}
use meshtastic_lora_rs.Radio.Hearing.{text-heard}
use meshtastic_lora_rs.Tests.Concrete.{
  toy_cipher, toy_cipher-IsStreamCipher, toy_proto, toy_proto-IsCodec, toy_ui, toy_lora, alice, bob,
}
use meshtastic_lora_rs.Tests.App.{sent_frame, relayed_frame, alice-IsTypedNode, one_relay, build_hi}
use meshtastic_lora_rs.Tests.Loop.{begun}

abbrev listening : Loop toy_ui toy_lora
listening = record begun { node = bob }

abbrev entry : LogEntry
entry = record {
  time = codes "12:00:05";
  dir = rx;
  text = codes "\"hi\"";
  from_id = some 1;
  hops = some 2;
  self_origin = false;
}

text-heard_example :
    let s =
      handle_result toy_proto toy_cipher toy_ui toy_lora
        (decode_ok (to_bytes relayed_frame) 20 0)
        listening in
    Among entry s.vm.log × (s.vm.rx_count ≡ wrap64 (listening.vm.rx_count + 1))
unfolding start now_hms
text-heard_example =
    text-heard toy_proto toy_cipher toy_ui toy_lora toy_proto-IsCodec toy_cipher-IsStreamCipher
      listening alice 7 broadcast (codes "hi") sent_frame relayed_frame 1 20 0 alice-IsTypedNode
      (omega arith) (omega arith) refl refl (inr refl) (unfold is_utf8 in refl)
      (unfold build_text_frame in build_hi) one_relay (unfold contains in refl)
