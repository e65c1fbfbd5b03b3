-- ===== src/Tests/Beacon.antt =====
-- Beacons over the loopback.
use meshtastic_lora_rs.Common.{◌≡◌, refl, true, false, List, [], ◌∷◌, arith}
use meshtastic_lora_rs.Common.Result.{codes}
use meshtastic_lora_rs.Mac.Packet.{to_bytes, from_bytes, encode, decode}
use meshtastic_lora_rs.Mac.Crypto.{encrypt, decrypt}
use meshtastic_lora_rs.Mesh.Router.{route, check_and_insert, contains}
use meshtastic_lora_rs.Proto.{encode_to_data, decode_user}
use meshtastic_lora_rs.App.{build_nodeinfo_frame, build_frame, process_rx_frame, channel_hash}
use meshtastic_lora_rs.Model.{Command, send_text, set_mode, terminal}
use meshtastic_lora_rs.Radio.{now_hms, Loop, beacon_interval}
use meshtastic_lora_rs.Radio.Tick.{start, initial, tick}
use meshtastic_lora_rs.Radio.Timer.{
  timer, calls, rings, SpacedFrom, Undisturbed, Announced, beacon-timer,
}
use meshtastic_lora_rs.Tests.Concrete.{toy_cipher, toy_proto, toy_ui, toy_lora}
use meshtastic_lora_rs.Tests.Loop.{begun}

abbrev run : List (List (Command toy_ui))
run = (set_mode terminal ∷ []) ∷ (send_text (codes "a") ∷ []) ∷ []

-- The beacon is due.
abbrev ripe : Loop toy_ui toy_lora
ripe = record begun { produced = 600_000 }

run-Undisturbed : Undisturbed toy_proto toy_cipher toy_ui toy_lora run ripe
unfolding Undisturbed start initial tick build_nodeinfo_frame build_frame encode_to_data to_bytes
    encode encrypt process_rx_frame from_bytes decode channel_hash route check_and_insert contains
    decrypt decode_user now_hms
run-Undisturbed = (refl, omega arith, (refl, omega arith, tt))

-- The beacon is due in the first turn and not in the second.
one_beacon :
    timer beacon_interval ripe.next_beacon_at (calls toy_proto toy_cipher toy_ui toy_lora run ripe)
    ≡ true ∷ false ∷ []
unfolding timer calls start initial tick build_nodeinfo_frame build_frame encode_to_data to_bytes
    encode encrypt process_rx_frame from_bytes decode channel_hash route check_and_insert contains
    decrypt decode_user now_hms
one_beacon = refl

beacon-timer_example :
    let times = calls toy_proto toy_cipher toy_ui toy_lora run ripe in
    let bits = timer beacon_interval ripe.next_beacon_at times in
    Announced toy_proto toy_cipher toy_ui toy_lora bits run ripe
    × SpacedFrom beacon_interval ripe.next_beacon_at (rings bits times)
beacon-timer_example = beacon-timer toy_proto toy_cipher toy_ui toy_lora run ripe run-Undisturbed
