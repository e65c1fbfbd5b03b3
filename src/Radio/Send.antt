-- ===== src/Radio/Send.antt =====
-- The transmitting phases of a turn: the beacon, the typed messages, the automatic ones.
use meshtastic_lora_rs.Common.{
  ◌+◌, ◌%◌, Bool, true, false, ◌&&◌, Option, List, [], ◌∷◌, ◌++◌, map, none, some, if◌then◌else◌,
  leb,
}
use meshtastic_lora_rs.Common.Hex.{hex8}
use meshtastic_lora_rs.Common.Text.{decimal}
use meshtastic_lora_rs.Common.Result.{Str, codes}
use meshtastic_lora_rs.Mac.Packet.{MeshFrame, to_bytes}
use meshtastic_lora_rs.Mac.Crypto.{Cipher}
use meshtastic_lora_rs.Mesh.Node.{NodeInfo}
use meshtastic_lora_rs.Proto.{Proto}
use meshtastic_lora_rs.App.{build_text_frame, build_nodeinfo_frame, neighbour_list}
use meshtastic_lora_rs.Model.{Ui, SimMode, terminal, listen, tx}
use meshtastic_lora_rs.Radio.{Lora, Loop, wrap64, beacon_interval, push_log, transmit}
use meshtastic_lora_rs.Radio.Rebuild.{interval_samples}

-- `cur_mode != SimMode::Listen`.
abbrev pub tx_allowed : SimMode → Bool
tx_allowed terminal = true
tx_allowed listen = false

abbrev pub quoted : Str → Str
quoted text = codes "\"" ++ text ++ codes "\""

-- `format!("{} (!{:08x})", …)`.
abbrev pub neighbour_text : NodeInfo → Str
neighbour_text n = n.short_name ++ codes " (!" ++ hex8 n.node_id ++ codes ")"

module _ (ui : Ui) (lora : Lora ui) where
  -- A frame that could be built is sent from `ready`.
  unfoldable pub send_built : Option MeshFrame → Loop ui lora → Loop ui lora → Loop ui lora
  unfolding transmit
  send_built none ready s = s
  send_built (some frame) ready s = transmit ui lora (to_bytes frame) ready

module _ (pr : Proto) (c : Cipher) (ui : Ui) (lora : Lora ui) where
  -- The beacon's frame, if it can be built; a frame's id is drawn only then.
  unfoldable pub send_nodeinfo : Loop ui lora → Loop ui lora
  unfolding send_built
  send_nodeinfo s =
      let (drawn, w) = lora.random_u32 s.world in
      send_built ui lora (build_nodeinfo_frame pr c s.node drawn) (record s { world = w }) s

  unfoldable pub beacon : Loop ui lora → Loop ui lora
  unfolding send_nodeinfo
  beacon s =
      let due : Loop ui lora = record s {
        next_beacon_at = wrap64 (s.produced + beacon_interval);
      } in
      let sent : Loop ui lora = if tx_allowed s.vm.mode then send_nodeinfo due else due in
      if leb s.next_beacon_at s.produced
      then record sent {
        vm = record sent.vm { neighbours = map neighbour_text (neighbour_list sent.node) };
      }
      else s

  -- A text that fits is counted, logged and sent; another is dropped.
  unfoldable pub send_text : Str → Loop ui lora → Loop ui lora
  unfolding send_built push_log
  send_text text s =
      let (drawn, w) = lora.random_u32 s.world in
      let counted : Loop ui lora = record s {
        world = w;
        vm = record s.vm { tx_count = wrap64 (s.vm.tx_count + 1) };
      } in
      send_built ui lora (build_text_frame pr c s.node drawn s.vm.tx_dest text)
        (push_log ui lora tx (quoted text) counted) s

  unfoldable pub send_texts : List Str → Loop ui lora → Loop ui lora
  unfolding send_text
  send_texts [] s = s
  send_texts (text ∷ texts) s = send_texts texts (send_text text s)

  -- The queue is drained whether it may be sent or not.
  unfoldable pub manual_tx : Loop ui lora → Loop ui lora
  unfolding send_texts
  manual_tx s =
      let drained : Loop ui lora = record s { vm = record s.vm { tx_queue = [] } } in
      if tx_allowed s.vm.mode then send_texts s.vm.tx_queue drained else drained

  unfoldable pub auto_tx : Loop ui lora → Loop ui lora
  unfolding send_text
  auto_tx s =
      let seq = (s.seq + 1) % 4_294_967_296 in
      let due : Loop ui lora = record s {
        next_tx_at = wrap64 (s.produced + interval_samples ui lora s.vm);
        seq = seq;
      } in
      if tx_allowed s.vm.mode && s.vm.auto_tx && leb s.next_tx_at s.produced
      then send_text (codes "Test #" ++ decimal seq) due
      else s
