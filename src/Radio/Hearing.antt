-- ===== src/Radio/Hearing.antt =====
-- A text that arrives: what the log of the receiving loop says of it.
use mathlib.Core.List.{append_assoc}
use meshtastic_lora_rs.Common.{
  ℕ, ◌+◌, ◌-◌, ◌≡◌, refl, subst, ◌∙◌, ◌⊎◌, true, false, List, [], ◌∷◌, ◌++◌, Option, none, some,
  length, drop, if_true, if_false, if◌then◌else◌, Bool-cases, inl, inr, ◌==◌, ltb,
}
use meshtastic_lora_rs.Common.Among.{Among}
use meshtastic_lora_rs.Common.Bytes.{IsU32}
use meshtastic_lora_rs.Common.Result.{Str, ok, is_utf8}
use meshtastic_lora_rs.Mac.Packet.{MeshFrame, to_bytes, broadcast}
use meshtastic_lora_rs.Mac.Crypto.{Cipher, IsStreamCipher}
use meshtastic_lora_rs.Mesh.Router.Decision.{seen}
use meshtastic_lora_rs.Mesh.Router.Relay.{Relays}
use meshtastic_lora_rs.Proto.{Proto, IsCodec}
use meshtastic_lora_rs.App.{MeshNode, MeshMessage, node_id, build_text_frame, process_rx_frame}
use meshtastic_lora_rs.App.Content.{text-new_data}
use meshtastic_lora_rs.App.Delivery.{IsTypedNode, process-build_frame}
use meshtastic_lora_rs.Model.{Ui, LogEntry, rx}
use meshtastic_lora_rs.Radio.{
  now_hms, Lora, Loop, decode_ok, wrap64, push_bounded, push_log, push_log_full, transmit, f64_int,
  max_log,
}
use meshtastic_lora_rs.Radio.Send.{tx_allowed, quoted}
use meshtastic_lora_rs.Radio.Decode.{
  relay_frame, log_message, handle_outcome, handle_frame, handle_result, off_hz, off_text, label,
}

module _ (ui : Ui) (lora : Lora ui) where
  -- The newest entry is in the log.
  push_bounded-Among :
      (log : List LogEntry) (e : LogEntry)
      → (earlier : List LogEntry) × (push_bounded ui lora log e ≡ earlier ++ (e ∷ []))
  push_bounded-Among [] e = ([], refl)
  push_bounded-Among (x ∷ log) e =
      elim (Bool-cases (ltb max_log (length ((x ∷ log) ++ (e ∷ []))))) [
        | inl full ↦ (log, if_true _ full)
        | inr fits ↦ (x ∷ log, if_false _ fits)
      ]

  -- And it is so after one more.
  push_bounded_twice :
      (earlier : List LogEntry) (e last : LogEntry)
      → Among e (push_bounded ui lora (earlier ++ (e ∷ [])) last)
  push_bounded_twice [] e last = ([], last ∷ [], refl)
  push_bounded_twice (x ∷ earlier) e last =
      elim (Bool-cases (ltb max_log (length ((x ∷ earlier ++ (e ∷ [])) ++ (last ∷ []))))) [
        | inl full ↦
            (earlier, last ∷ [], if_true _ full ∙ append_assoc earlier (e ∷ []) (last ∷ []))
        | inr fits ↦ (
          x ∷ earlier,
          last ∷ [],
          if_false _ fits ∙ append_assoc (x ∷ earlier) (e ∷ []) (last ∷ []),
        )
      ]

module _ (pr : Proto) (c : Cipher) (ui : Ui) (lora : Lora ui) where
  -- A relay leaves the newest entry of the log, and the counter.
  relay_frame-Among :
      (o : Option MeshFrame) (s : Loop ui lora) (earlier : List LogEntry) (e : LogEntry)
      → s.vm.log ≡ earlier ++ (e ∷ [])
      → Among e (relay_frame pr c ui lora o s).vm.log
        × ((relay_frame pr c ui lora o s).vm.rx_count ≡ s.vm.rx_count)
  unfolding relay_frame transmit push_log push_log_full
  relay_frame-Among none s earlier e newest = ((earlier, [], newest), refl)
  relay_frame-Among (some f) s earlier e newest = elim (Bool-cases (tx_allowed s.vm.mode)) [
    | inl on ↦ rw on (rw newest (push_bounded_twice ui lora earlier e _), refl)
    | inr off ↦ rw off ((earlier, [], newest), refl)
  ]

  -- What a loop logs of a message.
  abbrev pub entry_of : ui.F64 → MeshMessage pr.Data → Loop ui lora → LogEntry
  entry_of hz msg s = record {
    time = (now_hms ui lora s.world).0;
    dir = rx;
    text =
        label pr c ui lora msg.content
        ++ (if lora.gt64 (lora.abs64 hz) (f64_int ui lora 10)
            then off_text pr c ui lora hz
            else []);
    from_id = some msg.from;
    hops = some msg.hop_limit;
    self_origin = msg.self_origin;
  }

  log_message-newest :
      (hz : ui.F64) (msg : MeshMessage pr.Data) (s : Loop ui lora)
      → let s' = log_message pr c ui lora hz msg s in
        ((earlier : List LogEntry) × (s'.vm.log ≡ earlier ++ (entry_of hz msg s ∷ [])))
        × (s'.vm.rx_count ≡ (if msg.self_origin then s.vm.rx_count else wrap64 (s.vm.rx_count + 1)))
  unfolding log_message push_log_full
  log_message-newest hz msg s = elim (Bool-cases msg.self_origin) [
    | inl own ↦ rw own (push_bounded-Among ui lora s.vm.log _, refl)
    | inr other ↦ rw other (push_bounded-Among ui lora s.vm.log _, refl)
  ]

  -- The message is logged and counted, whatever is relayed.
  handle_outcome-Among :
      (hz : ui.F64) (msg : MeshMessage pr.Data) (o : Option MeshFrame) (s : Loop ui lora)
      → let s' = handle_outcome pr c ui lora hz (ok (some msg, o)) s in
        Among (entry_of hz msg s) s'.vm.log
        × (s'.vm.rx_count ≡ (if msg.self_origin then s.vm.rx_count else wrap64 (s.vm.rx_count + 1)))
  handle_outcome-Among hz msg o s =
      let ((earlier, newest), count) = log_message-newest hz msg s in
      let (among, same) =
        relay_frame-Among o (log_message pr c ui lora hz msg s) earlier (entry_of hz msg s)
          newest in
      unfold handle_outcome in (among, same ∙ count)

  handle_frame-Among :
      (hz : ui.F64) (raw : List ℕ) (msg : MeshMessage pr.Data) (o : Option MeshFrame) (m : MeshNode)
      (s : Loop ui lora)
      → process_rx_frame pr c s.node raw ≡ (ok (some msg, o), m)
      → let s' = handle_frame pr c ui lora hz raw s in
        Among (entry_of hz msg s) s'.vm.log
        × (s'.vm.rx_count ≡ (if msg.self_origin then s.vm.rx_count else wrap64 (s.vm.rx_count + 1)))
  unfolding handle_frame
  handle_frame-Among hz raw msg o m s outcome =
      rw outcome (handle_outcome-Among hz msg o (record s { node = m }))

  module _ (codec : IsCodec pr) (cipher : IsStreamCipher c) where
    -- A text that a node sends is logged by every loop whose modem decodes the frame, as it was sent or
    -- after any chain of relays, if the loop's node is addressed, on the channel, and has not seen it:
    -- the entry shows the text in quotes, with the carrier's offset if that is more than 10 Hz, the
    -- sender and the hops that are left, and is marked as own exactly for the sender; and the counter
    -- grows by one for each but the sender.
    pub text-heard :
        (r : Loop ui lora) (n : MeshNode) (drawn to : ℕ) (s : Str) (f g : MeshFrame) (relays : ℕ)
        (consumed : ℕ) (bins : ui.F64)
        → IsTypedNode n
        → IsU32 drawn
        → IsU32 to
        → r.node.channel ≡ n.channel
        → r.node.crypto ≡ n.crypto
        → (to ≡ node_id r.node) ⊎ (to ≡ broadcast)
        → is_utf8 s ≡ true
        → build_text_frame pr c n drawn to s ≡ some f
        → Relays f relays g
        → seen r.node.dedup g ≡ false
        → let own = node_id n == node_id r.node in
          let hz = off_hz pr c ui lora r.cur_sf bins in
          let far = lora.gt64 (lora.abs64 hz) (f64_int ui lora 10) in
          let entry : LogEntry = record {
            time = (now_hms ui lora r.world).0;
            dir = rx;
            text = quoted s ++ (if far then off_text pr c ui lora hz else []);
            from_id = some (node_id n);
            hops = some (3 - relays);
            self_origin = own;
          } in
          let r' = handle_result pr c ui lora (decode_ok (to_bytes g) consumed bins) r in
          Among entry r'.vm.log
          × (r'.vm.rx_count ≡ (if own then r.vm.rx_count else wrap64 (r.vm.rx_count + 1)))
    unfolding build_text_frame handle_result
    text-heard r n drawn to s f g relays consumed bins t hd ht ch k ours u e path first =
        let d = pr.new_data pr.text_message_app s in
        let hz = off_hz pr c ui lora r.cur_sf bins in
        let (_, outcome) =
          process-build_frame pr c codec cipher n r.node drawn to d f g relays t hd ht ch k ours e
            path first in
        let msg : MeshMessage pr.Data = record {
          from = node_id n;
          to = to;
          content = d;
          hop_limit = 3 - relays;
          self_origin = node_id n == node_id r.node;
        } in
        let taken : Loop ui lora = record r { rx_buffer = drop consumed r.rx_buffer } in
        let shows : label pr c ui lora d ≡ quoted s =
          rw (text-new_data pr c codec s u, label) refl in
        let (among, count) = handle_frame-Among hz (to_bytes g) msg _ _ taken outcome in
        (
          subst
              (λ shown.
                Among
                  (record (entry_of hz msg r) {
                    text =
                        shown
                        ++ (if lora.gt64 (lora.abs64 hz) (f64_int ui lora 10)
                            then off_text pr c ui lora hz
                            else []);
                  })
                  (handle_frame pr c ui lora hz (to_bytes g) taken).vm.log)
              shows among,
          count,
        )
