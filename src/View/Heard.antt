-- ===== src/View/Heard.antt =====
-- From one user's input field to what the interface of another node shows.
use meshtastic_lora_rs.Common.{
  ℕ, ◌-◌, ◌≤◌, ◌<◌, ◌≡◌, ◌⊎◌, true, false, [], ◌++◌, some, length, if◌then◌else◌, ◌==◌,
}
use meshtastic_lora_rs.Common.Among.{Among, Among-map}
use meshtastic_lora_rs.Common.Bytes.{IsU32}
use meshtastic_lora_rs.Common.Result.{Str, codes, is_utf8}
use meshtastic_lora_rs.Common.Text.{decimal}
use meshtastic_lora_rs.Mac.Packet.{MeshFrame, max_payload, to_bytes, broadcast}
use meshtastic_lora_rs.Mac.Crypto.{Cipher, IsStreamCipher}
use meshtastic_lora_rs.Mesh.Router.Decision.{seen}
use meshtastic_lora_rs.Mesh.Router.Relay.{Relays}
use meshtastic_lora_rs.Proto.{Proto, IsCodec}
use meshtastic_lora_rs.App.{node_id}
use meshtastic_lora_rs.App.Delivery.{IsTypedNode}
use meshtastic_lora_rs.Model.{Ui, ViewModel, LogEntry, terminal, rx}
use meshtastic_lora_rs.Radio.{Lora, Loop, decode_ok, now_hms, f64_int}
use meshtastic_lora_rs.Radio.Send.{quoted}
use meshtastic_lora_rs.Radio.Decode.{handle_result, off_hz, off_text}
use meshtastic_lora_rs.Radio.Tick.{settle, send_phases}
use meshtastic_lora_rs.Radio.Turns.{commanded}
use meshtastic_lora_rs.Radio.Typed.{on_air}
use meshtastic_lora_rs.Radio.Plan.{frames_of}
use meshtastic_lora_rs.Radio.Hearing.{text-heard}
use meshtastic_lora_rs.View.{Gui, Responses}
use meshtastic_lora_rs.View.Messages.{Rgb, id_text, log_line, ui_message_log}
use meshtastic_lora_rs.View.Synced.{Desk, frame, step}
use meshtastic_lora_rs.View.Typing.{Submits, typed-GoesOut}

module _ (pr : Proto) (c : Cipher) (ui : Ui) (gui : Gui ui) (lora : Lora ui) where
  -- The line and the colour in which a text is shown: grey for the sender, green for everyone else.
  abbrev pub shown_line : Loop ui lora → ℕ → Str → ℕ → ui.F64 → Str × Rgb
  shown_line hearer from text relays bins =
      let hz = off_hz pr c ui lora hearer.cur_sf bins in
      let far = lora.gt64 (lora.abs64 hz) (f64_int ui lora 10) in
      (
        codes "["
            ++ (now_hms ui lora hearer.world).0
            ++ codes "] "
            ++ codes "RX "
            ++ (codes " " ++ id_text from)
            ++ codes " "
            ++ (quoted text ++ (if far then off_text pr c ui lora hz else []))
            ++ (codes " (hops: " ++ decimal (3 - relays) ++ codes ")"),
        if from == node_id hearer.node then (90, 90, 90) else (100, 220, 100),
      )

  -- The log's entry of such a text.
  abbrev heard_entry : Loop ui lora → ℕ → Str → ℕ → ui.F64 → LogEntry
  heard_entry hearer from text relays bins =
      let hz = off_hz pr c ui lora hearer.cur_sf bins in
      let far = lora.gt64 (lora.abs64 hz) (f64_int ui lora 10) in
      record {
        time = (now_hms ui lora hearer.world).0;
        dir = rx;
        text = quoted text ++ (if far then off_text pr c ui lora hz else []);
        from_id = some from;
        hops = some (3 - relays);
        self_origin = from == node_id hearer.node;
      }

  heard_entry-shown :
      (hearer : Loop ui lora) (from : ℕ) (text : Str) (relays : ℕ) (bins : ui.F64)
      (vm : ViewModel ui)
      → Among (heard_entry hearer from text relays bins) vm.log
      → Among (shown_line hearer from text relays bins) (ui_message_log ui gui vm)
  unfolding ui_message_log
  heard_entry-shown hearer from text relays bins vm =
      Among-map log_line (heard_entry hearer from text relays bins) vm.log

  -- Suppose that random ids are u32s, and that a user of the desktop's layout submits a text, in UTF-8,
  -- that fits, while the radio runs and is in Terminal mode. Take another loop whose node is addressed
  -- and on the channel, and which gets each of the next turn's frames by so many relays and has seen
  -- none of them. Then one of these frames, which the turn hands to its driver, is shown by the other
  -- loop's interface once its modem decodes it: a line has the text in quotes, behind the sender's id
  -- and before the hops that are left.
  pub typed-heard :
      IsCodec pr
      → IsStreamCipher c
      → ((w : lora.W) → IsU32 (lora.random_u32 w).0)
      → (desk : Desk pr c ui gui lora) (r : Responses ui gui) (text : Str)
      → desk.1.vm.tx_count < 18_446_744_073_709_551_616
      → r.is_mobile ≡ false
      → Submits ui gui r text
      → length (pr.encode_data (pr.new_data pr.text_message_app text)) ≤ max_payload
      → is_utf8 text ≡ true
      → let (v, s) = step pr c ui gui lora (frame r) desk in
        let begun = commanded pr c ui lora v.cmd_tx s in
        let ready = settle ui lora begun in
        let frames = frames_of pr c ui lora ready in
        begun.vm.running ≡ true
        → begun.vm.mode ≡ terminal
        → IsTypedNode ready.node
        → IsU32 begun.vm.tx_dest
        → (hearer : Loop ui lora) (relays consumed : ℕ) (bins : ui.F64)
          (carry : MeshFrame → MeshFrame)
        → hearer.node.channel ≡ ready.node.channel
        → hearer.node.crypto ≡ ready.node.crypto
        → (begun.vm.tx_dest ≡ node_id hearer.node) ⊎ (begun.vm.tx_dest ≡ broadcast)
        → ((f : MeshFrame) → Among f frames → Relays f relays (carry f))
        → ((f : MeshFrame) → Among f frames → seen hearer.node.dedup (carry f) ≡ false)
        → ((send_phases pr c ui lora ready).driver
            ≡ on_air pr c ui lora ready.tx_modem ready.driver frames)
          × ((f : MeshFrame) × Among f frames
              × Among (shown_line hearer (node_id ready.node) text relays bins) (
                  ui_message_log ui gui
                    (handle_result pr c ui lora
                      (decode_ok (to_bytes (carry f)) consumed bins)
                      hearer).vm))
  unfolding step
  typed-heard codec cipher u32s desk r text small wide submits fits utf8 runs on typed dest hearer
        relays consumed bins carry channel key ours path first =
      let (v, s) = step pr c ui gui lora (frame r) desk in
      let begun = commanded pr c ui lora v.cmd_tx s in
      let ((w, f, e, among), driver, _) =
        typed-GoesOut pr c ui gui lora desk r text small wide submits fits runs on in
      let (entry, _) =
        text-heard pr c ui lora codec cipher hearer (settle ui lora begun).node
          (lora.random_u32 w).0 begun.vm.tx_dest text f (carry f) relays consumed bins typed
          (u32s w) dest channel key ours utf8 e (path f among) (first f among) in
      (
        driver,
        (
          f,
          among,
          heard_entry-shown hearer (node_id (settle ui lora begun).node) text relays bins
              (handle_result pr c ui lora (decode_ok (to_bytes (carry f)) consumed bins) hearer).vm
              entry,
        ),
      )
