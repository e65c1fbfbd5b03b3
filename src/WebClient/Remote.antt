-- ===== src/WebClient/Remote.antt =====
-- The interface in the browser, the socket, the server and the radio loop together.
use meshtastic_lora_rs.Common.{◌≡◌, sym, ap, ◌∙◌, true, List, [], ◌∷◌, ◌++◌, All}
use meshtastic_lora_rs.Mac.Crypto.{Cipher}
use meshtastic_lora_rs.Proto.{Proto}
use meshtastic_lora_rs.Model.{Ui, ViewModel}
use meshtastic_lora_rs.Model.Chosen.{choose_all}
use meshtastic_lora_rs.Server.{Json, Event, handle_socket}
use meshtastic_lora_rs.WebClient.{Web, writer}
use meshtastic_lora_rs.WebClient.Session.{IsLive}
use meshtastic_lora_rs.WebClient.Relay.{ReadsBack, texts_in, sent_out, handle_socket-writer}
use meshtastic_lora_rs.Radio.{Lora, Loop}
use meshtastic_lora_rs.Radio.Control.{choices, tick-choices}
use meshtastic_lora_rs.Radio.Tick.{tick}
use meshtastic_lora_rs.View.{Gui, Responses, MeshSimApp}
use meshtastic_lora_rs.View.Frame.{update}
use meshtastic_lora_rs.View.Reports.{
  shown, shown_of, show_all, shown_of-choose_all, Reports, Reports-trans,
}
use meshtastic_lora_rs.View.SettingsReports.{Reports-refl}
use meshtastic_lora_rs.View.FrameReports.{update-Reports}

module _ (ui : Ui) (gui : Gui ui) where
  -- Frames one after the other, each with what the copy of the shared state then is and what egui
  -- reports.
  unfoldable pub frames :
      List (ViewModel ui × Responses ui gui) → MeshSimApp ui gui → MeshSimApp ui gui
  unfolding update
  frames [] v = v
  frames ((shared, r) ∷ later) v = frames later (update ui gui shared r v).0

  frames-Reports :
      (run : List (ViewModel ui × Responses ui gui)) (v : MeshSimApp ui gui)
      → Reports ui gui v (frames run v)
  unfolding frames
  frames-Reports [] v = Reports-refl ui gui v
  frames-Reports ((shared, r) ∷ later) v =
      let v₁ = (update ui gui shared r v).0 in
      Reports-trans ui gui v v₁ (frames later v₁) (update-Reports ui gui shared r v)
        (frames-Reports later v₁)

module _ (pr : Proto) (c : Cipher) (ui : Ui) (gui : Gui ui) (lora : Lora ui) (json : Json ui)
    (web : Web ui) where
  -- Suppose that the interface in the browser shows the settings of the server's shared state and has
  -- no command on its way, that serde_json reads back each of the commands of a run of frames, and that
  -- the texts that reach the server in a session without failures are the frames of the client's writer
  -- for these commands. Then what the interface shows after the run, of the mode, the sliders, the check
  -- box, the frequency and the destination, is what the server's shared state has after the turn that
  -- takes these commands and no others, whatever snapshots came to the client meanwhile.
  pub tick-frames :
      (run : List (ViewModel ui × Responses ui gui)) (v : MeshSimApp ui gui) (s : Loop ui lora)
      (vm : ViewModel ui) (es : List (Event ui))
      → All (ReadsBack ui json web) (frames ui gui run v).cmd_tx
      → IsLive ui json es
      → v.cmd_tx ≡ []
      → shown ui gui v ≡ shown_of ui (choices pr c ui lora s)
      → texts_in ui json web es ≡ writer ui web (sent_out ui json web (frames ui gui run v).cmd_tx)
      → let commands = (handle_socket ui json vm true es).commands in
        shown ui gui (frames ui gui run v)
        ≡ shown_of ui (choices pr c ui lora (tick pr c ui lora commands s))
  unfolding Reports
  tick-frames run v s vm es j live none_waits synced same =
      let v' = frames ui gui run v in
      let commands = (handle_socket ui json vm true es).commands in
      let (cmds, sent, shows, _) = frames-Reports ui gui run v in
      let (passed, _) = handle_socket-writer ui json web vm vm es v'.cmd_tx j live same in
      let all : commands ≡ cmds = passed ∙ sent ∙ ap (λ q. q ++ cmds) none_waits in
      shows
      ∙ ap (show_all ui cmds) synced
      ∙ sym (shown_of-choose_all ui cmds (choices pr c ui lora s))
      ∙ ap (λ q. shown_of ui (choose_all ui q (choices pr c ui lora s))) (sym all)
      ∙ ap (shown_of ui) (sym (tick-choices pr c ui lora commands s))
