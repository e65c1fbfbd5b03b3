-- ===== src/WebClient/Relay.antt =====
-- From the web client's interface to the radio loop.
use mathlib.Core.List.{append-nil}
use meshtastic_lora_rs.Common.{
  ◌≡◌, refl, sym, ap, ◌∙◌, Bool, true, false, List, [], ◌∷◌, ◌++◌, map, some, All, inl, inr,
}
use meshtastic_lora_rs.Common.Result.{ok, Str}
use meshtastic_lora_rs.Model.{Ui, ViewModel, Command, apply_all}
use meshtastic_lora_rs.Server.{Json, Event, timer, text, close, gone, failed, other, handle_socket}
use meshtastic_lora_rs.Server.Commands.{parsed, handle_socket-commands, command_of}
use meshtastic_lora_rs.WebClient.{Web, writer}
use meshtastic_lora_rs.WebClient.Session.{IsLive, handle_socket-live}

module _ (ui : Ui) (json : Json ui) (web : Web ui) where
  -- serde_json writes the command as a text that it reads as the same command. It does so where a
  -- command has no float; an infinite one is written as null, and one with many digits may come back
  -- rounded.
  abbrev pub ReadsBack : Command ui → Type 0
  ReadsBack cmd = (t : Str) × (web.to_string cmd ≡ some t) × (json.from_str t ≡ ok cmd)

  abbrev texts_of : Event ui → List Str
  texts_of (text t gets_out) = t ∷ []
  texts_of _ = []

  -- The texts that a session receives.
  abbrev pub texts_in : List (Event ui) → List Str
  texts_in [] = []
  texts_in (e ∷ es) = texts_of e ++ texts_in es

  abbrev parsed_texts : List Str → List (Command ui)
  parsed_texts [] = []
  parsed_texts (t ∷ ts) = command_of ui json (json.from_str t) ++ parsed_texts ts

  parsed-texts_in : (es : List (Event ui)) → parsed ui json es ≡ parsed_texts (texts_in es)
  parsed-texts_in [] = refl
  parsed-texts_in (timer vm b ∷ es) = parsed-texts_in es
  parsed-texts_in (text t b ∷ es) =
      ap (λ l. command_of ui json (json.from_str t) ++ l) (parsed-texts_in es)
  parsed-texts_in (close ∷ es) = parsed-texts_in es
  parsed-texts_in (gone ∷ es) = parsed-texts_in es
  parsed-texts_in (failed ∷ es) = parsed-texts_in es
  parsed-texts_in (other ∷ es) = parsed-texts_in es

  -- Commands that all get out.
  abbrev pub sent_out : List (Command ui) → List (Command ui × Bool)
  sent_out cmds = map (λ cmd. (cmd, true)) cmds

  parsed-writer :
      (cmds : List (Command ui))
      → All ReadsBack cmds
      → parsed_texts (writer ui web (sent_out cmds)) ≡ cmds
  unfolding writer
  parsed-writer [] j = refl
  parsed-writer (cmd ∷ cmds) ((t, writes, reads), later) =
      rw (writes, writer)
        (ap (λ r. command_of ui json r ++ parsed_texts (writer ui web (sent_out cmds))) reads
          ∙ ap (λ l. cmd ∷ l) (parsed-writer cmds later))

  -- If serde_json reads back each of the commands that the client's interface sent, and the texts that reach the server in a session without
  -- failures are the frames of the web client's writer, whatever snapshots and pings come between, then
  -- the commands that the session passes on are those that the client's interface sent, in their order,
  -- and they do to the shared state what they would from the desktop.
  pub handle_socket-writer :
      (vm shared : ViewModel ui) (es : List (Event ui)) (cmds : List (Command ui))
      → All ReadsBack cmds
      → IsLive ui json es
      → texts_in es ≡ writer ui web (sent_out cmds)
      → let s = handle_socket ui json vm true es in
        (s.commands ≡ cmds) × (apply_all ui s.commands shared ≡ apply_all ui cmds shared)
  handle_socket-writer vm shared es cmds j live same =
      let s = handle_socket ui json vm true es in
      let (rest, all, done) = handle_socket-commands ui json vm true es in
      let complete : s.commands ≡ cmds = elim done [
        | inl over ↦ no_end (sym (handle_socket-live ui json vm es live).0 ∙ over)
        | inr none_left ↦
            sym (append-nil s.commands)
            ∙ ap (λ l. s.commands ++ l) (sym none_left)
            ∙ sym all
            ∙ parsed-texts_in es
            ∙ ap parsed_texts same
            ∙ parsed-writer cmds j
      ] in
      (complete, ap (λ l. apply_all ui l shared) complete)
    where
      no_end : {A : Type 0} → true ≡ false → A
      no_end h = cc
