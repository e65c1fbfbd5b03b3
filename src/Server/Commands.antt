-- ===== src/Server/Commands.antt =====
-- What a session passes on to the radio loop.
use mathlib.Core.List.{append-nil, append_assoc}
use meshtastic_lora_rs.Common.{
  ◌⊎◌, false, ◌≡◌, refl, ap, sym, ◌∙◌, Bool, true, List, [], ◌∷◌, ◌++◌, Bool-cases, Option-cases,
  inl, inr, subst, if_true, if_false,
}
use meshtastic_lora_rs.Common.Result.{Result, ok, err, Str, Result-cases}
use meshtastic_lora_rs.Model.{Ui, ViewModel, Command}
use meshtastic_lora_rs.ProtoWs.{ServerMsg, snapshot, from_view}
use meshtastic_lora_rs.Server.{
  Json, Event, timer, text, close, gone, failed, other, Session, send_msg, handle_event,
  handle_events, handle_socket,
}

module _ (ui : Ui) (json : Json ui) where
  abbrev pub command_of : Result Str (Command ui) → List (Command ui)
  command_of (ok cmd) = cmd ∷ []
  command_of (err e) = []

  abbrev commands_in : Event ui → List (Command ui)
  commands_in (text t gets_out) = command_of (json.from_str t)
  commands_in _ = []

  -- The commands in a run of events: the texts that can be read as one.
  abbrev pub parsed : List (Event ui) → List (Command ui)
  parsed [] = []
  parsed (e ∷ es) = commands_in e ++ parsed es

  -- The commands `all` are those passed on and a rest, which is empty while the loop runs.
  abbrev pub PassedOn : Session ui → List (Command ui) → Type 0
  PassedOn s all =
      (rest : List (Command ui)) × (all ≡ s.commands ++ rest) × ((s.running ≡ false) ⊎ (rest ≡ []))

  send_msg-commands :
      (msg : ServerMsg ui) (gets_out : Bool) (s : Session ui)
      → (send_msg ui json msg gets_out s).commands ≡ s.commands
  unfolding send_msg
  send_msg-commands msg gets_out s = elim (Option-cases (json.to_string msg)) [
    | inl e ↦ rw (e, send_msg) refl
    | inr (t, e) ↦ elim (Bool-cases gets_out) [
      | inl b ↦ rw (e, b, send_msg) refl
      | inr b ↦ rw (e, b, send_msg) refl
    ]
  ]

  handle_event-commands :
      (e : Event ui) (s : Session ui)
      → (handle_event ui json e s).commands ≡ s.commands ++ commands_in e
  unfolding handle_event
  handle_event-commands (timer vm gets_out) s =
      send_msg-commands _ gets_out s ∙ sym (append-nil s.commands)
  handle_event-commands (text t gets_out) s = elim (Result-cases (json.from_str t)) [
    | inl (cmd, e) ↦ rw (e, handle_event) refl
    | inr (x, e) ↦
        rw (e, handle_event) (send_msg-commands _ gets_out s ∙ sym (append-nil s.commands))
  ]
  handle_event-commands close s = sym (append-nil s.commands)
  handle_event-commands gone s = sym (append-nil s.commands)
  handle_event-commands failed s = sym (append-nil s.commands)
  handle_event-commands other s = sym (append-nil s.commands)

  take_one :
      (e : Event ui) (es : List (Event ui)) (s : Session ui)
      → s.commands ++ parsed (e ∷ es) ≡ (handle_event ui json e s).commands ++ parsed es
  take_one e es s =
      sym (append_assoc s.commands (commands_in e) (parsed es))
      ∙ ap (λ l. l ++ parsed es) (sym (handle_event-commands e s))

  handle_events-commands :
      (es : List (Event ui)) (s : Session ui)
      → PassedOn (handle_events ui json es s) (s.commands ++ parsed es)
  unfolding handle_events
  handle_events-commands [] s = ([], refl, inr refl)
  handle_events-commands (e ∷ es) s = elim (Bool-cases s.running) [
    | inr over ↦
        subst (λ r. PassedOn r (s.commands ++ parsed (e ∷ es))) (sym (if_false _ over))
          (parsed (e ∷ es), refl, inl over)
    | inl up ↦
        let (rest, all, done) = handle_events-commands es (handle_event ui json e s) in
        subst (λ r. PassedOn r (s.commands ++ parsed (e ∷ es))) (sym (if_true _ up))
          (rest, take_one e es s ∙ all, done)
  ]

  -- The commands that a session passes on are, in their order and each of them once, a first part of
  -- the commands among the texts that it receives; while its loop has not ended they are all of them.
  pub handle_socket-commands :
      (vm : ViewModel ui) (gets_out : Bool) (es : List (Event ui))
      → PassedOn (handle_socket ui json vm gets_out es) (parsed es)
  unfolding handle_socket
  handle_socket-commands vm gets_out es =
      let s : Session ui = record { running = true; sent = []; commands = [] } in
      let start = send_msg ui json (snapshot (from_view ui vm)) gets_out s in
      let (rest, all, done) = handle_events-commands es start in
      (rest, ap (λ l. l ++ parsed es) (sym (send_msg-commands _ gets_out s)) ∙ all, done)
