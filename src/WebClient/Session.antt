-- ===== src/WebClient/Session.antt =====
-- A session of the server with no failure: it goes on, and what it sends.
use mathlib.Core.List.{append_assoc, append-nil}
use meshtastic_lora_rs.Common.{
  ◌≡◌, refl, sym, ap, ◌∙◌, Bool, true, false, List, [], ◌∷◌, ◌++◌, Option, none, some, All,
  Option-cases, inl, inr, if_true,
}
use meshtastic_lora_rs.Common.Result.{Result, ok, err, Str, Result-cases}
use meshtastic_lora_rs.Model.{Ui, ViewModel, Command}
use meshtastic_lora_rs.ProtoWs.{ServerMsg, snapshot, error, from_view}
use meshtastic_lora_rs.Server.{
  Json, Event, timer, text, close, gone, failed, other, Session, send_msg, handle_event,
  handle_events, handle_socket,
}

module _ (ui : Ui) (json : Json ui) where
  -- Nothing ends the session, and whatever it sends gets out.
  abbrev pub goes_on : Event ui → Bool
  goes_on (timer vm gets_out) = gets_out
  goes_on (text t gets_out) = gets_out
  goes_on close = false
  goes_on gone = false
  goes_on failed = false
  goes_on other = true

  abbrev pub IsLive : List (Event ui) → Type 0
  IsLive es = All (λ e. goes_on e ≡ true) es

  abbrev pub frame_of : Option Str → List Str
  frame_of none = []
  frame_of (some t) = t ∷ []

  -- The reply to a text, if it is no command.
  abbrev pub refusal : Result Str (Command ui) → List Str
  refusal (ok cmd) = []
  refusal (err e) = frame_of (json.to_string (error e))

  -- What the session answers to an event.
  abbrev pub answer : Event ui → List Str
  answer (timer vm gets_out) = frame_of (json.to_string (snapshot (from_view ui vm)))
  answer (text t gets_out) = refusal (json.from_str t)
  answer _ = []

  abbrev pub answers : List (Event ui) → List Str
  answers [] = []
  answers (e ∷ es) = answer e ++ answers es

  send_msg-live :
      (msg : ServerMsg ui) (s : Session ui)
      → ((send_msg ui json msg true s).running ≡ s.running)
        × ((send_msg ui json msg true s).sent ≡ s.sent ++ frame_of (json.to_string msg))
  unfolding send_msg
  send_msg-live msg s = elim (Option-cases (json.to_string msg)) [
    | inl e ↦ rw (e, send_msg) (refl, sym (append-nil s.sent))
    | inr (t, e) ↦ rw (e, send_msg) (refl, refl)
  ]

  handle_event-live :
      (e : Event ui) (s : Session ui)
      → goes_on e ≡ true
      → ((handle_event ui json e s).running ≡ s.running)
        × ((handle_event ui json e s).sent ≡ s.sent ++ answer e)
  unfolding handle_event
  handle_event-live (timer vm true) s h = send_msg-live (snapshot (from_view ui vm)) s
  handle_event-live (timer vm false) s h = cc
  handle_event-live (text t false) s h = cc
  handle_event-live (text t true) s h = elim (Result-cases (json.from_str t)) [
    | inl (cmd, e) ↦ rw (e, handle_event) (refl, sym (append-nil s.sent))
    | inr (x, e) ↦ rw (e, handle_event) (send_msg-live (error x) s)
  ]
  handle_event-live close s h = cc
  handle_event-live gone s h = cc
  handle_event-live failed s h = cc
  handle_event-live other s h = (refl, sym (append-nil s.sent))

  handle_events-live :
      (es : List (Event ui)) (s : Session ui)
      → s.running ≡ true
      → IsLive es
      → ((handle_events ui json es s).running ≡ true)
        × ((handle_events ui json es s).sent ≡ s.sent ++ answers es)
  unfolding handle_events
  handle_events-live [] s up live = (up, sym (append-nil s.sent))
  handle_events-live (e ∷ es) s up (first, later) =
      let (on, sent) = handle_event-live e s first in
      let (still, all) = handle_events-live es (handle_event ui json e s) (on ∙ up) later in
      (
        ap (λ (r : Session ui). r.running) (if_true _ up) ∙ still,
        ap (λ (r : Session ui). r.sent) (if_true _ up)
            ∙ all
            ∙ ap (λ l. l ++ answers es) sent
            ∙ append_assoc s.sent (answer e) (answers es),
      )

  pub handle_socket-live :
      (vm : ViewModel ui) (es : List (Event ui))
      → IsLive es
      → ((handle_socket ui json vm true es).running ≡ true)
        × ((handle_socket ui json vm true es).sent ≡ answers (timer vm true ∷ es))
  unfolding handle_socket
  handle_socket-live vm es live =
      let s : Session ui = record { running = true; sent = []; commands = [] } in
      let (up, sent) = send_msg-live (snapshot (from_view ui vm)) s in
      let begun = send_msg ui json (snapshot (from_view ui vm)) true s in
      let (still, all) = handle_events-live es begun up live in
      (still, all ∙ ap (λ l. l ++ answers es) sent)
