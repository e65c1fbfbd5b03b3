-- ===== src/Server.antt =====
-- mesh/src/server.rs: the routes and one WebSocket session. The socket, the timer and serde_json are not in the
-- repository: what they do is the list of events that `select!` sees and the parameter `Json`.
pub mod Commands
use meshtastic_lora_rs.Common.{
  Bool, true, false, List, [], ◌∷◌, ◌++◌, Option, none, some, if◌then◌else◌,
}
use meshtastic_lora_rs.Common.Result.{Result, ok, err, Str, codes}
use meshtastic_lora_rs.Common.Text.{bytes_eq}
use meshtastic_lora_rs.Model.{Ui, ViewModel, Command}
use meshtastic_lora_rs.ProtoWs.{ServerMsg, snapshot, error, from_view}

-- `serde_json::from_str::<Command>`, with the text of its error, and `to_string`.
pub record Json (ui : Ui) : Type 0 where
  pub from_str : Str → Result Str (Command ui)
  pub to_string : ServerMsg ui → Option Str

-- What `select!` sees. The state is the one that is shared at that moment, and the flag whether a
-- message that is sent then gets out.
pub data Event (ui : Ui) : Type 0 where
  timer : ViewModel ui → Bool → Event ui
  text : Str → Bool → Event ui
  close : Event ui
  gone : Event ui
  failed : Event ui
  other : Event ui

-- A session: whether its loop still runs, what it has sent, and the commands it has passed on.
pub record Session (ui : Ui) : Type 0 where
  pub running : Bool
  pub sent : List Str
  pub commands : List (Command ui)

module _ (ui : Ui) (json : Json ui) where
  -- A message that is no JSON is skipped; one that does not get out ends the session.
  unfoldable pub send_msg : ServerMsg ui → Bool → Session ui → Session ui
  send_msg msg gets_out s = elim (json.to_string msg) [
    | none ↦ s
    | some t ↦
        if gets_out then record s { sent = s.sent ++ (t ∷ []) } else record s { running = false }
  ]

  -- One turn of the loop.
  unfoldable pub handle_event : Event ui → Session ui → Session ui
  unfolding send_msg
  handle_event (timer vm gets_out) s = send_msg (snapshot (from_view ui vm)) gets_out s
  handle_event (text t gets_out) s = elim (json.from_str t) [
    | ok cmd ↦ record s { commands = s.commands ++ (cmd ∷ []) }
    | err e ↦ send_msg (error e) gets_out s
  ]
  handle_event close s = record s { running = false }
  handle_event gone s = record s { running = false }
  handle_event failed s = record s { running = false }
  handle_event other s = s

  unfoldable pub handle_events : List (Event ui) → Session ui → Session ui
  unfolding handle_event
  handle_events [] s = s
  handle_events (e ∷ es) s =
      let rest = handle_events es (handle_event e s) in if s.running then rest else s

  unfoldable pub handle_socket : ViewModel ui → Bool → List (Event ui) → Session ui
  unfolding handle_events
  handle_socket vm gets_out es = handle_events es (
      send_msg (snapshot (from_view ui vm)) gets_out
        (record { running = true; sent = []; commands = [] }))

-- What answers a request: `serve` routes `/ws` to the session, and the rest to the files of `./dist`
-- if that is a directory, or else `/` to a placeholder page.
pub data Handler : Type 0 where
  ws_handler : Handler
  serve_dir : Handler
  index_placeholder : Handler
  not_found : Handler

unfoldable pub serve : Bool → Str → Handler
unfolding bytes_eq
serve dist_is_dir path =
    if bytes_eq path (codes "/ws")
    then ws_handler
    else if dist_is_dir
    then serve_dir
    else if bytes_eq path (codes "/")
    then index_placeholder
    else not_found
