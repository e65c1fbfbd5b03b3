-- ===== src/WebClient.antt =====
-- mesh/src/bin/mesh_web.rs: the web client's two pumps and its URL. The browser's WebSocket is the list
-- of what it hands to the reader and a flag for each message of the writer; serde_json is the parameter
-- `Web`. The rest of `start` sets up the browser and the interface of View.
pub mod Session
pub mod Relay
pub mod Mirror
pub mod Remote
use meshtastic_lora_rs.Common.{
  ℕ, Bool, true, false, List, [], ◌∷◌, ◌++◌, Option, none, some, if◌then◌else◌,
}
use meshtastic_lora_rs.Common.Text.{bytes_eq}
use meshtastic_lora_rs.Common.Result.{Result, ok, err, Str, codes}
use meshtastic_lora_rs.Model
use meshtastic_lora_rs.Model.{Ui, ViewModel, Command}
use meshtastic_lora_rs.ProtoWs.{ServerMsg, snapshot, log_append, error, apply}

-- `serde_json::from_str::<ServerMsg>`, with the text of its error, and `to_string` of a command.
pub record Web (ui : Ui) : Type 0 where
  pub from_str : Str → Result Str (ServerMsg ui)
  pub to_string : Command ui → Option Str

-- The copy of the shared state and the warnings on the console.
pub record Copy (ui : Ui) : Type 0 where
  pub shared : ViewModel ui
  pub warnings : List Str

module _ (ui : Ui) (web : Web ui) where
  abbrev warn : Str → Copy ui → Copy ui
  warn text k = record k { warnings = k.warnings ++ (text ∷ []) }

  unfoldable pub read_msg : Result Str (ServerMsg ui) → Copy ui → Copy ui
  read_msg (ok (snapshot snap)) k = record k { shared = apply ui snap k.shared }
  read_msg (ok (log_append e)) k = k
  read_msg (ok (error e)) k = warn (codes "[mesh_web] server error: " ++ e) k
  read_msg (err e) k = warn (codes "[mesh_web] bad ServerMsg: " ++ e) k

  -- The reader, until the socket closes; what is no text is none, and skipped.
  unfoldable pub reader : List (Option Str) → Copy ui → Copy ui
  unfolding read_msg
  reader [] k = warn (codes "[mesh_web] WS reader closed") k
  reader (none ∷ msgs) k = reader msgs k
  reader (some t ∷ msgs) k = reader msgs (read_msg (web.from_str t) k)

  -- The writer: the frames that get out, until one does not. A command that has no JSON is skipped.
  unfoldable pub writer : List (Command ui × Bool) → List Str
  writer [] = []
  writer ((cmd, gets_out) ∷ cmds) =
      let rest = writer cmds in
      elim (web.to_string cmd) [ none ↦ rest | some t ↦ if gets_out then t ∷ rest else [] ]

-- `unwrap_or`.
abbrev or_else : Option Str → Str → Str
or_else none other = other
or_else (some s) other = s

-- The host and the protocol of the page, where the browser gives them.
unfoldable pub build_ws_url : Option Str → Option Str → Str
unfolding bytes_eq
build_ws_url host protocol =
    let at = or_else host (codes "localhost:9069") in
    let proto =
      if bytes_eq (or_else protocol []) (codes "https:") then codes "wss" else codes "ws" in
    proto ++ codes "://" ++ at ++ codes "/ws"

-- The page: the copy of the shared state, the frames that went out, and whether the socket failed to
-- open, with the text of the error.
pub record Page (ui : Ui) : Type 0 where
  pub copy : Copy ui
  pub frames : List Str
  pub failure : Option Str

module _ (ui : Ui) (web : Web ui) where
  -- `start`: `open` tells why the socket at a URL does not open, if it does not. The interface starts in
  -- either case, on the copy; the two pumps only on a socket.
  unfoldable pub start :
      Option Str
      → Option Str
      → (Str → Option Str)
      → ℕ
      → List (Option Str)
      → List (Command ui × Bool)
      → Page ui
  unfolding build_ws_url reader writer
  start host protocol open_failure drawn msgs cmds =
      let begun : Copy ui = record { shared = Model.new ui drawn; warnings = [] } in
      elim (open_failure (build_ws_url host protocol)) [
        | none ↦ record {
          copy = reader ui web msgs begun;
          frames = writer ui web cmds;
          failure = none;
        }
        | some e ↦ record {
          copy = begun;
          frames = [];
          failure = some (codes "[mesh_web] WS open failed: " ++ e);
        }
      ]
