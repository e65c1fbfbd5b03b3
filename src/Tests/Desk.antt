-- ===== src/Tests/Desk.antt =====
-- Examples for the parts around the node: presets, shared state, snapshots and the server's session.
use meshtastic_lora_rs.Common.{◌≡◌, refl, true, List, [], ◌∷◌, some}
use meshtastic_lora_rs.Common.Result.{Result, ok, err, Str, codes}
use meshtastic_lora_rs.Common.Text.{to_ascii_lowercase}
use meshtastic_lora_rs.Presets.{long_fast, preset_by_name}
use meshtastic_lora_rs.Presets.Lookup.{preset_by_name_lem}
use meshtastic_lora_rs.Model
use meshtastic_lora_rs.Model.{
  ViewModel, Command, apply_all, set_sf, send_text, set_uhd_args, terminal, listen,
}
use meshtastic_lora_rs.Server.{Json, Event, text, timer, close, handle_socket}
use meshtastic_lora_rs.Tests.Concrete.{toy_ui}

long_fast_found : preset_by_name (codes "longFAST") ≡ some long_fast
long_fast_found =
    (preset_by_name_lem (codes "longFAST") long_fast).1
      ((5, refl), unfold to_ascii_lowercase in refl)

abbrev desk : ViewModel toy_ui
desk = Model.new toy_ui 7

abbrev typed : List (Command toy_ui)
typed = send_text (codes "a") ∷ set_sf 9 ∷ set_uhd_args (codes "x") ∷ send_text (codes "b") ∷ []

-- A text is a command to send it, unless it is empty.
abbrev toy_from_str : Str → Result Str (Command toy_ui)
toy_from_str [] = err (codes "EOF")
toy_from_str (x ∷ xs) = ok (send_text (x ∷ xs))

abbrev toy_json : Json toy_ui
toy_json = record { from_str = toy_from_str; to_string = λ m. some (codes "{}") }

abbrev session_events : List (Event toy_ui)
session_events =
    text (codes "a") true ∷ timer desk true ∷ text [] true ∷ close ∷ text (codes "b") true ∷ []

passed_on :
    (handle_socket toy_ui toy_json desk true session_events).commands ≡ send_text (codes "a") ∷ []
unfolding handle_socket
passed_on = refl
