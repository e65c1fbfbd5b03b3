-- ===== src/Tests/Web.antt =====
-- The command line, and the web client over a wire that keeps what it carries.
use meshtastic_lora_rs.Common.{◌≡◌, refl, true, false, List, [], ◌∷◌, ◌++◌, map, some, none, Option}
use meshtastic_lora_rs.Common.Result.{Str, codes}
use meshtastic_lora_rs.Cli.{exits, panics, parse_args, default_bind, arm_of}
use meshtastic_lora_rs.Cli.Reference.{read_args, parse_args-read_args}
use meshtastic_lora_rs.Cli.Wishes.{Wish, bind_to, no_window, write, parse_args-bad}
use meshtastic_lora_rs.Cli.Main.{Machine, Launch, launched, main, main-write}
use meshtastic_lora_rs.Common.Result.{ok, err}
use meshtastic_lora_rs.Model
use meshtastic_lora_rs.Model.{ViewModel, Command, set_running, send_text, apply_all}
use meshtastic_lora_rs.ProtoWs.{from_view}
use meshtastic_lora_rs.Server.{Event, text, timer, other, handle_socket}
use meshtastic_lora_rs.WebClient.{Copy, writer, reader}
use meshtastic_lora_rs.WebClient.Session.{IsLive}
use meshtastic_lora_rs.WebClient.Relay.{handle_socket-writer}
use meshtastic_lora_rs.WebClient.Mirror.{reader-handle_socket}
use meshtastic_lora_rs.Tests.Concrete.{toy_ui}
use meshtastic_lora_rs.Tests.Wire.{wire_json, wire_web, commands_read, message_read}

-- An address is any text but the empty one.
abbrev toy_parse : Str → Option Str
toy_parse [] = none
toy_parse (b ∷ s) = some (b ∷ s)

abbrev argv : List Str
argv = codes "--headless" ∷ codes "--bind" ∷ codes "[::1]:80" ∷ codes "-x" ∷ []

parse_args-read_args_example :
    parse_args toy_parse (codes "mesh" ∷ argv)
    ≡ some (read_args toy_parse argv (record { bind = default_bind; headless = false }))
parse_args-read_args_example = parse_args-read_args toy_parse (codes "mesh") argv default_bind refl

abbrev wishes : List (Wish Str)
wishes = bind_to (codes "a:1") (codes "a:1") ∷ no_window ∷ bind_to (codes "b:2") (codes "b:2") ∷ []

abbrev machine : Machine Str
machine = record {
  uhd = true;
  desktop = true;
  probe = true;
  var = λ name. some [];
  run_native = ok tt;
  serve = λ at. err (codes "in use: " ++ at);
}

-- A window was not wanted, so what the server returns counts.
main-write_example :
    (l : Launch Str toy_ui) × (main toy_parse toy_ui machine 7
        (codes "mesh" ∷ write toy_parse wishes)
      ≡ some (launched l))
    × (l.bind ≡ codes "b:2")
    × (l.window ≡ false)
    × (l.result ≡ err (codes "in use: b:2"))
    × (l.shared.use_uhd ≡ true)
    × (l.shared.rebuild_driver ≡ true)
main-write_example =
    main-write toy_parse toy_ui machine 7 (codes "mesh") wishes default_bind refl
      (refl, (tt, (refl, tt)))

parse_args-bad_example :
    (parse_args toy_parse (codes "mesh" ∷ (write toy_parse wishes ++ (codes "--bind" ∷ [] ∷ [])))
      ≡ some (panics (codes "invalid --bind address")))
    × (parse_args toy_parse (codes "mesh" ∷ (write toy_parse wishes ++ (codes "--bind" ∷ [])))
        ≡ some (panics (codes "--bind needs an address")))
    × (parse_args toy_parse (codes "mesh" ∷ (write toy_parse wishes ++ (codes "-v" ∷ [])))
        ≡ some (exits 2 (codes "unknown argument: " ++ codes "-v")))
parse_args-bad_example =
    parse_args-bad toy_parse (codes "mesh") wishes default_bind [] (codes "-v") [] refl
      (refl, (tt, (refl, tt))) refl (unfold arm_of in refl)

abbrev desk : ViewModel toy_ui
desk = Model.new toy_ui 7

-- The state after a pause, with a neighbour and a warning.
abbrev later : ViewModel toy_ui
later = record desk {
  running = false;
  neighbours = codes "AL (!00000001)" ∷ [];
  uhd_warning = some (codes "no device");
}

abbrev cmds : List (Command toy_ui)
cmds = set_running false ∷ send_text (codes "hi") ∷ []

abbrev events : List (Event toy_ui)
events =
    text (14 ∷ 0 ∷ []) true
    ∷ timer desk true
    ∷ other
    ∷ text (15 ∷ 0 ∷ codes "hi") true
    ∷ timer later true
    ∷ []

events-IsLive : IsLive toy_ui wire_json events
events-IsLive = (refl, (refl, (refl, (refl, (refl, tt)))))

handle_socket-writer_example :
    let s = handle_socket toy_ui wire_json desk true events in
    (s.commands ≡ cmds) × (apply_all toy_ui s.commands desk ≡ apply_all toy_ui cmds desk)
handle_socket-writer_example =
    handle_socket-writer toy_ui wire_json wire_web desk desk events cmds (commands_read cmds)
      events-IsLive (unfold writer in refl)

abbrev copy : Copy toy_ui
copy = record { shared = Model.new toy_ui 8; warnings = [] }

-- A text that is no command is refused on the way.
abbrev with_refusal : List (Event toy_ui)
with_refusal = text [] true ∷ events

reader-handle_socket_example :
    let k =
      reader toy_ui wire_web
        (map some (handle_socket toy_ui wire_json desk true with_refusal).sent)
        copy in
    from_view toy_ui k.shared
    ≡ record (from_view toy_ui later) { spectrum = []; waterfall_row = [] }
reader-handle_socket_example =
    reader-handle_socket toy_ui wire_json wire_web desk with_refusal copy (message_read _)
      (message_read _, (tt, (message_read _, (tt, (tt, (message_read _, tt))))))
      (refl, events-IsLive)
