-- ===== src/Tests/View.antt =====
-- The graphical interface over the loopback.
use meshtastic_lora_rs.Common.{◌≡◌, refl, true, List, [], ◌∷◌, ◌++◌, some, none, arith, ◌==◌}
use meshtastic_lora_rs.Common.Hex.{hex8}
use meshtastic_lora_rs.Common.Text.{after}
use meshtastic_lora_rs.Common.Result.{codes}
use meshtastic_lora_rs.Mesh.Node.{NodeInfo}
use meshtastic_lora_rs.Model
use meshtastic_lora_rs.Model.{
  set_running, ViewModel, Command, send_text, set_sf, set_mode, set_node_short, terminal,
}
use meshtastic_lora_rs.Model.Chosen.{chosen, choose_all}
use meshtastic_lora_rs.Radio.{Loop}
use meshtastic_lora_rs.Radio.Control.{choices, concat, ticks-choices}
use meshtastic_lora_rs.Radio.LogBound.{IsBounded}
use meshtastic_lora_rs.Radio.LogTurns.{ticks-IsBounded}
use meshtastic_lora_rs.Radio.Send.{neighbour_text}
use meshtastic_lora_rs.Radio.Tick.{start, initial, ticks}
use meshtastic_lora_rs.Cli.{probed}
use meshtastic_lora_rs.View
use meshtastic_lora_rs.View.{Responses, MeshSimApp}
use meshtastic_lora_rs.View.Settings.{ui_driver_selector, ui_uhd_settings}
use meshtastic_lora_rs.View.Messages.{entry_dest, typed_dest, id_text}
use meshtastic_lora_rs.View.Layout.{desktop_radio}
use meshtastic_lora_rs.View.Mobile.{mobile_grid}
use meshtastic_lora_rs.View.Layouts.{mobile_grid_lem}
use meshtastic_lora_rs.View.Reports.{shown, shown_of, IsInRange}
use meshtastic_lora_rs.View.Synced.{
  Step, frame, turn, remote, step, steps, steps-turn, steps-IsInRange,
}
use meshtastic_lora_rs.View.Destination.{entry_dest-neighbour_text, typed_dest-id_text}
use meshtastic_lora_rs.Tests.Concrete.{toy_cipher, toy_proto, toy_ui, toy_lora, toy_gui, idle}

abbrev pub begun : Loop toy_ui toy_lora
begun = start toy_ui toy_lora [] 0 (probed toy_ui true (Model.new toy_ui 7))

abbrev pub shown_first : MeshSimApp toy_ui toy_gui
shown_first = View.new toy_ui toy_gui begun.vm []

-- Terminal mode, the third preset, a destination, a message; then the narrow layout and the defaults.
abbrev pub clicks : Responses toy_ui toy_gui
clicks = record idle {
  terminal_clicked = true;
  preset_clicked = λ i. i == 2;
  dest_typed = codes "!0000002a";
  dest_lost_focus = true;
  msg_typed = codes "hello";
  send_clicked = true;
}

abbrev narrow : Responses toy_ui toy_gui
narrow = record idle {
  is_mobile = true;
  menu_clicked = true;
  defaults_clicked = true;
  region_clicked = λ i. i == 15;
  spectrum_gesture = (5, 9);
}

abbrev day : List (Step toy_ui toy_gui)
day = frame clicks ∷ turn ∷ remote (set_running true) ∷ frame narrow ∷ frame clicks ∷ turn ∷ []

steps-turn_example :
    let desk =
      step toy_proto toy_cipher toy_ui toy_gui toy_lora turn
        (steps toy_proto toy_cipher toy_ui toy_gui toy_lora day (shown_first, begun)) in
    shown toy_ui toy_gui desk.0 ≡ shown_of toy_ui (chosen toy_ui desk.1.vm)
steps-turn_example =
    steps-turn toy_proto toy_cipher toy_ui toy_gui toy_lora day 7 [] 0 true
      (tt, (tt, (refl, (tt, (tt, (tt, tt))))))

shown_first-IsInRange : IsInRange toy_ui toy_gui shown_first
unfolding IsInRange View.new
shown_first-IsInRange = (omega arith, omega arith)

steps-IsInRange_example :
    IsInRange toy_ui toy_gui
      (steps toy_proto toy_cipher toy_ui toy_gui toy_lora day (shown_first, begun)).0
steps-IsInRange_example =
    steps-IsInRange toy_proto toy_cipher toy_ui toy_gui toy_lora day (shown_first, begun)
      shown_first-IsInRange

mobile_grid_lem_example :
    mobile_grid toy_ui toy_gui narrow shown_first
    ≡ ui_uhd_settings toy_ui toy_gui narrow
        (ui_driver_selector toy_ui toy_gui narrow (desktop_radio toy_ui toy_gui narrow shown_first))
mobile_grid_lem_example = mobile_grid_lem toy_ui toy_gui narrow shown_first

abbrev carol : NodeInfo
carol = record {
  node_id = 0xdeadbeef;
  short_name = codes "(C)";
  long_name = codes "Carol";
  last_rssi = none;
}

entry_dest-neighbour_text_example : entry_dest (neighbour_text carol) ≡ some 0xdeadbeef
entry_dest-neighbour_text_example =
    entry_dest-neighbour_text carol (unfold after in refl) (omega arith)

-- A short name with the mark in it names another node.
misled : entry_dest (codes "x(!00000001)(!" ++ codes " (!deadbeef)") ≡ some 1
unfolding entry_dest
misled = refl

typed_dest-id_text_example :
    (typed_dest (id_text 42) ≡ some 42)
    × (typed_dest (hex8 42) ≡ some 42)
    × (typed_dest (codes "0x" ++ hex8 42) ≡ some 42)
typed_dest-id_text_example = typed_dest-id_text 42 (omega arith)

abbrev turns : List (List (Command toy_ui))
turns =
    (set_sf 9 ∷ set_mode terminal ∷ [])
    ∷ []
    ∷ (send_text (codes "a") ∷ set_node_short (codes "X") ∷ [])
    ∷ []

begun-IsBounded : IsBounded toy_ui toy_lora begun
unfolding IsBounded start initial probed
begun-IsBounded = omega arith

ticks-IsBounded_example :
    IsBounded toy_ui toy_lora (ticks toy_proto toy_cipher toy_ui toy_lora turns begun)
ticks-IsBounded_example =
    ticks-IsBounded toy_proto toy_cipher toy_ui toy_lora turns begun begun-IsBounded

ticks-choices_example :
    choices toy_proto toy_cipher toy_ui toy_lora
      (ticks toy_proto toy_cipher toy_ui toy_lora turns begun)
    ≡ choose_all toy_ui (concat toy_ui turns) (choices toy_proto toy_cipher toy_ui toy_lora begun)
ticks-choices_example = ticks-choices toy_proto toy_cipher toy_ui toy_lora turns begun
