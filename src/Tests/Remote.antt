-- ===== src/Tests/Remote.antt =====
-- The interface in the browser and the radio loop over a wire that keeps what it carries.
use meshtastic_lora_rs.Common.{◌≡◌, refl, true, false, List, [], ◌∷◌, map, some, ap}
use meshtastic_lora_rs.Common.Result.{Str}
use meshtastic_lora_rs.Model
use meshtastic_lora_rs.Model.{ViewModel}
use meshtastic_lora_rs.Server.{Event, text, timer, handle_socket}
use meshtastic_lora_rs.WebClient.{writer}
use meshtastic_lora_rs.WebClient.Session.{IsLive}
use meshtastic_lora_rs.WebClient.Relay.{texts_in, sent_out}
use meshtastic_lora_rs.WebClient.Remote.{frames, tick-frames}
use meshtastic_lora_rs.Radio.{Loop}
use meshtastic_lora_rs.Radio.Control.{choices}
use meshtastic_lora_rs.Radio.Tick.{start, initial, tick}
use meshtastic_lora_rs.View
use meshtastic_lora_rs.View.{Responses, MeshSimApp}
use meshtastic_lora_rs.View.Reports.{shown, shown_of}
use meshtastic_lora_rs.Tests.Concrete.{toy_cipher, toy_proto, toy_ui, toy_lora, toy_gui, idle}
use meshtastic_lora_rs.Tests.Wire.{wire_json, wire_web, commands_read}

abbrev far : Loop toy_ui toy_lora
far = start toy_ui toy_lora [] 0 (Model.new toy_ui 7)

-- The browser has a copy of its own.
abbrev copy : ViewModel toy_ui
copy = Model.new toy_ui 8

abbrev near : MeshSimApp toy_ui toy_gui
near = View.new toy_ui toy_gui copy []

abbrev run : List (ViewModel toy_ui × Responses toy_ui toy_gui)
run =
    (copy, record idle { terminal_clicked = true })
    ∷ (copy, record idle { auto_tx_changed = some false })
    ∷ []

abbrev passed : List Str
passed =
    writer toy_ui wire_web
      (sent_out toy_ui wire_json wire_web (frames toy_ui toy_gui run near).cmd_tx)

abbrev events : List (Event toy_ui)
events = timer copy true ∷ map (λ t. text t true) passed

abbrev arriving : List Str → List (Event toy_ui)
arriving ts = map (λ t. text t true) ts

arriving-IsLive : (ts : List Str) → IsLive toy_ui wire_json (arriving ts)
arriving-IsLive [] = tt
arriving-IsLive (t ∷ ts) = (refl, arriving-IsLive ts)

texts_in-arriving : (ts : List Str) → texts_in toy_ui wire_json wire_web (arriving ts) ≡ ts
texts_in-arriving [] = refl
texts_in-arriving (t ∷ ts) = ap (λ l. t ∷ l) (texts_in-arriving ts)

is_relayed :
    shown toy_ui toy_gui near ≡ shown_of toy_ui (choices toy_proto toy_cipher toy_ui toy_lora far)
unfolding start initial View.new
is_relayed = refl

tick-frames_example :
    let commands = (handle_socket toy_ui wire_json copy true events).commands in
    shown toy_ui toy_gui (frames toy_ui toy_gui run near)
    ≡ shown_of toy_ui (
        choices toy_proto toy_cipher toy_ui toy_lora
          (tick toy_proto toy_cipher toy_ui toy_lora commands far))
tick-frames_example =
    tick-frames toy_proto toy_cipher toy_ui toy_gui toy_lora wire_json wire_web run near far copy
      events (commands_read (frames toy_ui toy_gui run near).cmd_tx) (refl, arriving-IsLive passed)
      (unfold View.new in refl) is_relayed (texts_in-arriving passed)
