-- ===== src/View/Messages.antt =====
-- The messages of the graphical interface: whom to write to, what to write, and the log.
use meshtastic_lora_rs.Common.{
  ℕ, ◌+◌, ◌-◌, Bool, true, false, not, ◌&&◌, ◌||◌, List, [], ◌∷◌, ◌++◌, map, Option, none, some,
  if◌then◌else◌, ◌==◌, ltb, leb,
}
use meshtastic_lora_rs.Common.Hex.{hex8, u32_from_hex}
use meshtastic_lora_rs.Common.Int.{ℤ}
use meshtastic_lora_rs.Common.Text.{decimal, split_nth1, strip_suffix, trim_bangs, trim_0x}
use meshtastic_lora_rs.Common.Result.{Str, codes}
use meshtastic_lora_rs.Mac.Packet.{broadcast}
use meshtastic_lora_rs.Model.{
  Ui, MsgDir, tx, rx, fwd, system, error, LogEntry, ViewModel, set_tx_dest, send_text,
}
use meshtastic_lora_rs.View.{Gui, Responses, MeshSimApp, send}

abbrev pub is_empty : Str → Bool
is_empty [] = true
is_empty (b ∷ s) = false

-- The id in an entry of the list of neighbours.
unfoldable pub entry_dest : Str → Option ℕ
unfolding split_nth1 strip_suffix u32_from_hex
entry_dest entry = elim (split_nth1 (codes "(!") entry) [
  | none ↦ none
  | some s ↦ elim (strip_suffix b')' s) [ none ↦ none | some hex ↦ u32_from_hex hex ]
]

-- The id that a user types.
unfoldable pub typed_dest : Str → Option ℕ
unfolding trim_bangs trim_0x u32_from_hex
typed_dest text = u32_from_hex (trim_0x (trim_bangs text))

abbrev pub id_text : ℕ → Str
id_text id = codes "!" ++ hex8 id

abbrev pub dest_label : ℕ → Str
dest_label dest = if dest == broadcast then codes "Broadcast" else id_text dest

abbrev pub Rgb : Type 0
Rgb = ℕ × ℕ × ℕ

abbrev prefix : MsgDir → Str
prefix tx = codes "TX "
prefix rx = codes "RX "
prefix fwd = codes "FWD"
prefix system = codes "SYS"
prefix error = codes "ERR"

abbrev dir_color : MsgDir → Rgb
dir_color tx = (100, 180, 255)
dir_color rx = (100, 220, 100)
dir_color fwd = (255, 200, 80)
dir_color system = (180, 180, 180)
dir_color error = (220, 100, 100)

-- A line of the log and its colour.
abbrev pub log_line : LogEntry → Str × Rgb
log_line e = (
  codes "["
      ++ e.time
      ++ codes "] "
      ++ prefix e.dir
      ++ elim e.from_id [ none ↦ [] | some id ↦ codes " " ++ id_text id ]
      ++ codes " "
      ++ e.text
      ++ elim e.hops [ none ↦ [] | some h ↦ codes " (hops: " ++ decimal h ++ codes ")" ],
  if e.self_origin then (90, 90, 90) else dir_color e.dir,
)

abbrev is_rx : LogEntry → Bool
is_rx e = elim e.dir [ rx ↦ true | _ ↦ false ]

abbrev count_rx : List LogEntry → ℕ
count_rx [] = 0
count_rx (e ∷ log) = if is_rx e then count_rx log + 1 else count_rx log

module _ (ui : Ui) (gui : Gui ui) where
  abbrev App : Type 0
  App = MeshSimApp ui gui

  unfoldable pub ui_message_log : ViewModel ui → List (Str × Rgb)
  ui_message_log shared = map log_line shared.log

  unfoldable pub unread_count : ViewModel ui → ℕ
  unread_count shared = count_rx shared.log

  -- The percentage of messages lost and its colour, once something was sent.
  unfoldable pub per : ℕ → ℕ → Option (ui.F32 × Rgb)
  per sent received =
      let int32 : ℕ → ui.F32 = λ n. ui.f32_of_ℤ (ℤ.pos n) in
      let lost = sent - (if leb received sent then received else sent) in
      let rate = gui.mul32 (gui.div32 (gui.f32_of_ℕ lost) (gui.f32_of_ℕ sent)) (int32 100) in
      let color : Rgb =
        if gui.lt32 rate (int32 5)
        then (100, 220, 100)
        else if gui.lt32 rate (int32 20)
        then (255, 200, 80)
        else (220, 100, 100) in
      if ltb 0 sent then some (rate, color) else none

  abbrev pub write_to : ℕ → App → App
  write_to id v = send ui gui (set_tx_dest id) (record v { tx_dest = id })

  abbrev pub write_to_if : Option ℕ → App → App
  write_to_if none v = v
  write_to_if (some id) v = write_to id v

  -- The entries from index `i` on; one without an id is not offered.
  unfoldable pub pick_neighbours : (ℕ → Bool) → ℕ → List Str → App → App
  unfolding entry_dest
  pick_neighbours clicked i [] v = v
  pick_neighbours clicked i (entry ∷ entries) v =
      pick_neighbours clicked (i + 1) entries
        (if clicked i then write_to_if (entry_dest entry) v else v)

  -- The field for an id is cleared whether it holds one or not.
  unfoldable pub ui_dest : ViewModel ui → Responses ui gui → App → App
  unfolding pick_neighbours typed_dest
  ui_dest shared r v =
      let v₁ : App = if r.broadcast_clicked then write_to broadcast v else v in
      let v₂ : App = pick_neighbours r.neighbour_clicked 0 shared.neighbours v₁ in
      let v₃ : App = record v₂ { tx_dest_input = r.dest_typed } in
      if r.dest_lost_focus && not (is_empty r.dest_typed)
      then record (write_to_if (typed_dest r.dest_typed) v₃) { tx_dest_input = [] }
      else v₃

  unfoldable pub ui_dest_and_input : ViewModel ui → Responses ui gui → App → App
  unfolding ui_dest
  ui_dest_and_input shared r v =
      let v₁ : App = record (ui_dest shared r v) { msg_input = r.msg_typed } in
      let enter = r.msg_lost_focus && r.enter_pressed in
      if (r.send_clicked || enter) && not (is_empty r.msg_typed)
      then send ui gui (send_text r.msg_typed) (record v₁ { msg_input = [] })
      else v₁
