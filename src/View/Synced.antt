-- ===== src/View/Synced.antt =====
-- The graphical interface and the radio loop together: frames and turns in any order over one shared
-- state and one channel, in which a command of a web client may arrive at any time.
use meshtastic_lora_rs.Common.{
  ℕ, ◌≡◌, refl, sym, ap, ◌∙◌, Bool, true, false, List, [], ◌∷◌, ◌++◌, All, Bool-cases, inl, inr,
}
use meshtastic_lora_rs.Mac.Crypto.{Cipher}
use meshtastic_lora_rs.Proto.{Proto}
use meshtastic_lora_rs.Model
use meshtastic_lora_rs.Model.{Ui, ViewModel, Command}
use meshtastic_lora_rs.Model.Chosen.{chosen, choose_all, choose_all-append}
use meshtastic_lora_rs.Radio.{Lora, Loop}
use meshtastic_lora_rs.Radio.Control.{tick-choices}
use meshtastic_lora_rs.Radio.Tick.{tick, start, initial}
use meshtastic_lora_rs.Radio.Steady.{make_driver-calm}
use meshtastic_lora_rs.Cli.{probed}
use meshtastic_lora_rs.View
use meshtastic_lora_rs.View.{Gui, Responses, MeshSimApp}
use meshtastic_lora_rs.View.Settings.{App}
use meshtastic_lora_rs.View.Frame.{update}
use meshtastic_lora_rs.View.Reports.{
  is_beside, show-is_beside, shown, shown_of, show_all, shown_of-choose_all, Reports, IsInRange,
}
use meshtastic_lora_rs.View.FrameReports.{update-Reports, mirror_uhd-chosen}

-- A frame with what egui reports in it, a turn of the radio loop, or a command that the server passes on.
pub data Step (ui : Ui) (gui : Gui ui) : Type 0 where
  frame : Responses ui gui → Step ui gui
  turn : Step ui gui
  remote : Command ui → Step ui gui

module _ (ui : Ui) (gui : Gui ui) where
  -- `shared'` is what a frame leaves of the shared state.
  synced_step :
      (shared shared' : ViewModel ui) (v v' : App ui gui)
      → Reports ui gui v v'
      → chosen ui shared' ≡ chosen ui shared
      → shown ui gui v ≡ shown_of ui (choose_all ui v.cmd_tx (chosen ui shared))
      → shown ui gui v' ≡ shown_of ui (choose_all ui v'.cmd_tx (chosen ui shared'))
  unfolding Reports
  synced_step shared shared' v v' (cmds, sent, same, _) kept synced =
      same
      ∙ ap (show_all ui cmds) synced
      ∙ sym (shown_of-choose_all ui cmds (choose_all ui v.cmd_tx (chosen ui shared)))
      ∙ ap (shown_of ui) (sym (choose_all-append ui v.cmd_tx cmds (chosen ui shared)))
      ∙ ap (λ q. shown_of ui (choose_all ui q (chosen ui shared))) (sym sent)
      ∙ ap (λ k. shown_of ui (choose_all ui v'.cmd_tx k)) (sym kept)

  update-chosen :
      (shared : ViewModel ui) (r : Responses ui gui) (v : App ui gui)
      → chosen ui (update ui gui shared r v).1 ≡ chosen ui shared
  unfolding update
  update-chosen shared r v = mirror_uhd-chosen ui gui shared v

module _ (ui : Ui) where
  probed-chosen : (found : Bool) (vm : ViewModel ui) → chosen ui (probed ui found vm) ≡ chosen ui vm
  unfolding probed
  probed-chosen true vm = refl
  probed-chosen false vm = refl

module _ (pr : Proto) (c : Cipher) (ui : Ui) (gui : Gui ui) (lora : Lora ui) where
  -- The interface and the radio loop.
  abbrev pub Desk : Type 0
  Desk = App ui gui × Loop ui lora

  unfoldable pub step : Step ui gui → Desk → Desk
  unfolding update tick
  step (frame r) (v, s) = let (v', vm) = update ui gui s.vm r v in (v', record s { vm = vm })
  step turn (v, s) = (record v { cmd_tx = [] }, tick pr c ui lora v.cmd_tx s)
  step (remote cmd) (v, s) = (record v { cmd_tx = v.cmd_tx ++ (cmd ∷ []) }, s)

  unfoldable pub steps : List (Step ui gui) → Desk → Desk
  unfolding step
  steps [] desk = desk
  steps (e ∷ es) desk = steps es (step e desk)

  -- The settings that the interface shows are those of the shared state once the commands on their way
  -- have arrived.
  unfoldable pub IsSynced : Desk → Type 0
  IsSynced (v, s) = shown ui gui v ≡ shown_of ui (choose_all ui v.cmd_tx (chosen ui s.vm))

  -- A web client sets nothing that the interface shows.
  abbrev pub IsBeside : Step ui gui → Type 0
  IsBeside (remote cmd) = is_beside ui cmd ≡ true
  IsBeside _ = Unit

  step-IsSynced :
      (e : Step ui gui) (desk : Desk) → IsBeside e → IsSynced desk → IsSynced (step e desk)
  unfolding step IsSynced
  step-IsSynced (frame r) (v, s) b synced =
      let (v', vm) = update ui gui s.vm r v in
      synced_step ui gui s.vm vm v v' (update-Reports ui gui s.vm r v)
        (update-chosen ui gui s.vm r v) synced
  step-IsSynced turn (v, s) b synced =
      synced ∙ ap (shown_of ui) (sym (tick-choices pr c ui lora v.cmd_tx s))
  step-IsSynced (remote cmd) (v, s) b synced =
      let k = choose_all ui v.cmd_tx (chosen ui s.vm) in
      synced
      ∙ sym (show-is_beside ui cmd (shown_of ui k) b)
      ∙ sym (shown_of-choose_all ui (cmd ∷ []) k)
      ∙ ap (shown_of ui) (sym (choose_all-append ui v.cmd_tx (cmd ∷ []) (chosen ui s.vm)))

  -- If the mode, the sliders, the check box, the frequency and the destination that the interface shows
  -- are those of the shared state once the commands in the channel are applied, it is so after any
  -- frames, turns and commands of web clients that set none of these, in any order, whatever is
  -- clicked, typed, received and sent.
  pub steps-IsSynced :
      (es : List (Step ui gui)) (desk : Desk)
      → All IsBeside es
      → IsSynced desk
      → IsSynced (steps es desk)
  unfolding steps
  steps-IsSynced [] desk b synced = synced
  steps-IsSynced (e ∷ es) desk (first, later) synced =
      steps-IsSynced es (step e desk) later (step-IsSynced e desk first synced)

  new-shown :
      (drawn : ℕ) (shared : ViewModel ui)
      → chosen ui shared ≡ chosen ui (Model.new ui drawn)
      → shown ui gui (View.new ui gui shared [])
        ≡ shown_of ui
            (choose_all ui (View.new ui gui shared []).cmd_tx (chosen ui (Model.new ui drawn)))
  unfolding View.new
  new-shown drawn shared same = elim (Bool-cases shared.use_uhd) [
    | inl used ↦ rw used refl
    | inr unused ↦ rw unused refl
  ]

  -- The program starts so.
  pub new-IsSynced :
      (drawn : ℕ) (driver : lora.Driver) (w : lora.W) (uhd : Bool)
      → let vm = probed ui uhd (Model.new ui drawn) in
        let s = start ui lora driver w vm in IsSynced (View.new ui gui s.vm [], s)
  unfolding IsSynced start
  new-IsSynced drawn driver w uhd =
      let vm = probed ui uhd (Model.new ui drawn) in
      let s = start ui lora driver w vm in
      let kept : chosen ui s.vm ≡ chosen ui (Model.new ui drawn) =
        ap (λ k. k.0.3) (make_driver-calm ui lora (initial ui lora driver w vm))
        ∙ probed-chosen ui uhd (Model.new ui drawn) in
      new-shown drawn s.vm kept
      ∙ ap (λ k. shown_of ui (choose_all ui (View.new ui gui s.vm []).cmd_tx k)) (sym kept)

  -- From the program's start, whether a device was found or not, let frames, turns and commands of web
  -- clients come in any order, where no web client sets the mode, a slider, the check box, the frequency
  -- or the destination. After one turn more, the mode, the sliders, the check box, the frequency and
  -- the destination that the interface shows are those of the shared state.
  pub steps-turn :
      (es : List (Step ui gui)) (drawn : ℕ) (driver : lora.Driver) (w : lora.W) (uhd : Bool)
      → All IsBeside es
      → let s = start ui lora driver w (probed ui uhd (Model.new ui drawn)) in
        let desk = step turn (steps es (View.new ui gui s.vm [], s)) in
        shown ui gui desk.0 ≡ shown_of ui (chosen ui desk.1.vm)
  unfolding step
  steps-turn es drawn driver w uhd beside =
      let s = start ui lora driver w (probed ui uhd (Model.new ui drawn)) in
      let desk = steps es (View.new ui gui s.vm [], s) in
      unfold IsSynced in
      step-IsSynced turn desk tt
        (steps-IsSynced es (View.new ui gui s.vm [], s) beside (new-IsSynced drawn driver w uhd))

  step-IsInRange :
      (e : Step ui gui) (desk : Desk) → IsInRange ui gui desk.0 → IsInRange ui gui (step e desk).0
  unfolding step
  step-IsInRange (frame r) (v, s) fine =
      let reported = update-Reports ui gui s.vm r v in unfold Reports in reported.3 fine
  step-IsInRange turn (v, s) fine = unfold IsInRange in fine
  step-IsInRange (remote cmd) (v, s) fine = unfold IsInRange in fine

  -- If the selected preset and the selected region are in their tables, they are so after any frames,
  -- turns and commands of web clients: no frame looks up an entry beyond a table's end, where the code would panic.
  pub steps-IsInRange :
      (es : List (Step ui gui)) (desk : Desk)
      → IsInRange ui gui desk.0
      → IsInRange ui gui (steps es desk).0
  unfolding steps
  steps-IsInRange [] desk fine = fine
  steps-IsInRange (e ∷ es) desk fine = steps-IsInRange es (step e desk) (step-IsInRange e desk fine)
