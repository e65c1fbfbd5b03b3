-- ===== src/Radio/Control.antt =====
-- Who decides what: the radio loop leaves the users' choices to the commands.
use meshtastic_lora_rs.Common.{
  ◌≡◌, refl, ap, ◌∙◌, sym, List, [], ◌∷◌, ◌++◌, Bool-cases, inl, inr, if_true, if_false,
}
use meshtastic_lora_rs.Mac.Crypto.{Cipher}
use meshtastic_lora_rs.Proto.{Proto}
use meshtastic_lora_rs.Model.{Ui, Command, apply_all}
use meshtastic_lora_rs.Model.Chosen.{
  Chosen, chosen, choose_all, chosen-apply_all, choose_all-append,
}
use meshtastic_lora_rs.Radio.{Lora, Loop, build_node, push_log, push_log_full}
use meshtastic_lora_rs.Radio.Rebuild.{rebuild_node}
use meshtastic_lora_rs.Radio.Tick.{settle, tick, ticks}
use meshtastic_lora_rs.Radio.Steady.{View, settled-calm}
use meshtastic_lora_rs.Radio.Turns.{commanded, worked-view}

module _ (ui : Ui) where
  -- The commands of a run of turns, in their order.
  abbrev pub concat : List (List (Command ui)) → List (Command ui)
  concat [] = []
  concat (cmds ∷ later) = cmds ++ concat later

module _ (pr : Proto) (c : Cipher) (ui : Ui) (lora : Lora ui) where
  abbrev pub choices : Loop ui lora → Chosen ui
  choices s = chosen ui s.vm

  rebuild_node-choices : (s : Loop ui lora) → choices (rebuild_node ui lora s) ≡ choices s
  unfolding rebuild_node build_node push_log push_log_full
  rebuild_node-choices s = elim (Bool-cases s.vm.rebuild_nodes) [
    | inl up ↦ ap choices (if_true _ up)
    | inr down ↦ ap choices (if_false _ down)
  ]

  pub settle-choices : (s : Loop ui lora) → choices (settle ui lora s) ≡ choices s
  unfolding settle
  settle-choices s =
      ap (λ k. k.0.3) (settled-calm ui lora (rebuild_node ui lora s)) ∙ rebuild_node-choices s

  pub tick-choices :
      (cmds : List (Command ui)) (s : Loop ui lora)
      → choices (tick pr c ui lora cmds s) ≡ choose_all ui cmds (choices s)
  unfolding tick
  tick-choices cmds s = elim (Bool-cases (apply_all ui cmds s.vm).running) [
    | inr paused ↦ ap choices (if_false _ paused) ∙ chosen-apply_all ui cmds s.vm
    | inl runs ↦
        let begun = commanded pr c ui lora cmds s in
        ap choices (if_true _ runs)
        ∙ ap (λ (v : View ui). v.3) (worked-view pr c ui lora begun)
        ∙ settle-choices begun
        ∙ chosen-apply_all ui cmds s.vm
  ]

  -- After any run of turns, whatever was received and sent on the way, the users' choices are what
  -- the commands of all turns, one after the other, make of the first: the loop itself sets none.
  pub ticks-choices :
      (turns : List (List (Command ui))) (s : Loop ui lora)
      → choices (ticks pr c ui lora turns s) ≡ choose_all ui (concat ui turns) (choices s)
  unfolding ticks
  ticks-choices [] s = refl
  ticks-choices (cmds ∷ later) s =
      ticks-choices later (tick pr c ui lora cmds s)
      ∙ ap (choose_all ui (concat ui later)) (tick-choices cmds s)
      ∙ sym (choose_all-append ui cmds (concat ui later) (choices s))
