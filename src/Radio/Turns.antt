-- ===== src/Radio/Turns.antt =====
-- A whole turn: which node it leaves, and what the driver sees of it in Listen mode.
use meshtastic_lora_rs.Common.{
  ◌⊎◌, ℕ, suc, ◌≡◌, refl, sym, ap, subst, ◌∙◌, true, false, List, [], ◌∷◌, Bool-cases, inl, inr,
  length, if_true, if_false,
}
use meshtastic_lora_rs.Common.Result.{Str}
use meshtastic_lora_rs.Mac.Crypto.{Cipher}
use meshtastic_lora_rs.Mesh.Node
use meshtastic_lora_rs.Mesh.Node.{LocalNode}
use meshtastic_lora_rs.Proto.{Proto}
use meshtastic_lora_rs.Model.{Ui, ViewModel, Command, SimMode, listen, apply_all}
use meshtastic_lora_rs.Model.Commands.{apply_all-identity}
use meshtastic_lora_rs.Radio.{Lora, Loop, push_log, push_log_full, samples_per_tick, build_node}
use meshtastic_lora_rs.Radio.Rebuild.{rebuild_node}
use meshtastic_lora_rs.Radio.Spectrum.{take_samples}
use meshtastic_lora_rs.Radio.Decode.{decode_loop}
use meshtastic_lora_rs.Radio.Tick.{initial, start, settle, send_phases, tick, ticks}
use meshtastic_lora_rs.Radio.Silence.{listen-silent}
use meshtastic_lora_rs.Radio.Steady.{make_driver-calm, View, view, settled-calm, send_phases-view}
use meshtastic_lora_rs.Radio.Receiving.{take_samples-view, decode_loop-view}

module _ (pr : Proto) (c : Cipher) (ui : Ui) (lora : Lora ui) where
  -- The node has the id and the names that the shared state gives.
  abbrev pub IsNamed : Loop ui lora → Type 0
  IsNamed s = s.node.local ≡ Node.with_id s.vm.node_id s.vm.node_short s.vm.node_long

  -- The flag for a new node is raised, or the node is up to date.
  abbrev pub IsCurrent : Loop ui lora → Type 0
  IsCurrent s = (s.vm.rebuild_nodes ≡ true) ⊎ IsNamed s

  -- The state after a turn's commands.
  abbrev pub commanded : List (Command ui) → Loop ui lora → Loop ui lora
  commanded cmds s = record s { vm = apply_all ui cmds s.vm }

  commanded-IsCurrent :
      (cmds : List (Command ui)) (s : Loop ui lora) → IsCurrent s → IsCurrent (commanded cmds s)
  commanded-IsCurrent cmds s cur = elim (Bool-cases (apply_all ui cmds s.vm).rebuild_nodes) [
    | inl up ↦ inl up
    | inr down ↦
        let (was_down, same) = apply_all-identity ui cmds s.vm down in
        elim cur [
          | inl was_up ↦ cc
          | inr named ↦
              inr
                (named ∙ ap (λ (v : SimMode × Str × Str × ℕ). Node.with_id v.3 v.1 v.2) (sym same))
        ]
  ]

  -- A view with an up-to-date node, the flag down, and the given mode.
  abbrev Settled : SimMode → View ui → Type 0
  Settled m v = (v.2 ≡ Node.with_id v.0.3 v.0.1 v.0.2) × (v.1 ≡ false) × (v.0.0 ≡ m)

  rebuild_node-Settled :
      (s : Loop ui lora) → IsCurrent s → Settled s.vm.mode (view ui lora (rebuild_node ui lora s))
  unfolding rebuild_node build_node push_log push_log_full
  rebuild_node-Settled s cur = elim (Bool-cases s.vm.rebuild_nodes) [
    | inl up ↦ subst (Settled s.vm.mode) (sym (ap (view ui lora) (if_true _ up))) (refl, refl, refl)
    | inr down ↦ elim cur [
      | inl up ↦ cc
      | inr named ↦
          subst (Settled s.vm.mode) (sym (ap (view ui lora) (if_false _ down))) (named, down, refl)
    ]
  ]

  settle-Settled :
      (s : Loop ui lora) → IsCurrent s → Settled s.vm.mode (view ui lora (settle ui lora s))
  unfolding settle
  settle-Settled s cur =
      subst (Settled s.vm.mode)
        (sym (ap (λ k. k.0) (settled-calm ui lora (rebuild_node ui lora s))))
        (rebuild_node-Settled s cur)

  -- The phases that follow the commands of a turn that runs.
  abbrev pub worked : Loop ui lora → Loop ui lora
  worked s =
      let sampled = take_samples ui lora (send_phases pr c ui lora (settle ui lora s)) in
      (decode_loop pr c ui lora (suc (length sampled.rx_buffer)) sampled).1

  sampled-view :
      (s : Loop ui lora)
      → view ui lora (take_samples ui lora (send_phases pr c ui lora s)) ≡ view ui lora s
  sampled-view s =
      (take_samples-view ui lora (send_phases pr c ui lora s)).0 ∙ send_phases-view pr c ui lora s

  pub worked-view : (s : Loop ui lora) → view ui lora (worked s) ≡ view ui lora (settle ui lora s)
  worked-view s =
      let sampled = take_samples ui lora (send_phases pr c ui lora (settle ui lora s)) in
      decode_loop-view pr c ui lora (suc (length sampled.rx_buffer)) sampled
      ∙ sampled-view (settle ui lora s)

  worked-Settled : (s : Loop ui lora) → IsCurrent s → Settled s.vm.mode (view ui lora (worked s))
  worked-Settled s cur = subst (Settled s.vm.mode) (sym (worked-view s)) (settle-Settled s cur)

  -- From a state whose node is up to date or due for a rebuild, a turn that runs leaves a node with
  -- the id and the names of the shared state, whatever commands came and whatever was received, and
  -- no rebuild is pending.
  pub tick-IsNamed :
      (cmds : List (Command ui)) (s : Loop ui lora)
      → IsCurrent s
      → (apply_all ui cmds s.vm).running ≡ true
      → let s' = tick pr c ui lora cmds s in IsNamed s' × (s'.vm.rebuild_nodes ≡ false)
  unfolding tick
  tick-IsNamed cmds s cur runs =
      let (named, down, _) =
        subst (Settled (apply_all ui cmds s.vm).mode) (sym (ap (view ui lora) (if_true _ runs)))
          (worked-Settled (commanded cmds s) (commanded-IsCurrent cmds s cur)) in
      (named, down)

  tick-IsCurrent :
      (cmds : List (Command ui)) (s : Loop ui lora)
      → IsCurrent s
      → IsCurrent (tick pr c ui lora cmds s)
  unfolding tick
  tick-IsCurrent cmds s cur = elim (Bool-cases (apply_all ui cmds s.vm).running) [
    | inl runs ↦ inr (tick-IsNamed cmds s cur runs).0
    | inr paused ↦ subst IsCurrent (sym (if_false _ paused)) (commanded-IsCurrent cmds s cur)
  ]

  -- If the node is up to date or due for a rebuild before a run of turns, it is so after it, whatever
  -- commands come and whatever is received.
  pub ticks-IsCurrent :
      (turns : List (List (Command ui))) (s : Loop ui lora)
      → IsCurrent s
      → IsCurrent (ticks pr c ui lora turns s)
  unfolding ticks
  ticks-IsCurrent [] s cur = cur
  ticks-IsCurrent (cmds ∷ later) s cur =
      ticks-IsCurrent later (tick pr c ui lora cmds s) (tick-IsCurrent cmds s cur)

  -- From a state whose node is up to date or due for a rebuild, a turn that runs in Listen mode leaves
  -- the driver that the settling phases made, ticked once: beacon, typed and automatic messages and
  -- relays of what the decoder finds change nothing of it.
  pub tick-silent :
      (cmds : List (Command ui)) (s : Loop ui lora)
      → IsCurrent s
      → (apply_all ui cmds s.vm).running ≡ true
      → (apply_all ui cmds s.vm).mode ≡ listen
      → (w : lora.W) × ((tick pr c ui lora cmds s).driver
          ≡ (lora.driver_tick (settle ui lora (commanded cmds s)).driver samples_per_tick w).0.1)
  unfolding tick
  tick-silent cmds s cur runs quiet =
      let begun = commanded cmds s in
      let ready = settle ui lora begun in
      let (_, _, same) = settle-Settled begun (commanded-IsCurrent cmds s cur) in
      let sent = send_phases pr c ui lora ready in
      let (unsent, _, _) = listen-silent pr c ui lora 0 ready (same ∙ quiet) in
      let sampled = take_samples ui lora sent in
      let listens : sampled.vm.mode ≡ listen =
        ap (λ (v : View ui). v.0.0) (sampled-view ready) ∙ same ∙ quiet in
      let (_, _, decoded) =
        listen-silent pr c ui lora (suc (length sampled.rx_buffer)) sampled listens in
      (
        sent.world,
        ap (λ (t : Loop ui lora). t.driver) (if_true _ runs)
            ∙ decoded
            ∙ (take_samples-view ui lora sent).1
            ∙ ap (λ d. (lora.driver_tick d samples_per_tick sent.world).0.1) unsent,
      )

  -- The loop starts with an up-to-date node.
  pub start-IsCurrent :
      (driver : lora.Driver) (w : lora.W) (vm : ViewModel ui)
      → IsCurrent (start ui lora driver w vm)
  unfolding start initial build_node
  start-IsCurrent driver w vm = inr (
      subst (λ (v : View ui). v.2 ≡ Node.with_id v.0.3 v.0.1 v.0.2)
        (sym (ap (λ k. k.0) (make_driver-calm ui lora (initial ui lora driver w vm)))) refl)
