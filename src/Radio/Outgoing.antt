-- ===== src/Radio/Outgoing.antt =====
-- A text that is queued in Terminal mode goes out in the next turn.
use mathlib.Core.List.{append_assoc}
use meshtastic_lora_rs.Common.{
  ℕ, suc, ◌≤◌, ◌<◌, ◌≡◌, refl, sym, ap, subst, ◌∙◌, true, List, [], ◌∷◌, ◌++◌, Option, none, some,
  length, arith, if_true, if_false, Bool-cases, inl, inr,
}
use meshtastic_lora_rs.Common.Among.{Among, Among-cons, Among-append_left, Among-append_right}
use meshtastic_lora_rs.Common.Result.{Str}
use meshtastic_lora_rs.Mac.Packet.{MeshFrame, max_payload}
use meshtastic_lora_rs.Mac.Crypto.{Cipher}
use meshtastic_lora_rs.Proto.{Proto}
use meshtastic_lora_rs.App.Delivery.{built}
use meshtastic_lora_rs.App.{MeshNode, build_frame, build_text_frame}
use meshtastic_lora_rs.Model.{
  Ui, ViewModel, Command, terminal, send_text, reset_stats, apply, apply_all,
}
use meshtastic_lora_rs.Model.Chosen.{Chosen}
use meshtastic_lora_rs.Model.Commands.{text_of, texts, apply_all-queue}
use meshtastic_lora_rs.Radio.{now_hms, Lora, Loop, push_log, push_log_full, build_node}
use meshtastic_lora_rs.Radio.Rebuild.{rebuild_node}
use meshtastic_lora_rs.Radio.Send.{tx_allowed}
use meshtastic_lora_rs.Radio.Steady.{settled-calm}
use meshtastic_lora_rs.Radio.Control.{settle-choices}
use meshtastic_lora_rs.Radio.Tick.{settle, send_phases, tick}
use meshtastic_lora_rs.Radio.Turns.{commanded}
use meshtastic_lora_rs.Radio.Typed.{Sent, or_frame, typed_frames, on_air}
use meshtastic_lora_rs.Radio.Plan.{beacon_of, queued_of, auto_of, frames_of}
use meshtastic_lora_rs.Radio.Sending.{send_phases-Pushed}
use meshtastic_lora_rs.Radio.Spectrum.{take_samples}
use meshtastic_lora_rs.Radio.Decode.{decode_loop}

module _ (ui : Ui) where
  texts-append :
      (cmds : List (Command ui)) (text : Str)
      → texts ui (cmds ++ (send_text text ∷ [])) ≡ texts ui cmds ++ (text ∷ [])
  texts-append [] text = refl
  texts-append (cmd ∷ cmds) text =
      ap (λ ts. text_of ui cmd ++ ts) (texts-append cmds text)
      ∙ sym (append_assoc (text_of ui cmd) (texts ui cmds) (text ∷ []))

  apply-count : (cmd : Command ui) (vm : ViewModel ui) → (apply ui cmd vm).tx_count ≤ vm.tx_count
  unfolding apply
  apply-count reset_stats vm = omega arith
  apply-count _ vm = omega arith

  apply_all-count :
      (cmds : List (Command ui)) (vm : ViewModel ui) → (apply_all ui cmds vm).tx_count ≤ vm.tx_count
  unfolding apply_all
  apply_all-count [] vm = omega arith
  apply_all-count (cmd ∷ cmds) vm =
      omega (arith, apply_all-count cmds (apply ui cmd vm), apply-count cmd vm)

module _ (pr : Proto) (c : Cipher) (ui : Ui) (lora : Lora ui) where
  -- A text that fits is built into a frame under whatever id.
  build_text_frame-some :
      (n : MeshNode) (drawn dest : ℕ) (text : Str)
      → length (pr.encode_data (pr.new_data pr.text_message_app text)) ≤ max_payload
      → (f : MeshFrame) × (build_text_frame pr c n drawn dest text ≡ some f)
  unfolding build_text_frame build_frame
  build_text_frame-some n drawn dest text fits =
      (built pr c n drawn dest (pr.new_data pr.text_message_app text), ground arith)

  -- The text's frame, under an id that was drawn, is among the frames.
  abbrev pub GoesOut : MeshNode → ℕ → Str → List MeshFrame → Type 0
  GoesOut n dest text frames =
      (w : lora.W) × (f : MeshFrame) × (build_text_frame pr c n (lora.random_u32 w).0 dest text
        ≡ some f)
      × Among f frames

  or_frame-GoesOut :
      (n : MeshNode) (dest : ℕ) (text : Str) (o : Option MeshFrame) (a b : Sent pr c ui lora)
      → GoesOut n dest text a.0
      → GoesOut n dest text b.0
      → GoesOut n dest text (or_frame pr c ui lora o a b).0
  or_frame-GoesOut n dest text none a b p q = p
  or_frame-GoesOut n dest text (some g) a b p (w, f, e, m) = (w, f, e, Among-cons f g b.0 m)

  -- A text that is queued and fits goes out.
  typed_frames-GoesOut :
      (n : MeshNode) (dest : ℕ) (text : Str) (earlier later : List Str) (w : lora.W)
      → length (pr.encode_data (pr.new_data pr.text_message_app text)) ≤ max_payload
      → GoesOut n dest text (typed_frames pr c ui lora n dest (earlier ++ (text ∷ later)) w).0
  typed_frames-GoesOut n dest text [] later w fits =
      let (drawn, w₁) = lora.random_u32 w in
      let (f, e) = build_text_frame-some n drawn dest text fits in
      (w, f, e, ([], (typed_frames pr c ui lora n dest later (now_hms ui lora w₁).1).0, rw e refl))
  typed_frames-GoesOut n dest text (first ∷ earlier) later w fits =
      let (drawn, w₁) = lora.random_u32 w in
      let texts = earlier ++ (text ∷ later) in
      or_frame-GoesOut n dest text (build_text_frame pr c n drawn dest first)
        (typed_frames pr c ui lora n dest texts w)
        (typed_frames pr c ui lora n dest texts (now_hms ui lora w₁).1)
        (typed_frames-GoesOut n dest text earlier later w fits)
        (typed_frames-GoesOut n dest text earlier later (now_hms ui lora w₁).1 fits)

  abbrev waiting : Loop ui lora → List Str × ℕ
  waiting s = (s.vm.tx_queue, s.vm.tx_count)

  rebuild_node-waiting : (s : Loop ui lora) → waiting (rebuild_node ui lora s) ≡ waiting s
  unfolding rebuild_node build_node push_log push_log_full
  rebuild_node-waiting s = elim (Bool-cases s.vm.rebuild_nodes) [
    | inl up ↦ ap waiting (if_true _ up)
    | inr down ↦ ap waiting (if_false _ down)
  ]

  -- What brings the node, the driver and the modems in line leaves the queue and the counter.
  settle-waiting : (s : Loop ui lora) → waiting (settle ui lora s) ≡ waiting s
  unfolding settle
  settle-waiting s =
      ap (λ k. (k.2, k.3)) (settled-calm ui lora (rebuild_node ui lora s)) ∙ rebuild_node-waiting s

  sent-GoesOut :
      (s : Loop ui lora) (text : Str) (earlier : List Str)
      → s.vm.tx_count < 18_446_744_073_709_551_616
      → s.vm.mode ≡ terminal
      → s.vm.tx_queue ≡ earlier ++ (text ∷ [])
      → length (pr.encode_data (pr.new_data pr.text_message_app text)) ≤ max_payload
      → GoesOut s.node s.vm.tx_dest text (frames_of pr c ui lora s)
        × ((send_phases pr c ui lora s).driver
            ≡ on_air pr c ui lora s.tx_modem s.driver (frames_of pr c ui lora s))
  sent-GoesOut s text earlier small on queued fits =
      let b = beacon_of pr c ui lora s in
      let q = queued_of pr c ui lora s in
      let a = auto_of pr c ui lora s in
      let typed : q ≡ typed_frames pr c ui lora s.node s.vm.tx_dest (earlier ++ (text ∷ [])) b.1 =
        if_true _ (ap tx_allowed on)
        ∙ ap (λ texts. typed_frames pr c ui lora s.node s.vm.tx_dest texts b.1) queued in
      let (w, f, e, m) =
        subst (λ (t : Sent pr c ui lora). GoesOut s.node s.vm.tx_dest text t.0) (sym typed)
          (typed_frames-GoesOut s.node s.vm.tx_dest text earlier [] b.1 fits) in
      (
        (w, f, e, Among-append_right f b.0 (q.0 ++ a.0) (Among-append_left f q.0 a.0 m)),
        (send_phases-Pushed pr c ui lora s small).0.0,
      )

  -- What a turn does once it has sent.
  abbrev pub listened : Loop ui lora → Loop ui lora
  listened s =
      let sampled = take_samples ui lora s in
      (decode_loop pr c ui lora (suc (length sampled.rx_buffer)) sampled).1

  pub tick-runs :
      (cmds : List (Command ui)) (s : Loop ui lora)
      → (apply_all ui cmds s.vm).running ≡ true
      → tick pr c ui lora cmds s
        ≡ listened (send_phases pr c ui lora (settle ui lora (commanded pr c ui lora cmds s)))
  unfolding tick
  tick-runs cmds s runs = if_true _ runs

  pub turn-GoesOut :
      (cmds earlier : List (Command ui)) (s : Loop ui lora) (text : Str)
      → s.vm.tx_count < 18_446_744_073_709_551_616
      → cmds ≡ earlier ++ (send_text text ∷ [])
      → length (pr.encode_data (pr.new_data pr.text_message_app text)) ≤ max_payload
      → (apply_all ui cmds s.vm).running ≡ true
      → (apply_all ui cmds s.vm).mode ≡ terminal
      → let begun = commanded pr c ui lora cmds s in
        let ready = settle ui lora begun in
        let frames = frames_of pr c ui lora ready in
        GoesOut ready.node begun.vm.tx_dest text frames
        × ((send_phases pr c ui lora ready).driver
            ≡ on_air pr c ui lora ready.tx_modem ready.driver frames)
        × (tick pr c ui lora cmds s ≡ listened (send_phases pr c ui lora ready))
  turn-GoesOut cmds earlier s text small sent fits runs on =
      let begun = commanded pr c ui lora cmds s in
      let ready = settle ui lora begun in
      let same = settle-choices pr c ui lora begun in
      let waits = settle-waiting begun in
      let count : ready.vm.tx_count < 18_446_744_073_709_551_616 =
        omega (arith, ap (λ q. q.1) waits, apply_all-count ui cmds s.vm) in
      let queued : ready.vm.tx_queue ≡ (s.vm.tx_queue ++ texts ui earlier) ++ (text ∷ []) =
        ap (λ q. q.0) waits
        ∙ apply_all-queue ui cmds s.vm
        ∙ ap (λ cs. s.vm.tx_queue ++ texts ui cs) sent
        ∙ ap (λ ts. s.vm.tx_queue ++ ts) (texts-append ui earlier text)
        ∙ sym (append_assoc s.vm.tx_queue (texts ui earlier) (text ∷ [])) in
      let (goes, driver) =
        sent-GoesOut ready text (s.vm.tx_queue ++ texts ui earlier) count
          (ap (λ (k : Chosen ui). k.mode) same ∙ on) queued fits in
      (
        subst (λ dest. GoesOut ready.node dest text (frames_of pr c ui lora ready))
            (ap (λ (k : Chosen ui). k.tx_dest) same) goes,
        driver,
        tick-runs cmds s runs,
      )
