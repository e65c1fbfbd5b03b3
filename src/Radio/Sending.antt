-- ===== src/Radio/Sending.antt =====
-- All that a turn sends, in its order: the beacon, the typed messages, the automatic one.
use meshtastic_lora_rs.Common.{
  ℕ, ◌+◌, ◌%◌, ◌<◌, ◌≡◌, refl, sym, subst, ap, ◌∙◌, inl, inr, ◌&&◌, List, [], ◌∷◌, ◌++◌, Option,
  none, some, length, arith, Bool-cases, leb,
}
use meshtastic_lora_rs.Common.Result.{Str}
use meshtastic_lora_rs.Mac.Packet.{MeshFrame}
use meshtastic_lora_rs.Mac.Crypto.{Cipher}
use meshtastic_lora_rs.Proto.{Proto}
use meshtastic_lora_rs.App.{build_nodeinfo_frame, build_text_frame}
use meshtastic_lora_rs.Model.{Ui, tx}
use meshtastic_lora_rs.Radio.Rebuild.{interval_samples}
use meshtastic_lora_rs.Radio.{
  beacon_interval, Lora, Loop, wrap64, push_log, push_log_full, transmit,
}
use meshtastic_lora_rs.Radio.Send.{
  tx_allowed, send_built, send_nodeinfo, beacon, send_text, send_texts, manual_tx, auto_tx, quoted,
}
use meshtastic_lora_rs.Radio.Tick.{send_phases}
use meshtastic_lora_rs.Radio.Typed.{or_frame, send_texts-HasSent}
use meshtastic_lora_rs.Radio.Plan.{
  Steady, steady, nothing, beacon_frames, queued_frames, test_text, auto_frames, Pushed,
  Pushed-trans, joined, beacon_of, queued_of, auto_of,
}

module _ (pr : Proto) (c : Cipher) (ui : Ui) (lora : Lora ui) where
  -- What stays as it is.
  abbrev kept : Loop ui lora → Steady ui lora × List Str × ℕ
  kept s = (steady pr c ui lora s, s.vm.tx_queue, s.vm.tx_count)

  nodeinfo-Pushed :
      (o : Option MeshFrame) (w : lora.W) (s : Loop ui lora)
      → s.vm.tx_count < 18_446_744_073_709_551_616
      → let s' : Loop ui lora = send_built ui lora o (record s { world = w }) s in
        Pushed pr c ui lora
          (steady pr c ui lora s)
          (or_frame pr c ui lora o (nothing pr c ui lora s.world) (nothing pr c ui lora w))
          0
          s
          s'
        × (kept s' ≡ kept s)
  unfolding send_built transmit
  nodeinfo-Pushed none w s small = ((refl, refl, omega arith), refl)
  nodeinfo-Pushed (some f) w s small = ((refl, refl, omega arith), refl)

  beacon-Pushed :
      (s : Loop ui lora)
      → s.vm.tx_count < 18_446_744_073_709_551_616
      → Pushed pr c ui lora
          (steady pr c ui lora s)
          (beacon_frames pr c ui lora (steady pr c ui lora s) s.next_beacon_at s.world)
          0
          s
          (beacon pr c ui lora s)
        × (kept (beacon pr c ui lora s) ≡ kept s)
  unfolding beacon send_nodeinfo
  beacon-Pushed s small =
      let (drawn, w) = lora.random_u32 s.world in
      elim (Bool-cases (leb s.next_beacon_at s.produced)) [
        | inr later ↦ rw later ((refl, refl, omega arith), refl)
        | inl due ↦ elim (Bool-cases (tx_allowed s.vm.mode)) [
          | inl on ↦
              rw (due, on)
                (nodeinfo-Pushed (build_nodeinfo_frame pr c s.node drawn) w
                  (record s { next_beacon_at = wrap64 (s.produced + beacon_interval) }) small)
          | inr off ↦ rw (due, off) ((refl, refl, omega arith), refl)
        ]
      ]

  send_built-kept :
      (o : Option MeshFrame) (text : Str) (s : Loop ui lora)
      → let counted : Loop ui lora = record s {
        world = (lora.random_u32 s.world).1;
        vm = record s.vm { tx_count = wrap64 (s.vm.tx_count + 1) };
      } in
        steady pr c ui lora (send_built ui lora o (push_log ui lora tx (quoted text) counted) s)
        ≡ steady pr c ui lora s
  unfolding send_built transmit push_log push_log_full
  send_built-kept none text s = refl
  send_built-kept (some f) text s = refl

  -- A text that goes out or is dropped leaves what the phases read.
  send_texts-kept :
      (texts : List Str) (s : Loop ui lora)
      → steady pr c ui lora (send_texts pr c ui lora texts s) ≡ steady pr c ui lora s
  unfolding send_texts send_text
  send_texts-kept [] s = refl
  send_texts-kept (text ∷ texts) s =
      send_texts-kept texts (send_text pr c ui lora text s)
      ∙ send_built-kept (build_text_frame pr c s.node (lora.random_u32 s.world).0 s.vm.tx_dest text)
          text s

  manual_tx-Pushed :
      (s : Loop ui lora)
      → s.vm.tx_count < 18_446_744_073_709_551_616
      → let sent = queued_frames pr c ui lora (steady pr c ui lora s) s.vm.tx_queue s.world in
        Pushed pr c ui lora
          (steady pr c ui lora s)
          sent
          (length sent.0)
          s
          (manual_tx pr c ui lora s)
        × (steady pr c ui lora (manual_tx pr c ui lora s) ≡ steady pr c ui lora s)
        × ((manual_tx pr c ui lora s).vm.tx_queue ≡ [])
  unfolding manual_tx
  manual_tx-Pushed s small =
      let drained : Loop ui lora = record s { vm = record s.vm { tx_queue = [] } } in
      let (driver, world, count, queue) =
        send_texts-HasSent pr c ui lora s.vm.tx_queue drained small in
      elim (Bool-cases (tx_allowed s.vm.mode)) [
        | inl on ↦ rw on ((driver, world, count), send_texts-kept s.vm.tx_queue drained, queue)
        | inr off ↦ rw off ((refl, refl, omega arith), refl, refl)
      ]

  auto_tx-Pushed :
      (s : Loop ui lora)
      → s.vm.tx_count < 18_446_744_073_709_551_616
      → let sent = auto_frames pr c ui lora (steady pr c ui lora s) s.world in
        Pushed pr c ui lora (steady pr c ui lora s) sent (length sent.0) s (auto_tx pr c ui lora s)
        × ((auto_tx pr c ui lora s).vm.tx_queue ≡ s.vm.tx_queue)
  unfolding auto_tx
  auto_tx-Pushed s small =
      let due : Loop ui lora = record s {
        next_tx_at = wrap64 (s.produced + interval_samples ui lora s.vm);
        seq = (s.seq + 1) % 4_294_967_296;
      } in
      let (driver, world, count, queue) =
        send_texts-HasSent pr c ui lora (test_text pr c ui lora s.seq ∷ []) due small in
      elim (Bool-cases (tx_allowed s.vm.mode && s.vm.auto_tx && leb s.next_tx_at s.produced)) [
        | inl now ↦ rw now (unfold send_texts in ((driver, world, count), queue))
        | inr later ↦ rw later ((refl, refl, omega arith), refl)
      ]

  send_phases_lem :
      (s : Loop ui lora)
      → send_phases pr c ui lora s
        ≡ auto_tx pr c ui lora (manual_tx pr c ui lora (beacon pr c ui lora s))
  unfolding send_phases
  send_phases_lem s = refl

  -- If the counter is a u64, then what the three phases hand the driver are, behind what it already
  -- has, the beacon, then every typed text that fits, in the order in which they were typed and each
  -- once, then the automatic message: each only when it is due, and nothing in Listen mode. The
  -- counter grows by the number of texts, and the queue is empty.
  pub send_phases-Pushed :
      (s : Loop ui lora)
      → s.vm.tx_count < 18_446_744_073_709_551_616
      → Pushed pr c ui lora
          (steady pr c ui lora s)
          (joined pr c ui lora
            (beacon_of pr c ui lora s)
            (queued_of pr c ui lora s)
            (auto_of pr c ui lora s))
          (length (queued_of pr c ui lora s).0 + length (auto_of pr c ui lora s).0)
          s
          (send_phases pr c ui lora s)
        × ((send_phases pr c ui lora s).vm.tx_queue ≡ [])
  send_phases-Pushed s small =
      let b = beacon pr c ui lora s in
      let m = manual_tx pr c ui lora b in
      let a = auto_tx pr c ui lora m in
      let (sent, held) = beacon-Pushed s small in
      let small₁ = subst (λ n. n < 18_446_744_073_709_551_616) (sym (ap (λ k. k.2) held)) small in
      let (sent₁, held₁, empty) = manual_tx-Pushed b small₁ in
      let small₂ : m.vm.tx_count < 18_446_744_073_709_551_616 = omega (arith, sent₁.2) in
      let (sent₂, left) = auto_tx-Pushed m small₂ in
      let typed : Pushed pr c ui lora (steady pr c ui lora s) (queued_of pr c ui lora s)
          (length (queued_of pr c ui lora s).0) b m =
        subst
          (λ (x : Steady ui lora × List Str × lora.W).
            let q = queued_frames pr c ui lora x.0 x.1 x.2 in
            Pushed pr c ui lora x.0 q (length q.0) b m)
          (λ i. ((held i).0, (held i).1, sent.1 i)) sent₁ in
      let automatic : Pushed pr c ui lora (steady pr c ui lora s) (auto_of pr c ui lora s)
          (length (auto_of pr c ui lora s).0) m a =
        subst
          (λ (x : Steady ui lora × lora.W).
            let q = auto_frames pr c ui lora x.0 x.1 in Pushed pr c ui lora x.0 q (length q.0) m a)
          (λ i. ((held₁ ∙ ap (λ k. k.0) held) i, typed.1 i)) sent₂ in
      let n = length (queued_of pr c ui lora s).0 + length (auto_of pr c ui lora s).0 in
      let none_counted : 0 + n ≡ n = omega arith in
      let all =
        joined pr c ui lora (beacon_of pr c ui lora s) (queued_of pr c ui lora s)
          (auto_of pr c ui lora s) in
      rw (send_phases_lem s) (
        subst (λ k. Pushed pr c ui lora (steady pr c ui lora s) all k s a) none_counted
            (Pushed-trans pr c ui lora (steady pr c ui lora s) (beacon_of pr c ui lora s)
              (
                (queued_of pr c ui lora s).0 ++ (auto_of pr c ui lora s).0,
                (auto_of pr c ui lora s).1,
              )
              0 n s b a sent
              (Pushed-trans pr c ui lora (steady pr c ui lora s) (queued_of pr c ui lora s)
                (auto_of pr c ui lora s) (length (queued_of pr c ui lora s).0)
                (length (auto_of pr c ui lora s).0) b m a typed automatic)),
        left ∙ empty,
      )
