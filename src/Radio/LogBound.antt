-- ===== src/Radio/LogBound.antt =====
-- The log keeps its last two hundred entries.
use meshtastic_lora_rs.Common.Text.{decimal}
use meshtastic_lora_rs.Common.{
  ◌%◌, map, ℕ, ◌+◌, ◌≤◌, ap, subst, sym, Bool, true, false, ◌&&◌, List, [], ◌∷◌, ◌++◌, Option, none,
  some, length, length-append, length-drop, arith, leb, if◌then◌else◌,
}
use meshtastic_lora_rs.Common.Result.{Str, codes}
use meshtastic_lora_rs.Mac.Packet.{MeshFrame}
use meshtastic_lora_rs.Mac.Crypto.{Cipher}
use meshtastic_lora_rs.Proto.{Proto}
use meshtastic_lora_rs.App.{neighbour_list, build_text_frame, build_nodeinfo_frame}
use meshtastic_lora_rs.Model.{Ui, LogEntry, system, tx, MsgDir}
use meshtastic_lora_rs.Radio.{
  Lora, Loop, push_bounded, push_log, push_log_full, transmit, max_log, wrap64, beacon_interval,
  build_node,
}
use meshtastic_lora_rs.Radio.Rebuild.{rebuild_node, mode_text, interval_samples}
use meshtastic_lora_rs.Radio.Send.{
  send_built, send_nodeinfo, beacon, send_text, send_texts, manual_tx, auto_tx, tx_allowed, quoted,
  neighbour_text,
}
use meshtastic_lora_rs.Radio.Tick.{settle, send_phases}
use meshtastic_lora_rs.Radio.Steady.{settled-calm}

-- A full queue loses its oldest entry to a new one.
push_bounded_lem :
    (ui : Ui) (lora : Lora ui) (log : List LogEntry) (e : LogEntry)
    → length log ≤ max_log
    → length (push_bounded ui lora log e) ≤ max_log
push_bounded_lem ui lora log e h =
    ground (arith, length-append log (e ∷ []), length-drop 1 (log ++ (e ∷ [])))

module _ (ui : Ui) (lora : Lora ui) where
  unfoldable pub IsBounded : Loop ui lora → Type 0
  IsBounded s = length s.vm.log ≤ max_log

  -- Either branch of a test.
  pub if-IsBounded :
      (b : Bool) (s t : Loop ui lora) → IsBounded s → IsBounded t → IsBounded (if b then s else t)
  if-IsBounded true s t p q = p
  if-IsBounded false s t p q = q

  pub push_log_full-IsBounded :
      (dir : MsgDir) (text : Str) (from_id hops : Option ℕ) (self_origin : Bool) (s : Loop ui lora)
      → IsBounded s
      → IsBounded (push_log_full ui lora dir text from_id hops self_origin s)
  unfolding IsBounded push_log_full
  push_log_full-IsBounded dir text from_id hops self_origin s h =
      push_bounded_lem ui lora s.vm.log _ h

  rebuild_node-IsBounded : (s : Loop ui lora) → IsBounded s → IsBounded (rebuild_node ui lora s)
  unfolding rebuild_node build_node push_log IsBounded
  rebuild_node-IsBounded s h =
      let (node, vm) = build_node ui lora (record s.vm { rebuild_nodes = false }) in
      let rebuilt : Loop ui lora =
        push_log ui lora system (mode_text vm.mode) (record s { vm = vm; node = node }) in
      if-IsBounded s.vm.rebuild_nodes rebuilt s (search push_log_full-IsBounded) h

  pub settle-IsBounded : (s : Loop ui lora) → IsBounded s → IsBounded (settle ui lora s)
  unfolding settle IsBounded
  settle-IsBounded s h =
      subst (λ log. length log ≤ max_log)
        (sym (ap (λ k. k.1) (settled-calm ui lora (rebuild_node ui lora s))))
        (rebuild_node-IsBounded s h)

  send_built-IsBounded :
      (f : Option MeshFrame) (ready s : Loop ui lora)
      → IsBounded ready
      → IsBounded s
      → IsBounded (send_built ui lora f ready s)
  unfolding send_built transmit
  send_built-IsBounded none ready s p q = q
  send_built-IsBounded (some f) ready s p q = unfold IsBounded in p

module _ (pr : Proto) (c : Cipher) (ui : Ui) (lora : Lora ui) where
  send_nodeinfo-IsBounded :
      (s : Loop ui lora) → IsBounded ui lora s → IsBounded ui lora (send_nodeinfo pr c ui lora s)
  unfolding send_nodeinfo
  send_nodeinfo-IsBounded s h =
      let (drawn, w) = lora.random_u32 s.world in
      send_built-IsBounded ui lora (build_nodeinfo_frame pr c s.node drawn) (record s { world = w })
        s (unfold IsBounded in h) h

  beacon-IsBounded :
      (s : Loop ui lora) → IsBounded ui lora s → IsBounded ui lora (beacon pr c ui lora s)
  unfolding beacon
  beacon-IsBounded s h =
      let due : Loop ui lora = record s {
        next_beacon_at = wrap64 (s.produced + beacon_interval);
      } in
      let fine : IsBounded ui lora due = unfold IsBounded in h in
      let sent = if tx_allowed s.vm.mode then send_nodeinfo pr c ui lora due else due in
      let good : IsBounded ui lora sent =
        if-IsBounded ui lora (tx_allowed s.vm.mode) (send_nodeinfo pr c ui lora due) due
          (send_nodeinfo-IsBounded due fine) fine in
      if-IsBounded ui lora (leb s.next_beacon_at s.produced)
        (record sent {
          vm = record sent.vm { neighbours = map neighbour_text (neighbour_list sent.node) };
        })
        s (unfold IsBounded in good) h

  send_text-IsBounded :
      (text : Str) (s : Loop ui lora)
      → IsBounded ui lora s
      → IsBounded ui lora (send_text pr c ui lora text s)
  unfolding send_text push_log
  send_text-IsBounded text s h =
      let (drawn, w) = lora.random_u32 s.world in
      let counted : Loop ui lora = record s {
        world = w;
        vm = record s.vm { tx_count = wrap64 (s.vm.tx_count + 1) };
      } in
      let fine : IsBounded ui lora counted = unfold IsBounded in h in
      send_built-IsBounded ui lora (build_text_frame pr c s.node drawn s.vm.tx_dest text)
        (push_log ui lora tx (quoted text) counted) s
        (push_log_full-IsBounded ui lora tx (quoted text) none none false counted fine) h

  send_texts-IsBounded :
      (texts : List Str) (s : Loop ui lora)
      → IsBounded ui lora s
      → IsBounded ui lora (send_texts pr c ui lora texts s)
  unfolding send_texts
  send_texts-IsBounded [] s h = h
  send_texts-IsBounded (text ∷ texts) s h =
      send_texts-IsBounded texts (send_text pr c ui lora text s) (send_text-IsBounded text s h)

  manual_tx-IsBounded :
      (s : Loop ui lora) → IsBounded ui lora s → IsBounded ui lora (manual_tx pr c ui lora s)
  unfolding manual_tx
  manual_tx-IsBounded s h =
      let drained : Loop ui lora = record s { vm = record s.vm { tx_queue = [] } } in
      let fine : IsBounded ui lora drained = unfold IsBounded in h in
      if-IsBounded ui lora (tx_allowed s.vm.mode) (send_texts pr c ui lora s.vm.tx_queue drained)
        drained (send_texts-IsBounded s.vm.tx_queue drained fine) fine

  auto_tx-IsBounded :
      (s : Loop ui lora) → IsBounded ui lora s → IsBounded ui lora (auto_tx pr c ui lora s)
  unfolding auto_tx
  auto_tx-IsBounded s h =
      let seq = (s.seq + 1) % 4_294_967_296 in
      let due : Loop ui lora = record s {
        next_tx_at = wrap64 (s.produced + interval_samples ui lora s.vm);
        seq = seq;
      } in
      let text = codes "Test #" ++ decimal seq in
      if-IsBounded ui lora (tx_allowed s.vm.mode && s.vm.auto_tx && leb s.next_tx_at s.produced)
        (send_text pr c ui lora text due) s (send_text-IsBounded text due (unfold IsBounded in h)) h

  pub send_phases-IsBounded :
      (s : Loop ui lora) → IsBounded ui lora s → IsBounded ui lora (send_phases pr c ui lora s)
  unfolding send_phases
  send_phases-IsBounded s h =
      auto_tx-IsBounded (manual_tx pr c ui lora (beacon pr c ui lora s))
        (manual_tx-IsBounded (beacon pr c ui lora s) (beacon-IsBounded s h))
