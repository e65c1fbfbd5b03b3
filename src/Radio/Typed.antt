-- ===== src/Radio/Typed.antt =====
-- The typed messages: in which order and how often they go to the driver.
use meshtastic_lora_rs.Common.{
  ℕ, suc, ◌+◌, ◌<◌, ◌≡◌, refl, sym, subst, ap, ◌∙◌, ◌⊎◌, inl, inr, List, [], ◌∷◌, Option, none,
  some, length, arith, if_true, if_false,
}
use meshtastic_lora_rs.Common.Result.{Str}
use meshtastic_lora_rs.Mac.Packet.{MeshFrame, to_bytes}
use meshtastic_lora_rs.Mac.Crypto.{Cipher}
use meshtastic_lora_rs.Proto.{Proto}
use meshtastic_lora_rs.App.{MeshNode, build_text_frame}
use meshtastic_lora_rs.Model.{Ui, SimMode, terminal, listen, tx}
use meshtastic_lora_rs.Radio.{now_hms, Lora, Loop, wrap64, push_log, push_log_full, transmit}
use meshtastic_lora_rs.Radio.Send.{tx_allowed, send_built, send_text, send_texts, manual_tx, quoted}

wrap64-twice : (a b : ℕ) → wrap64 (wrap64 (a + 1) + b) ≡ wrap64 (a + suc b)
wrap64-twice a b = omega arith

pub SimMode-cases : (m : SimMode) → (m ≡ terminal) ⊎ (m ≡ listen)
SimMode-cases terminal = inl refl
SimMode-cases listen = inr refl

module _ (pr : Proto) (c : Cipher) (ui : Ui) (lora : Lora ui) where
  abbrev pub Sent : Type 0
  Sent = List MeshFrame × lora.W

  abbrev pub or_frame : Option MeshFrame → Sent → Sent → Sent
  or_frame none skipped sent = skipped
  or_frame (some f) skipped (fs, w) = (f ∷ fs, w)

  -- The specification: the frames of the texts that fit, in their order, each under an id of its own.
  -- The world gives an id and then a time for each frame, and nothing for a text that is dropped.
  abbrev pub typed_frames : MeshNode → ℕ → List Str → lora.W → Sent
  typed_frames n dest [] w = ([], w)
  typed_frames n dest (text ∷ texts) w =
      let (drawn, w₁) = lora.random_u32 w in
      or_frame (build_text_frame pr c n drawn dest text) (typed_frames n dest texts w)
        (typed_frames n dest texts (now_hms ui lora w₁).1)

  -- A frame behind those that the driver already has.
  abbrev pub on_air : lora.Tx → lora.Driver → List MeshFrame → lora.Driver
  on_air modem d [] = d
  on_air modem d (f ∷ fs) = on_air modem (lora.push_samples d (lora.modulate modem (to_bytes f))) fs

  -- What `s'` has of the frames that were sent from `s`.
  abbrev pub HasSent : Sent → Loop ui lora → Loop ui lora → Type 0
  HasSent (fs, w) s s' =
      (s'.driver ≡ on_air s.tx_modem s.driver fs)
      × (s'.world ≡ w)
      × (s'.vm.tx_count ≡ wrap64 (s.vm.tx_count + length fs))
      × (s'.vm.tx_queue ≡ s.vm.tx_queue)

  send_built-HasSent :
      (o : Option MeshFrame) (text : Str) (texts : List Str) (s : Loop ui lora)
      → s.vm.tx_count < 18_446_744_073_709_551_616
      → ((s' : Loop ui lora)
          → s'.vm.tx_count < 18_446_744_073_709_551_616
          → HasSent
              (typed_frames s'.node s'.vm.tx_dest texts s'.world)
              s'
              (send_texts pr c ui lora texts s'))
      → let w₁ = (lora.random_u32 s.world).1 in
        let counted : Loop ui lora = record s {
          world = w₁;
          vm = record s.vm { tx_count = wrap64 (s.vm.tx_count + 1) };
        } in
        HasSent
          (or_frame o
            (typed_frames s.node s.vm.tx_dest texts s.world)
            (typed_frames s.node s.vm.tx_dest texts (now_hms ui lora w₁).1))
          s
          (send_texts pr c ui lora texts
            (send_built ui lora o (push_log ui lora tx (quoted text) counted) s))
  unfolding send_built transmit push_log push_log_full
  send_built-HasSent none text texts s small ih = ih s small
  send_built-HasSent (some f) text texts s small ih =
      let w₁ = (lora.random_u32 s.world).1 in
      let counted : Loop ui lora = record s {
        world = w₁;
        vm = record s.vm { tx_count = wrap64 (s.vm.tx_count + 1) };
      } in
      let s' = transmit ui lora (to_bytes f) (push_log ui lora tx (quoted text) counted) in
      let (driver, world, count, queue) = ih s' (omega arith) in
      (driver, world, count ∙ wrap64-twice s.vm.tx_count _, queue)

  pub send_texts-HasSent :
      (texts : List Str) (s : Loop ui lora)
      → s.vm.tx_count < 18_446_744_073_709_551_616
      → HasSent (typed_frames s.node s.vm.tx_dest texts s.world) s (send_texts pr c ui lora texts s)
  unfolding send_texts send_text
  send_texts-HasSent [] s small = (refl, refl, omega arith, refl)
  send_texts-HasSent (text ∷ texts) s small =
      let drawn = (lora.random_u32 s.world).0 in
      send_built-HasSent (build_text_frame pr c s.node drawn s.vm.tx_dest text) text texts s small
        (send_texts-HasSent texts)

  -- If the counter is a u64, the phase in Terminal mode hands the driver the frames of the typed texts
  -- that fit, in the order in which they were typed and each of them once, behind what it already has,
  -- counts them and leaves the queue empty; in Listen mode it empties the queue and does nothing else.
  pub manual_tx-HasSent :
      (s : Loop ui lora)
      → s.vm.tx_count < 18_446_744_073_709_551_616
      → let drained : Loop ui lora = record s { vm = record s.vm { tx_queue = [] } } in
        ((s.vm.mode ≡ terminal)
          × HasSent
              (typed_frames s.node s.vm.tx_dest s.vm.tx_queue s.world)
              drained
              (manual_tx pr c ui lora s))
        ⊎ ((s.vm.mode ≡ listen) × (manual_tx pr c ui lora s ≡ drained))
  unfolding manual_tx
  manual_tx-HasSent s small =
      let drained : Loop ui lora = record s { vm = record s.vm { tx_queue = [] } } in
      let frames = typed_frames s.node s.vm.tx_dest s.vm.tx_queue s.world in
      elim (SimMode-cases s.vm.mode) [
        | inl on ↦ inl (
          on,
          subst (HasSent frames drained) (sym (if_true _ (ap tx_allowed on)))
              (send_texts-HasSent s.vm.tx_queue drained small),
        )
        | inr off ↦ inr (off, if_false _ (ap tx_allowed off))
      ]
