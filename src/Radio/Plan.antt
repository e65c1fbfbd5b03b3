-- ===== src/Radio/Plan.antt =====
-- What a turn has to send, as a specification: the beacon, the typed messages, the automatic one.
use meshtastic_lora_rs.Common.{
  ℕ, ◌+◌, ◌%◌, ◌≡◌, refl, sym, ap, ◌∙◌, Bool, ◌&&◌, List, [], ◌∷◌, ◌++◌, arith, leb, if◌then◌else◌,
}
use meshtastic_lora_rs.Common.Text.{decimal}
use meshtastic_lora_rs.Common.Result.{Str, codes}
use meshtastic_lora_rs.Mac.Packet.{MeshFrame}
use meshtastic_lora_rs.Mac.Crypto.{Cipher}
use meshtastic_lora_rs.Proto.{Proto}
use meshtastic_lora_rs.App.{MeshNode, build_nodeinfo_frame}
use meshtastic_lora_rs.Model.{Ui, SimMode}
use meshtastic_lora_rs.Radio.{Lora, Loop, wrap64}
use meshtastic_lora_rs.Radio.Send.{tx_allowed}
use meshtastic_lora_rs.Radio.Typed.{Sent, or_frame, typed_frames, on_air}

-- What the phases read, and none of them changes.
pub record Steady (ui : Ui) (lora : Lora ui) : Type 0 where
  pub modem : lora.Tx
  pub node : MeshNode
  pub mode : SimMode
  pub dest : ℕ
  pub auto : Bool
  pub seq : ℕ
  pub produced : ℕ
  pub next_tx_at : ℕ

module _ (pr : Proto) (c : Cipher) (ui : Ui) (lora : Lora ui) where
  abbrev pub steady : Loop ui lora → Steady ui lora
  steady s = record {
    modem = s.tx_modem;
    node = s.node;
    mode = s.vm.mode;
    dest = s.vm.tx_dest;
    auto = s.vm.auto_tx;
    seq = s.seq;
    produced = s.produced;
    next_tx_at = s.next_tx_at;
  }

  abbrev pub nothing : lora.W → Sent pr c ui lora
  nothing w = ([], w)

  -- The specification of the three phases.
  abbrev pub beacon_frames : Steady ui lora → ℕ → lora.W → Sent pr c ui lora
  beacon_frames k next_beacon_at w =
      let (drawn, w₁) = lora.random_u32 w in
      let frame = build_nodeinfo_frame pr c k.node drawn in
      if leb next_beacon_at k.produced
      then (if tx_allowed k.mode
          then or_frame pr c ui lora frame (nothing w) (nothing w₁)
          else nothing w)
      else nothing w

  abbrev pub queued_frames : Steady ui lora → List Str → lora.W → Sent pr c ui lora
  queued_frames k texts w =
      if tx_allowed k.mode then typed_frames pr c ui lora k.node k.dest texts w else nothing w

  abbrev pub test_text : ℕ → Str
  test_text seq = codes "Test #" ++ decimal ((seq + 1) % 4_294_967_296)

  abbrev pub auto_frames : Steady ui lora → lora.W → Sent pr c ui lora
  auto_frames k w =
      if tx_allowed k.mode && k.auto && leb k.next_tx_at k.produced
      then typed_frames pr c ui lora k.node k.dest (test_text k.seq ∷ []) w
      else nothing w

  -- `s'` has the frames behind what `s` had for the driver, and counts `n` more.
  abbrev pub Pushed : Steady ui lora → Sent pr c ui lora → ℕ → Loop ui lora → Loop ui lora → Type 0
  Pushed k sent n s s' =
      (s'.driver ≡ on_air pr c ui lora k.modem s.driver sent.0)
      × (s'.world ≡ sent.1)
      × (s'.vm.tx_count ≡ wrap64 (s.vm.tx_count + n))

  on_air-append :
      (modem : lora.Tx) (fs gs : List MeshFrame) (d : lora.Driver)
      → on_air pr c ui lora modem d (fs ++ gs)
        ≡ on_air pr c ui lora modem (on_air pr c ui lora modem d fs) gs
  on_air-append modem [] gs d = refl
  on_air-append modem (f ∷ fs) gs d = on_air-append modem fs gs _

  pub Pushed-trans :
      (k : Steady ui lora) (sent sent₁ : Sent pr c ui lora) (n m : ℕ) (s s₁ s₂ : Loop ui lora)
      → Pushed k sent n s s₁
      → Pushed k sent₁ m s₁ s₂
      → Pushed k (sent.0 ++ sent₁.0, sent₁.1) (n + m) s s₂
  Pushed-trans k sent sent₁ n m s s₁ s₂ (driver, world, count) (driver₁, world₁, count₁) = (
    driver₁
        ∙ ap (λ d. on_air pr c ui lora k.modem d sent₁.0) driver
        ∙ sym (on_air-append k.modem sent.0 sent₁.0 s.driver),
    world₁,
    count₁ ∙ ap (λ a. wrap64 (a + m)) count ∙ omega arith,
  )

  -- Three lists of frames, one after the other.
  abbrev pub joined : Sent pr c ui lora → Sent pr c ui lora → Sent pr c ui lora → Sent pr c ui lora
  joined a b d = (a.0 ++ (b.0 ++ d.0), d.1)

  -- The specification of what a turn sends: the frames, and what becomes of the world.
  abbrev pub beacon_of : Loop ui lora → Sent pr c ui lora
  beacon_of s = beacon_frames (steady s) s.next_beacon_at s.world

  abbrev pub queued_of : Loop ui lora → Sent pr c ui lora
  queued_of s = queued_frames (steady s) s.vm.tx_queue (beacon_of s).1

  abbrev pub auto_of : Loop ui lora → Sent pr c ui lora
  auto_of s = auto_frames (steady s) (queued_of s).1

  -- The frames, in the order in which the driver gets them.
  abbrev pub frames_of : Loop ui lora → List MeshFrame
  frames_of s = (joined (beacon_of s) (queued_of s) (auto_of s)).0
