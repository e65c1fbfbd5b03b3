-- ===== src/App/Receive.antt =====
-- The receive path as one expression over the frame, the node's cache and the decoded payload.
use meshtastic_lora_rs.Common.{
  ℕ, ◌≡◌, refl, ap, ◌<◌, length, ◌∙◌, Bool, true, false, not, ◌&&◌, ◌||◌, List, Option, none, some,
  ◌==◌, ◌⊎◌, if◌then◌else◌, arith, Bool-cases, inl, inr,
}
use meshtastic_lora_rs.Common.Result.{Result, ok, err, Result-cases}
use meshtastic_lora_rs.Mac.Packet.{MeshFrame, from_bytes, header_len}
use meshtastic_lora_rs.Mac.Packet.Shape.{parsed, from_bytes_cases}
use meshtastic_lora_rs.Mac.Crypto.{Cipher, decrypt}
use meshtastic_lora_rs.Mesh.Router.{decide, check_and_insert}
use meshtastic_lora_rs.Mesh.Router.Decision.{route_split, seen, for_us, one_hop_less}
use meshtastic_lora_rs.Proto.{Proto}
use meshtastic_lora_rs.App.{
  MeshNode, MeshMessage, malformed, wrong_channel, proto, node_id, channel_hash, Outcome, note_user,
  decode_payload, deliver_with, respond, receive, process_rx_frame,
}

-- The channel check: a frame that came over MQTT passes it, any other by its channel hash.
abbrev pub accepts : MeshNode → MeshFrame → Bool
accepts n f = f.header.via_mqtt || f.header.channel_hash == channel_hash n.channel

abbrev pub is_self : MeshNode → MeshFrame → Bool
is_self n f = f.header.from == node_id n

-- What the node relays of a frame that it sees for the first time.
abbrev pub relay : MeshNode → MeshFrame → Option MeshFrame
relay n f =
    if is_self n f then none else if f.header.hop_limit == 0 then none else some (one_hop_less f)

-- The node with the frame's key in its cache.
abbrev pub marked : MeshNode → MeshFrame → MeshNode
marked n f = record n { dedup = (check_and_insert n.dedup f.header.from f.header.id).1 }

none_either {ℓ} : {A : Type ℓ} (b : Bool) → ◌≡◌ {A = Option A} none (if b then none else none)
none_either true = refl
none_either false = refl

module _ (pr : Proto) (c : Cipher) where
  open pr use {Data, DecodeError}

  abbrev pub plaintext : MeshNode → MeshFrame → List ℕ
  plaintext n f = decrypt c n.crypto f.header.id f.header.from f.payload

  abbrev pub message : MeshNode → MeshFrame → Data → MeshMessage Data
  message n f d = record {
    from = f.header.from;
    to = f.header.to;
    content = d;
    hop_limit = f.header.hop_limit;
    self_origin = is_self n f;
  }

  -- The outcome and the node after a first sight of a frame that is addressed to the node.
  abbrev pub delivery_with :
      MeshNode → MeshFrame → Option MeshFrame → Result DecodeError Data → Outcome pr c × MeshNode
  delivery_with n f fwd (ok d) =
      (ok (some (message n f d), fwd), note_user pr c (marked n f) f.header.from d)
  delivery_with n f fwd (err e) = (err (proto e), marked n f)

  abbrev pub delivery : MeshNode → MeshFrame → Result DecodeError Data → Outcome pr c × MeshNode
  delivery n f r = delivery_with n f (relay n f) r

  abbrev pub expected : MeshNode → MeshFrame → Outcome pr c × MeshNode
  expected n f =
      if not (accepts n f)
      then (err wrong_channel, n)
      else if seen n.dedup f
      then (ok (none, none), marked n f)
      else if for_us f (node_id n)
      then delivery n f (pr.decode_data (plaintext n f))
      else (ok (none, relay n f), marked n f)

  deliver_with_lem :
      (n : MeshNode) (f : MeshFrame) (p : List ℕ) (fwd : Option MeshFrame)
      → deliver_with pr c (marked n f) f.header (is_self n f) p fwd
        ≡ delivery_with n f fwd (pr.decode_data p)
  unfolding deliver_with
  deliver_with_lem n f p fwd = elim (Result-cases (pr.decode_data p)) [
    | inl (d, e) ↦ rw (e, decode_payload)
    | inr (x, e) ↦ rw (e, decode_payload)
  ]

  respond_ours :
      (n : MeshNode) (f : MeshFrame) (p : List ℕ)
      → for_us f (node_id n) ≡ true
      → respond pr c (marked n f) f.header (is_self n f) (decide f (node_id n) p)
        ≡ delivery n f (pr.decode_data p)
  unfolding respond decide
  respond_ours n f p ours = elim (Bool-cases (f.header.hop_limit == 0)) [
    | inl last ↦
        rw (ours, last)
          (deliver_with_lem n f p none
            ∙ ap (λ fwd. delivery_with n f fwd (pr.decode_data p)) (none_either (is_self n f)))
    | inr more ↦
        rw (ours, more)
          (deliver_with_lem n f p (if is_self n f then none else some (one_hop_less f)))
  ]

  respond_theirs :
      (n : MeshNode) (f : MeshFrame) (p : List ℕ)
      → for_us f (node_id n) ≡ false
      → respond pr c (marked n f) f.header (is_self n f) (decide f (node_id n) p)
        ≡ (ok (none, relay n f), marked n f)
  unfolding respond decide
  respond_theirs n f p theirs = elim (Bool-cases (f.header.hop_limit == 0)) [
    | inl last ↦
        rw (theirs, last)
          (ap {B = Outcome pr c × MeshNode} (λ fwd. (ok (none, fwd), marked n f))
            (none_either (is_self n f)))
    | inr more ↦ rw (theirs, more)
  ]

  respond_new :
      (n : MeshNode) (f : MeshFrame) (p : List ℕ)
      → respond pr c (marked n f) f.header (is_self n f) (decide f (node_id n) p) ≡ (
          if for_us f (node_id n)
          then delivery n f (pr.decode_data p)
          else (ok (none, relay n f), marked n f))
  respond_new n f p = elim (Bool-cases (for_us f (node_id n))) [
    | inl ours ↦ respond_ours n f p ours ∙ rw ours
    | inr theirs ↦ respond_theirs n f p theirs ∙ rw theirs
  ]

  channel_test :
      (n : MeshNode) (f : MeshFrame)
      → (not f.header.via_mqtt && not (f.header.channel_hash == channel_hash n.channel))
        ≡ not (accepts n f)
  channel_test n f = ground arith

  pub receive_lem : (n : MeshNode) (f : MeshFrame) → receive pr c n f ≡ expected n f
  unfolding receive respond
  receive_lem n f =
      rw (route_split f (node_id n) (plaintext n f) n.dedup, channel_test n f)
        (elim (Bool-cases (seen n.dedup f)) [
          | inl old ↦ rw old
          | inr first ↦ rw first (
              ap (λ o. if not (accepts n f) then (err wrong_channel, n) else o)
                (respond_new n f (plaintext n f)))
        ])

  pub process_parsed :
      (n : MeshNode) (raw : List ℕ) (f : MeshFrame)
      → from_bytes raw ≡ some f
      → process_rx_frame pr c n raw ≡ expected n f
  unfolding process_rx_frame
  process_parsed n raw f e = rw (e, process_rx_frame) (receive_lem n f)

  process_malformed :
      (n : MeshNode) (raw : List ℕ)
      → from_bytes raw ≡ none
      → process_rx_frame pr c n raw ≡ (err malformed, n)
  unfolding process_rx_frame
  process_malformed n raw e = rw (e, process_rx_frame)

  -- A first sight of a frame for this node whose payload decodes.
  pub expected_ours :
      (n : MeshNode) (f : MeshFrame) (d : Data)
      → accepts n f ≡ true
      → seen n.dedup f ≡ false
      → for_us f (node_id n) ≡ true
      → pr.decode_data (plaintext n f) ≡ ok d
      → expected n f
        ≡ (ok (some (message n f d), relay n f), note_user pr c (marked n f) f.header.from d)
  expected_ours n f d taken first ours decoded = rw (taken, first, ours, decoded)

  -- The outcome of the receive path on every input: too short an input is malformed, and any other
  -- is a frame to which the channel check, the dedup cache, the address and the decoding apply in
  -- this order.
  pub process_rx_frame_lem :
      (n : MeshNode) (raw : List ℕ)
      → ((length raw < header_len) × (process_rx_frame pr c n raw ≡ (err malformed, n)))
        ⊎ ((f : MeshFrame) × (from_bytes raw ≡ some f)
            × (process_rx_frame pr c n raw ≡ expected n f))
  process_rx_frame_lem n raw = elim (from_bytes_cases raw) [
    | inl (short, e) ↦ inl (short, process_malformed n raw e)
    | inr (_, e) ↦ inr (parsed raw, e, process_parsed n raw (parsed raw) e)
  ]

  -- The four ways through the receive path of a parsed frame.
  pub data Verdict (n : MeshNode) (f : MeshFrame) : Type 0 where
    refused : accepts n f ≡ false → expected n f ≡ (err wrong_channel, n) → Verdict n f
    duplicate :
        accepts n f ≡ true
        → seen n.dedup f ≡ true
        → expected n f ≡ (ok (none, none), marked n f)
        → Verdict n f
    ours :
        accepts n f ≡ true
        → seen n.dedup f ≡ false
        → for_us f (node_id n) ≡ true
        → expected n f ≡ delivery n f (pr.decode_data (plaintext n f))
        → Verdict n f
    theirs :
        accepts n f ≡ true
        → seen n.dedup f ≡ false
        → for_us f (node_id n) ≡ false
        → expected n f ≡ (ok (none, relay n f), marked n f)
        → Verdict n f

  pub verdict : (n : MeshNode) (f : MeshFrame) → Verdict n f
  verdict n f = elim (Bool-cases (accepts n f)) [
    | inr no_ ↦ refused no_ (rw no_)
    | inl taken ↦ elim (Bool-cases (seen n.dedup f)) [
      | inl old ↦ duplicate taken old (rw (taken, old))
      | inr first ↦ elim (Bool-cases (for_us f (node_id n))) [
        | inl us ↦ ours taken first us (rw (taken, first, us))
        | inr them ↦ theirs taken first them (rw (taken, first, them))
      ]
    ]
  ]
