-- ===== src/App/State.antt =====
-- What the receive path does to the node.
use meshtastic_lora_rs.Common.{
  ℕ, ◌≡◌, refl, ap, sym, subst, ◌∙◌, Bool, true, false, List, none, some, ◌==◌, Bool-cases, ◌⊎◌,
  inl, inr, ◌||◌,
}
use meshtastic_lora_rs.Common.Result.{Result, ok, err, Result-cases}
use meshtastic_lora_rs.Mac.Packet.{MeshFrame, from_bytes}
use meshtastic_lora_rs.Mac.Crypto.{Cipher}
use meshtastic_lora_rs.Mesh.Router.{Key, DedupCache, contains}
use meshtastic_lora_rs.Mesh.Router.Decision.{seen}
use meshtastic_lora_rs.Mesh.Router.Dedup
use meshtastic_lora_rs.Mesh.Router.Dedup.{check_hit, check_and_insert-IsValid}
use meshtastic_lora_rs.Mesh.Router.Window.{check-contains}
use meshtastic_lora_rs.Mesh.Node.Table
use meshtastic_lora_rs.Mesh.Node.Table.{update-IsValid}
use meshtastic_lora_rs.Proto.{Proto, decode_user}
use meshtastic_lora_rs.App.{
  MeshNode, malformed, wrong_channel, proto, channel_hash, Outcome, note_user, process_rx_frame,
}
use meshtastic_lora_rs.App.Receive.{
  accepts, marked, plaintext, delivery, expected, Verdict, refused, duplicate, ours, theirs,
  verdict, process_rx_frame_lem, process_parsed,
}

-- The node's invariant: that of its dedup cache and that of its neighbour table.
pub record IsValid (n : MeshNode) : Type 0 where
  pub dedup_valid : Dedup.IsValid n.dedup
  pub table_valid : Table.IsValid n.neighbours

module _ (pr : Proto) (c : Cipher) where
  open pr use {Data, DecodeError}

  -- The table is what it was, or has one entry more or anew; the rest of the node stays.
  record NotesAtMost (n n' : MeshNode) : Type 0 where
    local_ : n'.local ≡ n.local
    crypto_ : n'.crypto ≡ n.crypto
    channel_ : n'.channel ≡ n.channel
    dedup_ : n'.dedup ≡ n.dedup
    table_ : Table.IsValid n.neighbours → Table.IsValid n'.neighbours

  unchanged : (n : MeshNode) → NotesAtMost n n
  unchanged n = record {
    local_ = refl;
    crypto_ = refl;
    channel_ = refl;
    dedup_ = refl;
    table_ = λ v. v;
  }

  note_user_lem : (n : MeshNode) (from : ℕ) (d : Data) → NotesAtMost n (note_user pr c n from d)
  unfolding note_user
  note_user_lem n from d = elim (Bool-cases (pr.portnum d == pr.nodeinfo_app)) [
    | inr other ↦ rw other (unchanged n)
    | inl info ↦ elim (Result-cases (decode_user pr d)) [
      | inr (x, e) ↦ rw (info, e) (unchanged n)
      | inl (user, e) ↦
          rw (info, e)
            (record {
              local_ = refl;
              crypto_ = refl;
              channel_ = refl;
              dedup_ = refl;
              table_ = update-IsValid n.neighbours _;
            })
    ]
  ]

  delivery-Notes :
      (n : MeshNode) (f : MeshFrame) (r : Result DecodeError Data)
      → NotesAtMost (marked n f) (delivery pr c n f r).1
  delivery-Notes n f (ok d) = note_user_lem (marked n f) f.header.from d
  delivery-Notes n f (err e) = unchanged (marked n f)

  Verdict-Notes :
      (n : MeshNode) (f : MeshFrame)
      → Verdict pr c n f
      → accepts n f ≡ true
      → NotesAtMost (marked n f) (expected pr c n f).1
  Verdict-Notes n f (refused no_ x) a = cc
  Verdict-Notes n f (duplicate _ _ x) a = rw x (unchanged (marked n f))
  Verdict-Notes n f (ours _ _ _ x) a =
      rw x (delivery-Notes n f (pr.decode_data (plaintext pr c n f)))
  Verdict-Notes n f (theirs _ _ _ x) a = rw x (unchanged (marked n f))

  again :
      (n n' : MeshNode) (raw : List ℕ) (f : MeshFrame)
      → from_bytes raw ≡ some f
      → accepts n f ≡ true
      → NotesAtMost (marked n f) n'
      → process_rx_frame pr c n' raw ≡ (ok (none, none), n')
  again n n' raw f parse a notes =
      let k : Key = (f.header.from, f.header.id) in
      let taken : accepts n' f ≡ true =
        ap (λ ch. f.header.via_mqtt || f.header.channel_hash == channel_hash ch) notes.channel_
        ∙ a in
      let old : seen n'.dedup f ≡ true =
        ap (λ (d : DedupCache). contains d.entries k) notes.dedup_ ∙ check-contains n.dedup k in
      process_parsed pr c n' raw f parse
      ∙ rw (taken, old)
          (ap (λ (d : DedupCache). (ok (none, none), record n' { dedup = d }))
            (ap (λ p. p.1) (check_hit n'.dedup k old)))

  -- A frame that passes the channel check is taken once: if the same bytes come again at once, nothing
  -- is delivered, nothing is forwarded, and the node does not change.
  pub process_twice :
      (n : MeshNode) (raw : List ℕ) (f : MeshFrame)
      → from_bytes raw ≡ some f
      → accepts n f ≡ true
      → let n' = (process_rx_frame pr c n raw).1 in
        process_rx_frame pr c n' raw ≡ (ok (none, none), n')
  process_twice n raw f parse a = again n (process_rx_frame pr c n raw).1 raw f parse a (
      subst (λ r. NotesAtMost (marked n f) r.1) (sym (process_parsed pr c n raw f parse))
        (Verdict-Notes n f (verdict pr c n f) a))

  abbrev rejects : Outcome pr c → Bool
  rejects (ok r) = false
  rejects (err malformed) = true
  rejects (err wrong_channel) = true
  rejects (err (proto e)) = false

  delivery_keeps :
      (n : MeshNode) (f : MeshFrame) (r : Result DecodeError Data)
      → rejects (delivery pr c n f r).0 ≡ false
  delivery_keeps n f (ok d) = refl
  delivery_keeps n f (err e) = refl

  Verdict-rejected :
      (n : MeshNode) (f : MeshFrame)
      → Verdict pr c n f
      → rejects (expected pr c n f).0 ≡ true
      → (expected pr c n f).1 ≡ n
  Verdict-rejected n f (refused _ x) e = ap (λ r. r.1) x
  Verdict-rejected n f (duplicate _ _ x) e = cc (ap (λ r. rejects r.0) x)
  Verdict-rejected n f (ours _ _ _ x) e =
      cc (delivery_keeps n f (pr.decode_data (plaintext pr c n f)))
  Verdict-rejected n f (theirs _ _ _ x) e = cc (ap (λ r. rejects r.0) x)

  rejects_of : (o : Outcome pr c) → (o ≡ err malformed) ⊎ (o ≡ err wrong_channel) → rejects o ≡ true
  rejects_of o (inl e) = ap rejects e
  rejects_of o (inr e) = ap rejects e

  -- An input that is malformed or on another channel changes nothing of the node.
  pub process_rejected :
      (n : MeshNode) (raw : List ℕ)
      → ((process_rx_frame pr c n raw).0 ≡ err malformed)
        ⊎ ((process_rx_frame pr c n raw).0 ≡ err wrong_channel)
      → (process_rx_frame pr c n raw).1 ≡ n
  process_rejected n raw e = elim (process_rx_frame_lem pr c n raw) [
    | inl (_, x) ↦ ap (λ r. r.1) x
    | inr (f, parse, x) ↦
        ap (λ r. r.1) x
        ∙ Verdict-rejected n f (verdict pr c n f) (ap (λ r. rejects r.0) (sym x) ∙ rejects_of _ e)
  ]

  kept :
      (n : MeshNode) {n' : MeshNode} (f : MeshFrame)
      → IsValid n
      → NotesAtMost (marked n f) n'
      → IsValid n'
  kept n f v notes = record {
    dedup_valid =
        rw notes.dedup_ (check_and_insert-IsValid n.dedup f.header.from f.header.id v.dedup_valid);
    table_valid = notes.table_ v.table_valid;
  }

  -- Whatever comes in, the cache keeps at most fifty distinct keys, and the neighbour table one entry
  -- for each node, under its own id.
  pub process-IsValid :
      (n : MeshNode) (raw : List ℕ) → IsValid n → IsValid (process_rx_frame pr c n raw).1
  process-IsValid n raw v = elim (process_rx_frame_lem pr c n raw) [
    | inl (_, x) ↦ rw x v
    | inr (f, parse, x) ↦ rw x (elim (Bool-cases (accepts n f)) [
      | inr no_ ↦ rw no_ v
      | inl taken ↦ kept n f v (Verdict-Notes n f (verdict pr c n f) taken)
    ])
  ]

  -- Receiving never changes the node's own id and names.
  pub process-local :
      (n : MeshNode) (raw : List ℕ) → (process_rx_frame pr c n raw).1.local ≡ n.local
  process-local n raw = elim (process_rx_frame_lem pr c n raw) [
    | inl (_, x) ↦ ap (λ r. r.1.local) x
    | inr (f, parse, x) ↦ ap (λ r. r.1.local) x ∙ elim (Bool-cases (accepts n f)) [
      | inr no_ ↦ rw no_ refl
      | inl taken ↦ (Verdict-Notes n f (verdict pr c n f) taken).local_
    ]
  ]
