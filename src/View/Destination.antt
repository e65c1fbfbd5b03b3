-- ===== src/View/Destination.antt =====
-- Whom a message goes to: what the interface and the radio loop print of a node's id is read back.
use meshtastic_lora_rs.Common.{
  ℕ, ◌≤◌, ◌≡◌, refl, ap, ◌∙◌, false, ◌==◌, ◌&&◌, [], ◌∷◌, ◌++◌, none, some, arith, All, All-append,
  if_false,
}
use mathlib.Core.List.{append_assoc}
use meshtastic_lora_rs.Common.Hex.{hex8, u32_max, u32_from_hex}
use meshtastic_lora_rs.Common.Hex.RoundTrip.{IsHex, hex_digits-IsHex, u32_from_hex-hex8}
use meshtastic_lora_rs.Common.Text.{after, split_nth1, trim_bangs, trim_0x}
use meshtastic_lora_rs.Common.Text.Marks.{before-none, after-first, strip_suffix-append}
use meshtastic_lora_rs.Common.Result.{Str, codes}
use meshtastic_lora_rs.Mesh.Node.{NodeInfo}
use meshtastic_lora_rs.Radio.Send.{neighbour_text}
use meshtastic_lora_rs.View.Messages.{entry_dest, typed_dest, id_text}

-- No digit is the mark's first character.
hex-unmarked : (s : Str) → All IsHex s → All (λ b. (b'(' == b) ≡ false) s
hex-unmarked [] h = tt
hex-unmarked (b ∷ s) (fine, rest) = (ground arith, hex-unmarked s rest)

hex8-IsHex : (x : ℕ) → All IsHex (hex8 x)
unfolding hex8
hex8-IsHex x = hex_digits-IsHex 8 x

-- The entry of a neighbour's list is the id that follows the mark and precedes the bracket.
entry_dest_lem :
    (entry hex : Str)
    → after (codes "(!") entry ≡ some (hex ++ codes ")")
    → All IsHex hex
    → entry_dest entry ≡ u32_from_hex hex
unfolding entry_dest u32_from_hex
entry_dest_lem entry hex found digits =
    rw
      (
        entry_dest,
        split_nth1,
        found,
        before-none b'(' b'!' (hex ++ codes ")") (
            All-append (λ b. (b'(' == b) ≡ false) hex (codes ")") (hex-unmarked hex digits)
              (refl, tt)),
        strip_suffix-append b')' hex,
      )
      refl

-- A neighbour whose short name does not hold the mark "(!" and whose id is a u32 is offered as a
-- destination under its own id: what the radio loop prints of it into the list of neighbours, the
-- interface reads back.
pub entry_dest-neighbour_text :
    (n : NodeInfo)
    → after (codes "(!") n.short_name ≡ none
    → n.node_id ≤ u32_max
    → entry_dest (neighbour_text n) ≡ some n.node_id
entry_dest-neighbour_text n unmarked fits =
    entry_dest_lem (neighbour_text n) (hex8 n.node_id)
      (ap (after (codes "(!")) (simp append_assoc)
        ∙ after-first b'(' b'!' n.short_name b' ' (hex8 n.node_id ++ codes ")") unmarked refl refl)
      (hex8-IsHex n.node_id)
    ∙ u32_from_hex-hex8 n.node_id fits

-- Digits are not trimmed.
trim_bangs-hex : (s : Str) → All IsHex s → trim_bangs s ≡ s
unfolding trim_bangs
trim_bangs-hex [] h = refl
trim_bangs-hex (b ∷ s) (fine, rest) = if_false {b = b == b'!'} _ (ground arith)

trim_0x-hex : (s : Str) → All IsHex s → trim_0x s ≡ s
unfolding trim_0x
trim_0x-hex [] h = refl
trim_0x-hex (b ∷ []) h = refl
trim_0x-hex (b ∷ d ∷ s) h =
    let (low, high) = h.1.0 in if_false {b = b == b'0' && d == b'x'} _ (ground arith)

-- The text that the interface shows of a u32 id, "!" and eight digits, is read as that id when a user
-- types it, and so are the digits without the "!" and with "0x" in its place.
pub typed_dest-id_text :
    (id : ℕ)
    → id ≤ u32_max
    → (typed_dest (id_text id) ≡ some id)
      × (typed_dest (hex8 id) ≡ some id)
      × (typed_dest (codes "0x" ++ hex8 id) ≡ some id)
unfolding typed_dest
typed_dest-id_text id fits =
    let digits = hex8-IsHex id in
    let bare : u32_from_hex (trim_0x (hex8 id)) ≡ some id =
      ap u32_from_hex (trim_0x-hex (hex8 id) digits) ∙ u32_from_hex-hex8 id fits in
    let plain : u32_from_hex (trim_0x (trim_bangs (hex8 id))) ≡ some id =
      ap (λ s. u32_from_hex (trim_0x s)) (trim_bangs-hex (hex8 id) digits) ∙ bare in
    (unfold trim_bangs in plain, plain, unfold trim_0x trim_bangs in bare)
