-- ===== src/Mac/Crypto/Laws.antt =====
-- Decryption undoes encryption, and distinct packets have distinct nonces.
use meshtastic_lora_rs.Common.{ℕ, suc, ◌≡◌, refl, ap, List, [], ◌∷◌, length, All, take, drop}
use meshtastic_lora_rs.Common.Bytes.{IsByte, IsU32, to_le_bytes-injective}
use meshtastic_lora_rs.Common.Xor.{bit_xor_cancel, bit_xor-lt}
use meshtastic_lora_rs.Mac.Crypto.{
  Cipher, IsStreamCipher, xor_from, MeshCrypto, nonce, encrypt, decrypt,
}

xor_from_twice : (s : ℕ → ℕ) (n : ℕ) (bs : List ℕ) → xor_from s n (xor_from s n bs) ≡ bs
xor_from_twice s n [] = refl
xor_from_twice s n (b ∷ bs) = λ i. bit_xor_cancel b (s n) i ∷ xor_from_twice s (suc n) bs i

length-xor_from : (s : ℕ → ℕ) (n : ℕ) (bs : List ℕ) → length (xor_from s n bs) ≡ length bs
length-xor_from s n [] = refl
length-xor_from s n (b ∷ bs) = ap suc (length-xor_from s (suc n) bs)

xor_from-IsByte :
    (s : ℕ → ℕ) (n : ℕ) (bs : List ℕ)
    → ((i : ℕ) → IsByte (s i))
    → All IsByte bs
    → All IsByte (xor_from s n bs)
xor_from-IsByte s n [] hs h = tt
xor_from-IsByte s n (b ∷ bs) hs h =
    (bit_xor-lt 8 b (s n) h.0 (hs n), xor_from-IsByte s (suc n) bs hs h.1)

module _ (c : Cipher) (l : IsStreamCipher c) (m : MeshCrypto) (packet_id from_node : ℕ) where
  encrypt_lem :
      (buf : List ℕ)
      → encrypt c m packet_id from_node buf
        ≡ xor_from (l.stream m.psk (nonce packet_id from_node)) 0 buf
  unfolding encrypt
  encrypt_lem buf = l.xors m.psk (nonce packet_id from_node) buf

  -- For a cipher that joins its key stream by exclusive or, decryption under the same key, packet id
  -- and sender gives the plaintext back.
  pub decrypt-encrypt :
      (plaintext : List ℕ)
      → decrypt c m packet_id from_node (encrypt c m packet_id from_node plaintext) ≡ plaintext
  unfolding decrypt
  decrypt-encrypt plaintext = rw (encrypt_lem plaintext, encrypt_lem) (xor_from_twice _ 0 plaintext)

  pub length-encrypt : (buf : List ℕ) → length (encrypt c m packet_id from_node buf) ≡ length buf
  length-encrypt buf = rw (encrypt_lem buf) (length-xor_from _ 0 buf)

  pub encrypt-IsByte :
      (buf : List ℕ) → All IsByte buf → All IsByte (encrypt c m packet_id from_node buf)
  encrypt-IsByte buf h = rw (encrypt_lem buf) (xor_from-IsByte _ 0 buf (l.stream-IsByte _ _) h)

-- Two packets with the same nonce have the same packet id and the same sender.
pub nonce-injective :
    (p f q g : ℕ)
    → IsU32 p
    → IsU32 f
    → IsU32 q
    → IsU32 g
    → nonce p f ≡ nonce q g
    → (p ≡ q) × (f ≡ g)
unfolding nonce
nonce-injective p f q g hp hf hq hg e = (
  to_le_bytes-injective p q hp hq (ap (take 4) e),
  to_le_bytes-injective f g hf hg (ap (λ bs. take 4 (drop 8 bs)) e),
)
