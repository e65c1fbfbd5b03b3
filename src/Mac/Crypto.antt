-- ===== src/Mac/Crypto.antt =====
-- mesh/src/mac/crypto.rs. The crates `aes` and `ctr` are not part of the repository: their stream
-- cipher is the parameter `Cipher`, and what the code relies on is `IsStreamCipher`.
pub mod Laws
use meshtastic_lora_rs.Common.{ℕ, suc, List, [], ◌∷◌, replicate, copy_at, ◌≡◌, bit_xor}
use meshtastic_lora_rs.Common.Bytes.{IsByte, to_le_bytes}

-- `Aes256Ctr::new(key, iv).apply_keystream(buf)`: key, initial vector and buffer to the new buffer.
pub record Cipher : Type 0 where
  pub apply_keystream : List ℕ → List ℕ → List ℕ → List ℕ

-- Each byte of the buffer, from position `n` on, joined by exclusive or to the key stream.
abbrev pub xor_from : (ℕ → ℕ) → ℕ → List ℕ → List ℕ
xor_from stream n [] = []
xor_from stream n (b ∷ bs) = bit_xor b (stream n) ∷ xor_from stream (suc n) bs

-- What the `cipher` crate documents of a synchronous stream cipher: the key and the initial vector
-- determine a stream of bytes, and the data are joined to it by exclusive or.
pub record IsStreamCipher (c : Cipher) : Type 0 where
  pub stream : List ℕ → List ℕ → ℕ → ℕ
  pub stream-IsByte : (key iv : List ℕ) (i : ℕ) → IsByte (stream key iv i)
  pub xors : (key iv buf : List ℕ) → c.apply_keystream key iv buf ≡ xor_from (stream key iv) 0 buf

pub record MeshCrypto : Type 0 where
  pub psk : List ℕ

abbrev pub public_psk : List ℕ
public_psk = copy_at 0 (0x01 ∷ []) (replicate 32 0)

pub nonce : ℕ → ℕ → List ℕ
nonce packet_id from_node =
    copy_at 8 (to_le_bytes from_node) (copy_at 0 (to_le_bytes packet_id) (replicate 16 0))

module _ (c : Cipher) where
  keystream : MeshCrypto → ℕ → ℕ → List ℕ → List ℕ
  unfolding nonce
  keystream m packet_id from_node buf = c.apply_keystream m.psk (nonce packet_id from_node) buf

  unfoldable pub encrypt : MeshCrypto → ℕ → ℕ → List ℕ → List ℕ
  unfolding keystream
  encrypt m packet_id from_node plaintext = keystream m packet_id from_node plaintext

  unfoldable pub decrypt : MeshCrypto → ℕ → ℕ → List ℕ → List ℕ
  decrypt m packet_id from_node ciphertext = encrypt m packet_id from_node ciphertext
