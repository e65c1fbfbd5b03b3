-- ===== src/Proto.antt =====
-- mesh/src/proto. The message types are generated by `prost-build` from a git submodule, and `prost`
-- encodes and decodes them: both are the parameter `Proto`, with what the code relies on in
-- `IsCodec`. The helper methods of proto/mod.rs are definitions.
use meshtastic_lora_rs.Common.{ℕ, List, Option, none, some, ◌≡◌, ◌==◌, if◌then◌else◌}
use meshtastic_lora_rs.Common.Result.{Result, ok, Str, is_utf8}

pub record Proto : Type 1 where
  pub Data : Type 0
  pub User : Type 0
  pub DecodeError : Type 0
  -- `Data { portnum, payload, ..Default::default() }`; an i32 is its bit pattern.
  pub new_data : ℕ → List ℕ → Data
  pub portnum : Data → ℕ
  pub payload : Data → List ℕ
  -- `User { id, long_name, short_name, ..Default::default() }`.
  pub new_user : Str → Str → Str → User
  pub short_name : User → Str
  pub long_name : User → Str
  -- `encode_to_vec` and `decode` of `prost::Message`, and `Display` of its error.
  pub encode_data : Data → List ℕ
  pub decode_data : List ℕ → Result DecodeError Data
  pub encode_user : User → List ℕ
  pub decode_user_bytes : List ℕ → Result DecodeError User
  pub error_text : DecodeError → Str
  -- `PortNum::TextMessageApp` and `PortNum::NodeinfoApp`.
  pub text_message_app : ℕ
  pub nodeinfo_app : ℕ

-- The fields of a new message are those it was given, encodings are bytes, and decoding reads an
-- encoding back.
pub record IsCodec (pr : Proto) : Type 0 where
  pub portnum-new_data : (p : ℕ) (bs : List ℕ) → pr.portnum (pr.new_data p bs) ≡ p
  pub payload-new_data : (p : ℕ) (bs : List ℕ) → pr.payload (pr.new_data p bs) ≡ bs
  pub short_name-new_user : (i l s : Str) → pr.short_name (pr.new_user i l s) ≡ s
  pub long_name-new_user : (i l s : Str) → pr.long_name (pr.new_user i l s) ≡ l
  pub decode-encode_data : (d : pr.Data) → pr.decode_data (pr.encode_data d) ≡ ok d
  pub decode-encode_user : (u : pr.User) → pr.decode_user_bytes (pr.encode_user u) ≡ ok u

module _ (pr : Proto) where
  open pr use {Data, User, DecodeError, new_data, portnum, payload, encode_user, decode_user_bytes}

  unfoldable pub encode_to_data : User → Data
  encode_to_data u = new_data pr.nodeinfo_app (encode_user u)

  unfoldable pub decode_user : Data → Result DecodeError User
  decode_user d = decode_user_bytes (payload d)

  unfoldable pub text : Data → Option Str
  text d =
      if portnum d == pr.text_message_app
      then (if is_utf8 (payload d) then some (payload d) else none)
      else none
