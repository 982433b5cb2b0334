-- ===== src/Auth/Crypto.antt =====
-- The libraries that the authenticators call: hkdf, hmac, base64 and ed25519-dalek. `V` are verifying
-- keys and `S` signatures.
use nexus_auth.Prelude.{◌≡◌, Bool, Option, some, Text, Bytes, length}

pub record Crypto (V S : Type 0) : Type 0 where
  -- HKDF-SHA256 of a salt, a password and an info, to 32 bytes
  pub hkdf : Bytes → Bytes → Bytes → Option Bytes
  -- HMAC-SHA256 of a key and a message
  pub hmac : Bytes → Bytes → Bytes
  -- base64 in the URL alphabet with no padding, and in the standard one
  pub encode_url : Bytes → Text
  pub decode_url : Text → Option Bytes
  pub decode_standard : Text → Option Bytes
  pub key_from_bytes : Bytes → Option V
  pub signature_from_slice : Bytes → Option S
  pub verifies : V → Bytes → S → Bool

-- An HMAC has 32 bytes, and what base64 encodes it decodes.
pub record IsSane {V S : Type 0} (c : Crypto V S) : Type 0 where
  pub hmac_len : (key message : Bytes) → length (c.hmac key message) ≡ 32
  pub decodes : (b : Bytes) → c.decode_url (c.encode_url b) ≡ some b
