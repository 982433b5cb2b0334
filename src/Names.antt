-- ===== src/Names.antt =====
-- The names and constants of src/authority.rs, and what the sources ask of libraries that are not
-- in the repository.
use nexus_auth.Prelude.{
  ℕ, Bool, ◌&&◌, ◌||◌, not, leb, ◌==◌, all, length, Text, Bytes, text, is_empty,
}
use nexus_auth.Order.{◌≟◌, text_ord}

-- The libraries: `PeerId::from_str(s).is_ok()` of libp2p and `Sha256::digest` of sha2.
pub record External : Type 0 where
  pub parses_peer_id : Text → Bool
  pub sha256 : Bytes → Bytes

abbrev pub max_name_len : ℕ
max_name_len = 64

unfoldable pub reserved_service : Text
reserved_service = text "service"

unfoldable pub is_name_byte : ℕ → Bool
is_name_byte b =
    (leb b'0' b && leb b b'9')
    || (leb b'A' b && leb b b'Z')
    || (leb b'a' b && leb b b'z')
    || b == b'_'
    || b == b'-'

unfoldable pub is_valid_network_name : Text → Bool
is_valid_network_name s = not (is_empty s) && leb (length s) max_name_len && all is_name_byte s

unfoldable pub is_valid_service_name : Text → Bool
is_valid_service_name s = is_valid_network_name s && not (s ≟ reserved_service)

unfoldable pub is_valid_peer_id : ⦃x : External⦄ → Text → Bool
is_valid_peer_id ⦃x⦄ s = x.parses_peer_id s

unfoldable pub content_hash : ⦃x : External⦄ → Bytes → Bytes
content_hash ⦃x⦄ value = x.sha256 value
