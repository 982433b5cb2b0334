-- ===== src/Cluster.antt =====
-- The members of the Raft cluster (src/raft/mod.rs, src/raft/join.rs, src/raft/transport.rs).
use nexus_auth.Prelude.{
  ℕ, ◌+◌, ◌*◌, Bool, Option, none, some, List, [], ◌∷◌, ◌++◌, Text, Bytes, is_some, any, take,
  if◌then◌else◌, ◌==◌,
}
use nexus_auth.Names.{External}

-- `RaftNode`
pub record RaftNode : Type 0 where
  pub peer_id : Text
  pub identity_key : Text
  pub x25519_key : Text

pub record MemberInfo : Type 0 where
  pub node_id : ℕ
  pub peer_id : Text
  pub identity_key : Text
  pub x25519_key : Text
  pub voter : Bool

pub record MembershipView : Type 0 where
  pub voters : List MemberInfo
  pub learners : List MemberInfo
  pub leader : Option ℕ
  pub term : ℕ

-- `Iterator::find` by the node's id.
unfoldable pub find_in : ℕ → List MemberInfo → Option MemberInfo
find_in node_id [] = none
find_in node_id (m ∷ members) =
    let rest = find_in node_id members in if m.node_id == node_id then some m else rest

-- `MembershipView::find`
unfoldable pub find : MembershipView → ℕ → Option MemberInfo
find view node_id = find_in node_id (view.voters ++ view.learners)

unfoldable pub is_voter : MembershipView → ℕ → Bool
is_voter view node_id = any (λ m. m.node_id == node_id) view.voters

unfoldable pub is_member : MembershipView → ℕ → Bool
is_member view node_id = is_some (find view node_id)

-- `u64::from_be_bytes`
unfoldable pub from_be_bytes : ℕ → Bytes → ℕ
from_be_bytes acc [] = acc
from_be_bytes acc (b ∷ bs) = from_be_bytes (acc * 256 + b) bs

unfoldable pub node_id_from_peer_id : ⦃x : External⦄ → Text → ℕ
node_id_from_peer_id ⦃x⦄ peer_id =
    let id = from_be_bytes 0 (take 8 (x.sha256 peer_id)) in if id == 0 then 1 else id
