-- ===== src/Transport/Members.antt =====
-- src/raft/transport.rs: the table of keys after the members of the cluster have changed.
use nexus_auth.Prelude.{
  ℕ, ◌≡◌, refl, Bool, false, ◌||◌, none, List, [], ◌∷◌, Text, ok, is_ok, arith, Result-cases, inl,
  inr, ◌==◌,
}
use nexus_auth.Order.{nat_ord, text_ord, ≟_iff}
use nexus_auth.BTree.{BTreeMap, get, insert}
use nexus_auth.BTree.Lookup.{get-insert}
use nexus_auth.Auth.Crypto.{Crypto}
use nexus_auth.Transport.{
  RaftRpcEnvelope, Messages, RpcVerifier, parse_verifying_key, parse_nodes, replace_nodes,
  verify_request,
}

-- Whether a list of members has an id.
unfoldable pub has_id : ℕ → List (ℕ × Text) → Bool
has_id node_id [] = false
has_id node_id ((id, key_b64) ∷ nodes) = id == node_id || has_id node_id nodes

module _ {V S : Type 0} (c : Crypto V S) where
  parse_nodes-get :
      (node_id : ℕ) (nodes : List (ℕ × Text)) (table parsed : BTreeMap ℕ V)
      → has_id node_id nodes ≡ false
      → get node_id table ≡ none
      → parse_nodes c nodes table ≡ ok parsed
      → get node_id parsed ≡ none
  unfolding parse_nodes has_id
  parse_nodes-get node_id [] table parsed n g h = ground (arith, g, h)
  parse_nodes-get node_id ((id, key_b64) ∷ nodes) table parsed n g h =
      elim (Result-cases (parse_verifying_key c key_b64)) [
        | inr (e, q) ↦ absurd (ground (arith, q, h))
        | inl (key, q) ↦
            parse_nodes-get node_id nodes (insert id key table) parsed (ground (arith, n))
              (ground (arith, get-insert id node_id key table, n, g, ≟_iff node_id id))
              (ground (arith, q, h))
      ]

  -- After the table of keys is replaced without an error, a request from a node that is not among
  -- the new members is refused.
  pub replaced_refused :
      {B : Type 0} (m : Messages B) (v : RpcVerifier V) (nodes : List (ℕ × Text))
      (e : RaftRpcEnvelope)
      → (replace_nodes c v nodes).0 ≡ ok tt
      → has_id e.from nodes ≡ false
      → is_ok (verify_request c m (replace_nodes c v nodes).1 e) ≡ false
  unfolding replace_nodes verify_request get
  replaced_refused m v nodes e h n = elim (Result-cases (parse_nodes c nodes [])) [
    | inr (x, q) ↦ absurd (ground (arith, q, h))
    | inl (parsed, q) ↦ ground (arith, q, parse_nodes-get e.from nodes [] parsed n refl q)
  ]
