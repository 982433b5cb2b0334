-- ===== src/Policy/TokenUse.antt =====
-- A join token is used at most as often as it allows, whatever else the log holds.
use nexus_auth.Prelude.{
  ℕ, ◌+◌, ◌≤◌, ◌<◌, ◌≡◌, ap, subst, Bool, true, false, ◌&&◌, none, some, Text, ok, is_ok, arith,
  Option-cases, Bool-cases, inl, inr, u32_max, saturating_add32,
}
use nexus_auth.Order.{◌≟◌, ≟_iff, text_ord}
use nexus_auth.BTree.{get, insert}
use nexus_auth.BTree.Lookup.{get-insert}
use nexus_auth.Names.{External}
use nexus_auth.Policy.Types.{PolicyState, PolicyCommand, PolicyResult, JoinToken, StoredJoinToken}
use nexus_auth.Policy.Services.{
  create_service, delete_service, add_members, remove_members, set_members,
}
use nexus_auth.Policy.Tokens.{issue_join_token, consume_join_token, token_refusal}
use nexus_auth.Policy.Apply.{result_of, apply_inner, apply_admin, apply_command_at}
use nexus_auth.Policy.Epoch.{carried}
use nexus_auth.Policy.View.{took_effect}

-- The command asks for one use of `jti`.
abbrev pub asks_use : Text → PolicyCommand → Bool
asks_use jti (PolicyCommand.consume_join_token jti' node_id peer_id used_at) = jti ≟ jti'
asks_use jti (PolicyCommand.delete_service service) = false
asks_use jti _ = false

-- One more use of the record, or none.
abbrev pub used : Bool → StoredJoinToken → StoredJoinToken
used true r = record r { uses = r.uses + 1 }
used false r = r

-- A record whose use is within what its token allows.
pub record IsWithin (r : StoredJoinToken) : Type 0 where
  pub allowed : r.uses ≤ r.token.max_uses
  pub fits : r.token.max_uses ≤ u32_max

token_refusal-none :
    (jti peer_id : Text) (used_at : ℕ) (r : StoredJoinToken)
    → token_refusal jti peer_id used_at r ≡ none
    → r.uses < r.token.max_uses
unfolding token_refusal
token_refusal-none jti peer_id used_at r h = ground arith

-- `saturating_add` adds one below the bound.
one_more :
    (r : StoredJoinToken)
    → IsWithin r
    → r.uses < r.token.max_uses
    → (record r { uses = saturating_add32 r.uses 1 } ≡ used true r) × IsWithin (used true r)
unfolding saturating_add32
one_more r w h = (
  ap (λ (n : ℕ). record r { uses = n }) (omega (arith, w.fits)),
  record { allowed = omega arith; fits = w.fits },
)

accepted :
    (jti peer_id : Text) (used_at : ℕ) (s : PolicyState) (r : StoredJoinToken)
    → get jti s.join_tokens ≡ some r
    → token_refusal jti peer_id used_at r ≡ none
    → consume_join_token jti peer_id used_at s ≡ (
      ok tt,
      record s {
        join_tokens = insert jti (record r { uses = saturating_add32 r.uses 1 }) s.join_tokens;
      },
    )
unfolding consume_join_token
accepted jti peer_id used_at s r there free = ground (arith, there, free)

consumed :
    (jti jti' peer_id : Text) (used_at : ℕ) (s : PolicyState) (r : StoredJoinToken)
    → jti ≟ jti' ≡ true
    → get jti' s.join_tokens ≡ some r
    → token_refusal jti' peer_id used_at r ≡ none
    → (record r { uses = saturating_add32 r.uses 1 } ≡ used true r) × IsWithin (used true r)
    → let (result, s') = consume_join_token jti' peer_id used_at s in
      let one = is_ok result && jti ≟ jti' in
      (get jti s'.join_tokens ≡ some (used one r)) × IsWithin (used one r)
consumed jti jti' peer_id used_at s r same there free more =
    rw
      (
        accepted jti' peer_id used_at s r there free,
        get-insert jti' jti (record r { uses = saturating_add32 r.uses 1 }) s.join_tokens,
        same,
      )
      (ap some more.0, more.1)

consume_join_token-uses :
    (jti jti' peer_id : Text) (used_at : ℕ) (s : PolicyState) (r : StoredJoinToken)
    → get jti s.join_tokens ≡ some r
    → IsWithin r
    → let (result, s') = consume_join_token jti' peer_id used_at s in
      let one = is_ok result && jti ≟ jti' in
      (get jti s'.join_tokens ≡ some (used one r)) × IsWithin (used one r)
unfolding consume_join_token
consume_join_token-uses jti jti' peer_id used_at s r e w =
    elim (Option-cases (get jti' s.join_tokens)) [
      | inl none_there ↦ ground (arith, e, w)
      | inr (r', e') ↦ elim (Option-cases (token_refusal jti' peer_id used_at r')) [
        | inr (refused, f) ↦ ground (arith, e, e', f, w)
        | inl f ↦ elim (Bool-cases (jti ≟ jti')) [
          | inl same ↦
              let both : r' ≡ r = ground (arith, e, e', ≟_iff jti jti') in
              let more = one_more r w (
                subst (λ q. q.uses < q.token.max_uses) both
                  (token_refusal-none jti' peer_id used_at r' f)) in
              let there : get jti' s.join_tokens ≡ some r = rw (← both) e' in
              let free : token_refusal jti' peer_id used_at r ≡ none = rw (← both) f in
              consumed jti jti' peer_id used_at s r same there free more
          | inr other ↦ ground (
            arith,
            e,
            e',
            f,
            w,
            other,
            get-insert jti' jti (record r' { uses = saturating_add32 r'.uses 1 }) s.join_tokens,
          )
        ]
      ]
    ]

issue_join_token-uses :
    (jti : Text) (token : JoinToken) (s : PolicyState) (r : StoredJoinToken)
    → get jti s.join_tokens ≡ some r
    → get jti (issue_join_token token s).1.join_tokens ≡ some r
unfolding issue_join_token
issue_join_token-uses jti token s r e = ground (
  arith,
  get-insert token.jti jti (record { token = token; uses = 0 }) s.join_tokens,
  ≟_iff jti token.jti,
)

module _ ⦃x : External⦄ where
  -- What a step of the policy does to the record of `jti`.
  apply_inner-uses :
      (jti : Text) (c : PolicyCommand) (s : PolicyState) (r : StoredJoinToken)
      → get jti s.join_tokens ≡ some r
      → IsWithin r
      → let (result, s') = apply_inner c s in
        let one = is_ok result && asks_use jti c in
        (get jti s'.join_tokens ≡ some (used one r)) × IsWithin (used one r)
  unfolding apply_inner create_service delete_service add_members remove_members set_members
  apply_inner-uses jti (PolicyCommand.consume_join_token jti' node_id peer_id used_at) s r e w =
      ground (arith, consume_join_token-uses jti jti' peer_id used_at s r e w)
  apply_inner-uses jti (PolicyCommand.issue_join_token token) s r e w =
      ground (arith, issue_join_token-uses jti token s r e)
  apply_inner-uses jti (PolicyCommand.delete_service service) s r e w = ground arith
  apply_inner-uses jti c s r e w = ground arith

  result_of-uses :
      (jti : Text) (c : PolicyCommand) (s : PolicyState) (r : StoredJoinToken)
      → get jti s.join_tokens ≡ some r
      → IsWithin r
      → let (result, s') = result_of (apply_inner c s) in
        let one = took_effect result && asks_use jti c in
        (get jti s'.join_tokens ≡ some (used one r)) × IsWithin (used one r)
  result_of-uses jti c s r e w = ground (arith, apply_inner-uses jti c s r e w)

  apply_admin-uses :
      (jti request_id request_hash : Text) (request_ts : ℕ) (c : PolicyCommand) (i : ℕ)
      (s : PolicyState) (r : StoredJoinToken)
      → get jti s.join_tokens ≡ some r
      → IsWithin r
      → let (result, s') = apply_admin request_id request_hash request_ts c i s in
        let one = took_effect result && asks_use jti c in
        (get jti s'.join_tokens ≡ some (used one r)) × IsWithin (used one r)
  unfolding apply_admin
  apply_admin-uses jti request_id request_hash request_ts c i s r e w =
      ground (arith, apply_inner-uses jti c s r e w)

  -- The result of a command in the log is a use of `jti`.
  abbrev pub is_use : Text → PolicyCommand → PolicyResult → Bool
  is_use jti c result = took_effect result && asks_use jti (carried c)

  pub apply-uses :
      (jti : Text) (c : PolicyCommand) (i : ℕ) (s : PolicyState) (r : StoredJoinToken)
      → get jti s.join_tokens ≡ some r
      → IsWithin r
      → let (result, s') = apply_command_at c i s in
        let one = is_use jti c result in
        (get jti s'.join_tokens ≡ some (used one r)) × IsWithin (used one r)
  unfolding apply_command_at
  apply-uses jti (PolicyCommand.admin request_id kid request_hash request_ts command) i s r e w =
      apply_admin-uses jti request_id request_hash request_ts command i s r e w
  apply-uses jti (PolicyCommand.delete_service service) i s r e w = result_of-uses jti _ s r e w
  apply-uses jti c i s r e w = result_of-uses jti c s r e w
