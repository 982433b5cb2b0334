-- ===== src/Policy/Tokens.antt =====
-- The commands on join tokens (src/raft/state_machine.rs).
use nexus_auth.Prelude.{
  ℕ, ◌||◌, ◌&&◌, not, Option, none, some, ◌++◌, Text, text, is_empty, is_blank, decimal, Done, ok,
  err, if◌then◌else◌, saturating_add32, ◌==◌, leb, ltb,
}
use nexus_auth.Order.{text_ord, ◌≟◌}
use nexus_auth.BTree.{get, insert, contains_key}
use nexus_auth.Policy.Types.{JoinToken, StoredJoinToken, Rejection, Step, reject}

unfoldable pub issue_join_token : JoinToken → Step Done
issue_join_token token s =
    if not (token.v == 1)
    then reject (text "join_token_bad_version")
        (text "unsupported join token version: " ++ decimal token.v) s
    else if is_blank token.jti
    then reject (text "join_token_bad_jti") (text "join token jti is empty") s
    else if token.max_uses == 0
    then reject (text "join_token_bad_uses") (text "join token max_uses must be positive") s
    else if not (token.network ≟ s.network)
    then reject (text "join_token_wrong_network")
        (text "join token network "
          ++ token.network
          ++ text " does not match state network "
          ++ s.network)
        s
    else if contains_key token.jti s.join_tokens
    then reject (text "join_token_exists") (text "join token jti already recorded: " ++ token.jti) s
    else (
      ok tt,
      record s {
        join_tokens = insert token.jti (record { token = token; uses = 0 }) s.join_tokens;
      },
    )

-- The refusals of a token that is recorded, in their order; `none` if it may be used.
unfoldable pub token_refusal : Text → Text → ℕ → StoredJoinToken → Option Rejection
token_refusal jti peer_id used_at r =
    if leb r.token.max_uses r.uses
    then some (record {
      code = text "join_token_replayed";
      message = text "join token already used: " ++ jti;
    })
    else if not (is_empty r.token.bind_peer_id) && not (r.token.bind_peer_id ≟ peer_id)
    then some (record {
      code = text "join_token_wrong_peer";
      message = text "join token bound to a different peer: " ++ jti;
    })
    else if r.token.expires_at == 0 || ltb r.token.expires_at used_at
    then some
        (record { code = text "join_token_expired"; message = text "join token expired: " ++ jti })
    else none

unfoldable pub consume_join_token : Text → Text → ℕ → Step Done
unfolding token_refusal
consume_join_token jti peer_id used_at s = elim (get jti s.join_tokens) [
  | none ↦ reject (text "join_token_unknown") (text "unknown join token: " ++ jti) s
  | some r ↦ elim (token_refusal jti peer_id used_at r) [
    | some e ↦ (err e, s)
    | none ↦ (
      ok tt,
      record s {
        join_tokens = insert jti (record r { uses = saturating_add32 r.uses 1 }) s.join_tokens;
      },
    )
  ]
]
