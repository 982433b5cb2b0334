-- ===== src/Storage/Replicas.antt =====
-- The state machine over a whole log: how a replica's batches do not matter, and what holds after any
-- log.
use nexus_auth.Prelude.{
  ℕ, ◌+◌, ◌≤◌, ◌≡◌, refl, ap, subst, ◌∙◌, Bool, true, false, some, List, [], ◌∷◌, ◌++◌, Text, arith,
  if◌then◌else◌,
}
use nexus_auth.Order.{text_ord}
use nexus_auth.BTree.{get}
use nexus_auth.Names.{External}
use nexus_auth.Policy.Types.{PolicyResult, StoredJoinToken}
use nexus_auth.Policy.TokenUse.{IsWithin, used, is_use, apply-uses}
use nexus_auth.Policy.WellFormed.{IsWellFormed}
use nexus_auth.Policy.Invariant.{apply-IsWellFormed}
use nexus_auth.Storage.Types.{Payload, Entry}
use nexus_auth.Storage.Machine.{SmInner, apply_entry, apply_entries}

used-uses : (one : Bool) (r : StoredJoinToken) → (used one r).uses ≡ (if one then 1 else 0) + r.uses
used-uses true r = omega arith
used-uses false r = omega arith

used-token : (one : Bool) (r : StoredJoinToken) → (used one r).token ≡ r.token
used-token true r = refl
used-token false r = refl

module _ ⦃x : External⦄ {M : Type 0} where
  -- A log gives the same answers and the same state in one batch as in two.
  pub batches :
      (es fs : List (Entry M)) (inner : SmInner M)
      → let (results, middle) = apply_entries es inner in
        let (more, last) = apply_entries fs middle in
        apply_entries (es ++ fs) inner ≡ (results ++ more, last)
  unfolding apply_entries
  batches [] fs inner = refl
  batches (e ∷ es) fs inner = ground (arith, batches es fs (apply_entry e inner).1)

  -- The result of an entry is a use of the token `jti`.
  abbrev pub entry_is_use : Text → Entry M → PolicyResult → Bool
  entry_is_use jti e result = elim e.payload [
    | Payload.blank ↦ false
    | Payload.normal command ↦ is_use jti command result
    | Payload.membership mem ↦ false
  ]

  -- The uses of `jti` that the results of a log report.
  unfoldable pub count_uses : Text → List (Entry M) → List PolicyResult → ℕ
  count_uses jti [] results = 0
  count_uses jti (e ∷ es) [] = 0
  count_uses jti (e ∷ es) (r ∷ results) =
      (if entry_is_use jti e r then 1 else 0) + count_uses jti es results

  apply_entry-uses :
      (jti : Text) (e : Entry M) (inner : SmInner M) (r : StoredJoinToken)
      → get jti inner.state.join_tokens ≡ some r
      → IsWithin r
      → let (result, inner') = apply_entry e inner in
        let one = entry_is_use jti e result in
        (get jti inner'.state.join_tokens ≡ some (used one r)) × IsWithin (used one r)
  unfolding apply_entry
  apply_entry-uses jti e inner r h w =
      elim e.payload
        as (λ p.
          let entry : Entry M = record { log_id = e.log_id; payload = p } in
          let (result, inner') = apply_entry entry inner in
          let one = entry_is_use jti entry result in
          (get jti inner'.state.join_tokens ≡ some (used one r)) × IsWithin (used one r)) [
            | Payload.blank ↦ (h, w)
            | Payload.normal command ↦ apply-uses jti command e.log_id.index inner.state r h w
            | Payload.membership mem ↦ (h, w)
          ]

  uses_counted :
      (jti : Text) (es : List (Entry M)) (inner : SmInner M) (r : StoredJoinToken)
      → get jti inner.state.join_tokens ≡ some r
      → IsWithin r
      → (q : StoredJoinToken) × (get jti (apply_entries es inner).1.state.join_tokens ≡ some q)
        × IsWithin q
        × (q.uses ≡ count_uses jti es (apply_entries es inner).0 + r.uses)
        × (q.token ≡ r.token)
  unfolding apply_entries count_uses
  uses_counted jti [] inner r h w = (r, h, w, omega arith, refl)
  uses_counted jti (e ∷ es) inner r h w =
      let one = entry_is_use jti e (apply_entry e inner).0 in
      let step = apply_entry-uses jti e inner r h w in
      let (q, there, within, count, same) =
        uses_counted jti es (apply_entry e inner).1 (used one r) step.0 step.1 in
      (q, there, within, omega (arith, count, used-uses one r), same ∙ used-token one r)

  -- Let a join token be recorded with no more uses than it allows. However a log uses it, alone or
  -- within administrators' requests, the uses that the results grant and those before never exceed
  -- what the token allows, and the record counts them exactly.
  pub token_budget :
      (jti : Text) (es : List (Entry M)) (inner : SmInner M) (r : StoredJoinToken)
      → get jti inner.state.join_tokens ≡ some r
      → IsWithin r
      → let (results, last) = apply_entries es inner in
        let total = count_uses jti es results + r.uses in
        (total ≤ r.token.max_uses)
        × (get jti last.state.join_tokens ≡ some (record { token = r.token; uses = total }))
  token_budget jti es inner r h w =
      let (q, there, within, count, same) = uses_counted jti es inner r h w in
      (
        subst (λ n. n ≤ r.token.max_uses) count
            (subst (λ t. q.uses ≤ t.max_uses) same within.allowed),
        there ∙ ap some (λ i. record { token = same i; uses = count i }),
      )

  apply_entry-IsWellFormed :
      (e : Entry M) (inner : SmInner M)
      → IsWellFormed inner.state
      → IsWellFormed (apply_entry e inner).1.state
  unfolding apply_entry
  apply_entry-IsWellFormed e inner w =
      elim e.payload
        as (λ p.
          let entry : Entry M = record { log_id = e.log_id; payload = p } in
          IsWellFormed (apply_entry entry inner).1.state) [
            | Payload.blank ↦ w
            | Payload.normal command ↦ apply-IsWellFormed command e.log_id.index inner.state w
            | Payload.membership mem ↦ w
          ]

  -- Let a policy be well formed: its maps and member sets in order and at most ten thousand
  -- records of requests. After any log, of any commands and however refused, it still is.
  pub apply_entries-IsWellFormed :
      (es : List (Entry M)) (inner : SmInner M)
      → IsWellFormed inner.state
      → IsWellFormed (apply_entries es inner).1.state
  unfolding apply_entries apply_entry
  apply_entries-IsWellFormed [] inner w = w
  apply_entries-IsWellFormed (e ∷ es) inner w =
      apply_entries-IsWellFormed es (apply_entry e inner).1 (apply_entry-IsWellFormed e inner w)
