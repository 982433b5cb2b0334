-- ===== src/Policy/View.antt =====
-- The abstract view of the policy: which peers a service admits. Every command on services is an
-- update of that relation, whatever the representation.
use nexus_auth.Prelude.{
  ℕ, ◌≡◌, refl, ◌∙◌, Bool, true, false, ◌||◌, ◌&&◌, not, Option, none, some, List, [], ◌∷◌, Text,
  is_ok, arith, if◌then◌else◌, Bool-cases, Option-cases, inl, inr,
}
use nexus_auth.Order.{◌≟◌, ≟_iff, text_ord}
use nexus_auth.BTree.{BTreeSet, get, insert, remove, contains, collect, set_eq}
use nexus_auth.BTree.Lookup.{get-insert, get-remove}
use nexus_auth.BTree.Sets.{listed, contains-add, contains-remove, contains-collect, set_eq_iff}
use nexus_auth.Names.{External}
use nexus_auth.Snapshot.{ServiceState}
use nexus_auth.Policy.Types.{PolicyState, PolicyCommand, PolicyResult, AdminOutcome}
use nexus_auth.Policy.Services.{
  bump_epoch, insert_all, remove_all, replace, finish_change, create_service, delete_service,
  change_members, add_members, remove_members, set_members,
}
use nexus_auth.Policy.Tokens.{issue_join_token, consume_join_token}
use nexus_auth.Policy.Apply.{result_of, apply_inner, apply_admin, apply_command_at}
use nexus_auth.Policy.Rejection.{apply_inner-Atomic}
use nexus_auth.Policy.Epoch.{carried}

abbrev pub admitted : Text → Option ServiceState → Bool
admitted p none = false
admitted p (some state) = contains p state.members

-- `p` stands on the whitelist of `service`.
unfoldable pub is_member : PolicyState → Text → Text → Bool
is_member s service p = admitted p (get service s.services)

-- The relation after a command that was accepted.
unfoldable pub view_after : PolicyCommand → (Text → Text → Bool) → Text → Text → Bool
view_after (PolicyCommand.create_service service members) v q p =
    if q ≟ service then listed p members else v q p
view_after (PolicyCommand.delete_service service) v q p = if q ≟ service then false else v q p
view_after (PolicyCommand.add_members service peers) v q p =
    if q ≟ service then v q p || listed p peers else v q p
view_after (PolicyCommand.remove_members service peers) v q p =
    if q ≟ service then v q p && not (listed p peers) else v q p
view_after (PolicyCommand.set_members service peers) v q p =
    if q ≟ service then listed p peers else v q p
view_after _ v q p = v q p

insert_all-contains :
    (peers : List Text) (changed : Bool) (m : BTreeSet Text) (p : Text)
    → contains p (insert_all peers changed m).1 ≡ contains p m || listed p peers
unfolding insert_all listed
insert_all-contains [] changed m p = ground arith
insert_all-contains (peer ∷ peers) changed m p = ground (
  arith,
  insert_all-contains peers (changed || not (contains peer m)) (insert peer tt m) p,
  contains-add peer p m,
)

remove_all-contains :
    (peers : List Text) (changed : Bool) (m : BTreeSet Text) (p : Text)
    → contains p (remove_all peers changed m).1 ≡ contains p m && not (listed p peers)
unfolding remove_all listed
remove_all-contains [] changed m p = ground arith
remove_all-contains (peer ∷ peers) changed m p = ground (
  arith,
  remove_all-contains peers (changed || contains peer m) (remove peer m) p,
  contains-remove peer p m,
)

replace-contains :
    (incoming m : BTreeSet Text) (p : Text)
    → contains p (replace incoming m).1 ≡ contains p incoming
unfolding replace
replace-contains incoming m p = elim (Bool-cases (set_eq m incoming)) [
  | inl same ↦ rw same (rw ((set_eq_iff m incoming).0 same))
  | inr other ↦ rw other
]

finish_change-get :
    (service : Text) (state : ServiceState) (changed : Bool) (s : PolicyState) (q p : Text)
    → is_member (finish_change service state changed s).1 q p
      ≡ (if q ≟ service then contains p state.members else is_member s q p)
unfolding finish_change is_member
finish_change-get service state true s q p = rw get-insert (ground arith)
finish_change-get service state false s q p = rw get-insert (ground arith)

is_member_found :
    (s : PolicyState) (service p : Text) (st : ServiceState)
    → get service s.services ≡ some st
    → is_member s service p ≡ contains p st.members
unfolding is_member
is_member_found s service p st e = rw e

delete_service-view :
    (service : Text) (s : PolicyState) (q p : Text)
    → is_ok (delete_service service s).0 ≡ true
    → is_member (delete_service service s).1 q p ≡ (if q ≟ service then false else is_member s q p)
unfolding delete_service is_member
delete_service-view service s q p accepted = ground (arith, get-remove service q s.services)

module _ ⦃x : External⦄ where
  change_members-view :
      (service : Text) (peers : List Text) (update : BTreeSet Text → Bool × BTreeSet Text)
      (after : Bool → Bool) (s : PolicyState) (q p : Text)
      → ((m : BTreeSet Text) → contains p (update m).1 ≡ after (contains p m))
      → is_ok (change_members service peers update s).0 ≡ true
      → is_member (change_members service peers update s).1 q p
        ≡ (if q ≟ service then after (is_member s q p) else is_member s q p)
  unfolding change_members
  change_members-view service peers update after s q p h accepted =
      elim (Option-cases (get service s.services)) [
        | inl e ↦ absurd (ground arith)
        | inr (st, e) ↦
            let m = st.members in
            ground (
              arith,
              h m,
              finish_change-get service (record st { members = (update m).1 }) (update m).0 s q p,
              is_member_found s service p st e,
              ≟_iff q service,
            )
      ]

  create_service-view :
      (service : Text) (members : List Text) (s : PolicyState) (q p : Text)
      → is_ok (create_service service members s).0 ≡ true
      → is_member (create_service service members s).1 q p
        ≡ (if q ≟ service then listed p members else is_member s q p)
  unfolding create_service is_member
  create_service-view service members s q p accepted = ground (
    arith,
    get-insert service q (record { version = 1; members = collect members }) s.services,
    contains-collect p members,
  )

  -- What an accepted command does to the relation.
  apply_inner-view :
      (c : PolicyCommand) (s : PolicyState) (q p : Text)
      → is_ok (apply_inner c s).0 ≡ true
      → is_member (apply_inner c s).1 q p ≡ view_after c (is_member s) q p
  unfolding apply_inner add_members remove_members set_members view_after
  apply_inner-view (PolicyCommand.create_service service members) s q p h =
      ground (arith, create_service-view service members s q p)
  apply_inner-view (PolicyCommand.delete_service service) s q p h =
      ground (arith, delete_service-view service s q p)
  apply_inner-view (PolicyCommand.add_members service peers) s q p h = ground (
    arith,
    change_members-view service peers (insert_all peers false) (λ b. b || listed p peers) s q p
        (λ m. insert_all-contains peers false m p),
  )
  apply_inner-view (PolicyCommand.remove_members service peers) s q p h = ground (
    arith,
    change_members-view service peers (remove_all peers false) (λ b. b && not (listed p peers)) s q
        p (λ m. remove_all-contains peers false m p),
  )
  apply_inner-view (PolicyCommand.set_members service peers) s q p h = ground (
    arith,
    change_members-view service peers (replace (collect peers)) (λ b. listed p peers) s q p
        (λ m. replace-contains (collect peers) m p ∙ contains-collect p peers),
  )
  apply_inner-view (PolicyCommand.admin request_id kid request_hash request_ts command) s q p h =
      ground arith
  apply_inner-view (PolicyCommand.renew_index expires_at) s q p h =
      unfold is_member bump_epoch in refl
  apply_inner-view (PolicyCommand.issue_join_token token) s q p h =
      unfold is_member issue_join_token in ground arith
  apply_inner-view (PolicyCommand.consume_join_token jti node_id peer_id used_at) s q p h =
      unfold is_member consume_join_token in ground arith

-- The result reports that the command took effect now.
abbrev pub took_effect : PolicyResult → Bool
took_effect (PolicyResult.applied service version epoch changed) = true
took_effect (PolicyResult.rejected code message epoch) = false
took_effect (PolicyResult.admin request_id epoch index duplicate (AdminOutcome.rejected c m)) =
    false
took_effect (PolicyResult.admin request_id epoch index duplicate (AdminOutcome.applied s v c)) =
    not duplicate

module _ ⦃x : External⦄ where
  result_of-view :
      (c : PolicyCommand) (s : PolicyState) (q p : Text)
      → let (result, s') = result_of (apply_inner c s) in
        is_member s' q p
        ≡ (if took_effect result then view_after c (is_member s) q p else is_member s q p)
  result_of-view c s q p = ground (arith, apply_inner-view c s q p, apply_inner-Atomic c s)

  apply_admin-view :
      (request_id request_hash : Text) (request_ts : ℕ) (c : PolicyCommand) (i : ℕ)
      (s : PolicyState) (q p : Text)
      → let (result, s') = apply_admin request_id request_hash request_ts c i s in
        is_member s' q p
        ≡ (if took_effect result then view_after c (is_member s) q p else is_member s q p)
  unfolding apply_admin is_member
  apply_admin-view request_id request_hash request_ts c i s q p =
      ground (arith, apply_inner-view c s q p, apply_inner-Atomic c s)

  -- After any command in the log, a peer is on the whitelist of a service exactly as the command
  -- says, where the result reports that it took effect, and as before where it is refused or a
  -- duplicate.
  pub apply-view :
      (c : PolicyCommand) (i : ℕ) (s : PolicyState) (q p : Text)
      → is_member (apply_command_at c i s).1 q p ≡ (
          if took_effect (apply_command_at c i s).0
          then view_after (carried c) (is_member s) q p
          else is_member s q p)
  unfolding apply_command_at
  apply-view (PolicyCommand.admin request_id kid request_hash request_ts command) i s q p =
      apply_admin-view request_id request_hash request_ts command i s q p
  apply-view (PolicyCommand.delete_service service) i s q p = result_of-view _ s q p
  apply-view c i s q p = result_of-view c s q p
