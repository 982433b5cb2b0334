-- ===== src/Policy/WellFormed.antt =====
-- The maps of the state keep the order of their keys, its member sets too, and the table of
-- requests its bound, under every command.
use nexus_auth.Prelude.{
  ℕ, ◌≤◌, ◌≡◌, Bool, true, false, some, List, [], ◌∷◌, Text, arith, length, Option-cases, inl, inr,
  saturating_add,
}
use nexus_auth.Order.{text_ord}
use nexus_auth.BTree.{BTreeMap, BTreeSet, get, insert, remove, collect, add}
use nexus_auth.BTree.Lookup.{get-insert, get-remove}
use nexus_auth.BTree.Sorted.{IsSorted, insert-IsSorted, remove-IsSorted}
use nexus_auth.BTree.Sets.{collect-IsSorted}
use nexus_auth.Names.{External}
use nexus_auth.Snapshot.{ServiceState}
use nexus_auth.Policy.Types.{PolicyState, JoinToken, StoredJoinToken}
use nexus_auth.Policy.Services.{
  insert_all, remove_all, replace, finish_change, create_service, delete_service, change_members,
}
use nexus_auth.Policy.Tokens.{issue_join_token, consume_join_token, token_refusal}
use nexus_auth.Policy.Apply.{dedup_max_entries}

-- Sorted services, each with a sorted set of members.
pub record IsOrderly (services : BTreeMap Text ServiceState) : Type 0 where
  pub by_name : IsSorted services
  pub by_member : (k : Text) (st : ServiceState) → get k services ≡ some st → IsSorted st.members

pub record IsWellFormed (s : PolicyState) : Type 0 where
  pub services : IsOrderly s.services
  pub tombstones : IsSorted s.tombstones
  pub tokens : IsSorted s.join_tokens
  pub dedup : IsSorted s.dedup
  pub bounded : length s.dedup ≤ dedup_max_entries

insert-IsOrderly :
    (k : Text) (st : ServiceState) (m : BTreeMap Text ServiceState)
    → IsSorted st.members
    → IsOrderly m
    → IsOrderly (insert k st m)
insert-IsOrderly k st m h o = record {
  by_name = insert-IsSorted k st m o.by_name;
  by_member = λ j w e. ground (arith, get-insert k j st m, o.by_member j w);
}

remove-IsOrderly :
    (k : Text) (m : BTreeMap Text ServiceState) → IsOrderly m → IsOrderly (remove k m)
remove-IsOrderly k m o = record {
  by_name = remove-IsSorted k m o.by_name;
  by_member = λ j w e. ground (arith, get-remove k j m, o.by_member j w);
}

-- What an update of a member set may be used for.
abbrev pub KeepsOrder : (BTreeSet Text → Bool × BTreeSet Text) → Type 0
KeepsOrder update = (m : BTreeSet Text) → IsSorted m → IsSorted (update m).1

pub insert_all-KeepsOrder :
    (peers : List Text) (changed : Bool) → KeepsOrder (insert_all peers changed)
unfolding insert_all
insert_all-KeepsOrder [] changed m s = s
insert_all-KeepsOrder (peer ∷ peers) changed m s =
    insert_all-KeepsOrder peers _ (add peer m) (insert-IsSorted peer tt m s)

pub remove_all-KeepsOrder :
    (peers : List Text) (changed : Bool) → KeepsOrder (remove_all peers changed)
unfolding remove_all
remove_all-KeepsOrder [] changed m s = s
remove_all-KeepsOrder (peer ∷ peers) changed m s =
    remove_all-KeepsOrder peers _ (remove peer m) (remove-IsSorted peer m s)

pub replace-KeepsOrder :
    (incoming : BTreeSet Text) → IsSorted incoming → KeepsOrder (replace incoming)
unfolding replace
replace-KeepsOrder incoming h m s = ground arith

-- The services and the epoch are replaced, and the rest stays.
with_services :
    (s : PolicyState) (m : BTreeMap Text ServiceState) (epoch : ℕ)
    → IsOrderly m
    → IsWellFormed s
    → IsWellFormed (record s { services = m; policy_epoch = epoch })
with_services s m epoch o w = record {
  services = o;
  tombstones = w.tombstones;
  tokens = w.tokens;
  dedup = w.dedup;
  bounded = w.bounded;
}

with_tokens :
    (s : PolicyState) (m : BTreeMap Text StoredJoinToken)
    → IsSorted m
    → IsWellFormed s
    → IsWellFormed (record s { join_tokens = m })
with_tokens s m o w = record {
  services = w.services;
  tombstones = w.tombstones;
  tokens = o;
  dedup = w.dedup;
  bounded = w.bounded;
}

finish_change-IsWellFormed :
    (service : Text) (st : ServiceState) (changed : Bool) (s : PolicyState)
    → IsSorted st.members
    → IsWellFormed s
    → IsWellFormed (finish_change service st changed s).1
unfolding finish_change
finish_change-IsWellFormed service st false s h w =
    with_services s _ s.policy_epoch (insert-IsOrderly service st s.services h w.services) w
finish_change-IsWellFormed service st true s h w =
    with_services s _ (saturating_add s.policy_epoch 1)
      (insert-IsOrderly service _ s.services h w.services) w

pub delete_service-IsWellFormed :
    (service : Text) (s : PolicyState) → IsWellFormed s → IsWellFormed (delete_service service s).1
unfolding delete_service
delete_service-IsWellFormed service s w = elim (Option-cases (get service s.services)) [
  | inl e ↦ rw (e, delete_service) w
  | inr (st, e) ↦
      rw (e, delete_service)
        (record {
          services = remove-IsOrderly service s.services w.services;
          tombstones = insert-IsSorted service _ s.tombstones w.tombstones;
          tokens = w.tokens;
          dedup = w.dedup;
          bounded = w.bounded;
        })
]

pub issue_join_token-IsWellFormed :
    (token : JoinToken) (s : PolicyState)
    → IsWellFormed s
    → IsWellFormed (issue_join_token token s).1
unfolding issue_join_token
issue_join_token-IsWellFormed token s w = ground (
  arith,
  with_tokens s _
      (insert-IsSorted token.jti (record { token = token; uses = 0 }) s.join_tokens w.tokens) w,
)

pub consume_join_token-IsWellFormed :
    (jti peer_id : Text) (used_at : ℕ) (s : PolicyState)
    → IsWellFormed s
    → IsWellFormed (consume_join_token jti peer_id used_at s).1
unfolding consume_join_token
consume_join_token-IsWellFormed jti peer_id used_at s w =
    elim (Option-cases (get jti s.join_tokens)) [
      | inl e ↦ rw (e, consume_join_token) w
      | inr (r, e) ↦ elim (Option-cases (token_refusal jti peer_id used_at r)) [
        | inl f ↦
            rw (e, consume_join_token, f)
              (with_tokens s _ (insert-IsSorted jti _ s.join_tokens w.tokens) w)
        | inr (rej, f) ↦ rw (e, consume_join_token, f) w
      ]
    ]

module _ ⦃x : External⦄ where
  pub create_service-IsWellFormed :
      (service : Text) (members : List Text) (s : PolicyState)
      → IsWellFormed s
      → IsWellFormed (create_service service members s).1
  unfolding create_service
  create_service-IsWellFormed service members s w = ground (
    arith,
    with_services s _ (saturating_add s.policy_epoch 1)
        (insert-IsOrderly service (record { version = 1; members = collect members }) s.services
          (collect-IsSorted members) w.services)
        w,
  )

  pub change_members-IsWellFormed :
      (service : Text) (peers : List Text) (update : BTreeSet Text → Bool × BTreeSet Text)
      (s : PolicyState)
      → KeepsOrder update
      → IsWellFormed s
      → IsWellFormed (change_members service peers update s).1
  unfolding change_members
  change_members-IsWellFormed service peers update s keeps w =
      elim (Option-cases (get service s.services)) [
        | inl e ↦ ground (arith, e)
        | inr (st, e) ↦ ground (
          arith,
          e,
          finish_change-IsWellFormed service (record st { members = (update st.members).1 })
              (update st.members).0 s (keeps st.members (w.services.by_member service st e)) w,
        )
      ]
