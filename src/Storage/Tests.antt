-- ===== src/Storage/Tests.antt =====
-- The store of the log and the state machine on small inputs.
use nexus_auth.Prelude.{
  ℕ, ◌+◌, ◌≤◌, ◌≡◌, refl, true, false, none, some, [], ◌∷◌, text, decimal, ok, is_ok, arith,
  if◌then◌else◌, saturating_add,
}
use nexus_auth.Order.{nat_ord, text_ord}
use nexus_auth.BTree.{get}
use nexus_auth.Lab
use nexus_auth.Lab.{lab, lab_codecs}
use nexus_auth.Policy.Types.{PolicyState, PolicyCommand, JoinToken, StoredJoinToken}
use nexus_auth.Policy.WellFormed.{IsWellFormed}
use nexus_auth.Policy.Invariant.{new-IsWellFormed}
use nexus_auth.Policy.Services.{bump_epoch}
use nexus_auth.Policy.Apply.{apply_inner, apply_command_at}
use nexus_auth.Policy.Tests.{start, alice}
use nexus_auth.Storage.Types.{LogId, Payload, Entry, Db, encode, decode, encode_option}
use nexus_auth.Storage.Log.{append, save_vote, read_vote}
use nexus_auth.Storage.Machine.{
  SmInner, Machine, Snapshot, snapshot_name, apply, apply_entry, apply_entries, build_snapshot,
  install_snapshot, encode_inner,
}
use nexus_auth.Storage.Recovery.{IsDurable, apply-IsDurable, snapshot_transfer}
use nexus_auth.Storage.Replicas.{count_uses, token_budget, apply_entries-IsWellFormed}
use nexus_auth.Storage.Ranges.{
  RowAfter, entry_at, append_rows, appends, purges, commits_to, perform_all, vote_kept,
}

abbrev nothing_stored : Db
nothing_stored = record { logs = []; meta = []; snapshots = [] }

abbrev id_of : ℕ → LogId
id_of i = record { term = 1; leader = 1; index = i }

abbrev renewal : Entry ℕ
renewal = record { log_id = id_of 5; payload = Payload.normal (PolicyCommand.renew_index 2000) }

abbrev voters : Entry ℕ
voters = record { log_id = id_of 6; payload = Payload.membership 3 }

abbrev inner_start : SmInner ℕ
inner_start = record { state = start; applied = none; membership = Lab.no_membership }

abbrev machine : Machine ℕ
machine = record { db = nothing_stored; inner = inner_start; snapshot_idx = 0 }

applied_ok :
    (apply lab_codecs true (renewal ∷ voters ∷ []) machine).0
    ≡ ok (apply_entries (renewal ∷ voters ∷ []) inner_start).0
unfolding apply apply_entries apply_entry encode_inner encode encode_option apply_command_at
    apply_inner bump_epoch saturating_add
applied_ok = refl

apply-IsDurable_example :
    IsDurable lab_codecs (apply lab_codecs true (renewal ∷ voters ∷ []) machine).1
apply-IsDurable_example =
    apply-IsDurable lab_codecs Lab.log_ids-IsFaithful Lab.states-IsFaithful
      Lab.memberships-IsFaithful true renewal (voters ∷ []) machine
      (apply_entries (renewal ∷ voters ∷ []) inner_start).0 applied_ok

inner_start-IsWellFormed : IsWellFormed inner_start.state
unfolding nexus_auth.Policy.Types.new
inner_start-IsWellFormed = new-IsWellFormed (110 ∷ [])

apply_entries-IsWellFormed_example :
    IsWellFormed (apply_entries (renewal ∷ voters ∷ []) inner_start).1.state
apply_entries-IsWellFormed_example =
    apply_entries-IsWellFormed (renewal ∷ voters ∷ []) inner_start inner_start-IsWellFormed

-- A file that cannot be written.
refused_apply : is_ok (apply lab_codecs false (renewal ∷ []) machine).0 ≡ false
unfolding apply apply_entries apply_entry encode_inner encode encode_option apply_command_at
    apply_inner bump_epoch saturating_add
refused_apply = refl

abbrev first_snapshot : Snapshot ℕ
first_snapshot = record {
  meta = record {
    last_log_id = some (id_of 4);
    last_membership = Lab.no_membership;
    snapshot_id = 1 ∷ 1 ∷ 45 ∷ 52 ∷ 45 ∷ 49 ∷ [];
  };
  bytes = 1 ∷ 0 ∷ 110 ∷ [];
}

abbrev ahead : Machine ℕ
ahead = record machine { inner = record inner_start { applied = some (id_of 4) } }

built : (build_snapshot lab_codecs true ahead).0 ≡ ok first_snapshot
unfolding build_snapshot encode snapshot_name text decimal nexus_auth.Prelude.wrapping_suc
built = refl

installed :
    (install_snapshot lab_codecs true first_snapshot.meta first_snapshot.bytes machine).0 ≡ ok tt
unfolding install_snapshot encode_inner encode decode encode_option
installed = refl

snapshot_transfer_example :
    ((install_snapshot lab_codecs true first_snapshot.meta first_snapshot.bytes machine).1.inner
      ≡ ahead.inner)
    × ((build_snapshot lab_codecs true ahead).1.inner ≡ ahead.inner)
snapshot_transfer_example =
    snapshot_transfer lab_codecs Lab.states-IsFaithful true true ahead machine first_snapshot built
      installed

abbrev ticket : JoinToken
ticket = record {
  v = 1;
  jti = 106 ∷ [];
  cluster_id = 99 ∷ [];
  network = 110 ∷ [];
  audience = 97 ∷ [];
  expires_at = 5000;
  max_uses = 2;
  bind_peer_id = [];
  kid = 107 ∷ [];
  sig = [];
}

abbrev ticket_there : StoredJoinToken
ticket_there = record { token = ticket; uses = 0 }

abbrev with_ticket : SmInner ℕ
with_ticket = record inner_start {
  state = record start { join_tokens = (106 ∷ [], ticket_there) ∷ [] };
}

abbrev joins : ℕ → Entry ℕ
joins i = record {
  log_id = id_of i;
  payload = Payload.normal (PolicyCommand.consume_join_token (106 ∷ []) 2 alice 4000);
}

ticket_recorded : get (106 ∷ []) with_ticket.state.join_tokens ≡ some ticket_there
unfolding get nexus_auth.Order.cmp_text
ticket_recorded = refl

token_budget_example :
    let (results, last) = apply_entries (joins 5 ∷ joins 6 ∷ joins 7 ∷ []) with_ticket in
    let total = count_uses (106 ∷ []) (joins 5 ∷ joins 6 ∷ joins 7 ∷ []) results + 0 in
    (total ≤ 2)
    × (get (106 ∷ []) last.state.join_tokens ≡ some (record { token = ticket; uses = total }))
token_budget_example =
    token_budget (106 ∷ []) (joins 5 ∷ joins 6 ∷ joins 7 ∷ []) with_ticket ticket_there
      ticket_recorded (record { allowed = omega arith; fits = omega arith })

append_rows_example :
    RowAfter lab_codecs.entries
      (if is_ok (append lab_codecs true (voters ∷ []) nothing_stored).0
        then entry_at 6 (voters ∷ [])
        else none)
      (get 6 nothing_stored.logs)
      (get 6 (append lab_codecs true (voters ∷ []) nothing_stored).1.logs)
append_rows_example =
    append_rows lab_codecs Lab.entries-IsFaithful true (voters ∷ []) 6 nothing_stored

vote_saved : (save_vote lab_codecs true 9 nothing_stored).0 ≡ ok tt
unfolding save_vote encode
vote_saved = refl

vote_kept_example :
    read_vote lab_codecs (
      perform_all lab_codecs
        (appends true (voters ∷ []) ∷ purges true (id_of 6) ∷ commits_to false none ∷ [])
        (save_vote lab_codecs true 9 nothing_stored).1)
    ≡ ok (some 9)
vote_kept_example =
    vote_kept lab_codecs Lab.votes-IsFaithful true 9
      (appends true (voters ∷ []) ∷ purges true (id_of 6) ∷ commits_to false none ∷ [])
      nothing_stored vote_saved
