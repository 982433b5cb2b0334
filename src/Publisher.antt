-- ===== src/Publisher.antt =====
-- src/publisher.rs: how the whitelists of all services and then the index are written to every
-- connection.
pub mod Rounds
pub mod Loop
pub mod Calls
pub mod Status
pub mod Epochs
pub mod Delivery
pub mod Entries
pub mod Listing
pub mod Waits
pub mod Guarded
pub mod Kept
pub mod Live
pub mod Success
mod Tests
use nexus_auth.Prelude.{
  ℕ, zero, suc, ◌*◌, Bool, true, false, not, Option, none, some, List, [], ◌∷◌, ◌++◌, Text, Bytes,
  text, decimal, length, Result, Done, ok, err, ok_or, map_err, if◌then◌else◌, ◌==◌, max,
}
use nexus_auth.Names.{External, content_hash}
use nexus_auth.Authority.{
  Authority, AuthorityError, io, invalid_seed, invalid_name, cose, ServiceEntry, IndexDoc,
  WhitelistDoc, Signing, from_seed, index_key, service_key, sign_index, sign_whitelist,
}
use nexus_auth.Context.{
  SidecarError, sidecar_error, PublishStatus, Shared, System, Env, AuthContext,
}
use nexus_auth.Context.Task.{
  Task, feed, ◌>>=◌, ◌>>◌, return, raise, lift, recode, on_err, or_else, attempt, now_unix, sleep,
}

-- `{e}` of an `AuthorityError`; signing and the keys give only the last two, and what the
-- system says is not told apart.
unfoldable pub authority_text : AuthorityError → Text
authority_text (io e) = text "io error"
authority_text invalid_seed = text "invalid authority seed (need 32 bytes)"
authority_text invalid_name = text "invalid network or service name"
authority_text cose = text "cose encoding error"

pub record PublishError : Type 0 where
  pub message : Text

abbrev pub publish_attempts : ℕ
publish_attempts = 3

-- Milliseconds.
abbrev pub publish_backoff : ℕ
publish_backoff = 200

-- `PublishStatus::default`
unfoldable pub no_status : PublishStatus
no_status = record {
  last_publish_epoch = none;
  last_publish_ok = false;
  last_publish_error = none;
  last_publish_at = none;
}

-- `retain(|(i, _)| *i != id)`
unfoldable pub without : {C : Type 0} → ℕ → List (ℕ × C) → List (ℕ × C)
without id [] = []
without id ((i, c) ∷ cs) = let rest = without id cs in if i == id then rest else (i, c) ∷ rest

-- The operations of `PublisherHandle`.
module _ {C V : Type 0} where
  unfoldable pub register : C → Shared C V → ℕ × Shared C V
  register client h = (
    h.next_id,
    record h {
      clients = h.clients ++ ((h.next_id, client) ∷ []);
      next_id = suc h.next_id;
      publish_notify = true;
    },
  )

  unfoldable pub unregister : ℕ → Shared C V → Shared C V
  unregister id h = record h { clients = without id h.clients }

  unfoldable pub notify_publish : Shared C V → Shared C V
  notify_publish h = record h { publish_notify = true }

  unfoldable pub notify_renew : Shared C V → Shared C V
  notify_renew h = record h { renew_notify = true }

  unfoldable pub connection_count : Shared C V → ℕ
  connection_count h = length h.clients

  unfoldable pub any_client : Shared C V → Option C
  any_client h = elim h.clients [ [] ↦ none | (i, c) ∷ cs ↦ some c ]

abbrev pub raised : Option ℕ → Option ℕ → Option ℕ
raised none previous = previous
raised (some epoch) none = some epoch
raised (some epoch) (some previous) = some (max previous epoch)

-- `conn#{id} {key}: [{code}] {message}`
unfoldable pub failure_text : ℕ → Text → SidecarError → Text
failure_text id key e =
    text "conn#"
    ++ (decimal id ++ (text " " ++ (key ++ (text ": [" ++ (e.code ++ (text "] " ++ e.message))))))

unfoldable pub noted : Option Text → ℕ → Text → Result SidecarError Done → Option Text
noted first id key (ok _) = first
noted none id key (err e) = some (failure_text id key e)
noted (some first) id key (err e) = some first

abbrev pub report : Option Text → Result PublishError Done
report none = ok tt
report (some message) = err (record { message = message })

unfoldable pub no_seed : PublishError
no_seed = record { message = text "learner has no authority seed; refusing to publish" }

unfoldable pub sign_failed : Text → AuthorityError → PublishError
sign_failed name e = record {
  message = text "whitelist sign failed for " ++ (name ++ (text ": " ++ authority_text e));
}

unfoldable pub invalid_service : Text → AuthorityError → PublishError
invalid_service name e = record {
  message = text "invalid service " ++ (name ++ (text ": " ++ authority_text e));
}

module _ {C W V : Type 0} (env : Env C W V) where
  unfoldable pub record_success : ℕ → System C W V → System C W V
  record_success epoch s = record s {
    status = record {
      last_publish_epoch = some epoch;
      last_publish_ok = true;
      last_publish_error = none;
      last_publish_at = some (env.now_unix s.world).0;
    };
    world = (env.now_unix s.world).1;
  }

  unfoldable pub record_failure : Option ℕ → Text → System C W V → System C W V
  record_failure epoch error s = record s {
    status = record {
      last_publish_epoch = raised epoch s.status.last_publish_epoch;
      last_publish_ok = false;
      last_publish_error = some error;
      last_publish_at = some (env.now_unix s.world).0;
    };
    world = (env.now_unix s.world).1;
  }

  -- The attempts that are left, the back-off before the next and the error so far.
  unfoldable pub add_key_from :
      ℕ → ℕ → SidecarError → C → Text → Bytes → Task (System C W V) SidecarError Done
  add_key_from zero backoff last client key value s = (err last, s)
  add_key_from (suc zero) backoff last client key value s =
      attempt env (env.add_key client key value) s
  add_key_from (suc (suc left)) backoff last client key value s =
      or_else
        (λ e s'. add_key_from (suc left) (backoff * 2) e client key value (sleep env backoff s'))
        (attempt env (env.add_key client key value) s)

  unfoldable pub add_key_with_retry : C → Text → Bytes → Task (System C W V) SidecarError Done
  add_key_with_retry =
      add_key_from publish_attempts publish_backoff
        (sidecar_error (text "publish_failed") (text "no attempt made"))

  -- The first error on the connections, in their order; all of them are tried.
  unfoldable pub publish_each :
      List (ℕ × C) → Text → Bytes → Option Text → System C W V → Option Text × System C W V
  publish_each [] key value first s = (first, s)
  publish_each ((id, client) ∷ clients) key value first s =
      let (result, s') = add_key_with_retry client key value s in
      publish_each clients key value (noted first id key result) s'

  -- `PublisherHandle::publish`
  unfoldable pub publish : Text → Bytes → Task (System C W V) PublishError Done
  publish key value s =
      let (first, s') = publish_each s.shared.clients key value none s in (report first, s')

  unfoldable pub publish_all : List (Text × Bytes) → Task (System C W V) PublishError Done
  publish_all [] s = (ok tt, s)
  publish_all ((key, value) ∷ pending) s = feed (λ _. publish_all pending) (publish key value s)

module _ {V S : Type 0} (l : Signing V S) ⦃x : External⦄ where
  -- `ctx.authority()`
  unfoldable pub authority_of : {C W : Type 0} → AuthContext W → System C W V → Option Authority
  authority_of ctx s = elim s.shared.authority [
    | none ↦ none
    | some a ↦ elim (from_seed l a.signing_key ctx.network) [ err e ↦ none | ok b ↦ some b ]
  ]

  -- One service: its entry in the index, and the key and value of its whitelist.
  unfoldable pub sign_service :
      Authority → Text × ℕ × List Text → Result PublishError (ServiceEntry × Text × Bytes)
  sign_service a (name, version, members) =
      elim (sign_whitelist l a name (record { version = version; members = members })) [
        | err e ↦ err (sign_failed name e)
        | ok value ↦ elim (service_key a name) [
          | err e ↦ err (invalid_service name e)
          | ok key ↦
              ok (
                record { name = name; hash = content_hash value; length = length value },
                key,
                value,
              )
        ]
      ]

  unfoldable pub sign_services :
      Authority
      → List (Text × ℕ × List Text)
      → Result PublishError (List ServiceEntry × List (Text × Bytes))
  sign_services a [] = ok ([], [])
  sign_services a (service ∷ services) =
      let rest = sign_services a services in
      elim (sign_service a service) [
        | err e ↦ err e
        | ok (entry, key, value) ↦ elim rest [
          | err e ↦ err e
          | ok (entries, pending) ↦ ok (entry ∷ entries, (key, value) ∷ pending)
        ]
      ]

module _ {C W V S : Type 0} (env : Env C W V) (l : Signing V S) ⦃x : External⦄ where
  unfoldable pub publish_whitelists :
      AuthContext W
      → List (Text × ℕ × List Text)
      → Task (System C W V) PublishError (List ServiceEntry)
  publish_whitelists ctx services s = elim (authority_of l ctx s) [
    | none ↦ (err no_seed, s)
    | some a ↦ elim (sign_services l a services) [
      | err e ↦ (err e, s)
      | ok (entries, pending) ↦ feed (λ _. return entries) (publish_all env pending s)
    ]
  ]

  unfoldable pub publish_index :
      AuthContext W → ℕ → ℕ → List ServiceEntry → Task (System C W V) PublishError Done
  publish_index ctx index_version expires_at services s = elim (authority_of l ctx s) [
    | none ↦ (err no_seed, s)
    | some a ↦
        elim (sign_index l a
          (record { version = index_version; expires_at = expires_at; services = services })) [
            | err e ↦ (err (record { message = text "index sign failed: " ++ authority_text e }), s)
            | ok bytes ↦ publish env (index_key a) bytes s
          ]
  ]
