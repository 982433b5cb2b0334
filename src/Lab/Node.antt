-- ===== src/Lab/Node.antt =====
-- A concrete node: one connection, a leader with one service, and a world that logs what it is sent.
use nexus_auth.Prelude.{
  ℕ, ◌+◌, ◌≡◌, ◌≢◌, refl, ap, ◌⊎◌, true, false, none, some, List, [], ◌∷◌, ◌++◌, Text, Bytes, ok,
  arith, ◌==◌, length, take, drop,
}
use nexus_auth.Order.{text_ord, ≟_iff, ≟_self}
use nexus_auth.BTree.{get}
use nexus_auth.Replay.{new_guard}
use nexus_auth.Policy.Types.{PolicyCommand, PolicyResult, AdminOutcome, PolicyState}
use nexus_auth.Authority.{Authority, Signing}
use nexus_auth.Authority.Signed.{IsSigningSane}
use nexus_auth.Auth.Requests.{root}
use nexus_auth.Context.{AdminRaft, Shared, System, Env, AuthContext}
use nexus_auth.Publisher.{no_status}
use nexus_auth.Publisher.Delivery.{IsStorage}
use nexus_auth.Publisher.Live.{IsEncoding, IsCalm, IsLeading}
use nexus_auth.Lab.{lab, sum}

-- What the node is told: the records that are written and the commands that are proposed, the latest
-- first.
pub record Outside : Type 0 where
  pub writes : List (Text × Bytes)
  pub commands : List PolicyCommand

abbrev pub lab_signing : Signing ℕ Bytes
lab_signing = record {
  sign = λ seed message. (sum seed + sum message) ∷ [];
  verifying_key = λ seed. seed;
  key_from_bytes = λ b. some (sum b);
  signature_from_slice = λ b. some b;
  verifies = λ key message signature. sum signature == key + sum message;
  sig_structure = λ aad payload. aad ++ payload;
  to_vec = λ payload signature. some (length payload ∷ payload ++ signature);
  from_slice = λ b. elim b [
    | [] ↦ none
    | n ∷ rest ↦ some (record {
      is_eddsa = true;
      payload = some (take n rest);
      signature = drop n rest;
      tbs_data = λ aad. aad ++ take n rest;
    })
  ];
  index_cbor = λ doc. some (doc.version ∷ length doc.services ∷ []);
  whitelist_cbor = λ doc. some (doc.version ∷ length doc.members ∷ []);
  encode_url = λ b. b;
}

take-length : (a b : Bytes) → take (length a) (a ++ b) ≡ a
take-length [] b = refl
take-length (x ∷ a) b = ap (λ t. x ∷ t) (take-length a b)

drop-length : (a b : Bytes) → drop (length a) (a ++ b) ≡ b
drop-length [] b = refl
drop-length (x ∷ a) b = drop-length a b

lab_reads_back :
    (payload signature value : Bytes)
    → lab_signing.to_vec payload signature ≡ some value
    → lab_signing.from_slice value
      ≡ some (record {
        is_eddsa = true;
        payload = some payload;
        signature = signature;
        tbs_data = λ aad. lab_signing.sig_structure aad payload;
      })
lab_reads_back payload signature value h =
    let e : value ≡ (length payload ∷ payload ++ signature) = ground (arith, h) in
    rw (e, take-length payload signature, drop-length payload signature) refl

lab_verifies :
    (seed message : Bytes)
    → lab_signing.verifies (sum seed) message (lab_signing.sign seed message) ≡ true
lab_verifies seed message = ground arith

pub lab_signing-IsSigningSane : IsSigningSane lab_signing
lab_signing-IsSigningSane = record {
  reads_back = lab_reads_back;
  public_of = sum;
  decodes_key = λ seed. refl;
  signature_of = λ seed message. (sum seed + sum message) ∷ [];
  decodes_signature = λ seed message. refl;
  verifies_signed = lab_verifies;
}

pub lab_signing-IsEncoding : IsEncoding lab_signing
lab_signing-IsEncoding = record {
  to_vec = λ payload signature. (_, refl);
  index = λ doc. (_, refl);
  whitelist = λ doc. (_, refl);
}

abbrev pub lab_env : Env ℕ Outside ℕ
lab_env = record {
  add_key = λ c key value w. (ok tt, record w { writes = (key, value) ∷ w.writes });
  sleep = λ ms w. w;
  now_unix = λ w. (100, w);
  disk_faults = λ w.
      (record { creates = true; writes = true; partial = none; chmods = true; renames = true }, w);
  others = λ w h. h;
  rounds = λ w. false ∷ [];
}

-- The record is the last that was written under its key.
abbrev pub Latest : Text → Bytes → Outside → Type 0
Latest key value w = get key w.writes ≡ some value

Latest-stores :
    (key : Text) (value : Bytes) (w : Outside)
    → (lab_env.add_key 1 key value w).0 ≡ ok tt
    → Latest key value (lab_env.add_key 1 key value w).1
unfolding get
Latest-stores key value w h = ground (arith, ≟_self key)

Latest-outlives :
    (d : ℕ) (key other : Text) (value new : Bytes) (w : Outside)
    → (other ≢ key) ⊎ (new ≡ value)
    → Latest key value w
    → Latest key value (lab_env.add_key d other new w).1
unfolding get
Latest-outlives d key other value new w s h = ground (arith, ≟_iff key other, s, h)

pub Latest-IsStorage : IsStorage lab_env 1 1 Latest
Latest-IsStorage = record {
  stores = Latest-stores;
  outlives_write = Latest-outlives;
  outlives_sleep = λ ms key value w h. h;
  outlives_clock = λ key value w h. h;
  stays = λ w h r. r;
}

pub lab_env-IsCalm : IsCalm lab_env 1000
lab_env-IsCalm = record {
  accepts = λ c key value w. refl;
  keeps_authority = λ w h. refl;
  early = λ w. omega arith;
}

abbrev pub web_name : Text
web_name = 119 ∷ 101 ∷ 98 ∷ []

abbrev pub lab_policy : PolicyState
lab_policy = record {
  network = 110 ∷ [];
  policy_epoch = 7;
  index_expires_at = 1000;
  services = (web_name, record { version = 3; members = (97 ∷ [], tt) ∷ [] }) ∷ [];
  tombstones = [];
  dedup = [];
  join_tokens = [];
}

-- A leader that takes every command.
abbrev pub lab_raft : AdminRaft Outside
lab_raft = record {
  service_name = 115 ∷ [];
  is_leader = λ w. (true, w);
  leader_peer = λ w. (some (108 ∷ []), w);
  term = λ w. (1, w);
  policy_snapshot = λ w. (lab_policy, w);
  applied_index = λ w. (some 4, w);
  stale = λ w. (false, w);
  propose = λ command w. (
    ok (record {
      result =
          PolicyResult.admin (114 ∷ []) 8 5 false
            (AdminOutcome.applied (some web_name) (some 4) true);
      raft_index = 5;
    }),
    record w { commands = command ∷ w.commands },
  );
}

pub lab_raft-IsLeading : IsLeading lab_raft lab_policy
lab_raft-IsLeading = record { leads = λ w. refl; policy = λ w. refl }

abbrev pub lab_ctx : AuthContext Outside
lab_ctx = record {
  network = 110 ∷ [];
  service_name = 115 ∷ [];
  expires_secs = 600;
  renew_secs = 60;
  raft_required = true;
  admin_raft = some lab_raft;
}

abbrev pub lab_authority : Authority
lab_authority = record { signing_key = 9 ∷ []; network = 110 ∷ []; net_hash = 110 ∷ [] }

abbrev pub lab_shared : Shared ℕ ℕ
lab_shared = record {
  clients = (1, 1) ∷ [];
  next_id = 2;
  publish_notify = true;
  renew_notify = false;
  store = record {
    store = record { network = 110 ∷ []; index_version = 1; services = []; tombstones = [] };
    disk = record { target = none; temp = none };
  };
  authority = some lab_authority;
  admin = record { mac_key = 5 ∷ []; guard = new_guard };
  admin_keys = record { keys = (107 ∷ [], (3, root)) ∷ []; guard = new_guard };
  replicate = record { key = 5 ∷ []; guard = new_guard };
}

abbrev pub lab_system : System ℕ Outside ℕ
lab_system = record {
  shared = lab_shared;
  status = no_status;
  world = record { writes = []; commands = [] };
}
