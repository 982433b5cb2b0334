-- ===== src/Publisher/Tests.antt =====
-- Publication by the concrete node.
use nexus_auth.Prelude.{
  ◌≡◌, ◌≢◌, refl, ◌⊎◌, inl, inr, Bool, true, Option, some, List, [], ◌∷◌, Text, Bytes, Result, ok,
  err,
}
use nexus_auth.Order.{text_ord}
use nexus_auth.BTree.{get}
use nexus_auth.Names.{External}
use nexus_auth.Authority.{
  Authority, ServiceEntry, IndexDoc, record_key, index_key_for, net_hash, sign_index,
}
use nexus_auth.Lab.{lab, terse_toml}
use nexus_auth.Lab.Node.{
  Outside, lab_signing, lab_env, Latest, Latest-IsStorage, lab_raft, lab_ctx, lab_system,
}
use nexus_auth.Publisher.{no_status}
use nexus_auth.Publisher.Rounds.{publish_once}
use nexus_auth.Publisher.Loop.{tick, notified, shutdown}
use nexus_auth.Publisher.Loop.{run}
use nexus_auth.Publisher.Status.{Reports, Rises, publish_once-Reports}
use nexus_auth.Publisher.Epochs.{epoch_of, run-Rises}
use nexus_auth.Publisher.Listing.{Complete}
use nexus_auth.Publisher.Waits.{IsPolicySource, IsGuarded}
use nexus_auth.Publisher.Guarded.{publish_once-Guarded}

publish_once-Reports_example :
    Reports no_status (publish_once lab_env lab_signing terse_toml lab_ctx true lab_system)
publish_once-Reports_example =
    publish_once-Reports lab_env lab_signing terse_toml lab_ctx lab_raft true lab_system refl refl

run-Rises_example : Rises (epoch_of lab_system) (
    epoch_of
      (run lab_env lab_signing terse_toml lab_ctx (tick ∷ notified ∷ shutdown ∷ []) lab_system))
run-Rises_example =
    run-Rises lab_env lab_signing terse_toml lab_ctx refl (tick ∷ notified ∷ shutdown ∷ [])
      lab_system

-- Every index in the log lists whitelists that were written before it.
abbrev AllWritten : List ServiceEntry → List (Text × Bytes) → Type 0
AllWritten [] writes = Unit
AllWritten (e ∷ entries) writes =
    ((value : Bytes) × (get (record_key (110 ∷ []) e.name) writes ≡ some value))
    × AllWritten entries writes

record IsListed (value : Bytes) (writes : List (Text × Bytes)) : Type 0 where
  pub a : Authority
  pub doc : IndexDoc
  pub signed : sign_index lab_signing a doc ≡ ok value
  pub written : AllWritten doc.services writes

abbrev InOrder : List (Text × Bytes) → Type 0
InOrder [] = Unit
InOrder ((key, value) ∷ writes) =
    ((key ≢ index_key_for lab_signing (110 ∷ [])) ⊎ IsListed value writes) × InOrder writes

all_written :
    (entries : List ServiceEntry) (w : Outside)
    → Complete Latest (net_hash lab_signing (110 ∷ [])) entries w
    → AllWritten entries w.writes
unfolding net_hash
all_written [] w c = tt
all_written (e ∷ entries) w (c, rest) = ((c.value, c.stored), all_written entries w rest)

lab_raft-IsPolicySource : IsPolicySource lab_raft Latest
lab_raft-IsPolicySource = record { sorted = λ w. (tt, tt); outlives_leader = λ key value w h. h }

InOrder-IsGuarded :
    IsGuarded lab_env lab_signing 1 1 Latest lab_ctx lab_raft (λ w. InOrder w.writes)
InOrder-IsGuarded = record {
  on_write = λ d key value w apart p. (inl apart, p);
  on_index = λ d a doc value w signed complete p. (
    inr (record {
      a = a;
      doc = doc;
      signed = signed;
      written = all_written doc.services w complete;
    }),
    p,
  );
  on_sleep = λ ms w p. p;
  on_clock = λ w p. p;
  on_leader = λ w p. p;
  on_snapshot = λ w p. p;
  on_propose = λ command w p. p;
}

publish_once-Guarded_example :
    InOrder (publish_once lab_env lab_signing terse_toml lab_ctx true lab_system).1.world.writes
publish_once-Guarded_example =
    publish_once-Guarded lab_env lab_signing 1 1 Latest lab_ctx lab_raft Latest-IsStorage
      lab_raft-IsPolicySource (λ w. InOrder w.writes) InOrder-IsGuarded terse_toml true lab_system
      refl refl (inl (refl, refl)) tt
