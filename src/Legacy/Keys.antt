-- ===== src/Legacy/Keys.antt =====
-- What decides a merge: the version, then deletion over members, then the hash of the members. The
-- key of a service that is not known is the least.
use Prim.Native.Nat.{compare}
use Prim.Native.Nat.Ordering.{lt, eq, gt}
use nexus_auth.Prelude.{
  ℕ, ◌<◌, ◌≡◌, Bool, true, false, Option, none, some, [], Text, Bytes, arith, Ordering,
  if◌then◌else◌, ◌==◌,
}
use nexus_auth.Order.{
  Ord, text_ord, cmp_text, cmp_text_self, cmp_text_sound, cmp_text_flip, cmp_text_flip',
  cmp_text_chain,
}
use nexus_auth.BTree.{BTreeSet, get}
use nexus_auth.Names.{External}
use nexus_auth.Snapshot.{ServiceState}
use nexus_auth.Legacy.Types.{Store}
use nexus_auth.Legacy.Merge.{members_hash}

pub record Key : Type 0 where
  pub version : ℕ
  pub deleted : ℕ
  pub hash : Bytes

unfoldable pub cmp_key : Key → Key → Ordering
cmp_key a b = elim (compare a.version b.version) [
  | lt ↦ lt
  | gt ↦ gt
  | eq ↦ elim (compare a.deleted b.deleted) [ lt ↦ lt | gt ↦ gt | eq ↦ cmp_text a.hash b.hash ]
]

pub cmp_key_self : (a : Key) → cmp_key a a ≡ eq
unfolding cmp_key
cmp_key_self a = ground (arith, cmp_text_self a.hash)

pub cmp_key_sound : (a b : Key) → cmp_key a b ≡ eq → a ≡ b
unfolding cmp_key
cmp_key_sound a b h = ground (arith, cmp_text_sound a.hash b.hash)

pub cmp_key_flip : (a b : Key) → cmp_key a b ≡ lt → cmp_key b a ≡ gt
unfolding cmp_key
cmp_key_flip a b h = ground (arith, cmp_text_flip a.hash b.hash)

pub cmp_key_flip' : (a b : Key) → cmp_key a b ≡ gt → cmp_key b a ≡ lt
unfolding cmp_key
cmp_key_flip' a b h = ground (arith, cmp_text_flip' a.hash b.hash)

pub cmp_key_chain : (a b c : Key) → cmp_key a b ≡ lt → cmp_key b c ≡ lt → cmp_key a c ≡ lt
unfolding cmp_key
cmp_key_chain a b c h k = ground (arith, cmp_text_chain a.hash b.hash c.hash)

instance abbrev pub key_ord : Ord Key
key_ord = record {
  cmp = cmp_key;
  cmp_self = cmp_key_self;
  cmp_sound = cmp_key_sound;
  cmp_flip = cmp_key_flip;
  cmp_flip' = cmp_key_flip';
  cmp_chain = cmp_key_chain;
}

abbrev pub unknown : Key
unknown = record { version = 0; deleted = 0; hash = [] }

-- What a store knows of a service.
abbrev pub key_of : ⦃x : External⦄ → Option ServiceState → Option ℕ → Key
key_of (some state) t = record {
  version = state.version;
  deleted = 0;
  hash = members_hash state.members;
}
key_of none (some t) = record { version = t; deleted = 1; hash = [] }
key_of none none = unknown

unfoldable pub key_at : ⦃x : External⦄ → Store → Text → Key
key_at s service = key_of (get service s.services) (get service s.tombstones)

-- What a message tells; version 0 tells nothing.
abbrev pub told : ⦃x : External⦄ → ℕ → BTreeSet Text → Bool → Key
told version members true =
    if version == 0 then unknown else record { version = version; deleted = 1; hash = [] }
told version members false =
    if version == 0
    then unknown
    else record { version = version; deleted = 0; hash = members_hash members }

-- A service that is live has no tombstone, and no version is 0.
abbrev pub IsCleanAt : Option ServiceState → Option ℕ → Type 0
IsCleanAt (some state) (some t) = ⊥
IsCleanAt (some state) none = 0 < state.version
IsCleanAt none (some t) = 0 < t
IsCleanAt none none = Unit

pub record IsClean (s : Store) : Type 0 where
  pub at_each : (q : Text) → IsCleanAt (get q s.services) (get q s.tombstones)
