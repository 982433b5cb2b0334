-- ===== src/Legacy/Converge.antt =====
-- Replicas that receive the same messages, in whatever order and however often, end up with the same
-- knowledge of every service.
use nexus_auth.Prelude.{
  ℕ, ◌≡◌, refl, sym, ap, ap₂, ◌∙◌, Bool, ◌&&◌, ◌||◌, List, [], ◌∷◌, Text, arith, max, Result, is_ok,
  if◌then◌else◌,
}
use mathlib.Core.List.{Permᴰ}
use nexus_auth.Order.{◌≟◌, text_ord}
use nexus_auth.Order.Max.{max_of, max_of_self, max_of_comm, max_of_assoc}
use nexus_auth.BTree.{collect}
use nexus_auth.Names.{External, is_valid_service_name}
use nexus_auth.Legacy.Types.{Store, StoreError}
use nexus_auth.Legacy.Changes.{validate_peers}
use nexus_auth.Legacy.Merge.{merge_deletion, merge_members, merge_service, merge_entry}
use nexus_auth.Legacy.Keys.{Key, key_ord, key_at, told, IsClean}
use nexus_auth.Legacy.Refine.{
  merge_deletion-key, merge_members-key, merge_deletion-IsClean, merge_members-IsClean,
}

-- What `apply_replicated` is given.
pub record Message : Type 0 where
  pub service : Text
  pub version : ℕ
  pub members : List Text
  pub index_version : ℕ
  pub deleted : Bool

module _ ⦃x : External⦄ where
  -- The message is not an error: its names are valid.
  unfoldable pub accepts : Message → Bool
  accepts m = is_valid_service_name m.service && (m.deleted || is_ok (validate_peers m.members))

  -- What it tells of the service `q`.
  abbrev pub tells : Message → Text → Key → Key
  tells m q k =
      if accepts m && q ≟ m.service
      then max_of k (told m.version (collect m.members) m.deleted)
      else k

  unfoldable pub receive : Message → Store → Result StoreError Bool × Store
  receive m = merge_entry m.service m.version m.members m.index_version m.deleted

  abbrev pub receive_all : List Message → Store → Store
  receive_all [] s = s
  receive_all (m ∷ ms) s = receive_all ms (receive m s).1

  merge_service-key :
      (m : Message) (s : Store) (q : Text)
      → IsClean s
      → key_at (merge_service m.service m.version m.members m.deleted s).1 q
        ≡ tells m q (key_at s q)
  unfolding merge_service accepts
  merge_service-key m s q c = ground (
    arith,
    merge_deletion-key m.service m.version s q c,
    merge_members-key m.service m.version (collect m.members) s q c,
  )

  merge_service-IsClean :
      (m : Message) (s : Store)
      → IsClean s
      → IsClean (merge_service m.service m.version m.members m.deleted s).1
  unfolding merge_service
  merge_service-IsClean m s c = ground (
    arith,
    merge_deletion-IsClean m.service m.version s c,
    merge_members-IsClean m.service m.version (collect m.members) s c,
  )

  with_index-key :
      (s : Store) (i : ℕ) (q : Text) → key_at (record s { index_version = i }) q ≡ key_at s q
  unfolding key_at
  with_index-key s i q = refl

  with_index-IsClean : (s : Store) (i : ℕ) → IsClean s → IsClean (record s { index_version = i })
  with_index-IsClean s i c = record { at_each = c.at_each }

  pub receive-key :
      (m : Message) (s : Store) (q : Text)
      → IsClean s
      → key_at (receive m s).1 q ≡ tells m q (key_at s q)
  unfolding receive merge_entry
  receive-key m s q c = ground (
    arith,
    merge_service-key m s q c,
    with_index-key (merge_service m.service m.version m.members m.deleted s).1 m.index_version q,
  )

  pub receive-IsClean : (m : Message) (s : Store) → IsClean s → IsClean (receive m s).1
  unfolding receive merge_entry
  receive-IsClean m s c = ground (
    arith,
    merge_service-IsClean m s c,
    with_index-IsClean (merge_service m.service m.version m.members m.deleted s).1 m.index_version,
  )

  merge_service-index :
      (m : Message) (s : Store)
      → (merge_service m.service m.version m.members m.deleted s).1.index_version ≡ s.index_version
  unfolding merge_service merge_deletion merge_members
  merge_service-index m s = ground arith

  merge_service-ok :
      (m : Message) (s : Store)
      → is_ok (merge_service m.service m.version m.members m.deleted s).0 ≡ accepts m
  unfolding merge_service merge_deletion merge_members accepts
  merge_service-ok m s = ground arith

  pub receive-index :
      (m : Message) (s : Store)
      → (receive m s).1.index_version
        ≡ (if accepts m then max s.index_version m.index_version else s.index_version)
  unfolding receive merge_entry
  receive-index m s = ground (arith, merge_service-index m s, merge_service-ok m s)

  tells_swap :
      (a b : Message) (q : Text) (k : Key) → tells a q (tells b q k) ≡ tells b q (tells a q k)
  tells_swap a b q k =
      let ka = told a.version (collect a.members) a.deleted in
      let kb = told b.version (collect b.members) b.deleted in
      ground (arith, max_of_assoc k ka kb, max_of_assoc k kb ka, max_of_comm ka kb)

  tells_again : (m : Message) (q : Text) (k : Key) → tells m q (tells m q k) ≡ tells m q k
  tells_again m q k =
      let km = told m.version (collect m.members) m.deleted in
      ground (arith, max_of_assoc k km km, max_of_self km)

  abbrev pub tell_all : List Message → Text → Key → Key
  tell_all [] q k = k
  tell_all (m ∷ ms) q k = tell_all ms q (tells m q k)

  abbrev pub index_all : List Message → ℕ → ℕ
  index_all [] i = i
  index_all (m ∷ ms) i = index_all ms (if accepts m then max i m.index_version else i)

  pub receive_all-key :
      (ms : List Message) (s : Store) (q : Text)
      → IsClean s
      → key_at (receive_all ms s) q ≡ tell_all ms q (key_at s q)
  receive_all-key [] s q c = refl
  receive_all-key (m ∷ ms) s q c =
      receive_all-key ms (receive m s).1 q (receive-IsClean m s c)
      ∙ ap (tell_all ms q) (receive-key m s q c)

  pub receive_all-index :
      (ms : List Message) (s : Store)
      → (receive_all ms s).index_version ≡ index_all ms s.index_version
  receive_all-index [] s = refl
  receive_all-index (m ∷ ms) s =
      receive_all-index ms (receive m s).1 ∙ ap (index_all ms) (receive-index m s)

  tell_all-Perm :
      {ms ns : List Message}
      → Permᴰ ms ns
      → (q : Text) (k : Key) → tell_all ms q k ≡ tell_all ns q k
  tell_all-Perm Permᴰ.nil q k = refl
  tell_all-Perm (Permᴰ.cons {a} {b} {l₁} {l₂} e p) q k =
      tell_all-Perm p q (tells a q k) ∙ ap (λ m. tell_all l₂ q (tells m q k)) e
  tell_all-Perm (Permᴰ.swap {a} {b} {a'} {b'} {l} e f) q k =
      ap (tell_all l q) (tells_swap b a q k ∙ ap₂ (λ m n. tells m q (tells n q k)) e f)
  tell_all-Perm (Permᴰ.trans p r) q k = tell_all-Perm p q k ∙ tell_all-Perm r q k

  index_swap : (a b : Message) (i : ℕ) → index_all (a ∷ b ∷ []) i ≡ index_all (b ∷ a ∷ []) i
  index_swap a b i = ground arith

  index_all-Perm : {ms ns : List Message} → Permᴰ ms ns → (i : ℕ) → index_all ms i ≡ index_all ns i
  index_all-Perm Permᴰ.nil i = refl
  index_all-Perm (Permᴰ.cons {a} {b} {l₁} {l₂} e p) i =
      index_all-Perm p _ ∙ ap (λ m. index_all (m ∷ l₂) i) e
  index_all-Perm (Permᴰ.swap {a} {b} {a'} {b'} {l} e f) i =
      ap (index_all l) (index_swap a b i ∙ ap₂ (λ m n. index_all (m ∷ n ∷ []) i) f e)
  index_all-Perm (Permᴰ.trans p r) i = index_all-Perm p i ∙ index_all-Perm r i

  -- Two stores know the same of every service, by version, deletion and hash of the members, and
  -- have the same index version.
  pub record Agree (s t : Store) : Type 0 where
    pub keys : (q : Text) → key_at s q ≡ key_at t q
    pub index : s.index_version ≡ t.index_version

  -- Replication converges. Let two stores be in agreement, with no live service that has a
  -- tombstone and no version 0. If they receive the same messages in any two orders, they are in
  -- agreement again on the version, the deletion and the member hash of every service and on the
  -- index version, whether or not some messages are refused.
  pub converge :
      {ms ns : List Message}
      → Permᴰ ms ns
      → (s t : Store) → IsClean s
      → IsClean t
      → Agree s t
      → Agree (receive_all ms s) (receive_all ns t)
  converge {ms} {ns} p s t c d a = record {
    keys = λ q.
        receive_all-key ms s q c
        ∙ tell_all-Perm p q (key_at s q)
        ∙ ap (tell_all ns q) (a.keys q)
        ∙ sym (receive_all-key ns t q d);
    index =
        receive_all-index ms s
        ∙ index_all-Perm p s.index_version
        ∙ ap (index_all ns) a.index
        ∙ sym (receive_all-index ns t);
  }

  pub receive_all-IsClean : (ms : List Message) (s : Store) → IsClean s → IsClean (receive_all ms s)
  receive_all-IsClean [] s c = c
  receive_all-IsClean (m ∷ ms) s c = receive_all-IsClean ms (receive m s).1 (receive-IsClean m s c)

  told_already :
      (m : Message) (ms : List Message) (q : Text) (k : Key)
      → tell_all ms q (tells m q k) ≡ tells m q (tell_all ms q k)
  told_already m [] q k = refl
  told_already m (n ∷ ms) q k =
      ap (tell_all ms q) (tells_swap n m q k) ∙ told_already m ms q (tells n q k)

  -- Let a store have no live service that has a tombstone and no version 0. A message that arrives
  -- a second time, with any others in between, tells nothing more of any service.
  pub redelivered :
      (m : Message) (ms : List Message) (s : Store) (q : Text)
      → IsClean s
      → let t = receive_all (m ∷ ms) s in key_at (receive m t).1 q ≡ key_at t q
  redelivered m ms s q c =
      let t = receive_all-key (m ∷ ms) s q c in
      receive-key m _ q (receive_all-IsClean (m ∷ ms) s c)
      ∙ ap (tells m q) (t ∙ told_already m ms q (key_at s q))
      ∙ tells_again m q (tell_all ms q (key_at s q))
      ∙ sym (told_already m ms q (key_at s q))
      ∙ sym t
