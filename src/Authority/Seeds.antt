-- ===== src/Authority/Seeds.antt =====
-- src/authority.rs: the seed file.
use nexus_auth.Prelude.{
  ◌≡◌, Option, none, some, Text, Bytes, ok, arith, length, Option-cases, inl, inr,
}
use nexus_auth.Fsutil.{Disk, Faults, atomic_write}
use nexus_auth.Names.{External}
use nexus_auth.Legacy.Changes.{Reading, missing, content}
use nexus_auth.Authority.{
  Authority, Signing, seed_len, from_seed, load, load_or_create, index_key, index_key_for,
}

-- What a start reads of the file.
unfoldable pub reading_of : Option Bytes → Reading
reading_of none = missing
reading_of (some bytes) = content bytes

module _ {V S : Type 0} (l : Signing V S) ⦃x : External⦄ where
  pub load-load_or_create :
      (faults : Faults) (random : Bytes) (network : Text) (disk : Disk) (a : Authority)
      → length random ≡ seed_len
      → (load_or_create l faults random network (reading_of disk.target) disk).0 ≡ ok a
      → let disk' = (load_or_create l faults random network (reading_of disk.target) disk).1 in
        load l network (reading_of disk'.target) ≡ ok a
  unfolding load_or_create load reading_of atomic_write
  load-load_or_create faults random network disk a n h = elim (Option-cases disk.target) [
    | inl e ↦ ground (arith, h, n, e)
    | inr (b, e) ↦ ground (arith, h, e)
  ]

  pub index_key-from_seed :
      (seed : Bytes) (network : Text) (a : Authority)
      → from_seed l seed network ≡ ok a
      → index_key a ≡ index_key_for l network
  unfolding from_seed index_key index_key_for
  index_key-from_seed seed network a h = ground (arith, h)
