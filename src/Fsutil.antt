-- ===== src/Fsutil.antt =====
-- `atomic_write` of src/fsutil.rs: the bytes go to a temporary file, which then takes the place of the
-- target.
use nexus_auth.Prelude.{
  ◌≡◌, Bool, true, false, Option, none, some, Bytes, Result, Done, ok, err, arith,
}

-- The target and the `.tmp` file beside it, which is another one: the path of the target does not end
-- in `.tmp`. The source does not check that.
pub record Disk : Type 0 where
  pub target : Option Bytes
  pub temp : Option Bytes

-- Which of the system calls succeed; `partial` is what a `write` that fails leaves.
pub record Faults : Type 0 where
  pub creates : Bool
  pub writes : Bool
  pub partial : Option Bytes
  pub chmods : Bool
  pub renames : Bool

-- `io::Error`
pub data IoError : Type 0 where
  create_dir_all write set_permissions rename not_found : IoError

unfoldable pub atomic_write : Faults → Bytes → Disk → Result IoError Done × Disk
atomic_write f bytes d = elim f.creates [
  | false ↦ (err create_dir_all, d)
  | true ↦ elim f.writes [
    | false ↦ (err write, record d { temp = f.partial })
    | true ↦ elim f.chmods [
      | false ↦ (err set_permissions, record d { temp = some bytes })
      | true ↦ elim f.renames [
        | false ↦ (err rename, record d { temp = some bytes })
        | true ↦ (ok tt, record { target = some bytes; temp = none })
      ]
    ]
  ]
]

-- Let the path of the target not end in .tmp, so that the temporary file is another one. However
-- the system calls fail, the target holds either the new bytes whole, when the write is reported
-- as done, or what it held before.
pub atomic_write-whole :
    (f : Faults) (bytes : Bytes) (d : Disk)
    → let (result, d') = atomic_write f bytes d in
      d'.target ≡ (elim result [ ok _ ↦ some bytes | err e ↦ d.target ])
unfolding atomic_write
atomic_write-whole f bytes d = ground arith
