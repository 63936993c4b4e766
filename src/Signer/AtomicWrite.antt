-- ===== src/Signer/AtomicWrite.antt =====
-- signer/atomicwrite.go: the writing of a new file. The calls of os are parameters.
use bridge_remote_signer.Base.{
  Bool, Bytes, Option, Result, [], ensure, err, ltb, none, not, ok, some, ℕ, ◌%◌, ◌++◌, ◌==◌, ◌>>◌,
  bytes_eq, nat_eq,
}
pub mod Laws

-- The calls, in their order: each may fail.
pub data WriteCall : Type 0 where
  create_temp : WriteCall
  write : WriteCall
  chmod : WriteCall
  fsync : WriteCall
  close : WriteCall
  link : WriteCall
  open_dir : WriteCall
  sync_dir : WriteCall
  close_dir : WriteCall

pub data WriteError : Type 0 where
  perm_bits : WriteError
  perm_shared : WriteError
  refusing_to_overwrite : WriteError
  failed : WriteCall → WriteError

pub record File : Type 0 where
  pub contents : Bytes
  pub perm : ℕ

-- `perm&^0o777 != 0`, and then `perm&0o077 != 0`
unfoldable pub validate_perm : ℕ → Result WriteError (Unit {0})
validate_perm perm = do ensure (ltb perm 512) perm_bits; ensure (perm % 64 == 0) perm_shared

unfoldable pub attempt : (WriteCall → Bool) → WriteCall → Result WriteError (Unit {0})
attempt fails call = ensure (not (fails call)) (failed call)

-- `os.CreateTemp` makes an empty file with permissions 0600.
abbrev pub temp_file : File
temp_file = record { contents = []; perm = 384 }

-- `f.Write` at the end of the file, and `f.Chmod`.
abbrev pub with_contents : Bytes → File → File
with_contents data_ file = record file { contents = file.contents ++ data_ }

abbrev pub with_perm : ℕ → File → File
with_perm perm file = record file { perm = perm }

-- The calls on the temporary file, which is removed in every case: the file as they leave it.
unfoldable pub write_temp : (WriteCall → Bool) → Bytes → ℕ → Result WriteError File
write_temp fails data_ perm = do
  attempt fails create_temp
  let file = temp_file
  attempt fails write
  let file = with_contents data_ file
  attempt fails chmod
  let file = with_perm perm file
  attempt fails fsync
  attempt fails close
  ok file

unfoldable pub sync_parent : (WriteCall → Bool) → Result WriteError (Unit {0})
sync_parent fails = do attempt fails open_dir; attempt fails sync_dir; attempt fails close_dir

-- `os.Link`, which fails when there is a file at the path.
unfoldable pub link_new : (WriteCall → Bool) → Option File → File → Result WriteError File
link_new fails (some there) file = err refusing_to_overwrite
link_new fails none file = do attempt fails link; ok file

-- What stands at the path afterwards, and the outcome.
unfoldable pub write_new_file_atomic :
    (WriteCall → Bool) → Option File → Bytes → ℕ → Option File × Result WriteError (Unit {0})
write_new_file_atomic fails at_path contents perm =
    elim (validate_perm perm >> write_temp fails contents perm) [
      | err e ↦ (at_path, err e)
      | ok temp ↦ elim (link_new fails at_path temp) [
        | err e ↦ (at_path, err e)
        | ok file ↦ (some file, sync_parent fails)
      ]
    ]
