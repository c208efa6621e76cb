-- ===== src/PrivateMount/System.antt =====
-- What private-mount.c calls: system calls, `mount`, the tables of users and file systems, and
-- `list_split` of lib/split.c. The umask is left out.
use slurm_spank_plugins.Base.{ℕ, ◌<◌, Bool, true, ◌≡◌, Option, some, List, Bytes}

-- The answer of `mkdir`, with the errors that the code tells apart.
pub data Made (S : Type 0) : Type 0 where
  made : S → Made S
  enoent eexist failed : Made S

pub record System (S : Type 0) : Type 0 where
  pub unshare : S → Option S
  -- `mount --bind /etc/slurm/fstab /etc/fstab`
  pub bind_fstab : S → Option S
  -- Whether /etc/slurm/fstab has a mount point of that name.
  pub lookup : S → Bytes → Bool
  pub mkdir : S → Bytes → Made S
  -- `stat` finds a directory.
  pub is_dir : S → Bytes → Bool
  pub dirname : Bytes → Bytes
  -- `/bin/mount -n`
  pub mount_n : S → Bytes → Option S
  pub is_mounted : S → Bytes → Bool
  pub statfs : S → Bytes → Bool
  pub getpwnam : Bytes → Option ℕ
  pub list_split : Bytes → List Bytes
  -- How many names a path has.
  pub depth : Bytes → ℕ
  pub mkdir-is_dir : (s s' : S) (path : Bytes) → mkdir s path ≡ made s' → is_dir s' path ≡ true
  -- A directory that is missing is above the path.
  pub enoent-depth :
      (s : S) (path : Bytes) → mkdir s path ≡ enoent → depth (dirname path) < depth path
  pub mount-is_mounted :
      (s s' : S) (name : Bytes) → mount_n s name ≡ some s' → is_mounted s' name ≡ true
  -- What is mounted stays so.
  pub mkdir-keeps :
      (s s' : S) (path name : Bytes)
      → mkdir s path ≡ made s'
      → is_mounted s name ≡ true
      → is_mounted s' name ≡ true
  pub mount-keeps :
      (s s' : S) (other name : Bytes)
      → mount_n s other ≡ some s'
      → is_mounted s name ≡ true
      → is_mounted s' name ≡ true
