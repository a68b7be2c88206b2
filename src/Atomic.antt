-- ===== src/Atomic.antt =====
-- internal/fsutil/atomic.go: `WriteFile`, `SyncDir` and the two kinds of error. The system calls are
-- the environment's: each works or does not.
pub mod Outcome
mod Tests
use cf_vpn.Prelude.{ℕ, Bool, true, false, [], Option, none, some, take, if◌then◌else◌}
use cf_vpn.Text.{Bytes}

-- The system calls of one `WriteFile`, each made at most once.
pub data Syscall : Type 0 where
  make_dir create_temp change_mode write_temp sync_temp close_temp rename : Syscall
  open_dir sync_dir close_dir remove_temp : Syscall

-- `partial` is what a failing write has got onto the disk.
pub record System : Type 0 where
  pub works : Syscall → Bool
  pub partial : ℕ

-- A file is its content and its mode.
abbrev pub File : Type 0
File = Bytes × ℕ

pub record Disk : Type 0 where
  pub target : Option File
  pub temp : Option File

pub data WriteError : Type 0 where
  plain durability : WriteError

-- The mode of `os.CreateTemp`.
abbrev pub temp_mode : ℕ
temp_mode = 384

-- The deferred removal, while `tmp` is set.
abbrev pub give_up : System → Option File → File → Option WriteError × Disk
give_up sys target temp = (
  some plain,
  record { target = target; temp = if sys.works remove_temp then none else some temp },
)

-- `SyncDir`: does it return nil?
unfoldable pub sync_directory : System → Bool
sync_directory sys =
    if sys.works open_dir then if sys.works sync_dir then sys.works close_dir else false else false

abbrev pub after_rename : System → File → Option WriteError × Disk
after_rename sys new = (
  if sync_directory sys then none else some durability,
  record { target = some new; temp = none },
)

-- The error, if there is one, and the disk.
unfoldable pub write_file : System → Bytes → ℕ → Disk → Option WriteError × Disk
unfolding sync_directory
write_file sys content mode disk =
    if sys.works make_dir
    then if sys.works create_temp
      then if sys.works change_mode
        then if sys.works write_temp
          then if sys.works sync_temp
            then if sys.works close_temp
              then if sys.works rename
                then after_rename sys (content, mode)
                else give_up sys disk.target (content, mode)
              else give_up sys disk.target (content, mode)
            else give_up sys disk.target (content, mode)
          else give_up sys disk.target (take sys.partial content, mode)
        else give_up sys disk.target ([], temp_mode)
      else (some plain, disk)
    else (some plain, disk)

-- `IsDurability`
abbrev pub is_durability : WriteError → Bool
is_durability plain = false
is_durability durability = true
