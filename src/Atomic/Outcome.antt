-- ===== src/Atomic/Outcome.antt =====
-- internal/fsutil/atomic.go: the error of `WriteFile` and the disk.
use cf_vpn.Prelude.{
  ◌⊎◌, ℕ, Bool, true, false, Option, none, some, ◌≡◌, refl, inl, inr, if◌then◌else◌, Bool-cases,
}
use cf_vpn.Text.{Bytes}
use cf_vpn.Atomic.{
  make_dir, create_temp, change_mode, write_temp, sync_temp, close_temp, rename, remove_temp,
  open_dir, sync_dir, close_dir, System, Disk, WriteError, plain, durability, write_file,
  sync_directory, give_up, after_rename,
}

-- Every step that flushes the directory worked.
abbrev pub IsFlushed : System → Type 0
IsFlushed sys =
    (sys.works open_dir ≡ true) × (sys.works sync_dir ≡ true) × (sys.works close_dir ≡ true)

-- One of the steps failed.
abbrev pub IsUnflushed : System → Type 0
IsUnflushed sys =
    (sys.works open_dir ≡ false) ⊎ ((sys.works sync_dir ≡ false) ⊎ (sys.works close_dir ≡ false))

-- The new content is there, or the old one is.
abbrev pub Tells : System → Bytes → ℕ → Disk → Option WriteError × Disk → Type 0
Tells sys content mode disk (none, after) =
    IsFlushed sys × (after.target ≡ some (content, mode)) × (after.temp ≡ none)
Tells sys content mode disk (some durability, after) =
    IsUnflushed sys × (after.target ≡ some (content, mode)) × (after.temp ≡ none)
Tells sys content mode disk (some plain, after) =
    (after.target ≡ disk.target)
    × ((after.temp ≡ disk.temp) ⊎ ((sys.works remove_temp ≡ false) ⊎ (after.temp ≡ none)))

sync_directory_cases :
    (sys : System)
    → ((sync_directory sys ≡ true) × IsFlushed sys)
      ⊎ ((sync_directory sys ≡ false) × IsUnflushed sys)
unfolding sync_directory
sync_directory_cases sys = elim (Bool-cases (sys.works open_dir)) [
  | inr bad ↦ inr (rw bad refl, inl bad)
  | inl opened ↦ elim (Bool-cases (sys.works sync_dir)) [
    | inr bad ↦ inr (rw (opened, bad) refl, inr (inl bad))
    | inl synced ↦ elim (Bool-cases (sys.works close_dir)) [
      | inr bad ↦ inr (rw (opened, synced) bad, inr (inr bad))
      | inl closed ↦ inl (rw (opened, synced) closed, (opened, synced, closed))
    ]
  ]
]

after_rename-Tells :
    (sys : System) (content : Bytes) (mode : ℕ) (disk : Disk)
    → Tells sys content mode disk (after_rename sys (content, mode))
after_rename-Tells sys content mode disk = elim (sync_directory_cases sys) [
  | inl (e, flushed) ↦ rw e (flushed, refl, refl)
  | inr (e, lost) ↦ rw e (lost, refl, refl)
]

give_up-Tells :
    (sys : System) (content : Bytes) (mode : ℕ) (disk : Disk) (temp : Bytes × ℕ)
    → Tells sys content mode disk (give_up sys disk.target temp)
give_up-Tells sys content mode disk temp = elim (Bool-cases (sys.works remove_temp)) [
  | inl removed ↦ (refl, inr (inr (rw removed refl)))
  | inr stuck ↦ (refl, inr (inl stuck))
]

module _ (sys : System) (content : Bytes) (mode : ℕ) (disk : Disk) where
  choose :
      (b : Bool) (x y : Option WriteError × Disk)
      → Tells sys content mode disk x
      → Tells sys content mode disk y
      → Tells sys content mode disk (if b then x else y)
  choose true x y h k = h
  choose false x y h k = k

-- Whatever system calls fail: without an error the target is the new file and its directory was
-- opened, synced and closed; a `DurabilityError` says that the target is the new file and that
-- opening, syncing or closing its directory failed; any other error says that the target is what
-- it was. No temporary file is left by
-- the first two; after the third the temporary file is what it was, or gone, or its removal
-- failed.
pub write_file-Tells :
    (sys : System) (content : Bytes) (mode : ℕ) (disk : Disk)
    → Tells sys content mode disk (write_file sys content mode disk)
unfolding write_file
write_file-Tells sys content mode disk =
    let old : Tells sys content mode disk (some plain, disk) = (refl, inl refl) in
    let c = choose sys content mode disk in
    let g = give_up-Tells sys content mode disk in
    c (sys.works make_dir) _ _
      (c (sys.works create_temp) _ _
        (c (sys.works change_mode) _ _
          (c (sys.works write_temp) _ _
            (c (sys.works sync_temp) _ _
              (c (sys.works close_temp) _ _
                (c (sys.works rename) _ _ (after_rename-Tells sys content mode disk) (g _)) (g _))
              (g _))
            (g _))
          (g _))
        old)
      old
