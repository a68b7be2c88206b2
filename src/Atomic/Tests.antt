-- ===== src/Atomic/Tests.antt =====
-- A write whose directory is not flushed, and one that fails half way.
use cf_vpn.Prelude.{true, false, none, some, ◌≡◌, refl}
use cf_vpn.Text.{codes}
use cf_vpn.Atomic.{write_temp, sync_dir, System, Disk, durability, write_file}
use cf_vpn.Atomic.Outcome.{Tells, write_file-Tells}

abbrev unflushed : System
unflushed = record { works = λ c. elim c [ sync_dir ↦ false | _ ↦ true ]; partial = 0 }

abbrev full_disk : System
full_disk = record { works = λ c. elim c [ write_temp ↦ false | _ ↦ true ]; partial = 1 }

abbrev before : Disk
before = record { target = some (codes "old", 384); temp = none }

golden_unflushed :
    write_file unflushed (codes "new") 420 before
    ≡ (some durability, record { target = some (codes "new", 420); temp = none })
unfolding write_file
golden_unflushed = refl

write_file-Tells_example :
    Tells full_disk (codes "new") 420 before (write_file full_disk (codes "new") 420 before)
write_file-Tells_example = write_file-Tells full_disk (codes "new") 420 before
