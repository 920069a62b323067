-- ===== src/Zoned/Locks/Tests.antt =====
-- Two threads on a disk of two zones, of which one may be open at a time; the first is implicitly
-- open and the second is closed.
use bius.Zoned.{Config, Device, BlkZone, ZoneCond, closed, imp_open, seqwrite_req, ℕ, Option}
use bius.Zoned.Locks.{
  System, Reach, begin, zone_lock, Lock, in_zone, next, here, runs, lock_zone, put_owner, put_pc,
  zoned_open_zone_by, starts, open_zone_locked, close_zone_at,
}
use bius.Zoned.Locks.Exclusive.{Reach-exclusive}
use bius.Zoned.Locks.Cycle.{Cycle, open_zone-deadlock, two_zones}
use bius.Base.{ℕ, ◌≡◌, Option, ◌∷◌, none, ◌*◌, [], arith, refl, ◌+◌, some}
use bius.Zoned.Locks.Finishes.{Finishes, starts-Finishes}
use bius.Zoned.Manage.{zoned_open_zone_by}
use bius.Zoned.Open.{open_zone_locked, close_imp_open_zone, close_from, close_zone_at}

abbrev two_zone_disk : Config
two_zone_disk = record {
  zoned_disk_size = 4096;
  zone_size = 2048;
  num_conventional_zones = 0;
  max_open_zones = 1;
  max_active_zones = 2;
}

abbrev zone_of : ℕ → ZoneCond → BlkZone
zone_of i cond = record {
  start = 4 * i;
  len = 4;
  wp = 4 * i + 1;
  kind = seqwrite_req;
  cond = cond;
  capacity = 4;
}

abbrev one_open : Device
one_open = record {
  zone_info = zone_of 0 imp_open ∷ zone_of 1 closed ∷ [];
  stats = [];
  num_open_zones = 1;
  num_imp_open_zones = 1;
  num_active_zones = 2;
}

open_zone-deadlock_example :
    (s : System) × Reach two_zone_disk (begin one_open (two_zones two_zone_disk 1)) s
    × Cycle 0 1 s
    × ((t : System) → Reach two_zone_disk s t → (t.pc 0 ≡ s.pc 0) × (t.pc 1 ≡ s.pc 1))
open_zone-deadlock_example =
    open_zone-deadlock two_zone_disk one_open 1 (zone_of 1 closed) (zone_of 0 imp_open) refl refl
      refl refl refl (omega arith)

abbrev first_owner : Lock → Option ℕ
first_owner = put_owner (λ l. none) (zone_lock 1) (some 0)

abbrev first_locked : System
first_locked = record {
  device = one_open;
  owner = first_owner;
  pc = put_pc (begin one_open (two_zones two_zone_disk 1)).pc 0 (in_zone 1);
}

first_Reach : Reach two_zone_disk (begin one_open (two_zones two_zone_disk 1)) first_locked
first_Reach = next here (runs 0 one_open first_owner (in_zone 1) (lock_zone 1 refl))

abbrev first_thread : ℕ
first_thread = 0

Reach-exclusive_example : first_thread ≡ first_thread
Reach-exclusive_example =
    Reach-exclusive two_zone_disk one_open (two_zones two_zone_disk 1) first_locked 0 0
      (zone_lock 1) first_Reach refl refl

-- The first zone is closed, and the second one is not opened.
abbrev first_closed : Device
first_closed = record {
  zone_info = zone_of 0 closed ∷ zone_of 1 closed ∷ [];
  stats = [];
  num_open_zones = 0;
  num_imp_open_zones = 0;
  num_active_zones = 2;
}

opens_second : zoned_open_zone_by closed two_zone_disk 1 one_open ≡ some (0, first_closed)
unfolding zoned_open_zone_by open_zone_locked close_imp_open_zone close_from close_zone_at
opens_second = refl

starts-Finishes_example : Finishes two_zone_disk 3 one_open (λ l. none) (starts 1) first_closed 0
starts-Finishes_example =
    starts-Finishes two_zone_disk 3 1 0 one_open first_closed (zone_of 1 closed) refl opens_second
