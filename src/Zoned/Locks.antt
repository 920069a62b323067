-- ===== src/Zoned/Locks.antt =====
-- examples/zoned-common.h: threads that run `zoned_open_zone` at the same time, with each taking and
-- giving back of a lock as a step of its own.
pub mod Exclusive
pub mod Cycle
pub mod Alone
pub mod Finishes
mod Tests
use bius.Status.{blk_sts_ok}
use bius.Zoned.{
  Config, Device, BlkZone, ZoneCond, not_wp, empty, imp_open, exp_open, closed, full, num_zones, ℕ,
  Option, Bool,
}
use bius.Zoned.Open.{open_zone_locked, close_zone_at, is_imp_open}
use bius.Zoned.Manage.{zoned_open_zone_by}
use bius.Base.{
  inc32, ℕ, Bool, Option, none, ◌≡◌, true, ltb, false, if◌then◌else◌, some, ◌||◌, ◌==◌, ◌&&◌,
  get_elem?, leb, ◌-◌, suc, ◌+◌, zero,
}

-- `global_lock` and the entries of `zone_locks`.
pub data Lock : Type 0 where
  global : Lock
  zone_lock : ℕ → Lock

abbrev pub same_lock : Lock → Lock → Bool
same_lock global global = true
same_lock global (zone_lock w) = false
same_lock (zone_lock v) global = false
same_lock (zone_lock v) (zone_lock w) = v == w

-- Where a thread is that opens `zone`: before the zone's lock; in the switch of `zoned_open_zone`;
-- before the global lock; in `open_zone_locked`; in `close_imp_open_zone` with `n` zones left from
-- `v` on, before that zone's lock and under it; before the global lock is given back; before the
-- zone's is; and at the end.
pub data Pc : Type 0 where
  starts in_zone waits in_global : ℕ → Pc
  searching in_search : ℕ → ℕ → ℕ → Pc
  leaving left : ℕ → ℕ → Pc
  done : ℕ → Pc

-- Whether the thread has the lock.
abbrev pub holds : Pc → Lock → Bool
holds (starts z) l = false
holds (in_zone z) l = same_lock (zone_lock z) l
holds (waits z) l = same_lock (zone_lock z) l
holds (in_global z) l = same_lock global l || same_lock (zone_lock z) l
holds (searching z v n) l = same_lock global l || same_lock (zone_lock z) l
holds (in_search z v n) l =
    same_lock (zone_lock v) l || (same_lock global l || same_lock (zone_lock z) l)
holds (leaving z r) l = same_lock global l || same_lock (zone_lock z) l
holds (left z r) l = same_lock (zone_lock z) l
holds (done r) l = false

-- The cases of the switch of `zoned_open_zone` that call `open_zone_locked`.
abbrev pub switch_opens : ZoneCond → Bool
switch_opens empty = true
switch_opens imp_open = true
switch_opens closed = true
switch_opens _ = false

-- The test for `close_imp_open_zone`, which the case EMPTY comes to below its own limit.
abbrev pub searches : ZoneCond → Config → Device → Bool
searches empty c d =
    ltb d.num_active_zones c.max_active_zones
    && leb c.max_open_zones d.num_open_zones
    && ltb 0 d.num_imp_open_zones
searches closed c d = leb c.max_open_zones d.num_open_zones && ltb 0 d.num_imp_open_zones
searches _ c d = false

-- The device at the call of `close_imp_open_zone`.
abbrev pub entered : ZoneCond → Device → Device
entered empty d = record d { num_active_zones = inc32 d.num_active_zones }
entered _ d = d

abbrev pub put_owner : (Lock → Option ℕ) → Lock → Option ℕ → Lock → Option ℕ
put_owner m l o k = if same_lock l k then o else m k

-- A step of thread `i`.
pub data Move (c : Config) (i : ℕ) (d : Device) (m : Lock → Option ℕ)
    : Pc → Device → (Lock → Option ℕ) → Pc → Type 0 where
  lock_zone :
      (z : ℕ)
      → m (zone_lock z) ≡ none
      → Move c i d m (starts z) d (put_owner m (zone_lock z) (some i)) (in_zone z)
  to_open :
      (z : ℕ) (x : BlkZone)
      → get_elem? d.zone_info z ≡ some x
      → switch_opens x.cond ≡ true
      → Move c i d m (in_zone z) d m (waits z)
  to_leave :
      (z r : ℕ) (x : BlkZone)
      → get_elem? d.zone_info z ≡ some x
      → switch_opens x.cond ≡ false
      → zoned_open_zone_by x.cond c z d ≡ some (r, d)
      → Move c i d m (in_zone z) d m (left z r)
  lock_global :
      (z : ℕ)
      → m global ≡ none
      → Move c i d m (waits z) d (put_owner m global (some i)) (in_global z)
  open_zone :
      (z r : ℕ) (x : BlkZone) (d' : Device)
      → get_elem? d.zone_info z ≡ some x
      → searches x.cond c d ≡ false
      → open_zone_locked c z true d ≡ some (r, d')
      → Move c i d m (in_global z) d' m (leaving z r)
  to_search :
      (z : ℕ) (x : BlkZone)
      → get_elem? d.zone_info z ≡ some x
      → searches x.cond c d ≡ true
      → Move c i d m
          (in_global z)
          (entered x.cond d)
          m
          (searching z c.num_conventional_zones (num_zones c - c.num_conventional_zones))
  skip :
      (z v n : ℕ)
      → (v == z) ≡ true
      → Move c i d m (searching z v (suc n)) d m (searching z (v + 1) n)
  lock_other :
      (z v n : ℕ)
      → (v == z) ≡ false
      → m (zone_lock v) ≡ none
      → Move c i d m
          (searching z v (suc n))
          d
          (put_owner m (zone_lock v) (some i))
          (in_search z v n)
  close :
      (z v n : ℕ) (x : BlkZone)
      → get_elem? d.zone_info v ≡ some x
      → is_imp_open x.cond ≡ true
      → Move c i d m
          (in_search z v n)
          (close_zone_at d v x)
          (put_owner m (zone_lock v) none)
          (leaving z blk_sts_ok)
  pass :
      (z v n : ℕ) (x : BlkZone)
      → get_elem? d.zone_info v ≡ some x
      → is_imp_open x.cond ≡ false
      → Move c i d m (in_search z v n) d (put_owner m (zone_lock v) none) (searching z (v + 1) n)
  not_found : (z v : ℕ) → Move c i d m (searching z v zero) d m (leaving z blk_sts_ok)
  unlock_global : (z r : ℕ) → Move c i d m (leaving z r) d (put_owner m global none) (left z r)
  unlock_zone : (z r : ℕ) → Move c i d m (left z r) d (put_owner m (zone_lock z) none) (done r)

-- The disk, the owner of each lock, and where each thread is.
pub record System : Type 0 where
  pub device : Device
  pub owner : Lock → Option ℕ
  pub pc : ℕ → Pc

abbrev pub put_pc : (ℕ → Pc) → ℕ → Pc → ℕ → Pc
put_pc pc i p j = if i == j then p else pc j

pub data Step (c : Config) (s : System) : System → Type 0 where
  runs :
      (i : ℕ) (d : Device) (m : Lock → Option ℕ) (p : Pc)
      → Move c i s.device s.owner (s.pc i) d m p
      → Step c s (record { device = d; owner = m; pc = put_pc s.pc i p })

-- Every thread is to open the zone that `zones` says, and none has begun.
abbrev pub begin : Device → (ℕ → ℕ) → System
begin d zones = record { device = d; owner = λ l. none; pc = λ i. starts (zones i) }

pub data Reach (c : Config) (s : System) : System → Type 0 where
  here : Reach c s s
  next : {t u : System} → Reach c s t → Step c t u → Reach c s u
