-- ===== src/Zoned/ManageSound.antt =====
-- The commands that manage zones return for a zone of the disk, and keep the counters right;
-- `initialize` starts with them right.
use bius.Zoned.Counters.{
  IsSound, shift, OpensCleanly, open_zone_locked-IsSound, mark_zone_full_locked-IsSound,
}
use bius.Zoned.Manage.{
  zoned_open_zone_by, zoned_open_zone, close_by_cond, zoned_close_zone, zoned_finish_zone,
  count_reset, reset_by_cond, reset_locked,
}
use bius.Zoned.{
  Config, ZoneCond, ℕ, BlkZone, Device, zone_number, num_zones, empty, closed, not_wp, imp_open,
  exp_open, full, ZoneStat, put_stat,
}
use bius.Base.{
  ℕ, get_elem?, ◌≡◌, some, ◌<◌, ◌≤◌, arith, Ensures, true, get_elem?_total, Ensures-bind, refl, u64,
  ◌+◌, sub64, ◌*◌,
}
use bius.Zoned.Open.{mark_zone_full_locked}
use bius.Status.{sector_size}
use bius.Zoned.WriteSound.{stat-IsSound}

open_zone_by-IsSound :
    (c : Config) (cond : ZoneCond) (zone : ℕ) (d : Device) (z : BlkZone)
    → get_elem? d.zone_info zone ≡ some z
    → c.num_conventional_zones ≤ num_zones c
    → OpensCleanly c d z.cond
    → IsSound c d
    → Ensures (λ r. IsSound c r.1) (zoned_open_zone_by cond c zone d)
unfolding zoned_open_zone_by
open_zone_by-IsSound c empty zone d z e b o k = open_zone_locked-IsSound c zone true d z e b o k
open_zone_by-IsSound c imp_open zone d z e b o k = open_zone_locked-IsSound c zone true d z e b o k
open_zone_by-IsSound c closed zone d z e b o k = open_zone_locked-IsSound c zone true d z e b o k
open_zone_by-IsSound c exp_open zone d z e b o k = k
open_zone_by-IsSound c full zone d z e b o k = k
open_zone_by-IsSound c not_wp zone d z e b o k = k

-- An explicit open returns, and keeps the counters right, if the zone opens cleanly.
pub zoned_open_zone-IsSound :
    (c : Config) (offset : ℕ) (d : Device) (z : BlkZone)
    → get_elem? d.zone_info (zone_number c offset) ≡ some z
    → c.num_conventional_zones ≤ num_zones c
    → OpensCleanly c d z.cond
    → IsSound c d
    → Ensures (λ r. IsSound c r.1) (zoned_open_zone c offset d)
unfolding zoned_open_zone
zoned_open_zone-IsSound c offset d z e b o k =
    rw (e, zoned_open_zone) (open_zone_by-IsSound c z.cond (zone_number c offset) d z e b o k)

close_by_cond-IsSound :
    (c : Config) (cond : ZoneCond) (zone : ℕ) (z : BlkZone) (d : Device)
    → get_elem? d.zone_info zone ≡ some z
    → z.cond ≡ cond
    → IsSound c d
    → IsSound c (close_by_cond cond zone z d).1
unfolding close_by_cond
close_by_cond-IsSound c imp_open zone z d e h k = ground (
  arith,
  shift d.zone_info zone z (record z { cond = empty }) e,
  shift d.zone_info zone z (record z { cond = closed }) e,
)
close_by_cond-IsSound c exp_open zone z d e h k = ground (
  arith,
  shift d.zone_info zone z (record z { cond = empty }) e,
  shift d.zone_info zone z (record z { cond = closed }) e,
)
close_by_cond-IsSound c closed zone z d e h k = ground (
  arith,
  shift d.zone_info zone z (record z { cond = empty }) e,
  shift d.zone_info zone z (record z { cond = closed }) e,
)
close_by_cond-IsSound c empty zone z d e h k = k
close_by_cond-IsSound c full zone z d e h k = k
close_by_cond-IsSound c not_wp zone z d e h k = k

-- Closing a zone of the disk returns, and keeps the counters right.
pub zoned_close_zone-IsSound :
    (c : Config) (offset : ℕ) (d : Device)
    → zone_number c offset < num_zones c
    → IsSound c d
    → Ensures (λ r. IsSound c r.1) (zoned_close_zone c offset d)
unfolding zoned_close_zone
zoned_close_zone-IsSound c offset d h k =
    let (z, e) = get_elem?_total d.zone_info (zone_number c offset) (omega (arith, k.zones)) in
    rw (e, zoned_close_zone) (close_by_cond-IsSound c z.cond (zone_number c offset) z d e refl k)

-- Finishing a zone of the disk returns, and keeps the counters right.
pub zoned_finish_zone-IsSound :
    (c : Config) (offset : ℕ) (d : Device)
    → zone_number c offset < num_zones c
    → IsSound c d
    → Ensures (λ r. IsSound c r.1) (zoned_finish_zone c offset d)
unfolding zoned_finish_zone
zoned_finish_zone-IsSound c offset d h k =
    Ensures-bind _ (mark_zone_full_locked (zone_number c offset) d) _
      (mark_zone_full_locked-IsSound c (zone_number c offset) d h k)

reset_by_cond-IsSound :
    (c : Config) (cond : ZoneCond) (zone : ℕ) (z : BlkZone) (d : Device)
    → get_elem? d.zone_info zone ≡ some z
    → z.cond ≡ cond
    → IsSound c d
    → IsSound c (reset_by_cond cond zone z d).1
unfolding reset_by_cond
reset_by_cond-IsSound c empty zone z d e h k = k
reset_by_cond-IsSound c not_wp zone z d e h k = k
reset_by_cond-IsSound c _ zone z d e h k =
    ground (arith, shift d.zone_info zone z (record z { cond = empty; wp = z.start }) e)

reset_at-IsSound :
    (c : Config) (offset : ℕ) (d : Device) (z : BlkZone) (s : ZoneStat)
    → get_elem? d.zone_info (zone_number c offset) ≡ some z
    → get_elem? d.stats (zone_number c offset) ≡ some s
    → zone_number c offset < num_zones c
    → IsSound c d
    → Ensures (λ r. IsSound c r.2) (reset_locked c offset d)
unfolding reset_locked count_reset
reset_at-IsSound c offset d z s e q h k =
    let zone : ℕ = zone_number c offset in
    let d' : Device = put_stat d zone (record s {
      reset_count = u64 (s.reset_count + 1);
      discard_count = u64 (s.discard_count + sub64 z.wp z.start * sector_size);
    }) in
    let k' : IsSound c (reset_by_cond z.cond zone z d').1 =
      reset_by_cond-IsSound c z.cond zone z d' e refl (stat-IsSound c zone _ d k) in
    let (z', e') =
      get_elem?_total (reset_by_cond z.cond zone z d').1.zone_info zone (omega (arith, k'.zones)) in
    rw (e, reset_locked) (rw (q, count_reset) (rw e' k'))

-- Resetting a zone of the disk returns, and keeps the counters right.
pub reset_locked-IsSound :
    (c : Config) (offset : ℕ) (d : Device)
    → zone_number c offset < num_zones c
    → IsSound c d
    → Ensures (λ r. IsSound c r.2) (reset_locked c offset d)
reset_locked-IsSound c offset d h k =
    let (z, e) = get_elem?_total d.zone_info (zone_number c offset) (omega (arith, k.zones)) in
    let (s, q) = get_elem?_total d.stats (zone_number c offset) (omega (arith, k.counted)) in
    reset_at-IsSound c offset d z s e q h k
