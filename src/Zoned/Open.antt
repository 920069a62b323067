-- ===== src/Zoned/Open.antt =====
-- examples/zoned-common.h: `close_imp_open_zone`, `open_zone_locked`, `mark_zone_full_locked`, which
-- run under the global lock.
use bius.Base.{
  ℕ, zero, suc, ◌+◌, ◌-◌, Bool, true, false, Option, some, ltb, leb, ◌==◌, ◌>>=◌, if◌then◌else◌,
  u64, inc32, dec32, get_elem?,
}
use bius.Status.{
  blk_sts_ok, blk_sts_ioerr, blk_sts_zone_open_resource, blk_sts_zone_active_resource,
}
use bius.Zoned.{
  Config, Device, BlkZone, ZoneCond, not_wp, empty, imp_open, exp_open, closed, full, num_zones,
  put_zone, release_resources,
}

abbrev pub is_imp_open : ZoneCond → Bool
is_imp_open imp_open = true
is_imp_open _ = false

-- The body of the `if` in the loop: the zone goes back to closed, and the loop is left.
unfoldable pub close_zone_at : Device → ℕ → BlkZone → Device
close_zone_at d zone z = record (put_zone d zone (record z { cond = closed })) {
  num_open_zones = dec32 d.num_open_zones;
  num_imp_open_zones = dec32 d.num_imp_open_zones;
}

-- The loop, with `n` zones left from `zone` on.
unfoldable pub close_from : ℕ → ℕ → ℕ → Device → Option Device
close_from zero zone zone_to_skip d = some d
close_from (suc n) zone zone_to_skip d =
    let rest = close_from n (zone + 1) zone_to_skip d in
    let visit : Option Device = (do
      z ← get_elem? d.zone_info zone
      if is_imp_open z.cond then some (close_zone_at d zone z) else rest) in
    if zone == zone_to_skip then rest else visit

unfoldable pub close_imp_open_zone : Config → ℕ → Device → Option Device
close_imp_open_zone c zone_to_skip d =
    close_from (num_zones c - c.num_conventional_zones) c.num_conventional_zones zone_to_skip d

-- The case CLOSED of the switch, in which the case EMPTY falls through.
unfoldable pub open_closed : Config → ℕ → Bool → BlkZone → Device → Option (ℕ × Device)
open_closed c zone explicit z d =
    if leb c.max_open_zones d.num_open_zones
    then (if ltb 0 d.num_imp_open_zones
        then (do d' ← close_imp_open_zone c zone d; some (blk_sts_ok, d'))
        else some (blk_sts_zone_open_resource, d))
    else (let d' = record d { num_open_zones = inc32 d.num_open_zones } in
        if explicit
        then some (blk_sts_ok, put_zone d' zone (record z { cond = exp_open }))
        else some (
          blk_sts_ok,
          record (put_zone d' zone (record z { cond = imp_open })) {
            num_imp_open_zones = inc32 d.num_imp_open_zones;
          },
        ))

unfoldable pub open_by_cond : ZoneCond → Config → ℕ → Bool → BlkZone → Device → Option (ℕ × Device)
unfolding open_closed
open_by_cond imp_open c zone explicit z d =
    if explicit
    then some (
      blk_sts_ok,
      record (put_zone d zone (record z { cond = exp_open })) {
        num_imp_open_zones = dec32 d.num_imp_open_zones;
      },
    )
    else some (blk_sts_ok, d)
open_by_cond exp_open c zone explicit z d = some (blk_sts_ok, d)
open_by_cond empty c zone explicit z d =
    if leb c.max_active_zones d.num_active_zones
    then some (blk_sts_zone_active_resource, d)
    else open_closed c zone explicit z (record d { num_active_zones = inc32 d.num_active_zones })
open_by_cond closed c zone explicit z d = open_closed c zone explicit z d
open_by_cond full c zone explicit z d = some (blk_sts_ioerr, d)
open_by_cond not_wp c zone explicit z d = some (blk_sts_ioerr, d)

unfoldable pub open_zone_locked : Config → ℕ → Bool → Device → Option (ℕ × Device)
unfolding open_by_cond
open_zone_locked c zone explicit d = do
  z ← get_elem? d.zone_info zone
  open_by_cond z.cond c zone explicit z d

-- The end of the switch's fall-through chain.
unfoldable pub fill_zone : Device → ℕ → BlkZone → Device
fill_zone d zone z = put_zone d zone (record z { cond = full; wp = u64 (z.start + z.len) })

unfoldable pub mark_by_cond : ZoneCond → ℕ → BlkZone → Device → ℕ × Device
unfolding fill_zone release_resources
mark_by_cond not_wp zone z d = (blk_sts_ioerr, d)
mark_by_cond cond zone z d = (blk_sts_ok, fill_zone (release_resources cond d) zone z)

unfoldable pub mark_zone_full_locked : ℕ → Device → Option (ℕ × Device)
unfolding mark_by_cond
mark_zone_full_locked zone d = do
  z ← get_elem? d.zone_info zone
  some (mark_by_cond z.cond zone z d)
