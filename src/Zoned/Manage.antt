-- ===== src/Zoned/Manage.antt =====
-- examples/zoned-common.h: the commands that manage zones, up to the release of the locks. The
-- zone's lock, and where the source takes it the global one, are held from the first access to the
-- last, so a command is one step. `none` is an access past the end of `zone_info` or `stats`.
use bius.Base.{
  ℕ, zero, suc, ◌+◌, ◌*◌, true, List, [], ◌∷◌, Option, none, some, ltb, ◌==◌, ◌>>=◌, if◌then◌else◌,
  u64, sub64, dec32, get_elem?,
}
use bius.Status.{blk_sts_ok, blk_sts_ioerr, sector_size}
use bius.Zoned.{
  Config, Device, BlkZone, ZoneCond, not_wp, empty, imp_open, exp_open, closed, full, num_zones,
  zone_number, put_zone, put_stat, release_resources,
}
use bius.Zoned.Open.{open_zone_locked, mark_zone_full_locked}

unfoldable pub zoned_open_zone_by : ZoneCond → Config → ℕ → Device → Option (ℕ × Device)
zoned_open_zone_by empty c zone d = open_zone_locked c zone true d
zoned_open_zone_by imp_open c zone d = open_zone_locked c zone true d
zoned_open_zone_by closed c zone d = open_zone_locked c zone true d
zoned_open_zone_by exp_open c zone d = some (blk_sts_ok, d)
zoned_open_zone_by full c zone d = some (blk_sts_ioerr, d)
zoned_open_zone_by not_wp c zone d = some (blk_sts_ioerr, d)

unfoldable pub zoned_open_zone : Config → ℕ → Device → Option (ℕ × Device)
unfolding zoned_open_zone_by
zoned_open_zone c offset d =
    let zone : ℕ = zone_number c offset in
    (do z ← get_elem? d.zone_info zone; zoned_open_zone_by z.cond c zone d)

-- The case CLOSED of the switch in `zoned_close_zone`, in which the open conditions fall through.
unfoldable pub close_closed : ℕ → BlkZone → Device → ℕ × Device
close_closed zone z d =
    if z.wp == z.start
    then (
      blk_sts_ok,
      record (put_zone d zone (record z { cond = empty })) {
        num_active_zones = dec32 d.num_active_zones;
      },
    )
    else (blk_sts_ok, put_zone d zone (record z { cond = closed }))

unfoldable pub close_by_cond : ZoneCond → ℕ → BlkZone → Device → ℕ × Device
unfolding close_closed
close_by_cond imp_open zone z d = close_closed zone z (record d {
  num_imp_open_zones = dec32 d.num_imp_open_zones;
  num_open_zones = dec32 d.num_open_zones;
})
close_by_cond exp_open zone z d =
    close_closed zone z (record d { num_open_zones = dec32 d.num_open_zones })
close_by_cond closed zone z d = close_closed zone z d
close_by_cond empty zone z d = (blk_sts_ioerr, d)
close_by_cond full zone z d = (blk_sts_ioerr, d)
close_by_cond not_wp zone z d = (blk_sts_ioerr, d)

unfoldable pub zoned_close_zone : Config → ℕ → Device → Option (ℕ × Device)
unfolding close_by_cond
zoned_close_zone c offset d =
    let zone : ℕ = zone_number c offset in
    (do z ← get_elem? d.zone_info zone; some (close_by_cond z.cond zone z d))

-- The status of `mark_zone_full_locked` is dropped.
unfoldable pub zoned_finish_zone : Config → ℕ → Device → Option (ℕ × Device)
zoned_finish_zone c offset d = do
  r ← mark_zone_full_locked (zone_number c offset) d
  some (blk_sts_ok, r.1)

-- The loop of `zoned_report_zones`, with `n` zones left from `zone` on.
unfoldable pub copy_zones : ℕ → ℕ → Device → Option (List BlkZone)
copy_zones zero zone d = some []
copy_zones (suc n) zone d = do
  z ← get_elem? d.zone_info zone
  zs ← copy_zones n (zone + 1) d
  some (z ∷ zs)

-- The zones stored into the caller's array; the result of the call is their number.
unfoldable pub zoned_report_zones : Config → ℕ → ℕ → Device → Option (List BlkZone)
unfolding copy_zones
zoned_report_zones c offset nr_zones d =
    let start_zone : ℕ = zone_number c offset in
    let left : ℕ = sub64 (num_zones c) start_zone in
    copy_zones (if ltb left nr_zones then left else nr_zones) start_zone d

-- The first statements of `zoned_reset_zone`, under the zone's lock.
unfoldable pub count_reset : ℕ → BlkZone → Device → Option Device
count_reset zone z d = do
  s ← get_elem? d.stats zone
  some (
      put_stat d zone (record s {
        reset_count = u64 (s.reset_count + 1);
        discard_count = u64 (s.discard_count + sub64 z.wp z.start * sector_size);
      }))

-- The switch of `zoned_reset_zone`: the status that `out_unlock` returns, or none where the raw
-- device is to discard the zone.
unfoldable pub reset_by_cond : ZoneCond → ℕ → BlkZone → Device → Option ℕ × Device
unfolding release_resources
reset_by_cond empty zone z d = (some blk_sts_ok, d)
reset_by_cond not_wp zone z d = (some blk_sts_ioerr, d)
reset_by_cond cond zone z d =
    (none, put_zone (release_resources cond d) zone (record z { cond = empty; wp = z.start }))

-- `zoned_reset_zone` up to the release of the locks, with the zone that is read back after it.
unfoldable pub reset_locked : Config → ℕ → Device → Option (Option ℕ × BlkZone × Device)
unfolding count_reset reset_by_cond
reset_locked c offset d =
    let zone : ℕ = zone_number c offset in
    (do
      z ← get_elem? d.zone_info zone
      d' ← count_reset zone z d
      let r = reset_by_cond z.cond zone z d'
      z' ← get_elem? r.1.zone_info zone
      some (r.0, z', r.1))
