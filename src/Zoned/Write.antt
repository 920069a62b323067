-- ===== src/Zoned/Write.antt =====
-- examples/zoned-common.h: `zoned_write_common` up to the release of the zone's lock. The lock is held
-- from the first access of the zone to the last, so this is one step; the raw device is written
-- after it (Zoned/Disk). `none` is an access past the end of `zone_info` or `stats`.
use bius.Base.{
  ℕ, ◌+◌, ◌*◌, ◌/◌, Bool, false, Option, none, some, ltb, ◌==◌, ◌>>=◌, if◌then◌else◌, u64,
  get_elem?,
}
use bius.Status.{blk_sts_ok, blk_sts_ioerr, sector_size}
use bius.Zoned.{
  Config, Device, BlkZone, ZoneType, ZoneCond, conventional, seqwrite_req, not_wp, empty, imp_open,
  exp_open, closed, full, zone_number, put_zone, put_stat,
}
use bius.Zoned.Open.{open_zone_locked, mark_zone_full_locked}

-- How a command leaves its locked part: by `out_unlock` with a status, or to the raw device at an
-- offset.
pub data Verdict : Type 0 where
  refused : ℕ → Verdict
  admitted : ℕ → Verdict

-- `*out_written_position`, if the command stored there.
pub record Locked : Type 0 where
  pub verdict : Verdict
  pub written_position : Option ℕ
  pub device : Device

-- stats[zone].written += length, the last thing under the lock.
unfoldable pub count_written : ℕ → ℕ → ℕ → Option ℕ → Device → Option Locked
count_written zone offset length pos d = do
  s ← get_elem? d.stats zone
  some (record {
    verdict = admitted offset;
    written_position = pos;
    device = put_stat d zone (record s { written = u64 (s.written + length) });
  })

-- The switch on the condition of a sequential zone before a write.
unfoldable pub open_to_write : ZoneCond → Config → ℕ → Device → Option (ℕ × Device)
open_to_write empty c zone d = open_zone_locked c zone false d
open_to_write closed c zone d = open_zone_locked c zone false d
open_to_write imp_open c zone d = some (blk_sts_ok, d)
open_to_write exp_open c zone d = some (blk_sts_ok, d)
open_to_write full c zone d = some (blk_sts_ioerr, d)
open_to_write not_wp c zone d = some (blk_sts_ioerr, d)

-- wp += length / SECTOR_SIZE, and the zone that this fills is marked full; the result of
-- `mark_zone_full_locked` is not used.
unfoldable pub advance_wp : ℕ → ℕ → Device → Option Device
advance_wp zone length d = do
  z ← get_elem? d.zone_info zone
  let wp : ℕ = u64 (z.wp + length / sector_size)
  let d' = put_zone d zone (record z { wp = wp })
  if wp == u64 (z.start + z.capacity)
      then (do r ← mark_zone_full_locked zone d'; some r.1)
      else some d'

-- From the result of `open_zone_locked` on.
unfoldable pub write_opened : ℕ → ℕ → ℕ → Option ℕ → ℕ × Device → Option Locked
unfolding advance_wp count_written
write_opened zone offset length pos (status, d) =
    if status == blk_sts_ok
    then (do d' ← advance_wp zone length d; count_written zone offset length pos d')
    else some (record { verdict = refused status; written_position = pos; device = d })

-- From the check of the capacity on, with the offset that is written to.
unfoldable pub write_seq : Config → ℕ → BlkZone → ℕ → ℕ → Option ℕ → Device → Option Locked
unfolding open_to_write write_opened
write_seq c zone z offset length pos d =
    if ltb (u64 ((z.start + z.capacity) * sector_size)) (u64 (offset + length))
    then some (record { verdict = refused blk_sts_ioerr; written_position = pos; device = d })
    else (do r ← open_to_write z.cond c zone d; write_opened zone offset length pos r)

unfoldable pub write_by_type :
    ZoneType → Config → ℕ → BlkZone → ℕ → ℕ → Bool → Device → Option Locked
unfolding write_seq count_written
write_by_type conventional c zone z offset length append d =
    if append
    then some (record { verdict = refused blk_sts_ioerr; written_position = none; device = d })
    else count_written zone offset length none d
write_by_type seqwrite_req c zone z offset length append d =
    let position : ℕ = u64 (z.wp * sector_size) in
    if append
    then write_seq c zone z position length (some position) d
    else (if position == offset
        then write_seq c zone z offset length none d
        else some (record { verdict = refused blk_sts_ioerr; written_position = none; device = d }))

-- The part of `zoned_write_common` under the zone's lock.
unfoldable pub write_locked : Config → ℕ → ℕ → Bool → Device → Option Locked
unfolding write_by_type
write_locked c offset length append d =
    let zone : ℕ = zone_number c offset in
    (do z ← get_elem? d.zone_info zone; write_by_type z.kind c zone z offset length append d)
