-- ===== src/Zoned/Disk.antt =====
-- examples/zoned-common.h: the operations that `get_zoned_operations` hands to the library, over any
-- raw device: `raw_read`, `raw_write` and `raw_discard` are the fields of a record, which
-- both zoned programs fill.
use bius.Base.{ℕ, ◌+◌, ◌*◌, Bool, true, false, Option, none, some, ◌>>=◌, u64, get_elem?}
use bius.Status.{sector_size}
use bius.Zoned.{Config, Device, BlkZone, zone_number, put_stat}
use bius.Zoned.Init.{initialize_zone_info}
use bius.Zoned.Write.{write_locked, Verdict, refused, admitted}
use bius.Zoned.Manage.{reset_locked}
use bius.Zoned.Open.{}

-- A buffer of the caller, by the distance from the address that it passes.
abbrev pub Buffer : Type 0
Buffer = ℕ → ℕ

-- raw_read, raw_write and raw_discard, over a device whose state is `S`; each returns a status.
pub record RawDevice (S : Type 0) : Type 0 where
  pub raw_read : S → Buffer → ℕ → ℕ → ℕ × Buffer × S
  pub raw_write : S → Buffer → ℕ → ℕ → ℕ × S
  pub raw_discard : S → ℕ → ℕ → ℕ × S

-- The emulated disk: the zones, and the device that holds the data.
pub record Disk (S : Type 0) : Type 0 where
  pub device : Device
  pub raw : S

module _ {S : Type 0} (c : Config) (ops : RawDevice S) where
  -- The status, the buffer after the read, and the disk.
  unfoldable pub zoned_read : Buffer → ℕ → ℕ → Disk S → Option (ℕ × Buffer × Disk S)
  zoned_read buffer offset length k =
      let zone : ℕ = zone_number c offset in
      (do
        s ← get_elem? k.device.stats zone
        let r = ops.raw_read k.raw buffer offset length
        some (
          r.0,
          r.1,
          record {
            device = put_stat k.device zone (record s { read = u64 (s.read + length) });
            raw = r.2;
          },
        ))

  -- What follows the release of the zone's lock in `zoned_write_common`.
  unfoldable pub write_raw : Verdict → Buffer → ℕ → Device → S → ℕ × Disk S
  write_raw (refused status) buffer length d s = (status, record { device = d; raw = s })
  write_raw (admitted offset) buffer length d s =
      let r = ops.raw_write s buffer offset length in (r.0, record { device = d; raw = r.1 })

  -- The status, what was stored through `out_written_position`, and the disk.
  unfoldable pub zoned_write_common :
      Buffer → ℕ → ℕ → Bool → Disk S → Option (ℕ × Option ℕ × Disk S)
  unfolding write_raw
  zoned_write_common buffer offset length append k = do
    l ← write_locked c offset length append k.device
    let r = write_raw l.verdict buffer length l.device k.raw
    some (r.0, l.written_position, r.1)

  unfoldable pub zoned_write : Buffer → ℕ → ℕ → Disk S → Option (ℕ × Disk S)
  unfolding zoned_write_common
  zoned_write buffer offset length k = do
    r ← zoned_write_common buffer offset length false k
    some (r.0, r.2)

  unfoldable pub zoned_append_zone : Buffer → ℕ → ℕ → Disk S → Option (ℕ × Option ℕ × Disk S)
  unfolding zoned_write_common
  zoned_append_zone buffer offset length k = zoned_write_common buffer offset length true k

  -- The raw discard of a zone that was reset; else the status of `out_unlock`.
  unfoldable pub discard_zone : Option ℕ → BlkZone → Device → S → ℕ × Disk S
  discard_zone (some status) z d s = (status, record { device = d; raw = s })
  discard_zone none z d s =
      let r = ops.raw_discard s (u64 (z.start * sector_size)) (u64 (z.len * sector_size)) in
      (r.0, record { device = d; raw = r.1 })

  unfoldable pub zoned_reset_zone : ℕ → Disk S → Option (ℕ × Disk S)
  unfolding discard_zone
  zoned_reset_zone offset k = do
    r ← reset_locked c offset k.device
    some (discard_zone r.0 r.1 r.2 k.raw)

  unfoldable pub zoned_reset_all_zone : Disk S → Option (ℕ × Disk S)
  zoned_reset_all_zone k = do
    d ← initialize_zone_info c k.device
    let r = ops.raw_discard k.raw 0 c.zoned_disk_size
    some (r.0, record { device = d; raw = r.1 })
