-- ===== src/Zoned.antt =====
-- examples/zoned-common.h: the data of the emulated zoned disk. `zone_info` and `stats` are lists
-- indexed by zone number, the three counters are `unsigned int`, and the disk's parameters, which
-- the programs set before `initialize` and then leave alone, are a record of their own.
-- `struct blk_zone` and its enumerations come from linux/blkzoned.h: the fields and constants are
-- those that the source names.
pub mod Init
pub mod Open
pub mod Write
pub mod Manage
pub mod Disk
pub mod Counters
pub mod Leak
pub mod WriteSound
pub mod ManageSound
pub mod Bounds
pub mod Opening
pub mod Placed
pub mod Pointer
pub mod WriteSpec
pub mod WriteGood
pub mod ManageGood
pub mod History
pub mod Ramdisk
pub mod Overlay
pub mod Admitted
pub mod ReadBack
pub mod Locks
mod Tests
use bius.Base.{
  ℕ, ◌+◌, ◌*◌, ◌/◌, ◌≡◌, Bool, true, false, List, Option, u32, u64, dec32, set, get_elem?, length,
  sum_of,
}

pub data ZoneType : Type 0 where
  conventional seqwrite_req : ZoneType

pub data ZoneCond : Type 0 where
  not_wp empty imp_open exp_open closed full : ZoneCond

pub record BlkZone : Type 0 where
  pub start : ℕ
  pub len : ℕ
  pub wp : ℕ
  pub kind : ZoneType
  pub cond : ZoneCond
  pub capacity : ℕ

pub record ZoneStat : Type 0 where
  pub written : ℕ
  pub read : ℕ
  pub reset_count : ℕ
  pub discard_count : ℕ

-- `zone_size` also stands for the macro `ZONE_SIZE`, which both programs initialise it with.
pub record Config : Type 0 where
  pub zoned_disk_size : ℕ
  pub zone_size : ℕ
  pub num_conventional_zones : ℕ
  pub max_open_zones : ℕ
  pub max_active_zones : ℕ

pub record Device : Type 0 where
  pub zone_info : List BlkZone
  pub stats : List ZoneStat
  pub num_open_zones : ℕ
  pub num_imp_open_zones : ℕ
  pub num_active_zones : ℕ

abbrev pub num_zones : Config → ℕ
num_zones c = c.zoned_disk_size / c.zone_size

abbrev pub zone_number : Config → ℕ → ℕ
zone_number c offset = u32 (offset / c.zone_size)

-- zone_info[zone] = z, for a zone that has been read before.
abbrev pub put_zone : Device → ℕ → BlkZone → Device
put_zone d zone z = record d { zone_info = set d.zone_info zone z }

abbrev pub put_stat : Device → ℕ → ZoneStat → Device
put_stat d zone s = record d { stats = set d.stats zone s }

-- The counters that a zone in this condition takes part in; the cases of the switches that give
-- a zone back fall through in this order.
unfoldable pub release_resources : ZoneCond → Device → Device
release_resources imp_open d = record d {
  num_imp_open_zones = dec32 d.num_imp_open_zones;
  num_open_zones = dec32 d.num_open_zones;
  num_active_zones = dec32 d.num_active_zones;
}
release_resources exp_open d = record d {
  num_open_zones = dec32 d.num_open_zones;
  num_active_zones = dec32 d.num_active_zones;
}
release_resources closed d = record d { num_active_zones = dec32 d.num_active_zones }
release_resources empty d = d
release_resources full d = d
release_resources not_wp d = d
