-- ===== src/Zoned/Init.antt =====
-- examples/zoned-common.h: `initialize_zone_info` and the state that `initialize` leaves. The two
-- loops write the cells 0, 1, … in order, so the list is built in that order. `none` is undefined
-- behaviour: a write past the end of `zone_info`, or a product `ZONE_SIZE / SECTOR_SIZE * i` that
-- an `int` cannot hold.
use bius.Base.{
  ℕ, zero, suc, ◌+◌, ◌*◌, ◌/◌, ◌^◌, List, [], ◌∷◌, Option, none, some, ltb, ◌>>=◌, if◌then◌else◌,
}
use bius.Status.{sector_size}
use bius.Zoned.{
  Config, Device, BlkZone, ZoneStat, conventional, seqwrite_req, not_wp, empty, num_zones,
}

-- `ZONE_SIZE / SECTOR_SIZE * i`, computed as an `int`.
unfoldable pub zone_start : Config → ℕ → Option ℕ
zone_start c i =
    let s : ℕ = c.zone_size / sector_size * i in if ltb s (2 ^ 31) then some s else none

-- The body of both loops, for the zone `i`.
unfoldable pub initial_zone : Config → ℕ → Option BlkZone
unfolding zone_start
initial_zone c i = do
  s ← zone_start c i
  some (record {
    start = s;
    len = c.zone_size / sector_size;
    wp = s;
    kind = if ltb i c.num_conventional_zones then conventional else seqwrite_req;
    cond = if ltb i c.num_conventional_zones then not_wp else empty;
    capacity = c.zone_size / sector_size;
  })

unfoldable pub initial_zones : Config → ℕ → ℕ → Option (List BlkZone)
initial_zones c zero i = some []
initial_zones c (suc n) i = do z ← initial_zone c i; zs ← initial_zones c n (i + 1); some (z ∷ zs)

unfoldable pub initialize_zone_info : Config → Device → Option Device
unfolding initial_zones initial_zone
initialize_zone_info c d = if ltb (num_zones c) c.num_conventional_zones then none else (do
  zs ← initial_zones c (num_zones c) 0
  some (record d {
    zone_info = zs;
    num_open_zones = 0;
    num_imp_open_zones = 0;
    num_active_zones = 0;
  }))

unfoldable pub clear_stats : ℕ → List ZoneStat
clear_stats zero = []
clear_stats (suc n) =
    record { written = 0; read = 0; reset_count = 0; discard_count = 0 } ∷ clear_stats n

-- What the allocations of `initialize` and the clearing of `stats` leave.
abbrev pub allocated : Config → Device
allocated c = record {
  zone_info = [];
  stats = clear_stats (num_zones c);
  num_open_zones = 0;
  num_imp_open_zones = 0;
  num_active_zones = 0;
}

-- The part of `initialize` that sets the disk up.
unfoldable pub initialize : Config → Option Device
unfolding initialize_zone_info clear_stats
initialize c = initialize_zone_info c (allocated c)
