-- ===== src/Zoned/Placed.antt =====
-- The zoned commands move no zone, and keep every write pointer inside its zone.
use bius.Zoned.Bounds.{IsValid, IsPlaced}
use bius.Zoned.{Config, ℕ, BlkZone, num_zones}
use bius.Base.{ℕ, ◌<◌, ◌+◌, ◌≤◌, ◌^◌, arith}

-- The end of a zone fits in 64 bits.
pub end_fits :
    (c : Config) (i : ℕ) (z : BlkZone)
    → IsValid c
    → i < num_zones c
    → IsPlaced c i z
    → z.start + z.len ≤ 2 ^ 31
end_fits c i z v h p = grind (arith, v.fits, p.start_at, p.whole)
