-- ===== src/Status.antt =====
-- include/bius/blk_status.h: the results that a block command can have, and `SECTOR_SIZE` of
-- include/libbius.h. A `blk_status_t` is a number, as in the source.
use bius.Base.{ℕ}

abbrev pub blk_sts_ok : ℕ
blk_sts_ok = 0

abbrev pub blk_sts_notsupp : ℕ
blk_sts_notsupp = 1

abbrev pub blk_sts_ioerr : ℕ
blk_sts_ioerr = 10

abbrev pub blk_sts_zone_open_resource : ℕ
blk_sts_zone_open_resource = 15

abbrev pub blk_sts_zone_active_resource : ℕ
blk_sts_zone_active_resource = 16

abbrev pub sector_size : ℕ
sector_size = 512
