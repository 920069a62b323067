-- ===== src/Zoned/Ramdisk.antt =====
-- examples/zoned-ramdisk.c: the raw device of the zoned disk that is a memory, and the memory
-- functions that it calls. The array has `size` bytes; an access past its end is a fault, which the
-- state records.
use bius.Base.{ℕ, Bool, ◌+◌, ◌||◌, if◌then◌else◌, ltb, ◌==◌}
use bius.Status.{blk_sts_ok}
use bius.Zoned.Disk.{Buffer, RawDevice}
use Prim.Native.Nat.{zero, ℕ, suc}

pub record Memory : Type 0 where
  pub in_memory_data : ℕ → ℕ
  pub fault : Bool

-- `memcpy` of `n` bytes, from `source` at `from` to `target` at `to`.
unfoldable pub memcpy : ℕ → (ℕ → ℕ) → ℕ → (ℕ → ℕ) → ℕ → ℕ → ℕ
memcpy zero source from target to a = target a
memcpy (suc n) source from target to a =
    let rest : ℕ = memcpy n source (from + 1) target (to + 1) a in
    if a == to then source from else rest

unfoldable pub memset_zero : ℕ → (ℕ → ℕ) → ℕ → ℕ → ℕ
memset_zero zero target to a = target a
memset_zero (suc n) target to a =
    let rest : ℕ = memset_zero n target (to + 1) a in if a == to then 0 else rest

module _ (size : ℕ) where
  abbrev pub checked : Memory → ℕ → ℕ → Bool
  checked m offset length = m.fault || ltb size (offset + length)

  unfoldable pub ramdisk_read : Memory → Buffer → ℕ → ℕ → ℕ × Buffer × Memory
  unfolding memcpy
  ramdisk_read m buffer offset length = (
    blk_sts_ok,
    memcpy length m.in_memory_data offset buffer 0,
    record m { fault = checked m offset length },
  )

  unfoldable pub ramdisk_write : Memory → Buffer → ℕ → ℕ → ℕ × Memory
  unfolding memcpy
  ramdisk_write m buffer offset length = (
    blk_sts_ok,
    record {
      in_memory_data = memcpy length buffer 0 m.in_memory_data offset;
      fault = checked m offset length;
    },
  )

  unfoldable pub ramdisk_discard : Memory → ℕ → ℕ → ℕ × Memory
  unfolding memset_zero
  ramdisk_discard m offset length = (
    blk_sts_ok,
    record {
      in_memory_data = memset_zero length m.in_memory_data offset;
      fault = checked m offset length;
    },
  )

  unfoldable pub ramdisk : RawDevice Memory
  unfolding ramdisk_read ramdisk_write ramdisk_discard
  ramdisk = record {
    raw_read = ramdisk_read;
    raw_write = ramdisk_write;
    raw_discard = ramdisk_discard;
  }
