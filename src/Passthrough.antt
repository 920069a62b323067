-- ===== src/Passthrough.antt =====
-- examples/passthrough.c and examples/zoned-passthrough.c, which have the same operations: commands
-- on a file or a block device. `F` is the state of the target; its system calls are parameters.
pub mod Refines
mod Tests
use bius.Base.{ℕ, ◌+◌, ◌-◌, ℤ, pos, negsuc, Option, none, some, ltb, if◌then◌else◌, suc, zero}
use bius.Status.{blk_sts_ok, blk_sts_ioerr}
use bius.Zoned.Disk.{Buffer}
use bius.Zoned.Ramdisk.{memcpy}

-- The calls that the program makes on `target_fd`. `pread n offset` returns the result and the bytes
-- that it stores, `pwrite source n offset` takes the bytes from the start of `source`.
pub record Target (F : Type 0) : Type 0 where
  pub pread : ℕ → ℕ → F → ℤ × Buffer × F
  pub pwrite : Buffer → ℕ → ℕ → F → ℤ × F
  pub ioctl_discard : ℕ → ℕ → F → ℤ × F
  pub fsync : F → ℤ × F

module _ {F : Type 0} (target : Target F) where
  -- The rest of a turn after a `pread` that returned `result`; `next` is the loop from the new
  -- `read_size` on.
  unfoldable pub read_turn :
      ℤ
      → ℕ
      → Buffer
      → Buffer
      → ℕ
      → F
      → (ℕ → Buffer → F → Option (ℕ × Buffer × F))
      → Option (ℕ × Buffer × F)
  unfolding memcpy
  read_turn (negsuc e) read_size bytes buffer length f next = some (blk_sts_ioerr, buffer, f)
  read_turn (pos zero) read_size bytes buffer length f next = some (blk_sts_ioerr, buffer, f)
  read_turn (pos (suc n)) read_size bytes buffer length f next =
      let size : ℕ = read_size + suc n in
      let buffer' : Buffer = memcpy (suc n) bytes 0 buffer read_size in
      let again = next size buffer' f in
      if ltb size length then again else some (blk_sts_ok, buffer', f)

  -- The loop, which tests its condition after the body. `none` is fuel that ran out.
  unfoldable pub read_loop : ℕ → ℕ → ℕ → ℕ → Buffer → F → Option (ℕ × Buffer × F)
  unfolding read_turn
  read_loop zero offset length read_size buffer f = none
  read_loop (suc fuel) offset length read_size buffer f =
      let r = target.pread (length - read_size) (offset + read_size) f in
      read_turn r.0 read_size r.1 buffer length r.2 (read_loop fuel offset length)

  -- The status, the caller's buffer, and the target. The fuel is one more than the bytes.
  unfoldable pub passthrough_read : Buffer → ℕ → ℕ → F → Option (ℕ × Buffer × F)
  unfolding read_loop
  passthrough_read buffer offset length f = read_loop (suc length) offset length 0 buffer f

  unfoldable pub write_turn : ℤ → ℕ → ℕ → F → (ℕ → F → Option (ℕ × F)) → Option (ℕ × F)
  write_turn (negsuc e) written_size length f next = some (blk_sts_ioerr, f)
  write_turn (pos zero) written_size length f next = some (blk_sts_ioerr, f)
  write_turn (pos (suc n)) written_size length f next =
      let size : ℕ = written_size + suc n in
      let again = next size f in if ltb size length then again else some (blk_sts_ok, f)

  unfoldable pub write_loop : ℕ → Buffer → ℕ → ℕ → ℕ → F → Option (ℕ × F)
  unfolding write_turn
  write_loop zero buffer offset length written_size f = none
  write_loop (suc fuel) buffer offset length written_size f =
      let r =
        target.pwrite (λ i. buffer (written_size + i)) (length - written_size)
          (offset + written_size) f in
      write_turn r.0 written_size length r.1 (write_loop fuel buffer offset length)

  unfoldable pub passthrough_write : Buffer → ℕ → ℕ → F → Option (ℕ × F)
  unfolding write_loop
  passthrough_write buffer offset length f = write_loop (suc length) buffer offset length 0 f

  -- The status of a call whose result is negative on failure.
  abbrev pub checked_call : ℤ × F → ℕ × F
  checked_call (negsuc e, f) = (blk_sts_ioerr, f)
  checked_call (pos n, f) = (blk_sts_ok, f)

  unfoldable pub passthrough_discard : ℕ → ℕ → F → ℕ × F
  passthrough_discard offset length f = checked_call (target.ioctl_discard offset length f)

  unfoldable pub passthrough_flush : F → ℕ × F
  passthrough_flush f = checked_call (target.fsync f)
