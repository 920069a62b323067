-- ===== src/Passthrough/Refines.antt =====
-- examples/passthrough.c: over a target whose calls transfer what they are asked for, if in pieces, or
-- fail, the operations do what those of the ramdisk do, or report the failure of a call.
use bius.Base.{
  ◌≡◌, ℕ, ◌<◌, ◌-◌, ◌+◌, ◌≤◌, pos, negsuc, ◌⊎◌, Ensures, suc, arith, ◌∙◌, refl, ltb-cases, inl, inr,
  ap, Ensures-mono, sym,
}
use bius.Status.{blk_sts_ok, blk_sts_ioerr}
use bius.Zoned.Disk.{Buffer}
use bius.Zoned.Overlay.{overlay, memcpy_lem, overlay_lem}
use bius.Passthrough.{
  Target, read_loop, write_loop, passthrough_read, passthrough_write, read_turn, write_turn, memcpy,
}
use Prim.Native.Nat.{zero}
use bius.Zoned.Ramdisk.{memcpy, Memory, ramdisk_read, ramdisk_write}

-- What is said of the reads and writes of a part of a target of `size` bytes that stays that large:
-- a call that asks for some bytes transfers at least one of them and at most all, from the offset on,
-- and changes no other, or it fails with a negative result. A read never changes the target; a write
-- that fails may leave anything in the bytes that it was asked for, and leaves all others.
pub record Transfers {F : Type 0} (target : Target F) (size : ℕ) (bytes : F → ℕ → ℕ) : Type 0 where
  pub reads :
      (n offset : ℕ) (f : F)
      → 0 < n
      → offset + n ≤ size
      → ((e : ℕ) × ((target.pread n offset f).0 ≡ negsuc e))
        ⊎ ((m : ℕ) × ((target.pread n offset f).0 ≡ pos (suc m))
            × (suc m ≤ n)
            × ((i : ℕ) → i < suc m → (target.pread n offset f).1 i ≡ bytes f (offset + i)))
  pub keeps : (n offset : ℕ) (f : F) (a : ℕ) → bytes (target.pread n offset f).2 a ≡ bytes f a
  pub writes :
      (source : Buffer) (n offset : ℕ) (f : F)
      → 0 < n
      → offset + n ≤ size
      → ((e : ℕ) × ((target.pwrite source n offset f).0 ≡ negsuc e)
          × ((a : ℕ)
              → (a < offset) ⊎ (offset + n ≤ a)
              → bytes (target.pwrite source n offset f).1 a ≡ bytes f a))
        ⊎ ((m : ℕ) × ((target.pwrite source n offset f).0 ≡ pos (suc m))
            × (suc m ≤ n)
            × ((a : ℕ)
                → bytes (target.pwrite source n offset f).1 a
                  ≡ overlay (suc m) source (bytes f) offset a))

module _ {F : Type 0} (target : Target F) (size : ℕ) (bytes : F → ℕ → ℕ)
    (t : Transfers target size bytes) where
  -- The buffer has the bytes of `g`, and the target still has them.
  abbrev pub HasRead : F → ℕ → ℕ → ℕ × Buffer × F → Type 0
  HasRead g offset length x =
      (x.0 ≡ blk_sts_ok)
      × ((i : ℕ) → i < length → x.1 i ≡ bytes g (offset + i))
      × ((a : ℕ) → bytes x.2 a ≡ bytes g a)

  -- A read that failed: the call for what was left after `done` bytes did, and the operation says so.
  abbrev pub ReadFailed : F → ℕ → ℕ → ℕ × Buffer × F → Type 0
  ReadFailed g offset length x =
      (x.0 ≡ blk_sts_ioerr)
      × ((a : ℕ) → bytes x.2 a ≡ bytes g a)
      × ((done : ℕ) × (f : F) × (e : ℕ) × (done < length)
          × ((a : ℕ) → bytes f a ≡ bytes g a)
          × ((target.pread (length - done) (offset + done) f).0 ≡ negsuc e))

  -- A write that failed, whose first `done` bytes were written.
  abbrev pub WriteFailed : F → Buffer → ℕ → ℕ → ℕ × F → Type 0
  WriteFailed g source offset length x =
      (x.0 ≡ blk_sts_ioerr)
      × ((a : ℕ) → (a < offset) ⊎ (offset + length ≤ a) → bytes x.1 a ≡ bytes g a)
      × ((done : ℕ) × (f : F) × (e : ℕ) × (done < length)
          × ((a : ℕ) → bytes f a ≡ overlay done source (bytes g) offset a)
          × ((target.pwrite (λ i. source (done + i)) (length - done) (offset + done) f).0
              ≡ negsuc e))

  abbrev pub ReadEnds : F → ℕ → ℕ → ℕ × Buffer × F → Type 0
  ReadEnds g offset length x = HasRead g offset length x ⊎ ReadFailed g offset length x

  -- One more piece in the buffer.
  filled :
      (m offset done : ℕ) (piece buffer : Buffer) (f g : F)
      → ((i : ℕ) → i < suc m → piece i ≡ bytes f (offset + done + i))
      → ((i : ℕ) → i < done → buffer i ≡ bytes g (offset + i))
      → ((a : ℕ) → bytes f a ≡ bytes g a)
      → (i : ℕ) → i < done + suc m
      → memcpy (suc m) piece 0 buffer done i ≡ bytes g (offset + i)
  filled m offset done piece buffer f g p b s i h =
      let copy = memcpy_lem (suc m) piece 0 buffer done i in
      elim (ltb-cases i done) [
        | inl (u, lt) ↦ copy.0 (inl lt) ∙ b i lt
        | inr (u, le) ↦
            copy.1 le h ∙ p (0 + (i - done)) (omega arith) ∙ s _ ∙ ap (bytes g) (omega arith)
      ]

  read_loop-ReadEnds :
      (fuel offset length done : ℕ) (buffer : Buffer) (f g : F)
      → done < length
      → length - done < fuel
      → offset + length ≤ size
      → ((i : ℕ) → i < done → buffer i ≡ bytes g (offset + i))
      → ((a : ℕ) → bytes f a ≡ bytes g a)
      → Ensures (ReadEnds g offset length) (read_loop target fuel offset length done buffer f)
  unfolding read_loop read_turn
  read_loop-ReadEnds zero offset length done buffer f g h k l b s = absurd (omega arith)
  read_loop-ReadEnds (suc fuel) offset length done buffer f g h k l b s =
      let same = λ (a : ℕ). t.keeps (length - done) (offset + done) f a ∙ s a in
      elim (t.reads (length - done) (offset + done) f (omega arith) (omega arith)) [
        | inl (e, failed) ↦ rw failed (inr (refl, same, (done, f, e, h, s, failed)))
        | inr (m, e, le, got) ↦
            let full = filled m offset done _ buffer f g got b s in
            rw e (elim (ltb-cases (done + suc m) length) [
              | inl (u, lt) ↦ rw u (
                  read_loop-ReadEnds fuel offset length (done + suc m) _ _ g lt (omega arith) l full
                    same)
              | inr (u, ge) ↦ rw u (inl (refl, λ i q. full i (omega arith), same))
            ])
      ]

  -- A read of some bytes of the target ends, however small the pieces are: with the target's bytes in
  -- the buffer, or with the failure of a call; it changes none of them.
  pub passthrough_read-ReadEnds :
      (buffer : Buffer) (offset length : ℕ) (f : F)
      → 0 < length
      → offset + length ≤ size
      → Ensures (ReadEnds f offset length) (passthrough_read target buffer offset length f)
  unfolding passthrough_read
  passthrough_read-ReadEnds buffer offset length f h l =
      read_loop-ReadEnds (suc length) offset length 0 buffer f f h (omega arith) l
        (λ i q. absurd (omega arith)) (λ a. refl)

  -- The target has the bytes of `g` with those of `source` laid over them.
  abbrev pub HasWritten : F → Buffer → ℕ → ℕ → ℕ × F → Type 0
  HasWritten g source offset length x =
      (x.0 ≡ blk_sts_ok) × ((a : ℕ) → bytes x.1 a ≡ overlay length source (bytes g) offset a)

  abbrev pub WriteEnds : F → Buffer → ℕ → ℕ → ℕ × F → Type 0
  WriteEnds g source offset length x =
      HasWritten g source offset length x ⊎ WriteFailed g source offset length x

  -- Bytes outside of what is laid over others are those.
  overlay_outside :
      (n : ℕ) (source : Buffer) (x : ℕ → ℕ) (to length a : ℕ)
      → n ≤ length
      → (a < to) ⊎ (to + length ≤ a)
      → overlay n source x to a ≡ x a
  overlay_outside n source x to length a h o = ground arith

  -- Two pieces laid over side by side are one.
  overlay_two :
      (n m offset a : ℕ) (source : Buffer) (f h g : F)
      → ((a : ℕ) → bytes f a ≡ overlay n source (bytes g) offset a)
      → ((a : ℕ) → bytes h a ≡ overlay m (λ i. source (n + i)) (bytes f) (offset + n) a)
      → bytes h a ≡ overlay (n + m) source (bytes g) offset a
  overlay_two n m offset a source f h g p q = ground (arith, p a, q a)

  write_loop-WriteEnds :
      (fuel offset length done : ℕ) (source : Buffer) (f g : F)
      → done < length
      → length - done < fuel
      → offset + length ≤ size
      → ((a : ℕ) → bytes f a ≡ overlay done source (bytes g) offset a)
      → Ensures
          (WriteEnds g source offset length)
          (write_loop target fuel source offset length done f)
  unfolding write_loop write_turn
  write_loop-WriteEnds zero offset length done source f g h k l s = absurd (omega arith)
  write_loop-WriteEnds (suc fuel) offset length done source f g h k l s =
      elim (t.writes (λ i. source (done + i)) (length - done) (offset + done) f (omega arith)
        (omega arith)) [
          | inl (e, failed, kept) ↦ rw failed (
              inr (
                refl,
                λ a o.
                    kept a (elim o [ inl x ↦ inl (omega arith) | inr x ↦ inr (omega arith) ])
                    ∙ s a
                    ∙ overlay_outside done source (bytes g) offset length a (omega arith) o,
                (done, f, e, h, s, failed),
              ))
          | inr (m, e, le, put) ↦
              let both = λ (a : ℕ). overlay_two done (suc m) offset a source f _ g s put in
              rw e (elim (ltb-cases (done + suc m) length) [
                | inl (u, lt) ↦ rw u (
                    write_loop-WriteEnds fuel offset length (done + suc m) source _ g lt
                      (omega arith) l both)
                | inr (u, ge) ↦ rw u (
                    inl (
                      refl,
                      λ a. both a ∙ ap (λ n. overlay n source (bytes g) offset a) (omega arith),
                    ))
              ])
        ]

  -- A write of some bytes inside the target ends, however small the pieces are: the target then has
  -- the caller's bytes there, or a call failed; all others are as before.
  pub passthrough_write-WriteEnds :
      (source : Buffer) (offset length : ℕ) (f : F)
      → 0 < length
      → offset + length ≤ size
      → Ensures (WriteEnds f source offset length) (passthrough_write target source offset length f)
  unfolding passthrough_write
  passthrough_write-WriteEnds source offset length f h l =
      write_loop-WriteEnds (suc length) offset length 0 source f f h (omega arith) l
        (λ a. ground arith)

  overlay-target :
      (n : ℕ) (source : Buffer) (x y : ℕ → ℕ) (to a : ℕ)
      → x a ≡ y a
      → overlay n source x to a ≡ overlay n source y to a
  overlay-target n source x y to a h = ground arith

  -- The memory of the ramdisk has the bytes of the target.
  abbrev pub Represents : Memory → F → Type 0
  Represents m f = (a : ℕ) → m.in_memory_data a ≡ bytes f a

  -- What a read and a write have done where no call failed: what those of the ramdisk `m` do.
  abbrev pub ReadsAs : Memory → Buffer → ℕ → ℕ → ℕ × Buffer × F → Type 0
  ReadsAs m buffer offset length x =
      (x.0 ≡ (ramdisk_read size m buffer offset length).0)
      × ((i : ℕ) → i < length → x.1 i ≡ (ramdisk_read size m buffer offset length).1 i)
      × Represents (ramdisk_read size m buffer offset length).2 x.2

  abbrev pub WritesAs : Memory → Buffer → ℕ → ℕ → ℕ × F → Type 0
  WritesAs m buffer offset length x =
      (x.0 ≡ (ramdisk_write size m buffer offset length).0)
      × Represents (ramdisk_write size m buffer offset length).1 x.1

  -- Where the ramdisk's memory has the bytes of the target, a read and a write of some bytes inside
  -- the target end, however small the pieces are that its calls transfer. Either they end with the
  -- status of the ramdisk's, the read with the same bytes in the part of the buffer that was asked for,
  -- and each leaves a memory that has the bytes of the target; or the call
  -- on the target for what was left has failed, and they end with BLK_STS_IOERR, the read with the
  -- target's bytes as before, the write with those outside of the part that was asked for as before.
  pub passthrough-Refines :
      (buffer : Buffer) (offset length : ℕ) (m : Memory) (f : F)
      → 0 < length
      → offset + length ≤ size
      → Represents m f
      → Ensures
          (λ x. ReadsAs m buffer offset length x ⊎ ReadFailed f offset length x)
          (passthrough_read target buffer offset length f)
        × Ensures
            (λ x. WritesAs m buffer offset length x ⊎ WriteFailed f buffer offset length x)
            (passthrough_write target buffer offset length f)
  unfolding ramdisk_read ramdisk_write
  passthrough-Refines buffer offset length m f h l r = (
    Ensures-mono (ReadEnds f offset length) _ (passthrough_read target buffer offset length f)
        (λ x q. elim q [
          | inl w ↦ inl (
            w.0,
            λ i p.
                w.1 i p
                ∙ sym (
                    (memcpy_lem length m.in_memory_data offset buffer 0 i).1 (omega arith)
                      (omega arith)
                    ∙ ap m.in_memory_data (omega arith)
                    ∙ r (offset + i)),
            λ a. r a ∙ sym (w.2 a),
          )
          | inr w ↦ inr w
        ])
        (passthrough_read-ReadEnds buffer offset length f h l),
    Ensures-mono (WriteEnds f buffer offset length) _
        (passthrough_write target buffer offset length f)
        (λ x q. elim q [
          | inl w ↦ inl (
            w.0,
            λ a.
                overlay_lem length buffer m.in_memory_data offset a
                ∙ overlay-target length buffer m.in_memory_data (bytes f) offset a (r a)
                ∙ sym (w.1 a),
          )
          | inr w ↦ inr w
        ])
        (passthrough_write-WriteEnds buffer offset length f h l),
  )
