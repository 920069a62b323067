-- ===== src/Passthrough/Tests.antt =====
-- Runs of the passthrough operations, over a target that transfers one byte at a time.
use bius.Base.{
  ℤ, negsuc, if◌then◌else◌, ◌==◌, ==-cases, inl, inr, ◌⊎◌, ◌>>=◌, some, ◌≡◌, Ensures, ℕ, false, ◌<◌,
  ◌*◌, pos, suc, ◌+◌, arith, ◌≤◌, refl,
}
use bius.Zoned.Overlay.{overlay}
use bius.Zoned.Ramdisk.{Memory}
use bius.Passthrough.{Target, passthrough_read, passthrough_write}
use bius.Passthrough.Refines.{
  Transfers, ReadsAs, ReadFailed, WritesAs, WriteFailed, passthrough-Refines,
}
use bius.Status.{blk_sts_ioerr}
use Prim.Native.Nat.{zero}

abbrev one_at_most : ℕ → ℕ
one_at_most zero = 0
one_at_most (suc n) = 1

-- A read of the byte 13 fails, and so does a write from there on.
abbrev fails_at : ℕ → ℤ → ℤ
fails_at offset r = if offset == 13 then negsuc 4 else r

abbrev bytewise : Target (ℕ → ℕ)
bytewise = record {
  pread = λ n offset f. (fails_at offset (pos (one_at_most n)), λ i. f (offset + i), f);
  pwrite = λ source n offset f. (
    fails_at offset (pos (one_at_most n)),
    λ a. overlay (if offset == 13 then 0 else one_at_most n) source f offset a,
  );
  ioctl_discard = λ offset n f. (pos 0, f);
  fsync = λ f. (pos 0, f);
}

none_laid : (source f : ℕ → ℕ) (to a : ℕ) → overlay 0 source f to a ≡ f a
none_laid source f to a = ground arith

bytewise_lem : Transfers bytewise 100 (λ f. f)
bytewise_lem = record { reads = reads_lem; keeps = λ n offset f a. refl; writes = writes_lem }
  where
    reads_lem :
        (n offset : ℕ) (f : ℕ → ℕ)
        → 0 < n
        → offset + n ≤ 100
        → ((e : ℕ) × ((bytewise.pread n offset f).0 ≡ negsuc e))
          ⊎ ((m : ℕ) × ((bytewise.pread n offset f).0 ≡ pos (suc m))
              × (suc m ≤ n)
              × ((i : ℕ) → i < suc m → (bytewise.pread n offset f).1 i ≡ f (offset + i)))
    reads_lem zero offset f h l = absurd (omega arith)
    reads_lem (suc n) offset f h l = elim (==-cases offset 13) [
      | inl (t, e) ↦ inl (4, rw t refl)
      | inr (t, e) ↦ inr (0, rw t refl, omega arith, λ i q. refl)
    ]

    writes_lem :
        (source : ℕ → ℕ) (n offset : ℕ) (f : ℕ → ℕ)
        → 0 < n
        → offset + n ≤ 100
        → ((e : ℕ) × ((bytewise.pwrite source n offset f).0 ≡ negsuc e)
            × ((a : ℕ)
                → (a < offset) ⊎ (offset + n ≤ a)
                → (bytewise.pwrite source n offset f).1 a ≡ f a))
          ⊎ ((m : ℕ) × ((bytewise.pwrite source n offset f).0 ≡ pos (suc m))
              × (suc m ≤ n)
              × ((a : ℕ)
                  → (bytewise.pwrite source n offset f).1 a ≡ overlay (suc m) source f offset a))
    writes_lem source zero offset f h l = absurd (omega arith)
    writes_lem source (suc n) offset f h l = elim (==-cases offset 13) [
      | inl (t, e) ↦ inl (4, rw t refl, λ a o. rw t (none_laid source f offset a))
      | inr (t, e) ↦ inr (0, rw t refl, omega arith, λ a. rw t refl)
    ]

abbrev ramp : ℕ → ℕ
ramp a = a * 3

abbrev ramp_memory : Memory
ramp_memory = record { in_memory_data = ramp; fault = false }

passthrough-Refines_example :
    Ensures
      (λ x.
        ReadsAs bytewise 100 (λ f. f) bytewise_lem ramp_memory (λ a. 7) 10 3 x
        ⊎ ReadFailed bytewise 100 (λ f. f) bytewise_lem ramp 10 3 x)
      (passthrough_read bytewise (λ a. 7) 10 3 ramp)
    × Ensures
        (λ x.
          WritesAs bytewise 100 (λ f. f) bytewise_lem ramp_memory (λ a. 7) 10 3 x
          ⊎ WriteFailed bytewise 100 (λ f. f) bytewise_lem ramp (λ a. 7) 10 3 x)
        (passthrough_write bytewise (λ a. 7) 10 3 ramp)
passthrough-Refines_example =
    passthrough-Refines bytewise 100 (λ f. f) bytewise_lem (λ a. 7) 10 3 ramp_memory ramp
      (omega arith) (omega arith) (λ a. refl)

-- A read of one byte more comes to the call that fails.
passthrough_read_fails :
    (passthrough_read bytewise (λ a. 7) 10 4 ramp >>= λ x. some x.0) ≡ some blk_sts_ioerr
unfolding passthrough_read
passthrough_read_fails = refl
