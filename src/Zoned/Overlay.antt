-- ===== src/Zoned/Overlay.antt =====
-- examples/zoned-ramdisk.c: what `memcpy` does, and what a read of the disk returns.
use bius.Base.{
  ◌≡◌, ℕ, if◌then◌else◌, ◌<◌, ltb, ◌⊎◌, ◌+◌, ◌||◌, leb, ◌≤◌, ◌-◌, arith, suc, ==-cases, inl, inr,
  ap, ◌∙◌, refl, ltb-cases, leb-cases, false, le→ltb, Ensures, get_elem?_total,
}
use bius.Zoned.Ramdisk.{Memory, memcpy, ramdisk, ramdisk_read}
use Prim.Native.Nat.{zero}
use bius.Zoned.{Config, num_zones, zone_number}
use bius.Zoned.Counters.{IsSound}
use bius.Status.{blk_sts_ok}
use bius.Zoned.Disk.{zoned_read, Buffer, Disk}

-- The bytes of `target` with `n` bytes of `source` laid over them from `to` on.
abbrev pub overlay : ℕ → (ℕ → ℕ) → (ℕ → ℕ) → ℕ → ℕ → ℕ
overlay n source target to a = if ltb a to || leb (to + n) a then target a else source (a - to)

pub memcpy_lem :
    (n : ℕ) (source : ℕ → ℕ) (from : ℕ) (target : ℕ → ℕ) (to a : ℕ)
    → ((a < to) ⊎ (to + n ≤ a) → memcpy n source from target to a ≡ target a)
      × (to ≤ a → a < to + n → memcpy n source from target to a ≡ source (from + (a - to)))
unfolding memcpy
memcpy_lem zero source from target to a = (λ h. refl, λ h k. absurd (omega arith))
memcpy_lem (suc n) source from target to a =
    let ih = memcpy_lem n source (from + 1) target (to + 1) a in
    elim (==-cases a to) [
      | inl (t, e) ↦ rw t (
        λ h. elim h [ inl l ↦ absurd (omega arith) | inr r ↦ absurd (omega arith) ],
        λ h k. ap source (omega arith),
      )
      | inr (t, e) ↦ rw t (
        λ h. ih.0 (elim h [ inl l ↦ inl (omega arith) | inr r ↦ inr (omega arith) ]),
        λ h k. ih.1 (omega arith) (omega arith) ∙ ap source (omega arith),
      )
    ]

pub overlay_lem :
    (n : ℕ) (source target : ℕ → ℕ) (to a : ℕ)
    → memcpy n source 0 target to a ≡ overlay n source target to a
overlay_lem n source target to a = elim (ltb-cases a to) [
  | inl (t, h) ↦ rw t ((memcpy_lem n source 0 target to a).0 (inl h))
  | inr (t, h) ↦ elim (leb-cases (to + n) a) [
    | inl (u, k) ↦ rw (t, u) ((memcpy_lem n source 0 target to a).0 (inr k))
    | inr (u, k) ↦ rw (t, u) ((memcpy_lem n source 0 target to a).1 h k ∙ ap source (omega arith))
  ]
]

-- `zoned_read` of bytes of the ramdisk returns them.
abbrev pub Reads : ℕ → (ℕ → ℕ) → ℕ → ℕ → ℕ × Buffer × Disk Memory → Type 0
Reads size bytes offset length x =
    (x.0 ≡ blk_sts_ok)
    × (x.2.raw.fault ≡ false)
    × ((i : ℕ) → i < length → x.1 i ≡ bytes (offset + i))

pub zoned_read-Reads :
    (c : Config) (other : Buffer) (offset length : ℕ) (k : Disk Memory)
    → IsSound c k.device
    → k.raw.fault ≡ false
    → zone_number c offset < num_zones c
    → offset + length ≤ c.zoned_disk_size
    → Ensures
        (Reads c.zoned_disk_size k.raw.in_memory_data offset length)
        (zoned_read c (ramdisk c.zoned_disk_size) other offset length k)
unfolding zoned_read ramdisk ramdisk_read
zoned_read-Reads c other offset length k s f h r =
    let (cell, e) =
      get_elem?_total k.device.stats (zone_number c offset) (omega (arith, s.counted)) in
    rw e (
      refl,
      rw (f, le→ltb _ _ r) refl,
      λ i l.
          (memcpy_lem length k.raw.in_memory_data offset other 0 i).1 (omega arith) (omega arith)
          ∙ ap k.raw.in_memory_data (omega arith),
    )
