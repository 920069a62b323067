-- ===== src/Zoned/ReadBack.antt =====
-- examples/zoned-ramdisk.c: what is appended to a zone is what is read back.
use bius.Zoned.Overlay.{overlay, overlay_lem, Reads, zoned_read-Reads}
use bius.Zoned.Admitted.{IsOpen, opens_cleanly, write_seq-Admitted}
use native.Mathlib.Nat.{mul-le-mul_left, mul-le-mul_right, div-mul-le_self}
use bius.Base.{
  ◌≡◌, ℕ, ◌<◌, ◌+◌, ◌≤◌, arith, suc, ◌∙◌, refl, ◌/◌, Option, ◌*◌, Allows, u64, false, le→ltb,
  get_elem?, some, Ensures, true, Ensures-bind, Ensures-mono, lt-length_of_get_elem?, Ensures-both,
  subst, sym,
}
use bius.Zoned.Ramdisk.{Memory, ramdisk, ramdisk_write}
use bius.Zoned.{Config, num_zones, BlkZone, Device, zone_number, seqwrite_req}
use bius.Status.{sector_size, blk_sts_ok}
use bius.Zoned.Write.{write_seq, admitted, Locked, write_locked, write_by_type}
use bius.Zoned.Disk.{zoned_read, Buffer, Disk, write_raw, zoned_append_zone, zoned_write_common}
use bius.Zoned.Bounds.{IsValid, IsGood}
use bius.Zoned.Placed.{end_fits}
use bius.Zoned.WriteGood.{write_locked-SeqWrite}

-- The disk has room for its zones.
in_disk :
    (c : Config) (i e : ℕ)
    → i < num_zones c
    → e ≤ (c.zone_size / sector_size * i + c.zone_size / sector_size) * sector_size
    → e ≤ c.zoned_disk_size
in_disk c i e h k =
    let sectors : ℕ = c.zone_size / sector_size in
    let more = mul-le-mul_left {m = suc i} {n = num_zones c} sectors (omega arith) in
    let whole =
      mul-le-mul_right {m = sectors * sector_size} {n = c.zone_size} (num_zones c) (omega arith) in
    grind (arith, more, whole, div-mul-le_self c.zoned_disk_size c.zone_size)

module _ (c : Config) (d : Device) (z : BlkZone) (offset length : ℕ) (buffer : Buffer) (m : Memory)
    (valid : IsValid c) (good : IsGood c d)
    (g : get_elem? d.zone_info (zone_number c offset) ≡ some z) (t : z.kind ≡ seqwrite_req)
    (o : IsOpen z.cond) (f : m.fault ≡ false)
    (fits : z.wp * sector_size + length ≤ (z.start + z.len) * sector_size) where
  -- The disk keeps its order, and its bytes are those from before with the buffer laid over them at
  -- the write pointer.
  abbrev Appended : ℕ × Option ℕ × Disk Memory → Type 0
  Appended r =
      (r.0 ≡ blk_sts_ok)
      × (r.1 ≡ some (z.wp * sector_size))
      × IsGood c r.2.device
      × (r.2.raw.fault ≡ false)
      × ((a : ℕ)
          → r.2.raw.in_memory_data a
            ≡ overlay length buffer m.in_memory_data (z.wp * sector_size) a)

  write_raw-Appended :
      (l : Locked)
      → IsGood c l.device
      → l.written_position ≡ some (z.wp * sector_size)
      → l.verdict ≡ admitted (z.wp * sector_size)
      → z.wp * sector_size + length ≤ c.zoned_disk_size
      → Appended (
          let r = write_raw c (ramdisk c.zoned_disk_size) l.verdict buffer length l.device m in
          (r.0, l.written_position, r.1))
  unfolding write_raw ramdisk ramdisk_write
  write_raw-Appended l q p v r =
      rw (v, p)
        (
          refl,
          refl,
          q,
          rw (f, le→ltb _ _ r) refl,
          λ a. overlay_lem length buffer m.in_memory_data (z.wp * sector_size) a,
        )

  read_after :
      (other : Buffer) (from n : ℕ)
      → zone_number c from < num_zones c
      → from + n ≤ c.zoned_disk_size
      → (r : ℕ × Option ℕ × Disk Memory) → Appended r
      → (r.0 ≡ blk_sts_ok)
        × (r.1 ≡ some (z.wp * sector_size))
        × (r.2.raw.fault ≡ false)
        × Ensures
            (Reads c.zoned_disk_size
              (overlay length buffer m.in_memory_data (z.wp * sector_size))
              from
              n)
            (zoned_read c (ramdisk c.zoned_disk_size) other from n r.2)
  read_after other from n h k r w = (
    w.0,
    w.1,
    w.3,
    Ensures-mono _ _ (zoned_read c (ramdisk c.zoned_disk_size) other from n r.2)
        (λ x y. (y.0, y.1, λ i e. y.2 i e ∙ w.4 (from + i)))
        (zoned_read-Reads c other from n r.2 w.2.sound w.3 h k),
  )

  write_locked-Admitted :
      Allows (λ l. l.verdict ≡ admitted (z.wp * sector_size)) (write_locked c offset length true d)
  unfolding write_locked write_by_type
  write_locked-Admitted =
      let inside : zone_number c offset < num_zones c =
        omega (
          arith,
          lt-length_of_get_elem? d.zone_info (zone_number c offset) z g,
          good.sound.zones,
        ) in
      let placed = good.placed (zone_number c offset) z g in
      let end = end_fits c (zone_number c offset) z valid inside placed in
      let exact : u64 (z.wp * sector_size) ≡ z.wp * sector_size =
        omega (arith, end, placed.wp_to) in
      rw g (
        subst
          (λ y.
            Allows (λ l. l.verdict ≡ admitted (z.wp * sector_size))
              (write_by_type y c (zone_number c offset) z offset length true d))
          (sym t)
          (subst
            (λ p.
              Allows (λ l. l.verdict ≡ admitted (z.wp * sector_size))
                (write_seq c (zone_number c offset) z p length (some p) d))
            (sym exact)
            (write_seq-Admitted c (zone_number c offset) z (z.wp * sector_size) length _ d
              (omega (arith, fits, placed.usable)) (omega (arith, end, placed.usable)) o)))

  -- On a valid configuration and a disk in order, an append of `length` bytes that fit into an open
  -- sequential zone succeeds, and reports the zone's write pointer. A read of any part of the disk
  -- after it succeeds, and returns the bytes that the disk had, with those of the append laid over
  -- them at the position that was reported. No access goes past the end of the array, if none did
  -- before.
  pub append-read_back :
      (other : Buffer) (from n : ℕ)
      → zone_number c from < num_zones c
      → from + n ≤ c.zoned_disk_size
      → Ensures
          (λ r.
            (r.0 ≡ blk_sts_ok)
            × (r.1 ≡ some (z.wp * sector_size))
            × (r.2.raw.fault ≡ false)
            × Ensures
                (Reads c.zoned_disk_size
                  (overlay length buffer m.in_memory_data (z.wp * sector_size))
                  from
                  n)
                (zoned_read c (ramdisk c.zoned_disk_size) other from n r.2))
          (zoned_append_zone c
            (ramdisk c.zoned_disk_size)
            buffer
            offset
            length
            (record { device = d; raw = m }))
  unfolding zoned_append_zone zoned_write_common
  append-read_back other from n h r =
      let inside : zone_number c offset < num_zones c =
        omega (
          arith,
          lt-length_of_get_elem? d.zone_info (zone_number c offset) z g,
          good.sound.zones,
        ) in
      let placed = good.placed (zone_number c offset) z g in
      let end = end_fits c (zone_number c offset) z valid inside placed in
      let room : z.wp * sector_size + length ≤ c.zoned_disk_size =
        in_disk c (zone_number c offset) _ inside (
          subst (λ e. z.wp * sector_size + length ≤ e * sector_size)
            (omega (arith, placed.start_at, placed.whole)) fits) in
      Ensures-bind _ (write_locked c offset length true d) _ (
        Ensures-mono _ _ (write_locked c offset length true d)
          (λ l q. read_after other from n h r _ (write_raw-Appended l q.0.0 q.0.1.1 q.1 room))
          (Ensures-both _ _ (write_locked c offset length true d)
            (write_locked-SeqWrite c d z offset length true valid good g t
              (opens_cleanly c d z.cond o) (omega (arith, end, fits)))
            write_locked-Admitted))
