-- ===== src/Zoned/WriteSpec.antt =====
-- examples/zoned-common.h: what `zoned_write_common` does under the lock to a zone that must be
-- written sequentially, on every branch.
use bius.Zoned.Bounds.{IsValid, Placed}
use bius.Zoned.Placed.{end_fits}
use bius.Zoned.Opening.{open_to_write-Everywhere}
use bius.Zoned.Pointer.{Follows, Follows-refl, Follows-cond, advance_wp-Follows}
use bius.Zoned.{Config, Device, ℕ, BlkZone, num_zones}
use bius.Base.{
  ℕ, ◌<◌, Everywhere, get_elem?, ◌≡◌, ◌*◌, some, ◌^◌, ◌+◌, ltb, ◌≤◌, Option, u64, Allows, ◌/◌,
  false, Bool-cases, Allows-bind, arith, ◌==◌, refl, inl, inr, Allows_result,
}
use bius.Zoned.Write.{
  Verdict, refused, admitted, count_written, write_seq, write_opened, advance_wp, open_to_write,
}
use bius.Status.{sector_size, blk_sts_ok}

-- A command that is refused moves no write pointer. One that is admitted goes to the raw device at
-- the write pointer, ends inside the zone, and moves this write pointer alone, by its length.
abbrev pub WriteOutcome : Device → ℕ → BlkZone → ℕ → Verdict → Device → Type 0
WriteOutcome d zone z length (refused status) q = Everywhere (Follows d zone 0) q.zone_info
WriteOutcome d zone z length (admitted offset) q =
    (offset ≡ z.wp * sector_size)
    × (offset + length ≤ (z.start + z.len) * sector_size)
    × Everywhere (Follows d zone (length / sector_size)) q.zone_info

module _ (c : Config) (d : Device) (zone : ℕ) (z : BlkZone) (length : ℕ) (valid : IsValid c)
    (inside : zone < num_zones c) (g : get_elem? d.zone_info zone ≡ some z)
    (placed : Placed c d.zone_info) (short : length < 2 ^ 63) where
  count_written-Outcome :
      (pos : Option ℕ) (q : Device)
      → z.wp * sector_size + length ≤ (z.start + z.len) * sector_size
      → Everywhere (Follows d zone (length / sector_size)) q.zone_info
      → Allows
          (λ l. WriteOutcome d zone z length l.verdict l.device)
          (count_written zone (z.wp * sector_size) length pos q)
  unfolding count_written
  count_written-Outcome pos q h all =
      Allows-bind _ (get_elem? q.stats zone) _ (λ s e. (refl, h, all))

  write_opened-Outcome :
      (pos : Option ℕ) (r : ℕ × Device)
      → z.wp * sector_size + length ≤ (z.start + z.len) * sector_size
      → Everywhere (Follows d zone 0) r.1.zone_info
      → Allows
          (λ l. WriteOutcome d zone z length l.verdict l.device)
          (write_opened zone (z.wp * sector_size) length pos r)
  unfolding write_opened
  write_opened-Outcome pos (status, q) h all = elim (Bool-cases (status == blk_sts_ok)) [
    | inl t ↦ rw t (
        Allows-bind _ (advance_wp zone length q) _ λ q' m. count_written-Outcome pos q' h (
          Allows_result (λ r. Everywhere (Follows d zone (length / sector_size)) r.zone_info) _ q'
            (advance_wp-Follows c d zone z length valid inside g placed q h all) m))
    | inr t ↦ rw t all
  ]

  -- The test of the capacity is exact: no product or sum in it wraps.
  capacity_test :
      ltb (u64 ((z.start + z.capacity) * sector_size)) (u64 (z.wp * sector_size + length)) ≡ false
      → z.wp * sector_size + length ≤ (z.start + z.len) * sector_size
  capacity_test t =
      let p = placed zone z g in ground (arith, end_fits c zone z valid inside p, p.usable, p.wp_to)

  pub write_seq-Outcome :
      (pos : Option ℕ)
      → Allows
          (λ l. WriteOutcome d zone z length l.verdict l.device)
          (write_seq c zone z (z.wp * sector_size) length pos d)
  unfolding write_seq
  write_seq-Outcome pos =
      let before : Everywhere (Follows d zone 0) d.zone_info = λ i w e. Follows-refl d zone i w e in
      elim (Bool-cases
        (ltb (u64 ((z.start + z.capacity) * sector_size)) (u64 (z.wp * sector_size + length)))) [
          | inl t ↦ rw t before
          | inr t ↦ rw t (
              Allows-bind _ (open_to_write z.cond c zone d) _ λ r m.
                write_opened-Outcome pos r (capacity_test t) (
                  Allows_result (λ r. Everywhere (Follows d zone 0) r.1.zone_info) _ r
                    (open_to_write-Everywhere (Follows d zone 0) (Follows-cond d zone 0) c z.cond
                      zone d before)
                    m))
        ]
