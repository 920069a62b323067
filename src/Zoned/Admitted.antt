-- ===== src/Zoned/Admitted.antt =====
-- examples/zoned-common.h: a write that fits into an open zone is admitted.
use bius.Base.{
  ◌≡◌, ℕ, ◌<◌, ltb, ◌+◌, ◌≤◌, arith, refl, Option, ◌*◌, u64_mod, Allows, u64, ◌>>=◌, false,
  Allows-bind, le→ltb, get_elem?,
}
use bius.Zoned.{ZoneCond, Config, BlkZone, Device, imp_open, exp_open, empty, closed, full, not_wp}
use bius.Zoned.Counters.{OpensCleanly}
use bius.Status.{sector_size}
use bius.Zoned.Write.{open_to_write, write_seq, write_opened, count_written, admitted, advance_wp}

-- A condition in which a write finds the zone open.
abbrev pub IsOpen : ZoneCond → Type 0
IsOpen imp_open = Unit {0}
IsOpen exp_open = Unit {0}
IsOpen _ = ⊥

pub opens_cleanly : (c : Config) (d : Device) (k : ZoneCond) → IsOpen k → OpensCleanly c d k
opens_cleanly c d imp_open h = tt
opens_cleanly c d exp_open h = tt
opens_cleanly c d _ h = absurd h

module _ (c : Config) (zone : ℕ) (z : BlkZone) (p length : ℕ) (pos : Option ℕ) (d : Device)
    (fits : p + length ≤ (z.start + z.capacity) * sector_size)
    (exact : (z.start + z.capacity) * sector_size < u64_mod) where
  opened-Admitted :
      (k : ZoneCond)
      → IsOpen k
      → Allows
          (λ l. l.verdict ≡ admitted p)
          (open_to_write k c zone d >>= λ r. write_opened zone p length pos r)
  unfolding open_to_write write_opened count_written
  opened-Admitted imp_open h =
      Allows-bind _ (advance_wp zone length d) _
        (λ q n. Allows-bind _ (get_elem? q.stats zone) _ (λ s o. refl))
  opened-Admitted exp_open h =
      Allows-bind _ (advance_wp zone length d) _
        (λ q n. Allows-bind _ (get_elem? q.stats zone) _ (λ s o. refl))
  opened-Admitted empty h = absurd h
  opened-Admitted closed h = absurd h
  opened-Admitted full h = absurd h
  opened-Admitted not_wp h = absurd h

  -- A write that fits into an open zone is admitted.
  pub write_seq-Admitted :
      IsOpen z.cond → Allows (λ l. l.verdict ≡ admitted p) (write_seq c zone z p length pos d)
  unfolding write_seq
  write_seq-Admitted h =
      let room : ltb (u64 ((z.start + z.capacity) * sector_size)) (u64 (p + length)) ≡ false =
        le→ltb _ _ (omega arith) in
      rw room (opened-Admitted z.cond h)
