-- ===== src/Zoned/WriteSound.antt =====
-- A zoned write returns for a zone of the disk, and keeps the counters right, if it opens the zone
-- cleanly.
use bius.Zoned.Counters.{
  IsSound, shift, OpensCleanly, open_zone_locked-IsSound, mark_zone_full_locked-IsSound,
}
use bius.Zoned.Write.{
  count_written, open_to_write, advance_wp, write_opened, write_seq, write_by_type, write_locked,
}
use bius.Zoned.{
  Config, ZoneCond, ZoneType, ℕ, ZoneStat, Device, BlkZone, put_stat, zone_number, num_zones,
  put_zone, empty, closed, imp_open, exp_open, full, conventional, not_wp, seqwrite_req,
}
use bius.Base.{
  ℕ, Bool, Option, get_elem?, ◌<◌, ◌≡◌, arith, Ensures, some, length-set, Bool-cases, ◌≤◌,
  get_elem?_total, u64, none, false, ◌==◌, lt-length_of_get_elem?, ltb, ◌+◌, ◌*◌, ◌/◌, inl,
  Ensures-bind, inr, Ensures-mono, refl,
}
use bius.Status.{blk_sts_ok, sector_size}
use bius.Zoned.Open.{mark_zone_full_locked}
use mathlib.Core.Bool.{true}

-- A change of a zone that leaves its condition alone.
same_cond-IsSound :
    (c : Config) (zone : ℕ) (z : BlkZone) (w : ℕ) (d : Device)
    → get_elem? d.zone_info zone ≡ some z
    → IsSound c d
    → IsSound c (put_zone d zone (record z { wp = w }))
same_cond-IsSound c zone z w d e k =
    ground (arith, shift d.zone_info zone z (record z { wp = w }) e)

pub stat-IsSound :
    (c : Config) (zone : ℕ) (s : ZoneStat) (d : Device)
    → IsSound c d
    → IsSound c (put_stat d zone s)
stat-IsSound c zone s d k = ground (arith, length-set d.stats zone s)

advance_wp-IsSound :
    (c : Config) (zone length : ℕ) (d : Device)
    → zone < num_zones c
    → IsSound c d
    → Ensures (IsSound c) (advance_wp zone length d)
unfolding advance_wp
advance_wp-IsSound c zone length d h k =
    let (z, e) = get_elem?_total d.zone_info zone (omega arith) in
    let k' = same_cond-IsSound c zone z (u64 (z.wp + length / sector_size)) d e k in
    rw (e, advance_wp)
      (elim (Bool-cases (u64 (z.wp + length / sector_size) == u64 (z.start + z.capacity))) [
        | inl t ↦ rw t (
            Ensures-bind (IsSound c) (mark_zone_full_locked zone _) _
              (mark_zone_full_locked-IsSound c zone _ h k'))
        | inr f ↦ rw f k'
      ])

count_written-IsSound :
    (c : Config) (zone offset length : ℕ) (pos : Option ℕ) (d : Device)
    → zone < num_zones c
    → IsSound c d
    → Ensures (λ l. IsSound c l.device) (count_written zone offset length pos d)
unfolding count_written
count_written-IsSound c zone offset length pos d h k =
    let (s, e) = get_elem?_total d.stats zone (omega arith) in
    rw (e, count_written) (stat-IsSound c zone _ d k)

open_to_write-IsSound :
    (c : Config) (cond : ZoneCond) (zone : ℕ) (d : Device) (z : BlkZone)
    → get_elem? d.zone_info zone ≡ some z
    → z.cond ≡ cond
    → c.num_conventional_zones ≤ num_zones c
    → OpensCleanly c d z.cond
    → IsSound c d
    → Ensures (λ r. IsSound c r.1) (open_to_write cond c zone d)
unfolding open_to_write
open_to_write-IsSound c empty zone d z e h b o k = open_zone_locked-IsSound c zone false d z e b o k
open_to_write-IsSound c closed zone d z e h b o k =
    open_zone_locked-IsSound c zone false d z e b o k
open_to_write-IsSound c imp_open zone d z e h b o k = k
open_to_write-IsSound c exp_open zone d z e h b o k = k
open_to_write-IsSound c full zone d z e h b o k = k
open_to_write-IsSound c not_wp zone d z e h b o k = k

write_opened-IsSound :
    (c : Config) (zone offset length : ℕ) (pos : Option ℕ) (r : ℕ × Device)
    → zone < num_zones c
    → IsSound c r.1
    → Ensures (λ l. IsSound c l.device) (write_opened zone offset length pos r)
unfolding write_opened
write_opened-IsSound c zone offset length pos (status, d) h k =
    elim (Bool-cases (status == blk_sts_ok)) [
      | inl t ↦ rw t (
          Ensures-bind _ (advance_wp zone length d) _ (
            Ensures-mono (IsSound c) _ (advance_wp zone length d)
              (λ d' k'. count_written-IsSound c zone offset length pos d' h k')
              (advance_wp-IsSound c zone length d h k)))
      | inr f ↦ rw f k
    ]

write_seq-IsSound :
    (c : Config) (zone : ℕ) (z : BlkZone) (offset length : ℕ) (pos : Option ℕ) (d : Device)
    → get_elem? d.zone_info zone ≡ some z
    → zone < num_zones c
    → c.num_conventional_zones ≤ num_zones c
    → OpensCleanly c d z.cond
    → IsSound c d
    → Ensures (λ l. IsSound c l.device) (write_seq c zone z offset length pos d)
unfolding write_seq
write_seq-IsSound c zone z offset length pos d e h b o k =
    elim (Bool-cases (ltb (u64 ((z.start + z.capacity) * sector_size)) (u64 (offset + length)))) [
      | inl t ↦ rw t k
      | inr f ↦ rw f (
          Ensures-bind _ (open_to_write z.cond c zone d) _ (
            Ensures-mono _ _ (open_to_write z.cond c zone d)
              (λ r k'. write_opened-IsSound c zone offset length pos r h k')
              (open_to_write-IsSound c z.cond zone d z e refl b o k)))
    ]

write_by_type-IsSound :
    (c : Config) (t : ZoneType) (zone : ℕ) (z : BlkZone) (offset length : ℕ) (append : Bool)
    (d : Device)
    → get_elem? d.zone_info zone ≡ some z
    → zone < num_zones c
    → c.num_conventional_zones ≤ num_zones c
    → OpensCleanly c d z.cond
    → IsSound c d
    → Ensures (λ l. IsSound c l.device) (write_by_type t c zone z offset length append d)
unfolding write_by_type
write_by_type-IsSound c conventional zone z offset length true d e h b o k = k
write_by_type-IsSound c conventional zone z offset length false d e h b o k =
    count_written-IsSound c zone offset length none d h k
write_by_type-IsSound c seqwrite_req zone z offset length true d e h b o k =
    write_seq-IsSound c zone z _ length _ d e h b o k
write_by_type-IsSound c seqwrite_req zone z offset length false d e h b o k =
    elim (Bool-cases (u64 (z.wp * sector_size) == offset)) [
      | inl t ↦ rw t (write_seq-IsSound c zone z offset length none d e h b o k)
      | inr f ↦ rw f k
    ]

-- A write or an append returns, and keeps the counters right, if the zone opens cleanly.
pub write_locked-IsSound :
    (c : Config) (offset length : ℕ) (append : Bool) (d : Device) (z : BlkZone)
    → get_elem? d.zone_info (zone_number c offset) ≡ some z
    → c.num_conventional_zones ≤ num_zones c
    → OpensCleanly c d z.cond
    → IsSound c d
    → Ensures (λ l. IsSound c l.device) (write_locked c offset length append d)
unfolding write_locked
write_locked-IsSound c offset length append d z e b o k =
    let h : zone_number c offset < num_zones c =
      omega (arith, lt-length_of_get_elem? d.zone_info (zone_number c offset) z e, k.zones) in
    rw (e, write_locked)
      (write_by_type-IsSound c z.kind (zone_number c offset) z offset length append d e h b o k)
