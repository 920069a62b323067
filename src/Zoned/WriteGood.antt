-- ===== src/Zoned/WriteGood.antt =====
-- examples/zoned-common.h: the whole of `zoned_write_common` under the lock, for a zone that must be
-- written sequentially.
use bius.Zoned.Bounds.{IsValid, IsPlaced, Placed, IsGood}
use bius.Zoned.Placed.{end_fits}
use bius.Zoned.Counters.{OpensCleanly, IsSound}
use bius.Zoned.Pointer.{Follows, Follows-refl}
use bius.Zoned.WriteSpec.{WriteOutcome, write_seq-Outcome}
use bius.Zoned.WriteSound.{write_locked-IsSound}
use bius.Zoned.Write.{
  write_seq, write_opened, count_written, Locked, write_by_type, refused, open_to_write, advance_wp,
  Verdict, write_locked, admitted,
}
use bius.Base.{
  Bool, ℕ, Option, ◌<◌, Allows, ◌≡◌, Bool-cases, some, get_elem?, ◌*◌, ltb, ◌^◌, u64, none, ◌+◌,
  arith, ◌⊎◌, inl, inr, Allows-bind, ◌==◌, refl, ◌≤◌, subst, sym, Allows-and, ==-cases, ◌∙◌,
  Allows-mono, if◌then◌else◌, some-injective, ◌/◌, Ensures, lt-length_of_get_elem?, Ensures-mono,
  Ensures-both,
}
use bius.Zoned.{Device, Config, BlkZone, num_zones, seqwrite_req, zone_number}
use bius.Status.{sector_size, blk_sts_ioerr, blk_sts_ok}
use mathlib.Core.Bool.{true, false}

-- What the caller's offset has to do with it: an append reports the write pointer, and a write that
-- is not at the write pointer is refused.
abbrev pub OffsetRule : Bool → ℕ → BlkZone → Locked → Type 0
OffsetRule true offset z l = l.written_position ≡ some (z.wp * sector_size)
OffsetRule false offset z l =
    (l.written_position ≡ none)
    × ((offset ≡ z.wp * sector_size) ⊎ (l.verdict ≡ refused blk_sts_ioerr))

abbrev pub SeqWrite : Device → ℕ → BlkZone → ℕ → Bool → ℕ → Locked → Type 0
SeqWrite d zone z length append offset l =
    WriteOutcome d zone z length l.verdict l.device × OffsetRule append offset z l

write_seq-position :
    (c : Config) (zone : ℕ) (z : BlkZone) (offset length : ℕ) (pos : Option ℕ) (d : Device)
    → Allows (λ l. l.written_position ≡ pos) (write_seq c zone z offset length pos d)
unfolding write_seq write_opened count_written
write_seq-position c zone z offset length pos d =
    elim (Bool-cases (ltb (u64 ((z.start + z.capacity) * sector_size)) (u64 (offset + length)))) [
      | inl t ↦ rw t refl
      | inr t ↦ rw t (
          Allows-bind _ (open_to_write z.cond c zone d) _ λ r m.
            elim (Bool-cases (r.0 == blk_sts_ok)) [
              | inl u ↦ rw u (
                  Allows-bind _ (advance_wp zone length r.1) _
                    λ q n. Allows-bind _ (get_elem? q.stats zone) _ λ s o. refl)
              | inr u ↦ rw u refl
            ])
    ]

module _ (c : Config) (d : Device) (zone : ℕ) (z : BlkZone) (length : ℕ) (valid : IsValid c)
    (inside : zone < num_zones c) (g : get_elem? d.zone_info zone ≡ some z)
    (placed : Placed c d.zone_info) (short : length < 2 ^ 63) where
  position_exact : u64 (z.wp * sector_size) ≡ z.wp * sector_size
  position_exact =
      let p = placed zone z g in omega (arith, end_fits c zone z valid inside p, p.wp_to)

  write_by_type-SeqWrite :
      (append : Bool) (offset : ℕ)
      → Allows
          (SeqWrite d zone z length append offset)
          (write_by_type seqwrite_req c zone z offset length append d)
  unfolding write_by_type
  write_by_type-SeqWrite true offset =
      subst
        (λ p.
          Allows (SeqWrite d zone z length true offset) (write_seq c zone z p length (some p) d))
        (sym position_exact)
        (Allows-and _ _
          (write_seq c zone z (z.wp * sector_size) length (some (z.wp * sector_size)) d)
          (write_seq-Outcome c d zone z length valid inside g placed short _)
          (write_seq-position c zone z (z.wp * sector_size) length _ d))
  write_by_type-SeqWrite false offset = elim (==-cases (u64 (z.wp * sector_size)) offset) [
    | inl (t, e) ↦ rw t (
        subst (λ p. Allows (SeqWrite d zone z length false p) (write_seq c zone z p length none d))
          (sym position_exact ∙ e)
          (Allows-and _ _ (write_seq c zone z (z.wp * sector_size) length none d)
            (write_seq-Outcome c d zone z length valid inside g placed short none)
            (Allows-mono _ _ (write_seq c zone z (z.wp * sector_size) length none d)
              (λ l q. (q, inl refl))
              (write_seq-position c zone z (z.wp * sector_size) length none d))))
    | inr (t, _) ↦ rw t ((λ i w e. Follows-refl d zone i w e), (refl, inr refl))
  ]

Follows-IsPlaced :
    (c : Config) (d : Device) (zone n : ℕ) (z : BlkZone)
    → get_elem? d.zone_info zone ≡ some z
    → Placed c d.zone_info
    → z.wp + n ≤ z.start + z.len
    → (i : ℕ) (w : BlkZone) → Follows d zone n i w
    → IsPlaced c i w
Follows-IsPlaced c d zone n z g p h i w f =
    let b = p i f.before f.was in
    let bound : f.before.wp + (if i == zone then n else 0) ≤ f.before.start + f.before.len =
      elim (==-cases i zone) [
        | inl (t, e) ↦ rw t (
            subst (λ (y : BlkZone). y.wp + n ≤ y.start + y.len)
              (some-injective _ _
                (sym g ∙ subst (λ k. get_elem? d.zone_info k ≡ some f.before) e f.was))
              h)
        | inr (t, _) ↦ rw t (omega (arith, b.wp_to))
      ] in
    record {
      start_at = f.same_start ∙ b.start_at;
      whole = f.same_len ∙ b.whole;
      usable = f.same_capacity ∙ b.usable ∙ sym f.same_len;
      wp_from = omega (arith, b.wp_from, f.same_start, f.moved);
      wp_to = omega (arith, bound, f.same_start, f.same_len, f.moved);
    }

WriteOutcome-Placed :
    (c : Config) (d : Device) (zone : ℕ) (z : BlkZone) (length : ℕ) (v : Verdict) (q : Device)
    → get_elem? d.zone_info zone ≡ some z
    → Placed c d.zone_info
    → WriteOutcome d zone z length v q
    → Placed c q.zone_info
WriteOutcome-Placed c d zone z length (refused status) q g p o =
    λ i w e. Follows-IsPlaced c d zone 0 z g p (omega (arith, (p zone z g).wp_to)) i w (o i w e)
WriteOutcome-Placed c d zone z length (admitted offset) q g p o = λ i w e.
    Follows-IsPlaced c d zone (length / sector_size) z g p (omega (arith, o.0, o.1)) i w (o.2 i w e)

-- A write or an append to a sequential zone, on a valid configuration whose counters are right and
-- whose zones are in their places, where the zone opens cleanly, returns. Afterwards the counters
-- are right and the zones in their places again. If it is admitted, it goes to the raw device at
-- the zone's write pointer and ends inside the zone, and this write pointer alone moves, by the
-- length in sectors; if it is refused, no write pointer moves. An append reports the write pointer
-- from before, and a write that is not at the write pointer is refused with `BLK_STS_IOERR`.
pub write_locked-SeqWrite :
    (c : Config) (d : Device) (z : BlkZone) (offset length : ℕ) (append : Bool)
    → IsValid c
    → IsGood c d
    → get_elem? d.zone_info (zone_number c offset) ≡ some z
    → z.kind ≡ seqwrite_req
    → OpensCleanly c d z.cond
    → length < 2 ^ 63
    → Ensures
        (λ l. IsGood c l.device × SeqWrite d (zone_number c offset) z length append offset l)
        (write_locked c offset length append d)
unfolding write_locked
write_locked-SeqWrite c d z offset length append v k g t o s =
    let inside : zone_number c offset < num_zones c =
      omega (arith, lt-length_of_get_elem? d.zone_info (zone_number c offset) z g, k.sound.zones) in
    let spec : Allows (SeqWrite d (zone_number c offset) z length append offset)
        (write_locked c offset length append d) =
      rw (g, write_locked)
        (subst
          (λ y.
            Allows (SeqWrite d (zone_number c offset) z length append offset)
              (write_by_type y c (zone_number c offset) z offset length append d))
          (sym t)
          (write_by_type-SeqWrite c d (zone_number c offset) z length v inside g k.placed s append
            offset)) in
    Ensures-mono _ _ (write_locked c offset length append d)
      (λ l r. (
        record {
          sound = r.0;
          placed =
              WriteOutcome-Placed c d (zone_number c offset) z length l.verdict l.device g k.placed
                r.1.0;
        },
        r.1,
      ))
      (Ensures-both (λ l. IsSound c l.device) _ (write_locked c offset length append d)
        (write_locked-IsSound c offset length append d z g v.conventional_in o k.sound) spec)
