-- ===== src/Zoned/Pointer.antt =====
-- Where a write lands, and how it moves the write pointer: examples/zoned-common.h,
-- `zoned_write_common` on a zone that must be written sequentially.
use bius.Zoned.Bounds.{IsValid, Placed}
use bius.Zoned.Placed.{end_fits}
use bius.Zoned.Open.{mark_by_cond, mark_zone_full_locked}
use bius.Zoned.{Device, ℕ, ZoneCond, BlkZone, full, not_wp, Config, num_zones, put_zone}
use bius.Base.{
  ℕ, get_elem?, ◌≡◌, ◌≢◌, ◌+◌, some, arith, u64, if◌then◌else◌, ◌==◌, Everywhere, Everywhere-set,
  refl, Allows, ◌<◌, ◌/◌, ◌*◌, set, ◌≤◌, Allows-bind, Everywhere-set_ne, ==-cases, inl,
  Allows_result, get_elem?-set_self, lt-length_of_get_elem?, inr, some-injective, sym, ◌∙◌, ap,
}
use bius.Zoned.Write.{advance_wp}
use bius.Status.{sector_size}

-- Zone `i` is what it was in `d`, but for its condition, and with its write pointer `n` sectors on
-- if it is the zone `zone`.
pub record Follows (d : Device) (zone n i : ℕ) (w : BlkZone) : Type 0 where
  pub before : BlkZone
  pub was : get_elem? d.zone_info i ≡ some before
  pub same_start : w.start ≡ before.start
  pub same_len : w.len ≡ before.len
  pub same_capacity : w.capacity ≡ before.capacity
  pub same_kind : w.kind ≡ before.kind
  pub moved : w.wp ≡ before.wp + (if i == zone then n else 0)

pub Follows-cond :
    (d : Device) (zone n i : ℕ) (w : BlkZone) (k : ZoneCond)
    → Follows d zone n i w
    → Follows d zone n i (record w { cond = k })
Follows-cond d zone n i w k f = record {
  before = f.before;
  was = f.was;
  same_start = f.same_start;
  same_len = f.same_len;
  same_capacity = f.same_capacity;
  same_kind = f.same_kind;
  moved = f.moved;
}

pub Follows-refl :
    (d : Device) (zone i : ℕ) (w : BlkZone)
    → get_elem? d.zone_info i ≡ some w
    → Follows d zone 0 i w
Follows-refl d zone i w e = record {
  before = w;
  was = e;
  same_start = refl;
  same_len = refl;
  same_capacity = refl;
  same_kind = refl;
  moved = ground arith;
}

Follows-wp :
    (d : Device) (zone m n i : ℕ) (w : BlkZone) (p : ℕ)
    → (f : Follows d zone m i w) → p ≡ f.before.wp + (if i == zone then n else 0)
    → Follows d zone n i (record w { wp = p })
Follows-wp d zone m n i w p f e = record {
  before = f.before;
  was = f.was;
  same_start = f.same_start;
  same_len = f.same_len;
  same_capacity = f.same_capacity;
  same_kind = f.same_kind;
  moved = e;
}

Follows-other :
    (d : Device) (zone m n i : ℕ) (w : BlkZone)
    → Follows d zone m i w
    → i ≢ zone
    → Follows d zone n i w
Follows-other d zone m n i w f h = Follows-wp d zone m n i w w.wp f (ground (arith, f.moved))

mark_by_cond-Follows :
    (d : Device) (zone n : ℕ) (cond : ZoneCond) (w : BlkZone) (q : Device)
    → get_elem? q.zone_info zone ≡ some w
    → w.wp ≡ u64 (w.start + w.len)
    → Everywhere (Follows d zone n) q.zone_info
    → Everywhere (Follows d zone n) (mark_by_cond cond zone w q).1.zone_info
unfolding mark_by_cond
mark_by_cond-Follows d zone n not_wp w q e h all = all
mark_by_cond-Follows d zone n _ w q e h all =
    Everywhere-set (Follows d zone n) q.zone_info zone _ all (
      Follows-cond d zone n zone _ full (
        Follows-wp d zone n n zone w (u64 (w.start + w.len)) (all zone w e)
          (omega (arith, h, (all zone w e).moved))))

mark_zone_full_locked-Follows :
    (d : Device) (zone n : ℕ) (w : BlkZone) (q : Device)
    → get_elem? q.zone_info zone ≡ some w
    → w.wp ≡ u64 (w.start + w.len)
    → Everywhere (Follows d zone n) q.zone_info
    → Allows (λ r. Everywhere (Follows d zone n) r.1.zone_info) (mark_zone_full_locked zone q)
unfolding mark_zone_full_locked
mark_zone_full_locked-Follows d zone n w q e h all =
    rw (e, mark_zone_full_locked) (mark_by_cond-Follows d zone n w.cond w q e h all)

-- A sequential zone of a disk whose zones are in their places, and a write of `length` bytes at its
-- write pointer that ends inside the zone.
module _ (c : Config) (d : Device) (zone : ℕ) (z : BlkZone) (length : ℕ) (valid : IsValid c)
    (inside : zone < num_zones c) (g : get_elem? d.zone_info zone ≡ some z)
    (placed : Placed c d.zone_info) where
  fits :
      z.wp * sector_size + length ≤ (z.start + z.len) * sector_size
      → z.wp + length / sector_size ≤ z.start + z.len
  fits h = omega arith

  -- Of a device that differs from `d` in conditions only.
  same_zone :
      (w : BlkZone)
      → Follows d zone 0 zone w
      → (w.wp ≡ z.wp) × (w.start ≡ z.start) × (w.len ≡ z.len) × (w.capacity ≡ z.len)
  same_zone w f =
      let e : f.before ≡ z = some-injective _ _ (sym f.was ∙ g) in
      ground (
        arith,
        f.moved,
        f.same_start,
        f.same_len,
        f.same_capacity,
        ap (λ (b : BlkZone). b.wp) e,
        ap (λ (b : BlkZone). b.start) e,
        ap (λ (b : BlkZone). b.len) e,
        ap (λ (b : BlkZone). b.capacity) e,
        (placed zone z g).usable,
      )

  put_wp-Follows :
      (q : Device) (w : BlkZone) (p : ℕ)
      → get_elem? q.zone_info zone ≡ some w
      → p ≡ w.wp + length / sector_size
      → Everywhere (Follows d zone 0) q.zone_info
      → Everywhere
          (Follows d zone (length / sector_size))
          (set q.zone_info zone (record w { wp = p }))
  put_wp-Follows q w p e h all =
      Everywhere-set_ne (Follows d zone (length / sector_size)) q.zone_info zone _
        (λ i a t ne. Follows-other d zone 0 (length / sector_size) i a (all i a t) ne)
        (Follows-wp d zone 0 (length / sector_size) zone w p (all zone w e)
          (ground (arith, h, (all zone w e).moved)))

  pub advance_wp-Follows :
      (q : Device)
      → z.wp * sector_size + length ≤ (z.start + z.len) * sector_size
      → Everywhere (Follows d zone 0) q.zone_info
      → Allows
          (λ r. Everywhere (Follows d zone (length / sector_size)) r.zone_info)
          (advance_wp zone length q)
  unfolding advance_wp
  advance_wp-Follows q h all = Allows-bind _ (get_elem? q.zone_info zone) _ λ w e.
      let s = same_zone w (all zone w e) in
      let p : ℕ = u64 (w.wp + length / sector_size) in
      let exact : p ≡ w.wp + length / sector_size =
        omega (arith, s.0, fits h, end_fits c zone z valid inside (placed zone z g)) in
      let put = put_wp-Follows q w p e exact all in
      elim (==-cases p (u64 (w.start + w.capacity))) [
        | inl (t, reached) ↦ rw t (
            Allows-bind _ (mark_zone_full_locked zone (put_zone q zone (record w { wp = p }))) _
              λ r m.
                Allows_result
                  (λ r. Everywhere (Follows d zone (length / sector_size)) r.1.zone_info) _ r
                  (mark_zone_full_locked-Follows d zone (length / sector_size) (record w { wp = p })
                    _
                    (get_elem?-set_self q.zone_info zone _
                      (lt-length_of_get_elem? q.zone_info zone w e))
                    (omega (arith, s.2, s.3, reached)) put)
                  m)
        | inr (t, _) ↦ rw t put
      ]
