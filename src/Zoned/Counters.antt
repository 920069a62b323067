-- ===== src/Zoned/Counters.antt =====
-- The three counters of the zoned disk against the conditions of its zones.
use bius.Base.{
  ℕ, zero, suc, ◌+◌, ◌≤◌, ◌<◌, ◌≡◌, ◌⊎◌, inl, inr, refl, Bool, true, false, List, some, arith, ltb,
  ◌==◌, Bool-cases, u32_mod, get_elem?, set, length, length-set, sum_of, sum_of-set,
  sum_of-le-length, u64, Ensures, get_elem?_total, le→leb, Ensures-bind, ◌-◌, leb-cases, inc32,
}
use bius.Zoned.{
  Device, BlkZone, ZoneCond, not_wp, imp_open, exp_open, closed, full, Config, num_zones, empty,
}
use bius.Zoned.Open.{
  close_zone_at, mark_by_cond, mark_zone_full_locked, open_closed, close_from, close_imp_open_zone,
  is_imp_open, open_by_cond, open_zone_locked,
}

abbrev pub imp_weight : ZoneCond → ℕ
imp_weight imp_open = 1
imp_weight _ = 0

abbrev pub open_weight : ZoneCond → ℕ
open_weight imp_open = 1
open_weight exp_open = 1
open_weight _ = 0

abbrev pub active_weight : ZoneCond → ℕ
active_weight imp_open = 1
active_weight exp_open = 1
active_weight closed = 1
active_weight _ = 0

abbrev pub imp_of : BlkZone → ℕ
imp_of z = imp_weight z.cond

abbrev pub open_of : BlkZone → ℕ
open_of z = open_weight z.cond

abbrev pub active_of : BlkZone → ℕ
active_of z = active_weight z.cond

-- Each counter is the number of zones that it stands for and within its limit, and the arrays have
-- a cell for each zone, whose number an `unsigned int` can hold.
pub record IsSound (c : Config) (d : Device) : Type 0 where
  pub imps : d.num_imp_open_zones ≡ sum_of imp_of d.zone_info
  pub opens : d.num_open_zones ≡ sum_of open_of d.zone_info
  pub actives : d.num_active_zones ≡ sum_of active_of d.zone_info
  pub open_limit : d.num_open_zones ≤ c.max_open_zones
  pub active_limit : d.num_active_zones ≤ c.max_active_zones
  pub zones : length d.zone_info ≡ num_zones c
  pub counted : length d.stats ≡ num_zones c
  pub few : num_zones c < u32_mod

imp_weight-le : (c : ZoneCond) → imp_weight c ≤ 1
imp_weight-le imp_open = omega arith
imp_weight-le _ = omega arith

open_weight-le : (c : ZoneCond) → open_weight c ≤ 1
open_weight-le imp_open = omega arith
open_weight-le _ = omega arith

active_weight-le : (c : ZoneCond) → active_weight c ≤ 1
active_weight-le imp_open = omega arith
active_weight-le _ = omega arith

-- What the counters would be after zone `i` changes from `z` to `w`.
pub record Shift (zs : List BlkZone) (i : ℕ) (z w : BlkZone) : Type 0 where
  pub imp_shift : sum_of imp_of (set zs i w) + imp_of z ≡ sum_of imp_of zs + imp_of w
  pub open_shift : sum_of open_of (set zs i w) + open_of z ≡ sum_of open_of zs + open_of w
  pub active_shift : sum_of active_of (set zs i w) + active_of z ≡ sum_of active_of zs + active_of w
  pub same_length : length (set zs i w) ≡ length zs
  pub imp_le : sum_of imp_of (set zs i w) ≤ length (set zs i w)
  pub open_le : sum_of open_of (set zs i w) ≤ length (set zs i w)
  pub active_le : sum_of active_of (set zs i w) ≤ length (set zs i w)

pub shift : (zs : List BlkZone) (i : ℕ) (z w : BlkZone) → get_elem? zs i ≡ some z → Shift zs i z w
shift zs i z w e = record {
  imp_shift = sum_of-set imp_of zs i z w e;
  open_shift = sum_of-set open_of zs i z w e;
  active_shift = sum_of-set active_of zs i z w e;
  same_length = length-set zs i w;
  imp_le = sum_of-le-length imp_of (set zs i w) (λ a. imp_weight-le a.cond);
  open_le = sum_of-le-length open_of (set zs i w) (λ a. open_weight-le a.cond);
  active_le = sum_of-le-length active_of (set zs i w) (λ a. active_weight-le a.cond);
}

pub close_zone_at-IsSound :
    (c : Config) (d : Device) (zone : ℕ) (z : BlkZone)
    → get_elem? d.zone_info zone ≡ some z
    → z.cond ≡ imp_open
    → IsSound c d
    → IsSound c (close_zone_at d zone z)
unfolding close_zone_at
close_zone_at-IsSound c d zone z e h k =
    ground (arith, shift d.zone_info zone z (record z { cond = closed }) e)

pub mark_by_cond-IsSound :
    (c : Config) (cond : ZoneCond) (zone : ℕ) (z : BlkZone) (d : Device)
    → get_elem? d.zone_info zone ≡ some z
    → z.cond ≡ cond
    → IsSound c d
    → IsSound c (mark_by_cond cond zone z d).1
unfolding mark_by_cond
mark_by_cond-IsSound c not_wp zone z d e h k = k
mark_by_cond-IsSound c _ zone z d e h k =
    ground
      (arith, shift d.zone_info zone z (record z { cond = full; wp = u64 (z.start + z.len) }) e)

pub mark_zone_full_locked-IsSound :
    (c : Config) (zone : ℕ) (d : Device)
    → zone < num_zones c
    → IsSound c d
    → Ensures (λ r. IsSound c r.1) (mark_zone_full_locked zone d)
unfolding mark_zone_full_locked
mark_zone_full_locked-IsSound c zone d h k =
    let (z, e) = get_elem?_total d.zone_info zone (omega arith) in
    rw (e, mark_zone_full_locked) (mark_by_cond-IsSound c z.cond zone z d e refl k)

pub is_imp_open→eq : (cond : ZoneCond) → is_imp_open cond ≡ true → cond ≡ imp_open
is_imp_open→eq imp_open h = refl
is_imp_open→eq _ h = cc

pub close_from-IsSound :
    (c : Config) (n zone zone_to_skip : ℕ) (d : Device)
    → zone + n ≤ num_zones c
    → IsSound c d
    → Ensures (IsSound c) (close_from n zone zone_to_skip d)
unfolding close_from
close_from-IsSound c zero zone zone_to_skip d h k = k
close_from-IsSound c (suc n) zone zone_to_skip d h k =
    let (z, e) = get_elem?_total d.zone_info zone (omega arith) in
    let rest = close_from-IsSound c n (zone + 1) zone_to_skip d (omega arith) k in
    elim (Bool-cases (zone == zone_to_skip)) [
      | inl skip ↦ rw skip rest
      | inr visit ↦
          rw (visit, e)
            (elim (Bool-cases (is_imp_open z.cond)) [
              | inl hit ↦ rw hit (close_zone_at-IsSound c d zone z e (is_imp_open→eq z.cond hit) k)
              | inr miss ↦ rw miss rest
            ])
    ]

pub close_imp_open_zone-IsSound :
    (c : Config) (zone_to_skip : ℕ) (d : Device)
    → c.num_conventional_zones ≤ num_zones c
    → IsSound c d
    → Ensures (IsSound c) (close_imp_open_zone c zone_to_skip d)
unfolding close_imp_open_zone
close_imp_open_zone-IsSound c zone_to_skip d h k =
    close_from-IsSound c (num_zones c - c.num_conventional_zones) c.num_conventional_zones
      zone_to_skip d (omega arith) k

-- The zone is opened now: it was not open, and `n` counts it as active already.
open_closed_now-IsSound :
    (c : Config) (zone : ℕ) (explicit : Bool) (z : BlkZone) (d : Device) (n : ℕ)
    → get_elem? d.zone_info zone ≡ some z
    → open_of z ≡ 0
    → imp_of z ≡ 0
    → n + active_of z ≡ d.num_active_zones + 1
    → n ≤ c.max_active_zones
    → d.num_open_zones < c.max_open_zones
    → IsSound c d
    → Ensures
        (λ r. IsSound c r.1)
        (open_closed c zone explicit z (record d { num_active_zones = n }))
unfolding open_closed
open_closed_now-IsSound c zone true z d n e o i a m h k =
    ground (arith, shift d.zone_info zone z (record z { cond = exp_open }) e)
open_closed_now-IsSound c zone false z d n e o i a m h k =
    ground (arith, shift d.zone_info zone z (record z { cond = imp_open }) e)

-- No open zone is left over: another one is closed, or the command fails.
open_closed_full-IsSound :
    (c : Config) (zone : ℕ) (explicit : Bool) (z : BlkZone) (d : Device)
    → c.num_conventional_zones ≤ num_zones c
    → c.max_open_zones ≤ d.num_open_zones
    → IsSound c d
    → Ensures (λ r. IsSound c r.1) (open_closed c zone explicit z d)
unfolding open_closed
open_closed_full-IsSound c zone explicit z d b h k =
    rw (le→leb _ _ h) (elim (Bool-cases (ltb 0 d.num_imp_open_zones)) [
      | inl t ↦ rw t (
          Ensures-bind _ (close_imp_open_zone c zone d) _
            (close_imp_open_zone-IsSound c zone d b k))
      | inr f ↦ rw f k
    ])

-- An empty zone can be opened with no counter left wrong: the limit on active zones stops the
-- command, or there is room for one more open zone.
abbrev pub OpensCleanly : Config → Device → ZoneCond → Type 0
OpensCleanly c d empty =
    (c.max_active_zones ≤ d.num_active_zones) ⊎ (d.num_open_zones < c.max_open_zones)
OpensCleanly c d _ = Unit {0}

open_by_cond-IsSound :
    (c : Config) (cond : ZoneCond) (zone : ℕ) (explicit : Bool) (z : BlkZone) (d : Device)
    → get_elem? d.zone_info zone ≡ some z
    → z.cond ≡ cond
    → c.num_conventional_zones ≤ num_zones c
    → OpensCleanly c d cond
    → IsSound c d
    → Ensures (λ r. IsSound c r.1) (open_by_cond cond c zone explicit z d)
unfolding open_by_cond
open_by_cond-IsSound c imp_open zone true z d e h b o k =
    ground (arith, shift d.zone_info zone z (record z { cond = exp_open }) e)
open_by_cond-IsSound c imp_open zone false z d e h b o k = k
open_by_cond-IsSound c exp_open zone explicit z d e h b o k = k
open_by_cond-IsSound c empty zone explicit z d e h b o k =
    elim (leb-cases c.max_active_zones d.num_active_zones) [
      | inl (t, _) ↦ rw t k
      | inr (f, room) ↦ rw f (
          open_closed_now-IsSound c zone explicit z d (inc32 d.num_active_zones) e (ground arith)
            (ground arith)
            (ground (arith, shift d.zone_info zone z (record z { cond = exp_open }) e))
            (omega arith) (elim o [ inl stopped ↦ absurd (omega arith) | inr fits ↦ fits ]) k)
    ]
open_by_cond-IsSound c closed zone explicit z d e h b o k =
    elim (leb-cases c.max_open_zones d.num_open_zones) [
      | inl (_, over) ↦ open_closed_full-IsSound c zone explicit z d b over k
      | inr (_, room) ↦
          open_closed_now-IsSound c zone explicit z d d.num_active_zones e (ground arith)
            (ground arith) (ground arith) k.active_limit room k
    ]
open_by_cond-IsSound c full zone explicit z d e h b o k = k
open_by_cond-IsSound c not_wp zone explicit z d e h b o k = k

pub open_zone_locked-IsSound :
    (c : Config) (zone : ℕ) (explicit : Bool) (d : Device) (z : BlkZone)
    → get_elem? d.zone_info zone ≡ some z
    → c.num_conventional_zones ≤ num_zones c
    → OpensCleanly c d z.cond
    → IsSound c d
    → Ensures (λ r. IsSound c r.1) (open_zone_locked c zone explicit d)
unfolding open_zone_locked
open_zone_locked-IsSound c zone explicit d z e b o k =
    rw (e, open_zone_locked) (open_by_cond-IsSound c z.cond zone explicit z d e refl b o k)
