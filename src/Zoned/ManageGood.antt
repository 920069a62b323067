-- ===== src/Zoned/ManageGood.antt =====
-- The commands that manage zones keep the zones in their places, and the counters right.
use bius.Zoned.Bounds.{IsValid, IsPlaced, Placed, IsGood}
use bius.Zoned.Counters.{IsSound, OpensCleanly}
use bius.Zoned.Placed.{end_fits}
use bius.Zoned.Opening.{open_zone_locked-Everywhere}
use bius.Zoned.ManageSound.{
  zoned_open_zone-IsSound, zoned_close_zone-IsSound, zoned_finish_zone-IsSound,
  reset_locked-IsSound,
}
use bius.Zoned.Manage.{
  zoned_open_zone_by, reset_locked, zoned_open_zone, close_by_cond, zoned_close_zone, reset_by_cond,
  zoned_finish_zone, count_reset, close_closed,
}
use bius.Zoned.{
  Config, ZoneCond, Device, ℕ, BlkZone, zone_number, num_zones, empty, imp_open, not_wp, closed,
  exp_open, full,
}
use bius.Zoned.Open.{mark_by_cond, mark_zone_full_locked}
use bius.Base.{
  ℕ, Allows, Option, true, ◌<◌, Ensures, arith, get_elem?, ◌≡◌, some, Everywhere-set, Allows-bind,
  refl, Bool-cases, ◌==◌, inl, inr, Allows_result, subst, sym,
}
use mathlib.Core.Option.{none}

IsPlaced-cond :
    (c : Config) (i : ℕ) (z : BlkZone) (k : ZoneCond)
    → IsPlaced c i z
    → IsPlaced c i (record z { cond = k })
IsPlaced-cond c i z k p = omega arith

open_zone_by-Placed :
    (c : Config) (cond : ZoneCond) (zone : ℕ) (d : Device)
    → Placed c d.zone_info
    → Allows (λ r. Placed c r.1.zone_info) (zoned_open_zone_by cond c zone d)
unfolding zoned_open_zone_by
open_zone_by-Placed c empty zone d p =
    open_zone_locked-Everywhere (IsPlaced c) (IsPlaced-cond c) c zone true d p
open_zone_by-Placed c imp_open zone d p =
    open_zone_locked-Everywhere (IsPlaced c) (IsPlaced-cond c) c zone true d p
open_zone_by-Placed c closed zone d p =
    open_zone_locked-Everywhere (IsPlaced c) (IsPlaced-cond c) c zone true d p
open_zone_by-Placed c exp_open zone d p = p
open_zone_by-Placed c full zone d p = p
open_zone_by-Placed c not_wp zone d p = p

-- Total and partial correctness of a command, joined.
good :
    {A : Type 0} (c : Config) (f : A → Device) (m : Option A)
    → Ensures (λ a. IsSound c (f a)) m
    → Allows (λ a. Placed c (f a).zone_info) m
    → Ensures (λ a. IsGood c (f a)) m
good c f none h k = absurd h
good c f (some a) h k = record { sound = h; placed = k }

-- Opening a zone explicitly returns, with the counters right and the zones in their places, where
-- they were so before and the zone opens cleanly.
pub zoned_open_zone-IsGood :
    (c : Config) (offset : ℕ) (d : Device) (z : BlkZone)
    → IsValid c
    → get_elem? d.zone_info (zone_number c offset) ≡ some z
    → OpensCleanly c d z.cond
    → IsGood c d
    → Ensures (λ r. IsGood c r.1) (zoned_open_zone c offset d)
unfolding zoned_open_zone
zoned_open_zone-IsGood c offset d z v e o k =
    good c (λ r. r.1) (zoned_open_zone c offset d)
      (zoned_open_zone-IsSound c offset d z e v.conventional_in o k.sound)
      (Allows-bind _ (get_elem? d.zone_info (zone_number c offset)) _
        (λ w q. open_zone_by-Placed c w.cond (zone_number c offset) d k.placed))

close_closed-Placed :
    (c : Config) (zone : ℕ) (z : BlkZone) (d : Device)
    → get_elem? d.zone_info zone ≡ some z
    → Placed c d.zone_info
    → Placed c (close_closed zone z d).1.zone_info
unfolding close_closed
close_closed-Placed c zone z d e p = elim (Bool-cases (z.wp == z.start)) [
  | inl t ↦
      rw t (
        Everywhere-set (IsPlaced c) d.zone_info zone _ p
          (IsPlaced-cond c zone z empty (p zone z e)))
  | inr t ↦ rw t (
      Everywhere-set (IsPlaced c) d.zone_info zone _ p (IsPlaced-cond c zone z closed (p zone z e)))
]

close_by_cond-Placed :
    (c : Config) (cond : ZoneCond) (zone : ℕ) (z : BlkZone) (d : Device)
    → get_elem? d.zone_info zone ≡ some z
    → Placed c d.zone_info
    → Placed c (close_by_cond cond zone z d).1.zone_info
unfolding close_by_cond
close_by_cond-Placed c imp_open zone z d e p = close_closed-Placed c zone z _ e p
close_by_cond-Placed c exp_open zone z d e p = close_closed-Placed c zone z _ e p
close_by_cond-Placed c closed zone z d e p = close_closed-Placed c zone z d e p
close_by_cond-Placed c empty zone z d e p = p
close_by_cond-Placed c full zone z d e p = p
close_by_cond-Placed c not_wp zone z d e p = p

-- Closing a zone of the disk returns, with the counters right and the zones in their places, where
-- they were so before.
pub zoned_close_zone-IsGood :
    (c : Config) (offset : ℕ) (d : Device)
    → zone_number c offset < num_zones c
    → IsGood c d
    → Ensures (λ r. IsGood c r.1) (zoned_close_zone c offset d)
unfolding zoned_close_zone
zoned_close_zone-IsGood c offset d h k =
    good c (λ r. r.1) (zoned_close_zone c offset d) (zoned_close_zone-IsSound c offset d h k.sound)
      (Allows-bind _ (get_elem? d.zone_info (zone_number c offset)) _
        (λ w q. close_by_cond-Placed c w.cond (zone_number c offset) w d q k.placed))

mark_by_cond-Placed :
    (c : Config) (cond : ZoneCond) (zone : ℕ) (z : BlkZone) (d : Device)
    → IsValid c
    → zone < num_zones c
    → get_elem? d.zone_info zone ≡ some z
    → Placed c d.zone_info
    → Placed c (mark_by_cond cond zone z d).1.zone_info
unfolding mark_by_cond
mark_by_cond-Placed c not_wp zone z d v h e p = p
mark_by_cond-Placed c _ zone z d v h e p =
    Everywhere-set (IsPlaced c) d.zone_info zone _ p
      (omega (arith, p zone z e, end_fits c zone z v h (p zone z e)))

-- Finishing a zone of the disk returns, with the counters right and the zones in their places,
-- where they were so before.
pub zoned_finish_zone-IsGood :
    (c : Config) (offset : ℕ) (d : Device)
    → IsValid c
    → zone_number c offset < num_zones c
    → IsGood c d
    → Ensures (λ r. IsGood c r.1) (zoned_finish_zone c offset d)
unfolding zoned_finish_zone mark_zone_full_locked
zoned_finish_zone-IsGood c offset d v h k =
    good c (λ r. r.1) (zoned_finish_zone c offset d)
      (zoned_finish_zone-IsSound c offset d h k.sound)
      (Allows-bind _ (mark_zone_full_locked (zone_number c offset) d) _ λ r m.
        Allows_result (λ r. Placed c r.1.zone_info) (mark_zone_full_locked (zone_number c offset) d)
          r
          (Allows-bind _ (get_elem? d.zone_info (zone_number c offset)) _
            (λ z e. mark_by_cond-Placed c z.cond (zone_number c offset) z d v h e k.placed))
          m)

count_reset-zone_info :
    (zone : ℕ) (z : BlkZone) (d : Device)
    → Allows (λ q. q.zone_info ≡ d.zone_info) (count_reset zone z d)
unfolding count_reset
count_reset-zone_info zone z d = Allows-bind _ (get_elem? d.stats zone) _ (λ s e. refl)

reset_by_cond-Placed :
    (c : Config) (cond : ZoneCond) (zone : ℕ) (z : BlkZone) (d : Device)
    → get_elem? d.zone_info zone ≡ some z
    → Placed c d.zone_info
    → Placed c (reset_by_cond cond zone z d).1.zone_info
unfolding reset_by_cond
reset_by_cond-Placed c empty zone z d e p = p
reset_by_cond-Placed c not_wp zone z d e p = p
reset_by_cond-Placed c _ zone z d e p =
    Everywhere-set (IsPlaced c) d.zone_info zone _ p (omega (arith, p zone z e))

-- Resetting a zone of the disk returns, with the counters right and the zones in their places,
-- where they were so before.
pub reset_locked-IsGood :
    (c : Config) (offset : ℕ) (d : Device)
    → zone_number c offset < num_zones c
    → IsGood c d
    → Ensures (λ r. IsGood c r.2) (reset_locked c offset d)
unfolding reset_locked
reset_locked-IsGood c offset d h k =
    good c (λ r. r.2) (reset_locked c offset d) (reset_locked-IsSound c offset d h k.sound)
      (Allows-bind _ (get_elem? d.zone_info (zone_number c offset)) _ λ z e.
        Allows-bind _ (count_reset (zone_number c offset) z d) _ λ q m.
          (let same =
              Allows_result (λ q. q.zone_info ≡ d.zone_info)
                (count_reset (zone_number c offset) z d) q
                (count_reset-zone_info (zone_number c offset) z d) m in
            Allows-bind _
              (get_elem? (reset_by_cond z.cond (zone_number c offset) z q).1.zone_info
                (zone_number c offset))
              _
              λ z' e'.
                reset_by_cond-Placed c z.cond (zone_number c offset) z q
                  (subst (λ zs. get_elem? zs (zone_number c offset) ≡ some z) (sym same) e)
                  (subst (Placed c) (sym same) k.placed)))
