-- ===== src/Zoned/Leak.antt =====
-- examples/zoned-common.h, `open_zone_locked` where an empty zone is opened while no open zone is
-- left over: the case EMPTY counts the zone as active before the case CLOSED refuses to open it.
use bius.Zoned.Counters.{active_of, IsSound, shift, is_imp_open→eq}
use bius.Zoned.Open.{
  open_zone_locked, close_from, close_zone_at, open_by_cond, is_imp_open, open_closed,
  close_imp_open_zone,
}
use bius.Base.{
  ℕ, Bool, get_elem?, ◌+◌, ◌≡◌, some, ◌≤◌, length, Ensures, ◌<◌, sum_of, if◌then◌else◌, ltb,
  get_elem?_total, arith, ==-cases, inl, inr, Bool-cases, get_elem?-set_ne, inc32, refl, lt→leb,
  le→leb, Ensures-mono, Ensures-bind, ◌-◌, ◌∙◌, subst, sym,
}
use bius.Zoned.{Config, Device, BlkZone, empty, num_zones, closed, exp_open}
use Prim.Native.Nat.{ℕ, suc, zero}
use bius.Status.{blk_sts_ok, blk_sts_zone_open_resource}

pub close_from_frame :
    (n zone zone_to_skip : ℕ) (d : Device)
    → zone + n ≤ length d.zone_info
    → Ensures
        (λ d'.
          (d'.num_active_zones ≡ d.num_active_zones)
          × (sum_of active_of d'.zone_info ≡ sum_of active_of d.zone_info)
          × (get_elem? d'.zone_info zone_to_skip ≡ get_elem? d.zone_info zone_to_skip)
          × (d'.stats ≡ d.stats)
          × (length d'.zone_info ≡ length d.zone_info))
        (close_from n zone zone_to_skip d)
unfolding close_from close_zone_at
close_from_frame zero zone zone_to_skip d h = (refl, refl, refl, refl, refl)
close_from_frame (suc n) zone zone_to_skip d h =
    let (z, e) = get_elem?_total d.zone_info zone (omega arith) in
    let rest = close_from_frame n (zone + 1) zone_to_skip d (omega arith) in
    elim (==-cases zone zone_to_skip) [
      | inl (skip, _) ↦ rw skip rest
      | inr (visit, other) ↦
          rw (visit, e)
            (elim (Bool-cases (is_imp_open z.cond)) [
              | inl hit ↦ rw hit (
                  let s = shift d.zone_info zone z (record z { cond = closed }) e in
                  (
                    refl,
                    ground (arith, s, is_imp_open→eq z.cond hit),
                    get_elem?-set_ne d.zone_info zone zone_to_skip _ other,
                    refl,
                    s.same_length,
                  ))
              | inr miss ↦ rw miss rest
            ])
    ]

open_closed_full :
    (c : Config) (zone : ℕ) (explicit : Bool) (z : BlkZone) (d : Device)
    → c.num_conventional_zones ≤ num_zones c
    → length d.zone_info ≡ num_zones c
    → c.max_open_zones ≤ d.num_open_zones
    → Ensures
        (λ r.
          (get_elem? r.1.zone_info zone ≡ get_elem? d.zone_info zone)
          × (r.1.num_active_zones ≡ d.num_active_zones)
          × (sum_of active_of r.1.zone_info ≡ sum_of active_of d.zone_info)
          × (r.0 ≡ (if ltb 0 d.num_imp_open_zones then blk_sts_ok else blk_sts_zone_open_resource)))
        (open_closed c zone explicit z d)
unfolding open_closed close_imp_open_zone
open_closed_full c zone explicit z d b l h =
    rw (le→leb _ _ h) (elim (Bool-cases (ltb 0 d.num_imp_open_zones)) [
      | inl t ↦ rw t (
          Ensures-bind _ (close_imp_open_zone c zone d) _ (
            Ensures-mono _ _ (close_imp_open_zone c zone d) (λ d' f. (f.2, f.0, f.1, refl))
              (close_from_frame (num_zones c - c.num_conventional_zones) c.num_conventional_zones
                zone d (omega arith))))
      | inr f ↦ rw f (refl, refl, refl, refl)
    ])

-- In a state whose counters are right, opening an empty zone while as many zones are open as may
-- be, and fewer active than may be, leaves the zone as it was and counts one active zone too many:
-- so the counters are wrong afterwards. The command reports success if another zone was implicitly
-- open, and `BLK_STS_ZONE_OPEN_RESOURCE` if not.
pub open_zone_locked_leaks :
    (c : Config) (zone : ℕ) (explicit : Bool) (d : Device) (z : BlkZone)
    → get_elem? d.zone_info zone ≡ some z
    → z.cond ≡ empty
    → c.num_conventional_zones ≤ num_zones c
    → d.num_active_zones < c.max_active_zones
    → c.max_open_zones ≤ d.num_open_zones
    → IsSound c d
    → Ensures
        (λ r.
          (get_elem? r.1.zone_info zone ≡ some z)
          × (r.1.num_active_zones ≡ sum_of active_of r.1.zone_info + 1)
          × (¬ IsSound c r.1)
          × (r.0 ≡ (if ltb 0 d.num_imp_open_zones then blk_sts_ok else blk_sts_zone_open_resource)))
        (open_zone_locked c zone explicit d)
unfolding open_zone_locked open_by_cond
open_zone_locked_leaks c zone explicit d z e h b a k o =
    rw (e, open_zone_locked)
      (subst (λ cond. Ensures Leaked (open_by_cond cond c zone explicit z d)) (sym h)
        (rw (lt→leb _ _ a) (
          Ensures-mono _ Leaked
            (open_closed c zone explicit z
              (record d { num_active_zones = inc32 d.num_active_zones }))
            (λ r f. (
              f.0 ∙ e,
              leaked r.1 f.1 f.2,
              (λ s. absurd (omega (arith, s.actives, leaked r.1 f.1 f.2))),
              f.3,
            ))
            (open_closed_full c zone explicit z _ b o.zones k))))
  where
    Leaked : ℕ × Device → Type 0
    Leaked r =
        (get_elem? r.1.zone_info zone ≡ some z)
        × (r.1.num_active_zones ≡ sum_of active_of r.1.zone_info + 1)
        × (¬ IsSound c r.1)
        × (r.0 ≡ (if ltb 0 d.num_imp_open_zones then blk_sts_ok else blk_sts_zone_open_resource))

    leaked :
        (q : Device)
        → q.num_active_zones ≡ inc32 d.num_active_zones
        → sum_of active_of q.zone_info ≡ sum_of active_of d.zone_info
        → q.num_active_zones ≡ sum_of active_of q.zone_info + 1
    leaked q i j = ground (
      arith,
      shift d.zone_info zone z (record z { cond = exp_open }) e,
      o.actives,
      o.few,
      o.zones,
    )
