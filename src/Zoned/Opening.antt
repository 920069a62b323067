-- ===== src/Zoned/Opening.antt =====
-- Opening a zone, or closing another for it, changes conditions only.
use bius.Zoned.Open.{
  close_zone_at, close_from, close_imp_open_zone, open_closed, open_by_cond, open_zone_locked,
  is_imp_open,
}
use bius.Zoned.{
  Config, ZoneCond, ℕ, List, BlkZone, Device, num_zones, exp_open, closed, imp_open, empty, full,
  not_wp,
}
use bius.Base.{
  List, ℕ, Bool, get_elem?, Allows, ◌≡◌, Allows-bind, suc, ◌+◌, some, Bool-cases, set,
  Everywhere-set, ◌==◌, leb, inl, ltb, inr, inc32, Allows_result, ◌-◌, Everywhere,
}
use Prim.Native.Nat.{zero}
use mathlib.Core.Bool.{true, false}
use bius.Zoned.Write.{open_to_write}

-- What a condition says nothing of, zone by zone, is kept by opening and closing.
module _ (P : ℕ → BlkZone → Type 0)
    (keeps : (i : ℕ) (z : BlkZone) (k : ZoneCond) → P i z → P i (record z { cond = k })) where
  cond-Everywhere :
      (zs : List BlkZone) (i : ℕ) (z : BlkZone) (k : ZoneCond)
      → get_elem? zs i ≡ some z
      → Everywhere P zs
      → Everywhere P (set zs i (record z { cond = k }))
  cond-Everywhere zs i z k e p = Everywhere-set P zs i _ p (keeps i z k (p i z e))

  close_from-Everywhere :
      (n zone zone_to_skip : ℕ) (d : Device)
      → Everywhere P d.zone_info
      → Allows (λ d'. Everywhere P d'.zone_info) (close_from n zone zone_to_skip d)
  unfolding close_from close_zone_at
  close_from-Everywhere zero zone zone_to_skip d p = p
  close_from-Everywhere (suc n) zone zone_to_skip d p =
      let rest = close_from-Everywhere n (zone + 1) zone_to_skip d p in
      elim (Bool-cases (zone == zone_to_skip)) [
        | inl skip ↦ rw skip rest
        | inr visit ↦ rw visit (
            Allows-bind _ (get_elem? d.zone_info zone) _ (λ z e.
              elim (Bool-cases (is_imp_open z.cond)) [
                | inl hit ↦ rw hit (cond-Everywhere d.zone_info zone z closed e p)
                | inr miss ↦ rw miss rest
              ]))
      ]

  open_closed-Everywhere :
      (c : Config) (zone : ℕ) (explicit : Bool) (z : BlkZone) (d : Device)
      → get_elem? d.zone_info zone ≡ some z
      → Everywhere P d.zone_info
      → Allows (λ r. Everywhere P r.1.zone_info) (open_closed c zone explicit z d)
  unfolding open_closed close_imp_open_zone
  open_closed-Everywhere c zone explicit z d e p =
      elim (Bool-cases (leb c.max_open_zones d.num_open_zones)) [
        | inl t ↦ rw t (elim (Bool-cases (ltb 0 d.num_imp_open_zones)) [
          | inl u ↦ rw u (
              Allows-bind _ (close_imp_open_zone c zone d) _ (λ d' q.
                Allows_result (λ d'. Everywhere P d'.zone_info) (close_imp_open_zone c zone d) d'
                  (close_from-Everywhere (num_zones c - c.num_conventional_zones)
                    c.num_conventional_zones zone d p)
                  q))
          | inr u ↦ rw u p
        ])
        | inr t ↦ rw t (elim (Bool-cases explicit) [
          | inl u ↦ rw u (cond-Everywhere d.zone_info zone z exp_open e p)
          | inr u ↦ rw u (cond-Everywhere d.zone_info zone z imp_open e p)
        ])
      ]

  open_by_cond-Everywhere :
      (c : Config) (cond : ZoneCond) (zone : ℕ) (explicit : Bool) (z : BlkZone) (d : Device)
      → get_elem? d.zone_info zone ≡ some z
      → Everywhere P d.zone_info
      → Allows (λ r. Everywhere P r.1.zone_info) (open_by_cond cond c zone explicit z d)
  unfolding open_by_cond
  open_by_cond-Everywhere c imp_open zone true z d e p =
      cond-Everywhere d.zone_info zone z exp_open e p
  open_by_cond-Everywhere c imp_open zone false z d e p = p
  open_by_cond-Everywhere c exp_open zone explicit z d e p = p
  open_by_cond-Everywhere c empty zone explicit z d e p =
      elim (Bool-cases (leb c.max_active_zones d.num_active_zones)) [
        | inl t ↦ rw t p
        | inr t ↦ rw t (
            open_closed-Everywhere c zone explicit z
              (record d { num_active_zones = inc32 d.num_active_zones }) e p)
      ]
  open_by_cond-Everywhere c closed zone explicit z d e p =
      open_closed-Everywhere c zone explicit z d e p
  open_by_cond-Everywhere c full zone explicit z d e p = p
  open_by_cond-Everywhere c not_wp zone explicit z d e p = p

  pub open_zone_locked-Everywhere :
      (c : Config) (zone : ℕ) (explicit : Bool) (d : Device)
      → Everywhere P d.zone_info
      → Allows (λ r. Everywhere P r.1.zone_info) (open_zone_locked c zone explicit d)
  unfolding open_zone_locked
  open_zone_locked-Everywhere c zone explicit d p =
      Allows-bind _ (get_elem? d.zone_info zone) _
        (λ z e. open_by_cond-Everywhere c z.cond zone explicit z d e p)

  pub open_to_write-Everywhere :
      (c : Config) (cond : ZoneCond) (zone : ℕ) (d : Device)
      → Everywhere P d.zone_info
      → Allows (λ r. Everywhere P r.1.zone_info) (open_to_write cond c zone d)
  unfolding open_to_write
  open_to_write-Everywhere c empty zone d p = open_zone_locked-Everywhere c zone false d p
  open_to_write-Everywhere c closed zone d p = open_zone_locked-Everywhere c zone false d p
  open_to_write-Everywhere c imp_open zone d p = p
  open_to_write-Everywhere c exp_open zone d p = p
  open_to_write-Everywhere c full zone d p = p
  open_to_write-Everywhere c not_wp zone d p = p
