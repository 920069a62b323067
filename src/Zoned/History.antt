-- ===== src/Zoned/History.antt =====
-- Whole histories of the zoned disk: a list of commands, in the order in which they take their
-- zone's lock.
use bius.Zoned.Bounds.{IsValid, IsGood, initialize_zone_info-IsGood, initialize-IsGood}
use bius.Zoned.Counters.{IsSound, OpensCleanly, active_of, open_of, open_weight, active_weight}
use bius.Zoned.ManageGood.{
  zoned_open_zone-IsGood, zoned_close_zone-IsGood, zoned_finish_zone-IsGood, reset_locked-IsGood,
}
use bius.Zoned.WriteGood.{write_locked-SeqWrite}
use bius.Zoned.{
  Config, ZoneCond, zone_number, Device, BlkZone, num_zones, imp_open, conventional, empty,
  ZoneType, seqwrite_req,
}
use bius.Zoned.Write.{write_locked, write_by_type, count_written}
use bius.Base.{
  ℕ, List, ◌≤◌, Bool, ◌∷◌, sum_of, Option, ◌<◌, Ensures, leb-cases, ◌>>=◌, arith, Ensures-bind,
  some, get_elem?, inl, get_elem?_total, ◌≡◌, Ensures-mono, ◌^◌, inr, subst, sym, ◌⊎◌,
  lt-length_of_get_elem?, refl,
}
use Prim.Native.Nat.{ℕ}
use mathlib.Core.List.{[]}
use bius.Zoned.Init.{initialize, initialize_zone_info}
use bius.Zoned.Manage.{zoned_open_zone, zoned_close_zone, zoned_finish_zone, reset_locked}
use bius.Zoned.WriteSound.{stat-IsSound}
use mathlib.Core.Bool.{true, false}

pub data Command : Type 0 where
  write : ℕ → ℕ → Bool → Command
  open_zone close_zone finish_zone reset_zone : ℕ → Command
  reset_all_zone : Command

-- The part of each operation that runs under the locks.
unfoldable pub command : Config → Command → Device → Option Device
command c (write offset length append) d = do
  l ← write_locked c offset length append d
  some l.device
command c (open_zone offset) d = do r ← zoned_open_zone c offset d; some r.1
command c (close_zone offset) d = do r ← zoned_close_zone c offset d; some r.1
command c (finish_zone offset) d = do r ← zoned_finish_zone c offset d; some r.1
command c (reset_zone offset) d = do r ← reset_locked c offset d; some r.2
command c reset_all_zone d = initialize_zone_info c d

unfoldable pub run : Config → List Command → Device → Option Device
run c [] d = some d
run c (x ∷ xs) d = do d' ← command c x d; run c xs d'

-- The command is about a zone of the disk, and a length is one that the kernel can ask for.
abbrev pub InRange : Config → Command → Type 0
InRange c (write offset length append) = (zone_number c offset < num_zones c) × (length < 2 ^ 63)
InRange c (open_zone offset) = zone_number c offset < num_zones c
InRange c (close_zone offset) = zone_number c offset < num_zones c
InRange c (finish_zone offset) = zone_number c offset < num_zones c
InRange c (reset_zone offset) = zone_number c offset < num_zones c
InRange c reset_all_zone = Unit {0}

abbrev pub AllInRange : Config → List Command → Type 0
AllInRange c [] = Unit {0}
AllInRange c (x ∷ xs) = InRange c x × AllInRange c xs

open_weight-le-active : (k : ZoneCond) → open_weight k ≤ active_weight k
open_weight-le-active imp_open = omega arith
open_weight-le-active _ = omega arith

open-le-active : (zs : List BlkZone) → sum_of open_of zs ≤ sum_of active_of zs
open-le-active [] = omega arith
open-le-active (z ∷ zs) = omega (arith, open_weight-le-active z.cond, open-le-active zs)

-- Where no more zones may be active than may be open, an empty zone always opens cleanly.
OpensCleanly-of_limits :
    (c : Config) (d : Device) (k : ZoneCond)
    → c.max_active_zones ≤ c.max_open_zones
    → IsSound c d
    → OpensCleanly c d k
OpensCleanly-of_limits c d empty h s = elim (leb-cases c.max_active_zones d.num_active_zones) [
  | inl (_, stopped) ↦ inl stopped
  | inr (_, room) ↦ inr (omega (arith, s.opens, s.actives, open-le-active d.zone_info))
]
OpensCleanly-of_limits c d _ h s = tt

-- A write to a conventional zone touches its statistics only.
conventional_by_type-IsGood :
    (c : Config) (d : Device) (zone : ℕ) (z : BlkZone) (offset length : ℕ) (append : Bool)
    → IsGood c d
    → zone < num_zones c
    → Ensures (λ l. IsGood c l.device) (write_by_type conventional c zone z offset length append d)
unfolding write_by_type count_written
conventional_by_type-IsGood c d zone z offset length true k h = k
conventional_by_type-IsGood c d zone z offset length false k h =
    let (s, e) = get_elem?_total d.stats zone (omega (arith, k.sound.counted)) in
    rw (e, count_written) (record { sound = stat-IsSound c zone _ d k.sound; placed = k.placed })

conventional-IsGood :
    (c : Config) (d : Device) (z : BlkZone) (offset length : ℕ) (append : Bool)
    → IsGood c d
    → get_elem? d.zone_info (zone_number c offset) ≡ some z
    → z.kind ≡ conventional
    → Ensures (λ l. IsGood c l.device) (write_locked c offset length append d)
unfolding write_locked
conventional-IsGood c d z offset length append k g t =
    rw (g, write_locked)
      (subst
        (λ y.
          Ensures (λ l. IsGood c l.device)
            (write_by_type y c (zone_number c offset) z offset length append d))
        (sym t)
        (conventional_by_type-IsGood c d (zone_number c offset) z offset length append k (
          omega
            (arith, lt-length_of_get_elem? d.zone_info (zone_number c offset) z g, k.sound.zones))))

ZoneType-cases : (t : ZoneType) → (t ≡ conventional) ⊎ (t ≡ seqwrite_req)
ZoneType-cases conventional = inl refl
ZoneType-cases seqwrite_req = inr refl

write-IsGood :
    (c : Config) (d : Device) (offset length : ℕ) (append : Bool)
    → IsValid c
    → c.max_active_zones ≤ c.max_open_zones
    → (zone_number c offset < num_zones c) × (length < 2 ^ 63)
    → IsGood c d
    → Ensures (λ l. IsGood c l.device) (write_locked c offset length append d)
write-IsGood c d offset length append v m h k =
    let (z, e) =
      get_elem?_total d.zone_info (zone_number c offset) (omega (arith, k.sound.zones, h.0)) in
    elim (ZoneType-cases z.kind) [
      | inl t ↦ conventional-IsGood c d z offset length append k e t
      | inr t ↦
          Ensures-mono _ _ (write_locked c offset length append d) (λ l r. r.0)
            (write_locked-SeqWrite c d z offset length append v k e t
              (OpensCleanly-of_limits c d z.cond m k.sound) h.1)
    ]

command-IsGood :
    (c : Config) (x : Command) (d : Device)
    → IsValid c
    → c.max_active_zones ≤ c.max_open_zones
    → InRange c x
    → IsGood c d
    → Ensures (IsGood c) (command c x d)
unfolding command
command-IsGood c (write offset length append) d v m h k =
    Ensures-bind _ (write_locked c offset length append d) _ (
      Ensures-mono _ _ (write_locked c offset length append d) (λ l q. q)
        (write-IsGood c d offset length append v m h k))
command-IsGood c (open_zone offset) d v m h k =
    let (z, e) =
      get_elem?_total d.zone_info (zone_number c offset) (omega (arith, k.sound.zones)) in
    Ensures-bind _ (zoned_open_zone c offset d) _
      (zoned_open_zone-IsGood c offset d z v e (OpensCleanly-of_limits c d z.cond m k.sound) k)
command-IsGood c (close_zone offset) d v m h k =
    Ensures-bind _ (zoned_close_zone c offset d) _ (zoned_close_zone-IsGood c offset d h k)
command-IsGood c (finish_zone offset) d v m h k =
    Ensures-bind _ (zoned_finish_zone c offset d) _ (zoned_finish_zone-IsGood c offset d v h k)
command-IsGood c (reset_zone offset) d v m h k =
    Ensures-bind _ (reset_locked c offset d) _ (reset_locked-IsGood c offset d h k)
command-IsGood c reset_all_zone d v m h k = initialize_zone_info-IsGood c d v k.sound.counted

run-IsGood :
    (c : Config) (xs : List Command) (d : Device)
    → IsValid c
    → c.max_active_zones ≤ c.max_open_zones
    → AllInRange c xs
    → IsGood c d
    → Ensures (IsGood c) (run c xs d)
unfolding run
run-IsGood c [] d v m h k = k
run-IsGood c (x ∷ xs) d v m h k = Ensures-bind _ (command c x d) _ (
    Ensures-mono (IsGood c) _ (command c x d) (λ d' k'. run-IsGood c xs d' v m h.1 k')
      (command-IsGood c x d v m h.0 k))

-- On a valid configuration that lets no more zones be active than open, `initialize` and any list
-- of commands on zones of the disk return. The counters are then those of the zones' conditions and
-- within their limits, and every write pointer lies inside its zone.
pub run-initialize-IsGood :
    (c : Config) (xs : List Command)
    → IsValid c
    → c.max_active_zones ≤ c.max_open_zones
    → AllInRange c xs
    → Ensures (IsGood c) (initialize c >>= run c xs)
run-initialize-IsGood c xs v m h = Ensures-bind _ (initialize c) _ (
    Ensures-mono (IsGood c) _ (initialize c) (λ d k. run-IsGood c xs d v m h k)
      (initialize-IsGood c v))
