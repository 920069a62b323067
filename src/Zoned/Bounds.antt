-- ===== src/Zoned/Bounds.antt =====
-- Where the zones lie and how far their write pointers may go: the layout that `initialize_zone_info`
-- sets up, and that no command changes but for the write pointers.
use bius.Zoned.Counters.{imp_of, open_of, active_of, IsSound}
use bius.Zoned.Init.{
  initial_zone, initial_zones, initialize_zone_info, clear_stats, initialize, allocated,
}
use bius.Zoned.{Config, BlkZone, num_zones, Device}
use bius.Base.{
  ℕ, ◌/◌, ◌≡◌, List, ◌+◌, ◌*◌, suc, ◌<◌, ◌≤◌, ◌^◌, u32_mod, Ensures, arith, sum_of, Everywhere,
  length, Ensures-returns, refl, ap, Everywhere-cons, subst, le→ltb,
}
use Prim.Native.Nat.{ℕ, suc, zero}
use bius.Status.{sector_size}

-- What the programs configure: the zones start below 2 ^ 31 sectors, so no `int` product overflows.
pub record IsValid (c : Config) : Type 0 where
  pub fits : c.zone_size / sector_size * num_zones c ≤ 2 ^ 31
  pub positive : 0 < c.zone_size / sector_size
  pub conventional_in : c.num_conventional_zones ≤ num_zones c
  pub few : num_zones c < u32_mod

-- Zone `i` lies in its place, and its write pointer lies in it.
pub record IsPlaced (c : Config) (i : ℕ) (z : BlkZone) : Type 0 where
  pub start_at : z.start ≡ c.zone_size / sector_size * i
  pub whole : z.len ≡ c.zone_size / sector_size
  pub usable : z.capacity ≡ z.len
  pub wp_from : z.start ≤ z.wp
  pub wp_to : z.wp ≤ z.start + z.len

abbrev pub Placed : Config → List BlkZone → Type 0
Placed c zs = Everywhere (IsPlaced c) zs

initial_zone_lem :
    (c : Config) (i : ℕ)
    → c.zone_size / sector_size * i < 2 ^ 31
    → Ensures
        (λ z. IsPlaced c i z × (imp_of z ≡ 0) × (open_of z ≡ 0) × (active_of z ≡ 0))
        (initial_zone c i)
unfolding initial_zone
initial_zone_lem c i h = ground arith

initial_zones_lem :
    (c : Config) (n i : ℕ)
    → c.zone_size / sector_size * (i + n) ≤ 2 ^ 31
    → 0 < c.zone_size / sector_size
    → Ensures
        (λ zs.
          (sum_of imp_of zs ≡ 0)
          × (sum_of open_of zs ≡ 0)
          × (sum_of active_of zs ≡ 0)
          × (length zs ≡ n)
          × Everywhere (λ j. IsPlaced c (i + j)) zs)
        (initial_zones c n i)
unfolding initial_zones
initial_zones_lem c zero i h p = (refl, refl, refl, refl, λ j z e. absurd (cc))
initial_zones_lem c (suc n) i h p =
    let (z, e, head) = Ensures-returns _ (initial_zone c i) (initial_zone_lem c i (grind arith)) in
    let (zs, es, rest) =
      Ensures-returns _ (initial_zones c n (i + 1))
        (initial_zones_lem c n (i + 1) (grind arith) p) in
    rw (e, initial_zones)
      (rw es (
        omega (arith, head.1, rest.0),
        omega (arith, head.2, rest.1),
        omega (arith, head.3, rest.2),
        omega (arith, rest.3),
        Everywhere-cons (λ j. IsPlaced c (i + j)) z zs
            (subst (λ j. IsPlaced c j z) (omega arith) head.0)
            (λ j a q. subst (λ t. IsPlaced c t a) (omega arith) (rest.4 j a q)),
      ))

clear_stats_length : (n : ℕ) → length (clear_stats n) ≡ n
unfolding clear_stats
clear_stats_length zero = refl
clear_stats_length (suc n) = ap suc (clear_stats_length n)

-- The two invariants of the disk together.
pub record IsGood (c : Config) (d : Device) : Type 0 where
  pub sound : IsSound c d
  pub placed : Placed c d.zone_info

-- `initialize_zone_info` sets the zones up and clears the counters, from any state whose `stats`
-- has a cell for each zone: `initialize` and `zoned_reset_all_zone` call it.
pub initialize_zone_info-IsGood :
    (c : Config) (d : Device)
    → IsValid c
    → length d.stats ≡ num_zones c
    → Ensures (IsGood c) (initialize_zone_info c d)
unfolding initialize_zone_info
initialize_zone_info-IsGood c d v l =
    let (zs, e, r) =
      Ensures-returns _ (initial_zones c (num_zones c) 0)
        (initial_zones_lem c (num_zones c) 0 (grind (arith, v.fits)) v.positive) in
    rw (le→ltb _ _ v.conventional_in, e)
      (record {
        sound = ground (arith, r.0, r.1, r.2, r.3);
        placed = λ i z q. subst (λ t. IsPlaced c t z) (omega arith) (r.4 i z q);
      })

-- On a valid configuration `initialize` returns a disk with the right counters and every zone in
-- its place.
pub initialize-IsGood : (c : Config) → IsValid c → Ensures (IsGood c) (initialize c)
unfolding initialize
initialize-IsGood c v =
    initialize_zone_info-IsGood c (allocated c) v (clear_stats_length (num_zones c))
