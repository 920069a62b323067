-- ===== src/Zoned/Locks/Cycle.antt =====
-- examples/zoned-common.h: two threads that open zones can wait for each other's locks for ever.
use bius.Zoned.{Config, Device, BlkZone, num_zones, Option, ℕ, ZoneCond, empty, closed}
use bius.Zoned.Locks.{
  Lock, global, zone_lock, Pc, starts, in_zone, waits, in_global, searching, holds, Move, put_owner,
  System, runs, put_pc, begin, Reach, here, next, searches, switch_opens, lock_zone, lock_global,
  lock_other, skip, close, pass, unlock_global, unlock_zone, to_open, to_search, entered,
}
use bius.Zoned.Locks.Exclusive.{IsSafe, Reach-IsSafe, is_owner, same_lock-cases, Step-IsSafe}
use bius.Base.{
  Option, ℕ, ◌≡◌, some, none, false, suc, if◌then◌else◌, ap, ◌==◌, sym, some-injective, ◌∙◌, true,
  ==-cases, refl, inl, ◌||◌, inr, ==_refl, arith, get_elem?, ◌<◌, ◌-◌,
}
use Prim.Native.Nat.{zero}

-- The lock that a thread is about to take.
abbrev pub waits_for : Pc → Option Lock
waits_for (starts z) = some (zone_lock z)
waits_for (waits z) = some global
waits_for (searching z v (suc n)) = if v == z then none else some (zone_lock v)
waits_for _ = none

-- Thread `i` waits for a lock that thread `j` has.
pub record WaitsOn (i j : ℕ) (s : System) : Type 0 where
  pub lock : Lock
  pub waiting : waits_for (s.pc i) ≡ some lock
  pub owner : s.owner lock ≡ some j

-- A thread that waits for a lock moves only if nobody has the lock.
Move-free :
    (c : Config) (i : ℕ) (d d' : Device) (m m' : Lock → Option ℕ) (p p' : Pc) (l : Lock)
    → Move c i d m p d' m' p'
    → waits_for p ≡ some l
    → m l ≡ none
Move-free c i d d' m m' p p' l (lock_zone z h) w = ap m (sym (some-injective _ _ w)) ∙ h
Move-free c i d d' m m' p p' l (lock_global z h) w = ap m (sym (some-injective _ _ w)) ∙ h
Move-free c i d d' m m' p p' l (lock_other z v n e h) w =
    let w' : some (zone_lock v) ≡ some l =
      sym (ap (λ b. if b then none else some (zone_lock v)) e) ∙ w in
    ap m (sym (some-injective _ _ w')) ∙ h
Move-free c i d d' m m' p p' l (skip z v n e) w =
    let w' : none ≡ some l = sym (ap (λ b. if b then none else some (zone_lock v)) e) ∙ w in
    absurd (cc w')
Move-free c i d d' m m' p p' l _ w = absurd (cc w)

taken_owner :
    (m : Lock → Option ℕ) (k l : Lock) (i j : ℕ)
    → m k ≡ none
    → m l ≡ some j
    → put_owner m k (some i) l ≡ some j
taken_owner m k l i j h e = elim (same_lock-cases k l) [
  | inl (t, s) ↦ absurd (cc (ap m s, h, e))
  | inr (t, s) ↦ rw t e
]

given_owner :
    (m : Lock → Option ℕ) (k l : Lock) (p : Pc) (j : ℕ)
    → holds p k ≡ true
    → holds p l ≡ false
    → m l ≡ some j
    → put_owner m k none l ≡ some j
given_owner m k l p j h f e = elim (same_lock-cases k l) [
  | inl (t, s) ↦ absurd (cc (ap (holds p) s, h, f))
  | inr (t, s) ↦ rw t e
]

-- A thread changes the owner of a lock only if nobody has the lock, or it has it itself.
Move-owner :
    (c : Config) (i j : ℕ) (d d' : Device) (m m' : Lock → Option ℕ) (p p' : Pc) (l : Lock)
    → Move c i d m p d' m' p'
    → m l ≡ some j
    → holds p l ≡ false
    → m' l ≡ some j
Move-owner c i j d d' m m' p p' l (lock_zone z x) h e = taken_owner m (zone_lock z) l i j x h
Move-owner c i j d d' m m' p p' l (lock_global z x) h e = taken_owner m global l i j x h
Move-owner c i j d d' m m' p p' l (lock_other z v n y x) h e = taken_owner m (zone_lock v) l i j x h
Move-owner c i j d d' m m' p p' l (close z v n x y t) h e =
    given_owner m (zone_lock v) l p j (ap (λ b. b || (false || (z == v))) (==_refl v)) e h
Move-owner c i j d d' m m' p p' l (pass z v n x y t) h e =
    given_owner m (zone_lock v) l p j (ap (λ b. b || (false || (z == v))) (==_refl v)) e h
Move-owner c i j d d' m m' p p' l (unlock_global z r) h e = given_owner m global l p j refl e h
Move-owner c i j d d' m m' p p' l (unlock_zone z r) h e =
    given_owner m (zone_lock z) l p j (==_refl z) e h
Move-owner c i j d d' m m' p p' l _ h e = h

-- Two threads that wait for each other.
abbrev pub Cycle : ℕ → ℕ → System → Type 0
Cycle i j s = WaitsOn i j s × WaitsOn j i s

pub not_same : (a b : ℕ) → (a == b) ≡ false → (b == a) ≡ false
not_same a b h = ground arith

-- A thread that waits on another does not move.
still :
    (c : Config) (s : System) (k i j : ℕ) (d : Device) (m : Lock → Option ℕ) (p : Pc)
    → Move c k s.device s.owner (s.pc k) d m p
    → WaitsOn i j s
    → (k == i) ≡ false
still c s k i j d m p x w = elim (==-cases k i) [
  | inl (t, e) ↦
      let free =
        Move-free c k s.device d s.owner m (s.pc k) p w.lock x
          (ap (λ n. waits_for (s.pc n)) e ∙ w.waiting) in
      absurd (cc (free, w.owner))
  | inr (t, n) ↦ t
]

Step-WaitsOn :
    (c : Config) (s : System) (k i j : ℕ) (d : Device) (m : Lock → Option ℕ) (p : Pc)
    → IsSafe s
    → Move c k s.device s.owner (s.pc k) d m p
    → WaitsOn i j s
    → (k == j) ≡ false
    → WaitsOn i j (record { device = d; owner = m; pc = put_pc s.pc k p })
Step-WaitsOn c s k i j d m p h x w e = record {
  lock = w.lock;
  waiting = rw (still c s k i j d m p x w) w.waiting;
  owner =
      Move-owner c k j s.device d s.owner m (s.pc k) p w.lock x w.owner
        (sym (h.owners.owned k w.lock) ∙ ap (λ o. is_owner o k) w.owner ∙ not_same k j e);
}

-- Two threads that wait for each other never move again, whatever the others do.
pub Reach-Cycle :
    (c : Config) (s t : System) (i j : ℕ)
    → IsSafe s
    → Cycle i j s
    → Reach c s t
    → (t.pc i ≡ s.pc i) × (t.pc j ≡ s.pc j) × Cycle i j t × IsSafe t
Reach-Cycle c s t i j h w here = (refl, refl, w, h)
Reach-Cycle c s t i j h w (next {t = u} r (runs k d m p x)) =
    let q = Reach-Cycle c s u i j h w r in
    let x_i = still c u k i j d m p x q.2.0 in
    let x_j = still c u k j i d m p x q.2.1 in
    (
      rw x_i q.0,
      rw x_j q.1,
      (Step-WaitsOn c u k i j d m p q.3 x q.2.0 x_j, Step-WaitsOn c u k j i d m p q.3 x q.2.1 x_i),
      Step-IsSafe c u _ (runs k d m p x) q.3,
    )

waits_searching :
    (z v n : ℕ) → 0 < n → (v == z) ≡ false → waits_for (searching z v n) ≡ some (zone_lock v)
waits_searching z v zero h e = absurd (omega arith)
waits_searching z v (suc n) h e = ap (λ b. if b then none else some (zone_lock v)) e

searches-opens :
    (x : ZoneCond) (c : Config) (d : Device) → searches x c d ≡ true → switch_opens x ≡ true
searches-opens empty c d h = refl
searches-opens closed c d h = refl
searches-opens _ c d h = absurd (cc h)

abbrev moved : System → ℕ → Device → (Lock → Option ℕ) → Pc → System
moved s i d m p = record { device = d; owner = m; pc = put_pc s.pc i p }

-- Thread 0 opens the zone `a`, every other one the first sequential zone.
abbrev pub two_zones : Config → ℕ → ℕ → ℕ
two_zones c a i = if i == 0 then a else c.num_conventional_zones

-- On a disk at its limit of open zones, of which one is implicitly open, a thread opens a zone that is
-- closed, or empty while fewer zones are active than may be, and another thread opens the first
-- sequential zone, which is not the same one and is empty, implicitly open or closed: they can come to
-- wait for each other's locks, and then neither ever goes on, whatever the other threads do.
pub open_zone-deadlock :
    (c : Config) (d : Device) (a : ℕ) (x y : BlkZone)
    → get_elem? d.zone_info a ≡ some x
    → searches x.cond c d ≡ true
    → get_elem? d.zone_info c.num_conventional_zones ≡ some y
    → switch_opens y.cond ≡ true
    → (c.num_conventional_zones == a) ≡ false
    → c.num_conventional_zones < num_zones c
    → (s : System) × Reach c (begin d (two_zones c a)) s
      × Cycle 0 1 s
      × ((t : System) → Reach c s t → (t.pc 0 ≡ s.pc 0) × (t.pc 1 ≡ s.pc 1))
open_zone-deadlock c d a x y e h f g n l =
    let b : ℕ = c.num_conventional_zones in
    let s0 = begin d (two_zones c a) in
    let m1 : Lock → Option ℕ = put_owner s0.owner (zone_lock a) (some 0) in
    let m2 : Lock → Option ℕ = put_owner m1 (zone_lock b) (some 1) in
    let m3 : Lock → Option ℕ = put_owner m2 global (some 0) in
    let s1 = moved s0 0 d m1 (in_zone a) in
    let s2 = moved s1 0 d m1 (waits a) in
    let s3 = moved s2 1 d m2 (in_zone b) in
    let s4 = moved s3 1 d m2 (waits b) in
    let s5 = moved s4 0 d m3 (in_global a) in
    let s6 = moved s5 0 (entered x.cond d) m3 (searching a b (num_zones c - b)) in
    let r1 : Reach c s0 s1 = next here (runs 0 d m1 (in_zone a) (lock_zone a refl)) in
    let r2 : Reach c s0 s2 =
      next r1 (runs 0 d m1 (waits a) (to_open a x e (searches-opens x.cond c d h))) in
    let free : m1 (zone_lock b) ≡ none = rw (not_same b a n) refl in
    let r3 : Reach c s0 s3 = next r2 (runs 1 d m2 (in_zone b) (lock_zone b free)) in
    let r4 : Reach c s0 s4 = next r3 (runs 1 d m2 (waits b) (to_open b y f g)) in
    let r5 : Reach c s0 s5 = next r4 (runs 0 d m3 (in_global a) (lock_global a refl)) in
    let r6 : Reach c s0 s6 =
      next r5
        (runs 0 (entered x.cond d) m3 (searching a b (num_zones c - b)) (to_search a x e h)) in
    let cycle : Cycle 0 1 s6 = (
      record {
        lock = zone_lock b;
        waiting = waits_searching a b (num_zones c - b) (omega arith) n;
        owner = rw (==_refl b) refl;
      },
      record { lock = global; waiting = refl; owner = refl },
    ) in
    (
      s6,
      r6,
      cycle,
      λ t r.
          let q = Reach-Cycle c s6 t 0 1 (Reach-IsSafe c d (two_zones c a) s6 r6) cycle r in
          (q.0, q.1),
    )
