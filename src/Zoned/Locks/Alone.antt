-- ===== src/Zoned/Locks/Alone.antt =====
-- examples/zoned-common.h: the steps of a thread alone, through `close_imp_open_zone`.
use bius.Zoned.{Config, Device, BlkZone, ℕ}
use bius.Zoned.Open.{close_from, is_imp_open, close_zone_at}
use bius.Zoned.Locks.{
  Lock, same_lock, global, zone_lock, Pc, searching, leaving, Move, put_owner, not_found,
  lock_other, close, pass, skip,
}
use bius.Zoned.Locks.Exclusive.{same_lock-cases}
use bius.Status.{blk_sts_ok}
use bius.Base.{
  ℕ, Option, none, ◌≡◌, false, some, inl, inr, suc, refl, subst, some-injective, ◌+◌, get_elem?,
  ◌>>=◌, if◌then◌else◌, ◌==◌, Bool-cases, sym, ap, ◌∙◌, ==-cases,
}
use Prim.Native.Nat.{zero}
use bius.Zoned.Locks.Cycle.{not_same}

-- Steps of thread `i`, one after the other.
pub data Moves (c : Config) (i : ℕ)
    : Device → (Lock → Option ℕ) → Pc → Device → (Lock → Option ℕ) → Pc → Type 0 where
  stop : {d : Device} {m : Lock → Option ℕ} {p : Pc} → Moves c i d m p d m p
  move :
      {d d' d'' : Device} {m m' m'' : Lock → Option ℕ} {p p' p'' : Pc}
      → Move c i d m p d' m' p'
      → Moves c i d' m' p' d'' m'' p''
      → Moves c i d m p d'' m'' p''

-- Only the thread's own locks have an owner.
abbrev pub OwnOnly : ℕ → (Lock → Option ℕ) → Type 0
OwnOnly z m =
    (l : Lock) → same_lock global l ≡ false → same_lock (zone_lock z) l ≡ false → m l ≡ none

-- Where a run from `p` ends: before the global lock is given back, with the result `r`.
abbrev pub Leaves : Config → ℕ → ℕ → Device → (Lock → Option ℕ) → Pc → Device → ℕ → Type 0
Leaves c i z d m p d' r =
    (m' : Lock → Option ℕ) × Moves c i d m p d' m' (leaving z r) × OwnOnly z m'

put_twice :
    (z v : ℕ) (o : Option ℕ) (m : Lock → Option ℕ)
    → OwnOnly z m
    → OwnOnly z (put_owner (put_owner m (zone_lock v) o) (zone_lock v) none)
put_twice z v o m h l a b = elim (same_lock-cases (zone_lock v) l) [
  | inl (t, e) ↦ rw t refl
  | inr (t, e) ↦ rw t (h l a b)
]

pub first :
    (c : Config) (i z : ℕ) (d d1 d2 : Device) (m m1 : Lock → Option ℕ) (p p1 : Pc) (r : ℕ)
    → Move c i d m p d1 m1 p1
    → Leaves c i z d1 m1 p1 d2 r
    → Leaves c i z d m p d2 r
first c i z d d1 d2 m m1 p p1 r x (m', y, h) = (m', move x y, h)

-- A zone on the way, with the search after it.
visit-Leaves :
    (c : Config) (i z v n : ℕ) (d d' : Device) (m : Lock → Option ℕ) (rest : Option Device)
    (o : Option BlkZone)
    → OwnOnly z m
    → ((k : Lock → Option ℕ)
        → OwnOnly z k
        → rest ≡ some d'
        → Leaves c i z d k (searching z (v + 1) n) d' blk_sts_ok)
    → get_elem? d.zone_info v ≡ o
    → (v == z) ≡ false
    → (o >>= λ x. if is_imp_open x.cond then some (close_zone_at d v x) else rest) ≡ some d'
    → Leaves c i z d m (searching z v (suc n)) d' blk_sts_ok
visit-Leaves c i z v n d d' m rest none h again g t e = absurd (cc e)
visit-Leaves c i z v n d d' m rest (some x) h again g t e =
    let locked : Lock → Option ℕ = put_owner m (zone_lock v) (some i) in
    let free : m (zone_lock v) ≡ none = h (zone_lock v) refl (not_same v z t) in
    elim (Bool-cases (is_imp_open x.cond)) [
      | inl u ↦
          subst (λ y. Leaves c i z d m (searching z v (suc n)) y blk_sts_ok)
            (some-injective _ _
              (sym (ap (λ b. if b then some (close_zone_at d v x) else rest) u) ∙ e))
            (
              put_owner locked (zone_lock v) none,
              move (lock_other z v n t free) (move (close z v n x g u) stop),
              put_twice z v (some i) m h,
            )
      | inr u ↦ first c i z d d d' m locked _ _ blk_sts_ok (lock_other z v n t free) (
          first c i z d d d' locked (put_owner locked (zone_lock v) none) _ _ blk_sts_ok
            (pass z v n x g u)
            (again (put_owner locked (zone_lock v) none) (put_twice z v (some i) m h)
              (sym (ap (λ b. if b then some (close_zone_at d v x) else rest) u) ∙ e)))
    ]

pub search-Leaves :
    (c : Config) (i z v n : ℕ) (d d' : Device) (m : Lock → Option ℕ)
    → OwnOnly z m
    → close_from n v z d ≡ some d'
    → Leaves c i z d m (searching z v n) d' blk_sts_ok
unfolding close_from
search-Leaves c i z v zero d d' m h e =
    subst (λ x. Leaves c i z d m (searching z v 0) x blk_sts_ok) (some-injective _ _ e)
      (m, move (not_found z v) stop, h)
search-Leaves c i z v (suc n) d d' m h e =
    let rest : Option Device = close_from n (v + 1) z d in
    let visit : Option Device =
      (get_elem? d.zone_info v >>= λ x.
      if is_imp_open x.cond then some (close_zone_at d v x) else rest) in
    elim (==-cases v z) [
      | inl (t, s) ↦
          first c i z d d d' m m _ _ blk_sts_ok (skip z v n t) (
            search-Leaves c i z (v + 1) n d d' m h
              (sym (ap (λ b. if b then rest else visit) t) ∙ e))
      | inr (t, s) ↦
          visit-Leaves c i z v n d d' m rest (get_elem? d.zone_info v) h
            (λ k x y. search-Leaves c i z (v + 1) n d d' k x y) refl t
            (sym (ap (λ b. if b then rest else visit) t) ∙ e)
    ]
