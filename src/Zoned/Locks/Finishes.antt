-- ===== src/Zoned/Locks/Finishes.antt =====
-- examples/zoned-common.h: a thread that opens a zone alone does what `zoned_open_zone` does.
use bius.Zoned.{
  Config, Device, BlkZone, ZoneCond, empty, closed, imp_open, exp_open, full, not_wp, num_zones, ℕ,
}
use bius.Zoned.Open.{open_zone_locked, open_by_cond, open_closed, close_imp_open_zone}
use bius.Zoned.Manage.{zoned_open_zone_by}
use bius.Zoned.Locks.{
  open_zone, Lock, global, zone_lock, Pc, starts, in_global, searching, leaving, done, put_owner,
  searches, entered, switch_opens, open_zone, to_search, lock_zone, unlock_global, to_open,
  unlock_zone, lock_global, to_leave,
}
use bius.Zoned.Locks.Exclusive.{same_lock-cases}
use bius.Status.{blk_sts_ok}
use bius.Base.{
  ℕ, Option, none, ◌≡◌, false, some, inl, inr, refl, subst, some-injective, get_elem?, ◌>>=◌,
  Bool-cases, sym, ap, ◌∙◌, true, ◌-◌, leb, Bool, ◌&&◌, ltb, lt→leb, ltb→lt,
}
use bius.Zoned.Locks.Alone.{Moves, stop, move, OwnOnly, Leaves, first, search-Leaves}

both_true : (a b : Bool) → (a && b) ≡ true → (a ≡ true) × (b ≡ true)
both_true true b h = (refl, h)
both_true false b h = absurd (cc h)

open_closed-search :
    (c : Config) (z : ℕ) (y : BlkZone) (d : Device)
    → (leb c.max_open_zones d.num_open_zones && ltb 0 d.num_imp_open_zones) ≡ true
    → open_closed c z true y d ≡ (close_imp_open_zone c z d >>= λ d'. some (blk_sts_ok, d'))
unfolding open_closed
open_closed-search c z y d h =
    let q = both_true (leb c.max_open_zones d.num_open_zones) (ltb 0 d.num_imp_open_zones) h in
    rw (q.0, q.1) refl

-- The search from `open_zone_locked`.
open_by_cond-search :
    (x : ZoneCond) (c : Config) (z : ℕ) (y : BlkZone) (d : Device)
    → searches x c d ≡ true
    → open_by_cond x c z true y d
      ≡ (close_imp_open_zone c z (entered x d) >>= λ d'. some (blk_sts_ok, d'))
unfolding open_by_cond
open_by_cond-search closed c z y d h = open_closed-search c z y d h
open_by_cond-search empty c z y d h =
    let below : Bool = ltb d.num_active_zones c.max_active_zones in
    let limit : Bool = leb c.max_open_zones d.num_open_zones in
    let q = both_true (below && limit) (ltb 0 d.num_imp_open_zones) h in
    let p = both_true below limit q.0 in
    rw
      (lt→leb c.max_active_zones d.num_active_zones
        (ltb→lt d.num_active_zones c.max_active_zones p.0))
      (open_closed-search c z y (entered empty d) (rw (p.1, q.1) refl))
open_by_cond-search _ c z y d h = absurd (cc h)

zoned_open_zone_by-opens :
    (x : ZoneCond) (c : Config) (z : ℕ) (d : Device)
    → switch_opens x ≡ true
    → zoned_open_zone_by x c z d ≡ open_zone_locked c z true d
unfolding zoned_open_zone_by
zoned_open_zone_by-opens empty c z d h = refl
zoned_open_zone_by-opens imp_open c z d h = refl
zoned_open_zone_by-opens closed c z d h = refl
zoned_open_zone_by-opens _ c z d h = absurd (cc h)

zoned_open_zone_by-refuses :
    (x : ZoneCond) (c : Config) (z r : ℕ) (d d' : Device)
    → switch_opens x ≡ false
    → zoned_open_zone_by x c z d ≡ some (r, d')
    → d ≡ d'
unfolding zoned_open_zone_by
zoned_open_zone_by-refuses exp_open c z r d d' h e =
    ap (λ (q : ℕ × Device). q.1) (some-injective _ _ e)
zoned_open_zone_by-refuses full c z r d d' h e = ap (λ (q : ℕ × Device). q.1) (some-injective _ _ e)
zoned_open_zone_by-refuses not_wp c z r d d' h e =
    ap (λ (q : ℕ × Device). q.1) (some-injective _ _ e)
zoned_open_zone_by-refuses _ c z r d d' h e = absurd (cc h)

abbrev closes : Option Device → Option (ℕ × Device)
closes o = o >>= λ d'. some (blk_sts_ok, d')

closed_one :
    (c : Config) (i z r : ℕ) (d d' : Device) (m : Lock → Option ℕ) (o : Option Device)
    → OwnOnly z m
    → close_imp_open_zone c z d ≡ o
    → closes o ≡ some (r, d')
    → Leaves c i z d m
        (searching z c.num_conventional_zones (num_zones c - c.num_conventional_zones))
        d'
        r
unfolding close_imp_open_zone
closed_one c i z r d d' m none h e g = absurd (cc g)
closed_one c i z r d d' m (some y) h e g =
    let same = some-injective _ _ g in
    subst
      (λ (x : ℕ × Device).
        Leaves c i z d m
          (searching z c.num_conventional_zones (num_zones c - c.num_conventional_zones)) x.1 x.0)
      same
      (search-Leaves c i z c.num_conventional_zones (num_zones c - c.num_conventional_zones) d y m h
        e)

open_zone_locked-open_by_cond :
    (c : Config) (z : ℕ) (d : Device) (x : BlkZone)
    → get_elem? d.zone_info z ≡ some x
    → open_zone_locked c z true d ≡ open_by_cond x.cond c z true x d
unfolding open_zone_locked
open_zone_locked-open_by_cond c z d x g = ap (λ o. o >>= λ y. open_by_cond y.cond c z true y d) g

-- Under both locks.
in_global-Leaves :
    (c : Config) (i z r : ℕ) (d d' : Device) (m : Lock → Option ℕ) (x : BlkZone)
    → OwnOnly z m
    → get_elem? d.zone_info z ≡ some x
    → open_zone_locked c z true d ≡ some (r, d')
    → Leaves c i z d m (in_global z) d' r
in_global-Leaves c i z r d d' m x h g e = elim (Bool-cases (searches x.cond c d)) [
  | inr t ↦ (m, move (open_zone z r x d' g t e) stop, h)
  | inl t ↦ first c i z d (entered x.cond d) d' m m _ _ r (to_search z x g t) (
      closed_one c i z r (entered x.cond d) d' m (close_imp_open_zone c z (entered x.cond d)) h refl
        (sym (open_by_cond-search x.cond c z x d t)
          ∙ sym (open_zone_locked-open_by_cond c z d x g)
          ∙ e))
]

Moves-append :
    (c : Config) (i : ℕ) (d d1 d2 : Device) (m m1 m2 : Lock → Option ℕ) (p p1 p2 : Pc)
    → Moves c i d m p d1 m1 p1
    → Moves c i d1 m1 p1 d2 m2 p2
    → Moves c i d m p d2 m2 p2
Moves-append c i d d1 d2 m m1 m2 p p1 p2 stop y = y
Moves-append c i d d1 d2 m m1 m2 p p1 p2 (move x r) y =
    move x (Moves-append c i _ d1 d2 _ m1 m2 _ p1 p2 r y)

-- A run to the end that gives back every lock.
abbrev pub Finishes : Config → ℕ → Device → (Lock → Option ℕ) → Pc → Device → ℕ → Type 0
Finishes c i d m p d' r =
    (m' : Lock → Option ℕ) × Moves c i d m p d' m' (done r) × ((l : Lock) → m' l ≡ none)

given_back :
    (z : ℕ) (m : Lock → Option ℕ)
    → OwnOnly z m
    → (l : Lock) → put_owner (put_owner m global none) (zone_lock z) none l ≡ none
given_back z m h l = elim (same_lock-cases (zone_lock z) l) [
  | inl (t, e) ↦ rw t refl
  | inr (t, e) ↦
      rw t
        (elim (same_lock-cases global l) [ inl (u, f) ↦ rw u refl | inr (u, f) ↦ rw u (h l u t) ])
]

Leaves-Finishes :
    (c : Config) (i z r : ℕ) (d d' : Device) (m : Lock → Option ℕ) (p : Pc)
    → Leaves c i z d m p d' r
    → Finishes c i d m p d' r
Leaves-Finishes c i z r d d' m p (m', y, h) = (
  put_owner (put_owner m' global none) (zone_lock z) none,
  Moves-append c i d d' d' m m' _ p (leaving z r) (done r) y
      (move (unlock_global z r) (move (unlock_zone z r) stop)),
  given_back z m' h,
)

-- A thread that opens a zone of the disk alone, with every lock free, comes to an end with the result
-- of `zoned_open_zone`, leaves the disk as that does, and has given back every lock.
pub starts-Finishes :
    (c : Config) (i z r : ℕ) (d d' : Device) (x : BlkZone)
    → get_elem? d.zone_info z ≡ some x
    → zoned_open_zone_by x.cond c z d ≡ some (r, d')
    → Finishes c i d (λ l. none) (starts z) d' r
starts-Finishes c i z r d d' x g e =
    let m1 : Lock → Option ℕ = put_owner (λ l. none) (zone_lock z) (some i) in
    let m2 : Lock → Option ℕ = put_owner m1 global (some i) in
    elim (Bool-cases (switch_opens x.cond)) [
      | inl t ↦
          Leaves-Finishes c i z r d d' (λ l. none) (starts z)
            (first c i z d d d' (λ l. none) m1 _ _ r (lock_zone z refl)
              (first c i z d d d' m1 m1 _ _ r (to_open z x g t) (
                first c i z d d d' m1 m2 _ _ r (lock_global z refl) (
                  in_global-Leaves c i z r d d' m2 x (λ l a b. rw (a, b) refl) g
                    (sym (zoned_open_zone_by-opens x.cond c z d t) ∙ e)))))
      | inr t ↦ (
        put_owner m1 (zone_lock z) none,
        subst (λ y. Moves c i d (λ l. none) (starts z) y (put_owner m1 (zone_lock z) none) (done r))
            (zoned_open_zone_by-refuses x.cond c z r d d' t e)
            (move (lock_zone z refl) (
              move
                (to_leave z r x g t (
                  e
                  ∙ ap (λ y. some (r, y)) (sym (zoned_open_zone_by-refuses x.cond c z r d d' t e))))
                (move (unlock_zone z r) stop))),
        λ l. elim (same_lock-cases (zone_lock z) l) [
          | inl (u, f) ↦ rw u refl
          | inr (u, f) ↦ rw u refl
        ],
      )
    ]
