-- ===== src/Zoned/Locks/Exclusive.antt =====
-- examples/zoned-common.h: no lock ever has two holders.
use bius.Zoned.{Config, Device, Option, Bool}
use bius.Zoned.Locks.{
  Lock, same_lock, global, zone_lock, Pc, in_search, leaving, left, holds, Move, put_owner, System,
  Step, runs, put_pc, begin, Reach, here, next, lock_other, lock_zone, lock_global, close, pass,
  unlock_global, unlock_zone, to_open, to_leave, open_zone, to_search, skip, not_found,
}
use bius.Base.{
  Bool, Option, ◌≡◌, ℕ, if◌then◌else◌, true, false, ◌⊎◌, none, ==_refl, ==-cases, some, ◌≢◌, refl,
  inl, inr, ◌==◌, ◌∙◌, ap, sym, arith, ◌||◌, if_both,
}

pub same_lock-cases :
    (k l : Lock) → ((same_lock k l ≡ true) × (k ≡ l)) ⊎ ((same_lock k l ≡ false) × (k ≢ l))
same_lock-cases global global = inl (refl, refl)
same_lock-cases global (zone_lock w) = inr (refl, λ e. cc e)
same_lock-cases (zone_lock v) global = inr (refl, λ e. cc e)
same_lock-cases (zone_lock v) (zone_lock w) = elim (==-cases v w) [
  | inl (t, e) ↦ inl (t, ap zone_lock e)
  | inr (t, n) ↦ inr (t, λ e. n (ap number e))
]
  where
    number : Lock → ℕ
    number global = 0
    number (zone_lock z) = z

same_lock_refl : (l : Lock) → same_lock l l ≡ true
same_lock_refl global = refl
same_lock_refl (zone_lock z) = ==_refl z

abbrev pub is_owner : Option ℕ → ℕ → Bool
is_owner none i = false
is_owner (some j) i = j == i

-- The owner of each lock is the one thread that has it, and a search has no zone twice.
pub record IsOwned (m : Lock → Option ℕ) (pc : ℕ → Pc) : Type 0 where
  pub owned : (i : ℕ) (l : Lock) → is_owner (m l) i ≡ holds (pc i) l

-- The change of one lock of a thread, from `p` to `p'`.
abbrev Changes : Lock → Bool → Pc → Pc → Type 0
Changes l b p p' = (k : Lock) → holds p' k ≡ (if same_lock l k then b else holds p k)

changed_at :
    (l : Lock) (b : Bool) (p p' : Pc) (k : Lock)
    → same_lock l k ≡ true
    → holds p' k ≡ (if same_lock l k then b else holds p k)
    → holds p' k ≡ b
changed_at l b p p' k t h = h ∙ ap (λ c. if c then b else holds p k) t

kept_at :
    (l : Lock) (b : Bool) (p p' : Pc) (k : Lock)
    → same_lock l k ≡ false
    → holds p' k ≡ (if same_lock l k then b else holds p k)
    → holds p' k ≡ holds p k
kept_at l b p p' k t h = h ∙ ap (λ c. if c then b else holds p k) t

-- A lock that a thread has is no other's.
pub other_owner :
    (o : Option ℕ) (i j : ℕ) → is_owner o i ≡ true → (i == j) ≡ false → is_owner o j ≡ false
other_owner none i j h e = absurd (cc)
other_owner (some n) i j h e = ground arith

take-IsOwned :
    (m : Lock → Option ℕ) (pc : ℕ → Pc) (i : ℕ) (l : Lock) (p : Pc)
    → m l ≡ none
    → Changes l true (pc i) p
    → IsOwned m pc
    → IsOwned (put_owner m l (some i)) (put_pc pc i p)
take-IsOwned m pc i l p e h q = record {
  owned = λ j k. elim (same_lock-cases l k) [
    | inl (t, s) ↦ elim (==-cases i j) [
      | inl (u, x) ↦ rw (t, u) (sym (changed_at l true (pc i) p k t (h k)))
      | inr (u, x) ↦ rw (t, u) (sym (ap (λ o. is_owner o j) (ap m (sym s) ∙ e)) ∙ q.owned j k)
    ]
    | inr (t, s) ↦ elim (==-cases i j) [
      | inl (u, x) ↦
          rw (t, u)
            (q.owned j k
              ∙ ap (λ n. holds (pc n) k) (sym x)
              ∙ sym (kept_at l true (pc i) p k t (h k)))
      | inr (u, x) ↦ rw (t, u) (q.owned j k)
    ]
  ];
}

give-IsOwned :
    (m : Lock → Option ℕ) (pc : ℕ → Pc) (i : ℕ) (l : Lock) (p : Pc)
    → holds (pc i) l ≡ true
    → Changes l false (pc i) p
    → IsOwned m pc
    → IsOwned (put_owner m l none) (put_pc pc i p)
give-IsOwned m pc i l p e h q = record {
  owned = λ j k. elim (same_lock-cases l k) [
    | inl (t, s) ↦ elim (==-cases i j) [
      | inl (u, x) ↦ rw (t, u) (sym (changed_at l false (pc i) p k t (h k)))
      | inr (u, x) ↦
          rw (t, u)
            (sym (ap (λ o. is_owner o j) (ap m (sym s)) ∙ other_owner (m l) i j (q.owned i l ∙ e) u)
              ∙ q.owned j k)
    ]
    | inr (t, s) ↦ elim (==-cases i j) [
      | inl (u, x) ↦
          rw (t, u)
            (q.owned j k
              ∙ ap (λ n. holds (pc n) k) (sym x)
              ∙ sym (kept_at l false (pc i) p k t (h k)))
      | inr (u, x) ↦ rw (t, u) (q.owned j k)
    ]
  ];
}

keep-IsOwned :
    (m : Lock → Option ℕ) (pc : ℕ → Pc) (i : ℕ) (p : Pc)
    → ((k : Lock) → holds p k ≡ holds (pc i) k)
    → IsOwned m pc
    → IsOwned m (put_pc pc i p)
keep-IsOwned m pc i p h q = record {
  owned = λ j k. elim (==-cases i j) [
    | inl (t, e) ↦ rw t (q.owned j k ∙ ap (λ n. holds (pc n) k) (sym e) ∙ sym (h k))
    | inr (t, n) ↦ rw t (q.owned j k)
  ];
}

from : (l : Lock) (b : Bool) (o p p' : Pc) → o ≡ p → Changes l b p p' → Changes l b o p'
from l b o p p' e h k = h k ∙ ap (λ p. if same_lock l k then b else holds p k) (sym e)

-- A search is never at its own zone under that zone's lock.
abbrev pub Apart : Pc → Type 0
Apart (in_search z v n) = (v == z) ≡ false
Apart _ = Unit {0}

Move-Apart :
    (c : Config) (i : ℕ) (d d' : Device) (m m' : Lock → Option ℕ) (p p' : Pc)
    → Move c i d m p d' m' p'
    → Apart p'
Move-Apart c i d d' m m' p p' (lock_other z v n h e) = h
Move-Apart c i d d' m m' p p' _ = tt

or_if : (a b : Bool) → (a || b) ≡ (if a then true else b)
or_if true b = refl
or_if false b = refl

if_true : (a : Bool) → a ≡ (if a then true else false)
if_true true = refl
if_true false = refl

if_none : (a : Bool) → false ≡ (if a then false else a)
if_none true = refl
if_none false = refl

leaves_global : (z : ℕ) → Changes global false (leaving z 0) (left z 0)
leaves_global z global = refl
leaves_global z (zone_lock w) = refl

leaves_other :
    (z v : ℕ) → (v == z) ≡ false → Changes (zone_lock v) false (in_search z v 0) (leaving z 0)
leaves_other z v h global = refl
leaves_other z v h (zone_lock w) = ground arith

Move-IsOwned :
    (c : Config) (i : ℕ) (d d' : Device) (m m' : Lock → Option ℕ) (pc : ℕ → Pc) (p p' : Pc)
    → pc i ≡ p
    → Apart p
    → Move c i d m p d' m' p'
    → IsOwned m pc
    → IsOwned m' (put_pc pc i p')
Move-IsOwned c i d d' m m' pc p p' e a (lock_zone z h) q =
    take-IsOwned m pc i (zone_lock z) p' h
      (from (zone_lock z) true (pc i) p p' e λ k. if_true (same_lock (zone_lock z) k)) q
Move-IsOwned c i d d' m m' pc p p' e a (lock_global z h) q =
    take-IsOwned m pc i global p' h
      (from global true (pc i) p p' e λ k. or_if (same_lock global k) (same_lock (zone_lock z) k)) q
Move-IsOwned c i d d' m m' pc p p' e a (lock_other z v n x h) q =
    take-IsOwned m pc i (zone_lock v) p' h
      (from (zone_lock v) true (pc i) p p' e
        λ k. or_if (same_lock (zone_lock v) k) (same_lock global k || same_lock (zone_lock z) k))
      q
Move-IsOwned c i d d' m m' pc p p' e a (close z v n x h t) q =
    give-IsOwned m pc i (zone_lock v) p'
      (ap (λ p. holds p (zone_lock v)) e ∙ ap (λ b. b || (false || z == v)) (==_refl v))
      (from (zone_lock v) false (pc i) p p' e (leaves_other z v a)) q
Move-IsOwned c i d d' m m' pc p p' e a (pass z v n x h t) q =
    give-IsOwned m pc i (zone_lock v) p'
      (ap (λ p. holds p (zone_lock v)) e ∙ ap (λ b. b || (false || z == v)) (==_refl v))
      (from (zone_lock v) false (pc i) p p' e (leaves_other z v a)) q
Move-IsOwned c i d d' m m' pc p p' e a (unlock_global z r) q =
    give-IsOwned m pc i global p' (ap (λ p. holds p global) e)
      (from global false (pc i) p p' e (leaves_global z)) q
Move-IsOwned c i d d' m m' pc p p' e a (unlock_zone z r) q =
    give-IsOwned m pc i (zone_lock z) p' (ap (λ p. holds p (zone_lock z)) e ∙ ==_refl z)
      (from (zone_lock z) false (pc i) p p' e λ k. if_none (same_lock (zone_lock z) k)) q
Move-IsOwned c i d d' m m' pc p p' e a (to_open z x h t) q =
    keep-IsOwned m pc i p' (λ k. ap (λ p. holds p k) (sym e)) q
Move-IsOwned c i d d' m m' pc p p' e a (to_leave z r x h t u) q =
    keep-IsOwned m pc i p' (λ k. ap (λ p. holds p k) (sym e)) q
Move-IsOwned c i d d' m m' pc p p' e a (open_zone z r x y h t u) q =
    keep-IsOwned m pc i p' (λ k. ap (λ p. holds p k) (sym e)) q
Move-IsOwned c i d d' m m' pc p p' e a (to_search z x h t) q =
    keep-IsOwned m pc i p' (λ k. ap (λ p. holds p k) (sym e)) q
Move-IsOwned c i d d' m m' pc p p' e a (skip z v n h) q =
    keep-IsOwned m pc i p' (λ k. ap (λ p. holds p k) (sym e)) q
Move-IsOwned c i d d' m m' pc p p' e a (not_found z v) q =
    keep-IsOwned m pc i p' (λ k. ap (λ p. holds p k) (sym e)) q

-- The owners are the holders, and no search is at its own zone.
pub record IsSafe (s : System) : Type 0 where
  pub owners : IsOwned s.owner s.pc
  pub apart : (i : ℕ) → Apart (s.pc i)

pub Step-IsSafe : (c : Config) (s t : System) → Step c s t → IsSafe s → IsSafe t
Step-IsSafe c s t (runs i d m p x) h = record {
  owners = Move-IsOwned c i s.device d s.owner m s.pc (s.pc i) p refl (h.apart i) x h.owners;
  apart = λ j.
      if_both Apart (i == j) p (s.pc j) (λ _. Move-Apart c i s.device d s.owner m (s.pc i) p x)
        (λ _. h.apart j);
}

pub begin-IsSafe : (d : Device) (zones : ℕ → ℕ) → IsSafe (begin d zones)
begin-IsSafe d zones = record { owners = record { owned = λ i l. refl }; apart = λ i. tt }

pub Reach-IsSafe :
    (c : Config) (d : Device) (zones : ℕ → ℕ) (s : System) → Reach c (begin d zones) s → IsSafe s
Reach-IsSafe c d zones s here = begin-IsSafe d zones
Reach-IsSafe c d zones s (next {t = t} r x) = Step-IsSafe c t s x (Reach-IsSafe c d zones t r)

-- However the threads that open zones are interleaved, no two of them ever have the same lock.
pub Reach-exclusive :
    (c : Config) (d : Device) (zones : ℕ → ℕ) (s : System) (i j : ℕ) (l : Lock)
    → Reach c (begin d zones) s
    → holds (s.pc i) l ≡ true
    → holds (s.pc j) l ≡ true
    → i ≡ j
Reach-exclusive c d zones s i j l r h k =
    let q = (Reach-IsSafe c d zones s r).owners in
    elim (==-cases i j) [
      | inl (t, e) ↦ e
      | inr (t, n) ↦ absurd (cc (other_owner (s.owner l) i j (q.owned i l ∙ h) t, q.owned j l, k))
    ]
