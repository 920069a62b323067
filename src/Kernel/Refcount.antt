-- ===== src/Kernel/Refcount.antt =====
-- kernel/char_dev.c: `num_connection` counts the open connections of a device.
use bius.Base.{
  [], ◌∷◌, none, some, ℕ, Option, List, ◌≡◌, arith, ◌≤◌, ◌+◌, if◌then◌else◌, ◌<◌, length, ◌==◌,
  refl, u32_mod, suc, ==_refl, inc32, dec32,
}
use bius.Kernel.Conserve.{count}
use bius.Kernel.Lifecycle.{World, dev_open}
use bius.Kernel.CharDev.{list_del}

abbrev pub points_to : ℕ → Option ℕ → ℕ
points_to a none = 0
points_to a (some b) = if a == b then 1 else 0

-- How many of the connections have the device at `a`.
abbrev pub attached : ℕ → List ℕ → (ℕ → Option ℕ) → ℕ
attached a [] block_dev = 0
attached a (i ∷ rest) block_dev = points_to a (block_dev i) + attached a rest block_dev

pub record IsCounted (w : World) : Type 0 where
  pub counted :
      (a : ℕ) → (w.registry.devices a).num_connection ≡ attached a w.connections w.block_dev
  pub distinct : (i : ℕ) → count i w.connections ≤ 1
  pub few : length w.connections < u32_mod

points_to-le : (a : ℕ) (d : Option ℕ) → points_to a d ≤ 1
points_to-le a none = omega arith
points_to-le a (some b) = ground arith

attached-le : (a : ℕ) (is : List ℕ) (m : ℕ → Option ℕ) → attached a is m ≤ length is
attached-le a [] m = omega arith
attached-le a (i ∷ is) m = omega (arith, attached-le a is m, points_to-le a (m i))

abbrev pub changed : (ℕ → Option ℕ) → ℕ → Option ℕ → ℕ → Option ℕ
changed m i d j = if i == j then d else m j

-- A connection that is not listed does not count.
pub attached-changed_other :
    (a : ℕ) (is : List ℕ) (m : ℕ → Option ℕ) (i : ℕ) (d : Option ℕ)
    → count i is ≡ 0
    → attached a is (changed m i d) ≡ attached a is m
attached-changed_other a [] m i d h = refl
attached-changed_other a (j ∷ is) m i d h = ground (arith, attached-changed_other a is m i d)

attached-changed_one :
    (a : ℕ) (is : List ℕ) (m : ℕ → Option ℕ) (i : ℕ) (d : Option ℕ)
    → count i is ≡ 1
    → attached a is (changed m i d) + points_to a (m i) ≡ attached a is m + points_to a d
attached-changed_one a [] m i d h = absurd (omega arith)
attached-changed_one a (j ∷ is) m i d h =
    ground (arith, attached-changed_other a is m i d, attached-changed_one a is m i d)

pub attached-list_del :
    (a : ℕ) (is : List ℕ) (m : ℕ → Option ℕ) (i : ℕ)
    → 0 < count i is
    → attached a (list_del i is) m + points_to a (m i) ≡ attached a is m
unfolding list_del
attached-list_del a [] m i h = absurd (omega arith)
attached-list_del a (j ∷ is) m i h = ground (arith, attached-list_del a is m i)

-- `bius_dev_open` keeps the counts, for a connection at an address that no open one has.
dev_open-IsCounted :
    (i : ℕ) (w : World)
    → count i w.connections ≡ 0
    → suc (length w.connections) < u32_mod
    → IsCounted w
    → IsCounted (dev_open (some i) w).1
unfolding dev_open
dev_open-IsCounted i w h l k = record {
  counted = λ a.
      rw (==_refl i)
        (omega (arith, k.counted a, attached-changed_other a w.connections w.block_dev i none h));
  distinct = λ j. ground (arith, k.distinct j);
  few = l;
}

-- The count that one more connection, without a device before, leaves.
pub counted_attach :
    (a b i : ℕ) (is : List ℕ) (m : ℕ → Option ℕ) (n : ℕ)
    → count i is ≡ 1
    → m i ≡ none
    → length is < u32_mod
    → n ≡ attached a is m
    → (if b == a then inc32 n else n) ≡ attached a is (changed m i (some b))
counted_attach a b i is m n h e f k =
    let one = attached-changed_one a is m i (some b) h in
    let free : points_to a (m i) ≡ 0 = rw e refl in
    ground (arith, one, free, attached-le a is (changed m i (some b)))

pub counted_detach :
    (a b i : ℕ) (is : List ℕ) (m : ℕ → Option ℕ) (n : ℕ)
    → 0 < count i is
    → m i ≡ some b
    → length is < u32_mod
    → n ≡ attached a is m
    → (if b == a then dec32 n else n) ≡ attached a (list_del i is) m
counted_detach a b i is m n h e f k =
    let one = attached-list_del a is m i h in
    let held : points_to a (m i) ≡ (if a == b then 1 else 0) = rw e refl in
    ground (arith, one, held, attached-le a is m)
