-- ===== src/Kernel/Departs.antt =====
-- kernel/char_dev.c: the end of a connection keeps `num_connection` right.
use bius.Base.{
  [], ◌∷◌, none, some, Option, ℕ, List, ◌≡◌, ==-cases, refl, length, ◌<◌, arith, inl, ◌∙◌, ◌≤◌,
  ◌==◌, ap, dec32, inr, sym,
}
use bius.Kernel.Conserve.{count, list_del-count}
use bius.Kernel.CharDev.{list_del}
use bius.Kernel.Registry.{Registry, remove_block_device, remove_found}
use bius.Kernel.Lifecycle.{World, detach, detach_from, remove, release}
use bius.Kernel.Refcount.{
  IsCounted, attached, changed, points_to, counted_detach, attached-changed_other,
  attached-list_del,
}
use bius.Kernel.Counted.{SameCounts, num_if, at_same}

remove_found-SameCounts : (o : Option ℕ) (r : Registry) → SameCounts r (remove_found o r)
unfolding remove_found
remove_found-SameCounts none r = λ a. refl
remove_found-SameCounts (some b) r = λ a. elim (==-cases b a) [
  | inl (t, e) ↦ rw t (ap (λ c. (r.devices c).num_connection) e)
  | inr (t, e) ↦ rw t refl
]

remove-SameCounts : (o : Option ℕ) (w : World) → SameCounts w.registry (remove o w).registry
unfolding remove remove_block_device
remove-SameCounts none w = λ a. refl
remove-SameCounts (some b) w = remove_found-SameCounts _ w.registry

remove_frame :
    (o : Option ℕ) (w : World)
    → ((remove o w).connections ≡ w.connections) × ((remove o w).block_dev ≡ w.block_dev)
unfolding remove
remove_frame none w = (refl, refl)
remove_frame (some b) w = (refl, refl)

length-list_del : (i : ℕ) (is : List ℕ) → length (list_del i is) ≤ length is
unfolding list_del
length-list_del i [] = omega arith
length-list_del i (j ∷ is) = ground (arith, length-list_del i is)

-- The counts once the connection at `i` is gone from the list.
abbrev CountedWithout : ℕ → World → World → Type 0
CountedWithout i w v =
    ((a : ℕ)
      → (v.registry.devices a).num_connection ≡ attached a (list_del i w.connections) w.block_dev)
    × (v.connections ≡ w.connections)
    × (v.block_dev ≡ w.block_dev)

detach_from-Counted :
    (i : ℕ) (d : Option ℕ) (w : World)
    → w.block_dev i ≡ d
    → 0 < count i w.connections
    → IsCounted w
    → CountedWithout i w (detach_from d w).1
unfolding detach_from
detach_from-Counted i none w e h k = (
  λ a.
      let gone = attached-list_del a w.connections w.block_dev i h in
      let free : points_to a (w.block_dev i) ≡ 0 = rw e refl in
      omega (arith, k.counted a, gone, free),
  refl,
  refl,
)
detach_from-Counted i (some b) w e h k = (
  λ a.
      num_if (b == a) _ (w.registry.devices a)
      ∙ at_same dec32 (λ d. (w.registry.devices d).num_connection) b a
      ∙ counted_detach a b i w.connections w.block_dev _ h e k.few (k.counted a),
  refl,
  refl,
)

after_release :
    (a i : ℕ) (v w : World)
    → v.connections ≡ w.connections
    → v.block_dev ≡ w.block_dev
    → attached a (list_del i v.connections) (changed v.block_dev i none)
      ≡ attached a (list_del i w.connections) (changed w.block_dev i none)
after_release a i v w e f = rw (e, f) refl

-- A connection that is open and closes leaves every device with the count of the connections that
-- are still open and have it.
pub release-IsCounted :
    (i : ℕ) (w : World) → count i w.connections ≡ 1 → IsCounted w → IsCounted (release i w)
unfolding release detach
release-IsCounted i w h k =
    let y = detach_from (w.block_dev i) w in
    let c = detach_from-Counted i (w.block_dev i) w refl (omega arith) k in
    let frame = remove_frame y.0 y.1 in
    let same = remove-SameCounts y.0 y.1 in
    let gone = λ (j : ℕ). list_del-count j i w.connections (omega arith) in
    record {
      counted = λ a.
          same a
          ∙ c.0 a
          ∙ sym (
              after_release a i (remove y.0 y.1) w (frame.0 ∙ c.1) (frame.1 ∙ c.2)
              ∙ attached-changed_other a (list_del i w.connections) w.block_dev i none
                  (ground (arith, gone i)));
      distinct = λ j. rw (frame.0 ∙ c.1) (omega (arith, gone j, k.distinct j));
      few = rw (frame.0 ∙ c.1) (omega (arith, length-list_del i w.connections, k.few));
    }
