-- ===== src/Kernel/Removal.antt =====
-- kernel/block_dev.c and char_dev.c: which device a removal removes, and what a connection that comes
-- at the same time finds.
use bius.Base.{
  [], ◌∷◌, none, some, true, false, ℕ, ◌≡◌, List, ◌++◌, if◌then◌else◌, refl, suc, ==_refl, ap, ◌==◌,
  ==-cases, inl, inr, ◌∙◌, subst, sym, Option, Ensures, Ensures-mono,
}
use bius.RequestType
use bius.Kernel.CharDev.{list_del}
use bius.Kernel.Registry.{
  Registry, BlockDevice, find_device, get_block_device, remove_block_device, remove_found,
  same_name, disk_name_len, put_device, Setup, Resources,
}
use bius.Kernel.Lifecycle.{
  World, device_at, Initialization, attach, detach, detach_from, remove, release, locate, locate_by,
}
use Prim.Native.Nat.{zero}

pub same_name_refl : (n : ℕ) (xs : List ℕ) → same_name n xs xs ≡ true
unfolding same_name
same_name_refl zero xs = refl
same_name_refl (suc n) [] = refl
same_name_refl (suc n) (x ∷ xs) = rw (==_refl x) (same_name_refl n xs)

-- No device of the list has this name.
abbrev pub NoneNamed : (ℕ → BlockDevice) → List ℕ → List ℕ → Type 0
NoneNamed devices [] name = Unit {0}
NoneNamed devices (a ∷ rest) name =
    (same_name disk_name_len (devices a).disk_name name ≡ false) × NoneNamed devices rest name

find_device-none :
    (devices : ℕ → BlockDevice) (xs name : List ℕ)
    → NoneNamed devices xs name
    → find_device devices xs name ≡ none
unfolding find_device
find_device-none devices [] name h = refl
find_device-none devices (a ∷ xs) name h = rw (find_device-none devices xs name h.1, h.0) refl

-- The search finds the last device of the name.
pub find_device-last :
    (devices : ℕ → BlockDevice) (xs : List ℕ) (b : ℕ) (ys name : List ℕ)
    → same_name disk_name_len (devices b).disk_name name ≡ true
    → NoneNamed devices ys name
    → find_device devices (xs ++ b ∷ ys) name ≡ some b
unfolding find_device
find_device-last devices [] b ys name e h = rw (find_device-none devices ys name h, e) refl
find_device-last devices (x ∷ xs) b ys name e h =
    rw (find_device-last devices xs b ys name e h) refl

-- The search reads nothing of a device but its name.
find_device-names :
    (devices others : ℕ → BlockDevice) (xs name : List ℕ)
    → ((a : ℕ) → (others a).disk_name ≡ (devices a).disk_name)
    → find_device others xs name ≡ find_device devices xs name
unfolding find_device
find_device-names devices others [] name h = refl
find_device-names devices others (a ∷ xs) name h = rw (find_device-names devices others xs name h) (
    ap
      (λ l. elim (find_device devices xs name) [
        | some b ↦ some b
        | none ↦ if same_name disk_name_len l name then some a else none
      ])
      (h a))

-- The registry after the last connection of `a` has left.
abbrev pub left_last : ℕ → Registry → Registry
left_last a r = put_device r a (record (r.devices a) { num_connection = 0 })

left_last-find :
    (a : ℕ) (r : Registry) (name : List ℕ)
    → find_device (left_last a r).devices r.all_disk_list name
      ≡ find_device r.devices r.all_disk_list name
left_last-find a r name =
    find_device-names r.devices (left_last a r).devices r.all_disk_list name λ b.
      elim (==-cases a b) [
        | inl (t, e) ↦ rw t (ap (λ c. (r.devices c).disk_name) e)
        | inr (t, e) ↦ rw t refl
      ]

left_last-resources :
    (a c : ℕ) (r : Registry) → ((left_last a r).devices c).resources ≡ (r.devices c).resources
left_last-resources a c r = elim (==-cases a c) [
  | inl (t, e) ↦ rw t (ap (λ d. (r.devices d).resources) e)
  | inr (t, e) ↦ rw t refl
]

detach-left_last :
    (i a : ℕ) (w : World)
    → w.block_dev i ≡ some a
    → (w.registry.devices a).num_connection ≡ 1
    → detach i w ≡ (some a, record w { registry = left_last a w.registry })
unfolding detach detach_from
detach-left_last i a w e n = rw (e, n) refl

-- What `r` is after the device at `b` was removed from `q`.
pub record Removed (b : ℕ) (q r : Registry) : Type 0 where
  pub listed : r.all_disk_list ≡ list_del b q.all_disk_list
  pub given_back :
      (r.devices b).resources
      ≡ record (q.devices b).resources { disk = false; tag_set = false; major = false }
  pub others : (c : ℕ) → (b == c) ≡ false → (r.devices c).resources ≡ (q.devices c).resources

remove_found-Removed : (b : ℕ) (r : Registry) → Removed b r (remove_found (some b) r)
unfolding remove_found
remove_found-Removed b r = record {
  listed = refl;
  given_back = rw (==_refl b) refl;
  others = λ c e. rw e refl;
}

-- The removal that follows the last connection of `a`, where the search finds `b`.
remove-Removed :
    (a b : ℕ) (w : World)
    → get_block_device (w.registry.devices a).disk_name w.registry ≡ some b
    → Removed b w.registry
        (remove (some a) (record w { registry = left_last a w.registry })).registry
unfolding remove remove_block_device get_block_device
remove-Removed a b w h =
    let r = w.registry in
    let name : ((left_last a r).devices a).disk_name ≡ (r.devices a).disk_name =
      rw (==_refl a) refl in
    let found : find_device (left_last a r).devices r.all_disk_list
          ((left_last a r).devices a).disk_name
        ≡ some b =
      left_last-find a r _ ∙ ap (λ n. find_device r.devices r.all_disk_list n) name ∙ h in
    let gone = remove_found-Removed b (left_last a r) in
    subst (λ o. Removed b r (remove_found o (left_last a r))) (sym found)
      (record {
        listed = gone.listed;
        given_back =
            gone.given_back
            ∙ ap (λ (x : Resources). record x { disk = false; tag_set = false; major = false })
                (left_last-resources a b r);
        others = λ c e. gone.others c e ∙ left_last-resources a c r;
      })

release-Removed_found :
    (i a b : ℕ) (w : World)
    → w.block_dev i ≡ some a
    → (w.registry.devices a).num_connection ≡ 1
    → get_block_device (w.registry.devices a).disk_name w.registry ≡ some b
    → Removed b w.registry (release i w).registry
unfolding release
release-Removed_found i a b w e n h =
    subst (λ (y : Option ℕ × World). Removed b w.registry (remove y.0 y.1).registry)
      (sym (detach-left_last i a w e n)) (remove-Removed a b w h)

-- When the last connection of a device closes, the device that is removed is the last of the list
-- with its name: it leaves the list and gives its disk, tag set and major number back. Every other
-- device keeps what it has, and so does the one whose connection closed, if a newer one has its name.
pub release-Removed :
    (i a b : ℕ) (xs ys : List ℕ) (w : World)
    → w.block_dev i ≡ some a
    → (w.registry.devices a).num_connection ≡ 1
    → w.registry.all_disk_list ≡ xs ++ b ∷ ys
    → same_name disk_name_len (w.registry.devices b).disk_name (w.registry.devices a).disk_name
      ≡ true
    → NoneNamed w.registry.devices ys (w.registry.devices a).disk_name
    → Removed b w.registry (release i w).registry
unfolding get_block_device
release-Removed i a b xs ys w e n l s h =
    let r = w.registry in
    release-Removed_found i a b w e n (
      ap (λ l. find_device r.devices l (r.devices a).disk_name) l
      ∙ find_device-last r.devices xs b ys (r.devices a).disk_name s h)

locate_same :
    (x : Initialization) (s : Setup) (w : World)
    → x.u2k_type ≡ RequestType.connect
    → (locate x s w).1 ≡ w
unfolding locate locate_by
locate_same x s w t = ap (λ k. record w { registry = (locate_by k x s w.registry).1 }) t

-- Taking a device gives the connection the device, whatever the device still holds.
attach_lem :
    (j a : ℕ) (w : World)
    → Ensures
        (λ r.
          (r.1.block_dev j ≡ some a)
          × ((r.1.registry.devices a).resources ≡ (w.registry.devices a).resources))
        (attach j (device_at a) w)
unfolding attach
attach_lem j a w = (rw (==_refl j) refl, rw (==_refl a) refl)

-- A connection `j` looks a device up whose only connection `i` then closes, before `j` is counted:
-- `j` gets the device after its disk, its tag set and its major number were given back.
pub connect_race :
    (i j a : ℕ) (x : Initialization) (s : Setup) (w : World)
    → x.u2k_type ≡ RequestType.connect
    → (locate x s w).0 ≡ device_at a
    → w.block_dev i ≡ some a
    → (w.registry.devices a).num_connection ≡ 1
    → get_block_device (w.registry.devices a).disk_name w.registry ≡ some a
    → Ensures
        (λ r.
          (r.1.block_dev j ≡ some a)
          × ((r.1.registry.devices a).resources ≡ record (w.registry.devices a).resources {
            disk = false;
            tag_set = false;
            major = false;
          }))
        (attach j (locate x s w).0 (release i (locate x s w).1))
connect_race i j a x s w t f e n h =
    subst
      (λ y.
        Ensures
          (λ r.
            (r.1.block_dev j ≡ some a)
            × ((r.1.registry.devices a).resources ≡ record (w.registry.devices a).resources {
              disk = false;
              tag_set = false;
              major = false;
            }))
          (attach j y (release i (locate x s w).1)))
      (sym f)
      (Ensures-mono _ _ (attach j (device_at a) (release i (locate x s w).1))
        (λ r q. (
          q.0,
          q.1
              ∙ ap (λ v. ((release i v).registry.devices a).resources) (locate_same x s w t)
              ∙ (release-Removed_found i a a w e n h).given_back,
        ))
        (attach_lem j a (release i (locate x s w).1)))
