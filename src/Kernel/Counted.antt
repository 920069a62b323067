-- ===== src/Kernel/Counted.antt =====
-- kernel/char_dev.c: opening, initialising and releasing a connection keep `num_connection` right.
use bius.Base.{
  none, some, true, false, pos, Option, Bool, ℕ, if◌then◌else◌, List, Option-cases, ℤ, ◌≡◌, ◌==◌,
  refl, inl, inr, subst, ==-cases, ◌∙◌, sym, ap, Allows, inc32, Ensures, Ensures-mono, Ensures-both,
}
use bius.RequestType
use bius.RequestType.{BiusReq}
use bius.Kernel.Conserve.{count}
use bius.Kernel.Registry.{
  Registry, BlockDevice, BlockDeviceOptions, Setup, create_block_device, get_block_device,
  with_memory, with_major, with_tag_set, with_queue,
}
use bius.Kernel.Cleanup.{create_block_device-Created, CreatesAll}
use bius.Kernel.Lifecycle.{
  World, Located, device_at, fails, unset, Initialization, locate, locate_by, locate_create,
  locate_connect, attach, handle_initialization, created, looked_up,
}
use bius.Kernel.Refcount.{IsCounted, counted_attach}

abbrev pub SameCounts : Registry → Registry → Type 0
SameCounts r q = (a : ℕ) → (q.devices a).num_connection ≡ (r.devices a).num_connection

-- After a search for the device the counts are as before; where none was set, anything goes.
abbrev FindsSame : Registry → Located → Registry → Type 0
FindsSame r unset q = Unit {0}
FindsSame r _ q = SameCounts r q

pub num_if :
    (c : Bool) (x y : BlockDevice)
    → (if c then x else y).num_connection ≡ (if c then x.num_connection else y.num_connection)
num_if true x y = refl
num_if false x y = refl

pub at_same :
    (f g : ℕ → ℕ) (b a : ℕ) → (if b == a then f (g b) else g a) ≡ (if b == a then f (g a) else g a)
at_same f g b a = elim (==-cases b a) [
  | inl (t, e) ↦ rw t (ap (λ c. f (g c)) e)
  | inr (t, e) ↦ rw t refl
]

abbrev pub IsUnused : Registry → Option ℕ → Type 0
IsUnused r none = Unit {0}
IsUnused r (some a) = (r.devices a).num_connection ≡ 0

created-Finds :
    (a : ℕ) (o : BlockDeviceOptions) (r : Registry) (ret : ℤ) (out : Option ℕ) (q : Registry)
    → (r.devices a).num_connection ≡ 0
    → CreatesAll a o r ret out q
    → ((b : ℕ) → (a == b) ≡ false → q.devices b ≡ r.devices b)
    → FindsSame r (created out) q
created-Finds a o r ret none q h c e = tt
created-Finds a o r ret (some b) q h c e = λ x. elim (==-cases a x) [
  | inl (t, p) ↦
      subst (λ y. (q.devices y).num_connection ≡ (r.devices y).num_connection) p (c.5 ∙ sym h)
  | inr (t, p) ↦ ap (λ (d : BlockDevice). d.num_connection) (e x t)
]

locate_create-Finds :
    (o : Option BlockDeviceOptions) (s : Setup) (r : Registry)
    → IsUnused r s.kmalloc
    → FindsSame r (locate_create o s r).0 (locate_create o s r).1
unfolding locate_create create_block_device with_memory
locate_create-Finds none s r h = λ a. refl
locate_create-Finds (some o) s r h = elim (Option-cases s.kmalloc) [
  | inl e ↦
      subst (λ m. FindsSame r (created (with_memory m s o r).1) (with_memory m s o r).2) (sym e) tt
  | inr (a, e) ↦
      let c = create_block_device-Created a o r s e in
      created-Finds a o r _ _ _ (subst (IsUnused r) e h) c.0 c.1.0
]

looked_up-Finds : (r : Registry) (o : Option ℕ) → FindsSame r (looked_up o) r
looked_up-Finds r none = λ a. refl
looked_up-Finds r (some b) = λ a. refl

locate_connect-Finds :
    (name : Option (List ℕ)) (n : ℕ) (r : Registry) → FindsSame r (locate_connect name n r) r
unfolding locate_connect
locate_connect-Finds none n r = λ a. refl
locate_connect-Finds (some name) n r = looked_up-Finds r _

locate_by-Finds :
    (t : BiusReq) (x : Initialization) (s : Setup) (r : Registry)
    → IsUnused r s.kmalloc
    → FindsSame r (locate_by t x s r).0 (locate_by t x s r).1
unfolding locate_by
locate_by-Finds RequestType.create x s r h = locate_create-Finds x.options s r h
locate_by-Finds RequestType.connect x s r h = locate_connect-Finds x.name x.u2k_length r
locate_by-Finds _ x s r h = λ a. refl

-- Giving a connection that has no device one keeps the counts.
attach-IsCounted :
    (i : ℕ) (x : Located) (q : Registry) (w : World)
    → count i w.connections ≡ 1
    → w.block_dev i ≡ none
    → IsCounted w
    → FindsSame w.registry x q
    → Allows (λ r. IsCounted r.1) (attach i x (record w { registry = q }))
unfolding attach
attach-IsCounted i unset q w h e k c = tt
attach-IsCounted i (fails n) q w h e k c = record {
  counted = λ a. c a ∙ k.counted a;
  distinct = k.distinct;
  few = k.few;
}
attach-IsCounted i (device_at b) q w h e k c = record {
  counted = λ a.
      num_if (b == a) _ (q.devices a)
      ∙ at_same inc32 (λ d. (q.devices d).num_connection) b a
      ∙ counted_attach a b i w.connections w.block_dev (q.devices a).num_connection h e k.few
          (c a ∙ k.counted a);
  distinct = k.distinct;
  few = k.few;
}

handle_initialization-Allows :
    (i : ℕ) (x : Initialization) (s : Setup) (w : World)
    → count i w.connections ≡ 1
    → w.block_dev i ≡ none
    → IsUnused w.registry s.kmalloc
    → IsCounted w
    → Allows (λ r. IsCounted r.1) (handle_initialization i x s w)
unfolding handle_initialization locate
handle_initialization-Allows i x s w h e u k =
    attach-IsCounted i _ _ w h e k (locate_by-Finds x.u2k_type x s w.registry u)

-- The calls of a creation that all succeed: the device's address, its major number, and what
-- `blk_mq_alloc_tag_set` returns.
abbrev pub working_setup : ℕ → ℕ → ℕ → Setup
working_setup a n m = record {
  kmalloc = some a;
  register_blkdev = pos n;
  alloc_disk = true;
  alloc_tag_set = pos m;
  init_queue = none;
}

-- The device pointer was set, or is not used.
abbrev HasDevice : Located → Type 0
HasDevice (device_at a) = Unit {0}
HasDevice (fails e) = Unit {0}
HasDevice unset = ⊥

looked_up-HasDevice : (d : Option ℕ) → HasDevice (looked_up d)
looked_up-HasDevice none = tt
looked_up-HasDevice (some a) = tt

locate_create-HasDevice :
    (o : Option BlockDeviceOptions) (a n m : ℕ) (r : Registry)
    → HasDevice (locate_create o (working_setup a n m) r).0
unfolding locate_create create_block_device with_memory with_major with_tag_set with_queue
locate_create-HasDevice none a n m r = tt
locate_create-HasDevice (some o) a n m r = tt

locate_connect-HasDevice :
    (x : Option (List ℕ)) (n : ℕ) (r : Registry) → HasDevice (locate_connect x n r)
unfolding locate_connect
locate_connect-HasDevice none n r = tt
locate_connect-HasDevice (some l) n r = looked_up-HasDevice (get_block_device _ r)

locate_by-HasDevice :
    (t : BiusReq) (x : Initialization) (a n m : ℕ) (r : Registry)
    → HasDevice (locate_by t x (working_setup a n m) r).0
unfolding locate_by
locate_by-HasDevice RequestType.create x a n m r = locate_create-HasDevice x.options a n m r
locate_by-HasDevice RequestType.connect x a n m r = locate_connect-HasDevice x.name x.u2k_length r
locate_by-HasDevice _ x a n m r = tt

attach-Returns :
    (i : ℕ) (x : Located) (w : World) → HasDevice x → Ensures (λ _. Unit {0}) (attach i x w)
unfolding attach
attach-Returns i (device_at a) w h = tt
attach-Returns i (fails e) w h = tt
attach-Returns i unset w h = absurd h

handle_initialization-Returns :
    (i : ℕ) (x : Initialization) (a n m : ℕ) (w : World)
    → Ensures (λ _. Unit {0}) (handle_initialization i x (working_setup a n m) w)
unfolding handle_initialization locate
handle_initialization-Returns i x a n m w =
    attach-Returns i _ _ (locate_by-HasDevice x.u2k_type x a n m w.registry)

-- A connection that is open and has no device may ask for one, in any way and with any outcome but a
-- creation that fails: it is answered, and then every device counts the open connections that have
-- it. The memory of a new device is not that of one in use.
pub handle_initialization-IsCounted :
    (i : ℕ) (x : Initialization) (a n m : ℕ) (w : World)
    → count i w.connections ≡ 1
    → w.block_dev i ≡ none
    → IsUnused w.registry (some a)
    → IsCounted w
    → Ensures (λ r. IsCounted r.1) (handle_initialization i x (working_setup a n m) w)
handle_initialization-IsCounted i x a n m w h e u k =
    Ensures-mono _ _ (handle_initialization i x (working_setup a n m) w) (λ r q. q.1)
      (Ensures-both _ _ (handle_initialization i x (working_setup a n m) w)
        (handle_initialization-Returns i x a n m w)
        (handle_initialization-Allows i x (working_setup a n m) w h e u k))
