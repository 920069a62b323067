-- ===== src/Kernel/Cleanup.antt =====
-- kernel/block_dev.c: `create_block_device` takes all of its resources, or gives back those it took.
use bius.Base.{
  [], ◌∷◌, none, some, true, false, pos, negsuc, ℕ, ℤ, ◌==◌, Option, ◌≡◌, ◌++◌, take, ==_refl, ap,
  if_both, subst, refl, sym,
}
use bius.Kernel.Registry.{
  Registry, BlockDeviceOptions, Setup, Resources, nothing, create_block_device, with_memory,
  with_major, with_tag_set, with_queue, disk_name_len, add_disk, init_bius_block_device,
  out_free_tag_set, put_device, out_put_disk, out_unregister, put_resources, out_free_device,
}

abbrev pub all_held : Resources
all_held = record { memory = true; major = true; disk = true; tag_set = true; queue = true }

-- What a creation at the address `a` leaves, by the device that it stored.
abbrev pub CreatesAll : ℕ → BlockDeviceOptions → Registry → ℤ → Option ℕ → Registry → Type 0
CreatesAll a o r ret none q =
    ((q.devices a).resources ≡ nothing) × (q.all_disk_list ≡ r.all_disk_list)
CreatesAll a o r ret (some b) q =
    (ret ≡ pos 0)
    × (b ≡ a)
    × ((q.devices a).resources
        ≡ record { memory = true; major = true; disk = true; tag_set = true; queue = true })
    × (q.all_disk_list ≡ r.all_disk_list ++ a ∷ [])
    × ((q.devices a).disk_name ≡ take disk_name_len o.disk_name)
    × ((q.devices a).num_connection ≡ 0)

module _ (a : ℕ) (o : BlockDeviceOptions) (r : Registry) where
  -- Every other device is as it was, and no request ends.
  abbrev pub Others : Registry → Type 0
  Others q = ((b : ℕ) → (a == b) ≡ false → q.devices b ≡ r.devices b) × (q.ended ≡ r.ended)

  -- The device holds `x` while it is being made.
  record Holds (x : Resources) (q : Registry) : Type 0 where
    resources : (q.devices a).resources ≡ x
    unused : (q.devices a).num_connection ≡ 0
    list : q.all_disk_list ≡ r.all_disk_list
    others : Others q

  put-Holds :
      (f : Resources → Resources) (x : Resources) (q : Registry)
      → Holds x q
      → Holds (f x) (put_resources q a (f (q.devices a).resources))
  put-Holds f x q h = record {
    resources = rw (==_refl a) (ap f h.resources);
    unused = rw (==_refl a) h.unused;
    list = h.list;
    others = (λ b e. rw e (h.others.0 b e), h.others.1);
  }

  out_free_device-Holds :
      (x : Resources) (q : Registry)
      → Holds x q
      → Holds (record x { memory = false }) (out_free_device a q)
  unfolding out_free_device
  out_free_device-Holds x q h = put-Holds (λ y. record y { memory = false }) x q h

  out_unregister-Holds :
      (x : Resources) (q : Registry)
      → Holds x q
      → Holds (record x { memory = false; major = false }) (out_unregister a q)
  unfolding out_unregister
  out_unregister-Holds x q h =
      out_free_device-Holds _ _ (put-Holds (λ y. record y { major = false }) x q h)

  out_put_disk-Holds :
      (x : Resources) (q : Registry)
      → Holds x q
      → Holds (record x { memory = false; major = false; disk = false }) (out_put_disk a q)
  unfolding out_put_disk
  out_put_disk-Holds x q h =
      out_unregister-Holds _ _ (put-Holds (λ y. record y { disk = false }) x q h)

  out_free_tag_set-Holds :
      (x : Resources) (q : Registry)
      → Holds x q
      → Holds
          (record x { memory = false; major = false; disk = false; tag_set = false })
          (out_free_tag_set a q)
  unfolding out_free_tag_set
  out_free_tag_set-Holds x q h =
      out_put_disk-Holds _ _ (put-Holds (λ y. record y { tag_set = false }) x q h)

  abbrev pub Created : ℤ × Option ℕ × Registry → Type 0
  Created x = CreatesAll a o r x.0 x.1 x.2 × Others x.2

  -- A creation that fails has given everything back.
  gave_back : (ret : ℤ) (q : Registry) → Holds nothing q → Created (ret, none, q)
  gave_back ret q h = ((h.resources, h.list), h.others)

  add_disk-Created : (q : Registry) → Holds all_held q → Created (pos 0, some a, add_disk a o q)
  unfolding add_disk
  add_disk-Created q h = (
    (
      refl,
      refl,
      rw (==_refl a) h.resources,
      ap (λ l. l ++ a ∷ []) h.list,
      rw (==_refl a) refl,
      rw (==_refl a) h.unused,
    ),
    (λ b e. rw e (h.others.0 b e), h.others.1),
  )

  with_queue-Created :
      (k : Option ℤ) (q : Registry)
      → Holds (record all_held { queue = false }) q
      → Created (with_queue k a o q)
  unfolding with_queue
  with_queue-Created (some e) q h = gave_back e _ (out_free_tag_set-Holds _ q h)
  with_queue-Created none q h =
      add_disk-Created _ (put-Holds (λ y. record y { queue = true }) _ q h)

  with_tag_set-Created :
      (k : ℤ) (s : Setup) (q : Registry)
      → Holds (record all_held { tag_set = false; queue = false }) q
      → Created (with_tag_set k s a o q)
  unfolding with_tag_set
  with_tag_set-Created (negsuc e) s q h = gave_back (negsuc e) _ (out_put_disk-Holds _ q h)
  with_tag_set-Created (pos n) s q h =
      with_queue-Created s.init_queue _ (put-Holds (λ y. record y { tag_set = true }) _ q h)

  with_major-Created :
      (k : ℤ) (s : Setup) (q : Registry)
      → Holds (record nothing { memory = true }) q
      → Created (with_major k s a o q)
  unfolding with_major
  with_major-Created (negsuc e) s q h = gave_back (negsuc e) _ (out_free_device-Holds _ q h)
  with_major-Created (pos n) s q h =
      let d = q.devices a in
      let q' : Registry =
        put_device q a
          (record d { major_number = n; resources = record d.resources { major = true } }) in
      let k : Holds (record nothing { memory = true; major = true }) q' = record {
        resources = rw (==_refl a) (ap (λ (y : Resources). record y { major = true }) h.resources);
        unused = rw (==_refl a) h.unused;
        list = h.list;
        others = (λ b e. rw e (h.others.0 b e), h.others.1);
      } in
      if_both Created s.alloc_disk _ _
        (λ _.
          with_tag_set-Created s.alloc_tag_set s _
            (put-Holds (λ y. record y { disk = true }) _ q' k))
        (λ _. gave_back (pos n) _ (out_unregister-Holds _ q' k))

  -- `create_block_device` with memory for the device either succeeds, and then holds every resource,
  -- has joined the end of the list under its name with no connection, and is what it stored; or it
  -- stores nothing, and then has given back what it took and left the list alone. It changes no
  -- other device, and ends no request.
  pub create_block_device-Created :
      (s : Setup) → s.kmalloc ≡ some a → Created (create_block_device s o r)
  unfolding create_block_device with_memory init_bius_block_device
  create_block_device-Created s e =
      subst (λ m. Created (with_memory m s o r)) (sym e)
        (with_major-Created s.register_blkdev s _ (record {
          resources = rw (==_refl a) refl;
          unused = rw (==_refl a) refl;
          list = refl;
          others = (λ b x. rw x refl, refl);
        }))
