-- ===== src/Kernel/Lifecycle.antt =====
-- kernel/char_dev.c: `bius_dev_open`, `handle_initialization` and the device part of
-- `bius_dev_release`. A connection is named by its address. What runs under one lock is a step of
-- its own: `locate` and `attach`, `detach` and `remove`. `none` is the use of a device pointer that
-- was never set.
use bius.Base.{
  ◌∷◌, none, some, pos, negsuc, ℕ, List, Option, dec32, if◌then◌else◌, ℤ, ltb, ◌==◌, inc32, take,
}
use bius.RequestType
use bius.RequestType.{BiusReq}
use bius.Kernel.Registry.{
  Registry, BlockDeviceOptions, Setup, put_device, create_block_device, get_block_device,
  remove_block_device, disk_name_len,
}
use bius.Kernel.CharDev.{list_del}
use bius.Kernel.Transfer.{u2k_size}

-- The connections that are open, and the `block_dev` of each.
pub record World : Type 0 where
  pub registry : Registry
  pub connections : List ℕ
  pub block_dev : ℕ → Option ℕ

-- A request of user space on a connection without a device: the type, and what `copy_from_user`
-- reads at `user_data`, which is none where it fails.
pub record Initialization : Type 0 where
  pub u2k_type : BiusReq
  pub u2k_length : ℕ
  pub options : Option BlockDeviceOptions
  pub name : Option (List ℕ)

abbrev pub set_block_dev : World → ℕ → Option ℕ → World
set_block_dev w i d = record w { block_dev = λ j. if i == j then d else w.block_dev j }

-- `bius_dev_open` for the connection that `kmalloc` returns.
unfoldable pub dev_open : Option ℕ → World → ℤ × World
dev_open none w = (negsuc 11, w)
dev_open (some i) w = (pos 0, record (set_block_dev w i none) { connections = i ∷ w.connections })

-- How `handle_initialization` goes on to `num_connection++`: with the device, with an error, or with
-- `device` unset.
pub data Located : Type 0 where
  device_at : ℕ → Located
  fails : ℤ → Located
  unset : Located

-- `result` is unsigned, so `result < 0` never holds, and a failed creation goes on.
abbrev pub created : Option ℕ → Located
created none = unset
created (some a) = device_at a

abbrev pub looked_up : Option ℕ → Located
looked_up none = fails (negsuc 1)
looked_up (some a) = device_at a

unfoldable pub locate_create : Option BlockDeviceOptions → Setup → Registry → Located × Registry
locate_create none s r = (fails (negsuc 4), r)
locate_create (some o) s r = let x = create_block_device s o r in (created x.1, x.2)

unfoldable pub locate_connect : Option (List ℕ) → ℕ → Registry → Located
locate_connect none n r = fails (negsuc 4)
locate_connect (some name) n r =
    let n' : ℕ = if ltb n disk_name_len then n else disk_name_len in
    looked_up (get_block_device (take n' name) r)

unfoldable pub locate_by : BiusReq → Initialization → Setup → Registry → Located × Registry
unfolding locate_create locate_connect
locate_by RequestType.create x s r = locate_create x.options s r
locate_by RequestType.connect x s r = (locate_connect x.name x.u2k_length r, r)
locate_by _ x s r = (fails (negsuc 21), r)

unfoldable pub locate : Initialization → Setup → World → Located × World
unfolding locate_by
locate x s w = let y = locate_by x.u2k_type x s w.registry in (y.0, record w { registry = y.1 })

-- From `spin_lock(&device->connection_lock)` on.
unfoldable pub attach : ℕ → Located → World → Option (ℤ × World)
attach i (fails e) w = some (e, w)
attach i unset w = none
attach i (device_at a) w =
    let d = w.registry.devices a in
    some (
      pos u2k_size,
      set_block_dev
          (record w {
            registry =
                put_device w.registry a (record d { num_connection = inc32 d.num_connection });
          })
          i (some a),
    )

unfoldable pub handle_initialization : ℕ → Initialization → Setup → World → Option (ℤ × World)
unfolding locate attach
handle_initialization i x s w = let y = locate x s w in attach i y.0 y.1

-- `num_connection--` under the lock, and `remove_device`: the device whose last connection left.
unfoldable pub detach_from : Option ℕ → World → Option ℕ × World
detach_from none w = (none, w)
detach_from (some a) w =
    let d = w.registry.devices a in
    let n : ℕ = dec32 d.num_connection in
    (
      if n == 0 then some a else none,
      record w { registry = put_device w.registry a (record d { num_connection = n }) },
    )

unfoldable pub detach : ℕ → World → Option ℕ × World
unfolding detach_from
detach i w = detach_from (w.block_dev i) w

-- `remove_block_device(device->disk->disk_name)`.
unfoldable pub remove : Option ℕ → World → World
remove none w = w
remove (some a) w = record w {
  registry = remove_block_device (w.registry.devices a).disk_name w.registry;
}

-- The device part of `bius_dev_release`, and `kfree(connection)`.
unfoldable pub release : ℕ → World → World
unfolding detach remove
release i w =
    let y = detach i w in
    let w' = remove y.0 y.1 in
    record (set_block_dev w' i none) { connections = list_del i w'.connections }
