-- ===== src/Kernel/Registry.antt =====
-- kernel/block_dev.c: the devices and the list of all disks. A device is named by its address. What
-- the kernel's allocation and registration functions return is a record `Setup`; a device's
-- `Resources` say which of them it holds.
use bius.Base.{
  [], ◌∷◌, none, some, true, false, pos, negsuc, ℕ, List, ℤ, Option, Bool, ◌/◌, take, if◌then◌else◌,
  ◌++◌, ◌==◌, ◌&&◌,
}
use bius.Status.{sector_size}
use bius.Kernel.CharDev.{list_del}
use Prim.Native.Nat.{zero, ℕ, suc}

-- include/bius/command_header.h: `enum blk_zoned_model` and `struct bius_block_device_options`. A
-- name is the characters before the NUL.
pub data ZonedModel : Type 0 where
  model_none model_ha model_hm : ZonedModel

pub record BlockDeviceOptions : Type 0 where
  pub model : ZonedModel
  pub num_threads : ℕ
  pub disk_size : ℕ
  pub max_open_zones : ℕ
  pub max_active_zones : ℕ
  pub disk_name : List ℕ

pub record Resources : Type 0 where
  pub memory : Bool
  pub major : Bool
  pub disk : Bool
  pub tag_set : Bool
  pub queue : Bool

-- The limits that `create_block_device` gives to the queue, in sectors where the kernel's are.
pub record QueueLimits : Type 0 where
  pub max_discard_sectors : ℕ
  pub max_segments : ℕ
  pub max_dev_sectors : ℕ
  pub max_hw_sectors : ℕ
  pub chunk_sectors : ℕ
  pub io_min : ℕ
  pub zoned : Bool
  pub max_zone_append_sectors : ℕ
  pub max_open_zones : ℕ
  pub max_active_zones : ℕ

-- `struct bius_block_device` with the disk it owns; `pending_requests` holds addresses.
pub record BlockDevice : Type 0 where
  pub disk_name : List ℕ
  pub major_number : ℕ
  pub capacity : ℕ
  pub model : ZonedModel
  pub num_connection : ℕ
  pub pending_requests : List ℕ
  pub limits : QueueLimits
  pub resources : Resources

-- The outcome of each call that can fail: the address from `kmalloc`, the major number or the error
-- of `register_blkdev`, and so on in order.
pub record Setup : Type 0 where
  pub kmalloc : Option ℕ
  pub register_blkdev : ℤ
  pub alloc_disk : Bool
  pub alloc_tag_set : ℤ
  pub init_queue : Option ℤ

-- `ended` lists the pending requests that a removal has ended, newest first.
pub record Registry : Type 0 where
  pub devices : ℕ → BlockDevice
  pub all_disk_list : List ℕ
  pub ended : List ℕ

abbrev pub put_device : Registry → ℕ → BlockDevice → Registry
put_device r a d = record r { devices = λ b. if a == b then d else r.devices b }

abbrev pub put_resources : Registry → ℕ → Resources → Registry
put_resources r a x = put_device r a (record (r.devices a) { resources = x })

-- include/bius/config.h.
abbrev pub max_segments_per_command : ℕ
max_segments_per_command = 256

abbrev pub max_size_per_command : ℕ
max_size_per_command = 134217728

abbrev pub max_zone_sectors : ℕ
max_zone_sectors = 2097152

-- DISK_NAME_LEN of the kernel, and MAX_DISK_NAME_LEN.
abbrev pub disk_name_len : ℕ
disk_name_len = 32

abbrev pub no_limits : QueueLimits
no_limits = record {
  max_discard_sectors = 0;
  max_segments = 0;
  max_dev_sectors = 0;
  max_hw_sectors = 0;
  chunk_sectors = 0;
  io_min = 0;
  zoned = false;
  max_zone_append_sectors = 0;
  max_open_zones = 0;
  max_active_zones = 0;
}

unfoldable pub plain_limits : QueueLimits
plain_limits = record {
  max_discard_sectors = 0;
  max_segments = max_segments_per_command;
  max_dev_sectors = max_size_per_command / sector_size;
  max_hw_sectors = max_size_per_command / sector_size;
  chunk_sectors = max_size_per_command / sector_size;
  io_min = 524288;
  zoned = false;
  max_zone_append_sectors = 0;
  max_open_zones = 0;
  max_active_zones = 0;
}

-- The branch `options->model != BLK_ZONED_NONE`.
unfoldable pub limits_for : ZonedModel → BlockDeviceOptions → QueueLimits
unfolding plain_limits
limits_for model_none o = plain_limits
limits_for _ o = record plain_limits {
  zoned = true;
  max_zone_append_sectors = max_zone_sectors;
  max_open_zones = o.max_open_zones;
  max_active_zones = o.max_active_zones;
}

abbrev pub nothing : Resources
nothing = record { memory = false; major = false; disk = false; tag_set = false; queue = false }

-- After `kmalloc`, `init_bius_block_device` and the first assignment.
unfoldable pub init_bius_block_device : BlockDeviceOptions → BlockDevice
init_bius_block_device o = record {
  disk_name = [];
  major_number = 0;
  capacity = 0;
  model = o.model;
  num_connection = 0;
  pending_requests = [];
  limits = no_limits;
  resources = record nothing { memory = true };
}

-- The labels at the end of `create_block_device`, each of which falls through to the next.
unfoldable pub out_free_device : ℕ → Registry → Registry
out_free_device a r = put_resources r a (record (r.devices a).resources { memory = false })

unfoldable pub out_unregister : ℕ → Registry → Registry
unfolding out_free_device
out_unregister a r =
    out_free_device a (put_resources r a (record (r.devices a).resources { major = false }))

unfoldable pub out_put_disk : ℕ → Registry → Registry
unfolding out_unregister
out_put_disk a r =
    out_unregister a (put_resources r a (record (r.devices a).resources { disk = false }))

unfoldable pub out_free_tag_set : ℕ → Registry → Registry
unfolding out_put_disk
out_free_tag_set a r =
    out_put_disk a (put_resources r a (record (r.devices a).resources { tag_set = false }))

-- From `bius_device->disk->queue` on: the queue's limits, the disk's fields, and the list.
unfoldable pub add_disk : ℕ → BlockDeviceOptions → Registry → Registry
unfolding limits_for
add_disk a o r =
    record (put_device r a (record (r.devices a) {
      disk_name = take disk_name_len o.disk_name;
      capacity = o.disk_size / sector_size;
      limits = limits_for o.model o;
    })) { all_disk_list = r.all_disk_list ++ a ∷ [] }

unfoldable pub with_queue : Option ℤ → ℕ → BlockDeviceOptions → Registry → ℤ × Option ℕ × Registry
unfolding add_disk out_free_tag_set
with_queue (some e) a o r = (e, none, out_free_tag_set a r)
with_queue none a o r = (
  pos 0,
  some a,
  add_disk a o (put_resources r a (record (r.devices a).resources { queue = true })),
)

unfoldable pub with_tag_set :
    ℤ → Setup → ℕ → BlockDeviceOptions → Registry → ℤ × Option ℕ × Registry
unfolding with_queue out_put_disk
with_tag_set (negsuc e) s a o r = (negsuc e, none, out_put_disk a r)
with_tag_set (pos n) s a o r =
    with_queue s.init_queue a o
      (put_resources r a (record (r.devices a).resources { tag_set = true }))

-- `ret` still is the major number where `alloc_disk` fails.
unfoldable pub with_major : ℤ → Setup → ℕ → BlockDeviceOptions → Registry → ℤ × Option ℕ × Registry
unfolding with_tag_set out_unregister out_free_device
with_major (negsuc e) s a o r = (negsuc e, none, out_free_device a r)
with_major (pos n) s a o r =
    let d = r.devices a in
    let r' =
      put_device r a
        (record d { major_number = n; resources = record d.resources { major = true } }) in
    let r'' = put_resources r' a (record (r'.devices a).resources { disk = true }) in
    if s.alloc_disk
    then with_tag_set s.alloc_tag_set s a o r''
    else (pos n, none, out_unregister a r')

unfoldable pub with_memory :
    Option ℕ → Setup → BlockDeviceOptions → Registry → ℤ × Option ℕ × Registry
unfolding with_major init_bius_block_device
with_memory none s o r = (negsuc 11, none, r)
with_memory (some a) s o r =
    with_major s.register_blkdev s a o (put_device r a (init_bius_block_device o))

-- `create_block_device`: the result, `*out_device` if it was stored, and the registry.
unfoldable pub create_block_device : Setup → BlockDeviceOptions → Registry → ℤ × Option ℕ × Registry
unfolding with_memory
create_block_device s o r = with_memory s.kmalloc s o r

-- Whether `strncmp` of the first `n` characters returns 0.
unfoldable pub same_name : ℕ → List ℕ → List ℕ → Bool
same_name zero xs ys = true
same_name (suc n) [] [] = true
same_name (suc n) [] (y ∷ ys) = false
same_name (suc n) (x ∷ xs) [] = false
same_name (suc n) (x ∷ xs) (y ∷ ys) = x == y && same_name n xs ys

-- `get_block_device`: the last of the list with this name.
unfoldable pub find_device : (ℕ → BlockDevice) → List ℕ → List ℕ → Option ℕ
unfolding same_name
find_device devices [] name = none
find_device devices (a ∷ rest) name = elim (find_device devices rest name) [
  | some b ↦ some b
  | none ↦ if same_name disk_name_len (devices a).disk_name name then some a else none
]

unfoldable pub get_block_device : List ℕ → Registry → Option ℕ
unfolding find_device
get_block_device name r = find_device r.devices r.all_disk_list name

unfoldable pub end_pending : List ℕ → List ℕ → List ℕ
end_pending [] ended = ended
end_pending (q ∷ rest) ended = end_pending rest (q ∷ ended)

unfoldable pub remove_found : Option ℕ → Registry → Registry
unfolding end_pending list_del
remove_found none r = r
remove_found (some a) r =
    let d = r.devices a in
    record (put_resources r a
      (record d.resources { disk = false; tag_set = false; major = false })) {
        all_disk_list = list_del a r.all_disk_list;
        ended = end_pending d.pending_requests r.ended;
      }

-- `remove_block_device`. The device's memory and its queue stay.
unfoldable pub remove_block_device : List ℕ → Registry → Registry
unfolding remove_found get_block_device
remove_block_device name r = remove_found (get_block_device name r) r
