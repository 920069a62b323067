-- ===== src/Kernel/DeviceTests.antt =====
-- Runs of the creation, the connections and the removal of devices, and of a report of zones.
use bius.RequestType.{connect, report_zones}
use bius.Kernel.{Driver, int, IntBody}
use bius.Kernel.Reply.{reply_int}
use bius.Kernel.Registry.{
  BlockDevice, BlockDeviceOptions, Registry, same_name, get_block_device, find_device,
  disk_name_len, create_block_device, model_hm, model_none, plain_limits,
}
use bius.Kernel.Refcount.{IsCounted, attached}
use bius.Kernel.Lifecycle.{
  Initialization, locate, World, release, handle_initialization, locate_by, locate_connect,
  device_at, attach,
}
use bius.Base.{
  ℕ, Ensures, ◌∷◌, none, ◌≡◌, if◌then◌else◌, arith, [], ◌==◌, some, true, ==-cases, refl, false,
  inl, inr, List, pos, suc,
}
use bius.Kernel.Cleanup.{Created, all_held, create_block_device-Created}
use bius.Kernel.Removal.{Removed, release-Removed, connect_race}
use bius.Kernel.Departs.{release-IsCounted}
use bius.Kernel.Counted.{working_setup, handle_initialization-IsCounted}
use bius.Kernel.ReportZones.Bounds.{woken, whole_zones, reply_int-woken}
use Prim.Native.Nat.{zero}

-- A device at 5 that is called "a" and has one connection; nothing at any other address.
abbrev some_device : BlockDevice
some_device = record {
  disk_name = 97 ∷ [];
  major_number = 250;
  capacity = 8;
  model = model_none;
  num_connection = 1;
  pending_requests = 9 ∷ [];
  limits = plain_limits;
  resources = all_held;
}

abbrev one_device : Registry
one_device = record {
  devices = λ a. if a == 5 then some_device else record some_device { num_connection = 0 };
  all_disk_list = 5 ∷ [];
  ended = [];
}

abbrev disk_options : BlockDeviceOptions
disk_options = record {
  model = model_hm;
  num_threads = 1;
  disk_size = 4096;
  max_open_zones = 3;
  max_active_zones = 4;
  disk_name = 98 ∷ [];
}

create_block_device-Created_example :
    Created 6 disk_options one_device
      (create_block_device (working_setup 6 251 0) disk_options one_device)
create_block_device-Created_example =
    create_block_device-Created 6 disk_options one_device (working_setup 6 251 0) refl

-- Connection 1 has the device; connection 2 is open and has none.
abbrev two_connections : World
two_connections = record {
  registry = one_device;
  connections = 2 ∷ 1 ∷ [];
  block_dev = λ i. if i == 1 then some 5 else none;
}

counted_at :
    (a : ℕ)
    → (one_device.devices a).num_connection ≡ attached a (2 ∷ 1 ∷ []) two_connections.block_dev
counted_at a = elim (==-cases a 5) [ inl (t, e) ↦ rw t refl | inr (t, e) ↦ rw t refl ]

two_connections-IsCounted : IsCounted two_connections
two_connections-IsCounted = record {
  counted = counted_at;
  distinct = λ i. ground arith;
  few = omega arith;
}

abbrev connect_to_a : Initialization
connect_to_a = record { u2k_type = connect; u2k_length = 1; options = none; name = some (97 ∷ []) }

handle_initialization-IsCounted_example :
    Ensures
      (λ r. IsCounted r.1)
      (handle_initialization 2 connect_to_a (working_setup 6 251 0) two_connections)
handle_initialization-IsCounted_example =
    handle_initialization-IsCounted 2 connect_to_a 6 251 0 two_connections refl refl refl
      two_connections-IsCounted

release-IsCounted_example : IsCounted (release 1 two_connections)
release-IsCounted_example = release-IsCounted 1 two_connections refl two_connections-IsCounted

found_a : get_block_device (97 ∷ []) one_device ≡ some 5
unfolding get_block_device find_device same_name
found_a = refl

same_a : same_name disk_name_len (97 ∷ []) (97 ∷ []) ≡ true
unfolding same_name
same_a = refl

release-Removed_example : Removed 5 one_device (release 1 two_connections).registry
release-Removed_example = release-Removed 1 5 5 [] [] two_connections refl refl refl same_a tt

located_a : (locate connect_to_a (working_setup 6 251 0) two_connections).0 ≡ device_at 5
unfolding locate locate_by locate_connect get_block_device find_device same_name
located_a = refl

connect_race_example :
    Ensures
      (λ r.
        (r.1.block_dev 2 ≡ some 5)
        × ((r.1.registry.devices 5).resources
            ≡ record all_held { disk = false; tag_set = false; major = false }))
      (attach 2
        (locate connect_to_a (working_setup 6 251 0) two_connections).0
        (release 1 (locate connect_to_a (working_setup 6 251 0) two_connections).1))
connect_race_example =
    connect_race 1 2 5 connect_to_a (working_setup 6 251 0) two_connections refl located_a refl refl
      found_a

abbrev some_bytes : ℕ → List ℕ
some_bytes zero = []
some_bytes (suc n) = n ∷ some_bytes n

abbrev two_zones : IntBody
two_zones = record { buffer = some_bytes 128; room = 128; sem = 0; int_result = pos 0 }

-- A request that waits for at most two zones.
abbrev report_driver : Driver ℕ
report_driver = record {
  requests = λ a. record { id = 7; kind = report_zones; pos = 0; length = 0; body = int two_zones };
  next_request_id = 8;
  pending_requests = [];
  ended = [];
}

-- Seventy bytes hold one zone and the beginning of another.
reply_int-woken_example :
    Ensures
      (λ q. woken (q.requests 3).body ≡ some (whole_zones 70 (some_bytes 70)))
      (reply_int
        (λ r. 0)
        (λ a. [])
        (λ a n. some (some_bytes n))
        (λ a n. [])
        (pos 70)
        3
        4096
        report_driver)
reply_int-woken_example =
    reply_int-woken (λ r. 0) (λ a. []) (λ a n. some (some_bytes n)) (λ a n. []) 69 3 4096
      (some_bytes 70) two_zones report_driver refl refl refl (omega arith) (omega arith)
