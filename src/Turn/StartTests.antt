-- ===== src/Turn/StartTests.antt =====
-- The start of a program with two threads on a driver without devices.
use bius.Base.{ℕ, ℤ, [], ◌∷◌, none, some, true, pos, ◌≡◌, refl, List, Option, false}
use bius.Kernel.Registry.{BlockDeviceOptions, model_none, create_block_device, get_block_device}
use bius.Kernel.Counted.{working_setup}
use bius.Kernel.Lifecycle.{handle_initialization, dev_open}
use bius.Library.Main.{thread_main, connect_header, bius_main}
use bius.Turn.Startup.{Host, driver_calls, starting_threads}

abbrev two_threads : BlockDeviceOptions
two_threads = record {
  model = model_none;
  num_threads = 2;
  disk_size = 4096;
  max_open_zones = 0;
  max_active_zones = 0;
  disk_name = 98 ∷ 105 ∷ [];
}

abbrev no_devices : Host
no_devices = record {
  world = record {
    registry = record {
      devices = λ a. record {
        disk_name = [];
        major_number = 0;
        capacity = 0;
        model = model_none;
        num_connection = 0;
        pending_requests = [];
        limits = record {
          max_discard_sectors = 0;
          max_segments = 0;
          max_dev_sectors = 0;
          max_hw_sectors = 0;
          chunk_sectors = 0;
          io_min = 0;
          zoned = false;
          max_zone_append_sectors = 0;
          max_open_zones = 0;
          max_active_zones = 0;
        };
        resources = record {
          memory = false;
          major = false;
          disk = false;
          tag_set = false;
          queue = false;
        };
      };
      all_disk_list = [];
      ended = [];
    };
    connections = [];
    block_dev = λ i. none;
  };
  next = 20;
}

-- Requests that end the program, and threads that join.
abbrev exits : ℕ → Host → Option Host
exits fd h = none

abbrev joins : ℕ → Host → Option (ℤ × Host)
joins i h = some (pos 0, h)

-- Requests that come to an end, to see the state.
abbrev ends : ℕ → Host → Option Host
ends fd h = some h

abbrev summary : Option (ℤ × ℤ × Host) → Option (ℤ × ℤ × List (Option ℕ) × List ℕ)
summary none = none
summary (some (r, e, h)) = some (
  r,
  e,
  h.world.block_dev 20 ∷ h.world.block_dev 21 ∷ h.world.block_dev 22 ∷ [],
  (h.world.registry.devices 6).num_connection ∷ h.world.connections,
)

bius_main_runs :
    summary (
      bius_main
        (driver_calls (working_setup 6 251 0))
        (starting_threads (working_setup 6 251 0) 6 two_threads 20 ends joins)
        true
        (some two_threads)
        no_devices)
    ≡ some (pos 0, pos 0, some 6 ∷ some 6 ∷ none ∷ [], 2 ∷ 21 ∷ 20 ∷ [])
unfolding bius_main handle_initialization dev_open get_block_device create_block_device
    connect_header thread_main
bius_main_runs = refl
