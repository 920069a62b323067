-- ===== src/Turn/Startup.antt =====
-- library/libbius.c, `bius_main`, on the driver of kernel/char_dev.c: how the threads come to the device.
use bius.Base.{ℕ, ◌+◌, ◌<◌, ◌≤◌, ◌≡◌, true, some, Option, ℤ, pos, List, [], ◌∷◌, ◌++◌, ◌>>=◌}
use bius.Kernel.Registry.{BlockDeviceOptions, Setup}
use bius.Kernel.Lifecycle.{World, dev_open, handle_initialization}
use bius.Library.Main.{Calls, Threads, each_thread, thread_main}

-- The driver, and the address of the next connection that it allocates.
pub record Host : Type 0 where
  pub world : World
  pub next : ℕ

-- `bius_dev_open` and `bius_dev_write` as the library calls them, with the outcome `s` of the
-- kernel's calls in a creation.
abbrev pub driver_calls : Setup → Calls Host
driver_calls s = record {
  open_char_dev =
      λ h. (some h.next, record { world = (dev_open (some h.next) h.world).1; next = h.next + 1 });
  write_header =
      λ fd x h. handle_initialization fd x s h.world >>= λ r. some (r.0, record h { world = r.1 });
}

module _ (s : Setup) (a : ℕ) (o : BlockDeviceOptions) (first : ℕ) where
  -- The device is the last of the list and has its name; `k` connections from `first` on have it, and
  -- it counts as many.
  pub record Attached (k : ℕ) (h : Host) : Type 0 where
    pub before : List ℕ
    pub listed : h.world.registry.all_disk_list ≡ before ++ a ∷ []
    pub named : (h.world.registry.devices a).disk_name ≡ o.disk_name
    pub counted : (h.world.registry.devices a).num_connection ≡ k
    pub next : h.next ≡ first + k
    pub attached : (j : ℕ) → first ≤ j → j < h.next → h.world.block_dev j ≡ some a

  -- Threads for which there is memory, and each of which, when it is created, runs `thread_main` up to
  -- its `handle_requests` before the next one is; `handle_requests` and `pthread_join` are those of the
  -- first thread, whatever they do.
  abbrev pub starting_threads :
      (ℕ → Host → Option Host) → (ℕ → Host → Option (ℤ × Host)) → Threads Host
  starting_threads handle_requests pthread_join = record {
    malloc = λ n h. true;
    pthread_create =
        λ i h. thread_main (driver_calls s) o (λ fd w. some w) h >>= λ w. some (pos 0, w);
    handle_requests = handle_requests;
    pthread_join = pthread_join;
  }

  module _ (handle_requests : ℕ → Host → Option Host)
      (pthread_join : ℕ → Host → Option (ℤ × Host)) where
    abbrev threads : Threads Host
    threads = starting_threads handle_requests pthread_join

    -- The state in which the first thread comes to its requests, of `n` threads, on the connection
    -- `fd`, and what `call` still does from there on.
    abbrev pub ComesToRequests : ℕ → ℕ → ℕ → Option (ℤ × Host) → Type 0
    ComesToRequests n fd joined call =
        (w : Host) × Attached n w
        × (call ≡ (
            handle_requests fd w >>= λ w'.
            each_thread (driver_calls s) pthread_join joined 0 (pos 0) w'))
