-- ===== src/Library/Main.antt =====
-- library/libbius.c: `bius_main`, its threads, and the two headers with which a connection gets its
-- device. The calls of the system are parameters, over their state `W`; `none` is `exit(1)`.
use bius.Base.{
  ℕ, zero, suc, ◌+◌, ◌-◌, ◌==◌, Bool, true, false, Option, none, some, ℤ, pos, negsuc,
  if◌then◌else◌, length, ◌>>=◌,
}
use bius.RequestType
use bius.Kernel.Registry.{BlockDeviceOptions}
use bius.Kernel.Lifecycle.{Initialization}

abbrev pub is_negative : ℤ → Bool
is_negative (pos n) = false
is_negative (negsuc n) = true

-- BIUS_DEFAULT_NUM_THREADS.
abbrev pub default_num_threads : ℕ
default_num_threads = 4

-- `open` of the device file, and `write` of a header; `user_data` is what it points to.
pub record Calls (W : Type 0) : Type 0 where
  pub open_char_dev : W → Option ℕ × W
  pub write_header : ℕ → Initialization → W → Option (ℤ × W)

-- `pthread_create` and `pthread_join` of the thread with a number, the loop of `handle_requests`, and
-- whether `malloc` succeeds.
pub record Threads (W : Type 0) : Type 0 where
  pub malloc : ℕ → W → Bool
  pub pthread_create : ℕ → W → Option (ℤ × W)
  pub handle_requests : ℕ → W → Option W
  pub pthread_join : ℕ → W → Option (ℤ × W)

unfoldable pub create_header : BlockDeviceOptions → Initialization
create_header o = record {
  u2k_type = RequestType.create;
  u2k_length = length o.disk_name;
  options = some o;
  name = none;
}

unfoldable pub connect_header : BlockDeviceOptions → Initialization
connect_header o = record {
  u2k_type = RequestType.connect;
  u2k_length = length o.disk_name;
  options = none;
  name = some o.disk_name;
}

abbrev pub threads_of : BlockDeviceOptions → ℕ
threads_of o = if o.num_threads == 0 then default_num_threads else o.num_threads

module _ {W : Type 0} (calls : Calls W) where
  -- The bodies of `create_block_device` and `connect_block_device`.
  unfoldable pub write_initial : ℕ → Initialization → W → Option W
  write_initial fd x w =
      calls.write_header fd x w >>= λ r. if is_negative r.0 then none else some r.1

  -- `open`, and the first write of the connection.
  unfoldable pub open_and_write : Initialization → W → Option (ℕ × W)
  unfolding write_initial
  open_and_write x w =
      let o : Option ℕ × W = calls.open_char_dev w in
      o.0 >>= λ fd. (write_initial fd x o.1 >>= λ w'. some (fd, w'))

  unfoldable pub thread_main : BlockDeviceOptions → (ℕ → W → Option W) → W → Option W
  unfolding open_and_write connect_header
  thread_main o handle_requests w =
      open_and_write (connect_header o) w >>= λ r. handle_requests r.0 r.1

  -- The loops over the threads, from thread `i` on, which stop at a negative result.
  unfoldable pub each_thread : (ℕ → W → Option (ℤ × W)) → ℕ → ℕ → ℤ → W → Option (ℤ × W)
  each_thread call zero i result w = some (result, w)
  each_thread call (suc n) i result w = call i w >>= λ r.
      let next : Option (ℤ × W) = each_thread call n (i + 1) r.0 r.1 in
      if is_negative r.0 then some r else next

  -- From `create_block_device` on, with the connection `fd` open.
  unfoldable pub run_threads : Threads W → ℕ → ℕ → W → Option (ℤ × W)
  unfolding each_thread
  run_threads t n fd w = each_thread t.pthread_create n 0 (pos 0) w >>= λ r.
      if is_negative r.0
      then some r
      else (t.handle_requests fd r.1 >>= λ w'. each_thread t.pthread_join n 0 r.0 w')

  unfoldable pub bius_main_given : Threads W → BlockDeviceOptions → W → Option (ℤ × W)
  unfolding open_and_write run_threads create_header
  bius_main_given t o w =
      if t.malloc (threads_of o - 1) w
      then (open_and_write (create_header o) w >>= λ r. run_threads t (threads_of o - 1) r.0 r.1)
      else some (negsuc 11, w)

  -- `bius_main_real`; `has_operations` says that `operations` is not NULL.
  unfoldable pub bius_main_real : Threads W → Bool → Option BlockDeviceOptions → W → Option (ℤ × W)
  unfolding bius_main_given
  bius_main_real t false o w = some (negsuc 21, w)
  bius_main_real t true none w = some (negsuc 21, w)
  bius_main_real t true (some o) w = bius_main_given t o w

  -- `bius_main`: its result, `errno`, and the state.
  unfoldable pub bius_main : Threads W → Bool → Option BlockDeviceOptions → W → Option (ℤ × ℤ × W)
  unfolding bius_main_real
  bius_main t has_operations o w = bius_main_real t has_operations o w >>= λ r.
      if is_negative r.0 then some (negsuc 0, r.0, r.1) else some (r.0, pos 0, r.1)
