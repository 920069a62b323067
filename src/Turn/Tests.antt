-- ===== src/Turn/Tests.antt =====
-- Turns of the library on the driver: a bio is the bytes it has left, in one segment, and data is
-- copied one byte at a time.
use bius.RequestType
use bius.RequestType.{unmapped, flush, write}
use bius.Kernel.{BioApi, Request, Driver, blk, BlkBody}
use bius.Kernel.Transfer.{K2uHeader}
use bius.Kernel.Reply.{U2kHeader}
use bius.Library.{Operations, Outcome}
use bius.Turn.{Process, turn, ℤ, List, pos, ℕ, []}
use bius.Turn.Serves.{Served, idle}
use bius.Turn.Commands.{turn-Served_command}
use bius.Base.{
  Ensures, pos, List, ℕ, ℤ, [], length, ◌≤◌, none, Option, ◌<◌, if◌then◌else◌, ◌∷◌, negsuc, ltb,
  drop, ◌≡◌, arith, ◌==◌, some, refl, take, ◌-◌, ap,
}
use bius.Kernel.CharDev.{get_request_by_id}
use bius.Turn.Reads.{turn-Served_read, Readable}
use bius.Kernel.BlockDev.{queue_rq}
use bius.Turn.Round.{write_of, queue_rq-turn}

abbrev whole_api : BioApi (List ℕ)
whole_api = record {
  segment = λ b. b;
  bi_size = length;
  advance = λ b n. drop n b;
  contents = λ b. b;
  size_law = λ b. refl;
  segment_law = λ b n h. refl;
  segment_some = λ b h. h;
  segment_le = λ b. omega arith;
  advance_law = λ b n h. refl;
}

abbrev one_at_a_time : ℕ → ℕ
one_at_a_time n = if ltb n 56 then (if n == 0 then 0 else 1) else n

one_at_a_time_le : (n : ℕ) → one_at_a_time n ≤ n
one_at_a_time_le n = ground arith

one_at_a_time_some : (n : ℕ) → 0 < n → 0 < one_at_a_time n
one_at_a_time_some n h = ground arith

-- The state of the storage is what the buffer has, and what was written.
abbrev write_buffer : ℕ → ℕ → ℕ → List ℕ × List ℕ → Option (ℕ × (List ℕ × List ℕ))
write_buffer address offset n (buffer, disk) = some (0, (buffer, buffer))

abbrev read_disk : ℕ → ℕ → ℕ → List ℕ × List ℕ → Option (ℕ × (List ℕ × List ℕ))
read_disk address offset n (buffer, disk) = some (0, (disk, disk))

abbrev fail_flush : List ℕ × List ℕ → Option (ℕ × (List ℕ × List ℕ))
fail_flush s = some (10, s)

abbrev buffer_disk : Operations (List ℕ × List ℕ)
buffer_disk = record {
  read = some read_disk;
  write = some write_buffer;
  discard = none;
  flush = some fail_flush;
  report_zones = none;
  open_zone = none;
  close_zone = none;
  finish_zone = none;
  append_zone = none;
  reset_zone = none;
  reset_all_zone = none;
}

abbrev memory : Process (List ℕ × List ℕ)
memory = record {
  buffer = 4096;
  zones = 8192;
  entries = [];
  fill = λ bytes s. (bytes, s.1);
  user = λ s a n. some (take n (drop (a - 4096) s.0));
  partial = λ s a n. [];
}

abbrev small_body : BlkBody (List ℕ)
small_body = record {
  bio = (1 ∷ 2 ∷ []) ∷ (3 ∷ []) ∷ [];
  map_data = 0;
  mapped_size = 0;
  map_type = unmapped;
  blk_result = 0;
}

-- A write of three bytes in two bios at 7, and a flush at any other address.
abbrev two_requests : ℕ → Request (List ℕ)
two_requests a =
    if a == 7
    then record { id = 3; kind = RequestType.write; pos = 512; length = 3; body = blk small_body }
    else record {
      id = 4;
      kind = RequestType.flush;
      pos = 0;
      length = 0;
      body =
          blk (record {
            bio = [];
            map_data = 0;
            mapped_size = 0;
            map_type = unmapped;
            blk_result = 0;
          });
    }

abbrev queued : List ℕ → Driver (List ℕ)
queued xs = record {
  requests = two_requests;
  next_request_id = 4;
  pending_requests = xs;
  ended = [];
}

abbrev old_k2u : K2uHeader
old_k2u = record {
  id = 0;
  opcode = RequestType.flush;
  offset = 0;
  length = 0;
  data_address = 0;
  mapping_data = 0;
  data_map_type = unmapped;
}

abbrev old_u2k : U2kHeader
old_u2k = record { id = 0; reply = pos 0; user_data = 0 }

abbrev number_of : ℤ → ℕ
number_of (pos n) = n
number_of (negsuc n) = 0

abbrev written : Outcome (List ℕ × List ℕ)
written = record { status = 0; out_user_data = 0; state = (1 ∷ 2 ∷ 3 ∷ [], 1 ∷ 2 ∷ 3 ∷ []) }

none_waiting : (requests : ℕ → Request (List ℕ)) (id : ℕ) → get_request_by_id requests [] id ≡ none
unfolding get_request_by_id
none_waiting requests id = refl

abbrev flush_failed : Outcome (List ℕ × List ℕ)
flush_failed = record { status = 10; out_user_data = 0; state = ([], []) }

turn-Served_command_example : Ensures (Served number_of 8 flush_failed (idle []) [] [] []) (
    turn whole_api one_at_a_time number_of
      (λ a. [])
      (pos 24)
      buffer_disk
      memory
      (record {
        k2u = old_k2u;
        u2k = old_u2k;
        state = ([], []);
        connection = idle [];
        driver = queued (8 ∷ []);
        received = [];
      }))
turn-Served_command_example =
    turn-Served_command whole_api one_at_a_time number_of (λ a. []) buffer_disk memory 8 [] []
      (queued (8 ∷ [])) old_k2u old_u2k ([], []) ([], []) 10 refl
      (record {
        pending = refl;
        body = tt;
        no_data = refl;
        block = refl;
        fresh = none_waiting two_requests 4;
      })
      refl

abbrev read_body : BlkBody (List ℕ)
read_body = record small_body { bio = (0 ∷ 0 ∷ []) ∷ (0 ∷ []) ∷ [] }

abbrev one_read : Driver (List ℕ)
one_read = record (queued (5 ∷ [])) {
  requests =
      λ a. record { id = 6; kind = RequestType.read; pos = 512; length = 3; body = blk read_body };
}

abbrev was_read : Outcome (List ℕ × List ℕ)
was_read = record { status = 0; out_user_data = 4096; state = (7 ∷ 8 ∷ 9 ∷ [], 7 ∷ 8 ∷ 9 ∷ []) }

buffer_Readable : Readable memory was_read.state (7 ∷ 8 ∷ 9 ∷ [])
buffer_Readable i n h = ap (λ j. some (take n (drop j (7 ∷ 8 ∷ 9 ∷ [])))) (omega arith)

turn-Served_read_example :
    Ensures (Served number_of 5 was_read (idle []) [] [] ((7 ∷ 8 ∷ []) ∷ (9 ∷ []) ∷ [])) (
      turn whole_api one_at_a_time number_of
        (λ a. 2 ∷ 1 ∷ [])
        (pos 24)
        buffer_disk
        memory
        (record {
          k2u = old_k2u;
          u2k = old_u2k;
          state = ([], 7 ∷ 8 ∷ 9 ∷ []);
          connection = idle [];
          driver = one_read;
          received = [];
        }))
turn-Served_read_example =
    turn-Served_read whole_api one_at_a_time number_of (λ a. 2 ∷ 1 ∷ []) buffer_disk memory 5 [] []
      read_body (7 ∷ 8 ∷ 9 ∷ []) one_read old_k2u old_u2k read_disk ([], 7 ∷ 8 ∷ 9 ∷ [])
      was_read.state refl
      (record {
        pending = refl;
        body = refl;
        reads = refl;
        some_bio = omega arith;
        plain = refl;
        fresh = none_waiting one_read.requests 6;
      })
      refl refl buffer_Readable (omega arith) (omega arith)

queue_rq-turn_example : Ensures (Served number_of 7 written (idle []) [] [] []) (
    turn whole_api one_at_a_time number_of
      (λ a. [])
      (pos 24)
      buffer_disk
      memory
      (record {
        k2u = old_k2u;
        u2k = old_u2k;
        state = ([], []);
        connection = idle [];
        driver = (queue_rq (λ o. 0) 7 (write_of 1 3 small_body.bio) small_body (queued [])).1;
        received = [];
      }))
queue_rq-turn_example =
    queue_rq-turn (λ o. 0) whole_api one_at_a_time number_of (λ a. []) buffer_disk memory 7 1 3
      small_body.bio small_body (queued []) old_k2u old_u2k write_buffer ([], [])
      (1 ∷ 2 ∷ 3 ∷ [], 1 ∷ 2 ∷ 3 ∷ []) 0 one_at_a_time_le one_at_a_time_some refl refl refl
      (omega arith) (omega arith) (omega arith) refl refl
