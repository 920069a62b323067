-- ===== src/Kernel/Tests.antt =====
-- Runs of the driver: a bio is the bytes it has left, and its current segment the first of them.
use bius.Base.{
  [], ◌∷◌, pos, negsuc, none, some, true, ◌≡◌, ℕ, arith, List, Ensures, take, ◌≤◌, refl, length,
  drop, Option, ℤ, ◌<◌, suc, ◌%◌, some-injective, subst,
}
use bius.RequestType.{unmapped, write, report_zones}
use bius.Kernel.{BioApi, Request, Driver, Connection, blk, int, BlkBody}
use bius.Kernel.Transfer.{Sending, send_loop, send_piece}
use bius.Kernel.Sending.{Balanced, send_loop-Balanced}
use bius.Kernel.Reads.{IsReady, dev_read-total}
use bius.Kernel.Release.{AllBlk, end_waiting-Ends}
use bius.Kernel.Queue.{named, queue_rq-outcome}
use bius.Kernel.Replies.{Typed, HasRoom, dev_reply-total}
use bius.Kernel.Conserve.{Keeps, held, count}
use bius.Kernel.Reply.{dev_reply, U2kHeader, end_waiting}
use bius.Kernel.CharDev.{dev_read, get_request_by_id}
use bius.Kernel.BlockDev.{
  ReqOp, Matches, queue_rq, BlockRequest, op_zone_append, op_zone_open, op_zone_close,
  op_zone_finish, op_zone_reset, op_zone_reset_all,
}
use bius.Status.{blk_sts_ok}
use Prim.Native.Nat.{zero}

abbrev first_byte : List ℕ → List ℕ
first_byte [] = []
first_byte (a ∷ rest) = a ∷ []

first_byte_lem : (b : List ℕ) (n : ℕ) → n ≤ length (first_byte b) → take n b ≡ take n (first_byte b)
first_byte_lem [] n h = refl
first_byte_lem (a ∷ rest) zero h = refl
first_byte_lem (a ∷ rest) (suc zero) h = refl
first_byte_lem (a ∷ rest) (suc (suc n)) h = absurd (omega arith)

length-first_byte :
    (b : List ℕ) → (0 < length b → 0 < length (first_byte b)) × (length (first_byte b) ≤ length b)
length-first_byte [] = (λ h. h, omega arith)
length-first_byte (a ∷ rest) = (λ h. omega arith, omega arith)

abbrev bytes_api : BioApi (List ℕ)
bytes_api = record {
  segment = first_byte;
  bi_size = length;
  advance = λ b n. drop n b;
  contents = λ b. b;
  size_law = λ b. refl;
  segment_law = first_byte_lem;
  segment_some = λ b. (length-first_byte b).0;
  segment_le = λ b. (length-first_byte b).1;
  advance_law = λ b n h. refl;
}

abbrev all_of : ℕ → ℕ
all_of n = n

all_of_le : (n : ℕ) → all_of n ≤ n
all_of_le n = omega arith

abbrev two_bios : Sending (List ℕ)
two_bios = record {
  bio = (1 ∷ 2 ∷ 3 ∷ []) ∷ (4 ∷ []) ∷ [];
  map_data = 4;
  remain_buffer = 3;
  sent = [];
}

two_bios-Balanced : Balanced bytes_api two_bios two_bios
two_bios-Balanced = record { same = refl; left = refl; used = refl; small = omega arith }

send_loop-Balanced_example :
    Ensures (Balanced bytes_api two_bios) (send_loop bytes_api all_of 7 two_bios)
send_loop-Balanced_example =
    send_loop-Balanced bytes_api all_of all_of_le 7 two_bios two_bios (omega arith)
      two_bios-Balanced

-- With the reads and the room as above, three bytes are sent and one is left.
send_three :
    send_loop bytes_api all_of 7 two_bios
    ≡ some (record { bio = (4 ∷ []) ∷ []; map_data = 1; remain_buffer = 0; sent = 1 ∷ 2 ∷ 3 ∷ [] })
unfolding send_loop send_piece
send_three = refl

abbrev small_write : Request (List ℕ)
small_write = record {
  id = 7;
  kind = write;
  pos = 0;
  length = 4;
  body = blk (record {
    bio = (1 ∷ 2 ∷ 3 ∷ []) ∷ (4 ∷ []) ∷ [];
    map_data = 4;
    mapped_size = 0;
    map_type = unmapped;
    blk_result = 0;
  });
}

abbrev some_zones : Request (List ℕ)
some_zones = record {
  id = 8;
  kind = report_zones;
  pos = 0;
  length = 1;
  body = int (record { buffer = []; room = 64; sem = 0; int_result = pos 0 });
}

abbrev two_requests : ℕ → Request (List ℕ)
two_requests zero = some_zones
two_requests (suc a) = small_write

abbrev queued : Driver (List ℕ)
queued = record {
  requests = two_requests;
  next_request_id = 9;
  pending_requests = 1 ∷ 0 ∷ [];
  ended = [];
}

abbrev idle : Connection
idle = record { attached = true; waiting_requests = []; sending = none }

abbrev waiting : Connection
waiting = record { attached = true; waiting_requests = 1 ∷ 0 ∷ []; sending = some 1 }

abbrev nothing_queued : Driver (List ℕ)
nothing_queued = record queued { pending_requests = [] }

two_requests-Typed : (b : ℕ) → Typed (two_requests b)
two_requests-Typed zero = refl
two_requests-Typed (suc b) = refl

abbrev sending_one : Connection
sending_one = record { attached = true; waiting_requests = 1 ∷ []; sending = some 1 }

abbrev report_queued : Driver (List ℕ)
report_queued = record queued { pending_requests = 0 ∷ [] }

two_requests-IsReady : (b : ℕ) → some 1 ≡ some b → IsReady bytes_api (two_requests b).body
two_requests-IsReady zero e = absurd (omega (arith, some-injective 1 0 e))
two_requests-IsReady (suc b) e = (refl, omega arith)

-- The data of the write is sent, in part.
dev_read-total_example :
    Ensures
      (Keeps bytes_api all_of 1 sending_one report_queued)
      (dev_read bytes_api all_of 3 sending_one report_queued)
dev_read-total_example =
    dev_read-total bytes_api all_of all_of_le 1 3 sending_one report_queued two_requests-Typed
      (omega arith) (omega arith) two_requests-IsReady

-- The reply to the report of zones, with one zone of 64 bytes.
abbrev zones_reply : U2kHeader
zones_reply = record { id = 8; reply = pos 64; user_data = 4096 }

abbrev zeros : ℕ → List ℕ
zeros zero = []
zeros (suc n) = 0 ∷ zeros n

abbrev readable : ℕ → ℕ → Option (List ℕ)
readable a n = some (zeros n)

abbrev zeros_for : ℕ → ℕ → List ℕ
zeros_for a n = zeros n

abbrev one_segment : ℕ → List ℕ
one_segment a = 4 ∷ []

abbrev low_byte : ℤ → ℕ
low_byte (pos n) = n % 256
low_byte (negsuc n) = 255

-- Another report waits, with no room at all.
abbrev three_requests : ℕ → Request (List ℕ)
three_requests zero = some_zones
three_requests (suc zero) = small_write
three_requests (suc (suc a)) = record some_zones {
  id = 9;
  body = int (record { buffer = []; room = 0; sem = 0; int_result = pos 0 });
}

abbrev three_waiting : Connection
three_waiting = record waiting { waiting_requests = 2 ∷ 1 ∷ 0 ∷ [] }

three_requests-HasRoom :
    (b : ℕ)
    → get_request_by_id three_requests (2 ∷ 1 ∷ 0 ∷ []) 8 ≡ some b
    → Typed (three_requests b) × HasRoom (three_requests b).body zones_reply.reply
unfolding get_request_by_id
three_requests-HasRoom b e =
    subst (λ a. Typed (three_requests a) × HasRoom (three_requests a).body zones_reply.reply)
      (some-injective 0 b e) (refl, omega arith)

dev_reply-total_example :
    Ensures
      (λ r.
        held 2 r.connection r.driver
        ≡ held 2 three_waiting (record nothing_queued { requests = three_requests }))
      (dev_reply low_byte one_segment readable zeros_for
        (pos 24)
        zones_reply
        three_waiting
        (record nothing_queued { requests = three_requests }))
dev_reply-total_example =
    dev_reply-total low_byte one_segment readable zeros_for 2 (pos 24) zones_reply three_waiting
      (record nothing_queued { requests = three_requests }) three_requests-HasRoom

abbrev kernel_number : ReqOp → ℕ
kernel_number op_zone_open = 10
kernel_number op_zone_close = 11
kernel_number op_zone_finish = 12
kernel_number op_zone_append = 13
kernel_number op_zone_reset = 15
kernel_number op_zone_reset_all = 17
kernel_number _ = 0

kernel_number-Matches : Matches kernel_number
kernel_number-Matches = record {
  zone_open_at = refl;
  zone_close_at = refl;
  zone_finish_at = refl;
  zone_append_at = refl;
  zone_reset_at = refl;
  zone_reset_all_at = refl;
}

abbrev an_append : BlockRequest (List ℕ)
an_append = record { op = op_zone_append; sector = 8; bytes = 4; bios = (1 ∷ 2 ∷ 3 ∷ 4 ∷ []) ∷ [] }

abbrev old_memory : BlkBody (List ℕ)
old_memory = record { bio = []; map_data = 5; mapped_size = 0; map_type = unmapped; blk_result = 0 }

queue_rq-outcome_example :
    (((queue_rq kernel_number 2 an_append old_memory queued).1.requests 2).kind
      ≡ named op_zone_append)
    × (queue_rq kernel_number 2 an_append old_memory queued).0 ≡ blk_sts_ok
    × (queue_rq kernel_number 2 an_append old_memory queued).1.pending_requests ≡ 1 ∷ 0 ∷ 2 ∷ []
    × (queue_rq kernel_number 2 an_append old_memory queued).1.ended ≡ []
queue_rq-outcome_example =
    queue_rq-outcome kernel_number kernel_number-Matches 2 an_append old_memory queued

only_writes-AllBlk : AllBlk (1 ∷ 2 ∷ []) queued
only_writes-AllBlk zero h = absurd (omega (arith, h))
only_writes-AllBlk (suc b) h = tt

end_waiting-Ends_example :
    Ensures
      (λ q. (count 2 q.ended ≡ 1) × (q.pending_requests ≡ 1 ∷ 0 ∷ []))
      (end_waiting (1 ∷ 2 ∷ []) queued)
end_waiting-Ends_example = end_waiting-Ends 2 (1 ∷ 2 ∷ []) queued only_writes-AllBlk
