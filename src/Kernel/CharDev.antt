-- ===== src/Kernel/CharDev.antt =====
-- kernel/char_dev.c: `bius_dev_read`, the reply half of `bius_dev_write`, and the end of the waiting
-- requests in `bius_dev_release`; kernel/request.h: how a request ends. A handler is one step: it
-- holds a list's lock while it changes the list. `none` is a fault of the kernel, such as a write
-- through the wrong member of the request's union or past the end of a buffer.
use bius.Base.{
  [], ◌∷◌, true, false, none, some, pos, negsuc, ℕ, ℤ, Bool, ◌&&◌, if◌then◌else◌, Option, List,
  ◌>>=◌, ◌==◌, ◌++◌, ltb, ◌+◌, ◌-◌, ◌<◌, ◌≡◌, u32, arith,
}
use bius.RequestType.{MapType, unmapped, request_may_have_data, request_is_write}
use bius.Status.{blk_sts_ioerr}
use bius.Kernel.{Request, Driver, Connection, BioApi, Body, BlkBody, blk, int, store}
use bius.Kernel.Transfer.{K2uHeader, k2u_size, command_header, send_data}

abbrev pub is_unmapped : MapType → Bool
is_unmapped unmapped = true
is_unmapped _ = false

-- `request_io_done`.
unfoldable pub request_io_done : {Bio : Type 0} → BlkBody Bio → Bool
request_io_done r = if is_unmapped r.map_type then r.map_data == 0 else true

abbrev pub put_body : {Bio : Type 0} → Driver Bio → ℕ → Body Bio → Driver Bio
put_body k a b = record k { requests = store k.requests a (record (k.requests a) { body = b }) }

-- `end_blk_request`: `blk_result` belongs to the first member of the union, and lies inside `sem`
-- of the second.
unfoldable pub end_blk_body : {Bio : Type 0} → Body Bio → ℕ → ℕ → Driver Bio → Option (Driver Bio)
end_blk_body (blk b) a result k =
    some (record (put_body k a (blk (record b { blk_result = result }))) { ended = a ∷ k.ended })
end_blk_body (int b) a result k = none

unfoldable pub end_blk_request : {Bio : Type 0} → ℕ → ℕ → Driver Bio → Option (Driver Bio)
unfolding end_blk_body
end_blk_request a result k = end_blk_body (k.requests a).body a result k

-- The `int` that an `ssize_t` is passed as.
abbrev pub signed_32 : ℕ → ℤ
signed_32 m = if ltb m 2147483648 then pos m else negsuc (4294967295 - m)

unfoldable pub as_int : ℤ → ℤ
as_int (pos n) = signed_32 (u32 n)
as_int (negsuc n) = signed_32 (4294967295 - u32 n)

pub as_int-pos : (n : ℕ) → n < 2147483648 → as_int (pos n) ≡ pos n
unfolding as_int
as_int-pos n h = ground arith

-- `end_request_int`; `on_request_end` is `up` on the semaphore.
unfoldable pub end_int_body : {Bio : Type 0} → Body Bio → ℕ → ℤ → Driver Bio → Option (Driver Bio)
end_int_body (int b) a result k =
    some (record (put_body k a (int (record b { int_result = as_int result; sem = b.sem + 1 }))) {
      ended = a ∷ k.ended;
    })
end_int_body (blk b) a result k = none

unfoldable pub end_request_int : {Bio : Type 0} → ℕ → ℤ → Driver Bio → Option (Driver Bio)
unfolding end_int_body
end_request_int a result k = end_int_body (k.requests a).body a result k

-- `get_request_by_id`: the first request of the list with this id.
unfoldable pub get_request_by_id : {Bio : Type 0} → (ℕ → Request Bio) → List ℕ → ℕ → Option ℕ
get_request_by_id requests [] id = none
get_request_by_id requests (a ∷ rest) id =
    if (requests a).id == id then some a else get_request_by_id requests rest id

-- `list_del` of the request at `a`.
unfoldable pub list_del : ℕ → List ℕ → List ℕ
list_del a [] = []
list_del a (b ∷ bs) = if b == a then bs else b ∷ list_del a bs

-- What a read returns, and what it has copied out: a header, or data.
pub record ReadResult (Bio : Type 0) : Type 0 where
  pub ret : ℤ
  pub header : Option K2uHeader
  pub sent : List ℕ
  pub connection : Connection
  pub driver : Driver Bio

-- A read with no pending request sleeps until one comes or a signal does.
pub data ReadOutcome (Bio : Type 0) : Type 0 where
  waits : ReadOutcome Bio
  returns : ReadResult Bio → ReadOutcome Bio

module _ {Bio : Type 0} (api : BioApi Bio) (copied : ℕ → ℕ) where
  -- The read of a request whose data is being sent.
  unfoldable pub read_data : Body Bio → ℕ → ℕ → Connection → Driver Bio → Option (ReadOutcome Bio)
  read_data (int b) a room c k = none
  read_data (blk b) a room c k = do
    r ← send_data api copied room b
    some (
        returns (record {
          ret = r.0;
          header = none;
          sent = r.1;
          connection = record c { sending = if request_io_done r.2 then none else some a };
          driver = put_body k a (blk r.2);
        }))

  -- Whether the request's data is to be read after the command.
  abbrev pub sends_data : Request Bio → Bool
  sends_data r = request_may_have_data r.kind && ltb 0 r.length && request_is_write r.kind

  unfoldable pub prepare_body : Bool → Body Bio → ℕ → Option (Body Bio)
  prepare_body false b length = some b
  prepare_body true (blk b) length = some (blk (record b { map_data = length }))
  prepare_body true (int b) length = none

  -- The header could not be copied out at all.
  unfoldable pub command_failed : ℕ → Connection → Driver Bio → Option (ReadOutcome Bio)
  unfolding end_blk_request
  command_failed a c k = do
    k' ← end_blk_request a blk_sts_ioerr k
    some (
        returns (record {
          ret = pos 0;
          header = none;
          sent = [];
          connection = record c { sending = none };
          driver = k';
        }))

  unfoldable pub command_sent :
      ℕ → ℕ → Option ℕ → Connection → Driver Bio → Option (ReadOutcome Bio)
  command_sent ret a sending c k = some (
      returns (record {
        ret = pos ret;
        header = some (command_header (k.requests a));
        sent = [];
        connection = record c {
          waiting_requests = c.waiting_requests ++ a ∷ [];
          sending = sending;
        };
        driver = k;
      }))

  -- The read of a command, for the request at `a` that has just left the pending requests.
  unfoldable pub read_command : ℕ → Connection → Driver Bio → Option (ReadOutcome Bio)
  unfolding prepare_body command_failed command_sent
  read_command a c k =
      let r = k.requests a in
      let ret : ℕ = copied k2u_size in
      prepare_body (sends_data r) r.body r.length >>= λ b.
      let k' = put_body k a b in
      if ret == 0
      then command_failed a c k'
      else command_sent ret a (if sends_data r then some a else c.sending) c k'

  unfoldable pub failed : ℤ → Connection → Driver Bio → Option (ReadOutcome Bio)
  failed e c k =
      some (returns (record { ret = e; header = none; sent = []; connection = c; driver = k }))

  unfoldable pub take_pending : List ℕ → Connection → Driver Bio → Option (ReadOutcome Bio)
  take_pending [] c k = some waits
  take_pending (a ∷ rest) c k = read_command a c (record k { pending_requests = rest })

  unfoldable pub read_by_sending : Option ℕ → ℕ → Connection → Driver Bio → Option (ReadOutcome Bio)
  unfolding take_pending read_command read_data failed
  read_by_sending (some a) room c k = read_data (k.requests a).body a room c k
  read_by_sending none room c k =
      if ltb room k2u_size then failed (negsuc 21) c k else take_pending k.pending_requests c k

  -- `bius_dev_read` with room for `room` bytes.
  unfoldable pub dev_read : ℕ → Connection → Driver Bio → Option (ReadOutcome Bio)
  unfolding read_by_sending
  dev_read room c k =
      if c.attached then read_by_sending c.sending room c k else failed (negsuc 4) c k
