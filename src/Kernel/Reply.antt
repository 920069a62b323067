-- ===== src/Kernel/Reply.antt =====
-- kernel/char_dev.c: `bius_dev_write` on a connection that has its device, from the lookup of the
-- request on, and the loop of `bius_dev_release`.
use bius.Base.{
  [], ◌∷◌, true, false, none, some, pos, negsuc, ℕ, List, ℤ, Bool, ◌==◌, Option, ◌>>=◌,
  if◌then◌else◌, suc, ltb, ◌&&◌, ◌++◌, drop,
}
use bius.RequestType
use bius.RequestType.{BiusReq, is_blk_request}
use bius.Status.{blk_sts_ok, blk_sts_ioerr}
use bius.Kernel.{Driver, Connection, Body, blk, int, store}
use bius.Kernel.Transfer.{receive_data}
use bius.Kernel.CharDev.{end_blk_request, end_request_int, get_request_by_id, list_del, put_body}
use Prim.Native.Nat.{zero}

-- The fields of `struct bius_u2k_header` that a reply has.
pub record U2kHeader : Type 0 where
  pub id : ℕ
  pub reply : ℤ
  pub user_data : ℕ

-- What a write returns, and the bytes that the request's segments received.
pub record WriteResult (Bio : Type 0) : Type 0 where
  pub ret : ℤ
  pub received : List (List ℕ)
  pub connection : Connection
  pub driver : Driver Bio

abbrev pub is_ok : ℤ → Bool
is_ok (pos n) = n == blk_sts_ok
is_ok (negsuc n) = false

abbrev pub is_read : BiusReq → Bool
is_read RequestType.read = true
is_read _ = false

abbrev pub is_zone_append : BiusReq → Bool
is_zone_append RequestType.zone_append = true
is_zone_append _ = false

-- `connection->sending` after the request at `a` has been answered.
abbrev pub unless : ℕ → Option ℕ → Option ℕ
unless a none = none
unless a (some b) = if b == a then none else some b

-- `status` is the conversion of a reply to the kernel's `blk_status_t`, `segments` the lengths of a
-- block request's segments, `user` is `copy_from_user`, and `partial` what it
-- writes where it fails.
module _ {Bio : Type 0} (status : ℤ → ℕ) (segments : ℕ → List ℕ) (user : ℕ → ℕ → Option (List ℕ))
    (partial : ℕ → ℕ → List ℕ) where
  abbrev pub returned : ℤ → List (List ℕ) → Connection → Driver Bio → WriteResult Bio
  returned ret received c k = record { ret = ret; received = received; connection = c; driver = k }

  -- The end of a block request: the position of a zone append, and the status.
  unfoldable pub finish_blk : ℕ → U2kHeader → Driver Bio → Option (Driver Bio)
  finish_blk a h k =
      let r = k.requests a in
      let k' : Driver Bio =
        if is_zone_append r.kind
        then record k { requests = store k.requests a (record r { pos = h.user_data }) }
        else k in
      end_blk_request a (status h.reply) k'

  -- The data of a read that succeeded.
  unfoldable pub receive_body : Body Bio → ℕ → U2kHeader → Option (ℤ × List (List ℕ))
  receive_body (blk b) a h = some (receive_data user b (segments a) h.user_data)
  receive_body (int b) a h = none

  unfoldable pub finish_received :
      ℤ × List (List ℕ) → ℤ → ℕ → U2kHeader → Connection → Driver Bio → Option (WriteResult Bio)
  finish_received (negsuc e, bytes) total a h c k = do
    k' ← end_blk_request a blk_sts_ioerr k
    some (returned (negsuc e) bytes c k')
  finish_received (pos n, bytes) total a h c k = do
    k' ← finish_blk a h k
    some (returned total bytes c k')

  unfoldable pub reply_blk : ℤ → ℕ → U2kHeader → Connection → Driver Bio → Option (WriteResult Bio)
  unfolding receive_body finish_received finish_blk
  reply_blk total a h c k =
      let r = k.requests a in
      let received : Option (WriteResult Bio) =
        (receive_body r.body a h >>= λ x. finish_received x total a h c k) in
      let plain : Option (WriteResult Bio) =
        (finish_blk a h k >>= λ k'. some (returned total [] c k')) in
      if is_ok h.reply && is_read r.kind then received else plain

  -- `copy_from_user(request->data, data, header.reply)`: it writes as many bytes where it
  -- fails, so the buffer needs room for them in any case.
  unfoldable pub fill_buffer : Body Bio → ℕ → List ℕ → Option (Body Bio)
  fill_buffer (blk b) n bytes = none
  fill_buffer (int b) n bytes =
      if ltb b.room n then none else some (int (record b { buffer = bytes ++ drop n b.buffer }))

  -- A positive reply of a request that is no block request.
  unfoldable pub reply_bytes : Option (List ℕ) → List ℕ → ℕ → ℕ → Driver Bio → Option (Driver Bio)
  unfolding fill_buffer
  reply_bytes none left a n k = do
    b ← fill_buffer (k.requests a).body n left
    end_request_int a (negsuc 21) (put_body k a b)
  reply_bytes (some bytes) left a n k = do
    b ← fill_buffer (k.requests a).body n bytes
    end_request_int a (pos n) (put_body k a b)

  unfoldable pub reply_int : ℤ → ℕ → ℕ → Driver Bio → Option (Driver Bio)
  unfolding reply_bytes
  reply_int (negsuc n) a address k = end_request_int a (negsuc n) k
  reply_int (pos zero) a address k = end_request_int a (pos 0) k
  reply_int (pos (suc n)) a address k =
      reply_bytes (user address (suc n)) (partial address (suc n)) a (suc n) k

  unfoldable pub reply_found :
      Option ℕ → ℤ → U2kHeader → Connection → Driver Bio → Option (WriteResult Bio)
  unfolding reply_blk reply_int
  reply_found none total h c k = some (returned (negsuc 21) [] c k)
  reply_found (some a) total h c k =
      let c' : Connection = record c {
        waiting_requests = list_del a c.waiting_requests;
        sending = unless a c.sending;
      } in
      let int_result : Option (WriteResult Bio) =
        (reply_int h.reply a h.user_data k >>= λ k'. some (returned total [] c' k')) in
      if is_blk_request (k.requests a).kind then reply_blk total a h c' k else int_result

  -- `total` is the result of `copy_from_iter`.
  unfoldable pub dev_reply : ℤ → U2kHeader → Connection → Driver Bio → Option (WriteResult Bio)
  unfolding reply_found
  dev_reply total h c k =
      reply_found (get_request_by_id k.requests c.waiting_requests h.id) total h c k

-- The loop of `bius_dev_release` over the waiting requests.
unfoldable pub end_waiting : {Bio : Type 0} → List ℕ → Driver Bio → Option (Driver Bio)
end_waiting [] k = some k
end_waiting (a ∷ rest) k = do k' ← end_blk_request a blk_sts_ioerr k; end_waiting rest k'
