-- ===== src/Turn/Reads.antt =====
-- library/libbius.c on kernel/char_dev.c: a turn of `handle_requests` that reads a read.
use bius.RequestType
use bius.RequestType.{
  BiusReq, is_blk_request, request_is_write, request_may_have_data, unmapped, simple,
  is_write-is_blk_request, is_write-may_have_data,
}
use bius.Kernel.{BioApi, Driver, Connection, Request, BlkBody, blk}
use bius.Kernel.Transfer.{
  K2uHeader, k2u_size, u2k_size, command_header, receive_data, receive_by_map, receive_segments,
}
use bius.Kernel.CharDev.{prepare_body, sends_data, put_body, get_request_by_id}
use bius.Kernel.Reply.{U2kHeader, is_read, is_ok, receive_body}
use bius.Library.{Operations, Outcome}
use bius.Library.Dispatch.{handle_blk_command}
use bius.Library.CopyIn.{handle_copy_in}
use bius.Turn.{Process, turn, serve, turn_on, after_read, ℕ, command_result, read_data_file}
use bius.Turn.Sends.{IsBlk}
use bius.Turn.Ends.{get_request_by_id-ids, put_body-ids, and_false}
use bius.Base.{
  ℕ, ℤ, List, ◌≡◌, some, pos, ◌∷◌, refl, [], none, false, Ensures, ==_refl, subst, sym, ◌∙◌, ap,
  ◌+◌, take, length, ◌≤◌, drop, ◌<◌, u64_mod, u64, arith, drop-drop, inr, ◌&&◌, Option, negsuc,
}
use bius.Turn.Serves.{Served, idle, reading, reply_turn-Served, dev_read-command}
use bius.Turn.Writes.{copied_in}
use bius.Status.{blk_sts_ok}

-- The next request is the one at `a`, a read into the bios of `b`, and no waiting request has its id.
pub record IsNextRead {Bio : Type 0} (a : ℕ) (xs rest : List ℕ) (b : BlkBody Bio) (k : Driver Bio)
    : Type 0 where
  pub pending : k.pending_requests ≡ a ∷ rest
  pub body : (k.requests a).body ≡ blk b
  pub reads : (k.requests a).kind ≡ RequestType.read
  pub some_bio : 0 < length b.bio
  pub plain : b.map_type ≡ unmapped
  pub fresh : get_request_by_id k.requests xs (k.requests a).id ≡ none

-- A list cut into pieces of the lengths of a list.
abbrev pub cut : List ℕ → List ℕ → List (List ℕ)
cut [] bytes = []
cut (n ∷ ns) bytes = take n bytes ∷ cut ns (drop n bytes)

-- The driver can copy each part of `bytes` from the buffer.
abbrev pub Readable : {S : Type 0} → Process S → S → List ℕ → Type 0
Readable m s bytes =
    (i n : ℕ) → i + n ≤ length bytes → m.user s (m.buffer + i) n ≡ some (take n (drop i bytes))

abbrev pub total_of : List ℕ → ℕ
total_of [] = 0
total_of (n ∷ ns) = n + total_of ns

module _ {S : Type 0} (m : Process S) (s : S) (bytes : List ℕ) where
  receive_segments-cut :
      (ns : List ℕ) (i : ℕ)
      → Readable m s bytes
      → m.buffer + length bytes < u64_mod
      → i + total_of ns ≤ length bytes
      → receive_segments (m.user s) ns (m.buffer + i) ≡ some (cut ns (drop i bytes))
  unfolding receive_segments
  receive_segments-cut [] i r u h = refl
  receive_segments-cut (n ∷ ns) i r u h =
      let next : u64 (m.buffer + i + n) ≡ m.buffer + (i + n) = omega arith in
      rw
        (
          r i n (omega arith),
          next,
          receive_segments-cut ns (i + n) r u (omega arith),
          drop-drop i n bytes,
        )
        refl

  receive_by_map-cut :
      {Bio : Type 0} (bs : List Bio) (ns : List ℕ) (address : ℕ) (l : List (List ℕ))
      → 0 < length bs
      → receive_segments (m.user s) ns address ≡ some l
      → receive_by_map (m.user s) bs unmapped ns address ≡ (pos 0, l)
  unfolding receive_by_map
  receive_by_map-cut [] ns address l h e = absurd (omega arith)
  receive_by_map-cut (b ∷ bs) ns address l h e =
      ap
        (λ (x : Option (List (List ℕ))). elim x as (λ x. ℤ × List (List ℕ)) [
          | none ↦ (negsuc 4, [])
          | some bytes ↦ (pos 0, bytes)
        ])
        e

  receive_data-cut :
      {Bio : Type 0} (b : BlkBody Bio) (ns : List ℕ) (address : ℕ)
      → 0 < length b.bio
      → b.map_type ≡ unmapped
      → address ≡ m.buffer
      → Readable m s bytes
      → m.buffer + length bytes < u64_mod
      → total_of ns ≤ length bytes
      → receive_data (m.user s) b ns address ≡ (pos 0, cut ns bytes)
  unfolding receive_data
  receive_data-cut b ns address p t e r u h =
      ap (λ t. receive_by_map (m.user s) b.bio t ns address) t
      ∙ receive_by_map-cut b.bio ns address (cut ns bytes) p (
          ap (receive_segments (m.user s) ns) {y = m.buffer + 0} (omega arith)
          ∙ receive_segments-cut ns 0 r u (omega arith))

module _ {Bio S : Type 0} (api : BioApi Bio) (copied : ℕ → ℕ) (status : ℤ → ℕ)
    (segments : ℕ → List ℕ) (ops : Operations S) (m : Process S) where
  sends_data-read :
      (a : ℕ) (k : Driver Bio)
      → (k.requests a).kind ≡ RequestType.read
      → sends_data api copied (k.requests a) ≡ false
  sends_data-read a k h = rw h (and_false _ false refl)

  prepared :
      (a : ℕ) (k : Driver Bio)
      → (k.requests a).kind ≡ RequestType.read
      → prepare_body api copied
          (sends_data api copied (k.requests a))
          (k.requests a).body
          (k.requests a).length
        ≡ some (k.requests a).body
  unfolding prepare_body
  prepared a k h =
      ap (λ s. prepare_body api copied s (k.requests a).body (k.requests a).length)
        (sends_data-read a k h)

  buffer_given :
      (r : Request Bio) (f : Connection × Driver Bio)
      → r.kind ≡ RequestType.read
      → handle_copy_in (read_data_file api copied) (command_header r) m.buffer f
        ≡ some (copied_in m r, [], f)
  unfolding handle_copy_in command_header
  buffer_given r f e = rw e refl

  -- The command for a read calls the operation `read` on the buffer, and replies with the buffer.
  read_command-calls :
      (f : ℕ → ℕ → ℕ → S → Option (ℕ × S)) (r : Request Bio) (s s' : S) (st : ℕ)
      → ops.read ≡ some f
      → r.kind ≡ RequestType.read
      → m.buffer < u64_mod
      → f m.buffer r.pos r.length s ≡ some (st, s')
      → handle_blk_command ops (copied_in m r) m.entries 0 s
        ≡ some (record { status = st; out_user_data = m.buffer; state = s' })
  unfolding handle_blk_command command_header
  read_command-calls f r s s' st w t h e =
      let address : u64 (m.buffer + 0) ≡ m.buffer = omega arith in rw (t, w, address, e) refl

  -- A turn that reads a read calls the operation `read` with the buffer, the read's position and its
  -- length. Where this returns BLK_STS_OK, the turn ends the read: its segments receive the bytes that
  -- the operation left in the buffer, cut into their lengths, in order, the request ends with that
  -- status, and the connection and the queue are as they were without the request. The driver can copy
  -- the bytes, of which the segments want no more, and the command as a whole; the read has some bio,
  -- and no waiting request has its id.
  pub turn-Served_read :
      (a : ℕ) (xs rest : List ℕ) (b : BlkBody Bio) (bytes : List ℕ) (k : Driver Bio)
      (k2u : K2uHeader) (u2k : U2kHeader) (f : ℕ → ℕ → ℕ → S → Option (ℕ × S)) (s s' : S)
      → copied k2u_size ≡ k2u_size
      → IsNextRead a xs rest b k
      → ops.read ≡ some f
      → f m.buffer (k.requests a).pos (k.requests a).length s ≡ some (blk_sts_ok, s')
      → Readable m s' bytes
      → m.buffer + length bytes < u64_mod
      → total_of (segments a) ≤ length bytes
      → Ensures
          (Served status a
            (record { status = blk_sts_ok; out_user_data = m.buffer; state = s' })
            (idle xs)
            rest
            k.ended
            (cut (segments a) bytes))
          (turn api copied status segments (pos u2k_size) ops m (record {
            k2u = k2u;
            u2k = u2k;
            state = s;
            connection = idle xs;
            driver = k;
            received = [];
          }))
  unfolding turn turn_on after_read serve command_result command_header receive_body
  turn-Served_read a xs rest b bytes k k2u u2k f s s' full q w e r u h =
      let o : Outcome S = record { status = blk_sts_ok; out_user_data = m.buffer; state = s' } in
      let v = read_command-calls f (k.requests a) s s' blk_sts_ok w q.reads (omega arith) e in
      let k' : Driver Bio = put_body (record k { pending_requests = rest }) a (k.requests a).body in
      let at : k'.requests a ≡ k.requests a = rw (==_refl a) refl in
      let start : Connection × Driver Bio = (idle xs, record k { pending_requests = rest }) in
      let kind : (k'.requests a).kind ≡ RequestType.read =
        ap (λ (r : Request Bio). r.kind) at ∙ q.reads in
      let body : (k'.requests a).body ≡ blk b = ap (λ (r : Request Bio). r.body) at ∙ q.body in
      let id : (k'.requests a).id ≡ (k.requests a).id = ap (λ (r : Request Bio). r.id) at in
      rw
        (
          dev_read-command api copied a xs rest (k.requests a).body k q.pending full
              (prepared a k q.reads),
          sends_data-read a k q.reads,
          buffer_given (k.requests a) (reading false a xs, k') q.reads,
        )
        (reply_turn-Served status segments ops m a (copied_in m (k.requests a)) u2k o s
          (reading false a xs) k' xs (cut (segments a) bytes) (ap is_blk_request q.reads) v refl
          refl (sym id)
          (get_request_by_id-ids k.requests k'.requests xs _
              (put_body-ids start.1 a (k.requests a).body)
            ∙ ap (get_request_by_id k.requests xs) id
            ∙ q.fresh)
          (subst IsBlk (sym body) tt) (ap is_blk_request kind)
          (inr (
            ap (λ t. is_ok (pos blk_sts_ok) && is_read t) kind,
            ap
                  (λ x.
                    receive_body status segments (m.user o.state) (m.partial o.state) x a (record {
                      id = (k.requests a).id;
                      reply = pos o.status;
                      user_data = o.out_user_data;
                    }))
                  body
                ∙ ap some (
                    receive_data-cut m o.state bytes b (segments a) o.out_user_data q.some_bio
                      q.plain refl r u h),
          )))
