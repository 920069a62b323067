-- ===== src/Kernel/Conserve.antt =====
-- No request is lost, and none is ended twice: each handler only moves requests between the pending
-- list of the device, the waiting list of the connection and those that have ended.
use bius.Base.{
  [], ◌∷◌, none, some, pos, negsuc, ℕ, Allows, ℤ, ◌+◌, List, ◌++◌, if◌then◌else◌, ◌≡◌, ◌==◌, arith,
  Allows-bind, Allows_result, refl, Bool-cases, ap, inl, inr, ◌<◌, Option, ltb, if_both, suc, ◌&&◌,
  Allows-mono,
}
use bius.Kernel.{Driver, Connection, BioApi, Body, blk, int, Request}
use bius.Kernel.CharDev
use bius.Kernel.CharDev.{
  end_blk_request, end_request_int, command_failed, ReadOutcome, read_command, returns,
  end_int_body, end_blk_body, prepare_body, sends_data, put_body, take_pending, get_request_by_id,
  list_del, read_data, read_by_sending, dev_read, failed,
}
use CharDev.{waits}
use bius.Status.{blk_sts_ioerr}
use bius.Kernel.Transfer.{k2u_size, send_data}
use bius.Kernel.Reply.{
  finish_blk, reply_blk, reply_int, U2kHeader, reply_bytes, finish_received, is_ok, reply_found,
  dev_reply, is_zone_append, fill_buffer, unless, is_read, receive_body,
}
use Prim.Native.Nat.{zero}
use bius.RequestType.{is_blk_request}

-- How often a request stands in a list.
abbrev pub count : ℕ → List ℕ → ℕ
count a [] = 0
count a (b ∷ bs) = (if b == a then 1 else 0) + count a bs

-- How often the request at `a` is held: pending, waiting for a reply on this connection, or ended.
abbrev pub held : {Bio : Type 0} → ℕ → Connection → Driver Bio → ℕ
held a c k = count a k.pending_requests + count a c.waiting_requests + count a k.ended

-- A request that joins the end of a list stands there once more.
count-append_one :
    (joined : ℕ) (ws : List ℕ) (a : ℕ)
    → count a (ws ++ joined ∷ []) ≡ (if joined == a then 1 else 0) + count a ws
count-append_one joined [] a = omega arith
count-append_one joined (w ∷ ws) a = omega (arith, count-append_one joined ws a)

module _ {Bio : Type 0} where
  -- Ending a request adds it to those that have ended, and changes no list.
  end_blk_request-count :
      (a b result : ℕ) (k : Driver Bio)
      → Allows
          (λ q.
            (count a q.ended ≡ count a (b ∷ k.ended)) × (q.pending_requests ≡ k.pending_requests))
          (end_blk_request b result k)
  unfolding end_blk_request
  end_blk_request-count a b result k = end_body (k.requests b).body
    where
      end_body :
          (x : Body Bio)
          → Allows
              (λ q.
                (count a q.ended ≡ count a (b ∷ k.ended))
                × (q.pending_requests ≡ k.pending_requests))
              (end_blk_body x b result k)
      end_body (blk x) = (refl, refl)
      end_body (int x) = tt

  end_request_int-count :
      (a b : ℕ) (result : ℤ) (k : Driver Bio)
      → Allows
          (λ q.
            (count a q.ended ≡ count a (b ∷ k.ended)) × (q.pending_requests ≡ k.pending_requests))
          (end_request_int b result k)
  unfolding end_request_int
  end_request_int-count a b result k = end_body (k.requests b).body
    where
      end_body :
          (x : Body Bio)
          → Allows
              (λ q.
                (count a q.ended ≡ count a (b ∷ k.ended))
                × (q.pending_requests ≡ k.pending_requests))
              (end_int_body x b result k)
      end_body (int x) = (refl, refl)
      end_body (blk x) = tt

module _ {Bio : Type 0} (api : BioApi Bio) (copied : ℕ → ℕ) where
  -- What a read leaves.
  abbrev pub Keeps : ℕ → Connection → Driver Bio → ReadOutcome Bio → Type 0
  Keeps a c k waits = Unit {0}
  Keeps a c k (returns r) = held a r.connection r.driver ≡ held a c k

  command_failed-Keeps :
      (a b : ℕ) (c : Connection) (k o : Driver Bio)
      → held a c o ≡ (if b == a then 1 else 0) + held a c k
      → Allows (Keeps a c o) (command_failed api copied b c k)
  unfolding command_failed
  command_failed-Keeps a b c k o h = Allows-bind _ (end_blk_request b blk_sts_ioerr k) _ λ q e.
      let r =
        Allows_result _ (end_blk_request b blk_sts_ioerr k) q
          (end_blk_request-count a b blk_sts_ioerr k) e in
      omega (arith, h, r.0, ap (count a) r.1)

  read_command-Keeps :
      (a b : ℕ) (c : Connection) (k o : Driver Bio)
      → held a c o ≡ (if b == a then 1 else 0) + held a c k
      → Allows (Keeps a c o) (read_command api copied b c k)
  unfolding read_command
  read_command-Keeps a b c k o h =
      Allows-bind _
        (prepare_body api copied (sends_data api copied (k.requests b)) (k.requests b).body
          (k.requests b).length)
        _
        λ x e. elim (Bool-cases (copied k2u_size == 0)) [
          | inl t ↦ rw t (command_failed-Keeps a b c (put_body k b x) o h)
          | inr t ↦ rw t (omega (arith, h, count-append_one b c.waiting_requests a))
        ]

  read_data-Keeps :
      (a : ℕ) (x : Body Bio) (b room : ℕ) (c : Connection) (k : Driver Bio)
      → Allows (Keeps a c k) (read_data api copied x b room c k)
  unfolding read_data
  read_data-Keeps a (int x) b room c k = tt
  read_data-Keeps a (blk x) b room c k = Allows-bind _ (send_data api copied room x) _ (λ r e. refl)

  take_pending-Keeps :
      (a : ℕ) (ps : List ℕ) (c : Connection) (k : Driver Bio)
      → k.pending_requests ≡ ps
      → Allows (Keeps a c k) (take_pending api copied ps c k)
  unfolding take_pending
  take_pending-Keeps a [] c k e = tt
  take_pending-Keeps a (b ∷ rest) c k e =
      read_command-Keeps a b c (record k { pending_requests = rest }) k
        (omega (arith, ap (count a) e))

  read_by_sending-Keeps :
      (a : ℕ) (s : Option ℕ) (room : ℕ) (c : Connection) (k : Driver Bio)
      → Allows (Keeps a c k) (read_by_sending api copied s room c k)
  unfolding read_by_sending failed
  read_by_sending-Keeps a (some b) room c k = read_data-Keeps a (k.requests b).body b room c k
  read_by_sending-Keeps a none room c k = elim (Bool-cases (ltb room k2u_size)) [
    | inl t ↦ rw t refl
    | inr t ↦ rw t (take_pending-Keeps a k.pending_requests c k refl)
  ]

  -- A read loses no request and makes none up: what it takes from the pending requests waits for
  -- its reply afterwards, or has ended.
  pub dev_read-Keeps :
      (a room : ℕ) (c : Connection) (k : Driver Bio)
      → Allows (Keeps a c k) (dev_read api copied room c k)
  unfolding dev_read failed
  dev_read-Keeps a room c k =
      if_both (Allows (Keeps a c k)) c.attached _ _
        (λ _. read_by_sending-Keeps a c.sending room c k) (λ _. refl)

pub list_del-count :
    (a b : ℕ) (ws : List ℕ)
    → 0 < count b ws
    → count a ws ≡ (if b == a then 1 else 0) + count a (list_del b ws)
unfolding list_del
list_del-count a b [] h = absurd (omega arith)
list_del-count a b (w ∷ ws) h = ground (arith, list_del-count a b ws)

-- The lookup finds a request of the list.
get_request_by_id-count :
    {Bio : Type 0} (requests : ℕ → Request Bio) (ws : List ℕ) (id b : ℕ)
    → get_request_by_id requests ws id ≡ some b
    → (0 < count b ws) × ((requests b).id ≡ id)
unfolding get_request_by_id
get_request_by_id-count requests [] id b e = absurd (cc)
get_request_by_id-count requests (w ∷ ws) id b e =
    ground (arith, get_request_by_id-count requests ws id b)

module _ {Bio : Type 0} (status : ℤ → ℕ) (segments : ℕ → List ℕ) (user : ℕ → ℕ → Option (List ℕ))
    (partial : ℕ → ℕ → List ℕ) where
  -- The driver with the request at `b` ended once more than in `k`, and its queue as it was.
  abbrev Ends : ℕ → ℕ → Driver Bio → Driver Bio → Type 0
  Ends a b k q =
      (count a q.ended ≡ count a (b ∷ k.ended)) × (q.pending_requests ≡ k.pending_requests)

  finish_blk-Ends :
      (a b : ℕ) (h : U2kHeader) (k : Driver Bio)
      → Allows (Ends a b k) (finish_blk status segments user partial b h k)
  unfolding finish_blk
  finish_blk-Ends a b h k =
      if_both (λ k'. Allows (Ends a b k) (end_blk_request b (status h.reply) k'))
        (is_zone_append (k.requests b).kind) _ k (λ _. end_blk_request-count a b (status h.reply) _)
        (λ _. end_blk_request-count a b (status h.reply) k)

  finish_received-Ends :
      (a b : ℕ) (x : ℤ × List (List ℕ)) (total : ℤ) (h : U2kHeader) (c : Connection)
      (k : Driver Bio)
      → Allows
          (λ r. Ends a b k r.driver × (r.connection ≡ c))
          (finish_received status segments user partial x total b h c k)
  unfolding finish_received
  finish_received-Ends a b (negsuc e, bytes) total h c k =
      Allows-bind _ (end_blk_request b blk_sts_ioerr k) _ λ q m. (
        Allows_result (Ends a b k) (end_blk_request b blk_sts_ioerr k) q
            (end_blk_request-count a b blk_sts_ioerr k) m,
        refl,
      )
  finish_received-Ends a b (pos n, bytes) total h c k =
      Allows-bind _ (finish_blk status segments user partial b h k) _ λ q m. (
        Allows_result (Ends a b k) (finish_blk status segments user partial b h k) q
            (finish_blk-Ends a b h k) m,
        refl,
      )

  reply_blk-Ends :
      (a b : ℕ) (total : ℤ) (h : U2kHeader) (c : Connection) (k : Driver Bio)
      → Allows
          (λ r. Ends a b k r.driver × (r.connection ≡ c))
          (reply_blk status segments user partial total b h c k)
  unfolding reply_blk
  reply_blk-Ends a b total h c k =
      if_both (Allows (λ r. Ends a b k r.driver × (r.connection ≡ c)))
        (is_ok h.reply && is_read (k.requests b).kind) _ _
        (λ _.
          Allows-bind _ (receive_body status segments user partial (k.requests b).body b h) _
            (λ x m. finish_received-Ends a b x total h c k))
        (λ _. Allows-bind _ (finish_blk status segments user partial b h k) _ (λ q m. (
          Allows_result (Ends a b k) (finish_blk status segments user partial b h k) q
              (finish_blk-Ends a b h k) m,
          refl,
        )))

  reply_bytes-Ends :
      (a b n : ℕ) (bytes : Option (List ℕ)) (left : List ℕ) (k : Driver Bio)
      → Allows (Ends a b k) (reply_bytes status segments user partial bytes left b n k)
  unfolding reply_bytes
  reply_bytes-Ends a b n none left k =
      Allows-bind _ (fill_buffer status segments user partial (k.requests b).body n left) _
        (λ x m. end_request_int-count a b (negsuc 21) (put_body k b x))
  reply_bytes-Ends a b n (some bytes) left k =
      Allows-bind _ (fill_buffer status segments user partial (k.requests b).body n bytes) _
        (λ x m. end_request_int-count a b (pos n) (put_body k b x))

  reply_int-Ends :
      (a b address : ℕ) (r : ℤ) (k : Driver Bio)
      → Allows (Ends a b k) (reply_int status segments user partial r b address k)
  unfolding reply_int
  reply_int-Ends a b address (negsuc n) k = end_request_int-count a b (negsuc n) k
  reply_int-Ends a b address (pos zero) k = end_request_int-count a b (pos 0) k
  reply_int-Ends a b address (pos (suc n)) k =
      reply_bytes-Ends a b (suc n) (user address (suc n)) (partial address (suc n)) k

  pub reply_found-Keeps :
      (a : ℕ) (found : Option ℕ) (total : ℤ) (h : U2kHeader) (c : Connection) (k : Driver Bio)
      → get_request_by_id k.requests c.waiting_requests h.id ≡ found
      → Allows
          (λ r. held a r.connection r.driver ≡ held a c k)
          (reply_found status segments user partial found total h c k)
  unfolding reply_found
  reply_found-Keeps a none total h c k e = refl
  reply_found-Keeps a (some b) total h c k e =
      let gone =
        list_del-count a b c.waiting_requests
          (get_request_by_id-count k.requests c.waiting_requests h.id b e).0 in
      let c' : Connection = record c {
        waiting_requests = list_del b c.waiting_requests;
        sending = unless b c.sending;
      } in
      if_both (Allows (λ r. held a r.connection r.driver ≡ held a c k))
        (is_blk_request (k.requests b).kind) _ _
        (λ _.
          Allows-mono _ _ (reply_blk status segments user partial total b h c' k)
            (λ r q. omega (
              arith,
              gone,
              q.0.0,
              ap (count a) q.0.1,
              ap (λ (x : Connection). count a x.waiting_requests) q.1,
            ))
            (reply_blk-Ends a b total h c' k))
        (λ _.
          Allows-bind _ (reply_int status segments user partial h.reply b h.user_data k) _ (λ q m.
            let s =
              Allows_result (Ends a b k)
                (reply_int status segments user partial h.reply b h.user_data k) q
                (reply_int-Ends a b h.user_data h.reply k) m in
            omega (arith, gone, s.0, ap (count a) s.1)))

  -- A reply loses no request and makes none up: the request that it answers leaves the waiting
  -- requests and has ended.
  pub dev_reply-Keeps :
      (a : ℕ) (total : ℤ) (h : U2kHeader) (c : Connection) (k : Driver Bio)
      → Allows
          (λ r. held a r.connection r.driver ≡ held a c k)
          (dev_reply status segments user partial total h c k)
  unfolding dev_reply
  dev_reply-Keeps a total h c k = reply_found-Keeps a _ total h c k refl
