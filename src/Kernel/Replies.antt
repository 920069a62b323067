-- ===== src/Kernel/Replies.antt =====
-- Which replies the driver survives: kernel/char_dev.c, `bius_dev_write`.
use bius.Base.{
  true, false, none, some, pos, negsuc, Option, ℤ, ℕ, Ensures, List, ◌≡◌, ◌≤◌, ==_refl, suc,
  Ensures-bind, if_both, ◌&&◌, Ensures-mono, ◌>>=◌, Ensures-both, ltb-cases, refl, inl, arith, inr,
}
use bius.Kernel.{Driver, Connection, Request, Body, store, int, BiusReq, blk}
use bius.Kernel.Conserve.{held, reply_found-Keeps}
use bius.Kernel.CharDev.{
  end_blk_body, end_int_body, end_blk_request, get_request_by_id, end_request_int, put_body,
}
use bius.RequestType.{BiusReq, is_blk_request}
use bius.Kernel.Reply.{
  finish_received, reply_blk, dev_reply, reply_int, receive_body, finish_blk, U2kHeader,
  reply_found, is_ok, is_zone_append, is_read, fill_buffer, reply_bytes,
}
use Prim.Native.Nat.{zero}
use bius.Status.{blk_sts_ioerr}

-- The member of the union that is in use is the one for the kind of the request.
abbrev pub TypedBody : {Bio : Type 0} → Body Bio → BiusReq → Type 0
TypedBody (blk b) t = is_blk_request t ≡ true
TypedBody (int b) t = is_blk_request t ≡ false

abbrev pub Typed : {Bio : Type 0} → Request Bio → Type 0
Typed r = TypedBody r.body r.kind

-- A reply with data has no more of it than the buffer of the request has room for.
abbrev pub HasRoom : {Bio : Type 0} → Body Bio → ℤ → Type 0
HasRoom (int b) (pos n) = n ≤ b.room
HasRoom _ _ = Unit {0}

abbrev pub Returns : {A : Type 0} → Option A → Type 0
Returns = Ensures (λ _. Unit {0})

store_self : {Bio : Type 0} (m : ℕ → Request Bio) (a : ℕ) (r : Request Bio) → store m a r a ≡ r
store_self m a r = rw (==_refl a)

module _ {Bio : Type 0} where
  end_blk_body-Returns :
      (x : Body Bio) (t : BiusReq) (b s : ℕ) (k : Driver Bio)
      → TypedBody x t
      → is_blk_request t ≡ true
      → Returns (end_blk_body x b s k)
  unfolding end_blk_body
  end_blk_body-Returns (blk x) t b s k h e = tt
  end_blk_body-Returns (int x) t b s k h e = absurd (cc)

  end_int_body-Returns :
      (x : Body Bio) (t : BiusReq) (b : ℕ) (s : ℤ) (k : Driver Bio)
      → TypedBody x t
      → is_blk_request t ≡ false
      → Returns (end_int_body x b s k)
  unfolding end_int_body
  end_int_body-Returns (int x) t b s k h e = tt
  end_int_body-Returns (blk x) t b s k h e = absurd (cc)

module _ {Bio : Type 0} (status : ℤ → ℕ) (segments : ℕ → List ℕ) (user : ℕ → ℕ → Option (List ℕ))
    (partial : ℕ → ℕ → List ℕ) where
  finish_blk-Returns :
      (b : ℕ) (h : U2kHeader) (k : Driver Bio)
      → Typed (k.requests b)
      → is_blk_request (k.requests b).kind ≡ true
      → Returns (finish_blk status segments user partial b h k)
  unfolding finish_blk end_blk_request
  finish_blk-Returns b h k t e =
      if_both (λ k'. Returns (end_blk_request b (status h.reply) k'))
        (is_zone_append (k.requests b).kind) _ k
        (λ _.
          rw (store_self k.requests b (record (k.requests b) { pos = h.user_data }))
            (end_blk_body-Returns (k.requests b).body (k.requests b).kind b (status h.reply) _ t e))
        (λ _. end_blk_body-Returns (k.requests b).body (k.requests b).kind b (status h.reply) k t e)

  receive_body-Returns :
      (x : Body Bio) (t : BiusReq) (b : ℕ) (h : U2kHeader)
      → TypedBody x t
      → is_blk_request t ≡ true
      → Returns (receive_body status segments user partial x b h)
  unfolding receive_body
  receive_body-Returns (blk x) t b h p e = tt
  receive_body-Returns (int x) t b h p e = absurd (cc)

  finish_received-Returns :
      (b : ℕ) (x : ℤ × List (List ℕ)) (total : ℤ) (h : U2kHeader) (c : Connection) (k : Driver Bio)
      → Typed (k.requests b)
      → is_blk_request (k.requests b).kind ≡ true
      → Returns (finish_received status segments user partial x total b h c k)
  unfolding finish_received end_blk_request
  finish_received-Returns b (negsuc n, bytes) total h c k t e =
      Ensures-bind _ (end_blk_request b blk_sts_ioerr k) _
        (end_blk_body-Returns (k.requests b).body (k.requests b).kind b blk_sts_ioerr k t e)
  finish_received-Returns b (pos n, bytes) total h c k t e =
      Ensures-bind _ (finish_blk status segments user partial b h k) _
        (finish_blk-Returns b h k t e)

  reply_blk-Returns :
      (b : ℕ) (total : ℤ) (h : U2kHeader) (c : Connection) (k : Driver Bio)
      → Typed (k.requests b)
      → is_blk_request (k.requests b).kind ≡ true
      → Returns (reply_blk status segments user partial total b h c k)
  unfolding reply_blk
  reply_blk-Returns b total h c k t e =
      if_both Returns (is_ok h.reply && is_read (k.requests b).kind) _ _
        (λ _. Ensures-bind _ (receive_body status segments user partial (k.requests b).body b h) _ (
          Ensures-mono _ _ (receive_body status segments user partial (k.requests b).body b h)
            (λ x _. finish_received-Returns b x total h c k t e)
            (receive_body-Returns (k.requests b).body (k.requests b).kind b h t e)))
        (λ _.
          Ensures-bind _ (finish_blk status segments user partial b h k) _
            (finish_blk-Returns b h k t e))

  filled-Returns :
      (x : Body Bio) (n b : ℕ) (r : ℤ) (bytes : List ℕ) (k : Driver Bio)
      → TypedBody x (k.requests b).kind
      → is_blk_request (k.requests b).kind ≡ false
      → HasRoom x (pos n)
      → Returns (
          fill_buffer status segments user partial x n bytes >>= λ y.
          end_request_int b r (put_body k b y))
  unfolding fill_buffer end_request_int
  filled-Returns (blk x) n b r bytes k t e h = absurd (cc)
  filled-Returns (int x) n b r bytes k t e h = elim (ltb-cases x.room n) [
    | inl (u, v) ↦ absurd (omega arith)
    | inr (u, v) ↦ rw (u, ==_refl b) tt
  ]

  reply_bytes-Returns :
      (b n : ℕ) (bytes : Option (List ℕ)) (left : List ℕ) (k : Driver Bio)
      → Typed (k.requests b)
      → is_blk_request (k.requests b).kind ≡ false
      → HasRoom (k.requests b).body (pos n)
      → Returns (reply_bytes status segments user partial bytes left b n k)
  unfolding reply_bytes
  reply_bytes-Returns b n none left k t e h =
      filled-Returns (k.requests b).body n b (negsuc 21) left k t e h
  reply_bytes-Returns b n (some bytes) left k t e h =
      filled-Returns (k.requests b).body n b (pos n) bytes k t e h

  reply_int-Returns :
      (b address : ℕ) (r : ℤ) (k : Driver Bio)
      → Typed (k.requests b)
      → is_blk_request (k.requests b).kind ≡ false
      → HasRoom (k.requests b).body r
      → Returns (reply_int status segments user partial r b address k)
  unfolding reply_int end_request_int
  reply_int-Returns b address (negsuc n) k t e h =
      end_int_body-Returns (k.requests b).body (k.requests b).kind b (negsuc n) k t e
  reply_int-Returns b address (pos zero) k t e h =
      end_int_body-Returns (k.requests b).body (k.requests b).kind b (pos 0) k t e
  reply_int-Returns b address (pos (suc n)) k t e h =
      reply_bytes-Returns b (suc n) (user address (suc n)) (partial address (suc n)) k t e h

  reply_found-Returns :
      (found : Option ℕ) (total : ℤ) (h : U2kHeader) (c : Connection) (k : Driver Bio)
      → ((b : ℕ) → found ≡ some b → Typed (k.requests b) × HasRoom (k.requests b).body h.reply)
      → Returns (reply_found status segments user partial found total h c k)
  unfolding reply_found
  reply_found-Returns none total h c k t = tt
  reply_found-Returns (some b) total h c k t =
      if_both Returns (is_blk_request (k.requests b).kind) _ _
        (λ e. reply_blk-Returns b total h _ k (t b refl).0 e)
        (λ e.
          Ensures-bind _ (reply_int status segments user partial h.reply b h.user_data k) _
            (reply_int-Returns b h.user_data h.reply k (t b refl).0 e (t b refl).1))

  -- A reply whose id is that of no waiting request returns; so does one to a waiting request that
  -- uses the right member of its union and has room for the data of the reply, whatever the other
  -- requests are. No request is lost and none is made up: each is held as often as before.
  pub dev_reply-total :
      (a : ℕ) (total : ℤ) (h : U2kHeader) (c : Connection) (k : Driver Bio)
      → ((b : ℕ)
          → get_request_by_id k.requests c.waiting_requests h.id ≡ some b
          → Typed (k.requests b) × HasRoom (k.requests b).body h.reply)
      → Ensures
          (λ r. held a r.connection r.driver ≡ held a c k)
          (dev_reply status segments user partial total h c k)
  unfolding dev_reply
  dev_reply-total a total h c k t =
      let found = get_request_by_id k.requests c.waiting_requests h.id in
      Ensures-mono _ _ (reply_found status segments user partial found total h c k) (λ r q. q.1)
        (Ensures-both _ _ (reply_found status segments user partial found total h c k)
          (reply_found-Returns found total h c k t)
          (reply_found-Keeps status segments user partial a found total h c k refl))
