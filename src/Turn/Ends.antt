-- ===== src/Turn/Ends.antt =====
-- kernel/char_dev.c: the command read and the reply, for a request of the block layer.
use bius.RequestType.{is_blk_request}
use bius.Kernel.{Driver, Connection, Body, blk, int, Request}
use bius.Kernel.CharDev.{put_body, end_blk_request, end_blk_body, get_request_by_id, list_del}
use bius.Kernel.Reply.{
  U2kHeader, dev_reply, reply_found, reply_blk, finish_blk, unless, is_zone_append, is_read, is_ok,
  finish_received, receive_body,
}
use bius.Turn.Sends.{IsBlk}
use bius.Base.{
  ℕ, List, ◌≡◌, none, ◌∷◌, ◌++◌, ap, [], if◌then◌else◌, ==_refl, some, ◌==◌, ◌∙◌, ==-cases, refl,
  inl, inr, ℤ, Bool, Ensures, Option, if_both, false, ◌&&◌, subst, sym, Ensures-bind, Ensures-mono,
  ◌⊎◌, pos,
}
use Prim.Native.Nat.{ℕ}
use mathlib.Core.Bool.{true}

not_first :
    (b : Bool) (x : ℕ) (r : Option ℕ) → (if b then some x else r) ≡ none → (b ≡ false) × (r ≡ none)
not_first false x r h = (refl, h)
not_first true x r h = absurd (cc)

module _ {Bio : Type 0} where
  -- A lookup reads nothing of a request but its id.
  pub get_request_by_id-ids :
      (m n : ℕ → Request Bio) (xs : List ℕ) (id : ℕ)
      → ((b : ℕ) → (n b).id ≡ (m b).id)
      → get_request_by_id n xs id ≡ get_request_by_id m xs id
  unfolding get_request_by_id
  get_request_by_id-ids m n [] id h = refl
  get_request_by_id-ids m n (a ∷ xs) id h =
      ap (λ i. if i == id then some a else get_request_by_id n xs id) (h a)
      ∙ ap (λ r. if (m a).id == id then some a else r) (get_request_by_id-ids m n xs id h)

  pub put_body-ids :
      (k : Driver Bio) (a : ℕ) (x : Body Bio) (b : ℕ)
      → ((put_body k a x).requests b).id ≡ (k.requests b).id
  put_body-ids k a x b = elim (==-cases a b) [
    | inl (t, e) ↦ rw t (ap (λ i. (k.requests i).id) e)
    | inr (t, e) ↦ rw t refl
  ]

  -- A new id at the end of a list is found there.
  pub get_request_by_id-last :
      (m : ℕ → Request Bio) (xs : List ℕ) (a : ℕ)
      → get_request_by_id m xs (m a).id ≡ none
      → get_request_by_id m (xs ++ a ∷ []) (m a).id ≡ some a
  unfolding get_request_by_id
  get_request_by_id-last m [] a h = rw (==_refl (m a).id) refl
  get_request_by_id-last m (x ∷ xs) a h =
      let q = not_first ((m x).id == (m a).id) x (get_request_by_id m xs (m a).id) h in
      rw q.0 (get_request_by_id-last m xs a q.1)

  -- A list without the id does not have the request.
  pub list_del-last :
      (m : ℕ → Request Bio) (xs : List ℕ) (a : ℕ)
      → get_request_by_id m xs (m a).id ≡ none
      → list_del a (xs ++ a ∷ []) ≡ xs
  unfolding list_del get_request_by_id
  list_del-last m [] a h = rw (==_refl a) refl
  list_del-last m (x ∷ xs) a h =
      let q = not_first ((m x).id == (m a).id) x (get_request_by_id m xs (m a).id) h in
      elim (==-cases x a) [
        | inl (t, e) ↦ absurd (cc (ap (λ i. (m i).id == (m a).id) e, ==_refl (m a).id, q.0))
        | inr (t, e) ↦ rw t (ap (λ l. x ∷ l) (list_del-last m xs a q.1))
      ]

  -- The result of a request that has ended.
  abbrev pub HasResult : Body Bio → ℕ → Type 0
  HasResult (blk r) result = r.blk_result ≡ result
  HasResult (int r) result = ⊥

  -- What ending the request at `a` with `result` does.
  pub record Ended (a result : ℕ) (o k : Driver Bio) : Type 0 where
    pub result_is : HasResult (k.requests a).body result
    pub ended : k.ended ≡ a ∷ o.ended
    pub pending : k.pending_requests ≡ o.pending_requests

  end_blk_body-Ended :
      (x : Body Bio) (a result : ℕ) (o k : Driver Bio)
      → IsBlk x
      → k.ended ≡ o.ended
      → k.pending_requests ≡ o.pending_requests
      → Ensures (Ended a result o) (end_blk_body x a result k)
  unfolding end_blk_body
  end_blk_body-Ended (blk r) a result o k h e p = record {
    result_is = rw (==_refl a) refl;
    ended = ap (λ l. a ∷ l) e;
    pending = p;
  }
  end_blk_body-Ended (int r) a result o k h e p = absurd h

pub and_false : (a b : Bool) → b ≡ false → (a && b) ≡ false
and_false true b h = h
and_false false b h = refl

module _ {Bio : Type 0} (status : ℤ → ℕ) (segments : ℕ → List ℕ) (user : ℕ → ℕ → Option (List ℕ))
    (partial : ℕ → ℕ → List ℕ) where
  finish_blk-Ended :
      (a : ℕ) (h : U2kHeader) (k : Driver Bio)
      → IsBlk (k.requests a).body
      → Ensures (Ended a (status h.reply) k) (finish_blk status segments user partial a h k)
  unfolding finish_blk end_blk_request
  finish_blk-Ended a h k b =
      if_both (λ k'. Ensures (Ended a (status h.reply) k) (end_blk_request a (status h.reply) k'))
        (is_zone_append (k.requests a).kind) _ k
        (λ _.
          rw (==_refl a)
            (end_blk_body-Ended (k.requests a).body a (status h.reply) k _ b refl refl))
        (λ _. end_blk_body-Ended (k.requests a).body a (status h.reply) k k b refl refl)

  -- The bytes that the segments of a request receive: none, unless it is a read that succeeded, whose
  -- data the driver could copy.
  abbrev pub Gets : Request Bio → ℕ → U2kHeader → List (List ℕ) → Type 0
  Gets r a h bytes =
      (((is_ok h.reply && is_read r.kind) ≡ false) × (bytes ≡ []))
      ⊎ (((is_ok h.reply && is_read r.kind) ≡ true)
          × (receive_body status segments user partial r.body a h ≡ some (pos 0, bytes)))

  reply_blk-Replied :
      (a : ℕ) (total : ℤ) (h : U2kHeader) (bytes : List (List ℕ)) (c : Connection) (k : Driver Bio)
      → IsBlk (k.requests a).body
      → Gets (k.requests a) a h bytes
      → Ensures
          (λ w.
            (w.ret ≡ total)
            × (w.received ≡ bytes)
            × (w.connection ≡ c)
            × Ended a (status h.reply) k w.driver)
          (reply_blk status segments user partial total a h c k)
  unfolding reply_blk finish_received
  reply_blk-Replied a total h bytes c k b (inl (r, n)) = rw r (
      Ensures-bind _ (finish_blk status segments user partial a h k) _ (
        Ensures-mono _ _ (finish_blk status segments user partial a h k)
          (λ k' q. (refl, sym n, refl, q)) (finish_blk-Ended a h k b)))
  reply_blk-Replied a total h bytes c k b (inr (r, e)) =
      rw (r, e)
        (Ensures-bind _ (finish_blk status segments user partial a h k) _ (
          Ensures-mono _ _ (finish_blk status segments user partial a h k)
            (λ k' q. (refl, refl, refl, q)) (finish_blk-Ended a h k b)))

  -- A reply to the newest request of a connection that sends nothing.
  pub dev_reply-Ends :
      (a : ℕ) (xs : List ℕ) (total : ℤ) (h : U2kHeader) (bytes : List (List ℕ)) (c : Connection)
      (k : Driver Bio)
      → c.waiting_requests ≡ xs ++ a ∷ []
      → c.sending ≡ none
      → h.id ≡ (k.requests a).id
      → get_request_by_id k.requests xs (k.requests a).id ≡ none
      → IsBlk (k.requests a).body
      → is_blk_request (k.requests a).kind ≡ true
      → Gets (k.requests a) a h bytes
      → Ensures
          (λ w.
            (w.ret ≡ total)
            × (w.received ≡ bytes)
            × (w.connection ≡ record c { waiting_requests = xs })
            × Ended a (status h.reply) k w.driver)
          (dev_reply status segments user partial total h c k)
  unfolding dev_reply reply_found
  dev_reply-Ends a xs total h bytes c k w s i n b t r =
      subst
        (λ o.
          Ensures
            (λ w.
              (w.ret ≡ total)
              × (w.received ≡ bytes)
              × (w.connection ≡ record c { waiting_requests = xs })
              × Ended a (status h.reply) k w.driver)
            (reply_found status segments user partial o total h c k))
        (sym (
          ap (λ l. get_request_by_id k.requests l h.id) w
          ∙ ap (get_request_by_id k.requests (xs ++ a ∷ [])) i
          ∙ get_request_by_id-last k.requests xs a n))
        (rw t (
          Ensures-mono _ _ (reply_blk status segments user partial total a h _ k)
            (λ x q. (
              q.0,
              q.1,
              q.2
                  ∙ ap (λ l. record c { waiting_requests = l; sending = unless a c.sending })
                      (ap (list_del a) w ∙ list_del-last k.requests xs a n)
                  ∙ ap (λ o. record c { waiting_requests = xs; sending = o })
                      (ap (unless a) s ∙ sym s),
              q.3,
            ))
            (reply_blk-Replied a total h bytes _ k b r)))
