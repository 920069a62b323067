-- ===== src/Turn/WriteData.antt =====
-- library/libbius.c and kernel/char_dev.c: the data of a write, from the driver to the buffer.
use bius.RequestType.{request_is_write, simple}
use bius.Kernel.{BioApi, Driver, Connection, Body, BlkBody, blk, int}
use bius.Kernel.Transfer.{send_data, K2uHeader}
use bius.Kernel.Sending.{chain_contents}
use bius.Kernel.CharDev.{
  dev_read, read_by_sending, read_data, put_body, request_io_done, failed, is_unmapped,
}
use bius.Library.CopyIn.{Delivers, handle_copy_in, handle_copy_in-Reads}
use bius.Turn.{read_data_file, data_of, List, ℕ, Option}
use bius.Base.{
  ℕ, List, Option, ◌≡◌, length, [], ◌≤◌, true, some, none, ◌<◌, u64_mod, ℤ, Ensures, ◌++◌, arith,
  subst, sym, ap, refl, Ensures-bind, Ensures-mono, if◌then◌else◌, ◌>>=◌, ==-cases, inl,
  nil_of_length, inr, ==_refl, negsuc, length-append, ◌∙◌, append-nil,
}
use bius.Turn.Sends.{
  IsFront, send_data-IsFront, put_body-Kept, Kept-refl, Kept, IsOpen, IsSendingBy, IsSendingBody,
  to_send, body_data,
}

module _ {Bio : Type 0} (api : BioApi Bio) (copied : ℕ → ℕ) (short : (n : ℕ) → copied n ≤ n)
    (some_copied : (n : ℕ) → 0 < n → 0 < copied n) where
  -- The bytes that a read of the file returned, and the connection and the driver after it.
  abbrev Took : Connection × Driver Bio → ℕ → List ℕ → List ℕ × (Connection × Driver Bio) → Type 0
  Took o n bytes r =
      (0 < length r.0) × (length r.0 ≤ n) × (r.0 ++ to_send api r.1 ≡ bytes) × IsOpen api o r.1

  sent-Took :
      (o : Connection × Driver Bio) (n a : ℕ) (r : BlkBody Bio) (c : Connection) (k : Driver Bio)
      (y : ℤ × List ℕ × BlkBody Bio)
      → c.attached ≡ true
      → Kept o (c, k)
      → IsFront api n r y
      → Took o n (chain_contents api r.bio) (
        y.1,
        (
          record c { sending = if request_io_done y.2 then none else some a },
          put_body k a (blk y.2),
        ),
      )
  unfolding request_io_done
  sent-Took o n a r c k y e f q = elim (==-cases y.2.map_data 0) [
    | inl (t, z) ↦
        rw (q.plain, t)
          (
            q.some_sent,
            q.fits,
            subst (λ l. y.1 ++ l ≡ chain_contents api r.bio)
                (nil_of_length _ (omega (arith, q.left))) q.same,
            (e, tt, put_body-Kept o c k a _ _ f),
          )
    | inr (t, z) ↦
        rw (q.plain, t, ==_refl a)
          (
            q.some_sent,
            q.fits,
            q.same,
            (
              e,
              record { left = q.left; some_left = omega arith; small = q.small; plain = refl },
              put_body-Kept o c k a _ _ f,
            ),
          )
  ]

  read_data-Took :
      (o : Connection × Driver Bio) (x : Body Bio) (a n : ℕ) (c : Connection) (k : Driver Bio)
      → IsSendingBody api x
      → Kept o (c, k)
      → c.attached ≡ true
      → 0 < n
      → n < u64_mod
      → Ensures (Took o n (body_data api x)) (read_data api copied x a n c k >>= data_of api copied)
  unfolding read_data
  read_data-Took o (int r) a n c k h f e p q = absurd h
  read_data-Took o (blk r) a n c k h f e p q =
      Ensures-bind _ (read_data api copied (blk r) a n c k) _ (
        Ensures-bind _ (send_data api copied n r) _ (
          Ensures-mono _ _ (send_data api copied n r) (λ y z. sent-Took o n a r c k y e f z)
            (send_data-IsFront api copied short some_copied n r p q h)))

  body_data_small :
      (x : Body Bio) (n : ℕ) → IsSendingBody api x → n ≤ length (body_data api x) → n < u64_mod
  body_data_small (blk r) n h l = omega (arith, h.left, h.small)
  body_data_small (int r) n h l = absurd h

  read_by_sending-Took :
      (o : Connection × Driver Bio) (s : Option ℕ) (n : ℕ) (c : Connection) (k : Driver Bio)
      → c.attached ≡ true
      → Kept o (c, k)
      → IsSendingBy api s k
      → 0 < n
      → n ≤ length (to_send api (record c { sending = s }, k))
      → Ensures
          (Took o n (to_send api (record c { sending = s }, k)))
          (read_by_sending api copied s n c k >>= data_of api copied)
  unfolding read_by_sending
  read_by_sending-Took o none n c k e f h p l = absurd (omega arith)
  read_by_sending-Took o (some a) n c k e f h p l =
      read_data-Took o (k.requests a).body a n c k h f e p (body_data_small _ n h l)

  -- While a connection sends, the file delivers what is left to send.
  pub read_data_file-Delivers :
      (o : Connection × Driver Bio)
      → Delivers (read_data_file api copied) (to_send api) (IsOpen api o)
  unfolding read_data_file dev_read
  read_data_file-Delivers o n (c, k) g p l =
      subst
        (λ b. Ensures (Took o n (to_send api (c, k))) (
          (if b
            then read_by_sending api copied c.sending n c k
            else failed api copied (negsuc 4) c k)
          >>= data_of api copied))
        (sym g.0) (read_by_sending-Took o c.sending n c k g.0 g.2 g.1 p l)

  all_taken : (xs ys zs : List ℕ) → length xs ≡ length zs → xs ++ ys ≡ zs → (xs ≡ zs) × (ys ≡ [])
  all_taken xs ys zs h e =
      let none_left : ys ≡ [] =
        nil_of_length ys (omega (arith, length-append xs ys, ap length e)) in
      (sym (append-nil xs) ∙ ap (λ l. xs ++ l) (sym none_left) ∙ e, none_left)

  nothing_to_send : (x : Body Bio) → IsSendingBody api x → body_data api x ≡ [] → ⊥
  nothing_to_send (blk r) h e = omega (arith, h.left, h.some_left, ap length e)
  nothing_to_send (int r) h e = h

  sent_all :
      (o : Option ℕ) (c : Connection) (k : Driver Bio)
      → IsSendingBy api o k
      → to_send api (record c { sending = o }, k) ≡ []
      → o ≡ none
  sent_all none c k h e = refl
  sent_all (some a) c k h e = absurd (nothing_to_send (k.requests a).body h e)

  -- A request with data to send is sent whole: the library gets exactly the bytes of its bios, in
  -- order, however the copies are cut, and the driver then sends nothing more.
  pub handle_copy_in-Sends :
      (h : K2uHeader) (buffer a : ℕ) (c : Connection) (k : Driver Bio)
      → c.attached ≡ true
      → c.sending ≡ some a
      → IsSendingBody api (k.requests a).body
      → request_is_write h.opcode ≡ true
      → is_unmapped h.data_map_type ≡ true
      → h.length ≡ length (body_data api (k.requests a).body)
      → Ensures
          (λ r.
            (r.0 ≡ record h { data_map_type = simple; data_address = buffer; mapping_data = 0 })
            × (r.1 ≡ body_data api (k.requests a).body)
            × (r.2.0.sending ≡ none)
            × Kept (c, k) r.2)
          (handle_copy_in (read_data_file api copied) h buffer (c, k))
  handle_copy_in-Sends h buffer a c k e s q w u l =
      let same : to_send api (c, k) ≡ body_data api (k.requests a).body =
        ap (λ o. to_send api (record c { sending = o }, k)) s in
      Ensures-mono _ _ (handle_copy_in (read_data_file api copied) h buffer (c, k))
        (λ r p.
          let y = all_taken r.1 (to_send api r.2) _ (omega (arith, ap length same, p.1)) p.2 in
          (p.0, y.0 ∙ same, sent_all r.2.0.sending r.2.0 r.2.1 p.3.1 y.1, p.3.2))
        (handle_copy_in-Reads (read_data_file api copied) (to_send api) (IsOpen api (c, k)) h buffer
          (c, k) (read_data_file-Delivers (c, k))
          (e, subst (λ o. IsSendingBy api o k) (sym s) q, Kept-refl (c, k)) w u
          (omega (arith, ap length same)))
