-- ===== src/Kernel/Reads.antt =====
-- Which reads the driver survives: kernel/char_dev.c, `bius_dev_read`.
use bius.Base.{
  [], ◌∷◌, true, false, none, some, ◌≡◌, ◌≤◌, ◌<◌, List, ℕ, Option, Bool, Ensures, Ensures-bind,
  Ensures-mono, Ensures-both, u64_mod, length, refl, arith, if_both, Bool-cases, ==-cases, ltb, inl,
  inr, ◌+◌, ◌&&◌,
}
use bius.Kernel.{Driver, Connection, Body, BlkBody, BioApi, blk, int}
use bius.Kernel.Transfer.{send_data, send_by_map, send_loop, Sending, k2u_size}
use bius.Kernel.Sending.{chain_contents, Balanced, send_loop-Balanced}
use bius.Kernel.CharDev.{
  dev_read, read_by_sending, take_pending, read_command, read_data, prepare_body, sends_data,
  command_sent, failed,
}
use bius.Kernel.Conserve.{Keeps, dev_read-Keeps}
use bius.Kernel.Replies.{Typed, TypedBody, Returns}
use bius.RequestType.{
  is_write-is_blk_request, BiusReq, MapType, unmapped, simple, list, is_blk_request,
  request_is_write, request_may_have_data,
}

-- A body whose data is being sent: its `map_data` counts the bytes that its bios have left.
abbrev pub IsReady : {Bio : Type 0} → BioApi Bio → Body Bio → Type 0
IsReady api (blk r) = (r.map_data ≡ length (chain_contents api r.bio)) × (r.map_data < u64_mod)
IsReady api (int r) = ⊥

and_last : (a b c : Bool) → (a && b && c) ≡ true → c ≡ true
and_last true true c h = h
and_last true false c h = absurd (cc)
and_last false b c h = absurd (cc)

module _ {Bio : Type 0} (api : BioApi Bio) (copied : ℕ → ℕ) (short : (n : ℕ) → copied n ≤ n) where
  send_by_map-Returns :
      (bs : List Bio) (t : MapType) (room : ℕ) (r : BlkBody Bio)
      → room < u64_mod
      → IsReady api (blk r)
      → Returns (send_by_map api copied bs t room r)
  unfolding send_by_map
  send_by_map-Returns [] t room r h q = tt
  send_by_map-Returns (b ∷ rest) simple room r h q = tt
  send_by_map-Returns (b ∷ rest) list room r h q = tt
  send_by_map-Returns (b ∷ rest) unmapped room r h q =
      let s : Sending Bio = record {
        bio = r.bio;
        map_data = r.map_data;
        remain_buffer = room;
        sent = [];
      } in
      let start : Balanced api s s = record {
        same = refl;
        left = q.0;
        used = refl;
        small = (q.1, h);
      } in
      let fuel : ℕ = r.map_data + length r.bio + 1 in
      Ensures-bind _ (send_loop api copied fuel s) _ (
        Ensures-mono _ _ (send_loop api copied fuel s) (λ x y. tt)
          (send_loop-Balanced api copied short fuel s s (omega arith) start))

  read_data-Returns :
      (x : Body Bio) (a room : ℕ) (c : Connection) (k : Driver Bio)
      → room < u64_mod
      → IsReady api x
      → Returns (read_data api copied x a room c k)
  unfolding read_data send_data
  read_data-Returns (int x) a room c k h q = absurd q
  read_data-Returns (blk x) a room c k h q =
      Ensures-bind _ (send_by_map api copied x.bio x.map_type room x) _ (
        Ensures-mono _ _ (send_by_map api copied x.bio x.map_type room x) (λ r y. tt)
          (send_by_map-Returns x.bio x.map_type room x h q))

  prepare_body-Returns :
      (sends : Bool) (x : Body Bio) (t : BiusReq) (n : ℕ)
      → TypedBody x t
      → (sends ≡ true → is_blk_request t ≡ true)
      → Returns (prepare_body api copied sends x n)
  unfolding prepare_body
  prepare_body-Returns false x t n h f = tt
  prepare_body-Returns true (blk x) t n h f = tt
  prepare_body-Returns true (int x) t n h f = absurd (cc (f refl))

  take_pending-Returns :
      (ps : List ℕ) (c : Connection) (k : Driver Bio)
      → ((b : ℕ) → Typed (k.requests b))
      → 0 < copied k2u_size
      → Returns (take_pending api copied ps c k)
  unfolding take_pending read_command command_sent
  take_pending-Returns [] c k t p = tt
  take_pending-Returns (b ∷ rest) c k t p =
      let sends = sends_data api copied (k.requests b) in
      Ensures-bind _ (prepare_body api copied sends (k.requests b).body (k.requests b).length) _ (
        Ensures-mono _ _ (prepare_body api copied sends (k.requests b).body (k.requests b).length)
          (λ x y. elim (==-cases (copied k2u_size) 0) [
            | inl (u, e) ↦ absurd (omega arith)
            | inr (u, e) ↦ rw u tt
          ])
          (prepare_body-Returns sends (k.requests b).body (k.requests b).kind (k.requests b).length
            (t b)
            (λ e. is_write-is_blk_request (k.requests b).kind (
              and_last (request_may_have_data (k.requests b).kind) (ltb 0 (k.requests b).length)
                (request_is_write (k.requests b).kind) e))))

  read_by_sending-Returns :
      (s : Option ℕ) (room : ℕ) (c : Connection) (k : Driver Bio)
      → ((b : ℕ) → Typed (k.requests b))
      → 0 < copied k2u_size
      → room < u64_mod
      → ((b : ℕ) → s ≡ some b → IsReady api (k.requests b).body)
      → Returns (read_by_sending api copied s room c k)
  unfolding read_by_sending failed
  read_by_sending-Returns (some b) room c k t p h q =
      read_data-Returns (k.requests b).body b room c k h (q b refl)
  read_by_sending-Returns none room c k t p h q = elim (Bool-cases (ltb room k2u_size)) [
    | inl u ↦ rw u tt
    | inr u ↦ rw u (take_pending-Returns k.pending_requests c k t p)
  ]

  -- A read returns or waits, and loses no request and makes none up, if the requests use the right
  -- member of their unions, the header can be copied at least in part, the room fits into 64 bits,
  -- and the request whose data is being sent counts the bytes that it has left.
  pub dev_read-total :
      (a room : ℕ) (c : Connection) (k : Driver Bio)
      → ((b : ℕ) → Typed (k.requests b))
      → 0 < copied k2u_size
      → room < u64_mod
      → ((b : ℕ) → c.sending ≡ some b → IsReady api (k.requests b).body)
      → Ensures (Keeps api copied a c k) (dev_read api copied room c k)
  unfolding dev_read failed
  dev_read-total a room c k t p h q =
      Ensures-mono _ _ (dev_read api copied room c k) (λ r x. x.1)
        (Ensures-both _ _ (dev_read api copied room c k)
          (if_both Returns c.attached _ _ (λ _. read_by_sending-Returns c.sending room c k t p h q)
            (λ _. tt))
          (dev_read-Keeps api copied a room c k))
