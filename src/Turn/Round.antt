-- ===== src/Turn/Round.antt =====
-- kernel/block_dev.c, kernel/char_dev.c and library/libbius.c: a write of the block layer, from
-- `bius_queue_rq` to its end.
use bius.RequestType
use bius.RequestType.{unmapped, request_is_write}
use bius.Status.{sector_size}
use bius.Kernel.{BioApi, Request, Driver, BlkBody}
use bius.Kernel.BlockDev.{queue_rq, new_request, BlockRequest, op_write, ReqOp}
use bius.Kernel.Sending.{chain_contents}
use bius.Kernel.Transfer.{K2uHeader, k2u_size, u2k_size, command_header}
use bius.Kernel.Reply.{U2kHeader}
use bius.Library.{Operations}
use bius.Library.Dispatch.{handle_blk_command}
use bius.Turn.{Process, turn, into_buffer, ℕ}
use bius.Turn.Serves.{Served, idle}
use bius.Turn.Writes.{IsNextWrite, turn-Served_write, copied_in}
use bius.Base.{
  ℕ, ℤ, List, Option, ◌≡◌, ◌≤◌, some, ◌<◌, u64_mod, [], u64, length, ◌+◌, ◌*◌, arith, Ensures, pos,
  refl, ==_refl, ap, ◌∙◌, ◌++◌, ◌∷◌, subst, sym,
}
use bius.Kernel.CharDev.{get_request_by_id}

-- A write of the block layer.
abbrev pub write_of : {Bio : Type 0} → ℕ → ℕ → List Bio → BlockRequest Bio
write_of sector bytes bios = record { op = op_write; sector = sector; bytes = bytes; bios = bios }

module _ {Bio S : Type 0} (number : ReqOp → ℕ) (api : BioApi Bio) (copied : ℕ → ℕ) (status : ℤ → ℕ)
    (segments : ℕ → List ℕ) (ops : Operations S) (m : Process S) where
  -- The command for a write calls the operation `write` on the buffer.
  write_command-calls :
      (f : ℕ → ℕ → ℕ → S → Option (ℕ × S)) (r : Request Bio) (s s' : S) (st : ℕ)
      → ops.write ≡ some f
      → r.kind ≡ RequestType.write
      → m.buffer < u64_mod
      → f m.buffer r.pos r.length s ≡ some (st, s')
      → handle_blk_command ops (copied_in m r) m.entries 0 s
        ≡ some (record { status = st; out_user_data = 0; state = s' })
  unfolding handle_blk_command command_header
  write_command-calls f r s s' st w t h e =
      let address : u64 (m.buffer + 0) ≡ m.buffer = omega arith in rw (t, w, address, e) refl

  -- A write of the block layer that comes to an empty queue, on a connection that waits for no reply,
  -- is done by one turn: the operation `write` is called with the buffer, the write's position
  -- in bytes, its length, and a memory whose buffer has the bytes of its bios in order, and the write
  -- ends with the status that this returns.
  pub queue_rq-turn :
      (a sector bytes : ℕ) (bios : List Bio) (old : BlkBody Bio) (k : Driver Bio) (k2u : K2uHeader)
      (u2k : U2kHeader) (f : ℕ → ℕ → ℕ → S → Option (ℕ × S)) (s s' : S) (st : ℕ)
      → ((n : ℕ) → copied n ≤ n)
      → ((n : ℕ) → 0 < n → 0 < copied n)
      → copied k2u_size ≡ k2u_size
      → k.pending_requests ≡ []
      → bytes ≡ length (chain_contents api bios)
      → 0 < bytes
      → bytes < u64_mod
      → m.buffer < u64_mod
      → ops.write ≡ some f
      → f m.buffer (u64 (sector * sector_size)) bytes (into_buffer m (chain_contents api bios) s)
        ≡ some (st, s')
      → Ensures
          (Served status a
            (record { status = st; out_user_data = 0; state = s' })
            (idle [])
            []
            k.ended
            [])
          (turn api copied status segments (pos u2k_size) ops m (record {
            k2u = k2u;
            u2k = u2k;
            state = s;
            connection = idle [];
            driver = (queue_rq number a (write_of sector bytes bios) old k).1;
            received = [];
          }))
  unfolding queue_rq new_request get_request_by_id
  queue_rq-turn a sector bytes bios old k k2u u2k f s s' st short some_copied full p n h u b w e =
      let k1 : Driver Bio = (queue_rq number a (write_of sector bytes bios) old k).1 in
      let r : Request Bio =
        new_request number (write_of sector bytes bios) (u64 (k.next_request_id + 1)) old in
      let at : k1.requests a ≡ r = rw (==_refl a) refl in
      let body : BlkBody Bio = record old { bio = bios; map_type = unmapped } in
      let next : IsNextWrite api a [] [] body k1 = record {
        pending = ap (λ l. l ++ a ∷ []) p;
        body = ap (λ (r : Request Bio). r.body) at;
        writes = ap (λ (r : Request Bio). request_is_write r.kind) at;
        size = ap (λ (r : Request Bio). r.length) at ∙ n;
        some_data = subst (λ (r : Request Bio). 0 < r.length) (sym at) h;
        small = subst (λ (r : Request Bio). r.length < u64_mod) (sym at) u;
        plain = refl;
        fresh = refl;
      } in
      turn-Served_write api copied status segments ops m a [] [] body k1 k2u u2k s _ short
        some_copied full next
        (ap
            (λ r.
              handle_blk_command ops (copied_in m r) m.entries 0
                (into_buffer m (chain_contents api bios) s))
            at
          ∙ write_command-calls f r (into_buffer m (chain_contents api bios) s) s' st w refl b e)
