-- ===== src/Turn/Writes.antt =====
-- library/libbius.c on kernel/char_dev.c: a turn of `handle_requests` that reads a write.
use bius.RequestType
use bius.RequestType.{
  BiusReq, is_blk_request, request_is_write, request_may_have_data, unmapped, simple,
  is_write-is_blk_request, is_write-may_have_data,
}
use bius.Kernel.{BioApi, Driver, Connection, BlkBody, blk, Request}
use bius.Kernel.Transfer.{K2uHeader, k2u_size, u2k_size, command_header}
use bius.Kernel.CharDev.{prepare_body, sends_data, put_body, get_request_by_id}
use bius.Kernel.Reply.{U2kHeader, is_read, is_ok}
use bius.Library.{Operations, Outcome}
use bius.Library.Dispatch.{handle_blk_command}
use bius.Library.CopyIn.{handle_copy_in}
use bius.Turn.{
  Process, turn, serve, turn_on, after_read, into_buffer, ℕ, command_result, read_data_file,
}
use bius.Turn.Sends.{IsBlk, Kept, body_data, IsSendingBody}
use bius.Turn.Ends.{get_request_by_id-ids, put_body-ids, and_false}
use bius.Base.{
  ℕ, ℤ, List, ◌≡◌, true, some, pos, ◌∷◌, refl, none, false, Ensures, Ensures-bind, Ensures-mono,
  ==_refl, subst, sym, length, ◌<◌, u64_mod, ◌∙◌, ap, ◌≤◌, lt→ltb, [], inl,
}
use bius.Kernel.Sending.{chain_contents}
use bius.Turn.WriteData.{handle_copy_in-Sends}
use bius.Turn.Serves.{Served, idle, reading, reply_turn, reply_turn-Served, dev_read-command}

is_write-is_read : (t : BiusReq) → request_is_write t ≡ true → is_read t ≡ false
is_write-is_read RequestType.read h = absurd (cc)
is_write-is_read _ h = refl

-- The next request is the one at `a`, a write with the data of the bios of `b`, and no waiting
-- request has its id.
pub record IsNextWrite {Bio : Type 0} (api : BioApi Bio) (a : ℕ) (xs rest : List ℕ)
    (b : BlkBody Bio) (k : Driver Bio) : Type 0 where
  pub pending : k.pending_requests ≡ a ∷ rest
  pub body : (k.requests a).body ≡ blk b
  pub writes : request_is_write (k.requests a).kind ≡ true
  pub size : (k.requests a).length ≡ length (chain_contents api b.bio)
  pub some_data : 0 < (k.requests a).length
  pub small : (k.requests a).length < u64_mod
  pub plain : b.map_type ≡ unmapped
  pub fresh : get_request_by_id k.requests xs (k.requests a).id ≡ none

-- The command that the library handles: its data is in the buffer.
abbrev pub copied_in : {Bio S : Type 0} → Process S → Request Bio → K2uHeader
copied_in m r = record (command_header r) {
  data_map_type = simple;
  data_address = m.buffer;
  mapping_data = 0;
}

module _ {Bio S : Type 0} (api : BioApi Bio) (copied : ℕ → ℕ) (status : ℤ → ℕ)
    (segments : ℕ → List ℕ) (ops : Operations S) (m : Process S) where
  -- The turn from the moment that the data has arrived.
  after_copy :
      (a : ℕ) (xs rest ended : List ℕ) (r : Request Bio) (bytes : List ℕ) (k : Driver Bio)
      (old : U2kHeader) (s : S) (o : Outcome S) (x : K2uHeader × List ℕ × (Connection × Driver Bio))
      → (x.0 ≡ copied_in m r)
        × (x.1 ≡ bytes)
        × (x.2.0.sending ≡ none)
        × Kept (reading true a xs, k) x.2
      → (k.pending_requests ≡ rest) × (k.ended ≡ ended)
      → ((k.requests a).id ≡ r.id) × ((k.requests a).kind ≡ r.kind) × IsBlk (k.requests a).body
      → request_is_write r.kind ≡ true
      → get_request_by_id k.requests xs r.id ≡ none
      → handle_blk_command ops (copied_in m r) m.entries 0 (into_buffer m bytes s) ≡ some o
      → Ensures
          (Served status a o (idle xs) rest ended [])
          (reply_turn status segments ops m x.0 old (into_buffer m x.1 s) x.2.0 x.2.1)
  unfolding command_header
  after_copy a xs rest ended r bytes k old s o x p g i w n v =
      let u = p.3 in
      let kind : (x.2.1.requests a).kind ≡ r.kind = u.kinds a ∙ i.1 in
      Ensures-mono _ _ (reply_turn status segments ops m x.0 old (into_buffer m x.1 s) x.2.0 x.2.1)
        (λ l q. record {
          state = q.state;
          result_is = q.result_is;
          received_is = q.received_is;
          ended_is = q.ended_is ∙ ap (λ l. a ∷ l) (u.ended ∙ g.1);
          pending = q.pending ∙ u.pending ∙ g.0;
          connection =
              q.connection
              ∙ ap (λ t. record { attached = t; waiting_requests = xs; sending = x.2.0.sending })
                  u.attached
              ∙ ap (λ t. record { attached = true; waiting_requests = xs; sending = t }) p.2;
        })
        (reply_turn-Served status segments ops m a x.0 old o (into_buffer m x.1 s) x.2.0 x.2.1 xs []
          (ap (λ (h : K2uHeader). is_blk_request h.opcode) p.0 ∙ is_write-is_blk_request r.kind w)
          (ap (λ h. handle_blk_command ops h m.entries 0 (into_buffer m x.1 s)) p.0
            ∙ ap (λ l. handle_blk_command ops (copied_in m r) m.entries 0 (into_buffer m l s)) p.1
            ∙ v)
          u.waiting p.2 (ap (λ (h : K2uHeader). h.id) p.0 ∙ sym (u.ids a ∙ i.0))
          (get_request_by_id-ids k.requests x.2.1.requests xs _ u.ids
            ∙ ap (get_request_by_id k.requests xs) (u.ids a ∙ i.0)
            ∙ n)
          (u.bodies a i.2) (ap is_blk_request kind ∙ is_write-is_blk_request r.kind w)
          (inl (
            and_false (is_ok (pos o.status)) _ (ap is_read kind ∙ is_write-is_read r.kind w),
            refl,
          )))

  sends_data-write :
      (a : ℕ) (xs rest : List ℕ) (b : BlkBody Bio) (k : Driver Bio)
      → IsNextWrite api a xs rest b k
      → sends_data api copied (k.requests a) ≡ true
  sends_data-write a xs rest b k q =
      rw
        (
          is_write-may_have_data (k.requests a).kind q.writes,
          q.writes,
          lt→ltb 0 (k.requests a).length q.some_data,
        )
        refl

  prepared :
      (a : ℕ) (xs rest : List ℕ) (b : BlkBody Bio) (k : Driver Bio)
      → IsNextWrite api a xs rest b k
      → prepare_body api copied
          (sends_data api copied (k.requests a))
          (k.requests a).body
          (k.requests a).length
        ≡ some (blk (record b { map_data = (k.requests a).length }))
  unfolding prepare_body
  prepared a xs rest b k q =
      ap (λ s. prepare_body api copied s (k.requests a).body (k.requests a).length)
        (sends_data-write a xs rest b k q)
      ∙ ap (λ x. prepare_body api copied true x (k.requests a).length) q.body

  pub turn-Served_write :
      (a : ℕ) (xs rest : List ℕ) (b : BlkBody Bio) (k : Driver Bio) (k2u : K2uHeader)
      (u2k : U2kHeader) (s : S) (o : Outcome S)
      → ((n : ℕ) → copied n ≤ n)
      → ((n : ℕ) → 0 < n → 0 < copied n)
      → copied k2u_size ≡ k2u_size
      → IsNextWrite api a xs rest b k
      → handle_blk_command ops
          (copied_in m (k.requests a))
          m.entries
          0
          (into_buffer m (chain_contents api b.bio) s)
        ≡ some o
      → Ensures (Served status a o (idle xs) rest k.ended []) (
          turn api copied status segments (pos u2k_size) ops m (record {
            k2u = k2u;
            u2k = u2k;
            state = s;
            connection = idle xs;
            driver = k;
            received = [];
          }))
  unfolding turn turn_on after_read serve command_result command_header
  turn-Served_write a xs rest b k k2u u2k s o short some_copied full q v =
      let ready : BlkBody Bio = record b { map_data = (k.requests a).length } in
      let k' : Driver Bio = put_body (record k { pending_requests = rest }) a (blk ready) in
      let start : Connection × Driver Bio = (idle xs, record k { pending_requests = rest }) in
      let at : k'.requests a ≡ record (k.requests a) { body = blk ready } = rw (==_refl a) refl in
      rw
        (
          dev_read-command api copied a xs rest (blk ready) k q.pending full
              (prepared a xs rest b k q),
          sends_data-write a xs rest b k q,
        )
        (Ensures-bind _
          (handle_copy_in (read_data_file api copied) (command_header (k.requests a)) m.buffer
            (reading true a xs, k'))
          _
          (Ensures-mono _ _
            (handle_copy_in (read_data_file api copied) (command_header (k.requests a)) m.buffer
              (reading true a xs, k'))
            (λ x p.
              after_copy a xs rest k.ended (k.requests a) (chain_contents api b.bio) k' u2k s o x
                (p.0, p.1 ∙ ap (λ (r : Request Bio). body_data api r.body) at, p.2, p.3)
                (refl, refl)
                (
                  ap (λ (r : Request Bio). r.id) at,
                  ap (λ (r : Request Bio). r.kind) at,
                  subst (λ (r : Request Bio). IsBlk r.body) (sym at) tt,
                )
                q.writes
                (get_request_by_id-ids k.requests k'.requests xs _
                    (put_body-ids start.1 a (blk ready))
                  ∙ q.fresh)
                v)
            (handle_copy_in-Sends api copied short some_copied (command_header (k.requests a))
              m.buffer a (reading true a xs) k' refl refl
              (subst (λ (r : Request Bio). IsSendingBody api r.body) (sym at)
                (record {
                  left = q.size;
                  some_left = q.some_data;
                  small = q.small;
                  plain = q.plain;
                }))
              q.writes refl
              (q.size ∙ ap (λ (r : Request Bio). length (body_data api r.body)) (sym at)))))
