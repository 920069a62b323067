-- ===== src/Turn/Commands.antt =====
-- library/libbius.c on kernel/char_dev.c: a turn of `handle_requests` that reads a command without data.
use bius.RequestType
use bius.RequestType.{
  BiusReq, is_blk_request, request_is_write, request_may_have_data, unmapped, simple,
  is_write-is_blk_request, is_write-may_have_data,
}
use bius.Kernel.{BioApi, Driver, Connection, Request}
use bius.Kernel.Transfer.{K2uHeader, k2u_size, u2k_size, command_header}
use bius.Kernel.CharDev.{prepare_body, sends_data, put_body, get_request_by_id}
use bius.Kernel.Reply.{U2kHeader, is_read, is_ok}
use bius.Library.{Operations, Outcome}
use bius.Library.Dispatch.{handle_blk_command, handle_by_map, handle_contiguous, plain_call}
use bius.Status.{blk_sts_notsupp}
use bius.Library.CopyIn.{handle_copy_in}
use bius.Turn.{Process, turn, serve, turn_on, after_read, ℕ, command_result, read_data_file}
use bius.Turn.Sends.{IsBlk}
use bius.Turn.Ends.{get_request_by_id-ids, put_body-ids, and_false}
use bius.Base.{
  ℕ, ℤ, List, ◌≡◌, true, some, pos, ◌∷◌, refl, [], none, false, Ensures, ==_refl, subst, sym, ◌∙◌,
  ap, inl, Option, ◌>>=◌,
}
use bius.Turn.Serves.{Served, idle, reading, reply_turn-Served, dev_read-command}

-- The next request is the one at `a`, of the block layer and without data, and no waiting request
-- has its id.
pub record IsNextCommand {Bio : Type 0} (a : ℕ) (xs rest : List ℕ) (k : Driver Bio) : Type 0 where
  pub pending : k.pending_requests ≡ a ∷ rest
  pub body : IsBlk (k.requests a).body
  pub no_data : request_may_have_data (k.requests a).kind ≡ false
  pub block : is_blk_request (k.requests a).kind ≡ true
  pub fresh : get_request_by_id k.requests xs (k.requests a).id ≡ none

-- What a command without data asks of the operations: the call of the member that has its name, on
-- what the command says of the place and of the length; `none` where there is no such member, and
-- where it is NULL.
abbrev pub asked_of : {S : Type 0} → Operations S → BiusReq → ℕ → ℕ → Option (S → Option (ℕ × S))
asked_of ops RequestType.discard place size = ops.discard >>= λ f. some (f place size)
asked_of ops RequestType.flush place size = ops.flush
asked_of ops RequestType.zone_open place size = ops.open_zone >>= λ f. some (f place)
asked_of ops RequestType.zone_close place size = ops.close_zone >>= λ f. some (f place)
asked_of ops RequestType.zone_finish place size = ops.finish_zone >>= λ f. some (f place)
asked_of ops RequestType.zone_reset place size = ops.reset_zone >>= λ f. some (f place)
asked_of ops RequestType.zone_reset_all place size = ops.reset_all_zone
asked_of ops _ place size = none

-- The status and the memory after it: BLK_STS_NOTSUPP and the same memory where nothing can be asked.
abbrev pub result_of : {S : Type 0} → Option (S → Option (ℕ × S)) → S → Option (ℕ × S)
result_of none s = some (blk_sts_notsupp, s)
result_of (some f) s = f s

-- A call of a member, with its result.
plain_call-result_of :
    {A S : Type 0} (f : Option A) (apply : A → S → Option (ℕ × S)) (s s' : S) (st : ℕ)
    → result_of (f >>= λ g. some (apply g)) s ≡ some (st, s')
    → plain_call f apply 0 s ≡ some (record { status = st; out_user_data = 0; state = s' })
unfolding plain_call
plain_call-result_of none apply s s' st e = cc
plain_call-result_of (some g) apply s s' st e = rw e refl

member-result_of :
    {S : Type 0} (f : Option (S → Option (ℕ × S))) (s s' : S) (st : ℕ)
    → result_of f s ≡ some (st, s')
    → plain_call f (λ f. f) 0 s ≡ some (record { status = st; out_user_data = 0; state = s' })
unfolding plain_call
member-result_of none s s' st e = cc
member-result_of (some g) s s' st e = rw e refl

handle_contiguous-asked_of :
    {S : Type 0} (ops : Operations S) (t : BiusReq) (h : K2uHeader) (s s' : S) (st : ℕ)
    → request_may_have_data t ≡ false
    → result_of (asked_of ops t h.offset h.length) s ≡ some (st, s')
    → handle_contiguous ops t h 0 s ≡ some (record { status = st; out_user_data = 0; state = s' })
unfolding handle_contiguous
handle_contiguous-asked_of ops RequestType.discard h s s' st d e =
    plain_call-result_of ops.discard (λ f. f h.offset h.length) s s' st e
handle_contiguous-asked_of ops RequestType.flush h s s' st d e =
    member-result_of ops.flush s s' st e
handle_contiguous-asked_of ops RequestType.zone_open h s s' st d e =
    plain_call-result_of ops.open_zone (λ f. f h.offset) s s' st e
handle_contiguous-asked_of ops RequestType.zone_close h s s' st d e =
    plain_call-result_of ops.close_zone (λ f. f h.offset) s s' st e
handle_contiguous-asked_of ops RequestType.zone_finish h s s' st d e =
    plain_call-result_of ops.finish_zone (λ f. f h.offset) s s' st e
handle_contiguous-asked_of ops RequestType.zone_reset h s s' st d e =
    plain_call-result_of ops.reset_zone (λ f. f h.offset) s s' st e
handle_contiguous-asked_of ops RequestType.zone_reset_all h s s' st d e =
    member-result_of ops.reset_all_zone s s' st e
handle_contiguous-asked_of ops RequestType.read h s s' st d e = absurd (cc)
handle_contiguous-asked_of ops RequestType.write h s s' st d e = absurd (cc)
handle_contiguous-asked_of ops RequestType.zone_append h s s' st d e = absurd (cc)
handle_contiguous-asked_of ops _ h s s' st d e = cc

without_data : (t : BiusReq) → request_may_have_data t ≡ false → is_read t ≡ false
without_data RequestType.read h = absurd (cc)
without_data _ h = refl

module _ {Bio S : Type 0} (api : BioApi Bio) (copied : ℕ → ℕ) (status : ℤ → ℕ)
    (segments : ℕ → List ℕ) (ops : Operations S) (m : Process S) where
  sends_data-without :
      (a : ℕ) (k : Driver Bio)
      → request_may_have_data (k.requests a).kind ≡ false
      → sends_data api copied (k.requests a) ≡ false
  sends_data-without a k h = rw h refl

  prepared :
      (a : ℕ) (k : Driver Bio)
      → request_may_have_data (k.requests a).kind ≡ false
      → prepare_body api copied
          (sends_data api copied (k.requests a))
          (k.requests a).body
          (k.requests a).length
        ≡ some (k.requests a).body
  unfolding prepare_body
  prepared a k h =
      ap (λ s. prepare_body api copied s (k.requests a).body (k.requests a).length)
        (sends_data-without a k h)

  nothing_copied :
      (h : K2uHeader) (f : Connection × Driver Bio)
      → request_may_have_data h.opcode ≡ false
      → handle_copy_in (read_data_file api copied) h m.buffer f ≡ some (h, [], f)
  unfolding handle_copy_in
  nothing_copied h f e = rw e refl

  -- The command has the kind, the place and the length of the request, and is served by its kind.
  command-asked_of :
      (r : Request Bio) (s s' : S) (st : ℕ)
      → request_may_have_data r.kind ≡ false
      → result_of (asked_of ops r.kind r.pos r.length) s ≡ some (st, s')
      → handle_blk_command ops (command_header r) m.entries 0 s
        ≡ some (record { status = st; out_user_data = 0; state = s' })
  unfolding handle_blk_command handle_by_map command_header
  command-asked_of r s s' st d e =
      handle_contiguous-asked_of ops r.kind (command_header r) s s' st d e

  -- A turn that reads a command of the block layer without data ends it. The operation that has the
  -- command's name is called on the memory as it is: a discard with its position and length, an open, a
  -- close, a finish and a reset of a zone with its position, a flush and a reset of all zones as they
  -- are. Where the operation returns, the request ends with its status; where the operation is NULL, or
  -- the command is none of these, nothing is called and the request ends with BLK_STS_NOTSUPP. The
  -- connection and the queue are then as they were without the request. The driver can copy the command
  -- as a whole, and no waiting request has its id.
  pub turn-Served_command :
      (a : ℕ) (xs rest : List ℕ) (k : Driver Bio) (k2u : K2uHeader) (u2k : U2kHeader) (s s' : S)
      (st : ℕ)
      → copied k2u_size ≡ k2u_size
      → IsNextCommand a xs rest k
      → result_of (asked_of ops (k.requests a).kind (k.requests a).pos (k.requests a).length) s
        ≡ some (st, s')
      → Ensures
          (Served status a
            (record { status = st; out_user_data = 0; state = s' })
            (idle xs)
            rest
            k.ended
            [])
          (turn api copied status segments (pos u2k_size) ops m (record {
            k2u = k2u;
            u2k = u2k;
            state = s;
            connection = idle xs;
            driver = k;
            received = [];
          }))
  unfolding turn turn_on after_read serve command_result command_header
  turn-Served_command a xs rest k k2u u2k s s' st full q e =
      let o : Outcome S = record { status = st; out_user_data = 0; state = s' } in
      let v = command-asked_of (k.requests a) s s' st q.no_data e in
      let k' : Driver Bio = put_body (record k { pending_requests = rest }) a (k.requests a).body in
      let at : k'.requests a ≡ k.requests a = rw (==_refl a) refl in
      let start : Connection × Driver Bio = (idle xs, record k { pending_requests = rest }) in
      let kind : (k'.requests a).kind ≡ (k.requests a).kind = ap (λ (r : Request Bio). r.kind) at in
      let id : (k'.requests a).id ≡ (k.requests a).id = ap (λ (r : Request Bio). r.id) at in
      rw
        (
          dev_read-command api copied a xs rest (k.requests a).body k q.pending full
              (prepared a k q.no_data),
          sends_data-without a k q.no_data,
          nothing_copied (command_header (k.requests a)) (reading false a xs, k') q.no_data,
        )
        (reply_turn-Served status segments ops m a (command_header (k.requests a)) u2k o s
          (reading false a xs) k' xs [] q.block v refl refl (sym id)
          (get_request_by_id-ids k.requests k'.requests xs _
              (put_body-ids start.1 a (k.requests a).body)
            ∙ ap (get_request_by_id k.requests xs) id
            ∙ q.fresh)
          (subst (λ (r : Request Bio). IsBlk r.body) (sym at) q.body)
          (ap is_blk_request kind ∙ q.block)
          (inl (
            and_false (is_ok (pos o.status)) _
                (ap is_read kind ∙ without_data (k.requests a).kind q.no_data),
            refl,
          )))
