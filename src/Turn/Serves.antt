-- ===== src/Turn/Serves.antt =====
-- library/libbius.c on kernel/char_dev.c: a turn of `handle_requests` ends the request that it reads.
use bius.RequestType.{is_blk_request}
use bius.Kernel.{BioApi, Driver, Connection, Body}
use bius.Kernel.Transfer.{K2uHeader, k2u_size, u2k_size, command_header}
use bius.Kernel.CharDev.{
  dev_read, read_by_sending, take_pending, read_command, prepare_body, sends_data, command_sent,
  returns, put_body, get_request_by_id,
}
use bius.Kernel.Reply.{U2kHeader, dev_reply}
use bius.Library.{Operations, Outcome}
use bius.Library.Dispatch.{handle_blk_command}
use bius.Library.Serve.{answer}
use bius.Turn.{Loop, Process, next_turn, dev_write, write_result, ℕ, command_result}
use bius.Turn.Sends.{IsBlk}
use bius.Turn.Ends.{dev_reply-Ends, HasResult, Gets}
use bius.Base.{
  ℕ, ℤ, List, Option, ◌≡◌, true, ◌>>=◌, some, pos, ◌++◌, ◌∷◌, refl, [], none, Ensures, Ensures-bind,
  Ensures-mono, ==_refl, subst, Bool, if◌then◌else◌, sym,
}

-- After the turn: the storage's state is the operation's, the request at `a` has ended with the
-- operation's status, and the connection and the queue are as they were without it.
pub record Served {Bio S : Type 0} (status : ℤ → ℕ) (a : ℕ) (o : Outcome S) (c : Connection)
    (rest : List ℕ) (ended : List ℕ) (received : List (List ℕ)) (l : Loop Bio S) : Type 0 where
  pub state : l.state ≡ o.state
  pub result_is : HasResult (l.driver.requests a).body (status (pos o.status))
  pub ended_is : l.driver.ended ≡ a ∷ ended
  pub pending : l.driver.pending_requests ≡ rest
  pub connection : l.connection ≡ c
  pub received_is : l.received ≡ received

answer-block :
    {S : Type 0} (ops : Operations S) (m : Process S) (h : K2uHeader) (old : U2kHeader)
    (o : Outcome S) (s : S)
    → is_blk_request h.opcode ≡ true
    → handle_blk_command ops h m.entries 0 s ≡ some o
    → answer ops h m.entries m.zones old s
      ≡ some (record { id = h.id; reply = pos o.status; user_data = o.out_user_data }, o.state)
unfolding answer
answer-block ops m h old o s b e = rw (b, e) refl

module _ {Bio S : Type 0} (status : ℤ → ℕ) (segments : ℕ → List ℕ) (ops : Operations S)
    (m : Process S) where
  -- From the handled command on.
  abbrev pub reply_turn : K2uHeader → U2kHeader → S → Connection → Driver Bio → Option (Loop Bio S)
  reply_turn h old s c k = answer ops h m.entries m.zones old s >>= λ y.
      dev_write status segments m (pos u2k_size) y.0 y.1 c k >>= λ w.
      next_turn (write_result w.ret) h y.0 y.1 w

  pub reply_turn-Served :
      (a : ℕ) (h : K2uHeader) (old : U2kHeader) (o : Outcome S) (s : S) (c : Connection)
      (k : Driver Bio) (xs : List ℕ) (bytes : List (List ℕ))
      → is_blk_request h.opcode ≡ true
      → handle_blk_command ops h m.entries 0 s ≡ some o
      → c.waiting_requests ≡ xs ++ a ∷ []
      → c.sending ≡ none
      → h.id ≡ (k.requests a).id
      → get_request_by_id k.requests xs (k.requests a).id ≡ none
      → IsBlk (k.requests a).body
      → is_blk_request (k.requests a).kind ≡ true
      → Gets status segments
          (m.user o.state)
          (m.partial o.state)
          (k.requests a)
          a
          (record { id = h.id; reply = pos o.status; user_data = o.out_user_data })
          bytes
      → Ensures
          (Served status a o (record c { waiting_requests = xs }) k.pending_requests k.ended bytes)
          (reply_turn h old s c k)
  unfolding dev_write command_result
  reply_turn-Served a h old o s c k xs bytes b e w g i n d t r =
      let u : U2kHeader = record { id = h.id; reply = pos o.status; user_data = o.out_user_data } in
      rw (answer-block ops m h old o s b e) (
        Ensures-bind _ (dev_write status segments m (pos u2k_size) _ o.state c k) _ (
          Ensures-mono _ _
            (dev_reply status segments (m.user o.state) (m.partial o.state) (pos u2k_size) _ c k)
            (λ x q.
              subst
                (λ v.
                  Ensures
                    (Served status a o (record c { waiting_requests = xs }) k.pending_requests
                      k.ended bytes)
                    (next_turn (write_result v) h u o.state x))
                (sym q.0)
                (record {
                  state = refl;
                  result_is = q.3.result_is;
                  ended_is = q.3.ended;
                  pending = q.3.pending;
                  connection = q.2;
                  received_is = q.1;
                }))
            (dev_reply-Ends status segments (m.user o.state) (m.partial o.state) a xs (pos u2k_size)
              _ bytes c k w g i n d t r)))

-- A connection that has its device and sends nothing.
abbrev pub idle : List ℕ → Connection
idle xs = record { attached = true; waiting_requests = xs; sending = none }

-- The connection after the command of `a` was read, where `sends` says whether its data is to be
-- read.
abbrev pub reading : Bool → ℕ → List ℕ → Connection
reading sends a xs = record {
  attached = true;
  waiting_requests = xs ++ a ∷ [];
  sending = if sends then some a else none;
}

module _ {Bio : Type 0} (api : BioApi Bio) (copied : ℕ → ℕ) where
  -- A read of a command, of a request that waits first in the queue.
  pub dev_read-command :
      (a : ℕ) (xs rest : List ℕ) (x : Body Bio) (k : Driver Bio)
      → k.pending_requests ≡ a ∷ rest
      → copied k2u_size ≡ k2u_size
      → prepare_body api copied
          (sends_data api copied (k.requests a))
          (k.requests a).body
          (k.requests a).length
        ≡ some x
      → dev_read api copied k2u_size (idle xs) k
        ≡ some (
            returns (record {
              ret = pos k2u_size;
              header = some (command_header (k.requests a));
              sent = [];
              connection = reading (sends_data api copied (k.requests a)) a xs;
              driver = put_body (record k { pending_requests = rest }) a x;
            }))
  unfolding dev_read read_by_sending take_pending read_command command_sent command_header
  dev_read-command a xs rest x k p d e = rw p (rw e (rw d (rw (==_refl a) refl)))
