-- ===== src/Turn.antt =====
-- library/libbius.c on kernel/char_dev.c: one turn of the loop of `handle_requests`, where the file
-- that the library reads and writes is the driver.
pub mod Sends
pub mod WriteData
pub mod Ends
pub mod Serves
pub mod Writes
pub mod Commands
pub mod Reads
pub mod Round
pub mod Startup
pub mod MappedList
pub mod MappedWrites
mod Tests
mod StartTests
mod MappedTests
use bius.Kernel.{BioApi, Driver, Connection}
use bius.Kernel.Transfer.{K2uHeader, k2u_size, u2k_size}
use bius.Kernel.Reply.{U2kHeader, WriteResult, dev_reply}
use bius.Kernel.CharDev.{ReadOutcome, ReadResult, waits, returns, dev_read}
use bius.Library.{Operations}
use bius.Library.CopyIn.{handle_copy_in}
use bius.Library.Serve.{answer}
use bius.Base.{ℤ, ℕ, Option, List, negsuc, ◌>>=◌, none, some, pos, if◌then◌else◌, ltb, ◌∷◌}
use Prim.Native.Nat.{ℕ, suc, zero}
use mathlib.Core.List.{[]}

-- `read_command` and `write_command`, by what `read` or `write` returned.
unfoldable pub command_result : ℕ → ℤ → ℤ
command_result size (negsuc e) = negsuc e
command_result size (pos zero) = pos 0
command_result size (pos (suc n)) = if ltb (suc n) size then negsuc 0 else pos (suc n)

abbrev pub read_result : ℤ → ℤ
read_result r = command_result k2u_size r

abbrev pub write_result : ℤ → ℤ
write_result r = command_result u2k_size r

module _ {Bio : Type 0} (api : BioApi Bio) (copied : ℕ → ℕ) where
  abbrev pub data_of : ReadOutcome Bio → Option (List ℕ × (Connection × Driver Bio))
  data_of waits = none
  data_of (returns r) = elim r.header [
    | none ↦ some (r.sent, (r.connection, r.driver))
    | some h ↦ none
  ]

  -- `read` of at most `n` bytes from `/dev/bius` while data is expected: the bytes, and the connection
  -- and the driver after it. `none` stands for a read that sleeps, and for one that returns a command.
  unfoldable pub read_data_file :
      ℕ → Connection × Driver Bio → Option (List ℕ × (Connection × Driver Bio))
  read_data_file n (c, k) = dev_read api copied n c k >>= data_of

-- The variables of the loop, the state of the storage, the driver behind the file, and what the
-- segments of the last request have received.
pub record Loop (Bio S : Type 0) : Type 0 where
  pub k2u : K2uHeader
  pub u2k : U2kHeader
  pub state : S
  pub connection : Connection
  pub driver : Driver Bio
  pub received : List (List ℕ)

-- What the turn needs of the process: the addresses of `data_copy_buffer` and of `zone_info`, the
-- entries of a data map, what a copy into the buffer does to the memory, and what the driver reads
-- from the memory at a reply (a copy that succeeds, and what one that fails leaves).
pub record Process (S : Type 0) : Type 0 where
  pub buffer : ℕ
  pub zones : ℕ
  pub entries : List (ℕ × ℕ)
  pub fill : List ℕ → S → S
  pub user : S → ℕ → ℕ → Option (List ℕ)
  pub partial : S → ℕ → ℕ → List ℕ

-- Where nothing is read into the buffer, the memory is as it was.
abbrev pub into_buffer : {S : Type 0} → Process S → List ℕ → S → S
into_buffer m [] s = s
into_buffer m (b ∷ bs) s = m.fill (b ∷ bs) s

abbrev pub next_turn :
    {Bio S : Type 0} → ℤ → K2uHeader → U2kHeader → S → WriteResult Bio → Option (Loop Bio S)
next_turn (negsuc e) k2u u2k s w = none
next_turn (pos n) k2u u2k s w = some (record {
  k2u = k2u;
  u2k = u2k;
  state = s;
  connection = w.connection;
  driver = w.driver;
  received = w.received;
})

module _ {Bio S : Type 0} (status : ℤ → ℕ) (segments : ℕ → List ℕ) (m : Process S) where
  -- `bius_dev_write` of a reply.
  unfoldable pub dev_write : ℤ → U2kHeader → S → Connection → Driver Bio → Option (WriteResult Bio)
  dev_write (pos (suc n)) h s c k =
      dev_reply status segments (m.user s) (m.partial s) (pos (suc n)) h c k
  dev_write r h s c k = some (record { ret = r; received = []; connection = c; driver = k })

-- `written` is the result of `copy_from_iter` for the reply.
module _ {Bio S : Type 0} (api : BioApi Bio) (copied : ℕ → ℕ) (status : ℤ → ℕ)
    (segments : ℕ → List ℕ) (written : ℤ) (ops : Operations S) (m : Process S) where
  -- From `handle_copy_in` on, with the command that was read.
  unfoldable pub serve : K2uHeader → Loop Bio S → Option (Loop Bio S)
  unfolding dev_write
  serve command l = do
    x ← handle_copy_in (read_data_file api copied) command m.buffer (l.connection, l.driver)
    y ← answer ops x.0 m.entries m.zones l.u2k (into_buffer m x.1 l.state)
    w ← dev_write status segments m written y.0 y.1 x.2.0 x.2.1
    next_turn (write_result w.ret) x.0 y.0 y.1 w

  abbrev pub command_of : Option K2uHeader → K2uHeader → K2uHeader
  command_of none old = old
  command_of (some h) old = h

  unfoldable pub after_read : ℤ → ReadResult Bio → Loop Bio S → Option (Loop Bio S)
  unfolding serve
  after_read (negsuc e) r l = none
  after_read (pos n) r l =
      serve (command_of r.header l.k2u) (record l { connection = r.connection; driver = r.driver })

  unfoldable pub turn_on : ReadOutcome Bio → Loop Bio S → Option (Loop Bio S)
  unfolding after_read
  turn_on waits l = none
  turn_on (returns r) l = after_read (read_result r.ret) r l

  -- One turn; `none` stands for a fault, for `exit(1)` and for a read that sleeps.
  unfoldable pub turn : Loop Bio S → Option (Loop Bio S)
  unfolding turn_on
  turn l = dev_read api copied k2u_size l.connection l.driver >>= λ o. turn_on o l
