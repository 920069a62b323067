-- ===== src/Kernel.antt =====
-- kernel/: the driver's data. A request is named by its address; the lists of a device and of a
-- connection hold addresses, as the source links the requests themselves, and `requests` is the
-- memory that they stand for. `CONFIG_BIUS_DATAMAP` is off, as include/bius/config.h leaves it.
-- The kernel's `struct bio` is not part of the repository: its type and its operations are the
-- record `BioApi`.
pub mod BlockDev
pub mod Queue
pub mod Transfer
pub mod Sending
pub mod Progress
pub mod CharDev
pub mod Reply
pub mod Conserve
pub mod Replies
pub mod Reads
pub mod Release
pub mod Registry
pub mod Lifecycle
pub mod Cleanup
pub mod Refcount
pub mod Counted
pub mod Departs
pub mod Removal
pub mod ReportZones
pub mod DataMapping
mod Tests
mod DeviceTests
use bius.RequestType.{BiusReq, MapType, list}
use bius.Base.{List, ℕ, Option, ◌≡◌, if◌then◌else◌, ℤ, length, ◌==◌, ◌≤◌, take, ◌<◌, drop, Bool}
use Prim.Native.Nat.{ℕ}

-- kernel/request.h: the first member of the union of `struct bius_request`. `bio` is the chain of
-- bios along `bi_next`, [] for NULL.
pub record BlkBody (Bio : Type 0) : Type 0 where
  pub bio : List Bio
  pub map_data : ℕ
  pub mapped_size : ℕ
  pub map_type : MapType
  pub blk_result : ℕ

-- The second member. `buffer` is what `data` points to, of `room` bytes, and `sem` the count of the
-- semaphore.
pub record IntBody : Type 0 where
  pub buffer : List ℕ
  pub room : ℕ
  pub sem : ℕ
  pub int_result : ℤ

pub data Body (Bio : Type 0) : Type 0 where
  blk : BlkBody Bio → Body Bio
  int : IntBody → Body Bio

pub record Request (Bio : Type 0) : Type 0 where
  pub id : ℕ
  pub kind : BiusReq
  pub pos : ℕ
  pub length : ℕ
  pub body : Body Bio

-- A device with the requests of its queue. `ended` lists the calls of `on_request_end` and of
-- `blk_mq_end_request`, newest first, by the request's address.
pub record Driver (Bio : Type 0) : Type 0 where
  pub requests : ℕ → Request Bio
  pub next_request_id : ℕ
  pub pending_requests : List ℕ
  pub ended : List ℕ

-- kernel/connection.h; `attached` says that `block_dev` is not NULL.
pub record Connection : Type 0 where
  pub attached : Bool
  pub waiting_requests : List ℕ
  pub sending : Option ℕ

-- What the driver uses of a bio: the bytes of its current segment (`mp_bio_iter_iovec`), the bytes
-- left (`bi_iter.bi_size`), and `bio_advance_iter`. `contents` is what is left to transfer, in
-- order; the laws are those of the iterator.
pub record BioApi (Bio : Type 0) : Type 0 where
  pub segment : Bio → List ℕ
  pub bi_size : Bio → ℕ
  pub advance : Bio → ℕ → Bio
  pub contents : Bio → List ℕ
  pub size_law : (b : Bio) → bi_size b ≡ length (contents b)
  pub segment_law :
      (b : Bio) (n : ℕ) → n ≤ length (segment b) → take n (contents b) ≡ take n (segment b)
  pub segment_some : (b : Bio) → 0 < length (contents b) → 0 < length (segment b)
  pub segment_le : (b : Bio) → length (segment b) ≤ length (contents b)
  pub advance_law :
      (b : Bio) (n : ℕ) → n ≤ length (segment b) → contents (advance b n) ≡ drop n (contents b)

-- requests[a] = r.
abbrev pub store : {Bio : Type 0} → (ℕ → Request Bio) → ℕ → Request Bio → ℕ → Request Bio
store m a r b = if a == b then r else m b
