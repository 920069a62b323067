-- ===== src/Kernel/BlockDev.antt =====
-- kernel/block_dev.c: `to_bius_request` and the entry points of the block layer.
use bius.RequestType
use bius.RequestType.{BiusReq, of_value, value, invalid_op, is_invalid, unmapped}
use bius.Kernel.{Request, Driver, BlkBody, blk, int, store, ℕ}
use bius.Status.{blk_sts_ok, blk_sts_notsupp, sector_size}
use bius.Base.{ℕ, u64, List, ◌≡◌, ◌*◌, ◌+◌, if◌then◌else◌, ◌∷◌, ◌++◌, [], ltb, ℤ}

-- The operations of the block layer that the source names, and `other` for the rest.
pub data ReqOp : Type 0 where
  op_read op_write op_flush op_discard op_zone_open op_zone_close op_zone_finish : ReqOp
  op_zone_append op_zone_reset op_zone_reset_all other : ReqOp

-- `number` gives the kernel's values of `REQ_OP_*`, which the cast passes on.
unfoldable pub to_bius_request : (ReqOp → ℕ) → ReqOp → BiusReq
to_bius_request number op_read = RequestType.read
to_bius_request number op_write = RequestType.write
to_bius_request number op_flush = RequestType.flush
to_bius_request number op_discard = RequestType.discard
to_bius_request number op_zone_open = of_value (number op_zone_open)
to_bius_request number op_zone_close = of_value (number op_zone_close)
to_bius_request number op_zone_finish = of_value (number op_zone_finish)
to_bius_request number op_zone_append = of_value (number op_zone_append)
to_bius_request number op_zone_reset = of_value (number op_zone_reset)
to_bius_request number op_zone_reset_all = of_value (number op_zone_reset_all)
to_bius_request number other = invalid_op

-- The values of include/linux/blk_types.h that include/bius/request_type.h was written to match.
pub record Matches (number : ReqOp → ℕ) : Type 0 where
  pub zone_open_at : number op_zone_open ≡ 10
  pub zone_close_at : number op_zone_close ≡ 11
  pub zone_finish_at : number op_zone_finish ≡ 12
  pub zone_append_at : number op_zone_append ≡ 13
  pub zone_reset_at : number op_zone_reset ≡ 15
  pub zone_reset_all_at : number op_zone_reset_all ≡ 17

-- BIUS_MAX_ZONES of include/bius/config.h.
abbrev pub max_zones : ℕ
max_zones = 131072

-- The block request that arrives: its operation, sector, bytes and chain of bios.
pub record BlockRequest (Bio : Type 0) : Type 0 where
  pub op : ReqOp
  pub sector : ℕ
  pub bytes : ℕ
  pub bios : List Bio

-- `bius_queue_rq` for the request at `a`: the status that it returns, and the driver. `old` is what
-- the memory held: the fields that are not set keep it.
module _ {Bio : Type 0} (number : ReqOp → ℕ) where
  unfoldable pub new_request : BlockRequest Bio → ℕ → BlkBody Bio → Request Bio
  unfolding to_bius_request
  new_request rq id old = record {
    id = id;
    kind = to_bius_request number rq.op;
    pos = u64 (rq.sector * sector_size);
    length = rq.bytes;
    body = blk (record old { bio = rq.bios; map_type = unmapped });
  }

  unfoldable pub queue_rq : ℕ → BlockRequest Bio → BlkBody Bio → Driver Bio → ℕ × Driver Bio
  unfolding new_request
  queue_rq a rq old k =
      let id : ℕ = u64 (k.next_request_id + 1) in
      let r = new_request rq id old in
      let k' = record k { next_request_id = id; requests = store k.requests a r } in
      if is_invalid r.kind
      then (blk_sts_notsupp, record k' { ended = a ∷ k.ended })
      else (blk_sts_ok, record k' { pending_requests = k.pending_requests ++ a ∷ [] })

-- The part of `bius_report_zones` before it sleeps: the request on the stack, at `a`, whose `data`
-- has room for `nr_zones` entries of `zone_bytes` bytes, joins the queue. `memory` and `old` are what
-- the allocation and the stack held.
unfoldable pub report_zones_submit :
    {Bio : Type 0} → ℕ → ℕ → ℕ → ℕ → List ℕ → ℤ → Driver Bio → Driver Bio
report_zones_submit a zone_bytes sector nr_zones memory old k =
    let id : ℕ = u64 (k.next_request_id + 1) in
    let n : ℕ = if ltb max_zones nr_zones then max_zones else nr_zones in
    record k {
      next_request_id = id;
      requests = store k.requests a (record {
        id = id;
        kind = RequestType.report_zones;
        pos = u64 (sector * sector_size);
        length = n;
        body = int (record { buffer = memory; room = zone_bytes * n; sem = 0; int_result = old });
      });
      pending_requests = k.pending_requests ++ a ∷ [];
    }
