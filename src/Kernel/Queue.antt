-- ===== src/Kernel/Queue.antt =====
-- kernel/block_dev.c: what `bius_queue_rq` does with a request of the block layer.
use bius.Base.{
  [], ◌∷◌, Bool, ℕ, true, ◌≡◌, false, if◌then◌else◌, ap, ◌++◌, refl, Bool-cases, inl, ==_refl, inr,
}
use bius.RequestType
use bius.RequestType.{BiusReq, invalid_op, of_value, is_invalid, value}
use bius.Kernel.{Driver, BlkBody}
use bius.Kernel.BlockDev.{
  ReqOp, Matches, to_bius_request, queue_rq, BlockRequest, op_read, new_request, op_write, op_flush,
  op_discard, other, op_zone_open, op_zone_close, op_zone_finish, op_zone_append, op_zone_reset,
  op_zone_reset_all,
}
use bius.Status.{blk_sts_notsupp, blk_sts_ok}

-- The command that an operation of the block layer asks for, by its name.
abbrev pub named : ReqOp → BiusReq
named op_read = RequestType.read
named op_write = RequestType.write
named op_flush = RequestType.flush
named op_discard = RequestType.discard
named op_zone_open = RequestType.zone_open
named op_zone_close = RequestType.zone_close
named op_zone_finish = RequestType.zone_finish
named op_zone_append = RequestType.zone_append
named op_zone_reset = RequestType.zone_reset
named op_zone_reset_all = RequestType.zone_reset_all
named other = invalid_op

abbrev pub is_other : ReqOp → Bool
is_other other = true
is_other _ = false

module _ (number : ReqOp → ℕ) where
  to_bius_request-named : Matches number → (op : ReqOp) → to_bius_request number op ≡ named op
  unfolding to_bius_request of_value
  to_bius_request-named h op_read = refl
  to_bius_request-named h op_write = refl
  to_bius_request-named h op_flush = refl
  to_bius_request-named h op_discard = refl
  to_bius_request-named h op_zone_open = ap of_value h.zone_open_at
  to_bius_request-named h op_zone_close = ap of_value h.zone_close_at
  to_bius_request-named h op_zone_finish = ap of_value h.zone_finish_at
  to_bius_request-named h op_zone_append = ap of_value h.zone_append_at
  to_bius_request-named h op_zone_reset = ap of_value h.zone_reset_at
  to_bius_request-named h op_zone_reset_all = ap of_value h.zone_reset_all_at
  to_bius_request-named h other = refl

  is_invalid-named : (op : ReqOp) → is_invalid (named op) ≡ is_other op
  is_invalid-named op_read = refl
  is_invalid-named op_write = refl
  is_invalid-named op_flush = refl
  is_invalid-named op_discard = refl
  is_invalid-named op_zone_open = refl
  is_invalid-named op_zone_close = refl
  is_invalid-named op_zone_finish = refl
  is_invalid-named op_zone_append = refl
  is_invalid-named op_zone_reset = refl
  is_invalid-named op_zone_reset_all = refl
  is_invalid-named other = refl

  -- With the numbers of the kernel's operations that include/bius/request_type.h matches, the memory
  -- of a request that arrives holds the command of its operation. A request of an operation that has
  -- a command joins the end of the queue, does not end, and `BLK_STS_OK` is returned; any other ends,
  -- the queue stays as it is, and `BLK_STS_NOTSUPP` is returned as well.
  pub queue_rq-outcome :
      {Bio : Type 0}
      → Matches number
      → (a : ℕ) (rq : BlockRequest Bio) (old : BlkBody Bio) (k : Driver Bio)
      → (((queue_rq number a rq old k).1.requests a).kind ≡ named rq.op)
        × (queue_rq number a rq old k).0 ≡ (if is_other rq.op then blk_sts_notsupp else blk_sts_ok)
        × (queue_rq number a rq old k).1.pending_requests
          ≡ (if is_other rq.op then k.pending_requests else k.pending_requests ++ a ∷ [])
        × (queue_rq number a rq old k).1.ended ≡ (if is_other rq.op then a ∷ k.ended else k.ended)
  unfolding queue_rq new_request
  queue_rq-outcome h a rq old k = elim (Bool-cases (is_other rq.op)) [
    | inl t ↦
        rw (to_bius_request-named h rq.op, is_invalid-named rq.op, t, ==_refl a)
          (refl, refl, refl, refl)
    | inr t ↦
        rw (to_bius_request-named h rq.op, is_invalid-named rq.op, t, ==_refl a)
          (refl, refl, refl, refl)
  ]
