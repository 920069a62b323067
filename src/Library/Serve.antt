-- ===== src/Library/Serve.antt =====
-- library/libbius.c: one turn of the loop of `handle_requests`.
use bius.Base.{
  none, some, true, false, pos, negsuc, Option, Bool, ℤ, List, ℕ, ◌>>=◌, u32, ◌*◌, ◌+◌,
  if◌then◌else◌, ltb, ◌-◌,
}
use bius.Kernel.Transfer.{K2uHeader}
use bius.Kernel.Reply.{U2kHeader}
use bius.Library.{Operations}
use bius.Library.Dispatch.{handle_blk_command}
use bius.RequestType
use bius.RequestType.{BiusReq, is_blk_request}

-- sizeof(struct blk_zone).
abbrev pub blk_zone_size : ℕ
blk_zone_size = 64

-- (int)length.
unfoldable pub to_int : ℕ → ℤ
to_int n = let m = u32 n in if ltb m 2147483648 then pos m else negsuc (4294967295 - m)

-- The `ssize_t` that `count * sizeof(struct blk_zone)` converts to.
unfoldable pub zone_bytes : ℤ → ℤ
zone_bytes (pos n) = pos (n * blk_zone_size)
zone_bytes (negsuc n) = negsuc (n * blk_zone_size + 63)

abbrev pub is_report_zones : BiusReq → Bool
is_report_zones RequestType.report_zones = true
is_report_zones _ = false

module _ {S : Type 0} (ops : Operations S) where
  -- The reply of a request that is no block request; `zones` is the address that `malloc` returned.
  unfoldable pub report_reply :
      Option (ℕ → ℤ → ℕ → S → Option (ℤ × S))
      → K2uHeader
      → ℕ
      → U2kHeader
      → S
      → Option (U2kHeader × S)
  unfolding to_int zone_bytes
  report_reply none k2u zones u2k s = some (u2k, s)
  report_reply (some f) k2u zones u2k s = do
    r ← f k2u.offset (to_int k2u.length) zones s
    some (record u2k { reply = zone_bytes r.0; user_data = zones }, r.1)

  -- From the `u2k.id = k2u.id` on: the header that is written back. `u2k` is the variable as the
  -- turn before left it.
  unfoldable pub answer : K2uHeader → List (ℕ × ℕ) → ℕ → U2kHeader → S → Option (U2kHeader × S)
  unfolding report_reply
  answer k2u entries zones old s =
      let u2k : U2kHeader = record old { id = k2u.id } in
      let block : Option (U2kHeader × S) =
        (handle_blk_command ops k2u entries 0 s >>= λ o.
        some (record u2k { reply = pos o.status; user_data = o.out_user_data }, o.state)) in
      let other : Option (U2kHeader × S) =
        (if is_report_zones k2u.opcode
          then report_reply ops.report_zones k2u zones u2k s
          else some (u2k, s)) in
      if is_blk_request k2u.opcode then block else other
