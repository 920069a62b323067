-- ===== src/Kernel/ReportZones.antt =====
-- kernel/block_dev.c: `bius_report_zones` from its wait on. `cb` is the callback of the block layer,
-- over a state `S` of the caller; `none` is an access past the end of the buffer.
pub mod Bounds
use bius.Base.{
  [], ◌∷◌, none, some, true, false, pos, negsuc, List, ℕ, ℤ, Option, ◌>>=◌, Bool, ◌/◌,
  if◌then◌else◌, ltb, ◌*◌, ◌+◌, take, drop,
}
use bius.Kernel.{Body, IntBody, blk, int}
use bius.Library.Serve.{blk_zone_size}
use Prim.Native.Nat.{zero, suc}

-- `down` on the semaphore: it takes one from its count, and sleeps (`none`) while that is zero.
unfoldable pub down_by : ℕ → IntBody → Option IntBody
down_by zero b = none
down_by (suc n) b = some (record b { sem = n })

module _ {S : Type 0} (cb : List ℕ → ℕ → S → ℤ × S) where
  -- The bytes of `blkz[i]`.
  unfoldable pub blkz_at : List ℕ → ℕ → ℕ → Option (List ℕ)
  blkz_at buffer room i =
      if ltb room (blk_zone_size * i + blk_zone_size)
      then none
      else some (take blk_zone_size (drop (blk_zone_size * i) buffer))

  abbrev pub is_zero : ℤ → Bool
  is_zero (pos zero) = true
  is_zero _ = false

  -- The loop, with `n` of the `nr_zones` zones left from `i` on.
  unfoldable pub zones_loop : ℕ → ℕ → ℕ → List ℕ → ℕ → S → Option (ℤ × S)
  unfolding blkz_at
  zones_loop zero i nr_zones buffer room s = some (pos nr_zones, s)
  zones_loop (suc n) i nr_zones buffer room s = blkz_at buffer room i >>= λ zone.
      (let r = cb zone i s in
        let next : Option (ℤ × S) = zones_loop n (suc i) nr_zones buffer room r.1 in
        if is_zero r.0 then next else some r)

  unfoldable pub zones_by_result : ℤ → IntBody → S → Option (ℤ × S)
  unfolding zones_loop
  zones_by_result (negsuc e) b s = some (negsuc e, s)
  zones_by_result (pos n) b s =
      zones_loop (n / blk_zone_size) 0 (n / blk_zone_size) b.buffer b.room s

  -- `killed` says that `down_killable` was interrupted.
  unfoldable pub report_zones_resume : Bool → IntBody → S → Option (ℤ × S)
  unfolding zones_by_result
  report_zones_resume killed b s =
      if killed then some (negsuc 3, s) else zones_by_result b.int_result b s

  -- From `down_killable` on, where no signal kills it: `none` also stands for sleep.
  unfoldable pub report_zones_wait : IntBody → S → Option (ℤ × S)
  unfolding down_by report_zones_resume
  report_zones_wait b s = down_by b.sem b >>= λ b'. report_zones_resume false b' s
