-- ===== src/Kernel/ReportZones/Bounds.antt =====
-- kernel/block_dev.c and char_dev.c: a report of zones, from the reply of user space to the callbacks.
use bius.Base.{
  [], ◌∷◌, none, some, pos, List, ℕ, ℤ, suc, ◌*◌, take, drop, ◌+◌, ◌≤◌, ◌<◌, ◌≡◌, le→ltb, arith,
  refl, ◌/◌, length, Option, ◌++◌, Ensures, drop-append_of_le, ◌>>=◌, take-append_of_le,
  length-drop, ltb-cases, inl, inr, ==_refl,
}
use bius.Kernel.{Driver, Body, IntBody, blk, int}
use bius.Kernel.Reply.{reply_int, reply_bytes, fill_buffer}
use bius.Kernel.ReportZones.{blkz_at, zones_loop, zones_by_result, report_zones_wait, blk_zone_size}
use bius.Library.Serve.{blk_zone_size}
use Prim.Native.Nat.{zero}
use bius.Kernel.CharDev.{as_int-pos, end_request_int, put_body}

-- The zones that are called back for: `n` from the `i`th on.
abbrev pub zones_from : ℕ → ℕ → List ℕ → List (List ℕ)
zones_from zero i bytes = []
zones_from (suc n) i bytes =
    take blk_zone_size (drop (blk_zone_size * i) bytes) ∷ zones_from n (suc i) bytes

-- A callback that keeps the zones that it sees, newest first, and goes on.
abbrev pub collect : List ℕ → ℕ → List (List ℕ) → ℤ × List (List ℕ)
collect zone i seen = (pos 0, zone ∷ seen)

-- The zones seen before, and those in a list after them.
abbrev pub after : List (List ℕ) → List (List ℕ) → List (List ℕ)
after [] seen = seen
after (z ∷ zs) seen = after zs (z ∷ seen)

zones_loop-collect :
    (n i nr room : ℕ) (buffer : List ℕ) (seen : List (List ℕ))
    → blk_zone_size * (i + n) ≤ room
    → zones_loop collect n i nr buffer room seen ≡ some (pos nr, after (zones_from n i buffer) seen)
unfolding zones_loop blkz_at
zones_loop-collect zero i nr room buffer seen h = refl
zones_loop-collect (suc n) i nr room buffer seen h =
    rw (le→ltb room (blk_zone_size * i + blk_zone_size) (omega arith))
      (zones_loop-collect n (suc i) nr room buffer _ (omega arith))

-- Bytes behind those of the zones do not matter.
zones_from-append :
    (n i : ℕ) (bytes rest : List ℕ)
    → blk_zone_size * (i + n) ≤ length bytes
    → zones_from n i (bytes ++ rest) ≡ zones_from n i bytes
zones_from-append zero i bytes rest h = refl
zones_from-append (suc n) i bytes rest h =
    rw
      (
        drop-append_of_le (blk_zone_size * i) bytes rest (omega arith),
        take-append_of_le blk_zone_size (drop (blk_zone_size * i) bytes) rest
            (omega (arith, length-drop (blk_zone_size * i) bytes)),
        zones_from-append n (suc i) bytes rest (omega arith),
      )
      refl

-- What `bius_report_zones` does from its wait on, `none` where it sleeps.
abbrev pub woken : {Bio : Type 0} → Body Bio → Option (ℤ × List (List ℕ))
woken (int b) = report_zones_wait collect b []
woken (blk b) = none

-- What is called back for, and the result, for `n` bytes.
abbrev pub whole_zones : ℕ → List ℕ → ℤ × List (List ℕ)
whole_zones n bytes = (pos (n / blk_zone_size), after (zones_from (n / blk_zone_size) 0 bytes) [])

-- The zones of `n` bytes, read from a buffer that they were copied to.
zones_by_result-woken :
    (n : ℕ) (bytes : List ℕ) (b : IntBody)
    → length bytes ≡ n
    → n ≤ b.room
    → zones_by_result collect (pos n) (record b { buffer = bytes ++ drop n b.buffer }) []
      ≡ some (whole_zones n bytes)
unfolding zones_by_result
zones_by_result-woken n bytes b l h =
    rw
      (
        zones_loop-collect (n / blk_zone_size) 0 (n / blk_zone_size) b.room
            (bytes ++ drop n b.buffer) [] (omega arith),
        zones_from-append (n / blk_zone_size) 0 bytes (drop n b.buffer) (omega arith),
      )
      refl

module _ {Bio : Type 0} (status : ℤ → ℕ) (segments : ℕ → List ℕ) (user : ℕ → ℕ → Option (List ℕ))
    (partial : ℕ → ℕ → List ℕ) where
  filled-woken :
      (n a : ℕ) (bytes : List ℕ) (b : IntBody) (k : Driver Bio)
      → length bytes ≡ n
      → n ≤ b.room
      → n < 2147483648
      → Ensures
          (λ q. woken (q.requests a).body ≡ some (whole_zones n bytes))
          (fill_buffer status segments user partial (int b) n bytes >>= λ y.
            end_request_int a (pos n) (put_body k a y))
  unfolding fill_buffer end_request_int report_zones_wait
  filled-woken n a bytes b k l h i = elim (ltb-cases b.room n) [
    | inl (u, v) ↦ absurd (omega arith)
    | inr (u, v) ↦
        let up : b.sem + 1 ≡ suc b.sem = omega arith in
        rw (u, ==_refl a)
          (rw (==_refl a) (rw (up, as_int-pos n i) (zones_by_result-woken n bytes b l h)))
  ]

  -- A reply to a report of zones with bytes that can be read, that the buffer has room for, and that
  -- are fewer than 2 ** 31, lets the wait of `bius_report_zones` end, whatever the count of its
  -- semaphore was: no longer asleep, it calls back for each whole zone in those bytes, in order, reads
  -- nothing behind them, and returns the number of those zones, where every callback returns 0.
  pub reply_int-woken :
      (n a address : ℕ) (bytes : List ℕ) (b : IntBody) (k : Driver Bio)
      → (k.requests a).body ≡ int b
      → user address (suc n) ≡ some bytes
      → length bytes ≡ suc n
      → suc n ≤ b.room
      → suc n < 2147483648
      → Ensures
          (λ q. woken (q.requests a).body ≡ some (whole_zones (suc n) bytes))
          (reply_int status segments user partial (pos (suc n)) a address k)
  unfolding reply_int reply_bytes
  reply_int-woken n a address bytes b k e u l h i =
      rw (u, e) (filled-woken (suc n) a bytes b k l h i)
