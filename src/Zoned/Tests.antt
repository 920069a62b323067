-- ===== src/Zoned/Tests.antt =====
-- Runs of the zoned commands on a disk of two zones, four sectors each, of which one may be open at
-- a time and two may be active.
use bius.Zoned.Bounds.{IsValid, IsGood, initialize-IsGood}
use bius.Zoned.Leak.{open_zone_locked_leaks}
use bius.Zoned.WriteGood.{write_locked-SeqWrite, SeqWrite}
use bius.Zoned.History.{
  Command, write, open_zone, close_zone, finish_zone, reset_zone, reset_all_zone, run,
  run-initialize-IsGood,
}
use bius.Zoned.ManageGood.{
  zoned_open_zone-IsGood, zoned_close_zone-IsGood, zoned_finish_zone-IsGood, reset_locked-IsGood,
}
use bius.Zoned.Init.{initialize}
use bius.Zoned.{
  Device, ZoneStat, Config, exp_open, ZoneCond, empty, BlkZone, seqwrite_req, imp_open,
}
use bius.Zoned.Counters.{IsSound, active_of}
use bius.Zoned.Ramdisk.{Memory, ramdisk}
use bius.Zoned.ReadBack.{append-read_back}
use bius.Zoned.Overlay.{Reads, overlay}
use bius.Zoned.Disk.{zoned_read, zoned_append_zone}
use bius.Base.{
  ℕ, Ensures, arith, List, Ensures_result, ◌≡◌, ◌>>=◌, ◌∷◌, get_elem?, false, inr, [], some, true,
  sum_of, refl, ◌+◌,
}
use bius.Zoned.Write.{write_locked, admitted}
use Prim.Native.Nat.{ℕ}
use bius.Zoned.Open.{open_zone_locked}
use bius.Zoned.Manage.{zoned_open_zone, zoned_finish_zone, reset_locked, zoned_close_zone}
use bius.Status.{blk_sts_zone_open_resource}

abbrev tiny : Config
tiny = record {
  zoned_disk_size = 4096;
  zone_size = 2048;
  num_conventional_zones = 0;
  max_open_zones = 1;
  max_active_zones = 2;
}

-- As many open as active.
abbrev even : Config
even = record tiny { max_open_zones = 2 }

abbrev zone_at : ℕ → ZoneCond → BlkZone
zone_at s k = record { start = s; len = 4; wp = s; kind = seqwrite_req; cond = k; capacity = 4 }

abbrev no_stat : ZoneStat
no_stat = record { written = 0; read = 0; reset_count = 0; discard_count = 0 }

abbrev fresh : Device
fresh = record {
  zone_info = zone_at 0 empty ∷ zone_at 4 empty ∷ [];
  stats = no_stat ∷ no_stat ∷ [];
  num_open_zones = 0;
  num_imp_open_zones = 0;
  num_active_zones = 0;
}

-- Zone 0 explicitly open.
abbrev busy : Device
busy = record fresh {
  zone_info = zone_at 0 exp_open ∷ zone_at 4 empty ∷ [];
  num_open_zones = 1;
  num_active_zones = 1;
}

tiny-IsValid : IsValid tiny
tiny-IsValid = omega arith

even-IsValid : IsValid even
even-IsValid = omega arith

fresh_lem : initialize tiny ≡ some fresh
unfolding initialize
fresh_lem = refl

fresh-IsGood : IsGood tiny fresh
fresh-IsGood =
    Ensures_result (IsGood tiny) (initialize tiny) fresh (initialize-IsGood tiny tiny-IsValid)
      fresh_lem

busy-IsSound : IsSound tiny busy
busy-IsSound = omega arith

initialize-IsGood_example : Ensures (IsGood tiny) (initialize tiny)
initialize-IsGood_example = initialize-IsGood tiny tiny-IsValid

-- Zone 1 is opened while zone 0 is: two zones count as active afterwards, and one is.
open_zone_locked_leaks_example :
    Ensures
      (λ r.
        (get_elem? r.1.zone_info 1 ≡ some (zone_at 4 empty))
        × (r.1.num_active_zones ≡ sum_of active_of r.1.zone_info + 1)
        × (¬ IsSound tiny r.1)
        × (r.0 ≡ blk_sts_zone_open_resource))
      (open_zone_locked tiny 1 true busy)
open_zone_locked_leaks_example =
    open_zone_locked_leaks tiny 1 true busy (zone_at 4 empty) refl refl (omega arith) (omega arith)
      (omega arith) busy-IsSound

-- An append of two sectors to zone 1.
write_locked-SeqWrite_example :
    Ensures
      (λ l. IsGood tiny l.device × SeqWrite fresh 1 (zone_at 4 empty) 1024 true 2048 l)
      (write_locked tiny 2048 1024 true fresh)
write_locked-SeqWrite_example =
    write_locked-SeqWrite tiny fresh (zone_at 4 empty) 2048 1024 true tiny-IsValid fresh-IsGood refl
      refl (inr (omega arith)) (omega arith)

append_admitted :
    write_locked tiny 2048 1024 true fresh
    ≡ some (record {
      verdict = admitted 2048;
      written_position = some 2048;
      device = record fresh {
        zone_info = zone_at 0 empty ∷ record (zone_at 4 imp_open) { wp = 6 } ∷ [];
        stats = no_stat ∷ record no_stat { written = 1024 } ∷ [];
        num_open_zones = 1;
        num_imp_open_zones = 1;
        num_active_zones = 1;
      };
    })
unfolding write_locked open_zone_locked
append_admitted = refl

zoned_open_zone-IsGood_example : Ensures (λ r. IsGood tiny r.1) (zoned_open_zone tiny 2048 fresh)
zoned_open_zone-IsGood_example =
    zoned_open_zone-IsGood tiny 2048 fresh (zone_at 4 empty) tiny-IsValid refl (inr (omega arith))
      fresh-IsGood

zoned_close_zone-IsGood_example : Ensures (λ r. IsGood tiny r.1) (zoned_close_zone tiny 2048 fresh)
zoned_close_zone-IsGood_example = zoned_close_zone-IsGood tiny 2048 fresh (omega arith) fresh-IsGood

zoned_finish_zone-IsGood_example :
    Ensures (λ r. IsGood tiny r.1) (zoned_finish_zone tiny 2048 fresh)
zoned_finish_zone-IsGood_example =
    zoned_finish_zone-IsGood tiny 2048 fresh tiny-IsValid (omega arith) fresh-IsGood

reset_locked-IsGood_example : Ensures (λ r. IsGood tiny r.2) (reset_locked tiny 2048 fresh)
reset_locked-IsGood_example = reset_locked-IsGood tiny 2048 fresh (omega arith) fresh-IsGood

abbrev life : List Command
life =
    open_zone 0
    ∷ write 0 1024 false
    ∷ write 0 1024 true
    ∷ write 2048 512 true
    ∷ close_zone 2048
    ∷ reset_zone 0
    ∷ finish_zone 2048
    ∷ reset_all_zone
    ∷ []

run-initialize-IsGood_example : Ensures (IsGood even) (initialize even >>= run even life)
run-initialize-IsGood_example =
    run-initialize-IsGood even life even-IsValid (omega arith) (omega arith)

open_first : zoned_open_zone tiny 0 fresh ≡ some (0, busy)
unfolding zoned_open_zone open_zone_locked
open_first = refl

busy-IsGood : IsGood tiny busy
busy-IsGood =
    Ensures_result (λ r. IsGood tiny r.1) (zoned_open_zone tiny 0 fresh) (0, busy)
      (zoned_open_zone-IsGood tiny 0 fresh (zone_at 0 empty) tiny-IsValid refl (inr (omega arith))
        fresh-IsGood)
      open_first

abbrev counting : ℕ → ℕ
counting i = i + 1

abbrev blank : Memory
blank = record { in_memory_data = λ a. 0; fault = false }

-- Half of the bytes that are read lie in the append of 512 bytes, and half behind it.
append-read_back_example :
    Ensures
      (λ r.
        (r.0 ≡ 0)
        × (r.1 ≡ some 0)
        × (r.2.raw.fault ≡ false)
        × Ensures
            (Reads 4096 (overlay 512 counting (λ a. 0) 0) 256 512)
            (zoned_read tiny (ramdisk 4096) (λ a. 0) 256 512 r.2))
      (zoned_append_zone tiny (ramdisk 4096) counting 0 512 (record { device = busy; raw = blank }))
append-read_back_example =
    append-read_back tiny busy (zone_at 0 exp_open) 0 512 counting blank tiny-IsValid busy-IsGood
      refl refl tt refl (omega arith) (λ a. 0) 256 512 (omega arith) (omega arith)
