-- ===== src/Library/Tests.antt =====
-- Runs of the user-space side: the state is the bytes that the file still has, and `read` returns
-- one byte at a time.
use bius.Base.{
  [], ◌∷◌, none, some, ℕ, List, true, Option, ◌≡◌, ◌>>=◌, refl, false, arith, Ensures, length, ◌++◌,
}
use bius.RequestType
use bius.Library.{Operations}
use bius.Library.Segments.{continue_at, list_loop-append}
use bius.Library.CopyIn.{Delivers, handle_copy_in, handle_copy_in-Reads}
use bius.Library.Dispatch.{list_loop}
use bius.Kernel.Transfer.{K2uHeader}
use bius.RequestType.{simple, unmapped}

abbrev one_byte : ℕ → List ℕ → Option (List ℕ × List ℕ)
one_byte n [] = none
one_byte n (b ∷ bs) = some (b ∷ [], bs)

-- Each segment is read at its offset; the state lists the offsets and sizes, newest first.
abbrev log_read : ℕ → ℕ → ℕ → List (ℕ × ℕ) → Option (ℕ × List (ℕ × ℕ))
log_read address offset size s = some (0, (offset, size) ∷ s)

abbrev logging : Operations (List (ℕ × ℕ))
logging = record {
  read = some log_read;
  write = none;
  discard = none;
  flush = none;
  report_zones = none;
  open_zone = none;
  close_zone = none;
  finish_zone = none;
  append_zone = none;
  reset_zone = none;
  reset_all_zone = none;
}

list_loop-append_example :
    list_loop logging RequestType.read true 512 ((4096, 100) ∷ (8192, 28) ∷ []) 0 [] ≡ (
      list_loop logging RequestType.read true 512 ((4096, 100) ∷ []) 0 []
      >>= continue_at logging RequestType.read false 612 ((8192, 28) ∷ []))
list_loop-append_example =
    list_loop-append logging RequestType.read true 512 ((4096, 100) ∷ []) ((8192, 28) ∷ []) 0 []
      (omega arith)

-- The two segments stand one after the other on the device.
read_twice :
    list_loop logging RequestType.read true 512 ((4096, 100) ∷ (8192, 28) ∷ []) 0 []
    ≡ some (record { status = 0; out_user_data = 0; state = (612, 28) ∷ (512, 100) ∷ [] })
unfolding list_loop
read_twice = refl

one_byte-Delivers : Delivers one_byte (λ s. s) (λ s. Unit {0})
one_byte-Delivers n [] g h l = absurd (omega arith)
one_byte-Delivers n (b ∷ bs) g h l = (omega arith, omega arith, refl, tt)

-- A write of three bytes.
abbrev a_write : K2uHeader
a_write = record {
  id = 4;
  opcode = RequestType.write;
  offset = 512;
  length = 3;
  data_address = 0;
  mapping_data = 0;
  data_map_type = unmapped;
}

handle_copy_in-Reads_example :
    Ensures
      (λ r.
        (r.0 ≡ record a_write { data_map_type = simple; data_address = 4096; mapping_data = 0 })
        × (length r.1 ≡ 3)
        × (r.1 ++ r.2 ≡ 5 ∷ 6 ∷ 7 ∷ 8 ∷ [])
        × Unit {0})
      (handle_copy_in one_byte a_write 4096 (5 ∷ 6 ∷ 7 ∷ 8 ∷ []))
handle_copy_in-Reads_example =
    handle_copy_in-Reads one_byte (λ s. s) (λ s. Unit {0}) a_write 4096 (5 ∷ 6 ∷ 7 ∷ 8 ∷ [])
      one_byte-Delivers tt refl refl (omega arith)
