-- ===== src/Library.antt =====
-- library/libbius.c and libbius.h: the user-space side of the driver. The file operations of the
-- device, the memory and the operations of the storage are code and state of the caller: `S` is
-- that state. `none` stands for a fault of an operation, or for `exit(1)`.
pub mod Dispatch
pub mod Segments
pub mod CopyIn
pub mod Serve
pub mod Main
mod Tests
use bius.Base.{ℕ, ℤ, Option, Bool}

-- `struct bius_operations`; a member that is none is NULL. `append_zone` is told whether it has a
-- place for the position, and may store one.
pub record Operations (S : Type 0) : Type 0 where
  pub read : Option (ℕ → ℕ → ℕ → S → Option (ℕ × S))
  pub write : Option (ℕ → ℕ → ℕ → S → Option (ℕ × S))
  pub discard : Option (ℕ → ℕ → S → Option (ℕ × S))
  pub flush : Option (S → Option (ℕ × S))
  pub report_zones : Option (ℕ → ℤ → ℕ → S → Option (ℤ × S))
  pub open_zone : Option (ℕ → S → Option (ℕ × S))
  pub close_zone : Option (ℕ → S → Option (ℕ × S))
  pub finish_zone : Option (ℕ → S → Option (ℕ × S))
  pub append_zone : Option (Bool → ℕ → ℕ → ℕ → S → Option (ℕ × Option ℕ × S))
  pub reset_zone : Option (ℕ → S → Option (ℕ × S))
  pub reset_all_zone : Option (S → Option (ℕ × S))

-- The status of a command, and `*out_user_data` and the state after it.
pub record Outcome (S : Type 0) : Type 0 where
  pub status : ℕ
  pub out_user_data : ℕ
  pub state : S
