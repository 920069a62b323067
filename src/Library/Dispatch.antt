-- ===== src/Library/Dispatch.antt =====
-- library/libbius.c: `handle_blk_command_with_datamap_list` and `handle_blk_command`. An offset is
-- the 64 bits of an `off64_t`.
use bius.Base.{
  [], ◌∷◌, none, some, true, false, Bool, Option, List, ℕ, u64, ◌>>=◌, ◌+◌, if◌then◌else◌, ◌==◌,
}
use bius.Kernel.Transfer.{K2uHeader}
use bius.Library.{Operations, Outcome}
use bius.RequestType
use bius.RequestType.{BiusReq, MapType, list}
use bius.Status.{blk_sts_notsupp, blk_sts_ok}

-- The value behind the pointer that `append_zone` was given, if it was given one.
abbrev pub stored : Bool → Option ℕ → ℕ → ℕ
stored true (some p) out = p
stored _ _ out = out

module _ {S : Type 0} where
  -- `return BLK_STS_NOTSUPP`, where the member is NULL.
  abbrev pub notsupp : ℕ → S → Option (Outcome S)
  notsupp out s = some (record { status = blk_sts_notsupp; out_user_data = out; state = s })

  -- A call through a member that takes no data.
  unfoldable pub plain_call :
      {A : Type 0} → Option A → (A → S → Option (ℕ × S)) → ℕ → S → Option (Outcome S)
  plain_call none apply out s = notsupp out s
  plain_call (some f) apply out s = do
    r ← apply f s
    some (record { status = r.0; out_user_data = out; state = r.1 })

  unfoldable pub append_call :
      Option (Bool → ℕ → ℕ → ℕ → S → Option (ℕ × Option ℕ × S))
      → Bool
      → ℕ
      → ℕ
      → ℕ
      → ℕ
      → S
      → Option (Outcome S)
  append_call none first address offset length out s = notsupp out s
  append_call (some f) first address offset length out s = do
    r ← f first address offset length s
    some (record { status = r.0; out_user_data = stored first r.1 out; state = r.2 })

module _ {S : Type 0} (ops : Operations S) where
  -- One segment: the `switch` of `handle_blk_command_with_datamap_list`.
  unfoldable pub list_step : BiusReq → Bool → ℕ → ℕ → ℕ → ℕ → S → Option (Outcome S)
  unfolding plain_call append_call
  list_step RequestType.read first address offset size out s =
      plain_call ops.read (λ f. f address offset size) out s
  list_step RequestType.write first address offset size out s =
      plain_call ops.write (λ f. f address offset size) out s
  list_step RequestType.zone_append first address offset size out s =
      append_call ops.append_zone first address offset size out s
  list_step _ first address offset size out s = notsupp out s

  -- The loop, over the addresses and sizes before the entry that ends the list.
  unfoldable pub list_loop : BiusReq → Bool → ℕ → List (ℕ × ℕ) → ℕ → S → Option (Outcome S)
  unfolding list_step
  list_loop opcode first offset [] out s =
      some (record { status = blk_sts_ok; out_user_data = out; state = s })
  list_loop opcode first offset ((address, size) ∷ rest) out s =
      list_step opcode first address offset size out s >>= λ r.
      (let next : Option (Outcome S) =
          list_loop opcode false (u64 (offset + size)) rest r.out_user_data r.state in
        if r.status == blk_sts_ok then next else some r)

  unfoldable pub handle_contiguous : BiusReq → K2uHeader → ℕ → S → Option (Outcome S)
  unfolding plain_call append_call
  handle_contiguous RequestType.read k2u out s =
      let address : ℕ = u64 (k2u.data_address + k2u.mapping_data) in
      plain_call ops.read (λ f. f address k2u.offset k2u.length) address s
  handle_contiguous RequestType.write k2u out s =
      let address : ℕ = u64 (k2u.data_address + k2u.mapping_data) in
      plain_call ops.write (λ f. f address k2u.offset k2u.length) out s
  handle_contiguous RequestType.discard k2u out s =
      plain_call ops.discard (λ f. f k2u.offset k2u.length) out s
  handle_contiguous RequestType.flush k2u out s = plain_call ops.flush (λ f. f) out s
  handle_contiguous RequestType.zone_open k2u out s =
      plain_call ops.open_zone (λ f. f k2u.offset) out s
  handle_contiguous RequestType.zone_close k2u out s =
      plain_call ops.close_zone (λ f. f k2u.offset) out s
  handle_contiguous RequestType.zone_finish k2u out s =
      plain_call ops.finish_zone (λ f. f k2u.offset) out s
  handle_contiguous RequestType.zone_append k2u out s =
      let address : ℕ = u64 (k2u.data_address + k2u.mapping_data) in
      append_call ops.append_zone true address k2u.offset k2u.length out s
  handle_contiguous RequestType.zone_reset k2u out s =
      plain_call ops.reset_zone (λ f. f k2u.offset) out s
  handle_contiguous RequestType.zone_reset_all k2u out s =
      plain_call ops.reset_all_zone (λ f. f) out s
  handle_contiguous _ k2u out s = notsupp out s

  unfoldable pub handle_by_map : MapType → K2uHeader → List (ℕ × ℕ) → ℕ → S → Option (Outcome S)
  unfolding list_loop handle_contiguous
  handle_by_map list k2u entries out s = list_loop k2u.opcode true k2u.offset entries out s
  handle_by_map _ k2u entries out s = handle_contiguous k2u.opcode k2u out s

  -- `handle_blk_command`; `entries` is the list at `mapping_data`, where there is one.
  unfoldable pub handle_blk_command : K2uHeader → List (ℕ × ℕ) → ℕ → S → Option (Outcome S)
  unfolding handle_by_map
  handle_blk_command k2u entries out s = handle_by_map k2u.data_map_type k2u entries out s
