-- ===== src/Kernel/Transfer.antt =====
-- kernel/command.h: `bius_send_command`, `bius_send_data` and `bius_receive_data`.
use bius.Base.{
  [], ◌∷◌, true, false, none, some, if◌then◌else◌, ltb, ◌&&◌, length, u64, ◌+◌, u64_mod, ◌-◌, ◌++◌,
  take, ◌==◌, not, ℤ, pos, negsuc, ℕ, List, Option, Bool, suc, ◌>>=◌,
}
use bius.Kernel.{Request, BioApi, BlkBody, ℕ, List, BiusReq, MapType}
use bius.RequestType.{unmapped, BiusReq, MapType}
use Prim.Native.Nat.{zero}

-- include/bius/command_header.h, and the sizes of its structures.
pub record K2uHeader : Type 0 where
  pub id : ℕ
  pub opcode : BiusReq
  pub offset : ℕ
  pub length : ℕ
  pub data_address : ℕ
  pub mapping_data : ℕ
  pub data_map_type : MapType

abbrev pub k2u_size : ℕ
k2u_size = 56

abbrev pub u2k_size : ℕ
u2k_size = 24

-- The header that `bius_send_command` copies out.
unfoldable pub command_header : {Bio : Type 0} → Request Bio → K2uHeader
command_header r = record {
  id = r.id;
  opcode = r.kind;
  offset = r.pos;
  length = r.length;
  data_address = 0;
  mapping_data = 0;
  data_map_type = unmapped;
}

-- The variables of the loop of `bius_send_data`: the request's chain and `map_data`, and the bytes
-- copied to the user, whose number is `total_sent`.
pub record Sending (Bio : Type 0) : Type 0 where
  pub bio : List Bio
  pub map_data : ℕ
  pub remain_buffer : ℕ
  pub sent : List ℕ

-- `copied n` is the result of `copy_to_iter` for `n` bytes.
module _ {Bio : Type 0} (api : BioApi Bio) (copied : ℕ → ℕ) where
  -- From the call of `copy_to_iter` on, which copied `sent_size` bytes of the bio `b`.
  unfoldable pub send_piece : Bio → List Bio → ℕ → Sending Bio → Option (Bool × Sending Bio)
  send_piece b rest sent_size s =
      let b' = api.advance b sent_size in
      let s' : Sending Bio = record {
        bio = b' ∷ rest;
        map_data = u64 (s.map_data + u64_mod - sent_size);
        remain_buffer = u64 (s.remain_buffer + u64_mod - sent_size);
        sent = s.sent ++ take sent_size (api.segment b);
      } in
      if api.bi_size b' == 0
      then some (true, record s' { bio = rest })
      else some (not (sent_size == 0), s')

  -- The body of the loop, at the chain of the request, and whether the loop goes on. `none` is an
  -- access through a null bio.
  unfoldable pub send_bio : List Bio → Sending Bio → Option (Bool × Sending Bio)
  send_bio [] s = none
  send_bio (b ∷ rest) s =
      let available : ℕ = length (api.segment b) in
      let size : ℕ = if ltb s.remain_buffer available then s.remain_buffer else available in
      send_piece b rest (copied size) s

  -- `none` also stands for fuel that ran out.
  unfoldable pub send_loop : ℕ → Sending Bio → Option (Sending Bio)
  unfolding send_bio
  send_loop zero s = none
  send_loop (suc fuel) s =
      let next : Option (Sending Bio) =
        (send_bio s.bio s >>= λ r. elim r.0 [ true ↦ send_loop fuel r.1 | false ↦ some r.1 ]) in
      if ltb 0 s.map_data && ltb 0 s.remain_buffer then next else some s

  unfoldable pub send_by_map :
      List Bio → MapType → ℕ → BlkBody Bio → Option (ℤ × List ℕ × BlkBody Bio)
  unfolding send_loop
  send_by_map [] t room r = some (pos 0, [], r)
  send_by_map (b ∷ rest) unmapped room r = do
    s ←
        send_loop (r.map_data + length r.bio + 1)
          (record { bio = r.bio; map_data = r.map_data; remain_buffer = room; sent = [] })
    some (pos (length s.sent), s.sent, record r { bio = s.bio; map_data = s.map_data })
  send_by_map (b ∷ rest) t room r = some (negsuc 21, [], r)

  -- `bius_send_data`: its result, the bytes handed to the user, and the request. The fuel of the
  -- loop is one more than the bytes and bios that are left.
  unfoldable pub send_data : ℕ → BlkBody Bio → Option (ℤ × List ℕ × BlkBody Bio)
  unfolding send_by_map
  send_data room r = send_by_map r.bio r.map_type room r

-- `user a n` is the outcome of `copy_from_user` for `n` bytes at `a`: the bytes, or none where not
-- all of them could be copied.
module _ (user : ℕ → ℕ → Option (List ℕ)) where
  -- The loop of `bius_receive_data` over the lengths of the request's segments: the bytes that each
  -- one receives.
  unfoldable pub receive_segments : List ℕ → ℕ → Option (List (List ℕ))
  receive_segments [] address = some []
  receive_segments (n ∷ ns) address = do
    bytes ← user address n
    rest ← receive_segments ns (u64 (address + n))
    some (bytes ∷ rest)

  unfoldable pub receive_by_map :
      {Bio : Type 0} → List Bio → MapType → List ℕ → ℕ → ℤ × List (List ℕ)
  receive_by_map [] t segments address = (pos 0, [])
  receive_by_map (b ∷ rest) unmapped segments address = elim (receive_segments segments address) [
    | none ↦ (negsuc 4, [])
    | some bytes ↦ (pos 0, bytes)
  ]
  receive_by_map (b ∷ rest) t segments address = (negsuc 21, [])

  -- `bius_receive_data`: -EIO where a copy fails, 0 and the bytes where all succeed.
  unfoldable pub receive_data : {Bio : Type 0} → BlkBody Bio → List ℕ → ℕ → ℤ × List (List ℕ)
  unfolding receive_by_map receive_segments
  receive_data r segments address = receive_by_map r.bio r.map_type segments address
