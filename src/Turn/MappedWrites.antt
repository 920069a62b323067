-- ===== src/Turn/MappedWrites.antt =====
-- library/libbius.c, `handle_blk_command`, on a write that `bius_map_data` of kernel/data_mapping.c
-- has mapped: the operation is called on the bytes of the request.
use bius.Base.{
  ℕ, zero, suc, ◌+◌, ◌*◌, ◌<◌, ◌≡◌, ◌==◌, true, Option, none, some, List, [], ◌∷◌, ◌++◌, length,
  arith, refl, sym, ap, ◌∙◌, Ensures, Ensures-mono, bytes_at, length-bytes_at, length-append, u64,
  u64_mod, if◌then◌else◌, ◌>>=◌,
}
use bius.RequestType
use bius.RequestType.{MapType, unmapped, simple, list, BiusReq}
use bius.Kernel.{BlkBody}
use bius.Kernel.CharDev.{is_unmapped}
use bius.Kernel.Transfer.{K2uHeader}
use bius.Kernel.DataMapping.{Window, BioVec, map_data, page_size}
use bius.Kernel.DataMapping.Views.{view, bytes_of}
use bius.Kernel.DataMapping.Shows.{IsMappable, IsMapping, ShowsBy, user_byte, map_data-IsMapping}
use bius.Library.{Operations, Outcome}
use bius.Library.Dispatch.{
  handle_blk_command, handle_by_map, handle_contiguous, list_loop, plain_call,
}
use bius.Turn.MappedList.{list_at, entry_list, list_at-entry_list}
use bius.Library.Segments.{list_loop-append, total, continue_at, is_first}
use bius.Status.{blk_sts_ok}

entry_list_last :
    (l : ℕ → ℕ) (i k : ℕ)
    → entry_list l i (suc k) ≡ entry_list l i k ++ (l ((i + k) * 2), l ((i + k) * 2 + 1)) ∷ []
entry_list_last l i zero = ap (λ j. (l (j * 2), l (j * 2 + 1)) ∷ []) (omega arith)
entry_list_last l i (suc k) =
    ap (λ r. (l (i * 2), l (i * 2 + 1)) ∷ r)
      (entry_list_last l (i + 1) k
        ∙ ap (λ j. entry_list l (i + 1) k ++ (l (j * 2), l (j * 2 + 1)) ∷ []) (omega arith))

-- A storage with the bytes laid over it from a position on.
abbrev pub laid : ℕ → List ℕ → (ℕ → ℕ) → ℕ → ℕ
laid p [] d a = d a
laid p (x ∷ xs) d a = laid (p + 1) xs (λ b. if b == p then x else d b) a

laid-append :
    (p : ℕ) (xs ys : List ℕ) (d : ℕ → ℕ)
    → laid p (xs ++ ys) d ≡ laid (p + length xs) ys (laid p xs d)
laid-append p [] ys d = ap (λ q. laid q ys d) (omega arith)
laid-append p (x ∷ xs) ys d =
    laid-append (p + 1) xs ys (λ b. if b == p then x else d b)
    ∙ ap (λ q. laid q ys (laid (p + 1) xs (λ b. if b == p then x else d b))) (omega arith)

-- Operations whose write stores the bytes that the memory `u` has at the address.
abbrev pub storing : (ℕ → ℕ) → Operations (ℕ → ℕ)
storing u = record {
  read = none;
  write =
      some (λ address offset size d. some (blk_sts_ok, laid offset (bytes_at u address size) d));
  discard = none;
  flush = none;
  report_zones = none;
  open_zone = none;
  close_zone = none;
  finish_zone = none;
  append_zone = none;
  reset_zone = none;
  reset_all_zone = none;
}

total-append : (xs ys : List (ℕ × ℕ)) → total (xs ++ ys) ≡ total xs + total ys
total-append [] ys = omega arith
total-append ((a, n) ∷ xs) ys = omega (arith, total-append xs ys)

-- Success, with the bytes in the storage.
abbrev pub all_stored : ℕ → ℕ → (ℕ → ℕ) → List ℕ → Option (Outcome (ℕ → ℕ))
all_stored p out d bytes =
    some (record { status = blk_sts_ok; out_user_data = out; state = laid p bytes d })

module _ (u : ℕ → ℕ) (l : ℕ → ℕ) (p out : ℕ) (d : ℕ → ℕ) where
  total-entry_list : (n : ℕ) → total (entry_list l 0 n) ≡ length (view u l n)
  total-entry_list zero = refl
  total-entry_list (suc n) =
      ap total (entry_list_last l 0 n)
      ∙ total-append (entry_list l 0 n) _
      ∙ omega (
        arith,
        total-entry_list n,
        length-append (view u l n) (bytes_at u (l (n * 2)) (l (n * 2 + 1))),
        length-bytes_at u (l (n * 2)) (l (n * 2 + 1)),
        ap (λ j. l (j * 2 + 1)) {x = 0 + n} {y = n} (omega arith),
      )

  stored_all :
      (n : ℕ)
      → p + length (view u l n) < u64_mod
      → list_loop (storing u) RequestType.write true p (entry_list l 0 n) out d
        ≡ all_stored p out d (view u l n)
  unfolding list_loop
  stored_all zero h = refl
  stored_all (suc n) h =
      let size : length (view u l (suc n)) ≡ length (view u l n) + l (n * 2 + 1) =
        length-append (view u l n) (bytes_at u (l (n * 2)) (l (n * 2 + 1)))
        ∙ ap (λ k. length (view u l n) + k) (length-bytes_at u (l (n * 2)) (l (n * 2 + 1))) in
      ap (λ es. list_loop (storing u) RequestType.write true p es out d)
        (entry_list_last l 0 n
          ∙ ap (λ j. entry_list l 0 n ++ (l (j * 2), l (j * 2 + 1)) ∷ []) (omega arith))
      ∙ list_loop-append (storing u) RequestType.write true p (entry_list l 0 n)
          ((l (n * 2), l (n * 2 + 1)) ∷ []) out d (omega (arith, total-entry_list n, size))
      ∙ ap
          (λ m.
            m
            >>= continue_at (storing u) RequestType.write (is_first true (entry_list l 0 n))
                (p + total (entry_list l 0 n)) ((l (n * 2), l (n * 2 + 1)) ∷ []))
          (stored_all n (omega (arith, size)))
      ∙ ap (λ s. some (record { status = blk_sts_ok; out_user_data = out; state = s }))
          (ap (λ k. laid (p + k) (bytes_at u (l (n * 2)) (l (n * 2 + 1))) (laid p (view u l n) d))
              (total-entry_list n)
            ∙ sym (laid-append p (view u l n) (bytes_at u (l (n * 2)) (l (n * 2 + 1))) d))

-- The header that `bius_send_command` makes of a write of `n` bytes at `p`, with the `map_data` and
-- the `map_type` that the request has.
abbrev pub mapped_header : Window → ℕ → ℕ → MapType → ℕ → ℕ → K2uHeader
mapped_header w request_id p t place n = record {
  id = request_id;
  opcode = RequestType.write;
  offset = p;
  length = n;
  data_address = if is_unmapped t then 0 else w.vm_start;
  mapping_data = if is_unmapped t then 0 else place;
  data_map_type = t;
}

-- What the library does with a header, in the area that the driver left: a list is read where the
-- header says that it is.
abbrev pub handled_as :
    (ℕ → ℕ) → (ℕ → ℕ) → ℕ → (ℕ → ℕ) → K2uHeader → Window → Option (Outcome (ℕ → ℕ))
handled_as page_address memory out d k2u w =
    list_at w k2u.data_map_type k2u.mapping_data >>= λ entries.
    handle_blk_command (storing (user_byte page_address memory w)) k2u entries out d

module _ {Bio : Type 0} (page_address : ℕ → ℕ) (memory : ℕ → ℕ) (w : Window) (request_id p out : ℕ)
    (d : ℕ → ℕ) where
  -- What the library does with it.
  abbrev pub handled : BlkBody Bio × Window → ℕ → Option (Outcome (ℕ → ℕ))
  handled q n =
      handled_as page_address memory out d
        (mapped_header w request_id p q.0.map_type q.0.map_data n) q.1

  handled-all_stored :
      (bytes : List ℕ) (most : ℕ) (q : BlkBody Bio × Window)
      → most < 256
      → w.vm_start + page_size < u64_mod
      → p + length bytes < u64_mod
      → IsMapping page_address memory true w bytes most q.0 q.1
      → handled q (length bytes) ≡ all_stored p out d bytes
  unfolding handle_blk_command handle_by_map handle_contiguous plain_call
  handled-all_stored bytes most q few small fits m = by_type q.0.map_type (m.shows refl)
    where
      u : ℕ → ℕ
      u = user_byte page_address memory q.1

      direct :
          (a : ℕ)
          → bytes_at u a (length bytes) ≡ bytes
          → ◌≡◌ {A = Option (Outcome (ℕ → ℕ))}
              (some (record {
                status = blk_sts_ok;
                out_user_data = out;
                state = laid p (bytes_at u a (length bytes)) d;
              }))
              (all_stored p out d bytes)
      direct a e = ap (all_stored p out d) e

      by_type :
          (t : MapType)
          → ShowsBy page_address memory most t q.0.map_data q.1 bytes
          → handled_as page_address memory out d
              (mapped_header w request_id p t q.0.map_data (length bytes))
              q.1
            ≡ all_stored p out d bytes
      by_type unmapped e =
          direct (u64 (0 + 0)) (ap (λ bs. bytes_at u (u64 (0 + 0)) (length bs)) e ∙ sym e)
      by_type simple (lt, e) =
          direct (u64 (w.vm_start + q.0.map_data))
            (ap (λ a. bytes_at u a (length bytes)) (omega (arith, m.same_start)) ∙ e)
      by_type list (at, pt, (n, s)) =
          ap
            (λ (r : Option (List (ℕ × ℕ))).
              r >>= λ es. list_loop (storing u) RequestType.write true p es out d)
            (list_at-entry_list q.1 q.0.map_data n at pt (omega (arith, s.few)) s.addresses s.ends)
          ∙ stored_all u q.1.longs p out d n (omega (arith, ap length s.shows))
          ∙ ap (all_stored p out d) s.shows

  -- A write of fewer than 256 segments that fit, mapped by bius_map_data and handed to the library, is
  -- stored by one call of handle_blk_command, which reads a list through the area at the address that the
  -- header has: with an operation write that stores the bytes that it sees at its address, the storage
  -- then has the bytes of the segments, in order, from the write's position on, and is otherwise as
  -- before; the status is BLK_STS_OK. The write ends below 2 ** 64.
  pub handle_blk_command-map_data :
      (segments : List BioVec) (r : BlkBody Bio)
      → r.map_type ≡ unmapped
      → IsMappable page_address segments w
      → length segments < 256
      → p + length (bytes_of page_address memory segments) < u64_mod
      → Ensures
          (λ q.
            handled q (length (bytes_of page_address memory segments))
            ≡ all_stored p out d (bytes_of page_address memory segments))
          (map_data page_address memory true segments r w)
  handle_blk_command-map_data segments r free f few fits =
      Ensures-mono _ _ _
        (λ (q : BlkBody Bio × Window)
            (m : IsMapping page_address memory true w (bytes_of page_address memory segments)
              (length segments) q.0 q.1).
          handled-all_stored (bytes_of page_address memory segments) (length segments) q few
            (omega (arith, f.small)) fits m)
        (map_data-IsMapping page_address memory true segments r w free f)
