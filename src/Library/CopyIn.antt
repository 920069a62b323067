-- ===== src/Library/CopyIn.antt =====
-- library/libbius.c: `handle_copy_in`.
use bius.Base.{
  [], none, some, true, false, ℕ, Option, List, ◌<◌, ◌>>=◌, Bool, length, ◌≤◌, ◌+◌, Ensures,
  if◌then◌else◌, ◌-◌, ◌≡◌, ◌&&◌, ◌++◌, ◌==◌, ltb, arith, ltb-cases, inr, inl, Ensures-bind,
  Ensures-mono, refl, ==-cases, ◌∙◌, append_assoc, ap, length-append,
}
use bius.Kernel.Transfer.{K2uHeader}
use bius.RequestType.{request_may_have_data, request_is_write, is_write-may_have_data, simple}
use bius.Kernel.CharDev.{is_unmapped}
use Prim.Native.Nat.{zero, ℕ, suc}

-- `input n s` is `read` of at most `n` bytes, none where it fails.
module _ {S : Type 0} (input : ℕ → S → Option (List ℕ × S)) where
  -- The loop, with the bytes that the buffer has from it, whose number is `total_read`. `none` also
  -- stands for fuel that ran out.
  unfoldable pub copy_loop : ℕ → List ℕ → ℕ → S → Option (List ℕ × S)
  copy_loop zero got size s = none
  copy_loop (suc fuel) got size s =
      let next : Option (List ℕ × S) =
        (input (size - length got) s >>= λ r. elim (length r.0 == 0) [
          | true ↦ none
          | false ↦ copy_loop fuel (got ++ r.0) size r.1
        ]) in
      if ltb (length got) size then next else some (got, s)

  unfoldable pub copy_data : Bool → ℕ → S → Option (List ℕ × S)
  unfolding copy_loop
  copy_data false size s = some ([], s)
  copy_data true size s = copy_loop (size + 1) [] size s

  -- `handle_copy_in`: the header that is handled, the bytes put into the buffer at `buffer`, and
  -- the state. The fuel of the loop is one more than the bytes.
  unfoldable pub handle_copy_in : K2uHeader → ℕ → S → Option (K2uHeader × List ℕ × S)
  unfolding copy_data
  handle_copy_in k2u buffer s =
      let filled : Option (K2uHeader × List ℕ × S) =
        (copy_data (request_is_write k2u.opcode) k2u.length s >>= λ r. some (
          record k2u { data_map_type = simple; data_address = buffer; mapping_data = 0 },
          r.0,
          r.1,
        )) in
      if request_may_have_data k2u.opcode && is_unmapped k2u.data_map_type
      then filled
      else some (k2u, [], s)

module _ {S : Type 0} (input : ℕ → S → Option (List ℕ × S)) (stream : S → List ℕ)
    (good : S → Type 0) where
  -- A `read` that does not fail in a good state while the stream has the bytes that it is asked for:
  -- it returns the next bytes of the stream, at least one and at most as many as it was asked for, and
  -- leaves a good state.
  abbrev pub Delivers : Type 0
  Delivers =
      (n : ℕ) (s : S)
      → good s
      → 0 < n
      → n ≤ length (stream s)
      → Ensures
          (λ r. (0 < length r.0) × (length r.0 ≤ n) × (r.0 ++ stream r.1 ≡ stream s) × good r.1)
          (input n s)

  -- The loop ends, however short the reads are, with `size` bytes in the buffer: the ones it had, and
  -- after them the next of the stream, if `read` delivers, the state is good, the stream has enough left, and the fuel is
  -- more than the bytes that are missing.
  copy_loop-Reads :
      (fuel : ℕ) (got : List ℕ) (size : ℕ) (s : S)
      → Delivers
      → good s
      → length got ≤ size
      → size - length got < fuel
      → size - length got ≤ length (stream s)
      → Ensures
          (λ r. (length r.0 ≡ size) × (r.0 ++ stream r.1 ≡ got ++ stream s) × good r.1)
          (copy_loop input fuel got size s)
  unfolding copy_loop
  copy_loop-Reads zero got size s d g h f l = absurd (omega arith)
  copy_loop-Reads (suc fuel) got size s d g h f l = elim (ltb-cases (length got) size) [
    | inr (t, le) ↦ rw t (omega arith, refl, g)
    | inl (t, lt) ↦ rw t (
        Ensures-bind _ (input (size - length got) s) _ (
          Ensures-mono _ _ (input (size - length got) s)
            (λ r q. one_read r q (λ t x. copy_loop-Reads fuel t size x d))
            (d (size - length got) s g (omega arith) l)))
  ]
    where
      one_read :
          (r : List ℕ × S)
          → (0 < length r.0)
            × (length r.0 ≤ size - length got)
            × (r.0 ++ stream r.1 ≡ stream s)
            × good r.1
          → ((t : List ℕ) (x : S)
              → good x
              → length t ≤ size
              → size - length t < fuel
              → size - length t ≤ length (stream x)
              → Ensures
                  (λ r. (length r.0 ≡ size) × (r.0 ++ stream r.1 ≡ t ++ stream x) × good r.1)
                  (copy_loop input fuel t size x))
          → Ensures
              (λ r. (length r.0 ≡ size) × (r.0 ++ stream r.1 ≡ got ++ stream s) × good r.1)
              (elim (length r.0 == 0) [
                | true ↦ none
                | false ↦ copy_loop input fuel (got ++ r.0) size r.1
              ])
      one_read r q next = elim (==-cases (length r.0) 0) [
        | inl (t, e) ↦ absurd (omega (arith, q.0))
        | inr (t, e) ↦ rw t (
            Ensures-mono _ _ (copy_loop input fuel (got ++ r.0) size r.1)
              (λ x y. (y.0, y.1 ∙ append_assoc got r.0 (stream r.1) ∙ ap (λ l. got ++ l) q.2, y.2))
              (next (got ++ r.0) r.1 q.3 (omega (arith, length-append got r.0, q.1, h))
                (omega (arith, length-append got r.0, q.0, q.1, f))
                (omega (
                  arith,
                  length-append got r.0,
                  length-append r.0 (stream r.1),
                  ap length q.2,
                  l,
                ))))
      ]

  -- For a write whose data is not mapped, `handle_copy_in` returns if `read` delivers, the state is
  -- good and the stream has the data of the write: it takes exactly `length` bytes from the stream, in order, into the
  -- buffer, and the header then names that buffer, with the other fields as they were;
  -- the state is good again.
  pub handle_copy_in-Reads :
      (k2u : K2uHeader) (buffer : ℕ) (s : S)
      → Delivers
      → good s
      → request_is_write k2u.opcode ≡ true
      → is_unmapped k2u.data_map_type ≡ true
      → k2u.length ≤ length (stream s)
      → Ensures
          (λ r.
            (r.0 ≡ record k2u { data_map_type = simple; data_address = buffer; mapping_data = 0 })
            × (length r.1 ≡ k2u.length)
            × (r.1 ++ stream r.2 ≡ stream s)
            × good r.2)
          (handle_copy_in input k2u buffer s)
  unfolding handle_copy_in copy_data
  handle_copy_in-Reads k2u buffer s d g w u l =
      rw (is_write-may_have_data k2u.opcode w, w, u)
        (Ensures-bind _ (copy_loop input (k2u.length + 1) [] k2u.length s) _ (
          Ensures-mono _ _ (copy_loop input (k2u.length + 1) [] k2u.length s)
            (λ r q. (refl, q.0, q.1, q.2))
            (copy_loop-Reads (k2u.length + 1) [] k2u.length s d g (omega arith) (omega arith)
              (omega (arith, l)))))
