-- ===== src/Kernel/DataMapping/CopyBack.antt =====
-- kernel/data_mapping.c: `bius_copy_in_misaligned_pages`, which copies what a read left in the reserved
-- pages to the request's own pages.
use bius.Base.{
  ℕ, zero, suc, ◌+◌, ◌-◌, ◌*◌, ◌%◌, ◌<◌, ◌≡◌, ◌==◌, Bool, true, not, ◌&&◌, ◌||◌, Option, none, some,
  arith, refl, ap, ◌∙◌, ltb, leb, if◌then◌else◌, ◌>>=◌, u64, u64_mod, inl, inr, Ensures, ==-cases,
  ltb-cases, min, Bool-cases, Ensures-returns,
}
use bius.Kernel.DataMapping.{Window, page_size, num_reserved_pages, num_longs, reserve_list}
use bius.RequestType.{MapType, unmapped, simple, list}

pub record Copying : Type 0 where
  pub memory : ℕ → ℕ
  pub reserved_page_num : ℕ

module _ (w : Window) where
  -- `memcpy` of a part of the next reserved page to the place that it stands for.
  unfoldable pub copy_page : ℕ → ℕ → Copying → Option Copying
  copy_page offset length c =
      let dest : ℕ = w.longs (reserve_list + c.reserved_page_num) in
      if ltb c.reserved_page_num num_reserved_pages
      then some (record {
        memory = λ a.
            if leb (dest + offset) a && ltb a (dest + offset + length)
            then w.reserved_pages c.reserved_page_num (a - dest)
            else c.memory a;
        reserved_page_num = c.reserved_page_num + 1;
      })
      else none

  -- The two parts of the loop's body, for the entry `i` of the list `l`; the first one also says
  -- whether the second is left out.
  unfoldable pub copy_front : (ℕ → ℕ) → ℕ → Bool → Copying → Option (Bool × Copying)
  unfolding copy_page
  copy_front l i aligned_end c =
      let offset : ℕ = l i % page_size in
      let size : ℕ = l (i * 2 + 1) in
      if l (i * 2) % page_size == 0
      then some (aligned_end, c)
      else (if ltb (u64 (offset + size)) page_size
          then (copy_page offset size c >>= λ c'. some (true, c'))
          else (copy_page offset (page_size - offset) c >>= λ c'. some (aligned_end, c')))

  unfoldable pub copy_end : (ℕ → ℕ) → ℕ → Bool × Copying → Option Copying
  unfolding copy_page
  copy_end l i r = if r.0 then some r.1 else copy_page 0 (u64 (l i + l (i * 2 + 1)) % page_size) r.1

  unfoldable pub copy_entry : (ℕ → ℕ) → ℕ → Copying → Option Copying
  unfolding copy_front copy_end
  copy_entry l i c =
      copy_front l i (u64 (l (i * 2) + l (i * 2 + 1)) % page_size == 0) c >>= copy_end l i

  -- The loop, from entry `i` on, in a list of `n` numbers: past its end is out of bounds.
  unfoldable pub copy_entries : ℕ → ℕ → (ℕ → ℕ) → ℕ → Copying → Option Copying
  unfolding copy_entry
  copy_entries zero n l i c = none
  copy_entries (suc fuel) n l i c =
      let next : Option Copying = (copy_entry l i c >>= copy_entries fuel n l (i + 1)) in
      if ltb (i * 2 + 1) n then (if l (i * 2) == 0 then some c else next) else none

  -- simple_mapping_list.
  abbrev pub simple_list : ℕ → ℕ → ℕ → ℕ
  simple_list map_data length zero = u64 (w.vm_start + map_data)
  simple_list map_data length (suc zero) = length
  simple_list map_data length _ = 0

  -- The function on a request of `length` bytes: the kernel's memory after it.
  unfoldable pub copy_in_misaligned_pages : MapType → ℕ → ℕ → (ℕ → ℕ) → Option (ℕ → ℕ)
  unfolding copy_entries
  copy_in_misaligned_pages unmapped map_data length memory = some memory
  copy_in_misaligned_pages simple map_data length memory =
      copy_entries 2 4 (simple_list map_data length) 0
        (record { memory = memory; reserved_page_num = 2 })
      >>= λ c. some c.memory
  copy_in_misaligned_pages list map_data length memory =
      copy_entries num_longs num_longs w.longs 0 (record { memory = memory; reserved_page_num = 2 })
      >>= λ c. some c.memory

  -- The bytes from `offset` on of a page, over a memory.
  abbrev over : ℕ → ℕ → ℕ → (ℕ → ℕ) → ℕ → ℕ
  over k offset length memory a =
      if leb (w.longs (reserve_list + k) + offset) a
        && ltb a (w.longs (reserve_list + k) + offset + length)
      then w.reserved_pages k (a - w.longs (reserve_list + k))
      else memory a

  abbrev over_front : ℕ → ℕ → (ℕ → ℕ) → ℕ → ℕ
  over_front d n memory = if d == 0 then memory else over 2 d (min n (page_size - d)) memory

  -- The parts of pages of `n` bytes from offset `d` on: the first page from `d` on, if it is not whole,
  -- and the last page up to the end, if it is not whole and not the first one.
  abbrev pub copied : ℕ → ℕ → (ℕ → ℕ) → ℕ → ℕ
  copied d n memory =
      if (d + n) % page_size == 0 || (not (d == 0) && ltb (d + n) page_size)
      then over_front d n memory
      else over (if d == 0 then 2 else 3) 0 ((d + n) % page_size) (over_front d n memory)

  entry-copied :
      (l : ℕ → ℕ) (d n : ℕ) (memory : ℕ → ℕ)
      → l 0 % page_size ≡ d
      → l 1 ≡ n
      → u64 (l 0 + n) % page_size ≡ (d + n) % page_size
      → u64 (d + n) ≡ d + n
      → Ensures
          (λ c. c.memory ≡ copied d n memory)
          (copy_entry l 0 (record { memory = memory; reserved_page_num = 2 }))
  unfolding copy_entry
  entry-copied l d n memory e1 e2 e3 e4 =
      let end : u64 (l 0 + l 1) % page_size ≡ (d + n) % page_size =
        ap (λ k. u64 (l 0 + k) % page_size) e2 ∙ e3 in
      elim (==-cases d 0) [
        | inl (t, e) ↦ elim (Bool-cases ((d + n) % page_size == 0)) [
          | inl s ↦ rw (e2, e3, e1, t, s) refl
          | inr s ↦ rw (e2, e3, e1, t, s) (ap (λ k. over 2 0 k memory) end)
        ]
        | inr (t, e) ↦ elim (ltb-cases (d + n) page_size) [
          | inl (q, h) ↦ elim (Bool-cases ((d + n) % page_size == 0)) [
            | inl s ↦ rw (e2, e3, e1, t, s, e4, q) (ap (λ k. over 2 d k memory) (omega arith))
            | inr s ↦ rw (e2, e3, e1, t, s, e4, q) (ap (λ k. over 2 d k memory) (omega arith))
          ]
          | inr (q, h) ↦ elim (Bool-cases ((d + n) % page_size == 0)) [
            | inl s ↦ rw (e2, e3, e1, t, s, e4, q) (ap (λ k. over 2 d k memory) (omega arith))
            | inr s ↦
                rw (e2, e3, e1, t, s, e4, q)
                  (ap (λ k. over 3 0 k (over 2 d (page_size - d) memory)) end
                    ∙ ap (λ k. over 3 0 ((d + n) % page_size) (over 2 d k memory)) (omega arith))
          ]
        ]
      ]

  -- For a simple mapping of `n` bytes from the offset `d` of the first page on, in an area that starts
  -- with a page and lies below the end of the address space, bius_copy_in_misaligned_pages returns and
  -- has copied the first page from the offset on, if it is not whole, and the last page up to the end of
  -- the bytes, if it is not whole and not the first one, each from its reserved page to the page that
  -- it stands for; the rest of the memory is as it was.
  pub copy_in-simple :
      (d n : ℕ) (memory : ℕ → ℕ)
      → d < page_size
      → w.vm_start % page_size ≡ 0
      → 0 < w.vm_start
      → w.vm_start + d + n < u64_mod
      → copy_in_misaligned_pages simple d n memory ≡ some (copied d n memory)
  unfolding copy_in_misaligned_pages
  copy_in-simple d n memory lt al pos small = finish (
      Ensures-returns _ _
        (entry-copied (simple_list d n) d n memory (omega arith) refl (omega arith) (omega arith)))
    where
      finish :
          (c : Copying) × (copy_entry
                (simple_list d n)
                0
                (record { memory = memory; reserved_page_num = 2 })
              ≡ some c)
            × (c.memory ≡ copied d n memory)
          → copy_in_misaligned_pages simple d n memory ≡ some (copied d n memory)
      finish (c, e, h) = elim (==-cases (u64 (w.vm_start + d)) 0) [
        | inl (t, z) ↦ absurd (omega arith)
        | inr (t, z) ↦ rw (t, e) (ap some h)
      ]
