-- ===== src/Kernel/DataMapping/Listing.antt =====
-- kernel/data_mapping.c: after each segment the mapping list names the bytes of the segments so far.
use bius.Base.{
  bytes_at, bytes_at-congr, ℕ, suc, ◌+◌, ◌-◌, ◌*◌, ◌/◌, ◌%◌, ◌<◌, ◌≤◌, ◌≡◌, Bool, true, List, ◌++◌,
  arith, refl, sym, ap, ◌∙◌, u64_mod, inl, inr, ltb-cases, ==-cases,
}
use bius.Kernel.DataMapping.{Mapping, BioVec, page_size}
use bius.Kernel.DataMapping.Grows.{IsLow, seen, byte_of}
use bius.Kernel.DataMapping.Segment.{Mapped}
use bius.Kernel.DataMapping.Views.{segment_bytes, view, view-congr, view_longer}
use bius.Kernel.DataMapping.Entries.{IsSameArea, IsNew, IsLonger}

-- What the code relies on of a segment: it starts in its page, and lies below the end of the
-- address space.
pub record IsSegment (page_address : ℕ → ℕ) (v : BioVec) : Type 0 where
  pub offset : v.bv_offset < page_size
  pub below : page_address v.bv_page + page_size + v.bv_len < u64_mod

module _ (page_address : ℕ → ℕ) (memory : ℕ → ℕ) (is_write : Bool) (vm_start : ℕ) where
  -- The byte that the user sees at an address.
  abbrev pub user : Mapping → ℕ → ℕ
  user m a = seen page_address memory m (a - vm_start)

  -- The list names the bytes `done`, inside the area, after `n` segments.
  pub record Listed (m : Mapping) (done : List ℕ) (n : ℕ) : Type 0 where
    pub shows : is_write ≡ true → view (user m) m.longs m.list_entry_index ≡ done
    pub inside :
        (i : ℕ)
        → i < m.list_entry_index
        → (vm_start ≤ m.longs (i * 2))
          × (m.longs (i * 2) + m.longs (i * 2 + 1) ≤ vm_start + page_size * m.user_page_num)
    pub aligned :
        m.segment_end_aligned ≡ true
        → (0 < m.list_entry_index)
          × (m.longs (m.list_entry_index * 2 - 2) + m.longs (m.list_entry_index * 2 - 1)
              ≡ vm_start + page_size * m.user_page_num)
    pub first : 0 < m.list_entry_index → m.longs 0 < vm_start + page_size
    pub start : m.list_entry_index ≡ 0 → m.user_page_num ≡ 0
    pub few : m.list_entry_index ≤ n
    pub low : IsLow m
    pub addr : m.user_addr ≡ vm_start + page_size * m.user_page_num
    pub reserves : 2 ≤ m.next_reserved_page_num

  module _ {m m1 m2 : Mapping} (v : BioVec) {done : List ℕ} {n : ℕ} (l : Listed m done n)
      (same : IsSameArea m m1) (mapped : Mapped page_address memory is_write vm_start v m1 m2)
      (few : n < 256) (valid : IsSegment page_address v) where
    kept : (j : ℕ) → j < 514 → m2.longs j ≡ m1.longs j
    kept j h = mapped.0.list_kept j (omega (arith, l.reserves, same.next_num))

    old :
        (y : ℕ)
        → y < page_size * m.user_page_num
        → seen page_address memory m2 y ≡ seen page_address memory m y
    old y h =
        mapped.0.front y (omega (arith, same.page_num))
        ∙ ap
            (λ f. byte_of page_address memory (f (y / page_size)) m1.reserved_pages (y % page_size))
            same.ptes
        ∙ ap (λ r. byte_of page_address memory (m.ptes (y / page_size)) r (y % page_size))
            same.reserved

    old_entry :
        (i j : ℕ)
        → i < m.list_entry_index
        → j < m.longs (i * 2 + 1)
        → user m2 (m.longs (i * 2) + j) ≡ user m (m.longs (i * 2) + j)
    old_entry i j h k = old _ (omega (arith, l.inside i h))

    new_bytes :
        is_write ≡ true
        → bytes_at (user m2) (m.user_addr + v.bv_offset) v.bv_len
          ≡ segment_bytes page_address memory v
    new_bytes w = bytes_at-congr _ _ _ _ _ (λ i h.
        ap (seen page_address memory m2) (omega (arith, l.addr, same.page_num))
        ∙ mapped.0.shown i h w)

    pub new-Listed : IsNew v m m1 → Listed m2 (done ++ segment_bytes page_address memory v) (n + 1)
    new-Listed e =
        let before : (j : ℕ) → j < m.list_entry_index * 2 → m2.longs j ≡ m.longs j =
          λ j h. kept j (omega (arith, l.few)) ∙ e.before j h in
        let address : m2.longs (m.list_entry_index * 2) ≡ m.user_addr + v.bv_offset =
          kept _ (omega (arith, l.few)) ∙ e.address in
        let size : m2.longs (m.list_entry_index * 2 + 1) ≡ v.bv_len =
          kept _ (omega (arith, l.few)) ∙ e.size in
        let index : m2.list_entry_index ≡ suc m.list_entry_index =
          mapped.0.index_kept ∙ e.index ∙ omega arith in
        record {
          shows = λ w.
              ap (view (user m2) m2.longs) index
              ∙ ap
                  (λ s.
                    s
                    ++ bytes_at (user m2) (m2.longs (m.list_entry_index * 2))
                        (m2.longs (m.list_entry_index * 2 + 1)))
                  (view-congr (user m) (user m2) m.longs m2.longs m.list_entry_index before
                      old_entry
                    ∙ l.shows w)
              ∙ ap (λ s. done ++ s)
                  (ap (λ a. bytes_at (user m2) a (m2.longs (m.list_entry_index * 2 + 1))) address
                    ∙ ap (bytes_at (user m2) (m.user_addr + v.bv_offset)) size
                    ∙ new_bytes w);
          inside = λ i h. elim (ltb-cases i m.list_entry_index) [
            | inl (t, p) ↦ omega (
              arith,
              before (i * 2) (omega arith),
              before (i * 2 + 1) (omega arith),
              l.inside i p,
              mapped.0.page_num,
              same.page_num,
            )
            | inr (t, p) ↦ omega (
              arith,
              ap m2.longs {x = i * 2} {y = m.list_entry_index * 2} (omega (arith, index)) ∙ address,
              ap m2.longs {x = i * 2 + 1} {y = m.list_entry_index * 2 + 1} (omega (arith, index))
                  ∙ size,
              mapped.1,
              l.addr,
              same.page_num,
            )
          ];
          aligned = λ t. omega (
            arith,
            index,
            ap m2.longs {x = m2.list_entry_index * 2 - 2} {y = m.list_entry_index * 2}
                  (omega (arith, index))
                ∙ address,
            ap m2.longs {x = m2.list_entry_index * 2 - 1} {y = m.list_entry_index * 2 + 1}
                  (omega (arith, index))
                ∙ size,
            mapped.2 t,
            l.addr,
            same.page_num,
          );
          first = λ h. elim (==-cases m.list_entry_index 0) [
            | inl (t, p) ↦ omega (
              arith,
              ap m2.longs {x = 0} {y = m.list_entry_index * 2} (omega arith) ∙ address,
              l.start p,
              valid.offset,
              l.addr,
              mapped.0.page_num,
            )
            | inr (t, p) ↦ omega (arith, before 0 (omega arith), l.first (omega arith))
          ];
          start = λ h. absurd (omega (arith, index));
          few = omega (arith, index, l.few);
          low = mapped.0.low;
          addr = mapped.0.addr;
          reserves = omega (arith, mapped.0.next_num, same.next_num, l.reserves);
        }

    pub longer-Listed :
        IsLonger v m m1 → Listed m2 (done ++ segment_bytes page_address memory v) (n + 1)
    longer-Listed e =
        let end : (0 < m.list_entry_index)
            × (m.longs (m.list_entry_index * 2 - 2) + m.longs (m.list_entry_index * 2 - 1)
                ≡ vm_start + page_size * m.user_page_num) =
          l.aligned e.aligned in
        let k : ℕ = m.list_entry_index - 1 in
        let last : m.list_entry_index ≡ suc k = omega arith in
        let at : m.longs (m.list_entry_index * 2 - 2) ≡ m.longs (k * 2) =
          ap m.longs (omega arith) in
        let of : m.longs (m.list_entry_index * 2 - 1) ≡ m.longs (k * 2 + 1) =
          ap m.longs (omega arith) in
        let before : (j : ℕ) → j < k * 2 + 1 → m2.longs j ≡ m.longs j =
          λ j h. kept j (omega (arith, l.few)) ∙ e.before j (omega arith) in
        let size : m2.longs (k * 2 + 1) ≡ m.longs (k * 2 + 1) + v.bv_len =
          ap m2.longs (omega arith)
          ∙ kept _ (omega (arith, l.few))
          ∙ e.size
          ∙ ap (λ t. t + v.bv_len) of in
        let index : m2.list_entry_index ≡ suc k = mapped.0.index_kept ∙ e.index ∙ last in
        record {
          shows = λ w.
              ap (view (user m2) m2.longs) index
              ∙ view_longer (user m2) m.longs m2.longs k v.bv_len before size
              ∙ ap (λ s. s ++ bytes_at (user m2) (m.longs (k * 2) + m.longs (k * 2 + 1)) v.bv_len)
                  (view-congr (user m) (user m2) m.longs m.longs (suc k) (λ j h. refl)
                      (λ i j h. old_entry i j (omega arith))
                    ∙ sym (ap (view (user m) m.longs) last)
                    ∙ l.shows w)
              ∙ ap (λ s. done ++ s)
                  (ap (λ a. bytes_at (user m2) a v.bv_len) (omega (arith, e.offset, l.addr))
                    ∙ new_bytes w);
          inside = λ i h. elim (ltb-cases i k) [
            | inl (t, p) ↦ omega (
              arith,
              before (i * 2) (omega arith),
              before (i * 2 + 1) (omega arith),
              l.inside i (omega arith),
              mapped.0.page_num,
              same.page_num,
            )
            | inr (t, p) ↦ omega (
              arith,
              ap m2.longs {x = i * 2} {y = k * 2} (omega (arith, index))
                  ∙ before (k * 2) (omega arith),
              ap m2.longs {x = i * 2 + 1} {y = k * 2 + 1} (omega (arith, index)) ∙ size,
              l.inside k (omega arith),
              mapped.1,
              e.offset,
              same.page_num,
            )
          ];
          aligned = λ t. omega (
            arith,
            index,
            ap m2.longs {x = m2.list_entry_index * 2 - 2} {y = k * 2} (omega (arith, index))
                ∙ before (k * 2) (omega arith),
            ap m2.longs {x = m2.list_entry_index * 2 - 1} {y = k * 2 + 1} (omega (arith, index))
                ∙ size,
            mapped.2 t,
            e.offset,
            same.page_num,
          );
          first = λ h. omega (arith, before 0 (omega arith), l.first (omega arith));
          start = λ h. absurd (omega (arith, index));
          few = omega (arith, mapped.0.index_kept, e.index, l.few);
          low = mapped.0.low;
          addr = mapped.0.addr;
          reserves = omega (arith, mapped.0.next_num, same.next_num, l.reserves);
        }
