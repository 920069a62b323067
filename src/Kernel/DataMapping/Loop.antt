-- ===== src/Kernel/DataMapping/Loop.antt =====
-- kernel/data_mapping.c: the loop of `bius_map_data` over the segments.
use bius.Base.{
  ℕ, ◌+◌, ◌*◌, ◌<◌, ◌≤◌, ◌≡◌, Bool, List, [], ◌∷◌, ◌++◌, arith, refl, sym, ap, ◌∙◌, subst, u64_mod,
  Ensures, Ensures-mono, Ensures-bind, inl, inr, length, sum_of, append_assoc, append-nil,
}
use bius.Kernel.DataMapping.{
  Mapping, BioVec, page_size, ptes_per_command, map_segment, map_segments, add_entry,
}
use bius.Kernel.DataMapping.Grows.{Under}
use bius.Kernel.DataMapping.Parts.{HasRoom, HasRoom-le}
use bius.Kernel.DataMapping.Pages.{IsLinear}
use bius.Kernel.DataMapping.Segment.{Mapped, pages_of, reserved_of, map_pages_of-Mapped}
use bius.Kernel.DataMapping.Views.{segment_bytes, bytes_of}
use bius.Kernel.DataMapping.Entries.{IsSameArea, Entered, add_entry-Entered}
use bius.Kernel.DataMapping.Listing.{IsSegment, Listed, new-Listed, longer-Listed}

abbrev pub AreSegments : (ℕ → ℕ) → List BioVec → Type 0
AreSegments page_address [] = Unit {0}
AreSegments page_address (v ∷ vs) = IsSegment page_address v × AreSegments page_address vs

-- How far the area reaches: the pages and the reserved pages that were taken.
pub record Reaches (m m' : Mapping) (pages taken : ℕ) : Type 0 where
  pub page_num : m'.user_page_num ≡ m.user_page_num + pages
  pub next_num : m'.next_reserved_page_num ≡ m.next_reserved_page_num + taken
  pub behind : (i : ℕ) → m'.user_page_num ≤ i → m'.ptes i ≡ m.ptes i

module _ (page_address : ℕ → ℕ) (memory : ℕ → ℕ) (is_write : Bool) (vm_start : ℕ)
    (small : vm_start + page_size * (ptes_per_command + 1) < u64_mod)
    (linear : IsLinear page_address) where
  abbrev pub ListedBy : Mapping → ℕ → ℕ → List ℕ → ℕ → Mapping → Type 0
  ListedBy m pages taken done n m' =
      Listed page_address memory is_write vm_start m' done n × Reaches m m' pages taken

  room-Entered :
      (m m1 : Mapping) (pages taken : ℕ)
      → IsSameArea m m1
      → HasRoom page_address memory is_write vm_start m pages taken
      → HasRoom page_address memory is_write vm_start m1 pages taken
  room-Entered m m1 pages taken same r = record {
    low = λ i h.
        subst (λ f. Under m1.next_reserved_page_num (f i)) (sym same.ptes)
          (subst (λ k. Under k (m.ptes i)) (sym same.next_num)
            (r.low i (omega (arith, same.page_num))));
    addr = omega (arith, r.addr, same.addr, same.page_num);
    room = omega (arith, r.room, same.page_num);
    spare = omega (arith, r.spare, same.next_num);
  }

  Entered-Listed :
      (v : BioVec) (m m1 m2 : Mapping) (done : List ℕ) (n : ℕ)
      → Listed page_address memory is_write vm_start m done n
      → n < 256
      → IsSegment page_address v
      → Entered v m m1
      → Mapped page_address memory is_write vm_start v m1 m2
      → ListedBy m
          (pages_of v)
          (reserved_of v)
          (done ++ segment_bytes page_address memory v)
          (n + 1)
          m2
  Entered-Listed v m m1 m2 done n l few valid (same, how) mapped = (
    elim how [
      | inl new ↦ new-Listed page_address memory is_write vm_start v l same mapped few valid new
      | inr longer ↦
          longer-Listed page_address memory is_write vm_start v l same mapped few valid longer
    ],
    record {
      page_num = omega (arith, mapped.0.page_num, same.page_num);
      next_num = omega (arith, mapped.0.next_num, same.next_num);
      behind = λ i h. mapped.0.behind i h ∙ ap (λ f. f i) same.ptes;
    },
  )

  map_segment-Listed :
      (v : BioVec) (m : Mapping) (done : List ℕ) (n : ℕ)
      → Listed page_address memory is_write vm_start m done n
      → n < 256
      → IsSegment page_address v
      → HasRoom page_address memory is_write vm_start m (pages_of v) (reserved_of v)
      → Ensures
          (ListedBy m
            (pages_of v)
            (reserved_of v)
            (done ++ segment_bytes page_address memory v)
            (n + 1))
          (map_segment page_address memory is_write v m)
  unfolding map_segment
  map_segment-Listed v m done n l few valid r = Ensures-bind _ (add_entry v m) _ (
      Ensures-mono _ _ _
        (λ m1 e.
          Ensures-mono _ _ _ (λ m2 g. Entered-Listed v m m1 m2 done n l few valid e g)
            (map_pages_of-Mapped page_address memory is_write vm_start small linear v m1
              valid.offset valid.below (room-Entered m m1 _ _ e.0 r)))
        (add_entry-Entered v m (omega (arith, l.few)) (omega (arith, l.addr, r.room, valid.offset))
          (omega (arith, valid.below))
          (λ t. ((l.aligned t).0, omega (arith, (l.aligned t).1, r.room)))))

  ListedBy-cons :
      (v : BioVec) (vs : List BioVec) (m m1 m2 : Mapping) (done : List ℕ) (n : ℕ)
      → ListedBy m
          (pages_of v)
          (reserved_of v)
          (done ++ segment_bytes page_address memory v)
          (n + 1)
          m1
      → ListedBy m1
          (sum_of pages_of vs)
          (sum_of reserved_of vs)
          ((done ++ segment_bytes page_address memory v) ++ bytes_of page_address memory vs)
          (n + 1 + length vs)
          m2
      → ListedBy m
          (sum_of pages_of (v ∷ vs))
          (sum_of reserved_of (v ∷ vs))
          (done ++ bytes_of page_address memory (v ∷ vs))
          (n + length (v ∷ vs))
          m2
  ListedBy-cons v vs m m1 m2 done n (l, g) (k, h) = (
    subst (λ d. Listed page_address memory is_write vm_start m2 d (n + length (v ∷ vs)))
        (append_assoc done _ _)
        (subst (Listed page_address memory is_write vm_start m2 _) (omega arith) k),
    record {
      page_num = omega (arith, g.page_num, h.page_num);
      next_num = omega (arith, g.next_num, h.next_num);
      behind = λ i q. h.behind i q ∙ g.behind i (omega (arith, h.page_num));
    },
  )

  -- The loop maps all segments, and the list names their bytes.
  pub map_segments-Listed :
      (vs : List BioVec) (m : Mapping) (done : List ℕ) (n : ℕ)
      → Listed page_address memory is_write vm_start m done n
      → n + length vs ≤ 256
      → AreSegments page_address vs
      → HasRoom page_address memory is_write vm_start m (sum_of pages_of vs) (sum_of reserved_of vs)
      → Ensures
          (ListedBy m
            (sum_of pages_of vs)
            (sum_of reserved_of vs)
            (done ++ bytes_of page_address memory vs)
            (n + length vs))
          (map_segments page_address memory is_write vs m)
  unfolding map_segments
  map_segments-Listed [] m done n l few valid r = (
    subst (λ d. Listed page_address memory is_write vm_start m d (n + 0)) (sym (append-nil done))
        (subst (Listed page_address memory is_write vm_start m done) (omega arith) l),
    record { page_num = omega arith; next_num = omega arith; behind = λ i h. refl },
  )
  map_segments-Listed (v ∷ vs) m done n l few (valid, rest) r =
      Ensures-bind _ (map_segment page_address memory is_write v m) _ (
        Ensures-mono _ _ _
          (λ m1 g.
            Ensures-mono _ _ _ (λ m2 h. ListedBy-cons v vs m m1 m2 done n g h)
              (map_segments-Listed vs m1 _ (n + 1) g.0 (omega arith) rest (record {
                low = g.0.low;
                addr = g.0.addr;
                room = omega (arith, g.1.page_num, r.room);
                spare = omega (arith, g.1.next_num, r.spare);
              })))
          (map_segment-Listed v m done n l (omega arith) valid
            (HasRoom-le page_address memory is_write vm_start (omega arith) (omega arith) r)))
