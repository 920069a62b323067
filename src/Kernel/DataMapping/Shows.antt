-- ===== src/Kernel/DataMapping/Shows.antt =====
-- kernel/data_mapping.c: what the user reads through the mapping that `bius_map_data` hands over.
use bius.Base.{
  bytes_at, length-bytes_at, ℕ, ◌+◌, ◌-◌, ◌*◌, ◌/◌, ◌%◌, ◌<◌, ◌≤◌, ◌≡◌, Bool, true, List, [], arith,
  refl, sym, ap, ◌∙◌, u64, u64_mod, Ensures, Ensures-mono, Ensures-bind, inl, inr, length, sum_of,
  if◌then◌else◌, ltb-cases, ==-cases, lt→ltb, some, ◌>>=◌, ◌≢◌, subst,
}
use bius.Kernel.{BlkBody}
use bius.Kernel.CharDev.{is_unmapped}
use bius.RequestType.{MapType, unmapped, simple, list}
use bius.Kernel.DataMapping.{
  Mapping, Window, reserved_page, BioVec, Handed, page_size, ptes_per_command, num_reserved_pages,
  num_longs, put, map_segments, hand_over, set_next_pte, end_list, start_mapping, map_data,
  handed_to,
}
use bius.Kernel.DataMapping.Grows.{byte_of, put_other, put_self}
use bius.Kernel.DataMapping.Pages.{IsLinear}
use bius.Kernel.DataMapping.Segment.{pages_of, reserved_of}
use bius.Kernel.DataMapping.Views.{view, bytes_of, view-congr}
use bius.Kernel.DataMapping.Listing.{Listed}
use bius.Kernel.DataMapping.Loop.{AreSegments, Reaches, map_segments-Listed}

-- The segments start in their pages, are at most 256, and find entries for their pages and one page
-- more, and reserved pages for their parts of pages; the area starts with a page, below the end of
-- the address space.
pub record IsMappable (page_address : ℕ → ℕ) (segments : List BioVec) (w : Window) : Type 0 where
  pub linear : IsLinear page_address
  pub valid : AreSegments page_address segments
  pub few : length segments ≤ 256
  pub pages : sum_of pages_of segments + 1 ≤ ptes_per_command
  pub taken : sum_of reserved_of segments + 2 ≤ num_reserved_pages
  pub aligned : w.vm_start % page_size ≡ 0
  pub positive : 0 < w.vm_start
  pub small : w.vm_start + page_size * (ptes_per_command + 1) < u64_mod

module _ (page_address : ℕ → ℕ) (memory : ℕ → ℕ) where
  -- The byte that the user sees at an address of the area.
  abbrev pub user_byte : Window → ℕ → ℕ
  user_byte w a =
      byte_of page_address memory (w.ptes ((a - w.vm_start) / page_size)) w.reserved_pages
        ((a - w.vm_start) % page_size)

  -- The entries before the first zero address, `most` at most, name the bytes.
  pub record ListShows (w : Window) (bytes : List ℕ) (most n : ℕ) : Type 0 where
    pub addresses : (i : ℕ) → i < n → 0 < w.longs (i * 2)
    pub ends : w.longs (n * 2) ≡ 0
    pub few : n ≤ most
    pub shows : view (user_byte w) w.longs n ≡ bytes

  -- What `map_data` is for each type: nothing, the offset of the bytes, or the place of the list, a
  -- page of the area that shows the first reserved page.
  abbrev pub ShowsBy : ℕ → MapType → ℕ → Window → List ℕ → Type 0
  ShowsBy most unmapped d w bytes = bytes ≡ []
  ShowsBy most simple d w bytes =
      (d < page_size) × (bytes_at (user_byte w) (w.vm_start + d) (length bytes) ≡ bytes)
  ShowsBy most list d w bytes =
      (d ≡ w.vm_start + page_size * ((d - w.vm_start) / page_size))
      × (w.ptes ((d - w.vm_start) / page_size) ≡ reserved_page 0)
      × ((n : ℕ) × ListShows w bytes most n)

  -- A mapping of `bytes` in the area that `w` was before: whole pages, behind which nothing changed.
  pub record IsMapping {Bio : Type 0} (is_write : Bool) (w : Window) (bytes : List ℕ) (most : ℕ)
      (r : BlkBody Bio) (w' : Window) : Type 0 where
    pub same_start : w'.vm_start ≡ w.vm_start
    pub shows : is_write ≡ true → ShowsBy most r.map_type r.map_data w' bytes
    pub pages : ℕ
    pub size : r.mapped_size ≡ page_size * pages
    pub within : pages ≤ ptes_per_command
    pub behind : (i : ℕ) → pages ≤ i → w'.ptes i ≡ w.ptes i
    pub none_left : r.map_type ≡ unmapped → pages ≡ 0

  module _ {Bio : Type 0} (is_write : Bool) (r : BlkBody Bio) (w : Window) (bytes : List ℕ)
      (n pages taken : ℕ) (small : w.vm_start + page_size * (ptes_per_command + 1) < u64_mod)
      (aligned : w.vm_start % page_size ≡ 0) (positive : 0 < w.vm_start) (m : Mapping)
      (l : Listed page_address memory is_write w.vm_start m bytes n)
      (reach : Reaches (start_mapping w) m pages taken) (room : pages + 1 ≤ ptes_per_command)
      (few : n ≤ 256) where
    abbrev HandedOver : Handed → Type 0
    HandedOver h = IsMapping is_write w bytes n (handed_to r w h).0 (handed_to r w h).1

    over_unmapped :
        m.list_entry_index ≡ 0
        → HandedOver (record { map_type = unmapped; map_data = r.map_data; mapping = m })
    over_unmapped e = record {
      same_start = refl;
      shows = λ t. sym (l.shows t) ∙ ap (view _ m.longs) e;
      pages = pages;
      size = omega (arith, reach.page_num, l.addr);
      within = omega arith;
      behind = λ i h. reach.behind i (omega (arith, reach.page_num));
      none_left = λ t. omega (arith, l.start e, reach.page_num);
    }

    over_simple :
        m.list_entry_index ≡ 1
        → HandedOver (record { map_type = simple; map_data = m.longs 0 % page_size; mapping = m })
    over_simple e = record {
      same_start = refl;
      shows = λ t.
          let whole : bytes_at (user_byte w') (m.longs 0) (m.longs 1) ≡ bytes =
            sym (ap (view (user_byte w') m.longs) e) ∙ l.shows t in
          let size : length bytes ≡ m.longs 1 =
            sym (ap length whole) ∙ length-bytes_at (user_byte w') (m.longs 0) (m.longs 1) in
          let place : w.vm_start + m.longs 0 % page_size ≡ m.longs 0 =
            omega (arith, l.first (omega arith), l.inside 0 (omega arith)) in
          (
            omega arith,
            ap (λ a. bytes_at (user_byte w') a (length bytes)) place
                ∙ ap (bytes_at (user_byte w') (m.longs 0)) size
                ∙ whole,
          );
      pages = pages;
      size = omega (arith, reach.page_num, l.addr);
      within = omega arith;
      behind = λ i h. reach.behind i (omega (arith, reach.page_num));
      none_left = λ t. absurd (cc);
    }
      where
        w' : Window
        w' =
            (handed_to r w
              (record { map_type = simple; map_data = m.longs 0 % page_size; mapping = m })).1

    -- The state with the page of the list.
    abbrev with_list : Mapping
    with_list = record m {
      ptes = put m.ptes m.user_page_num (reserved_page 0);
      user_addr = u64 (m.user_addr + page_size);
      user_page_num = m.user_page_num + 1;
      longs = put (put m.longs (m.list_entry_index * 2 + 1) 0) (m.list_entry_index * 2) 0;
    }

    entry_kept : (j : ℕ) → j < m.list_entry_index * 2 → with_list.longs j ≡ m.longs j
    entry_kept j h =
        put_other (put m.longs (m.list_entry_index * 2 + 1) 0) (m.list_entry_index * 2) 0 j
          (λ q. omega arith)
        ∙ put_other m.longs (m.list_entry_index * 2 + 1) 0 j (λ q. omega arith)

    page_kept : (i : ℕ) → i ≢ m.user_page_num → with_list.ptes i ≡ m.ptes i
    page_kept i h = put_other m.ptes m.user_page_num (reserved_page 0) i h

    over_list : HandedOver (record { map_type = list; map_data = m.user_addr; mapping = with_list })
    over_list = record {
      same_start = refl;
      shows = λ t. (
        omega (arith, l.addr),
        ap with_list.ptes (omega (arith, l.addr))
            ∙ put_self m.ptes m.user_page_num (reserved_page 0),
        (
          m.list_entry_index,
          record {
            addresses = λ i h. omega (arith, entry_kept (i * 2) (omega arith), l.inside i h);
            ends = put_self (put m.longs (m.list_entry_index * 2 + 1) 0) (m.list_entry_index * 2) 0;
            few = omega (arith, l.few);
            shows =
                view-congr (user_byte w1) (user_byte w2) m.longs with_list.longs m.list_entry_index
                  entry_kept
                  (λ i j h k.
                    ap
                      (λ p.
                        byte_of page_address memory p m.reserved_pages
                          ((m.longs (i * 2) + j - w.vm_start) % page_size))
                      (page_kept ((m.longs (i * 2) + j - w.vm_start) / page_size)
                        (λ q. omega (arith, l.inside i h))))
                ∙ l.shows t;
          },
        ),
      );
      pages = pages + 1;
      size = omega (arith, reach.page_num, l.addr);
      within = room;
      behind = λ i h.
          page_kept i (λ q. omega (arith, reach.page_num))
          ∙ reach.behind i (omega (arith, reach.page_num));
      none_left = λ t. absurd (cc);
    }
      where
        w1 : Window
        w1 = record w { ptes = m.ptes; longs = m.longs; reserved_pages = m.reserved_pages }

        w2 : Window
        w2 = record w {
          ptes = with_list.ptes;
          longs = with_list.longs;
          reserved_pages = m.reserved_pages;
        }

    hand_over-HandedOver : Ensures HandedOver (hand_over r.map_data m)
    unfolding hand_over set_next_pte end_list
    hand_over-HandedOver = elim (ltb-cases 1 m.list_entry_index) [
      | inl (t, h) ↦
          rw
            (
              t,
              lt→ltb m.user_page_num ptes_per_command (omega (arith, reach.page_num)),
              lt→ltb (m.list_entry_index * 2 + 1) num_longs (omega (arith, l.few)),
            )
            over_list
      | inr (t, h) ↦ elim (==-cases m.list_entry_index 1) [
        | inl (s, e) ↦ rw (t, s) (over_simple e)
        | inr (s, e) ↦ rw (t, s) (over_unmapped (omega arith))
      ]
    ]

  start-Listed :
      (is_write : Bool) (w : Window)
      → Listed page_address memory is_write w.vm_start (start_mapping w) [] 0
  start-Listed is_write w = record {
    shows = λ t. refl;
    inside = λ i h. absurd (omega arith);
    aligned = λ t. absurd (cc);
    first = λ h. absurd (omega arith);
    start = λ h. refl;
    few = omega arith;
    low = λ i h. absurd (omega arith);
    addr = omega arith;
    reserves = omega arith;
  }

  -- The mapping of a request that is not mapped yet and whose segments fit.
  pub map_data-IsMapping :
      {Bio : Type 0} (is_write : Bool) (segments : List BioVec) (r : BlkBody Bio) (w : Window)
      → r.map_type ≡ unmapped
      → IsMappable page_address segments w
      → Ensures
          (λ q.
            IsMapping is_write w (bytes_of page_address memory segments) (length segments) q.0 q.1)
          (map_data page_address memory is_write segments r w)
  unfolding map_data
  map_data-IsMapping is_write segments r w free f =
      subst
        (λ t.
          Ensures
            (λ q.
              IsMapping is_write w (bytes_of page_address memory segments) (length segments) q.0
                q.1)
            (if is_unmapped t
              then (map_segments page_address memory is_write segments (start_mapping w)
                  >>= hand_over r.map_data
                  >>= λ h. some (handed_to r w h))
              else some (r, w)))
        (sym free)
        (Ensures-bind _
          (map_segments page_address memory is_write segments (start_mapping w)
            >>= hand_over r.map_data)
          _
          (Ensures-bind _ (map_segments page_address memory is_write segments (start_mapping w))
            (hand_over r.map_data)
            (Ensures-mono _ _ _
              (λ (m : Mapping)
                  (g : Listed page_address memory is_write w.vm_start m
                      (bytes_of page_address memory segments) (0 + length segments)
                    × Reaches (start_mapping w) m (sum_of pages_of segments)
                        (sum_of reserved_of segments)).
                hand_over-HandedOver is_write r w _ _ _ _ f.small f.aligned f.positive m
                  (subst
                    (Listed page_address memory is_write w.vm_start m
                      (bytes_of page_address memory segments))
                    (omega arith) g.0)
                  g.1 f.pages f.few)
              (map_segments-Listed page_address memory is_write w.vm_start f.small f.linear segments
                (start_mapping w) [] 0 (start-Listed is_write w) (omega (arith, f.few)) f.valid
                (record {
                  low = λ i h. absurd (omega arith);
                  addr = omega arith;
                  room = omega (arith, f.pages);
                  spare = omega (arith, f.taken);
                })))))
