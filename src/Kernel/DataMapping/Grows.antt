-- ===== src/Kernel/DataMapping/Grows.antt =====
-- kernel/data_mapping.c: what adding a page does to the user's view of the area.
use bius.Base.{
  ℕ, ◌+◌, ◌-◌, ◌*◌, ◌/◌, ◌%◌, ◌<◌, ◌≤◌, ◌≡◌, Bool, true, arith, refl, subst, sym, ap, ◌∙◌,
  ltb-cases, inl, inr, ==-cases, ==_refl, ◌≢◌,
}
use bius.Kernel.DataMapping.{
  Mapping, Pte, zero_page, data_page, reserved_page, page_size, put, reserve_list,
}

-- The entry maps a frame, or a reserved page in use.
abbrev pub Under : ℕ → Pte → Type 0
Under next zero_page = Unit {0}
Under next (data_page pfn) = Unit {0}
Under next (reserved_page k) = k < next

Under-mono : (k n : ℕ) (p : Pte) → k ≤ n → Under k p → Under n p
Under-mono k n zero_page h u = tt
Under-mono k n (data_page pfn) h u = tt
Under-mono k n (reserved_page j) h u = omega arith

abbrev pub IsLow : Mapping → Type 0
IsLow m = (i : ℕ) → i < m.user_page_num → Under m.next_reserved_page_num (m.ptes i)

pub put_other : {A : Type 0} (f : ℕ → A) (i : ℕ) (v : A) (j : ℕ) → j ≢ i → put f i v j ≡ f j
put_other f i v j h = elim (==-cases j i) [ inl (t, e) ↦ absurd (h e) | inr (t, e) ↦ rw t refl ]

pub put_self : {A : Type 0} (f : ℕ → A) (i : ℕ) (v : A) → put f i v i ≡ v
put_self f i v = rw (==_refl i) refl

module _ (page_address : ℕ → ℕ) (memory : ℕ → ℕ) where
  -- The byte at an offset of the page that an entry maps.
  abbrev pub byte_of : Pte → (ℕ → ℕ → ℕ) → ℕ → ℕ
  byte_of zero_page pages o = 0
  byte_of (data_page pfn) pages o = memory (page_address pfn + o)
  byte_of (reserved_page k) pages o = pages k o

  -- The byte that the user sees at an offset of the area.
  abbrev pub seen : Mapping → ℕ → ℕ
  seen m x = byte_of (m.ptes (x / page_size)) m.reserved_pages (x % page_size)

  module _ (is_write : Bool) (vm_start : ℕ) where
    -- From m to m' the area grew by `pages` pages, `taken` of them reserved: a write shows the `n`
    -- bytes of memory from `a` on at offset x, and what was there before is seen as before.
    pub record Grows (m m' : Mapping) (x a n pages taken : ℕ) : Type 0 where
      pub front : (y : ℕ) → y < page_size * m.user_page_num → seen m' y ≡ seen m y
      pub shown : (i : ℕ) → i < n → is_write ≡ true → seen m' (x + i) ≡ memory (a + i)
      pub low : IsLow m'
      pub behind : (i : ℕ) → m'.user_page_num ≤ i → m'.ptes i ≡ m.ptes i
      pub addr : m'.user_addr ≡ vm_start + page_size * m'.user_page_num
      pub page_num : m'.user_page_num ≡ m.user_page_num + pages
      pub next_num : m'.next_reserved_page_num ≡ m.next_reserved_page_num + taken
      pub list_kept : (j : ℕ) → j < reserve_list + m.next_reserved_page_num → m'.longs j ≡ m.longs j
      pub index_kept : m'.list_entry_index ≡ m.list_entry_index

    byte_of_same :
        (p : Pte) (next : ℕ) (f g : ℕ → ℕ → ℕ) (o : ℕ)
        → Under next p
        → ((k : ℕ) → k < next → g k o ≡ f k o)
        → byte_of p g o ≡ byte_of p f o
    byte_of_same zero_page next f g o u h = refl
    byte_of_same (data_page pfn) next f g o u h = refl
    byte_of_same (reserved_page k) next f g o u h = h k u

    -- The next page maps `p`, after the reserved pages from `next_reserved_page_num` on changed.
    pub page-Grows :
        (p : Pte) (m m' : Mapping) (x a n taken : ℕ)
        → IsLow m
        → m'.user_page_num ≡ m.user_page_num + 1
        → m'.next_reserved_page_num ≡ m.next_reserved_page_num + taken
        → m'.ptes ≡ put m.ptes m.user_page_num p
        → ((k o : ℕ) → k < m.next_reserved_page_num → m'.reserved_pages k o ≡ m.reserved_pages k o)
        → ((j : ℕ) → j < reserve_list + m.next_reserved_page_num → m'.longs j ≡ m.longs j)
        → m'.list_entry_index ≡ m.list_entry_index
        → m'.user_addr ≡ vm_start + page_size * m'.user_page_num
        → Under m'.next_reserved_page_num p
        → page_size * m.user_page_num ≤ x
        → x + n ≤ page_size * (m.user_page_num + 1)
        → ((i : ℕ)
            → i < n
            → is_write ≡ true
            → byte_of p m'.reserved_pages ((x + i) % page_size) ≡ memory (a + i))
        → Grows m m' x a n 1 taken
    page-Grows p m m' x a n taken low un nn pt rp lk ik ad up lo hi sh = record {
      front = λ y h.
          let e : m'.ptes (y / page_size) ≡ m.ptes (y / page_size) =
            ap (λ f. f (y / page_size)) pt
            ∙ put_other m.ptes m.user_page_num p (y / page_size) (λ q. omega arith) in
          ap (λ q. byte_of q m'.reserved_pages (y % page_size)) e
          ∙ byte_of_same (m.ptes (y / page_size)) m.next_reserved_page_num m.reserved_pages
              m'.reserved_pages (y % page_size) (low (y / page_size) (omega arith))
              (λ k h. rp k _ h);
      shown = λ i h w.
          let q : (x + i) / page_size ≡ m.user_page_num = omega arith in
          let e : m'.ptes ((x + i) / page_size) ≡ p =
            ap m'.ptes q ∙ ap (λ f. f m.user_page_num) pt ∙ put_self m.ptes m.user_page_num p in
          ap (λ q. byte_of q m'.reserved_pages ((x + i) % page_size)) e ∙ sh i h w;
      low = λ i h. elim (==-cases i m.user_page_num) [
        | inl (t, e) ↦
            subst (Under m'.next_reserved_page_num)
              (sym
                (ap m'.ptes e ∙ ap (λ f. f m.user_page_num) pt ∙ put_self m.ptes m.user_page_num p))
              up
        | inr (t, e) ↦
            subst (Under m'.next_reserved_page_num)
              (sym (ap (λ f. f i) pt ∙ put_other m.ptes m.user_page_num p i e))
              (Under-mono m.next_reserved_page_num _ (m.ptes i) (omega arith) (low i (omega arith)))
      ];
      behind = λ i h. ap (λ f. f i) pt ∙ put_other m.ptes m.user_page_num p i (λ q. omega arith);
      addr = ad;
      page_num = un;
      next_num = nn;
      list_kept = lk;
      index_kept = ik;
    }

    -- Two pieces that follow each other are one.
    pub Grows-trans :
        {m m1 m2 : Mapping} {x y a b n k c d s t : ℕ}
        → Grows m m1 x a n c s
        → Grows m1 m2 y b k d t
        → y ≡ x + n
        → b ≡ a + n
        → x + n ≤ page_size * m1.user_page_num
        → Grows m m2 x a (n + k) (c + d) (s + t)
    Grows-trans {m} {m1} {m2} {x} {y} {a} {b} {n} {k} g h ey eb le = record {
      front = λ z lt. h.front z (omega (arith, g.page_num)) ∙ g.front z lt;
      shown = λ i lt w. elim (ltb-cases i n) [
        | inl (t, l) ↦ h.front (x + i) (omega arith) ∙ g.shown i l w
        | inr (t, l) ↦
            ap (seen m2) (omega arith) ∙ h.shown (i - n) (omega arith) w ∙ ap memory (omega arith)
      ];
      low = h.low;
      behind = λ i lt. h.behind i lt ∙ g.behind i (omega (arith, h.page_num));
      addr = h.addr;
      page_num = omega (arith, g.page_num, h.page_num);
      next_num = omega (arith, g.next_num, h.next_num);
      list_kept = λ j lt. h.list_kept j (omega (arith, g.next_num)) ∙ g.list_kept j lt;
      index_kept = h.index_kept ∙ g.index_kept;
    }

    -- Nothing added.
    pub Grows-refl :
        (m : Mapping) (x a : ℕ)
        → IsLow m
        → m.user_addr ≡ vm_start + page_size * m.user_page_num
        → Grows m m x a 0 0 0
    Grows-refl m x a low ad = record {
      front = λ y h. refl;
      shown = λ i h w. absurd (omega arith);
      low = low;
      behind = λ i h. refl;
      addr = ad;
      page_num = omega arith;
      next_num = omega arith;
      list_kept = λ j h. refl;
      index_kept = refl;
    }

    -- The same, with the numbers written otherwise and another mark of alignment.
    pub Grows-at :
        {m m' : Mapping} {x y a b n k c d s t : ℕ} (aligned : Bool)
        → y ≡ x
        → b ≡ a
        → k ≤ n
        → d ≡ c
        → t ≡ s
        → Grows m m' x a n c s
        → Grows m (record m' { segment_end_aligned = aligned }) y b k d t
    Grows-at {m} {m'} aligned yx ba kn dc ts g = record {
      front = g.front;
      shown =
          λ i h w. ap (seen m') (omega arith) ∙ g.shown i (omega arith) w ∙ ap memory (omega arith);
      low = g.low;
      behind = g.behind;
      addr = g.addr;
      page_num = omega (arith, g.page_num);
      next_num = omega (arith, g.next_num);
      list_kept = g.list_kept;
      index_kept = g.index_kept;
    }
