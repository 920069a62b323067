-- ===== src/Kernel/DataMapping/Parts.antt =====
-- kernel/data_mapping.c: what mapping a part of a segment achieves, and how parts join.
use bius.Base.{ℕ, suc, ◌+◌, ◌-◌, ◌*◌, ◌/◌, ◌%◌, ◌≤◌, ◌≡◌, Bool, true, arith, refl}
use bius.Kernel.DataMapping.{Mapping, page_size, ptes_per_command, num_reserved_pages}
use bius.Kernel.DataMapping.Grows.{Grows, IsLow, Grows-trans, Grows-at}

-- The pages that `n` bytes take.
abbrev pub pages_for : ℕ → ℕ
pages_for n = (n + (page_size - 1)) / page_size

module _ (page_address : ℕ → ℕ) (memory : ℕ → ℕ) (is_write : Bool) (vm_start : ℕ) where
  abbrev pub Grown : Mapping → ℕ → ℕ → ℕ → ℕ → ℕ → Mapping → Type 0
  Grown m x a n pages taken m' = Grows page_address memory is_write vm_start m m' x a n pages taken

  -- The area is in order, with room for `pages` pages more, `taken` of them reserved.
  pub record HasRoom (m : Mapping) (pages taken : ℕ) : Type 0 where
    pub low : IsLow m
    pub addr : m.user_addr ≡ vm_start + page_size * m.user_page_num
    pub room : m.user_page_num + pages ≤ ptes_per_command
    pub spare : m.next_reserved_page_num + taken ≤ num_reserved_pages

  pub HasRoom-Grows :
      {m m' : Mapping} {x a n pages taken more others : ℕ}
      → HasRoom m (pages + more) (taken + others)
      → Grown m x a n pages taken m'
      → HasRoom m' more others
  HasRoom-Grows r g = record {
    low = g.low;
    addr = g.addr;
    room = omega (arith, r.room, g.page_num);
    spare = omega (arith, r.spare, g.next_num);
  }

  pub HasRoom-le :
      {m : Mapping} {pages taken more others : ℕ}
      → more ≤ pages
      → others ≤ taken
      → HasRoom m pages taken
      → HasRoom m more others
  HasRoom-le h k r = record {
    low = r.low;
    addr = r.addr;
    room = omega (arith, r.room);
    spare = omega (arith, r.spare);
  }

  -- The loop over whole pages maps them, and leaves the address behind them and the rest.
  abbrev pub WholePages : Mapping → ℕ → ℕ → ℕ → ℕ × ℕ × Mapping → Type 0
  WholePages m a whole rest r =
      Grown m (page_size * m.user_page_num) a (page_size * whole) whole 0 r.2
      × (r.0 ≡ a + page_size * whole)
      × (r.1 ≡ rest)

  pub WholePages-suc :
      (m m1 : Mapping) (a b whole rest : ℕ) (r : ℕ × ℕ × Mapping)
      → b ≡ a + page_size
      → Grown m (page_size * m.user_page_num) a page_size 1 0 m1
      → WholePages m1 b whole rest r
      → WholePages m a (suc whole) rest r
  WholePages-suc m m1 a b whole rest r e g (h, k, l) = (
    Grows-at page_address memory is_write vm_start _ refl refl (omega arith) (omega arith)
        (omega arith)
        (Grows-trans page_address memory is_write vm_start g h (omega (arith, g.page_num)) e
          (omega (arith, g.page_num))),
    omega arith,
    l,
  )

  -- A segment's part from x on: where the last page is full, the part ends with it.
  abbrev pub Part : Mapping → ℕ → ℕ → ℕ → ℕ → ℕ → Mapping → Type 0
  Part m x a n pages taken m' =
      Grown m x a n pages taken m'
      × (x + n ≤ page_size * m'.user_page_num)
      × (m'.segment_end_aligned ≡ true → x + n ≡ page_size * m'.user_page_num)

  pub Part-tail :
      (m m1 m2 : Mapping) (a b n k : ℕ)
      → WholePages m a (n / page_size) (n % page_size) (b, k, m1)
      → Part m1 (page_size * m1.user_page_num) b k (pages_for k) (pages_for k) m2
      → Part m (page_size * m.user_page_num) a n (pages_for n) (pages_for (n % page_size)) m2
  Part-tail m m1 m2 a b n k (g, h, e) (t, u, v) = (
    Grows-at page_address memory is_write vm_start _ refl refl (omega arith) (omega arith)
        (omega arith)
        (Grows-trans page_address memory is_write vm_start g t (omega (arith, g.page_num)) h
          (omega (arith, g.page_num))),
    omega (arith, g.page_num),
    λ w. omega (arith, g.page_num, v w),
  )
