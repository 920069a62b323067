-- ===== src/Kernel/DataMapping/Writes.antt =====
-- kernel/data_mapping.c: `bius_map_data` on a write.
use bius.Base.{ℕ, ◌≤◌, ◌*◌, ◌≡◌, true, List, refl, Ensures, Ensures-mono, length}
use bius.Kernel.{BlkBody}
use bius.RequestType.{unmapped}
use bius.Kernel.DataMapping.{Window, BioVec, map_data, page_size, ptes_per_command}
use bius.Kernel.DataMapping.Views.{bytes_of}
use bius.Kernel.DataMapping.Shows.{IsMappable, IsMapping, ShowsBy, map_data-IsMapping}

-- The mapping takes whole pages from the start of the area on, and leaves the entries behind them.
pub record Occupies {Bio : Type 0} (w : Window) (r : BlkBody Bio) (w' : Window) : Type 0 where
  pub same_start : w'.vm_start ≡ w.vm_start
  pub pages : ℕ
  pub size : r.mapped_size ≡ page_size * pages
  pub within : pages ≤ ptes_per_command
  pub behind : (i : ℕ) → pages ≤ i → w'.ptes i ≡ w.ptes i

-- On a write that is not mapped yet and whose segments fit, bius_map_data returns. It maps whole
-- pages and leaves the entries behind them, and the user reads the bytes of the segments, in order:
-- from the offset it is told where the mapping is simple, by the entries of the list, where it is a
-- list, which are at most as many as the segments and end with a zero address, and whose page the area
-- shows from the start of one of its pages on; only a write of no bytes stays unmapped.
pub map_data-ShowsBy :
    {Bio : Type 0} (page_address : ℕ → ℕ) (memory : ℕ → ℕ) (segments : List BioVec)
    (r : BlkBody Bio) (w : Window)
    → r.map_type ≡ unmapped
    → IsMappable page_address segments w
    → Ensures
        (λ q.
          Occupies w q.0 q.1
          × ShowsBy page_address memory
              (length segments)
              q.0.map_type
              q.0.map_data
              q.1
              (bytes_of page_address memory segments))
        (map_data page_address memory true segments r w)
map_data-ShowsBy {Bio} page_address memory segments r w free f =
    Ensures-mono _ _ _
      (λ (q : BlkBody Bio × Window)
          (m : IsMapping page_address memory true w (bytes_of page_address memory segments)
            (length segments) q.0 q.1).
        (
          record {
            same_start = m.same_start;
            pages = m.pages;
            size = m.size;
            within = m.within;
            behind = m.behind;
          },
          m.shows refl,
        ))
      (map_data-IsMapping page_address memory true segments r w free f)
