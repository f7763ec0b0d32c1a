-- ===== src/Log/Header.antt =====
-- The header block of the log: what `write_head` stores, `read_head` loads.
use tatak_os.Base.{ℕ, ◌+◌, ◌≤◌, ◌≡◌, refl, ap₂, ◌∙◌, List, [], ◌∷◌, arith, length}
use tatak_os.Disk.{Block, update, update_self, update_ne}
use tatak_os.Log.{store_entries, load_entries, header, entries}

-- Storing entries from `i` on leaves the words up to `i` alone.
store_entries_below :
    (x : Block) (i : ℕ) (bs : List ℕ) (j : ℕ) → j ≤ i → store_entries x i bs j ≡ x j
unfolding store_entries
store_entries_below x i [] j h = refl
store_entries_below x i (b ∷ bs) j h =
    store_entries_below (update x (i + 1) b) (i + 1) bs j (omega arith)
    ∙ update_ne x (i + 1) j b (omega arith)

load-store_entries :
    (x : Block) (i : ℕ) (bs : List ℕ) → load_entries (store_entries x i bs) i (length bs) ≡ bs
unfolding store_entries load_entries
load-store_entries x i [] = refl
load-store_entries x i (b ∷ bs) =
    ap₂ ◌∷◌
      (store_entries_below (update x (i + 1) b) (i + 1) bs (i + 1) (omega arith)
        ∙ update_self x (i + 1) b)
      (load-store_entries (update x (i + 1) b) (i + 1) bs)

header_count : (x : Block) (bs : List ℕ) → header x bs 0 ≡ length bs
unfolding header
header_count x bs =
    store_entries_below (update x 0 (length bs)) 0 bs 0 (omega arith) ∙ update_self x 0 (length bs)

load_header : (x : Block) (bs : List ℕ) → load_entries (header x bs) 0 (length bs) ≡ bs
unfolding header
load_header x bs = load-store_entries (update x 0 (length bs)) 0 bs

-- Whatever the block held before, the header written for `bs` reads back as `bs`.
pub entries-header : (x : Block) (bs : List ℕ) → entries (header x bs) ≡ bs
unfolding entries
entries-header x bs = rw (header_count x bs) (load_header x bs)

pub entries_empty : (x : Block) → x 0 ≡ 0 → entries x ≡ []
unfolding entries load_entries
entries_empty x h = rw h
