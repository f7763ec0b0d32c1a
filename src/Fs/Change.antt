-- ===== src/Fs/Change.antt =====
-- kernel/fs/fs.c: a change of a block of the file changes those bytes of the file.
use tatak_os.Base.{
  ℕ, zero, suc, ◌*◌, ◌/◌, ◌%◌, ◌≡◌, ◌≢◌, ◌≤◌, ◌<◌, inl, inr, refl, sym, ap, ◌∙◌, false, arith, ◌==◌,
  if◌then◌else◌, Bool-cases,
}
use tatak_os.Disk.{update_self, update_ne}
use tatak_os.Fs.{ndirect, max_file, bsize, Bytes, Superblock, Fs, Inode, modify, log_write}
use tatak_os.Fs.Balloc.{used, IsLayout}
use tatak_os.Fs.Grow.{spare, place-cases}
use tatak_os.Fs.Map.{map_kept}
use tatak_os.Fs.Slots.{slot, content, IsFile}

-- The same map, and the same indirect block.
pub IsFile-same :
    (sb : Superblock) (d : ℕ) (fs fs' : Fs) (ip ip' : Inode)
    → d ≤ sb.size
    → ((c : ℕ) → c < sb.size → used sb fs' c ≡ used sb fs c)
    → ((l : ℕ) → l ≤ max_file → slot fs' ip' l ≡ slot fs ip l)
    → IsFile sb d fs ip
    → IsFile sb d fs' ip'
IsFile-same sb d fs fs' ip ip' top marks slots w = record {
  marks = λ b lt. marks b (omega (arith, top, lt)) ∙ w.marks b lt;
  above = λ k le pos. let s = slots k le in rw s (w.above k le (λ z. pos (s ∙ z)));
  below = λ k le pos. let s = slots k le in rw s (w.below k le (λ z. pos (s ∙ z)));
  marked = λ k le pos.
      let s = slots k le in
      let pos' : slot fs ip k ≢ 0 = λ z. pos (s ∙ z) in
      rw s (marks (slot fs ip k) (w.below k le pos') ∙ w.marked k le pos');
  apart = λ k l le le' pos q.
      let s = slots k le in w.apart k l le le' (λ z. pos (s ∙ z)) (sym s ∙ q ∙ slots l le');
}

pub spare-same :
    (sb : Superblock) (fs fs' : Fs) (n : ℕ)
    → n ≤ sb.size
    → ((c : ℕ) → c < sb.size → used sb fs' c ≡ used sb fs c)
    → spare sb fs' n ≡ spare sb fs n
unfolding spare
spare-same sb fs fs' zero le marks = refl
spare-same sb fs fs' (suc n) le marks =
    let rest = spare-same sb fs fs' n (omega arith) marks in
    let here = marks n (omega arith) in rw (rest, here) refl

-- The blocks of the file depend on the indirect block alone.
pub slot-same :
    (fs fs' : Fs) (ip : Inode) (l : ℕ)
    → l ≤ max_file
    → (ip.addrs ndirect ≢ 0 → fs'.blocks (ip.addrs ndirect) ≡ fs.blocks (ip.addrs ndirect))
    → slot fs' ip l ≡ slot fs ip l
unfolding slot
slot-same fs fs' ip l le same = elim (place-cases l le) [
  | inl q ↦ ground (arith, q)
  | inr (inl q) ↦ rw q refl
  | inr (inr (q, q')) ↦ elim (Bool-cases (ip.addrs 12 == 0)) [
    | inl n ↦ rw (q, q', n) refl
    | inr n ↦ let s = same (ground arith) in rw (q, q', n, s) refl
  ]
]

module _ (sb : Superblock) (d : ℕ) (layout : IsLayout sb d) where
  -- Block `b` of the file, at index `k`, becomes `x`.
  pub record IsChanged (fs : Fs) (ip : Inode) (k : ℕ) (x : Bytes) (fs' : Fs) : Type 0 where
    pub file : IsFile sb d fs' ip
    pub bytes :
        (i : ℕ)
        → i < max_file * bsize
        → content fs' ip i ≡ (if i / bsize == k then x (i % bsize) else content fs ip i)
    pub spared : spare sb fs' sb.size ≡ spare sb fs sb.size

  pub change-IsChanged :
      (fs : Fs) (ip : Inode) (k b : ℕ) (x : Bytes)
      → IsFile sb d fs ip
      → k < max_file
      → slot fs ip k ≡ b
      → b ≢ 0
      → IsChanged fs ip k x (log_write b (modify b x fs))
  unfolding content slot
  change-IsChanged fs ip k b x w lt e pos =
      let fs' : Fs = log_write b (modify b x fs) in
      let le : k ≤ max_file = omega (arith, lt) in
      let pos' : slot fs ip k ≢ 0 = λ z. pos (sym e ∙ z) in
      let above : d ≤ b = let a = w.above k le pos' in ground (arith, a, e) in
      let indirect : b ≢ slot fs ip max_file = λ q.
        absurd (let a = w.apart k max_file le (omega arith) pos' (e ∙ q) in omega (arith, a, lt)) in
      let slots : (l : ℕ) → l ≤ max_file → slot fs' ip l ≡ slot fs ip l =
        λ l le'. slot-same fs fs' ip l le' (λ z. update_ne fs.blocks b (ip.addrs 12) x indirect) in
      record {
        file =
            IsFile-same sb d fs fs' ip ip layout.data_below
              (λ c top. map_kept sb d layout fs b x c above top) slots w;
        bytes = λ i top.
            let le' : i / bsize ≤ max_file = omega (arith, top) in
            let s = slots (i / bsize) le' in
            elim (Bool-cases (i / bsize == k)) [
              | inl q ↦
                  let at : i / bsize ≡ k = ground arith in
                  let here : slot fs ip (i / bsize) ≡ b = ap (slot fs ip) at ∙ e in
                  let ne : (b == 0) ≡ false = ground arith in
                  rw (s, here, ne, q, update_self fs.blocks b x) refl
              | inr q ↦ elim (Bool-cases (slot fs ip (i / bsize) == 0)) [
                | inl z ↦ rw (s, z, q) refl
                | inr z ↦
                    let ne : b ≢ slot fs ip (i / bsize) = λ c.
                      absurd (let a = w.apart k (i / bsize) le le' pos' (e ∙ c) in ground arith) in
                    rw (s, z, q, update_ne fs.blocks b (slot fs ip (i / bsize)) x ne) refl
              ]
            ];
        spared =
            spare-same sb fs fs' sb.size (omega arith)
              (λ c top. map_kept sb d layout fs b x c above top);
      }
