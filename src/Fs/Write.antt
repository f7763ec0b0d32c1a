-- ===== src/Fs/Write.antt =====
-- kernel/fs/fs.c: what the loop of `writei` does to the bytes of the file.
use tatak_os.Base.{
  ℕ, zero, suc, ◌+◌, ◌-◌, ◌*◌, ◌/◌, ◌%◌, ◌^◌, ◌≡◌, ◌≢◌, ◌≤◌, ◌<◌, inl, inr, refl, sym, ap, ◌∙◌,
  Bool, true, false, ◌&&◌, some, arith, ltb, leb, ◌==◌, if◌then◌else◌, Bool-cases,
}
use tatak_os.Fs.{max_file, bsize, Bytes, Superblock, Fs, Inode, modify, log_write}
use tatak_os.Fs.Balloc.{IsLayout}
use tatak_os.Fs.Change.{change-IsChanged}
use tatak_os.Fs.Data.{chunk, splice, write_from}
use tatak_os.Fs.Grow.{spare, with_addrs}
use tatak_os.Fs.Logged.{IsLogged, IsLogged-none, IsLogged-trans, round-logs}
use tatak_os.Fs.Map.{bmap-ok}
use tatak_os.Fs.Slots.{slot, content, IsFile}

-- `either_copyin` from the kernel's own memory, of proc.c.
abbrev pub from_kernel : Bytes → ℕ → Bytes → ℕ → Bool × Bytes
from_kernel mem src old m = (true, λ j. mem (src + j))

-- The rounds that the loops of `readi` and `writei` take for `left` bytes from `off` on.
abbrev pub rounds : ℕ → ℕ → ℕ
rounds off left = if left == 0 then 0 else (off % bsize + left + (bsize - 1)) / bsize

-- The bytes of a file with `n` bytes of memory, from `src` on, written over those from `off` on.
abbrev pub overwrite : ℕ → ℕ → Bytes → ℕ → Bytes → Bytes
overwrite off n mem src old i =
    if leb off i && ltb i (off + n) then mem (src + (i - off)) else old i

-- A byte of a block of the file.
pub content-slot :
    (fs : Fs) (ip : Inode) (b i : ℕ)
    → slot fs ip (i / bsize) ≡ b
    → b ≢ 0
    → content fs ip i ≡ fs.blocks b (i % bsize)
unfolding content
content-slot fs ip b i e pos = let ne : (b == 0) ≡ false = ground arith in rw (e, ne) refl

-- A chunk is not empty, and stays in its block and in what is left.
pub chunk-cases :
    (left off : ℕ)
    → 1 ≤ left
    → (1 ≤ chunk left off)
      × (chunk left off ≤ left)
      × (off % bsize + chunk left off ≤ bsize)
      × (rounds (off + chunk left off) (left - chunk left off) < rounds off left)
chunk-cases left off pos = elim (Bool-cases (ltb left (bsize - off % bsize))) [
  | inl e ↦ rw e (omega arith, omega arith, ground (arith, e), last left off pos)
  | inr e ↦ rw e (omega arith, ground (arith, e), omega arith, full left off (ground arith))
]
  where
    last : (left off : ℕ) → 1 ≤ left → rounds (off + left) (left - left) < rounds off left
    last left off pos = ground arith

    full :
        (left off : ℕ)
        → bsize - off % bsize ≤ left
        → rounds (off + (bsize - off % bsize)) (left - (bsize - off % bsize)) < rounds off left
    full left off le = ground arith

-- A chunk takes one round.
cost :
    (off m left rest : ℕ)
    → rest ≡ left - m
    → 1 ≤ m
    → off % bsize + m ≤ bsize
    → rounds (off + m) (left - m) < rounds off left
    → rounds off m + rounds (off + m) rest ≤ rounds off left
cost off m left rest e pos inside fewer =
    let one : rounds off m ≡ 1 = ground arith in rw (e, one) (omega (arith, fewer))

-- One chunk, and then the rest.
pub overwrite_trans :
    (off m left : ℕ) (mem : Bytes) (src : ℕ) (old : Bytes) (i : ℕ)
    → m ≤ left
    → overwrite (off + m) (left - m) mem (src + m) (overwrite off m mem src old) i
      ≡ overwrite off left mem src old i
overwrite_trans off m left mem src old i le = elim (Bool-cases (leb (off + m) i)) [
  | inl e ↦
      let same : src + m + (i - (off + m)) ≡ src + (i - off) = ground arith in
      rw same (ground arith)
  | inr e ↦ ground arith
]

-- Bytes that are the same where they are used.
pub overwrite_same :
    (off n : ℕ) (mem mem' : Bytes) (src : ℕ) (old old' : Bytes) (i : ℕ)
    → ((j : ℕ) → j < n → mem (src + j) ≡ mem' (src + j))
    → old i ≡ old' i
    → overwrite off n mem src old i ≡ overwrite off n mem' src old' i
overwrite_same off n mem mem' src old old' i same e =
    elim (Bool-cases (leb off i && ltb i (off + n))) [
      | inl q ↦ rw q (same (i - off) (ground arith))
      | inr q ↦ rw q e
    ]

-- A chunk of a block of the file.
splice_chunk :
    (off m : ℕ) (mem : Bytes) (src : ℕ) (x old : Bytes) (i : ℕ)
    → off % bsize + m ≤ bsize
    → (i / bsize ≡ off / bsize → x (i % bsize) ≡ old i)
    → (if i / bsize == off / bsize
        then splice x (off % bsize) m (λ j. mem (src + j)) (i % bsize)
        else old i)
      ≡ overwrite off m mem src old i
splice_chunk off m mem src x old i fits same = elim (Bool-cases (i / bsize == off / bsize)) [
  | inl e ↦
      let block : i / bsize ≡ off / bsize = ground arith in
      let there : i % bsize - off % bsize ≡ i - off = omega (arith, block) in
      let s = same block in rw (e, there, s) (ground (arith, block))
  | inr e ↦ rw e (ground arith)
]

module _ (sb : Superblock) (d : ℕ) (layout : IsLayout sb d) (mem : Bytes) where
  -- The file after `left` bytes from `src` on are written at `off`.
  pub record IsWritten (fs : Fs) (ip : Inode) (src off left : ℕ) (fs' : Fs) (ip' : Inode)
      : Type 0 where
    pub file : IsFile sb d fs' ip'
    pub bytes :
        (i : ℕ)
        → i < max_file * bsize
        → content fs' ip' i ≡ overwrite off left mem src (content fs ip) i
    pub kept : ip' ≡ with_addrs ip ip'.addrs
    pub spared : spare sb fs sb.size ≤ spare sb fs' sb.size + 2 * rounds off left
    pub logs : IsLogged sb fs ip (rounds off left) fs' ip'

  IsWritten-trans :
      (fs : Fs) (ip : Inode) (src off m left rest : ℕ) (fs1 : Fs) (ip1 : Inode) (fs' : Fs)
      (ip' : Inode)
      → m ≤ left
      → rest ≡ left - m
      → rounds off m + rounds (off + m) rest ≤ rounds off left
      → IsWritten fs ip src off m fs1 ip1
      → IsWritten fs1 ip1 (src + m) (off + m) rest fs' ip'
      → IsWritten fs ip src off left fs' ip'
  IsWritten-trans fs ip src off m left rest fs1 ip1 fs' ip' le e fewer a b = record {
    file = b.file;
    bytes = λ i lt.
        b.bytes i lt
        ∙ ap
            (λ o.
              if leb (off + m) i && ltb i (off + m + rest)
              then mem (src + m + (i - (off + m)))
              else o)
            (a.bytes i lt)
        ∙ ap (λ l. overwrite (off + m) l mem (src + m) (overwrite off m mem src (content fs ip)) i)
            e
        ∙ overwrite_trans off m left mem src (content fs ip) i le;
    kept = b.kept ∙ ap (λ p. with_addrs p ip'.addrs) a.kept;
    spared = let x = a.spared in let y = b.spared in omega (arith, x, y, fewer);
    logs =
        IsLogged-trans sb fs ip (rounds off m) (rounds (off + m) rest) (rounds off left) fs1 ip1 fs'
          ip' fewer a.logs b.logs;
  }

  -- One round of the loop.
  write_round :
      (fuel tot off src n m : ℕ) (ip : Inode) (fs : Fs)
      → IsFile sb d fs ip
      → ltb tot n ≡ true
      → chunk (n - tot) off ≡ m
      → 1 ≤ m
      → off % bsize + m ≤ bsize
      → off + m ≤ max_file * bsize
      → src + m < 2 ^ 64
      → 2 ≤ spare sb fs sb.size
      → (ip1 : Inode) × (fs1 : Fs) × (write_from sb (from_kernel mem) (suc fuel) tot off src n ip fs
          ≡ write_from sb (from_kernel mem) fuel (tot + m) (off + m) (src + m) n ip1 fs1)
        × (spare sb fs sb.size ≤ spare sb fs1 sb.size + 2)
        × IsWritten fs ip src off m fs1 ip1
  unfolding write_from
  write_round fuel tot off src n m ip fs w go e pos fits top addr room =
      let (b, ip1, fs1, q, mapped) =
        bmap-ok sb d layout fs ip (off / bsize) w (omega (arith, pos, top)) room in
      let x : Bytes = splice (fs1.blocks b) (off % bsize) m (λ j. mem (src + j)) in
      let c =
        change-IsChanged sb d layout fs1 ip1 (off / bsize) b x mapped.file (omega (arith, pos, top))
          mapped.here mapped.pos in
      let off_mod : (off + m) % 2 ^ 32 ≡ off + m = omega (arith, top) in
      let src_mod : (src + m) % 2 ^ 64 ≡ src + m = omega (arith, addr) in
      (
        ip1,
        log_write b (modify b x fs1),
        rw (write_from, go, q, e, off_mod, src_mod) refl,
        (let s = mapped.spared in let s' = c.spared in omega (arith, s, s')),
        record {
          file = c.file;
          bytes = λ i lt.
              c.bytes i lt
              ∙ splice_chunk off m mem src (fs1.blocks b) (content fs1 ip1) i fits (λ at.
                sym (content-slot fs1 ip1 b i (ap (slot fs1 ip1) at ∙ mapped.here) mapped.pos))
              ∙ ap (λ o. if leb off i && ltb i (off + m) then mem (src + (i - off)) else o)
                  (mapped.same i lt);
          kept = mapped.kept;
          spared = let s = mapped.spared in let s' = c.spared in ground (arith, s, s', pos, fits);
          logs =
              round-logs sb fs ip (off / bsize) (rounds off m) b x fs1 ip1 (omega (arith, pos, top))
                (ground (arith, pos)) q mapped.here mapped.pos;
        },
      )

  write_end :
      (fuel tot off src n : ℕ) (ip : Inode) (fs : Fs)
      → ltb tot n ≡ false
      → tot ≡ n
      → write_from sb (from_kernel mem) (suc fuel) tot off src n ip fs
        ≡ some (n, (off + (n - tot), (ip, fs)))
  unfolding write_from
  write_end fuel tot off src n ip fs e done =
      let at : off + (n - tot) ≡ off = omega (arith, done) in rw (write_from, e, at, done) refl

  pub write_from-ok :
      (fuel tot off src n : ℕ) (ip : Inode) (fs : Fs)
      → IsFile sb d fs ip
      → tot ≤ n
      → off + (n - tot) ≤ max_file * bsize
      → src + (n - tot) < 2 ^ 64
      → rounds off (n - tot) < fuel
      → 2 * rounds off (n - tot) ≤ spare sb fs sb.size
      → (ip' : Inode) × (fs' : Fs) × (write_from sb (from_kernel mem) fuel tot off src n ip fs
          ≡ some (n, (off + (n - tot), (ip', fs'))))
        × IsWritten fs ip src off (n - tot) fs' ip'
  write_from-ok zero tot off src n ip fs w le fits addr enough room = absurd (omega arith)
  write_from-ok (suc fuel) tot off src n ip fs w le fits addr enough room =
      elim (Bool-cases (ltb tot n)) [
        | inr e ↦
            let done : tot ≡ n = ground arith in
            (
              ip,
              fs,
              write_end fuel tot off src n ip fs e done,
              record {
                file = w;
                bytes = λ i lt. ground (arith, done);
                kept = refl;
                spared = omega arith;
                logs = IsLogged-none sb fs ip (rounds off (n - tot));
              },
            )
        | inl e ↦
            let left : 1 ≤ n - tot = ground arith in
            let (pos, short, inside, fewer) = chunk-cases (n - tot) off left in
            let m : ℕ = chunk (n - tot) off in
            let (ip1, fs1, q, s, r) =
              write_round fuel tot off src n m ip fs w e refl pos inside
                (omega (arith, short, fits)) (omega (arith, short, addr))
                (omega (arith, fewer, room)) in
            let rest : n - (tot + m) ≡ n - tot - m = omega arith in
            let (ip', fs', q', r') =
              write_from-ok fuel (tot + m) (off + m) (src + m) n ip1 fs1 r.file
                (omega (arith, short, left)) (omega (arith, short, fits, left))
                (omega (arith, short, addr)) (rw rest (omega (arith, fewer, enough)))
                (rw rest (omega (arith, fewer, room, s))) in
            let end : off + m + (n - (tot + m)) ≡ off + (n - tot) = omega (arith, short) in
            (
              ip',
              fs',
              q ∙ q' ∙ ap (λ e. some (n, (e, (ip', fs')))) end,
              IsWritten-trans fs ip src off m (n - tot) (n - (tot + m)) fs1 ip1 fs' ip' short rest
                  (cost off m (n - tot) (n - (tot + m)) rest pos inside fewer) r r',
            )
      ]
