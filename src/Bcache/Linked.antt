-- ===== src/Bcache/Linked.antt =====
-- kernel/fs/bio.c: the ring that `binit` makes.
use tatak_os.Base.{
  ℕ, map, zero, suc, ◌+◌, ◌-◌, ◌≤◌, ◌<◌, ◌≡◌, inl, inr, refl, ap, ◌∙◌, true, false, List, [], ◌∷◌,
  arith, ltb, ◌==◌, if◌then◌else◌, Bool-cases,
}
use tatak_os.Buffers.{nbuf}
use tatak_os.Sleeplock.{initsleeplock}
use tatak_os.Bcache.{Buf}
use tatak_os.Bcache.Init.{
  Links, head, set_next, set_prev, link_buf, link_from, binit, along, ring, boot,
}

-- The links after `n` buffers have been linked, each in front of those before it, and the locks.
pub record IsLinked (s0 : Links) (n : ℕ) (s : Links) : Type 0 where
  pub next : (x : ℕ) → x < n → s.next x ≡ (if x == 0 then head else x - 1)
  pub prev : (x : ℕ) → x < n → s.prev x ≡ (if x + 1 == n then head else x + 1)
  pub first : s.next head ≡ (if n == 0 then head else n - 1)
  pub last : s.prev head ≡ (if n == 0 then head else 0)
  pub locks :
      (x : ℕ) → s.buf x ≡ (if ltb x n then record (s0.buf x) { lock = initsleeplock } else s0.buf x)

link_buf-IsLinked :
    (s0 s : Links) (n : ℕ) → n < nbuf → IsLinked s0 n s → IsLinked s0 (n + 1) (link_buf n s)
unfolding link_buf
link_buf-IsLinked s0 s n lt l =
    let f = l.first in
    let e = l.last in
    record {
      next = λ x le. let h = l.next x in ground (arith, f, h, lt, le);
      prev = λ x le. let h = l.prev x in ground (arith, f, h, lt, le);
      first = ground (arith, lt);
      last = ground (arith, f, e, lt);
      locks = λ x. elim (Bool-cases (n == x)) [
        | inl same ↦
            let at : n ≡ x = ground arith in
            let here = l.locks x in
            let old : ltb x n ≡ false = ground arith in
            let new : ltb x (n + 1) ≡ true = ground arith in rw (same, new, at, rw old at here) refl
        | inr other ↦
            let old : ltb x (n + 1) ≡ ltb x n = ground arith in rw (other, old) (l.locks x)
      ];
    }

link_from-IsLinked :
    (m n : ℕ) (s0 s : Links)
    → n + m ≤ nbuf
    → IsLinked s0 n s
    → IsLinked s0 (n + m) (link_from n m s)
unfolding link_from
link_from-IsLinked zero n s0 s le l = let z : n + 0 ≡ n = omega arith in rw z l
link_from-IsLinked (suc m) n s0 s le l =
    let z : n + suc m ≡ n + 1 + m = omega arith in
    rw z (
      link_from-IsLinked m (n + 1) s0 (link_buf n s) (omega arith)
        (link_buf-IsLinked s0 s n (omega arith) l))

pub binit-IsLinked : (s : Links) → IsLinked s nbuf (binit s)
unfolding binit
binit-IsLinked s =
    link_from-IsLinked nbuf 0 s (set_next head head (set_prev head head s)) (omega arith) (record {
      next = λ x lt. absurd (omega arith);
      prev = λ x lt. absurd (omega arith);
      first = ground arith;
      last = ground arith;
      locks = λ x. ground arith;
    })

-- The numbers below `n`, the last one first.
abbrev pub downto : ℕ → List ℕ
downto zero = []
downto (suc n) = n ∷ downto n

along-downto :
    (s0 s : Links) (n fuel : ℕ)
    → IsLinked s0 nbuf s
    → n ≤ nbuf
    → n < fuel
    → along s.next fuel (if n == 0 then head else n - 1) ≡ downto n
unfolding along
along-downto s0 s n zero l le lt = absurd (omega arith)
along-downto s0 s zero (suc fuel) l le lt = refl
along-downto s0 s (suc n) (suc fuel) l le lt =
    let some_left : (suc n == 0) ≡ false = ground arith in
    let at : suc n - 1 ≡ n = omega arith in
    let inside : (n == head) ≡ false = ground (arith, le) in
    let rest = along-downto s0 s n fuel l (omega arith) (omega arith) in
    rw (along, some_left, at, inside, l.next n (omega arith)) (ap (λ r. n ∷ r) rest)

-- Static storage: the buffers are for no block and nobody refers to them.
abbrev pub IsZero : Links → Type 0
IsZero s =
    (x : ℕ) → x < nbuf → ((s.buf x).dev ≡ 0) × ((s.buf x).valid ≡ false) × ((s.buf x).refcnt ≡ 0)

pub boot-IsZero : IsZero boot
boot-IsZero x lt = (refl, refl, refl)

-- A buffer that is for no block, and that nobody refers to or has locked.
abbrev pub IsUnused : Buf → Type 0
IsUnused x = (x.dev ≡ 0) × (x.valid ≡ false) × (x.refcnt ≡ 0) × (x.lock.locked ≡ false)

pub binit-IsUnused : (s : Links) → IsZero s → (x : ℕ) → x < nbuf → IsUnused ((binit s).buf x)
unfolding initsleeplock
binit-IsUnused s zeros x lt =
    let here = (binit-IsLinked s).locks x in
    let in_use : ltb x nbuf ≡ true = ground (arith, lt) in
    let (dev, valid, refcnt) = zeros x lt in rw (here, in_use) (dev, valid, refcnt, refl)

-- Each link of the ring has its counterpart, and the ring holds every buffer, the last one of
-- `bcache.buf` first.
pub record IsRing (s : Links) : Type 0 where
  pub there : (x : ℕ) → x ≤ head → s.prev (s.next x) ≡ x
  pub back : (x : ℕ) → x ≤ head → s.next (s.prev x) ≡ x
  pub order : along s.next (suc nbuf) (s.next head) ≡ downto nbuf

pub binit-IsRing : (s : Links) → IsRing (binit s)
binit-IsRing s =
    let l = binit-IsLinked s in
    record {
      there = λ x le. elim (Bool-cases (x == head)) [
        | inl e ↦ let z : x ≡ head = ground arith in rw (z, l.first) (l.prev 29 (omega arith))
        | inr e ↦
            let lt : x < nbuf = ground arith in
            elim (Bool-cases (x == 0)) [
              | inl q ↦ let z : x ≡ 0 = ground arith in rw (z, l.next 0 (omega arith)) l.last
              | inr q ↦
                  let up : (x - 1 + 1 == nbuf) ≡ false = ground arith in
                  let same : x - 1 + 1 ≡ x = ground arith in
                  rw (l.next x lt, q, l.prev (x - 1) (omega arith), up) same
            ]
      ];
      back = λ x le. elim (Bool-cases (x == head)) [
        | inl e ↦ let z : x ≡ head = ground arith in rw (z, l.last) (l.next 0 (omega arith))
        | inr e ↦
            let lt : x < nbuf = ground arith in
            elim (Bool-cases (x + 1 == nbuf)) [
              | inl q ↦ let z : nbuf - 1 ≡ x = ground arith in rw (l.prev x lt, q) (l.first ∙ z)
              | inr q ↦
                  let up : (x + 1 == 0) ≡ false = ground arith in
                  let same : x + 1 - 1 ≡ x = omega arith in
                  rw (l.prev x lt, q, l.next (x + 1) (ground arith), up) same
            ]
      ];
      order = rw (l.first) (along-downto s (binit s) nbuf (suc nbuf) l (omega arith) (omega arith));
    }

-- The ring, as it is read along `next`.
pub binit-ring : (s : Links) → ring (binit s) ≡ map (binit s).buf (downto nbuf)
binit-ring s = let order = (binit-IsRing s).order in rw order refl
