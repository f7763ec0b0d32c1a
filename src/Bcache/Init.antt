-- ===== src/Bcache/Init.antt =====
-- kernel/fs/bio.c: `binit` links the buffers into a ring. The buffer at index `b` of `bcache.buf` is
-- the number `b`, and `bcache.head` is the number NBUF.
use tatak_os.Base.{ℕ, zero, suc, ◌+◌, false, List, [], ◌∷◌, ◌==◌, if◌then◌else◌, map}
use tatak_os.Disk.{update}
use tatak_os.Buffers.{nbuf}
use tatak_os.Sleeplock.{initsleeplock}
use tatak_os.Bcache.{Buf}

-- `bcache` before the ring is read as a list: the buffers, and the links by number.
pub record Links : Type 0 where
  pub buf : ℕ → Buf
  pub next : ℕ → ℕ
  pub prev : ℕ → ℕ

abbrev pub head : ℕ
head = nbuf

-- `b->next = p` and `b->prev = p`
abbrev pub set_next : ℕ → ℕ → Links → Links
set_next b p s = record s { next = update s.next b p }

abbrev pub set_prev : ℕ → ℕ → Links → Links
set_prev b p s = record s { prev = update s.prev b p }

-- `initsleeplock(&b->lock, "buffer")`
abbrev pub init_lock : ℕ → Links → Links
init_lock b s = record s { buf = update s.buf b (record (s.buf b) { lock = initsleeplock }) }

-- The body of the loop of `binit`.
unfoldable pub link_buf : ℕ → Links → Links
link_buf b s =
    let s1 = set_next b (s.next head) s in
    let s2 = set_prev b head s1 in
    let s3 = init_lock b s2 in let s4 = set_prev (s3.next head) b s3 in set_next head b s4

-- The loop of `binit` from `b` on, for `n` rounds.
unfoldable pub link_from : ℕ → ℕ → Links → Links
link_from b zero s = s
link_from b (suc n) s = link_from (b + 1) n (link_buf b s)

unfoldable pub binit : Links → Links
binit s = link_from 0 nbuf (set_next head head (set_prev head head s))

-- The buffers from `p` on along the links `step`, up to the head, `fuel` at most.
unfoldable pub along : (ℕ → ℕ) → ℕ → ℕ → List ℕ
along step zero p = []
along step (suc fuel) p = let rest = along step fuel (step p) in if p == head then [] else p ∷ rest

-- The ring as a list; a ring that does not come back to the head gives more than NBUF.
abbrev pub ring : Links → List Buf
ring s = map s.buf (along s.next (suc nbuf) (s.next head))

-- Static storage is zero.
abbrev pub boot : Links
boot = record {
  buf = λ b. record {
    valid = false;
    dev = 0;
    blockno = 0;
    lock = record { locked = false; pid = 0 };
    refcnt = 0;
    bytes = λ j. 0;
  };
  next = λ b. 0;
  prev = λ b. 0;
}
