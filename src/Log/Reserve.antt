-- ===== src/Log/Reserve.antt =====
-- File system operations under way together: `begin_op` reserves room in the log for each, and
-- `log_write` finds it.
use tatak_os.Base.{
  ℕ, suc, ◌+◌, ◌*◌, ◌<◌, ◌≤◌, ◌≡◌, ◌⊎◌, inl, inr, refl, ap, ◌∙◌, true, false, some, List, [], ◌∷◌,
  ◌++◌, arith, length, length-append, ◌==◌, ◌||◌, if◌then◌else◌, Bool-cases,
}
use tatak_os.Buffers.{mem}
use tatak_os.Buffers.Spec.{Cache, spec}
use tatak_os.Log.{
  Log, log_size, max_op_blocks, log_write, begin_op, commits, wakes, end_op, end_commit,
}

pub sum : List ℕ → ℕ
sum [] = 0
sum (x ∷ xs) = x + sum xs

sum-append : (xs ys : List ℕ) → sum (xs ++ ys) ≡ sum xs + sum ys
unfolding sum
sum-append [] ys = omega arith
sum-append (x ∷ xs) ys = omega (arith, sum-append xs ys)

-- No operation may add more than `max_op_blocks` blocks.
abbrev pub Small : List ℕ → Type 0
Small [] = Unit
Small (x ∷ xs) = (x ≤ max_op_blocks) × Small xs

sum-Small : (xs : List ℕ) → Small xs → sum xs ≤ length xs * max_op_blocks
unfolding sum
sum-Small [] h = omega arith
sum-Small (x ∷ xs) h = omega (arith, sum-Small xs h.1)

Small-removed : (xs : List ℕ) (r : ℕ) (ys : List ℕ) → Small (xs ++ (r ∷ ys)) → Small (xs ++ ys)
Small-removed [] r ys h = h.1
Small-removed (x ∷ xs) r ys h = (h.0, Small-removed xs r ys h.1)

Small-lowered :
    (xs : List ℕ) (r : ℕ) (ys : List ℕ) → Small (xs ++ (suc r ∷ ys)) → Small (xs ++ (r ∷ ys))
Small-lowered [] r ys h = (omega (arith, h.0), h.1)
Small-lowered (x ∷ xs) r ys h = (h.0, Small-lowered xs r ys h.1)

-- The count and the sum of a list with one budget in its middle.
split_length :
    (xs : List ℕ) (r : ℕ) (ys : List ℕ) → length (xs ++ (r ∷ ys)) ≡ suc (length (xs ++ ys))
split_length xs r ys = omega (arith, length-append xs (r ∷ ys), length-append xs ys)

split_sum : (xs : List ℕ) (r : ℕ) (ys : List ℕ) → sum (xs ++ (r ∷ ys)) ≡ r + sum (xs ++ ys)
unfolding sum
split_sum xs r ys = omega (arith, sum-append xs (r ∷ ys), sum-append xs ys)

-- No block is listed twice.
abbrev pub Distinct : List ℕ → Type 0
Distinct [] = Unit
Distinct (b ∷ bs) = (mem b bs ≡ false) × Distinct bs

mem-append_one : (a b : ℕ) (bs : List ℕ) → mem a (bs ++ (b ∷ [])) ≡ (mem a bs || a == b)
mem-append_one a b [] = ground arith
mem-append_one a b (c ∷ bs) = ground (arith, mem-append_one a b bs)

Distinct-append_one :
    (b : ℕ) (bs : List ℕ) → mem b bs ≡ false → Distinct bs → Distinct (bs ++ (b ∷ []))
Distinct-append_one b [] h d = (refl, tt)
Distinct-append_one b (c ∷ bs) h d =
    (mem-append_one c b bs ∙ ground arith, Distinct-append_one b bs (ground arith) d.1)

-- The log, and for each operation under way how many more blocks it may add.
pub record System : Type 0 where
  pub log : Log
  pub cache : Cache
  pub budgets : List ℕ

pub data Step (s : System) : System → Type 0 where
  begins :
      (l : Log)
      → begin_op s.log ≡ some l
      → Step s (record s { log = l; budgets = max_op_blocks ∷ s.budgets })
  absorbs :
      (b : ℕ) (l : Log) (c : Cache)
      → mem b s.log.block ≡ true
      → log_write spec b s.log s.cache ≡ some (l, c)
      → Step s (record s { log = l; cache = c })
  adds :
      (b : ℕ) (l : Log) (c : Cache) (xs : List ℕ) (r : ℕ) (ys : List ℕ)
      → s.budgets ≡ xs ++ (suc r ∷ ys)
      → mem b s.log.block ≡ false
      → log_write spec b s.log s.cache ≡ some (l, c)
      → Step s (record { log = l; cache = c; budgets = xs ++ (r ∷ ys) })
  ends :
      (l : Log) (xs : List ℕ) (r : ℕ) (ys : List ℕ)
      → s.budgets ≡ xs ++ (r ∷ ys)
      → (end_op s.log ≡ commits l) ⊎ (end_op s.log ≡ wakes l)
      → Step s (record s { log = l; budgets = xs ++ ys })
  committed :
      (c : Cache)
      → s.log.committing ≡ true
      → Step s (record s { log = end_commit (record s.log { block = [] }); cache = c })
  -- Reading, modifying, releasing: the buffers change and the log does not.
  works : (c : Cache) → Step s (record s { cache = c })

pub data Reach (s : System) : System → Type 0 where
  here : Reach s s
  next : {t u : System} → Reach s t → Step t u → Reach s u

-- The log has room for all that is reserved.
pub record IsReserved (s : System) : Type 0 where
  pub counted : s.log.outstanding ≡ length s.budgets
  pub room : length s.log.block + sum s.budgets ≤ log_size
  pub small : Small s.budgets
  pub distinct : Distinct s.log.block
  pub quiet : s.log.committing ≡ true → s.log.outstanding ≡ 0

log_write_lem :
    (b : ℕ) (l l' : Log) (c c' : Cache)
    → log_write spec b l c ≡ some (l', c')
    → l' ≡ (if mem b l.block then l else record l { block = l.block ++ (b ∷ []) })
unfolding log_write
log_write_lem b l l' c c' h = ground arith

Step-IsReserved : {s t : System} → Step s t → IsReserved s → IsReserved t
unfolding begin_op end_op end_commit sum
Step-IsReserved {s} (begins l e) v = ground (arith, sum-Small s.budgets v.small)
Step-IsReserved {s} (absorbs b l c m e) v = ground (arith, log_write_lem b s.log l s.cache c e)
Step-IsReserved {s} (adds b l c xs r ys p m e) v = ground (
  arith,
  log_write_lem b s.log l s.cache c e,
  ap length p,
  ap sum p,
  split_length xs (suc r) ys,
  split_length xs r ys,
  split_sum xs (suc r) ys,
  split_sum xs r ys,
  Small-lowered xs r ys (rw p at v.small),
  length-append s.log.block (b ∷ []),
  Distinct-append_one b s.log.block m v.distinct,
)
Step-IsReserved {s} (ends l xs r ys p e) v = ground (
  arith,
  ap length p,
  ap sum p,
  split_length xs r ys,
  split_sum xs r ys,
  Small-removed xs r ys (rw p at v.small),
)
Step-IsReserved {s} (committed c e) v = ground arith
Step-IsReserved {s} (works c) v = record {
  counted = v.counted;
  room = v.room;
  small = v.small;
  distinct = v.distinct;
  quiet = v.quiet;
}

pub Reach-IsReserved : {s t : System} → Reach s t → IsReserved s → IsReserved t
Reach-IsReserved here v = v
Reach-IsReserved (next r st) v = Step-IsReserved st (Reach-IsReserved r v)

-- The log just after `initlog`, with no operation under way.
abbrev pub boot : ℕ → ℕ → Cache → System
boot start size c = record {
  log = record { start = start; size = size; outstanding = 0; committing = false; block = [] };
  cache = c;
  budgets = [];
}

boot-IsReserved : (start size : ℕ) (c : Cache) → IsReserved (boot start size c)
unfolding sum
boot-IsReserved start size c = ground arith

Step-size : {s t : System} → Step s t → t.log.size ≡ s.log.size
unfolding begin_op end_op end_commit
Step-size (begins l e) = ground arith
Step-size {s} (absorbs b l c m e) = ground (arith, log_write_lem b s.log l s.cache c e)
Step-size {s} (adds b l c xs r ys p m e) = ground (arith, log_write_lem b s.log l s.cache c e)
Step-size (ends l xs r ys p e) = ground arith
Step-size (committed c e) = refl
Step-size (works c) = refl

Reach-size : {s t : System} → Reach s t → t.log.size ≡ s.log.size
Reach-size here = refl
Reach-size (next r st) = Step-size st ∙ Reach-size r

-- Room for one more block is enough for both of the code's tests.
log_write_room :
    (b : ℕ) (l : Log) (c : Cache)
    → length l.block < log_size
    → log_size < l.size
    → 0 < l.outstanding
    → mem b c.held ≡ true
    → (l' : Log) × (c' : Cache) × (log_write spec b l c ≡ some (l', c'))
unfolding log_write
log_write_room b l c room big op held = elim (Bool-cases (mem b l.block)) [
  | inl old ↦ (l, c, ground arith)
  | inr new ↦ (
    record l { block = l.block ++ (b ∷ []) },
    record c { pinned = c.pinned ++ (b ∷ []) },
    ground arith,
  )
]

log_write_keeps :
    (b : ℕ) (l l' : Log) (c c' : Cache)
    → log_write spec b l c ≡ some (l', c')
    → Distinct l.block
    → length l.block < log_size
    → (mem b l'.block ≡ true) × (length l'.block ≤ log_size) × Distinct l'.block
log_write_keeps b l l' c c' e d room =
    rw (log_write_lem b l l' c c' e) (elim (Bool-cases (mem b l.block)) [
      | inl old ↦ rw old (old, omega arith, d)
      | inr new ↦ rw new (
        mem-append_one b b l.block ∙ ground arith,
        omega (arith, length-append l.block (b ∷ [])),
        Distinct-append_one b l.block new d,
      )
    ])

-- However operations begin, write, end and commit together, one that has added fewer than
-- `max_op_blocks` blocks can add another block `b` whose buffer it holds, if the log region has
-- more than `log_size` blocks: `log_write` returns, with `b` in the list once and the list within
-- the header.
pub log_write_fits :
    (start size : ℕ) (c : Cache) (s : System) (xs : List ℕ) (r : ℕ) (ys : List ℕ) (b : ℕ)
    → log_size < size
    → Reach (boot start size c) s
    → s.budgets ≡ xs ++ (suc r ∷ ys)
    → mem b s.cache.held ≡ true
    → (l : Log) × (c' : Cache) × (log_write spec b s.log s.cache ≡ some (l, c'))
      × (mem b l.block ≡ true)
      × (length l.block ≤ log_size)
      × Distinct l.block
log_write_fits start size c s xs r ys b big reach p held =
    let v = Reach-IsReserved reach (boot-IsReserved start size c) in
    let room : length s.log.block < log_size =
      omega (arith, v.room, ap sum p, split_sum xs (suc r) ys) in
    let (l, c', e) =
      log_write_room b s.log s.cache room (rw (Reach-size reach) big)
        (omega (arith, v.counted, ap length p, split_length xs (suc r) ys)) held in
    let kept = log_write_keeps b s.log l s.cache c' e v.distinct room in
    (l, c', e, kept.0, kept.1, kept.2)
