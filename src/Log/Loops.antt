-- ===== src/Log/Loops.antt =====
-- The loops of the log over the abstract cache, and the writes of a commit, in order.
use tatak_os.Base.{
  ℕ, ◌+◌, ◌<◌, ◌≤◌, ◌≡◌, ◌⊎◌, refl, ap, ap₂, ◌∙◌, Bool, true, false, some, List, [], ◌∷◌, ◌++◌,
  append_assoc, append-nil, arith, length,
}
use tatak_os.Disk.{Block, Disk, Writes, update, update_ne, apply}
use tatak_os.Buffers.{nbuf, mem, >>-ok}
use tatak_os.Buffers.Spec.{Cache, spec}
use tatak_os.Log.{install_block, install_trans, log_block, write_log}
use tatak_os.Log.Rounds.{idle, log_block_lem, install_block_lem, recover_block_lem}

-- The dirty marks after writes to the disk.
abbrev pub cleaned : Writes → (ℕ → Bool) → ℕ → Bool
cleaned [] y = y
cleaned ((b, x) ∷ ws) y = cleaned ws (update y b false)

-- The cache after `ws` have been written through.
abbrev pub after : Disk → Disk → (ℕ → Bool) → List ℕ → Writes → Writes → Cache
after d v y p w ws = idle (apply ws d) (apply ws v) (cleaned ws y) p (w ++ ws)

-- Every block of the list lies outside the `n + 1` blocks of the log from `start` on.
abbrev pub Apart : ℕ → ℕ → ℕ → Type 0
Apart start n b = (b < start) ⊎ (start + n < b)

abbrev pub AllApart : ℕ → ℕ → List ℕ → Type 0
AllApart start n [] = Unit
AllApart start n (b ∷ bs) = Apart start n b × AllApart start n bs

abbrev pub log_writes : Disk → ℕ → ℕ → List ℕ → Writes
log_writes v start tail [] = []
log_writes v start tail (b ∷ bs) = (start + tail + 1, v b) ∷ log_writes v start (tail + 1) bs

abbrev pub install_writes : Disk → ℕ → ℕ → List ℕ → Writes
install_writes v start tail [] = []
install_writes v start tail (b ∷ bs) =
    (b, v (start + tail + 1)) ∷ install_writes v start (tail + 1) bs

-- The blocks `bs` with the contents that `v` gives them.
abbrev pub home_writes : Disk → List ℕ → Writes
home_writes v [] = []
home_writes v (b ∷ bs) = (b, v b) ∷ home_writes v bs

-- Every block of the second list is in the first one.
abbrev pub AllIn : List ℕ → List ℕ → Type 0
AllIn p [] = Unit
AllIn p (b ∷ bs) = (mem b p ≡ true) × AllIn p bs

AllIn-cons : (b : ℕ) (p bs : List ℕ) → AllIn p bs → AllIn (b ∷ p) bs
AllIn-cons b p [] h = tt
AllIn-cons b p (c ∷ bs) h = (ground arith, AllIn-cons b p bs h.1)

pub AllIn-self : (bs : List ℕ) → AllIn bs bs
AllIn-self [] = tt
AllIn-self (b ∷ bs) = (ground arith, AllIn-cons b bs bs (AllIn-self bs))

-- One write, and then the writes `ws`.
after_cons :
    (d v : Disk) (y : ℕ → Bool) (p : List ℕ) (w : Writes) (b : ℕ) (x : Block) (ws vs : Writes)
    → vs ≡ ws
    → after (update d b x) (update v b x) (update y b false) p (w ++ ((b, x) ∷ [])) vs
      ≡ after d v y p w ((b, x) ∷ ws)
after_cons d v y p w b x ws vs e = rw e (
    ap (idle (apply ws (update d b x)) (apply ws (update v b x)) (cleaned ws (update y b false)) p)
      (append_assoc w ((b, x) ∷ []) ws))

module _ (start n : ℕ) where
  -- Writing a log block does not change what is logged after it.
  log_writes-update :
      (v : Disk) (l : ℕ) (x : Block) (tail : ℕ) (bs : List ℕ)
      → start ≤ l
      → l ≤ start + n
      → AllApart start n bs
      → log_writes (update v l x) start tail bs ≡ log_writes v start tail bs
  log_writes-update v l x tail [] h k a = refl
  log_writes-update v l x tail (b ∷ bs) h k a =
      ap₂ ◌∷◌ (ap (λ z. (start + tail + 1, z)) (update_ne v l b x (omega arith)))
        (log_writes-update v l x (tail + 1) bs h k a.1)

  -- Writing a block outside the log does not change what is installed after it.
  install_writes-update :
      (v : Disk) (b : ℕ) (x : Block) (tail : ℕ) (bs : List ℕ)
      → Apart start n b
      → tail + length bs ≤ n
      → install_writes (update v b x) start tail bs ≡ install_writes v start tail bs
  install_writes-update v b x tail [] a h = refl
  install_writes-update v b x tail (c ∷ bs) a h =
      ap₂ ◌∷◌ (ap (λ z. (c, z)) (update_ne v b (start + tail + 1) x (omega arith)))
        (install_writes-update v b x (tail + 1) bs a (omega arith))

  pub write_log_lem :
      (d v : Disk) (y : ℕ → Bool) (w : Writes) (p : List ℕ) (tail : ℕ) (bs : List ℕ)
      → length p < nbuf
      → tail + length bs ≤ n
      → AllApart start n bs
      → AllIn p bs
      → write_log spec start tail bs (idle d v y p w)
        ≡ some (tt, after d v y p w (log_writes v start tail bs))
  unfolding write_log
  write_log_lem d v y w p tail [] h k a i = rw (append-nil w)
  write_log_lem d v y w p tail (b ∷ bs) h k a i =
      >>-ok (log_block spec l b) (write_log spec start (tail + 1) bs)
        (log_block_lem d v y w p l b (omega arith) i.0 h)
      ∙ write_log_lem (update d l x) (update v l x) (update y l false) (w ++ ((l, x) ∷ [])) p
          (tail + 1) bs h (omega arith) a.1 i.1
      ∙ ap (λ c. some (tt, c))
          (after_cons d v y p w l x _ _
            (log_writes-update v l x (tail + 1) bs (omega arith) (omega arith) a.1))
    where
      l : ℕ
      l = start + tail + 1

      x : Block
      x = v b

  pub install_trans_lem :
      (d v : Disk) (y : ℕ → Bool) (w : Writes) (tail : ℕ) (bs : List ℕ)
      → length bs < nbuf
      → tail + length bs ≤ n
      → AllApart start n bs
      → ((i : ℕ) → i ≤ n → y (start + i) ≡ false)
      → install_trans spec false start tail bs (idle d v y bs w)
        ≡ some (tt, after d v y [] w (install_writes v start tail bs))
  unfolding install_trans
  install_trans_lem d v y w tail [] h k a c = rw (append-nil w)
  install_trans_lem d v y w tail (b ∷ bs) h k a c =
      >>-ok (install_block spec false l b) (install_trans spec false start (tail + 1) bs)
        (install_block_lem d v y w bs l b (omega arith) clean (omega arith))
      ∙ install_trans_lem (update d b x) (update v b x) (update y b false) (w ++ ((b, x) ∷ []))
          (tail + 1) bs (omega arith) (omega arith) a.1 (λ i hi. ground (arith, c i))
      ∙ ap (λ z. some (tt, z))
          (after_cons d v y [] w b x _ _
            (install_writes-update v b x (tail + 1) bs a.0 (omega arith)))
    where
      l : ℕ
      l = start + tail + 1

      x : Block
      x = v l

      clean : y l ≡ false
      clean = let e : l ≡ start + (tail + 1) = omega arith in rw e (c (tail + 1) (omega arith))

  pub recover_trans_lem :
      (d v : Disk) (y : ℕ → Bool) (w : Writes) (tail : ℕ) (bs : List ℕ)
      → tail + length bs ≤ n
      → AllApart start n bs
      → ((i : ℕ) → i ≤ n → y (start + i) ≡ false)
      → install_trans spec true start tail bs (idle d v y [] w)
        ≡ some (tt, after d v y [] w (install_writes v start tail bs))
  unfolding install_trans
  recover_trans_lem d v y w tail [] k a c = rw (append-nil w)
  recover_trans_lem d v y w tail (b ∷ bs) k a c =
      >>-ok (install_block spec true l b) (install_trans spec true start (tail + 1) bs)
        (recover_block_lem d v y w l b (omega arith) clean)
      ∙ recover_trans_lem (update d b x) (update v b x) (update y b false) (w ++ ((b, x) ∷ []))
          (tail + 1) bs (omega arith) a.1 (λ i hi. ground (arith, c i))
      ∙ ap (λ z. some (tt, z))
          (after_cons d v y [] w b x _ _
            (install_writes-update v b x (tail + 1) bs a.0 (omega arith)))
    where
      l : ℕ
      l = start + tail + 1

      x : Block
      x = v l

      clean : y l ≡ false
      clean = let e : l ≡ start + (tail + 1) = omega arith in rw e (c (tail + 1) (omega arith))
