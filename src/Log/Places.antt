-- ===== src/Log/Places.antt =====
-- Where the writes of a commit go: the log's blocks, the header, and the homes outside the log.
use tatak_os.Base.{
  ℕ, zero, suc, ◌+◌, ◌<◌, ◌≤◌, ◌≡◌, ◌⊎◌, refl, ap, ap₂, ◌∙◌, sym, Bool, false, List, [], ◌∷◌, ◌++◌,
  arith, length, take, take-length, if◌then◌else◌,
}
use tatak_os.Disk.{Disk, Writes, update, update_ne, update_self, apply}
use tatak_os.Buffers.{mem}
use tatak_os.Log.Loops.{cleaned, Apart, AllApart, log_writes, install_writes, home_writes}

pub cleaned-false : (ws : Writes) (y : ℕ → Bool) (j : ℕ) → y j ≡ false → cleaned ws y j ≡ false
cleaned-false [] y j h = h
cleaned-false ((b, x) ∷ ws) y j h = cleaned-false ws (update y b false) j (ground arith)

pub cleaned-append :
    (ws vs : Writes) (y : ℕ → Bool) → cleaned (ws ++ vs) y ≡ cleaned vs (cleaned ws y)
cleaned-append [] vs y = refl
cleaned-append ((b, x) ∷ ws) vs y = cleaned-append ws vs (update y b false)

-- The log writes from `tail` on touch no block up to `start + tail`, and none past the log.
pub apply-log_writes_below :
    (v : Disk) (start tail : ℕ) (bs : List ℕ) (d : Disk) (j : ℕ)
    → j ≤ start + tail
    → apply (log_writes v start tail bs) d j ≡ d j
apply-log_writes_below v start tail [] d j h = refl
apply-log_writes_below v start tail (b ∷ bs) d j h =
    apply-log_writes_below v start (tail + 1) bs _ j (omega arith)
    ∙ update_ne d (start + tail + 1) j (v b) (omega arith)

-- No prefix of the log writes touches the header, or a block outside the log.
pub apply-take-log_writes :
    (v : Disk) (start n tail : ℕ) (bs : List ℕ) (d : Disk) (k j : ℕ)
    → tail + length bs ≤ n
    → (j ≤ start) ⊎ (start + n < j)
    → apply (take k (log_writes v start tail bs)) d j ≡ d j
apply-take-log_writes v start n tail bs d zero j h a = refl
apply-take-log_writes v start n tail [] d (suc k) j h a = refl
apply-take-log_writes v start n tail (b ∷ bs) d (suc k) j h a =
    apply-take-log_writes v start n (tail + 1) bs _ k j (omega arith) a
    ∙ update_ne d (start + tail + 1) j (v b) (omega arith)

pub length-log_writes :
    (v : Disk) (start tail : ℕ) (bs : List ℕ) → length (log_writes v start tail bs) ≡ length bs
length-log_writes v start tail [] = refl
length-log_writes v start tail (b ∷ bs) = ap suc (length-log_writes v start (tail + 1) bs)

pub apply-log_writes_out :
    (v : Disk) (start n : ℕ) (bs : List ℕ) (d : Disk) (j : ℕ)
    → length bs ≤ n
    → Apart start n j
    → apply (log_writes v start 0 bs) d j ≡ d j
apply-log_writes_out v start n bs d j h a =
    ap (λ ws. apply ws d j) (sym (take-length (log_writes v start 0 bs)))
    ∙ apply-take-log_writes v start n 0 bs d (length (log_writes v start 0 bs)) j (omega arith)
        (ground arith)

-- No prefix of the home writes touches the log.
pub apply-take-home_writes :
    (v : Disk) (start n : ℕ) (bs : List ℕ) (d : Disk) (k j : ℕ)
    → AllApart start n bs
    → start ≤ j
    → j ≤ start + n
    → apply (take k (home_writes v bs)) d j ≡ d j
apply-take-home_writes v start n bs d zero j a h g = refl
apply-take-home_writes v start n [] d (suc k) j a h g = refl
apply-take-home_writes v start n (b ∷ bs) d (suc k) j a h g =
    apply-take-home_writes v start n bs _ k j a.1 h g ∙ update_ne d b j (v b) (omega arith)

pub apply-home_writes_log :
    (v : Disk) (start n : ℕ) (bs : List ℕ) (d : Disk) (j : ℕ)
    → AllApart start n bs
    → start ≤ j
    → j ≤ start + n
    → apply (home_writes v bs) d j ≡ d j
apply-home_writes_log v start n bs d j a h g =
    ap (λ ws. apply ws d j) (sym (take-length (home_writes v bs)))
    ∙ apply-take-home_writes v start n bs d (length (home_writes v bs)) j a h g

-- After the home writes, or some of them, the blocks outside the list are as before.
pub apply-take-home_writes_out :
    (v : Disk) (bs : List ℕ) (d : Disk) (k j : ℕ)
    → mem j bs ≡ false
    → apply (take k (home_writes v bs)) d j ≡ d j
apply-take-home_writes_out v bs d zero j h = refl
apply-take-home_writes_out v [] d (suc k) j h = refl
apply-take-home_writes_out v (b ∷ bs) d (suc k) j h =
    apply-take-home_writes_out v bs _ k j (ground arith) ∙ update_ne d b j (v b) (ground arith)

pub apply-home_writes :
    (v : Disk) (bs : List ℕ) (d : Disk) (j : ℕ)
    → apply (home_writes v bs) d j ≡ (if mem j bs then v j else d j)
apply-home_writes v [] d j = refl
apply-home_writes v (b ∷ bs) d j = apply-home_writes v bs (update d b (v b)) j ∙ ground arith

-- The log blocks from `tail` on hold what `v` has at the blocks of the list.
abbrev pub LogHas : Disk → ℕ → ℕ → List ℕ → Disk → Type 0
LogHas d start tail [] v = Unit
LogHas d start tail (b ∷ bs) v = (d (start + tail + 1) ≡ v b) × LogHas d start (tail + 1) bs v

pub LogHas-log_writes :
    (v : Disk) (start tail : ℕ) (bs : List ℕ) (d : Disk)
    → LogHas (apply (log_writes v start tail bs) d) start tail bs v
LogHas-log_writes v start tail [] d = tt
LogHas-log_writes v start tail (b ∷ bs) d = (
  apply-log_writes_below v start (tail + 1) bs _ (start + tail + 1) (omega arith)
      ∙ update_self d (start + tail + 1) (v b),
  LogHas-log_writes v start (tail + 1) bs (update d (start + tail + 1) (v b)),
)

-- What the log holds depends on its own blocks only.
pub LogHas-congr :
    (d e : Disk) (start n tail : ℕ) (bs : List ℕ) (v : Disk)
    → tail + length bs ≤ n
    → ((j : ℕ) → start < j → j ≤ start + n → e j ≡ d j)
    → LogHas d start tail bs v
    → LogHas e start tail bs v
LogHas-congr d e start n tail [] v h same l = tt
LogHas-congr d e start n tail (b ∷ bs) v h same l = (
  same (start + tail + 1) (omega arith) (omega arith) ∙ l.0,
  LogHas-congr d e start n (tail + 1) bs v (omega arith) same l.1,
)

pub install-eq-home_writes :
    (d : Disk) (start tail : ℕ) (bs : List ℕ) (v : Disk)
    → LogHas d start tail bs v
    → install_writes d start tail bs ≡ home_writes v bs
install-eq-home_writes d start tail [] v h = refl
install-eq-home_writes d start tail (b ∷ bs) v h =
    ap₂ ◌∷◌ (ap (λ z. (b, z)) h.0) (install-eq-home_writes d start (tail + 1) bs v h.1)

-- Installing touches no block of the log.
pub apply-install_writes_log :
    (u : Disk) (start n tail : ℕ) (bs : List ℕ) (d : Disk) (j : ℕ)
    → AllApart start n bs
    → start ≤ j
    → j ≤ start + n
    → apply (install_writes u start tail bs) d j ≡ d j
apply-install_writes_log u start n tail [] d j a h g = refl
apply-install_writes_log u start n tail (b ∷ bs) d j a h g =
    apply-install_writes_log u start n (tail + 1) bs _ j a.1 h g
    ∙ update_ne d b j (u (start + tail + 1)) (omega arith)
