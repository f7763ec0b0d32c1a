-- ===== src/Fs/Tests.antt =====
-- An empty file on a small disk, written and read.
use tatak_os.Base.{
  ℕ, zero, suc, ◌+◌, ◌≡◌, ◌≤◌, ◌<◌, ◌⊎◌, refl, true, false, Option, none, some, arith, ◌==◌,
  if◌then◌else◌,
}
use tatak_os.Fs.{
  Bytes, Superblock, Fs, Inode, is_set, find_clear, word, put_word, balloc_from, balloc, bfree,
  clear_bit,
}
use tatak_os.Fs.Array.{IsStored, writei_lem}
use tatak_os.Fs.Balloc.{used, IsLayout}
use tatak_os.Fs.Budget.{writei_fits}
use tatak_os.Fs.Data.{readi, writei}
use tatak_os.Fs.Dinode.{half, put_half, put_addrs, put_dinode, get_dinode, iupdate, load}
use tatak_os.Fs.Grow.{spare}
use tatak_os.Fs.Read.{to_kernel}
use tatak_os.Fs.Roundtrip.{readi-writei}
use tatak_os.Fs.Slots.{slot, IsFile}
use tatak_os.Fs.Trunc.{itrunc, free_direct, free_last}
use tatak_os.Fs.Write.{from_kernel}

-- Block 2 is for inodes, 3 for the map, and the data are from 5 on.
abbrev sb : Superblock
sb = record {
  magic = 270544960;
  size = 20;
  ninodes = 8;
  logstart = 4;
  inodestart = 2;
  bmapstart = 3;
}

abbrev fs : Fs
fs = record {
  blocks = λ b j. if b == 3 then (if j == 0 then 31 else 0) else 0;
  logged = λ b. false;
}

abbrev ip : Inode
ip = record {
  inum = 1;
  ref = 1;
  valid = true;
  type = 2;
  major = 0;
  minor = 0;
  nlink = 1;
  size = 0;
  addrs = λ i. 0;
}

layout : IsLayout sb 5
layout = record { map_below = omega arith; data_below = omega arith; narrow = omega arith }

hole : (k : ℕ) → slot fs ip k ≡ 0
unfolding slot
hole k = ground arith

marked : (b : ℕ) → b < 5 → used sb fs b ≡ true
unfolding used is_set
marked zero lt = refl
marked (suc zero) lt = refl
marked (suc (suc zero)) lt = refl
marked (suc (suc (suc zero))) lt = refl
marked (suc (suc (suc (suc zero)))) lt = refl
marked (suc (suc (suc (suc (suc b))))) lt = absurd (omega arith)

ip-IsFile : IsFile sb 5 fs ip
ip-IsFile = record {
  marks = marked;
  above = λ k le pos. absurd (pos (hole k));
  below = λ k le pos. absurd (pos (hole k));
  marked = λ k le pos. absurd (pos (hole k));
  apart = λ k l le le' pos e. absurd (pos (hole k));
}

spares : 4 ≤ spare sb fs 20
unfolding spare used is_set
spares = omega arith

writei_lem_example :
    (ip' : Inode) × (fs' : Fs) × (writei sb (from_kernel (λ a. a)) 7 0 3 ip fs
      ≡ some (some 3, (ip', fs')))
    × IsStored sb 5 layout fs ip (λ a. a) 7 0 3 fs' ip'
writei_lem_example =
    writei_lem sb 5 layout (λ a. a) 7 0 3 ip fs (omega arith) ip-IsFile (omega arith) (omega arith)
      (omega arith) (omega (arith, spares))

-- Three bytes into the empty file.
writei_fits_example :
    (ip' : Inode) × (fs' : Fs) × (block : ℕ → ℕ) × (writei sb (from_kernel (λ a. a)) 7 0 3 ip fs
      ≡ some (some 3, (ip', fs')))
    × ((x : ℕ) → fs'.logged x ≡ true → (false ≡ true) ⊎ ((i : ℕ) × (i < 10) × (x ≡ block i)))
writei_fits_example =
    writei_fits sb 5 layout (λ a. a) 7 0 3 ip fs (omega arith) ip-IsFile (omega arith) (omega arith)
      (omega arith) (omega (arith, spares)) (omega arith) (omega arith)

readi-writei_example :
    (ip1 ip2 : Inode) × (fs1 fs2 : Fs) × (mem2 : Bytes) × (writei sb
        (from_kernel (λ a. a))
        7
        0
        3
        ip
        fs
      ≡ some (some 3, (ip1, fs1)))
    × (readi sb to_kernel 50 0 3 ip1 fs1 (λ a. 0) ≡ some (some 3, (ip2, (fs2, mem2))))
    × ((j : ℕ) → j < 3 → mem2 (50 + j) ≡ 7 + j)
readi-writei_example =
    readi-writei sb 5 layout (λ a. a) (λ a. 0) 7 50 0 3 ip fs (omega arith) ip-IsFile (omega arith)
      (omega arith) (omega arith) (omega arith) (omega arith) (omega (arith, spares))

abbrev first : Option (ℕ × Fs) → ℕ
first none = 0
first (some (b, t)) = b

abbrev size_of : Option Inode → ℕ
size_of none = 0
size_of (some p) = p.size

-- The first free block is 5.
first_test : first (balloc sb fs) ≡ 5
unfolding balloc balloc_from find_clear is_set
first_test = refl

-- `iupdate`, and `ilock` of an inode that is not valid.
load_test :
    size_of (load sb (record ip { valid = false }) (iupdate sb (record ip { size = 70000 }) fs))
    ≡ 70000
unfolding load iupdate get_dinode put_dinode put_addrs put_half half word put_word
load_test = refl

abbrev fs_of : Option (Inode × Fs) → Fs
fs_of none = fs
fs_of (some (p, t)) = t

-- Block 4 is the next one to be allocated after `itrunc` of a file that has it.
trunc_test :
    first (balloc sb (fs_of (itrunc sb (record ip { addrs = λ i. if i == 0 then 4 else 0 }) fs)))
    ≡ 4
unfolding itrunc free_direct free_last bfree clear_bit iupdate put_dinode put_addrs put_half
    put_word balloc balloc_from find_clear is_set
trunc_test = refl
