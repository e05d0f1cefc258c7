-- ===== src/Log/Restore.antt =====
-- Disks that a recovery turns into a given content, and the end that recovery and commit share.
use os_lab.Base.{
  length, get_elem?, take, length-take, lt_of_get_elem?, NotIn, Distinct, NotIn-cases, ℕ, suc, ◌+◌,
  ◌≤◌, ◌<◌, ◌≡◌, ap, ◌∙◌, subst, ap₂, ◌⊎◌, inl, inr, some, List, [], ◌∷◌, arith, dec_lt,
}
use os_lab.Log.{
  logsize, Block, block_words, Log, Machine, bwrite, logged, install_trans, head_block, write_head,
  clear_head,
}
use os_lab.Log.Loops.{disk-bwrite_other, disk-bwrite_dead, disk-bwrite_same, Clear}
use os_lab.Log.Install.{Installed, install_loop-Installed}

-- A block that is neither the log's header nor one of its blocks. The log has LOGSIZE blocks in all,
-- the header included: mkfs makes it so, and `log_write` never logs more than `size - 1`.
abbrev pub IsHome : ℕ → ℕ → Type 0
IsHome start b = (b < start) ⊎ (start + logsize ≤ b)

abbrev pub AllHome : ℕ → List ℕ → Type 0
AllHome start [] = Unit {0}
AllHome start (b ∷ bs) = IsHome start b × AllHome start bs

pub AllHome-Clear : (start n : ℕ) (bs : List ℕ) → n < logsize → AllHome start bs → Clear start n bs
AllHome-Clear start n [] le h = tt
AllHome-Clear start n (b ∷ bs) le h = (omega arith, AllHome-Clear start n bs le h.1)

-- A block of the log is not among blocks that are all home.
pub AllHome-NotIn :
    (start a : ℕ) (bs : List ℕ) → start ≤ a → a < start + logsize → AllHome start bs → NotIn a bs
AllHome-NotIn start a [] l u h = tt
AllHome-NotIn start a (b ∷ bs) l u h = (λ e. omega arith, AllHome-NotIn start a bs l u h.1)

-- The disk holds the content `f` of the home blocks, but for a committed transaction of `n` blocks,
-- whose numbers and contents are in the log.
pub record Restorable (start n : ℕ) (d f : ℕ → Block) : Type 0 where
  pub ws : List ℕ
  pub head : d start ≡ n ∷ ws
  pub words : suc (length ws) ≡ block_words
  pub fits : n < logsize
  pub distinct : Distinct (take n ws)
  pub homes : AllHome start (take n ws)
  pub copies : (j b : ℕ) → get_elem? (take n ws) j ≡ some b → d (start + 1 + j) ≡ f b
  pub rest : (a : ℕ) → IsHome start a → NotIn a (take n ws) → d a ≡ f a

-- The kernel is about to install that transaction, from a log that starts at `start`.
pub record InstallingAt (start n : ℕ) (m : Machine) (f : ℕ → Block) : Type 0 where
  pub pending : Restorable start n m.disk f
  pub log_blocks : logged m.log ≡ take n pending.ws
  pub cache_head : m.cache start ≡ n ∷ pending.ws
  pub cache_copies :
      (j b : ℕ) → get_elem? (take n pending.ws) j ≡ some b → m.cache (start + 1 + j) ≡ f b

abbrev pub Installing : ℕ → Machine → (ℕ → Block) → Type 0
Installing n m f = InstallingAt m.log.start n m f

pub length-take_fits : (n : ℕ) (ws : List ℕ) → n ≤ length ws → length (take n ws) ≡ n
length-take_fits n ws h = omega (arith, length-take n ws)

-- The end of `commit` and of `recover_from_log`.
abbrev pub finish : Machine → Machine
finish m = write_head (clear_head (install_trans m))

module _ (n : ℕ) (m : Machine) (f : ℕ → Block) (s : Installing n m f) where
  open s.pending use {ws, head, words, fits, distinct, homes, copies, rest}

  abbrev start : ℕ
  start = m.log.start

  abbrev bs : List ℕ
  bs = take n ws

  length-bs : length bs ≡ n
  length-bs = length-take_fits n ws (omega arith)

  installed : Installed bs 0 m (install_trans m)
  unfolding install_trans
  installed =
      rw s.log_blocks (install_loop-Installed bs 0 m distinct (AllHome-Clear-zero (length-bs)))
    where
      AllHome-Clear-zero : length bs ≡ n → Clear (start + 0) (length bs) bs
      AllHome-Clear-zero e =
          subst (λ x. Clear x (length bs) bs) (omega arith)
            (AllHome-Clear start (length bs) bs (omega arith) homes)

  -- A block of the log is not written by the installation.
  log_block : (a : ℕ) → start ≤ a → a < start + logsize → NotIn a bs
  log_block a l u = AllHome-NotIn start a bs l u homes

  start_kept : (install_trans m).log.start ≡ start
  start_kept = ap (λ (l : Log). l.start) installed.log_kept

  -- The header block that the last write puts on the disk.
  cleared :
      head_block
        (clear_head (install_trans m)).log.lh
        ((install_trans m).cache (install_trans m).log.start)
      ≡ 0 ∷ ws
  cleared = ap (head_block (clear_head (install_trans m)).log.lh) (
      ap (install_trans m).cache start_kept
      ∙ installed.cache_kept start (log_block start (omega arith) (omega arith))
      ∙ s.cache_head)

  finish-eq : finish m ≡ bwrite (clear_head (install_trans m)) start (0 ∷ ws)
  unfolding write_head
  finish-eq = ap₂ (bwrite (clear_head (install_trans m))) start_kept cleared

  -- The disk stopped before the header was cleared: the transaction is still in the log.
  still_pending : m.power ≤ n → Restorable start n (finish m).disk f
  still_pending p =
      rw finish-eq (rw (disk-bwrite_dead (clear_head (install_trans m)) start (0 ∷ ws) dead) kept)
    where
      dead : (install_trans m).power ≡ 0
      dead = omega (arith, installed.power_left, length-bs)

      kept : Restorable start n (install_trans m).disk f
      kept = record {
        ws = ws;
        head = installed.disk_kept start (log_block start (omega arith) (omega arith)) ∙ head;
        words = words;
        fits = fits;
        distinct = distinct;
        homes = homes;
        copies = λ j b e.
            let lt = lt_of_get_elem? bs j b e in
            installed.disk_kept (start + 1 + j)
              (log_block (start + 1 + j) (omega arith) (omega (arith, length-bs)))
            ∙ copies j b e;
        rest = λ a h k. installed.disk_kept a k ∙ rest a h k;
      }

  -- The header was cleared: everything is installed.
  all_installed : n < m.power → Restorable start 0 (finish m).disk f
  all_installed p = rw finish-eq (record {
    ws = ws;
    head = disk-bwrite_same mc start v alive;
    words = words;
    fits = omega arith;
    distinct = tt;
    homes = tt;
    copies = λ j b e. cc;
    rest = λ a h k. disk-bwrite_other mc start v a (λ e. omega arith) ∙ home a h (NotIn-cases a bs);
  })
    where
      mc : Machine
      mc = clear_head (install_trans m)

      v : Block
      v = 0 ∷ ws

      alive : 0 < (install_trans m).power
      alive = omega (arith, installed.power_left, length-bs)

      home :
          (a : ℕ)
          → IsHome start a
          → NotIn a bs ⊎ ((j : ℕ) × (get_elem? bs j ≡ some a))
          → (install_trans m).disk a ≡ f a
      home a h (inl k) = installed.disk_kept a k ∙ rest a h k
      home a h (inr (j, e)) =
          let same : start + 0 + 1 + j ≡ start + 1 + j = omega arith in
          installed.disk_copied j a e (omega (arith, length-bs))
          ∙ ap m.cache same
          ∙ s.cache_copies j a e

  -- Whenever the disk stops, it is still restorable; with enough power nothing is pending.
  pub finish-Restorable :
      ((m.power ≤ n) × Restorable start n (finish m).disk f)
      ⊎ ((n < m.power) × Restorable start 0 (finish m).disk f)
  finish-Restorable = elim (dec_lt n m.power) [
    | yes p ↦ inr (p, all_installed p)
    | no p ↦ inl (omega arith, still_pending (omega arith))
  ]
