-- ===== src/Log.antt =====
-- log.c: the redo log that makes the disk writes of a group of system calls atomic. The disk may stop
-- at any write: `power` is the number of block writes that still reach it. What the kernel computes
-- after that has no effect, since only the disk survives.
pub mod Header
pub mod Loops
pub mod Install
pub mod Restore
pub mod Crash
pub mod Commit
pub mod Atomic
pub mod Ops
mod Tests
use os_lab.Base.Int.{ℤ, pos}
use os_lab.Base.{
  ltb, ◌==◌, if◌then◌else◌, take, replicate, ℕ, zero, suc, ◌+◌, ◌-◌, Bool, false, List, [], ◌∷◌,
}

abbrev pub logsize : ℕ
logsize = 30

abbrev pub maxopblocks : ℕ
maxopblocks = 10

-- A block of 512 bytes as its 128 words.
abbrev pub Block : Type 0
Block = List ℕ

abbrev pub block_words : ℕ
block_words = 128

-- `struct logheader`, with its array of LOGSIZE block numbers.
pub record LogHeader : Type 0 where
  pub n : ℕ
  pub block : List ℕ

-- `struct log`, without the device, of which there is one.
pub record Log : Type 0 where
  pub start : ℕ
  pub size : ℕ
  pub outstanding : ℤ
  pub committing : Bool
  pub lh : LogHeader

-- `cache b` is the content that `bread` of block `b` returns: the cached copy, or the disk's if the
-- block is not cached. `dirty` holds the blocks pinned by B_DIRTY.
pub record Machine : Type 0 where
  pub log : Log
  pub disk : ℕ → Block
  pub cache : ℕ → Block
  pub dirty : ℕ → Bool
  pub power : ℕ

abbrev pub update {ℓ} : {A : Type ℓ} → (ℕ → A) → ℕ → A → ℕ → A
update f a v b = if b == a then v else f b

-- `bwrite` of a buffer for block `b` with the content `v`; the disk driver clears B_DIRTY.
unfoldable pub bwrite : Machine → ℕ → Block → Machine
bwrite m b v = record m {
  cache = update m.cache b v;
  disk = if m.power == 0 then m.disk else update m.disk b v;
  dirty = update m.dirty b false;
  power = m.power - 1;
}

-- for (i = 0; i < n; i++) dst[i] = src[i];
abbrev pub copy_first : ℕ → List ℕ → List ℕ → List ℕ
copy_first zero src dst = dst
copy_first (suc n) (s ∷ src) (d ∷ dst) = s ∷ copy_first n src dst
copy_first (suc n) src dst = dst

-- The block numbers of the transaction.
abbrev pub logged : Log → List ℕ
logged l = take l.lh.n l.lh.block

-- The loop of `install_trans` over the block numbers that are left, from `tail` on.
unfoldable pub install_loop : List ℕ → ℕ → Machine → Machine
install_loop [] tail m = m
install_loop (b ∷ bs) tail m =
    install_loop bs (tail + 1) (bwrite m b (m.cache (m.log.start + tail + 1)))

unfoldable pub install_trans : Machine → Machine
unfolding install_loop
install_trans m = install_loop (logged m.log) 0 m

-- The loop of `write_log`.
unfoldable pub write_log_loop : List ℕ → ℕ → Machine → Machine
write_log_loop [] tail m = m
write_log_loop (b ∷ bs) tail m =
    write_log_loop bs (tail + 1) (bwrite m (m.log.start + tail + 1) (m.cache b))

unfoldable pub write_log : Machine → Machine
unfolding write_log_loop
write_log m = write_log_loop (logged m.log) 0 m

-- The header block after the writes of `write_head`: the words behind the block numbers stay.
abbrev pub head_block : LogHeader → Block → Block
head_block lh [] = []
head_block lh (w ∷ ws) = lh.n ∷ copy_first lh.n lh.block ws

unfoldable pub write_head : Machine → Machine
write_head m = bwrite m m.log.start (head_block m.log.lh (m.cache m.log.start))

-- The header that `read_head` reads.
abbrev pub head_of : Block → LogHeader → LogHeader
head_of [] lh = lh
head_of (w ∷ ws) lh = record { n = w; block = copy_first w ws lh.block }

unfoldable pub read_head : Machine → Machine
read_head m = record m { log = record m.log { lh = head_of (m.cache m.log.start) m.log.lh } }

-- `log.lh.n = 0`
abbrev pub clear_head : Machine → Machine
clear_head m = record m { log = record m.log { lh = record m.log.lh { n = 0 } } }

unfoldable pub recover_from_log : Machine → Machine
unfolding read_head install_trans write_head
recover_from_log m = write_head (clear_head (install_trans (read_head m)))

unfoldable pub commit : Machine → Machine
unfolding write_log write_head install_trans
commit m =
    if ltb 0 m.log.lh.n
    then write_head (clear_head (install_trans (write_head (write_log m))))
    else m

-- The machine at a boot: memory is lost, and `log` is all zero.
abbrev pub boot : ℕ → ℕ → (ℕ → Block) → ℕ → Machine
boot start size disk power = record {
  log = record {
    start = start;
    size = size;
    outstanding = pos 0;
    committing = false;
    lh = record { n = 0; block = replicate logsize 0 };
  };
  disk = disk;
  cache = disk;
  dirty = λ b. false;
  power = power;
}

-- `initlog`, for the `logstart` and `nlog` of the superblock. Its panic tests a constant.
unfoldable pub initlog : ℕ → ℕ → (ℕ → Block) → ℕ → Machine
unfolding recover_from_log
initlog start size disk power = recover_from_log (boot start size disk power)
