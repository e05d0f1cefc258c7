-- ===== src/Fs/Slots.antt =====
-- The 141 block addresses of an inode: the 13 of the inode, and the 128 of the indirect block.
use os_lab.Base.{
  ltb, ◌==◌, if◌then◌else◌, lt→ltb, length, get_or, ℕ, zero, suc, ◌+◌, ◌-◌, ◌*◌, ◌/◌, ◌%◌, ◌≤◌, ◌<◌,
  ◌≡◌, refl, sym, ap, ◌∙◌, subst, ◌≢◌, Bool, true, false, arith, ℕ_discrete,
}
use os_lab.Fs.{Fs, Inode, mark}
pub mod New
pub mod Own
pub mod Indirect
pub mod Map

unfoldable pub slot : Fs → Inode → ℕ → ℕ
slot fs ip k =
    if ltb k 13
    then get_or ip.addrs k 0
    else (if get_or ip.addrs 12 0 == 0 then 0 else fs.cells (get_or ip.addrs 12 0) (k - 13))

pub slot_own : (fs : Fs) (ip : Inode) (k : ℕ) → k < 13 → slot fs ip k ≡ get_or ip.addrs k 0
unfolding slot
slot_own fs ip k lt = rw (lt→ltb k 13 lt)

pub slot_indirect :
    (fs : Fs) (ip : Inode) (k : ℕ)
    → 13 ≤ k
    → get_or ip.addrs 12 0 ≢ 0
    → slot fs ip k ≡ fs.cells (get_or ip.addrs 12 0) (k - 13)
unfolding slot
slot_indirect fs ip k le ne = ground arith

pub slot_absent :
    (fs : Fs) (ip : Inode) (k : ℕ) → 13 ≤ k → get_or ip.addrs 12 0 ≡ 0 → slot fs ip k ≡ 0
unfolding slot
slot_absent fs ip k le e = ground arith

-- The slots of the indirect block are as they were where its cells are.
pub slot_same :
    (fs fs' : Fs) (ip ip' : Inode) (k : ℕ)
    → 13 ≤ k
    → get_or ip'.addrs 12 0 ≡ get_or ip.addrs 12 0
    → (get_or ip.addrs 12 0 ≢ 0
        → fs'.cells (get_or ip.addrs 12 0) (k - 13) ≡ fs.cells (get_or ip.addrs 12 0) (k - 13))
    → slot fs' ip' k ≡ slot fs ip k
slot_same fs fs' ip ip' k le e same = elim (ℕ_discrete (get_or ip.addrs 12 0) 0) [
  | yes z ↦ slot_absent fs' ip' k le (e ∙ z) ∙ sym (slot_absent fs ip k le z)
  | no ne ↦
      slot_indirect fs' ip' k le (λ z. ne (sym e ∙ z))
      ∙ ap (λ b. fs'.cells b (k - 13)) e
      ∙ same ne
      ∙ sym (slot_indirect fs ip k le ne)
]

-- The slot of the block `bn` of the content.
abbrev pub key : ℕ → ℕ
key bn = if ltb bn 12 then bn else bn + 1

pub key_ne_12 : (bn : ℕ) → key bn ≢ 12
key_ne_12 bn = ground arith

pub key_injective : (m n : ℕ) → key m ≡ key n → m ≡ n
key_injective m n e = ground arith

pub key_lt : (o : ℕ) → o < 512 * 140 → key (o / 512) < 141
key_lt o lt = ground arith

-- The blocks of the inode are in use, no two of them are the same.
pub record HasBlocks (fs : Fs) (ip : Inode) : Type 0 where
  pub thirteen : length ip.addrs ≡ 13
  pub zero_used : fs.used 0 ≡ true
  pub all_used : (k : ℕ) → k < 141 → slot fs ip k ≢ 0 → fs.used (slot fs ip k) ≡ true
  pub apart : (j k : ℕ) → j < 141 → k < 141 → slot fs ip j ≢ 0 → slot fs ip j ≡ slot fs ip k → j ≡ k

pub indirect_used :
    (fs : Fs) (ip : Inode)
    → HasBlocks fs ip
    → get_or ip.addrs 12 0 ≢ 0
    → fs.used (get_or ip.addrs 12 0) ≡ true
indirect_used fs ip inv ne =
    subst (λ b. fs.used b ≡ true) own (inv.all_used 12 (omega arith) (λ z. ne (sym own ∙ z)))
  where
    own : slot fs ip 12 ≡ get_or ip.addrs 12 0
    own = slot_own fs ip 12 (omega arith)

-- The byte `o` of the content; 0 where the inode has no block.
unfoldable pub byte_at : Fs → Inode → ℕ → ℕ
byte_at fs ip o = let b = slot fs ip (key (o / 512)) in if b == 0 then 0 else fs.cells b (o % 512)

pub byte_at_none :
    (fs : Fs) (ip : Inode) (o : ℕ) → slot fs ip (key (o / 512)) ≡ 0 → byte_at fs ip o ≡ 0
unfolding byte_at
byte_at_none fs ip o e = rw e refl

pub byte_at_some :
    (fs : Fs) (ip : Inode) (o b : ℕ)
    → slot fs ip (key (o / 512)) ≡ b
    → b ≢ 0
    → byte_at fs ip o ≡ fs.cells b (o % 512)
unfolding byte_at
byte_at_some fs ip o b e ne = rw e (ground arith)

-- How many of the `n` blocks from `b` on are free.
unfoldable pub free_from : (ℕ → Bool) → ℕ → ℕ → ℕ
free_from used zero b = 0
free_from used (suc n) b = (if used b then 0 else 1) + free_from used n (suc b)

abbrev pub free_blocks : Fs → ℕ
free_blocks fs = free_from fs.used fs.size 0

-- `bmap` has put the free block `a`, zeroed, into the empty slot `at`.
pub record Adds (fs : Fs) (ip : Inode) (at a : ℕ) (fs' : Fs) (ip' : Inode) : Type 0 where
  pub was_free : fs.used a ≡ false
  pub in_range : a < fs.size
  pub was_empty : slot fs ip at ≡ 0
  pub here : slot fs' ip' at ≡ a
  pub others : (k : ℕ) → k < 141 → k ≢ at → slot fs' ip' k ≡ slot fs ip k
  pub marks : (x : ℕ) → fs'.used x ≡ mark fs.used a true x
  pub zeroed : (o : ℕ) → fs'.cells a o ≡ 0
  pub kept : (x o : ℕ) → fs.used x ≡ true → x ≢ slot fs ip 12 → fs'.cells x o ≡ fs.cells x o
  pub counted : free_blocks fs ≡ suc (free_blocks fs')
  pub same_size : fs'.size ≡ fs.size
  pub same_length : length ip'.addrs ≡ length ip.addrs
  pub same_kind : ip'.kind ≡ ip.kind
  pub same_end : ip'.size ≡ ip.size

-- The block `x` is in use, and not by the inode.
pub record Foreign (fs : Fs) (ip : Inode) (x : ℕ) : Type 0 where
  pub in_use : fs.used x ≡ true
  pub elsewhere : (k : ℕ) → k < 141 → slot fs ip k ≢ x
