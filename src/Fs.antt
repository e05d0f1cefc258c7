-- ===== src/Fs.antt =====
-- fs.c: the blocks of the disk and the content of an inode. The bit map is a Boolean for each block. A
-- block is 512 cells: bytes in a block of data, words in an indirect block; no block is read as both.
-- The reads and writes of blocks go through the buffer cache and the log (Bio, Log), which
-- give back what was written last, so that a block is the same before and after.
pub mod Alloc
pub mod Slots
pub mod Content
pub mod File
pub mod Trunc
pub mod Sample
mod Tests
use os_lab.Base.Outcome.{Outcome, ok, panic, ◌>>=◌, ◌>>◌, panic_if}
use os_lab.Base.Int.{ℤ, pos, negsuc}
use os_lab.Base.{
  ltb, leb, ◌==◌, if◌then◌else◌, length, set, get_or, take, drop, ℕ, zero, suc, ◌+◌, ◌-◌, ◌*◌, ◌/◌,
  ◌%◌, ◌^◌, Bool, true, false, ◌&&◌, ◌||◌, not, Option, none, some, List, [], ◌∷◌, ◌++◌,
}

-- BSIZE, NDIRECT, NINDIRECT and MAXFILE
abbrev pub bsize : ℕ
bsize = 512

abbrev pub ndirect : ℕ
ndirect = 12

abbrev pub nindirect : ℕ
nindirect = 128

abbrev pub maxfile : ℕ
maxfile = 140

pub record Fs : Type 0 where
  pub size : ℕ
  pub used : ℕ → Bool
  pub cells : ℕ → ℕ → ℕ

-- T_DIR, T_FILE and T_DEV
pub data FileKind : Type 0 where
  t_none t_dir t_file t_dev : FileKind

-- `struct inode`, as far as its content goes.
pub record Inode : Type 0 where
  pub kind : FileKind
  pub major : ℤ
  pub size : ℕ
  pub addrs : List ℕ

-- The two loops of `balloc` visit the blocks in order; `n` of them are left from `b` on.
unfoldable pub first_free : (ℕ → Bool) → ℕ → ℕ → Option ℕ
first_free used zero b = none
first_free used (suc n) b = let rest = first_free used n (suc b) in if used b then rest else some b

abbrev pub mark : (ℕ → Bool) → ℕ → Bool → ℕ → Bool
mark used b v x = if x == b then v else used x

-- `bzero`
abbrev pub bzero : (ℕ → ℕ → ℕ) → ℕ → ℕ → ℕ → ℕ
bzero cells b x o = if x == b then 0 else cells x o

unfoldable pub balloc : Fs → Outcome (ℕ × Fs)
unfolding first_free
balloc fs = elim (first_free fs.used fs.size 0) [
  | none ↦ panic
  | some b ↦ ok (b, record fs { used = mark fs.used b true; cells = bzero fs.cells b })
]

unfoldable pub bfree : Fs → ℕ → Outcome Fs
bfree fs b = do panic_if (not (fs.used b)); ok (record fs { used = mark fs.used b false })

abbrev pub set_cell : (ℕ → ℕ → ℕ) → ℕ → ℕ → ℕ → ℕ → ℕ → ℕ
set_cell cells b o v x p = if (x == b) && (p == o) then v else cells x p

-- An address in the inode, allocated if it is 0.
unfoldable pub own_block : Fs → Inode → ℕ → Outcome (ℕ × Fs × Inode)
unfolding balloc
own_block fs ip k =
    let addr = get_or ip.addrs k 0 in
    if addr == 0
    then (balloc fs >>= λ (a, fs'). ok (a, fs', record ip { addrs = set ip.addrs k a }))
    else ok (addr, fs, ip)

-- An address in the indirect block `b`, allocated if it is 0.
unfoldable pub indirect_block : Fs → ℕ → ℕ → Outcome (ℕ × Fs)
unfolding balloc
indirect_block fs b j =
    let addr = fs.cells b j in
    if addr == 0
    then (balloc fs >>= λ (a, fs'). ok (a, record fs' { cells = set_cell fs'.cells b j a }))
    else ok (addr, fs)

unfoldable pub bmap : Fs → Inode → ℕ → Outcome (ℕ × Fs × Inode)
unfolding own_block indirect_block
bmap fs ip bn =
    if ltb bn ndirect
    then own_block fs ip bn
    else (if ltb (bn - ndirect) nindirect
        then (own_block fs ip ndirect >>= λ (b, fs', ip').
            (indirect_block fs' b (bn - ndirect) >>= λ (a, fs''). ok (a, fs'', ip')))
        else panic)

-- `memmove(bp->data + o, src, m)`
abbrev pub fill : (ℕ → ℕ → ℕ) → ℕ → ℕ → List ℕ → ℕ → ℕ → ℕ
fill cells b o src x p =
    if (x == b) && (leb o p && ltb p (o + length src)) then get_or src (p - o) 0 else cells x p

-- `m`, with `n` bytes left.
abbrev pub piece : ℕ → ℕ → ℕ
piece off n = if ltb n (bsize - off % bsize) then n else bsize - off % bsize

-- The loop of `writei` over the bytes that are left; `none` when the fuel runs out.
unfoldable pub write_loop : ℕ → Fs → Inode → ℕ → List ℕ → Option (Outcome (Fs × Inode))
write_loop fuel fs ip off [] = some (ok (fs, ip))
write_loop zero fs ip off (c ∷ src) = none
write_loop (suc fuel) fs ip off (c ∷ src) =
    let m = piece off (length (c ∷ src)) in
    elim (bmap fs ip (off / bsize)) [
      | panic ↦ some panic
      | ok (b, fs', ip') ↦
          write_loop fuel (record fs' { cells = fill fs'.cells b (off % bsize) (take m (c ∷ src)) })
            ip' (off + m) (drop m (c ∷ src))
    ]

-- The cells from `o` on.
unfoldable pub read_cells : (ℕ → ℕ) → ℕ → ℕ → List ℕ
read_cells block o zero = []
read_cells block o (suc m) = block o ∷ read_cells block (o + 1) m

-- The loop of `readi`, with `n` bytes left.
unfoldable pub read_loop : ℕ → Fs → Inode → ℕ → ℕ → Option (Outcome (List ℕ × Fs × Inode))
read_loop fuel fs ip off zero = some (ok ([], fs, ip))
read_loop zero fs ip off (suc n) = none
read_loop (suc fuel) fs ip off (suc n) =
    let m = piece off (suc n) in
    elim (bmap fs ip (off / bsize)) [
      | panic ↦ some panic
      | ok (b, fs', ip') ↦ elim (read_loop fuel fs' ip' (off + m) (suc n - m)) [
        | none ↦ none
        | some panic ↦ some panic
        | some (ok (bytes, fs'', ip'')) ↦
            some (ok (read_cells (fs'.cells b) (off % bsize) m ++ bytes, fs'', ip''))
      ]
    ]

-- NDEV
abbrev pub ndev : ℕ
ndev = 10

-- The functions that the entries of `devsw` hold: `write` gets the bytes, `read` gives some.
abbrev pub ReadDevices : Type 0
ReadDevices = ℕ → Option (ℕ → ℤ × List ℕ)

abbrev pub WriteDevices : Type 0
WriteDevices = ℕ → Option (List ℕ → ℤ)

-- `devsw[major]`, which is looked up only inside the table.
abbrev pub device : {A : Type 0} → (ℕ → Option A) → ℤ → Option A
device devsw (negsuc m) = none
device devsw (pos m) = if leb ndev m then none else devsw m

-- `readi`: the result, the bytes in `dst`, and what `bmap` may have changed.
unfoldable pub readi : ReadDevices → Fs → Inode → ℕ → ℕ → Option (Outcome (ℤ × List ℕ × Fs × Inode))
readi devsw fs ip off n =
    let from_device : ℤ × List ℕ = elim (device devsw ip.major) [
      | none ↦ (negsuc 0, [])
      | some read ↦ read n
    ] in
    let m = (if ltb ip.size (off + n) then ip.size - off else n) in
    elim ip.kind [
      | t_dev ↦ some (ok (from_device.0, from_device.1, fs, ip))
      | _ ↦
          if ltb ip.size off || ltb ((off + n) % 2 ^ 32) off
          then some (ok (negsuc 0, [], fs, ip))
          else elim (read_loop m fs ip off m) [
            | none ↦ none
            | some panic ↦ some panic
            | some (ok (bytes, fs', ip')) ↦ some (ok (pos m, bytes, fs', ip'))
          ]
    ]

-- `ip->size = off` and `iupdate`
abbrev pub grow : Inode → ℕ → ℕ → Inode
grow ip n off = if ltb 0 n && ltb ip.size off then record ip { size = off } else ip

unfoldable pub writei : WriteDevices → Fs → Inode → ℕ → List ℕ → Option (Outcome (ℤ × Fs × Inode))
writei devsw fs ip off src =
    let n = length src in
    let to_device : ℤ = elim (device devsw ip.major) [ none ↦ negsuc 0 | some write ↦ write src ] in
    elim ip.kind [
      | t_dev ↦ some (ok (to_device, fs, ip))
      | _ ↦
          if ltb ip.size off || ltb ((off + n) % 2 ^ 32) off
          then some (ok (negsuc 0, fs, ip))
          else (if ltb (maxfile * bsize) (off + n)
              then some (ok (negsuc 0, fs, ip))
              else elim (write_loop n fs ip off src) [
                | none ↦ none
                | some panic ↦ some panic
                | some (ok (fs', ip')) ↦ some (ok (pos n, fs', grow ip' n (off + n)))
              ])
    ]
