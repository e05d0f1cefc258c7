-- ===== src/Syscall.antt =====
-- syscall.c: the fetch of the arguments of a system call from the memory of the process.
pub mod Bounds
pub mod Strings
mod Tests
use os_lab.Base.{
  ltb, leb, ◌==◌, if◌then◌else◌, ℕ, zero, suc, ◌+◌, ◌-◌, ◌*◌, ◌%◌, ◌^◌, ◌||◌, Option, none, some,
}
use os_lab.Base.Find.{next_index}
use os_lab.Base.Int.{ℤ, pos, ltb_ℤ, to_int, to_uint}

-- What the functions read of the process: its memory, byte by byte, its size, and its stack pointer.
pub record User : Type 0 where
  pub mem : ℕ → ℕ
  pub sz : ℕ
  pub esp : ℕ

-- `*(int*)(addr)`, as a bit pattern.
abbrev pub word : (ℕ → ℕ) → ℕ → ℕ
word mem a = mem a + 256 * mem (a + 1) + 65536 * mem (a + 2) + 16777216 * mem (a + 3)

-- `none` where the function returns -1; else what it stores.
unfoldable pub fetchint : User → ℕ → Option ℤ
fetchint u addr =
    if leb u.sz addr || ltb u.sz ((addr + 4) % 2 ^ 32)
    then none
    else some (to_int (word u.mem addr))

-- The loop, with `n` bytes left up to the end of the memory: the number of bytes before the NUL.
unfoldable pub find_nul : (ℕ → ℕ) → ℕ → ℕ → Option ℕ
find_nul mem zero s = none
find_nul mem (suc n) s =
    let rest = find_nul mem n (s + 1) in if mem s == 0 then some 0 else next_index rest

unfoldable pub fetchstr : User → ℕ → Option ℕ
fetchstr u addr = if leb u.sz addr then none else find_nul u.mem (u.sz - addr) addr

unfoldable pub argint : User → ℕ → Option ℤ
argint u n = fetchint u ((u.esp + 4 + 4 * n) % 2 ^ 32)

-- The pointer, once `argint` has fetched `i`.
abbrev pub check_block : User → ℤ → ℤ → Option ℕ
check_block u size i =
    if ltb_ℤ size (pos 0)
      || (leb u.sz (to_uint i) || ltb u.sz ((to_uint i + to_uint size) % 2 ^ 32))
    then none
    else some (to_uint i)

unfoldable pub argptr : User → ℕ → ℤ → Option ℕ
argptr u n size = elim (argint u n) [ none ↦ none | some i ↦ check_block u size i ]

-- The pointer and the length.
unfoldable pub argstr : User → ℕ → Option (ℕ × ℕ)
argstr u n = elim (argint u n) [
  | none ↦ none
  | some addr ↦ elim (fetchstr u (to_uint addr)) [
    | none ↦ none
    | some len ↦ some (to_uint addr, len)
  ]
]
