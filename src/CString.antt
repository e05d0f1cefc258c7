-- ===== src/CString.antt =====
-- string.c: `memmove` and `memcpy`, on memory as a function from addresses to bytes. Ranges do not wrap around the
-- address space.
pub mod Move
pub mod Strings
mod Tests
use os_lab.Base.{ltb, ◌==◌, if◌then◌else◌, ℕ, zero, suc, ◌+◌, ◌&&◌}

-- `*a = b`
abbrev pub store : (ℕ → ℕ) → ℕ → ℕ → ℕ → ℕ
store mem a b x = if x == a then b else mem x

-- `while(n-- > 0) *d++ = *s++`
unfoldable pub copy_up : (ℕ → ℕ) → ℕ → ℕ → ℕ → ℕ → ℕ
copy_up mem d s zero = mem
copy_up mem d s (suc n) = copy_up (store mem d (mem s)) (d + 1) (s + 1) n

-- `while(n-- > 0) *--d = *--s`, from `d + n` and `s + n`
unfoldable pub copy_down : (ℕ → ℕ) → ℕ → ℕ → ℕ → ℕ → ℕ
copy_down mem d s zero = mem
copy_down mem d s (suc n) = copy_down (store mem (d + n) (mem (s + n))) d s n

unfoldable pub memmove : (ℕ → ℕ) → ℕ → ℕ → ℕ → ℕ → ℕ
unfolding copy_up copy_down
memmove mem d s n = if ltb s d && ltb d (s + n) then copy_down mem d s n else copy_up mem d s n

unfoldable pub memcpy : (ℕ → ℕ) → ℕ → ℕ → ℕ → ℕ → ℕ
unfolding memmove
memcpy mem d s n = memmove mem d s n
