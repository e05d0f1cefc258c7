-- ===== src/FileTable/Tests.antt =====
-- A pipe's file with two holders, and the theorems at it.
use os_lab.Base.{
  get_elem?, ℕ, zero, suc, ◌+◌, ◌^◌, ◌<◌, ◌≡◌, sym, ap, true, false, none, some, some-injective,
  List, [], ◌∷◌, arith,
}
use os_lab.Base.Int.{pos}
use os_lab.FileTable.{fd_none, fd_pipe, File}
use os_lab.FileTable.Counts.{IsCounted}

abbrev shared : File
shared = record {
  type = fd_pipe;
  ref = pos 2;
  readable = true;
  writable = false;
  pipe = some 5;
  ip = none;
  off = 0;
}

abbrev files : List File
files = shared ∷ record shared { type = fd_none; ref = pos 0 } ∷ []

abbrev holders : ℕ → ℕ
holders zero = 2
holders (suc i) = 0

files-IsCounted : IsCounted files holders
files-IsCounted = record { counts = counts; small = small }
  where
    counts : (i : ℕ) (f : File) → get_elem? files i ≡ some f → f.ref ≡ pos (holders i)
    counts zero f g = sym (ap (λ (r : File). r.ref) (some-injective _ _ g))
    counts (suc zero) f g = sym (ap (λ (r : File). r.ref) (some-injective _ _ g))
    counts (suc (suc i)) f g = cc

    small : (i : ℕ) → holders i + 1 < 2 ^ 31
    small zero = omega arith
    small (suc i) = omega arith
