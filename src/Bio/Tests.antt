-- ===== src/Bio/Tests.antt =====
-- A cache of three buffers.
use os_lab.Base.Int.{ℤ, pos}
use os_lab.Base.{ℕ, true, false, List, [], ◌∷◌}
use os_lab.Bio.{Buf}

abbrev buf : ℕ → ℕ → ℕ → ℤ → Buf
buf dev blockno refcnt pid = record {
  valid = true;
  dirty = false;
  dev = dev;
  blockno = blockno;
  lock = record { locked = true; pid = pid };
  refcnt = refcnt;
  bytes = blockno ∷ [];
}

abbrev three : List Buf
three = buf 1 5 1 (pos 4) ∷ buf 1 6 0 (pos 0) ∷ buf 0 0 0 (pos 0) ∷ []
