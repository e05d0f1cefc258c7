-- ===== src/Fs/Trunc.antt =====
-- `itrunc`: the blocks of an inode are free again.
use os_lab.Base.Outcome.{Outcome, ok, ◌>>=◌, ◌>>◌}
use os_lab.Base.{◌==◌, if◌then◌else◌, get_or, take, ℕ, List, [], ◌∷◌, map}
use os_lab.Fs.{ndirect, nindirect, Fs, Inode, bfree, read_cells}
pub mod Frees
pub mod Entries
pub mod Owned
pub mod Truncates

-- `if(a[j]) bfree(ip->dev, a[j])`, for the addresses in order.
unfoldable pub free_addrs : Fs → List ℕ → Outcome Fs
free_addrs fs [] = ok fs
free_addrs fs (a ∷ rest) =
    if a == 0 then free_addrs fs rest else (bfree fs a >>= λ fs'. free_addrs fs' rest)

unfoldable pub itrunc : Fs → Inode → Outcome (Fs × Inode)
itrunc fs ip = do
  fs₁ ← free_addrs fs (take ndirect ip.addrs)
  let b = get_or ip.addrs ndirect 0
  fs₂ ←
      (if b == 0
        then ok fs₁
        else (free_addrs fs₁ (read_cells (fs₁.cells b) 0 nindirect) >>= λ fs'. bfree fs' b))
  ok (fs₂, record ip { addrs = map (λ _. 0) ip.addrs; size = 0 })
