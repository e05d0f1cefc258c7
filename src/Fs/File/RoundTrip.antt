-- ===== src/Fs/File/RoundTrip.antt =====
-- A read of what a write has left.
use os_lab.Base.Outcome.{ok}
use os_lab.Base.Int.{pos}
use os_lab.Base.{
  length, get_or, ℕ, suc, ◌+◌, ◌-◌, ◌*◌, ◌≤◌, ◌<◌, ◌≡◌, refl, sym, ap, ◌∙◌, subst, ap₂, some, List,
  [], ◌∷◌, arith,
}
use os_lab.Fs.{bsize, maxfile, Fs, Inode, read_cells, ReadDevices, WriteDevices, readi, writei}
use os_lab.Fs.Content.{patch_in}
use os_lab.Fs.Content.Write.{needed}
use os_lab.Fs.Slots.{byte_at, free_blocks}
use os_lab.Fs.File.{IsFile, found, readi-eq}
use os_lab.Fs.File.Write.{new_end, writei-WroteFile}

read_cells-get_or :
    (f : ℕ → ℕ) (p : ℕ) (src : List ℕ)
    → ((i : ℕ) → i < length src → f (p + i) ≡ get_or src i 0)
    → read_cells f p (length src) ≡ src
unfolding read_cells
read_cells-get_or f p [] h = refl
read_cells-get_or f p (c ∷ src) h =
    ap₂ ◌∷◌ (ap f first ∙ h 0 (omega arith))
      (read_cells-get_or f (p + 1) src (λ i lt. ap f (next i) ∙ h (suc i) (omega arith)))
  where
    first : p ≡ p + 0
    first = omega arith

    next : (i : ℕ) → p + 1 + i ≡ p + suc i
    next i = omega arith

-- On a file or a directory whose blocks are its own, from an offset up to its end and up to MAXFILE
-- blocks, with two free blocks for each block of the content that the bytes touch: `writei` returns
-- the number of bytes, and `readi` at the same offset and of that many bytes then returns the same
-- number and the bytes that were written.
pub readi-writei :
    (read_dev : ReadDevices) (write_dev : WriteDevices) (fs : Fs) (ip : Inode) (off : ℕ)
    (src : List ℕ)
    → IsFile fs ip
    → off ≤ ip.size
    → off + length src ≤ maxfile * bsize
    → needed off (length src) ≤ free_blocks fs
    → (fs' : Fs) × (ip' : Inode) × (writei write_dev fs ip off src
        ≡ some (ok (pos (length src), fs', ip')))
      × (readi read_dev fs' ip' off (length src) ≡ some (ok (pos (length src), src, fs', ip')))
readi-writei read_dev write_dev fs ip off src file le fits room =
    let w = writei-WroteFile write_dev fs ip off src file le fits room in
    let all : found w.new_ip.size off (length src) ≡ length src =
      ap (λ z. found z off (length src)) w.end ∙ whole in
    (
      w.new_fs,
      w.new_ip,
      w.returned,
      readi-eq read_dev w.new_fs w.new_ip off (length src) w.file
            (subst (λ z. off ≤ z) (sym w.end) (ground arith)) (omega arith)
          ∙ ap
              (λ n.
                some (ok (pos n, read_cells (byte_at w.new_fs w.new_ip) off n, w.new_fs, w.new_ip)))
              all
          ∙ ap (λ bytes. some (ok (pos (length src), bytes, w.new_fs, w.new_ip)))
              (read_cells-get_or _ off src (λ i lt.
                w.content (off + i) (omega arith)
                ∙ patch_in (byte_at fs ip) off src (off + i) (omega arith) (omega arith)
                ∙ ap (λ j. get_or src j 0) (back i))),
    )
  where
    whole : found (new_end ip.size off (length src)) off (length src) ≡ length src
    whole = ground arith

    back : (i : ℕ) → off + i - off ≡ i
    back i = omega arith
