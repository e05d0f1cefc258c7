-- ===== src/Fs/File.antt =====
-- `readi` on a file, or on a directory.
use os_lab.Base.Outcome.{ok}
use os_lab.Base.Int.{pos}
use os_lab.Base.{
  ltb, if◌then◌else◌, ℕ, ◌+◌, ◌-◌, ◌*◌, ◌/◌, ◌%◌, ◌^◌, ◌≤◌, ◌<◌, ◌≡◌, refl, ◌∙◌, ◌≢◌, false, ◌||◌,
  some, arith,
}
use os_lab.Fs.{
  bsize, maxfile, Fs, FileKind, t_none, t_dir, t_file, t_dev, Inode, read_cells, read_loop,
  ReadDevices, device, readi,
}
use os_lab.Fs.Slots.{slot, key, HasBlocks, byte_at}
use os_lab.Fs.Content.Read.{read_loop-eq}
pub mod Write
pub mod RoundTrip

-- An inode of a file or a directory whose blocks are its own and in use, with one for each byte.
pub record IsFile (fs : Fs) (ip : Inode) : Type 0 where
  pub no_device : ip.kind ≢ t_dev
  pub has_blocks : HasBlocks fs ip
  pub bounded : ip.size ≤ maxfile * bsize
  pub no_hole : (o : ℕ) → o < ip.size → slot fs ip (key (o / 512)) ≢ 0

pub not_device {ℓ} :
    {A : Type ℓ} (k : FileKind) (device other : A)
    → k ≢ t_dev
    → (elim k as (λ _. A) [ t_dev ↦ device | _ ↦ other ]) ≡ other
not_device t_none device other ne = refl
not_device t_dir device other ne = refl
not_device t_file device other ne = refl
not_device t_dev device other ne = absurd (ne refl)

-- The number of bytes from `off` on that a read of `n` bytes finds.
abbrev pub found : ℕ → ℕ → ℕ → ℕ
found end off n = if ltb end (off + n) then end - off else n

-- `readi` on a file or a directory whose blocks are its own, from an offset up to its end and with
-- no wrap of `off + n`: it returns, within its fuel, the number of bytes asked for, cut at the end of
-- the file, and those bytes of the content; neither the disk nor the inode changes.
pub readi-eq :
    (devsw : ReadDevices) (fs : Fs) (ip : Inode) (off n : ℕ)
    → IsFile fs ip
    → off ≤ ip.size
    → off + n < 2 ^ 32
    → readi devsw fs ip off n
      ≡ some (
          ok (
            pos (found ip.size off n),
            read_cells (byte_at fs ip) off (found ip.size off n),
            fs,
            ip,
          ))
unfolding readi
readi-eq devsw fs ip off n file le fits =
    not_device ip.kind _ _ file.no_device ∙ rw (guard, loop) refl
  where
    loop :
        read_loop (found ip.size off n) fs ip off (found ip.size off n)
        ≡ some (ok (read_cells (byte_at fs ip) off (found ip.size off n), fs, ip))
    loop =
        read_loop-eq (found ip.size off n) fs ip off (found ip.size off n) (omega arith)
          (ground (arith, file.bounded)) (λ o from to. file.no_hole o (ground arith))

    guard : (ltb ip.size off || ltb ((off + n) % 2 ^ 32) off) ≡ false
    guard = ground arith
