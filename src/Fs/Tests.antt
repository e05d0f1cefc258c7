-- ===== src/Fs/Tests.antt =====
-- The theorems at the sample, and runs of the code.
use os_lab.Fs.Sample.{disk, abc, no_read, no_write, abc-HasBlocks, abc-IsFile}
use os_lab.Base.Outcome.{ok}
use os_lab.Base.Int.{pos}
use os_lab.Base.{◌≤◌, ◌≡◌, refl, some, [], ◌∷◌, arith}
use os_lab.Fs.{Fs, Inode, own_block, bmap, read_cells, read_loop, readi, writei}
use os_lab.Fs.Slots.{free_from, free_blocks}
use os_lab.Fs.Content.Write.{needed}
use os_lab.Fs.Trunc.{itrunc}
use os_lab.Fs.Trunc.Truncates.{Truncates, itrunc-Truncates}
use os_lab.Fs.File.Write.{WroteFile, writei-WroteFile}
use os_lab.Fs.File.RoundTrip.{readi-writei}

room : needed 3 3 ≤ free_blocks disk
unfolding free_from
room = omega arith

-- The first bytes of the content.
reads_abc : readi no_read disk abc 1 9 ≡ some (ok (pos 2, 66 ∷ 67 ∷ [], disk, abc))
unfolding readi read_loop bmap own_block read_cells
reads_abc = refl

writei-WroteFile_example :
    WroteFile disk abc 3 (7 ∷ 8 ∷ 9 ∷ []) (writei no_write disk abc 3 (7 ∷ 8 ∷ 9 ∷ []))
writei-WroteFile_example =
    writei-WroteFile no_write disk abc 3 (7 ∷ 8 ∷ 9 ∷ []) abc-IsFile (omega arith) (omega arith)
      room

readi-writei_example :
    (fs' : Fs) × (ip' : Inode) × (writei no_write disk abc 3 (7 ∷ 8 ∷ 9 ∷ [])
      ≡ some (ok (pos 3, fs', ip')))
    × (readi no_read fs' ip' 3 3 ≡ some (ok (pos 3, 7 ∷ 8 ∷ 9 ∷ [], fs', ip')))
readi-writei_example =
    readi-writei no_read no_write disk abc 3 (7 ∷ 8 ∷ 9 ∷ []) abc-IsFile (omega arith) (omega arith)
      room

itrunc-Truncates_example : Truncates disk abc (itrunc disk abc)
itrunc-Truncates_example = itrunc-Truncates disk abc abc-HasBlocks
