-- ===== src/FileTable/Transfer/Tests.antt =====
-- A write of 2000 bytes, in two transactions.
use os_lab.Base.{
  length, replicate, ℕ, ◌+◌, ◌*◌, ◌≤◌, refl, true, false, none, some, List, [], arith,
}
use os_lab.Fs.Sample.{disk, abc, no_write, abc-IsFile}
use os_lab.Fs.Slots.{free_from, free_blocks}
use os_lab.FileTable.{fd_inode}
use os_lab.FileTable.Transfer.{Io, filewrite}
use os_lab.FileTable.Transfer.Pieces.{piece_count, Spares}
use os_lab.FileTable.Transfer.Write.{FileWritten, filewrite-FileWritten}
use os_lab.Base.Int.{pos}
use os_lab.Pipe.{pipe_init}

abbrev opened : Io
opened = record {
  file = record {
    type = fd_inode;
    ref = pos 1;
    readable = true;
    writable = true;
    pipe = none;
    ip = some 0;
    off = 3;
  };
  pipe = pipe_init [];
  fs = disk;
  ip = abc;
}

abbrev alone : ℕ → Io → Io
alone i io = io

alone-Spares : Spares alone
alone-Spares i io v = record {
  same_file = refl;
  same_ip = refl;
  in_order = v;
  same_bytes = λ o. refl;
  no_fewer = omega arith;
}

abbrev many : List ℕ
many = replicate 2000 7

many_fit : 3 + length many ≤ 71680
many_fit = omega arith

room : 8 * piece_count (length many) ≤ free_blocks disk
unfolding free_from
room = omega arith

filewrite-FileWritten_example : FileWritten opened many (filewrite no_write alone false opened many)
filewrite-FileWritten_example =
    filewrite-FileWritten no_write alone alone-Spares false opened many refl refl abc-IsFile
      (omega arith) many_fit room
