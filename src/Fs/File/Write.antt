-- ===== src/Fs/File/Write.antt =====
-- `writei` on a file, or on a directory.
use os_lab.Base.Outcome.{Outcome, ok}
use os_lab.Base.Int.{ℤ, pos}
use os_lab.Base.{
  ltb, if◌then◌else◌, length, ℕ, ◌+◌, ◌*◌, ◌/◌, ◌%◌, ◌^◌, ◌≤◌, ◌<◌, ◌≡◌, refl, sym, ap, ◌∙◌, subst,
  ◌≢◌, inl, inr, true, false, ◌||◌, Option, some, List, arith,
}
use os_lab.Fs.{bsize, maxfile, Fs, Inode, write_loop, WriteDevices, grow, writei}
use os_lab.Fs.Slots.{slot, key, key_lt, HasBlocks, byte_at, free_blocks, Foreign}
use os_lab.Fs.Content.{patch, range-cases, Written}
use os_lab.Fs.Content.Write.{needed, Wrote, write_loop-Wrote}
use os_lab.Fs.File.{IsFile, not_device}

-- What `grow` leaves as it was.
slot-addrs :
    (fs : Fs) (ip ip' : Inode) (k : ℕ) → ip'.addrs ≡ ip.addrs → slot fs ip' k ≡ slot fs ip k
unfolding slot
slot-addrs fs ip ip' k e = rw e refl

byte_at-addrs :
    (fs : Fs) (ip ip' : Inode) (o : ℕ) → ip'.addrs ≡ ip.addrs → byte_at fs ip' o ≡ byte_at fs ip o
unfolding byte_at
byte_at-addrs fs ip ip' o e = rw (slot-addrs fs ip ip' (key (o / 512)) e) refl

HasBlocks-addrs :
    (fs : Fs) (ip ip' : Inode) → ip'.addrs ≡ ip.addrs → HasBlocks fs ip → HasBlocks fs ip'
HasBlocks-addrs fs ip ip' e inv = record {
  thirteen = ap length e ∙ inv.thirteen;
  zero_used = inv.zero_used;
  all_used = λ k lt ne.
      rw (slot-addrs fs ip ip' k e) (inv.all_used k lt (λ z. ne (slot-addrs fs ip ip' k e ∙ z)));
  apart = λ j k ltj ltk ne same.
      inv.apart j k ltj ltk (λ z. ne (slot-addrs fs ip ip' j e ∙ z))
        (sym (slot-addrs fs ip ip' j e) ∙ same ∙ slot-addrs fs ip ip' k e);
}

grow-addrs : (ip : Inode) (n off : ℕ) → (grow ip n off).addrs ≡ ip.addrs
grow-addrs ip n off = ground arith

grow-kind : (ip : Inode) (n off : ℕ) → (grow ip n off).kind ≡ ip.kind
grow-kind ip n off = ground arith

-- The end of a file after a write of `n` bytes at `off`.
abbrev pub new_end : ℕ → ℕ → ℕ → ℕ
new_end end off n = if ltb end (off + n) then off + n else end

grow-size :
    (ip : Inode) (n off : ℕ) → off ≤ ip.size → (grow ip n (off + n)).size ≡ new_end ip.size off n
grow-size ip n off le = ground arith

-- A write that has succeeded.
pub record WroteFile (fs : Fs) (ip : Inode) (off : ℕ) (src : List ℕ)
    (o : Option (Outcome (ℤ × Fs × Inode))) : Type 0 where
  pub new_fs : Fs
  pub new_ip : Inode
  pub returned : o ≡ some (ok (pos (length src), new_fs, new_ip))
  pub file : IsFile new_fs new_ip
  pub kind : new_ip.kind ≡ ip.kind
  pub end : new_ip.size ≡ new_end ip.size off (length src)
  pub content :
      (o : ℕ) → o < maxfile * bsize → byte_at new_fs new_ip o ≡ patch (byte_at fs ip) off src o
  pub foreign :
      (x : ℕ) → Foreign fs ip x → new_fs.used x ≡ true × ((o : ℕ) → new_fs.cells x o ≡ fs.cells x o)
  pub spent : free_blocks fs ≤ needed off (length src) + free_blocks new_fs

-- Where a file has no hole and bytes are written from inside it, none is left.
no_hole-Written :
    (fs : Fs) (ip : Inode) (off : ℕ) (src : List ℕ) (fs' : Fs) (ip' : Inode)
    → IsFile fs ip
    → off ≤ ip.size
    → off + length src ≤ maxfile * bsize
    → Written fs ip off src fs' ip'
    → (o : ℕ) → o < new_end ip.size off (length src)
    → slot fs' ip' (key (o / 512)) ≢ 0
no_hole-Written fs ip off src fs' ip' file le fits w o lt = elim (range-cases off (length src) o) [
  | inl (from, to) ↦ w.backed o from to
  | inr out ↦ old (ground arith)
]
  where
    old : o < ip.size → slot fs' ip' (key (o / 512)) ≢ 0
    old inside z =
        file.no_hole o inside
          (sym (w.keeps _ (key_lt o (omega (arith, file.bounded))) (file.no_hole o inside)) ∙ z)

-- `writei` on a file or a directory whose blocks are its own, from an offset up to its end and up to
-- MAXFILE blocks, with two free blocks for each block of the content that it touches: it returns,
-- within its fuel and without a panic, the number of bytes; the kind
-- stays, the content is the old one with the bytes in place, the size grows to their end if that is further, the file's blocks are its own again, and
-- the blocks in use by others are still in use and as they were.
pub writei-WroteFile :
    (devsw : WriteDevices) (fs : Fs) (ip : Inode) (off : ℕ) (src : List ℕ)
    → IsFile fs ip
    → off ≤ ip.size
    → off + length src ≤ maxfile * bsize
    → needed off (length src) ≤ free_blocks fs
    → WroteFile fs ip off src (writei devsw fs ip off src)
unfolding writei
writei-WroteFile devsw fs ip off src file le fits room =
    finish (write_loop-Wrote (length src) fs ip off src (omega arith) file.has_blocks fits room)
  where
    in_bounds : (ltb ip.size off || ltb ((off + length src) % 2 ^ 32) off) ≡ false
    in_bounds = ground arith

    small : ltb (maxfile * bsize) (off + length src) ≡ false
    small = ground arith

    finish :
        Wrote fs ip off src (write_loop (length src) fs ip off src)
        → WroteFile fs ip off src (writei devsw fs ip off src)
    finish r =
        let grown = grow r.new_ip (length src) (off + length src) in
        let same = grow-addrs r.new_ip (length src) (off + length src) in
        let end : grown.size ≡ new_end ip.size off (length src) =
          grow-size r.new_ip (length src) off (omega (arith, r.written.same_end))
          ∙ ap (λ z. new_end z off (length src)) r.written.same_end in
        record {
          new_fs = r.new_fs;
          new_ip = grown;
          returned = not_device ip.kind _ _ file.no_device ∙ rw (in_bounds, small, r.returned) refl;
          file = record {
            no_device = λ e. file.no_device (
                sym (grow-kind r.new_ip (length src) (off + length src) ∙ r.written.same_kind) ∙ e);
            has_blocks = HasBlocks-addrs r.new_fs r.new_ip grown same r.written.has_blocks;
            bounded = subst (λ z. z ≤ maxfile * bsize) (sym end) (ground (arith, file.bounded));
            no_hole = λ o lt z.
                no_hole-Written fs ip off src r.new_fs r.new_ip file le fits r.written o
                  (subst (λ y. o < y) end lt)
                  (sym (slot-addrs r.new_fs r.new_ip grown (key (o / 512)) same) ∙ z);
          };
          kind = grow-kind r.new_ip (length src) (off + length src) ∙ r.written.same_kind;
          end = end;
          content = λ o lt. byte_at-addrs r.new_fs r.new_ip grown o same ∙ r.written.content o lt;
          foreign = λ x f. let (f', kept) = r.written.foreign x f in (f'.in_use, kept);
          spent = r.spent;
        }
