-- ===== src/Sysfile/Opens.antt =====
-- `sys_open` and `sys_copy_file` keep their ledger.
use os_lab.Sysfile.Ledger.{Ledger, inc, dec, after, zeros, one, Has, AtRest, Runs}
use os_lab.Sysfile.Rules.{
  Runs-bind, Runs-imp, Runs-if, rest, with_op, lock_one, put_back, put-Runs, put_one,
}
use os_lab.Fs.{t_file}
use os_lab.Sysfile.Open.{
  fail_op, fail_locked, open_inode, open_slot, open_file, open_found, open_path,
}
use os_lab.Sysfile.{
  Str, namei, ilock, filealloc, fdalloc, Prog, ret, ◌>>=◌, ◌>>◌, step, iunlockput, o_create,
  has_flag, is_dir,
}
use os_lab.Base.Int.{ℤ, pos, negsuc}
use os_lab.Base.{if◌then◌else◌, ℕ, ◌+◌, ◌≡◌, refl, ap, Bool, true, ◌&&◌, Option, none, some, arith}
use os_lab.Sysfile.Creates.{Holding}
use os_lab.Sysfile.Create.{create-Runs, fail_op-Runs}

-- -1 and nothing, or a descriptor with the file behind it.
abbrev pub Opened : Ledger → ℤ × Option ℕ → Ledger → Type 0
Opened before (r, none) l' = AtRest before.opened l' × (r ≡ negsuc 0)
Opened before (r, some f) l' = AtRest (before.opened + 1) l' × ((fd : ℕ) × (r ≡ pos fd))

open_inode-Runs :
    (path : Str) (mode : ℤ) (bars : Bool) (l : Ledger)
    → Has true zeros zeros zeros l
    → Runs (Holding l) (open_inode path mode bars) l
unfolding open_inode
open_inode-Runs path mode bars l h =
    Runs-if (Holding l) (has_flag mode o_create) _ _ l
      (λ _. create-Runs t_file (pos 0) (pos 0) path l h)
      (λ _. ((h.in_op, h.locks), λ found _. go found))
  where
    found_one : ℕ → Ledger
    found_one ip = after (namei path) (some ip) l

    go :
        (found : Option ℕ)
        → Runs
            (Holding l)
            (elim found as (λ _. Prog (Option ℕ)) [
              | none ↦ ret none
              | some ip ↦
                  (step (ilock ip) >>= λ a.
                  if is_dir a.kind && bars then (iunlockput ip >> ret none) else ret (some ip))
            ])
            (after (namei path) found l)
    go none = (h, refl)
    go (some ip) = (
      (ground (arith, h.refs ip), h.locks ip),
      λ a _.
          Runs-if (Holding l) (is_dir a.kind && bars) (iunlockput ip >> ret none) (ret (some ip))
            (after (ilock ip) a (found_one ip))
            (λ _.
              put-Runs (Holding l) ip (ret none) (after (ilock ip) a (found_one ip)) h.in_op
                (ground (arith, h.refs ip)) (ground (arith, h.locks ip))
                (put_one ip (after (ilock ip) a (found_one ip)) (lock_one ip a l h), refl))
            (λ _. (lock_one ip a l h, refl)),
    )

fail_locked-Runs :
    (ip : ℕ) (before l : Ledger)
    → Has true (one ip) (one ip) zeros l
    → l.opened ≡ before.opened
    → Runs (λ r l'. AtRest before.opened l' × (r ≡ negsuc 0)) (fail_locked ip) l
unfolding fail_locked
fail_locked-Runs ip before l h same =
    put-Runs (λ r l'. AtRest before.opened l' × (r ≡ negsuc 0)) ip fail_op l h.in_op
      (ground (arith, h.refs ip)) (ground (arith, h.locks ip))
      (fail_op-Runs (λ r l'. AtRest before.opened l' × (r ≡ negsuc 0)) (put_back ip l) h'
        (rest before.opened (put_back ip l) h' same, refl))
  where
    h' : Has true zeros zeros zeros (put_back ip l)
    h' = put_one ip l h

module _ (ip : ℕ) (mode : ℤ) (before l : Ledger) (h : Has true (one ip) (one ip) zeros l)
    (same : l.opened ≡ before.opened) where
  failed :
      (m : Ledger)
      → Has true (one ip) (one ip) zeros m
      → m.opened ≡ before.opened
      → Runs (Opened before) (fail_locked ip >>= λ r. ret (r, none)) m
  failed m hm e =
      Runs-bind (Opened before) (fail_locked ip) (λ r. ret (r, none)) m
        (fail_locked-Runs ip before m hm e)

  open_slot-Runs :
      (f : ℕ) (slot : Option ℕ)
      → Runs
          (Opened before)
          (open_slot ip mode f slot)
          (after (fdalloc f) slot (after filealloc (some f) l))
  unfolding open_slot
  open_slot-Runs f none = (
    ground (arith, h.files f),
    λ _ _.
        failed (record l { files = dec (inc l.files f) f })
          (record {
            in_op = h.in_op;
            refs = h.refs;
            locks = h.locks;
            files = λ j. ground (arith, h.files j);
            links = h.links;
          })
          same,
  )
  open_slot-Runs f (some fd) = (
    ground (arith, h.locks ip),
    λ _ _. (
      (h.in_op, λ j. ground (arith, h.locks j)),
      λ _ _. (
        ground (arith, h.refs ip),
        λ _ _. (
          record {
            has = record {
              in_op = refl;
              refs = λ j. ground (arith, h.refs j);
              locks = λ j. ground (arith, h.locks j);
              files = λ j. ground (arith, h.files j);
              links = h.links;
            };
            opened = ap (λ k. k + 1) same;
          },
          (fd, refl),
        ),
      ),
    ),
  )

  open_file-Runs :
      (file : Option ℕ) → Runs (Opened before) (open_file ip mode file) (after filealloc file l)
  unfolding open_file
  open_file-Runs none = failed l h same
  open_file-Runs (some f) = (ground (arith, h.files f), λ slot _. open_slot-Runs f slot)

open_found-Runs :
    (mode : ℤ) (before l : Ledger) (found : Option ℕ)
    → Holding before found l
    → Runs (Opened before) (open_found mode found) l
unfolding open_found
open_found-Runs mode before l none (h, same) =
    Runs-bind (Opened before) fail_op (λ r. ret (r, none)) l
      (fail_op-Runs (λ r l'. Opened before (r, none) l') l h (rest before.opened l h same, refl))
open_found-Runs mode before l (some ip) (h, same) =
    (tt, λ file _. open_file-Runs ip mode before l h same file)

pub open_path-Runs :
    (path : Str) (mode : ℤ) (bars : Bool) (l : Ledger)
    → AtRest l.opened l
    → Runs (Opened l) (open_path path mode bars) l
unfolding open_path
open_path-Runs path mode bars l h = (
  (h.has.in_op, h.has.locks),
  λ _ _.
      Runs-bind (Opened l) (open_inode path mode bars) (open_found mode) (record l { in_op = true })
        (Runs-imp _ _ (open_inode path mode bars) (record l { in_op = true })
          (λ found l' holds. open_found-Runs mode (record l { in_op = true }) l' found holds)
          (open_inode-Runs path mode bars (record l { in_op = true }) (with_op l h))),
)
