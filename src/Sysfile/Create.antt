-- ===== src/Sysfile/Create.antt =====
-- `create`, `sys_mkdir`, `sys_mknod` and `sys_chdir` keep their ledger.
use os_lab.Sysfile.Ledger.{Ledger, Fresh, after, zeros, one, Has, AtRest, Runs}
use os_lab.Sysfile.Rules.{Runs-bind, Runs-imp, Runs-if, rest, lock_one, put_back, put-Runs, put_one}
use os_lab.Base.{
  if◌then◌else◌, ℕ, ◌≡◌, refl, ◌⊎◌, inl, inr, true, false, ◌&&◌, Option, none, some, List, arith,
}
use os_lab.Base.Int.{ℤ, pos, negsuc}
use os_lab.Fs.{FileKind}
use os_lab.Sysfile.{
  Str, Attrs, end_op, nameiparent, ilock, dirlookup, Prog, ret, ◌>>=◌, ◌>>◌, step, iunlockput,
  is_file,
}
use os_lab.Sysfile.Names.{create_found, create_parent, create}
use os_lab.Sysfile.Open.{fail_op, make}
use os_lab.Sysfile.Creates.{Holding, create_new-Runs}

module _ (kind : FileKind) (major minor : ℤ) where
  create_found-Runs :
      (dp dev : ℕ) (name : List ℕ) (before l : Ledger)
      → Has true (one dp) (one dp) zeros l
      → l.opened ≡ before.opened
      → (found : Option (ℕ × ℕ)) → Fresh (dirlookup dp name) found l
      → Runs
          (Holding before)
          (create_found dp dev name kind major minor found)
          (after (dirlookup dp name) found l)
  unfolding create_found
  create_found-Runs dp dev name before l h same none fresh =
      create_new-Runs dp dev name kind major minor before l h same
  create_found-Runs dp dev name before l h same (some (ip, off)) fresh =
      put-Runs (Holding before) dp
        (step (ilock ip) >>= λ a.
          if is_file kind && is_file a.kind then ret (some ip) else (iunlockput ip >> ret none))
        found h.in_op (ground (arith, h.refs dp)) (ground (arith, h.locks dp))
        (
          (ground (arith, h.refs ip), ground (arith, h.locks ip)),
          λ a _.
              Runs-if (Holding before) (is_file kind && is_file a.kind) (ret (some ip))
                (iunlockput ip >> ret none) (locked a) (λ _. (held a, same))
                (λ _.
                  put-Runs (Holding before) ip (ret none) (locked a) h.in_op
                    (ground (arith, h.refs ip)) (ground (arith, h.locks ip))
                    (put_one ip (locked a) (held a), same)),
        )
    where
      found : Ledger
      found = after (dirlookup dp name) (some (ip, off)) l

      locked : Attrs → Ledger
      locked a = after (ilock ip) a (put_back dp found)

      held : (a : Attrs) → Has true (one ip) (one ip) zeros (locked a)
      held a = record {
        in_op = h.in_op;
        refs = λ j. ground (arith, h.refs j);
        locks = λ j. ground (arith, h.locks j);
        files = h.files;
        links = h.links;
      }

  create_parent-Runs :
      (path : Str) (l : Ledger)
      → Has true zeros zeros zeros l
      → (parent : Option (ℕ × List ℕ))
      → Runs (Holding l) (create_parent kind major minor parent) (after (nameiparent path) parent l)
  unfolding create_parent
  create_parent-Runs path l h none = (h, refl)
  create_parent-Runs path l h (some (dp, name)) = (
    (ground (arith, h.refs dp), h.locks dp),
    λ d _. (
      ground (arith, h.locks dp),
      λ found fresh.
          create_found-Runs dp d.dev name l
            (after (ilock dp) d (after (nameiparent path) (some (dp, name)) l)) (lock_one dp d l h)
            refl found fresh,
    ),
  )

  pub create-Runs :
      (path : Str) (l : Ledger)
      → Has true zeros zeros zeros l
      → Runs (Holding l) (create path kind major minor) l
  unfolding create
  create-Runs path l h = ((h.in_op, h.locks), λ parent _. create_parent-Runs path l h parent)

-- The transaction is ended.
pub fail_op-Runs :
    (P : ℤ → Ledger → Type 0) (l : Ledger)
    → Has true zeros zeros zeros l
    → P (negsuc 0) (record l { in_op = false })
    → Runs P fail_op l
unfolding fail_op
fail_op-Runs P l h p = ((h.in_op, h.locks), λ _ _. p)

-- Nothing is kept, whatever the result.
abbrev pub Settled : Ledger → ℤ → Ledger → Type 0
Settled before r l' = AtRest before.opened l' × ((r ≡ negsuc 0) ⊎ (r ≡ pos 0))

pub make-Runs :
    (path : Str) (kind : FileKind) (major minor : ℤ) (l : Ledger)
    → Has true zeros zeros zeros l
    → Runs (Settled l) (make path kind major minor) l
unfolding make
make-Runs path kind major minor l h = Runs-bind (Settled l) (create path kind major minor) _ l (
    Runs-imp (Holding l) _ (create path kind major minor) l finish
      (create-Runs kind major minor path l h))
  where
    finish :
        (made : Option ℕ) (l' : Ledger)
        → Holding l made l'
        → Runs
            (Settled l)
            (elim made as (λ _. Prog ℤ) [
              | none ↦ fail_op
              | some ip ↦ iunlockput ip >> (step end_op >> ret (pos 0))
            ])
            l'
    finish none l' (h', same) = fail_op-Runs (Settled l) l' h' (rest l.opened l' h' same, inl refl)
    finish (some ip) l' (h', same) =
        put-Runs (Settled l) ip (step end_op >> ret (pos 0)) l' h'.in_op
          (ground (arith, h'.refs ip)) (ground (arith, h'.locks ip))
          (
            (h'.in_op, λ j. ground (arith, h'.locks j)),
            λ _ _. (rest l.opened (put_back ip l') (put_one ip l' h') same, inr refl),
          )
