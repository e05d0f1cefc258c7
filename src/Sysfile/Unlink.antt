-- ===== src/Sysfile/Unlink.antt =====
-- `sys_unlink`, from its arguments to its result.
use os_lab.CString.Strings.{compare_bytes}
use os_lab.Base.{
  if◌then◌else◌, Bool-cases, Option-cases, ℕ, ◌+◌, ◌-◌, ◌/◌, ◌≡◌, refl, sym, ap, ◌∙◌, subst, ◌≢◌,
  inl, inr, Bool, true, false, false≢true, Option, none, some, List, arith,
}
use os_lab.Sysfile.Ledger.{
  Ledger, unname, IsDots, Fresh, after, zeros, one, Has, AtRest, Answers, RunsUnder, Runs,
}
use os_lab.Sysfile.Rules.{
  Runs-under, Runs-bind, Runs-if, rest, with_op, lock_one, put_back, put-Runs,
}
use os_lab.Sysfile.{Str, Attrs, Op, nameiparent, ilock, dirlookup, clear_entry, Ans, ret, is_dir}
use os_lab.Fs.{FileKind}
use os_lab.Syscall.{User, argstr}
use os_lab.Sysfile.Names.{
  isdirempty, give_up, cleared_entry, unlink_empty, no_links, unlink_locked, unlink_found, is_dots,
  unlink_parent, unlink_path, sys_unlink,
}
use os_lab.Sysfile.Removes.{Unlinked, isdirempty_loop-Runs, give_up-Runs, cleared_entry-Runs}

module _ (dp ip off : ℕ) (before : Ledger) (ne : dp ≢ ip) where
  unlink_empty-Runs :
      (kind : FileKind) (l : Ledger)
      → Has true (λ j. one dp j + one ip j) (λ j. one dp j + one ip j) zeros l
      → l.kinds ip ≡ kind
      → l.opened ≡ before.opened
      → ((j : ℕ) → l.unnamed j ≡ before.unnamed j)
      → (empty : Bool) → Runs (Unlinked before) (unlink_empty dp ip off kind empty) l
  unfolding unlink_empty
  unlink_empty-Runs kind l h seen same unnamed false =
      put-Runs (Unlinked before) ip (give_up dp) l h.in_op (ground (arith, h.refs ip, ne))
        (ground (arith, h.locks ip, ne))
        (give_up-Runs dp before (put_back ip l)
          (record {
            in_op = h.in_op;
            refs = λ j. ground (arith, h.refs j);
            locks = λ j. ground (arith, h.locks j);
            files = h.files;
            links = h.links;
          })
          same unnamed)
  unlink_empty-Runs kind l h seen same unnamed true =
      ((h.in_op, ground (arith, h.locks dp)), λ cleared _. go cleared)
    where
      count :
          (j : ℕ)
          → (unname l dp ip).unnamed j
            ≡ one ip j + (if is_dir kind then one dp j else 0) + l.unnamed j
      count j = elim (Bool-cases (is_dir kind)) [
        | inl dir ↦ rw (ap is_dir seen ∙ dir, dir) (ground arith)
        | inr no_dir ↦ rw (ap is_dir seen ∙ no_dir, no_dir) (ground arith)
      ]

      go :
          (cleared : Bool)
          → Runs
              (Unlinked before)
              (cleared_entry dp ip kind cleared)
              (after (clear_entry dp off ip) cleared l)
      go false = refl
      go true =
          cleared_entry-Runs dp ip kind before (unname l dp ip) ne h.in_op h.refs h.locks h.files
            (λ j. omega (arith, h.links j, count j)) same (λ j. omega (arith, count j, unnamed j))

  unlink_locked-Runs :
      (a : Attrs) (l : Ledger)
      → Has true (λ j. one dp j + one ip j) (λ j. one dp j + one ip j) zeros l
      → l.kinds ip ≡ a.kind
      → (no_links a.nlink ≡ true → l.trouble ≡ true)
      → l.opened ≡ before.opened
      → ((j : ℕ) → l.unnamed j ≡ before.unnamed j)
      → Runs (Unlinked before) (unlink_locked dp ip off a) l
  unfolding unlink_locked isdirempty
  unlink_locked-Runs a l h seen gone same unnamed =
      Runs-if (Unlinked before) (no_links a.nlink) _ _ l gone (λ _.
        Runs-bind (Unlinked before) (if is_dir a.kind then isdirempty ip a.size else ret true) _ l (
          Runs-if _ (is_dir a.kind) _ _ l
            (λ _.
              isdirempty_loop-Runs _ ((a.size - 32 + 15) / 16) ip 32 l (ground (arith, h.locks ip))
                (λ empty. unlink_empty-Runs a.kind l h seen same unnamed empty))
            (λ _. unlink_empty-Runs a.kind l h seen same unnamed true)))

is_dots-IsDots : (name : List ℕ) → IsDots name → is_dots name ≡ true
unfolding compare_bytes
is_dots-IsDots name (inl e) = rw e refl
is_dots-IsDots name (inr e) = rw e refl

unlink_found-Runs :
    (dp : ℕ) (name : List ℕ) (before l : Ledger)
    → Has true (one dp) (one dp) zeros l
    → l.opened ≡ before.opened
    → ((j : ℕ) → l.unnamed j ≡ before.unnamed j)
    → is_dots name ≡ false
    → (found : Option (ℕ × ℕ)) → Fresh (dirlookup dp name) found l
    → Runs (Unlinked before) (unlink_found dp found) (after (dirlookup dp name) found l)
unfolding unlink_found
unlink_found-Runs dp name before l h same unnamed named none fresh =
    give_up-Runs dp before l h same unnamed
unlink_found-Runs dp name before l h same unnamed named (some (ip, off)) fresh = (
  (ground (arith, h.refs ip), free),
  λ a _.
      unlink_locked-Runs dp ip off before ne a
        (after (ilock ip) a (after (dirlookup dp name) (some (ip, off)) l))
        (record {
          in_op = h.in_op;
          refs = λ j. ground (arith, h.refs j);
          locks = λ j. ground (arith, h.locks j);
          files = h.files;
          links = h.links;
        })
        (ground arith) (λ e. ground (arith, e)) same unnamed,
)
  where
    free : l.locks ip ≡ 0
    free = elim fresh [
      | inl f ↦ f
      | inr (_, dots) ↦ absurd (false≢true (sym named ∙ is_dots-IsDots name dots))
    ]

    ne : dp ≢ ip
    ne e =
        let locked = h.locks dp in
        let none = subst (λ j. l.locks j ≡ 0) (sym e) free in ground arith

unlink_parent-Runs :
    (path : Str) (l : Ledger)
    → Has true zeros zeros zeros l
    → (parent : Option (ℕ × List ℕ))
    → Runs (Unlinked l) (unlink_parent parent) (after (nameiparent path) parent l)
unfolding unlink_parent
unlink_parent-Runs path l h none =
    ((h.in_op, h.locks), λ _ _. (rest l.opened l h refl, inl (refl, λ j. refl)))
unlink_parent-Runs path l h (some (dp, name)) = (
  (ground (arith, h.refs dp), h.locks dp),
  λ a _.
      Runs-if (Unlinked l) (is_dots name) _ _ (locked a)
        (λ _. give_up-Runs dp l (locked a) (held a) refl (λ j. refl))
        (λ named. (
          ground (arith, h.locks dp),
          λ found fresh.
              unlink_found-Runs dp name l (locked a) (held a) refl (λ j. refl) named found fresh,
        )),
)
  where
    locked : Attrs → Ledger
    locked a = after (ilock dp) a (after (nameiparent path) (some (dp, name)) l)

    held : (a : Attrs) → Has true (one dp) (one dp) zeros (locked a)
    held a = lock_one dp a l h

-- Let `can` say what each call may answer, no answer being one that does not fit the ledger
-- (`Fresh`). Whatever the answers, `sys_unlink` makes each call when it may be made: it locks and
-- puts only inodes to which it has a reference, waits for no lock that it has itself, and looks up
-- paths and starts and ends the transaction with no inode locked. From a ledger at rest it returns,
-- unless it panics after trouble, with no reference, file, lock or transaction left, no descriptor
-- more, and as many links counted less as entries cleared: that of one inode if the result is 0, and
-- for a directory its own for the other one, and none if it is -1; there is no other result.
pub sys_unlink-Runs :
    (can : Answers)
    → ((o : Op) (a : Ans o) (m : Ledger) → can o a m → Fresh o a m)
    → (u : User) (l : Ledger) → AtRest l.opened l
    → RunsUnder can (Unlinked l) (sys_unlink u) l
unfolding sys_unlink unlink_path
sys_unlink-Runs can honest u l h =
    Runs-under can (Unlinked l) (sys_unlink u) l honest (elim (Option-cases (argstr u 0)) [
      | inl e ↦ rw (e, sys_unlink) (h, inl (refl, λ j. refl))
      | inr (path, e) ↦
          rw (e, sys_unlink)
            (
              (h.has.in_op, h.has.locks),
              λ _ _. (
                (refl, h.has.locks),
                λ parent _.
                    unlink_parent-Runs path (record l { in_op = true }) (with_op l h) parent,
              ),
            )
    ])
