-- ===== src/Sysfile/Settles.antt =====
-- The calls on path names, from their arguments to their results.
use os_lab.Sysfile.Ledger.{Ledger, Fresh, AtRest, Answers, RunsUnder, Runs}
use os_lab.Sysfile.Rules.{Runs-under, Runs-bind, Runs-imp, rest, with_op}
use os_lab.Sysfile.{Op, Ans, ret, to_short}
use os_lab.Base.{Option-cases, ℕ, ◌+◌, ◌≡◌, refl, ◌⊎◌, inl, inr, true, not, Option, none, some}
use os_lab.Base.Int.{ℤ, pos, negsuc, eqb_ℤ}
use os_lab.Fs.{t_dir, t_dev}
use os_lab.Syscall.{User, argint, argstr}
use os_lab.Sysfile.Open.{fail_op, open_path, sys_open, sys_mkdir, sys_mknod}
use os_lab.Sysfile.Create.{fail_op-Runs, Settled, make-Runs}
use os_lab.Sysfile.Opens.{Opened, open_path-Runs}

-- The result is -1 and there is no descriptor more, or it is a descriptor, which is the only one more.
abbrev pub OpenedOne : Ledger → ℤ → Ledger → Type 0
OpenedOne before r l' =
    (AtRest before.opened l' × (r ≡ negsuc 0))
    ⊎ (AtRest (before.opened + 1) l' × ((fd : ℕ) × (r ≡ pos fd)))

-- Let `can` say what each call may answer, no answer being one that does not fit the ledger
-- (`Fresh`). Whatever the answers, `sys_open` makes each call when it may be made: it locks and puts
-- only inodes to which it has a reference, waits for no lock that it has itself, and looks up paths
-- and starts and ends the transaction with no inode locked. From a ledger at rest it returns, unless
-- it panics after trouble, with no reference, file, lock or transaction left and as many links
-- counted as names made: -1 and no descriptor more, or a descriptor and one more open.
pub sys_open-Runs :
    (can : Answers)
    → ((o : Op) (a : Ans o) (m : Ledger) → can o a m → Fresh o a m)
    → (u : User) (l : Ledger) → AtRest l.opened l
    → RunsUnder can (OpenedOne l) (sys_open u) l
unfolding sys_open
sys_open-Runs can honest u l h =
    Runs-under can (OpenedOne l) (sys_open u) l honest (elim (Option-cases (argstr u 0)) [
      | inl e ↦ rw (e, sys_open) (inl (h, refl))
      | inr (path, e) ↦ elim (Option-cases (argint u 1)) [
        | inl f ↦ rw (e, sys_open) (rw f (inl (h, refl)))
        | inr (mode, f) ↦
            rw (e, sys_open)
              (rw f (
                Runs-bind (OpenedOne l) (open_path path mode (not (eqb_ℤ mode (pos 0))))
                  (λ (r, file). ret r) l
                  (Runs-imp (Opened l) _ (open_path path mode (not (eqb_ℤ mode (pos 0)))) l
                    (λ a l' o. answer a l' o)
                    (open_path-Runs path mode (not (eqb_ℤ mode (pos 0))) l h))))
      ]
    ])
  where
    answer : (a : ℤ × Option ℕ) (l' : Ledger) → Opened l a l' → OpenedOne l a.0 l'
    answer (r, none) l' o = inl o
    answer (r, some f) l' o = inr o

-- A transaction with nothing in it.
pub no_args :
    (l : Ledger) → AtRest l.opened l → Runs (Settled l) fail_op (record l { in_op = true })
no_args l h =
    fail_op-Runs (Settled l) (record l { in_op = true }) (with_op l h)
      (rest l.opened (record l { in_op = true }) (with_op l h) refl, inl refl)

-- Whatever the answers that fit the ledger, `sys_mkdir` makes each of them when it may be made, as in
-- `sys_link`. It returns -1 or 0, if it does not panic after trouble, with no reference, file, lock or
-- transaction left, no descriptor more, and as many links counted as names made, those of "."
-- for itself apart.
pub sys_mkdir-Runs : (u : User) (l : Ledger) → AtRest l.opened l → Runs (Settled l) (sys_mkdir u) l
unfolding sys_mkdir
sys_mkdir-Runs u l h = (
  (h.has.in_op, h.has.locks),
  λ _ _. elim (Option-cases (argstr u 0)) [
    | inl e ↦ rw (e, sys_mkdir) (no_args l h)
    | inr (path, e) ↦
        rw (e, sys_mkdir)
          (make-Runs path t_dir (pos 0) (pos 0) (record l { in_op = true }) (with_op l h))
  ],
)

-- The same of `sys_mknod`.
pub sys_mknod-Runs : (u : User) (l : Ledger) → AtRest l.opened l → Runs (Settled l) (sys_mknod u) l
unfolding sys_mknod
sys_mknod-Runs u l h = (
  (h.has.in_op, h.has.locks),
  λ _ _. elim (Option-cases (argstr u 0)) [
    | inl e ↦ rw (e, sys_mknod) (no_args l h)
    | inr (path, e) ↦ elim (Option-cases (argint u 1)) [
      | inl f ↦ rw (e, sys_mknod) (rw f (no_args l h))
      | inr (major, f) ↦ elim (Option-cases (argint u 2)) [
        | inl g ↦ rw (e, sys_mknod) (rw f (rw g (no_args l h)))
        | inr (minor, g) ↦
            rw (e, sys_mknod)
              (rw f (
                rw g (
                  make-Runs path t_dev (to_short major) (to_short minor) (record l { in_op = true })
                    (with_op l h))))
      ]
    ]
  ],
)
