-- ===== src/Sysfile/Copies.antt =====
-- `sys_chdir` and `sys_copy_file`, from their arguments to their results.
use os_lab.Sysfile.Ledger.{Ledger, Fresh, after, zeros, Has, AtRest, Answers, RunsUnder, Runs}
use os_lab.Sysfile.Rules.{
  Runs-under, Runs-bind, Runs-imp, Runs-if, rest, with_op, lock_one, put_back, put-Runs, put_one,
}
use os_lab.Sysfile.{Str, Attrs, Op, namei, ilock, Ans, is_dir}
use os_lab.Base.{
  ◌==◌, if◌then◌else◌, Option-cases, ℕ, ◌+◌, ◌≡◌, refl, ap, ◌∙◌, subst, ◌⊎◌, inl, inr, Bool, true,
  false, not, Option, none, some, arith,
}
use os_lab.Base.Int.{ℤ, pos, negsuc, eqb_ℤ}
use os_lab.Syscall.{User, argstr}
use os_lab.Sysfile.Open.{
  fail_op, fail_locked, open_path, chdir_found, chdir_path, sys_chdir, copy_out, copy_into,
  sys_copy_file,
}
use os_lab.Sysfile.Create.{fail_op-Runs, Settled}
use os_lab.Sysfile.Opens.{Opened, open_path-Runs}
use os_lab.Sysfile.Settles.{no_args}

chdir_found-Runs :
    (path : Str) (l : Ledger)
    → Has true zeros zeros zeros l
    → (found : Option ℕ) → Runs (Settled l) (chdir_found found) (after (namei path) found l)
unfolding chdir_found fail_locked
chdir_found-Runs path l h none = fail_op-Runs (Settled l) l h (rest l.opened l h refl, inl refl)
chdir_found-Runs path l h (some ip) = (
  (ground (arith, h.refs ip), h.locks ip),
  λ a _.
      Runs-if (Settled l) (not (is_dir a.kind)) (fail_locked ip) _ (locked a)
        (λ _.
          put-Runs (Settled l) ip fail_op (locked a) h.in_op (ground (arith, h.refs ip))
            (ground (arith, h.locks ip))
            (fail_op-Runs (Settled l) (put_back ip (locked a)) (left a)
              (rest l.opened (put_back ip (locked a)) (left a) refl, inl refl)))
        (λ _. (
          ground (arith, h.locks ip),
          λ _ _. (
            tt,
            λ cwd _. (
              (h.in_op, ground (arith, h.refs cwd), ground (arith, h.locks cwd)),
              λ _ _. (
                (h.in_op, λ j. ground (arith, h.locks j)),
                λ _ _. (
                  ground (arith, h.refs ip),
                  λ _ _. (
                    record {
                      has = record {
                        in_op = refl;
                        refs = λ j. ground (arith, h.refs j);
                        locks = λ j. ground (arith, h.locks j);
                        files = h.files;
                        links = h.links;
                      };
                      opened = refl;
                    },
                    inr refl,
                  ),
                ),
              ),
            ),
          ),
        )),
)
  where
    locked : Attrs → Ledger
    locked a = after (ilock ip) a (after (namei path) (some ip) l)

    left : (a : Attrs) → Has true zeros zeros zeros (put_back ip (locked a))
    left a = put_one ip (locked a) (lock_one ip a l h)

-- Whatever the answers that fit the ledger, `sys_chdir` makes each of them when it may be made, as in
-- `sys_link`. It returns -1 or 0, if it does not panic after trouble, with no file, lock or transaction left, no descriptor
-- more, and one reference for the directory of the process as before.
pub sys_chdir-Runs : (u : User) (l : Ledger) → AtRest l.opened l → Runs (Settled l) (sys_chdir u) l
unfolding sys_chdir chdir_path
sys_chdir-Runs u l h = (
  (h.has.in_op, h.has.locks),
  λ _ _. elim (Option-cases (argstr u 0)) [
    | inl e ↦ rw (e, sys_chdir) (no_args l h)
    | inr (path, e) ↦
        rw (e, sys_chdir)
          (
            (refl, h.has.locks),
            λ found _. chdir_found-Runs path (record l { in_op = true }) (with_op l h) found,
          )
  ],
)

-- The descriptors that `sys_copy_file` leaves open.
abbrev pub Copied : Ledger → ℤ → Ledger → Type 0
Copied before r l' =
    ((r ≡ negsuc 0) × AtRest before.opened l')
    ⊎ (((r ≡ negsuc 0) × AtRest (before.opened + 1) l')
        ⊎ (((r ≡ negsuc 0) ⊎ (r ≡ pos 0)) × AtRest (before.opened + 2) l'))

copy_out-Runs :
    (before l : Ledger) (n : ℤ) (o : ℤ × Option ℕ)
    → l.opened ≡ before.opened + 1
    → (l' : Ledger) → Opened l o l'
    → Runs (Copied before) (copy_out n o) l'
unfolding copy_out
copy_out-Runs before l n (r, none) e l' (h, bad) = inr (inl (bad, subst (λ k. AtRest k l') e h))
copy_out-Runs before l n (r, some f) e l' (h, good) = (
  (h.has.in_op, h.has.locks),
  λ written _. inr (
      inr
        (answers (eqb_ℤ written n), subst (λ k. AtRest k l') (ap (λ k. k + 1) e ∙ omega arith) h)),
)
  where
    answers :
        (b : Bool)
        → ((if b then pos 0 else negsuc 0) ≡ negsuc 0) ⊎ ((if b then pos 0 else negsuc 0) ≡ pos 0)
    answers true = inr refl
    answers false = inl refl

copy_into-Runs :
    (before : Ledger) (dest : Str) (o : ℤ × Option ℕ) (l : Ledger)
    → Opened before o l
    → Runs (Copied before) (copy_into dest o) l
unfolding copy_into
copy_into-Runs before dest (r, none) l (h, bad) = inl (bad, h)
copy_into-Runs before dest (r, some f) l (h, good) = (
  (h.has.in_op, h.has.locks),
  λ n _. Runs-bind (Copied before) (open_path dest (pos 1) (not (dest.0 == 0))) (copy_out n) l (
      Runs-imp (Opened l) _ (open_path dest (pos 1) (not (dest.0 == 0))) l
        (λ o l' opened. copy_out-Runs before l n o h.opened l' opened)
        (open_path-Runs dest (pos 1) (not (dest.0 == 0)) l
          (record { has = h.has; opened = refl }))),
)

-- Let `can` say what each call may answer, no answer being one that does not fit the ledger
-- (`Fresh`). Whatever the answers, `sys_copy_file` makes each call when it may be made: it locks and
-- puts only inodes to which it has a reference, waits for no lock that it has itself, and looks up
-- paths and starts and ends the transaction with no inode locked. From a ledger at rest it returns,
-- unless it panics after trouble, with no reference, file, lock or transaction left. It closes
-- neither file: two descriptors more are open when the result is 0, and none, one or two when it is
-- -1; there is no other result.
pub sys_copy_file-Runs :
    (can : Answers)
    → ((o : Op) (a : Ans o) (m : Ledger) → can o a m → Fresh o a m)
    → (u : User) (l : Ledger) → AtRest l.opened l
    → RunsUnder can (Copied l) (sys_copy_file u) l
unfolding sys_copy_file
sys_copy_file-Runs can honest u l h =
    Runs-under can (Copied l) (sys_copy_file u) l honest (elim (Option-cases (argstr u 0)) [
      | inl e ↦ rw (e, sys_copy_file) (inl (refl, h))
      | inr (src, e) ↦ elim (Option-cases (argstr u 1)) [
        | inl f ↦ rw (e, sys_copy_file) (rw f (inl (refl, h)))
        | inr (dest, f) ↦
            rw (e, sys_copy_file)
              (rw f (
                Runs-bind (Copied l) (open_path src (pos 0) false) (copy_into dest) l (
                  Runs-imp (Opened l) _ (open_path src (pos 0) false) l
                    (λ o l' opened. copy_into-Runs l dest o l' opened)
                    (open_path-Runs src (pos 0) false l h))))
      ]
    ])
