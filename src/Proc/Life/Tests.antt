-- ===== src/Proc/Life/Tests.antt =====
-- A parent and two children, and the theorems about the life of a process at them.
use os_lab.Base.{
  get_elem?, ℕ, zero, suc, ◌+◌, ◌<◌, ◌≡◌, refl, sym, ap, ◌∙◌, true, false, false≢true, Option, none,
  some, some-injective, List, [], ◌∷◌, arith,
}
use os_lab.Base.Outcome.{Outcome, ok, panic, Returns}
use os_lab.Base.Int.{ℤ, pos, negsuc, pos_part, ltb_ℤ}
use os_lab.Proc.{ProcState, sleeping, running, process, Proc, ProcTable}
use os_lab.Proc.Float.{whole}
use os_lab.Proc.Life.{
  Call, is_unused, fork, Waited, reaped, no_child, reparent, reparent_loop, exit, wait_scan,
  answer_wait, wait,
}
use os_lab.Proc.Life.Wait.{Answered, wait-Answered}
use os_lab.Proc.Life.Exit.{Exits, exit-Exits}
use os_lab.Proc.Life.Fork.{Forks, fork-Forks}
use os_lab.Proc.Life.Numbers.{IsNumbered, fork-IsNumbered}
use os_lab.Proc.Wakeup.{wake, wakeup1}
use os_lab.Proc.Tests.{blank, table}

abbrev member : ProcState → ℤ → Option ℕ → Proc ℤ
member s pid parent = record blank {
  state = s;
  pid = pid;
  parent = parent;
  kstack = some 4096;
  ofile = some 7 ∷ none ∷ [];
}

-- `init`, a shell that waits, and the shell's child, which runs.
abbrev shell_waits : ProcTable ℤ
shell_waits = table (
    member sleeping (pos 1) none
    ∷ record (member sleeping (pos 2) (some 0)) { chan = process 1 }
    ∷ member running (pos 3) (some 1)
    ∷ blank
    ∷ [])

abbrev child : Proc ℤ
child = member running (pos 3) (some 1)

-- The shell's child exits, and the shell gets its pid.
abbrev after_exit : Outcome (List Call × ProcTable ℤ) → Waited ℤ
after_exit panic = no_child
after_exit (ok (calls, t')) = wait t' 1 false

abbrev pid_of : Waited ℤ → ℤ
pid_of (reaped pid calls t) = pid
pid_of _ = negsuc 0

exit_then_wait : pid_of (after_exit (exit shell_waits 2 child)) ≡ pos 3
unfolding exit reparent_loop reparent wakeup1 wake wait wait_scan answer_wait
exit_then_wait = refl

wait-Answered_example : Answered 1 shell_waits false (wait shell_waits 1 false)
wait-Answered_example = wait-Answered 1 shell_waits false

exit-Exits_example :
    Returns (λ (calls, t'). Exits shell_waits 2 child t') (exit shell_waits 2 child)
exit-Exits_example = exit-Exits shell_waits 2 child refl refl

fork-Forks_example :
    Forks shell_waits 2 child
      (some 8192)
      (some 12288)
      (fork whole shell_waits 2 child (some 8192) (some 12288))
fork-Forks_example = fork-Forks whole shell_waits 2 child (some 8192) (some 12288)

-- Two processes, with the pids 1 and 2.
abbrev pair : ProcTable ℤ
pair = table (member sleeping (pos 1) none ∷ member running (pos 2) (some 0) ∷ blank ∷ [])

pair-IsNumbered : IsNumbered pair
pair-IsNumbered = record { below = below; own = own }
  where
    pid_at :
        (i : ℕ) (p : Proc ℤ)
        → get_elem? pair.procs i ≡ some p
        → is_unused p ≡ false
        → (p.pid ≡ pos (i + 1)) × (i < 2)
    pid_at zero p g u = (sym (ap (λ (r : Proc ℤ). r.pid) (some-injective _ _ g)), omega arith)
    pid_at (suc zero) p g u = (sym (ap (λ (r : Proc ℤ). r.pid) (some-injective _ _ g)), omega arith)
    pid_at (suc (suc zero)) p g u =
        absurd (false≢true (sym u ∙ sym (ap (λ (r : Proc ℤ). is_unused r) (some-injective _ _ g))))
    pid_at (suc (suc (suc i))) p g u = cc

    below :
        (i : ℕ) (p : Proc ℤ)
        → get_elem? pair.procs i ≡ some p
        → is_unused p ≡ false
        → ltb_ℤ p.pid (pos 9) ≡ true
    below i p g u = let (e, lt) = pid_at i p g u in rw e (ground arith)

    own :
        (i j : ℕ) (p q : Proc ℤ)
        → get_elem? pair.procs i ≡ some p
        → get_elem? pair.procs j ≡ some q
        → is_unused p ≡ false
        → is_unused q ≡ false
        → p.pid ≡ q.pid
        → i ≡ j
    own i j p q g g' u u' e =
        let (e1, _) = pid_at i p g u in
        let (e2, _) = pid_at j q g' u' in let same = ap pos_part (sym e1 ∙ e ∙ e2) in omega arith

fork-IsNumbered_example :
    IsNumbered (fork whole pair 1 (member running (pos 2) (some 0)) (some 8192) (some 12288)).2
fork-IsNumbered_example =
    fork-IsNumbered whole pair 1 (member running (pos 2) (some 0)) (some 8192) (some 12288) 9
      pair-IsNumbered refl (omega arith)
