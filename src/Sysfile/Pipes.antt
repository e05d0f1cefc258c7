-- ===== src/Sysfile/Pipes.antt =====
-- `sys_pipe`, from its arguments to its result.
use os_lab.Base.{Option-cases, ℕ, ◌+◌, ◌≡◌, refl, inl, inr, false, Option, none, some, arith}
use os_lab.Base.Int.{pos}
use os_lab.Syscall.{User, argptr}
use os_lab.Sysfile.{pipealloc, fdalloc}
use os_lab.Sysfile.Open.{close_ends, pipe_second, pipe_first, pipe_got, pipe_ends, sys_pipe}
use os_lab.Sysfile.Ledger.{Ledger, after, zeros, Has, AtRest, Runs}

-- No descriptor more, or the two that are the result.
abbrev pub OpenedTwo : Ledger → Option (ℕ × ℕ) → Ledger → Type 0
OpenedTwo before none l' = AtRest before.opened l'
OpenedTwo before (some _) l' = AtRest (before.opened + 2) l'

module _ (before l : Ledger) (h : Has false zeros zeros zeros l)
    (same : l.opened ≡ before.opened) where
  with_files :
      (files : ℕ → ℕ) (k : ℕ)
      → ((j : ℕ) → files j ≡ 0)
      → Has false zeros zeros zeros (record l { files = files; opened = k })
  with_files files k none_left = record {
    in_op = h.in_op;
    refs = h.refs;
    locks = h.locks;
    files = none_left;
    links = h.links;
  }

  pipe_second-Runs :
      (rf wf fd0 : ℕ) (slot : Option ℕ)
      → Runs (OpenedTwo before) (pipe_second rf wf fd0 slot) (
          after
            (fdalloc wf)
            slot
            (after (fdalloc rf) (some fd0) (after pipealloc (some (rf, wf)) l)))
  unfolding pipe_second close_ends
  pipe_second-Runs rf wf fd0 none = (
    tt,
    λ _ _. (
      ground (arith, h.files rf),
      λ _ _. (
        ground (arith, h.files wf, h.files rf),
        λ _ _. record {
          has = with_files _ _ (λ j. ground (arith, h.files j));
          opened = omega (arith, same);
        },
      ),
    ),
  )
  pipe_second-Runs rf wf fd0 (some fd1) = record {
    has = with_files _ _ (λ j. ground (arith, h.files j));
    opened = omega (arith, same);
  }

  pipe_first-Runs :
      (rf wf : ℕ) (slot : Option ℕ)
      → Runs
          (OpenedTwo before)
          (pipe_first rf wf slot)
          (after (fdalloc rf) slot (after pipealloc (some (rf, wf)) l))
  unfolding pipe_first close_ends
  pipe_first-Runs rf wf none = (
    ground (arith, h.files rf),
    λ _ _. (
      ground (arith, h.files wf, h.files rf),
      λ _ _. record { has = with_files _ _ (λ j. ground (arith, h.files j)); opened = same },
    ),
  )
  pipe_first-Runs rf wf (some fd0) =
      (ground (arith, h.files wf, h.files rf), λ slot _. pipe_second-Runs rf wf fd0 slot)

  pipe_got-Runs :
      (ends : Option (ℕ × ℕ)) → Runs (OpenedTwo before) (pipe_got ends) (after pipealloc ends l)
  unfolding pipe_got
  pipe_got-Runs none = record { has = h; opened = same }
  pipe_got-Runs (some (rf, wf)) = (ground (arith, h.files rf), λ slot _. pipe_first-Runs rf wf slot)

-- Whatever the answers that fit the ledger, `sys_pipe` returns the two descriptors that are open more, or -1 and
-- none is: the ends of the pipe are then closed, and a descriptor that was taken is free again.
pub sys_pipe-Runs : (u : User) (l : Ledger) → AtRest l.opened l → Runs (OpenedTwo l) (sys_pipe u) l
unfolding sys_pipe pipe_ends
sys_pipe-Runs u l h = elim (Option-cases (argptr u 0 (pos 8))) [
  | inl e ↦ rw (e, sys_pipe) h
  | inr (fd, e) ↦ rw (e, sys_pipe) (tt, λ ends _. pipe_got-Runs l l h.has refl ends)
]
