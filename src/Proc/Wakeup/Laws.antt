-- ===== src/Proc/Wakeup/Laws.antt =====
-- Who is woken, and who is not.
use os_lab.Base.{
  get_elem?, set, modify, get_elem?-modify_self, modify-eq-set, get_elem?-map, get_elem?_of_map, ℕ,
  ◌≡◌, sym, ap, ◌∙◌, subst, ◌↔◌, inl, inr, true, false, Option, none, some, arith,
}
use os_lab.Base.Int.{pos, gtb_ℤ, gtb_ℤ_trans, gtb_ℤ_irrefl}
use os_lab.Base.Outcome.{ok}
use os_lab.Base.Scan.Best.{Chosen, scan-Chosen}
use os_lab.Proc.{sleeping, runnable, Chan, null, process, object, chan_eq, Proc, ProcTable}
use os_lab.Proc.Schedule.Choice.{state_eq_iff}
use os_lab.Proc.Wakeup.{sleep, sleeps_on, wake, wakeup1, wakeup, highest_waiter, wakeup_pl}

pub chan_eq_iff : (c d : Chan) → (chan_eq c d ≡ true) ↔ (c ≡ d)
chan_eq_iff null null = ground arith
chan_eq_iff null (process j) = ground arith
chan_eq_iff null (object j) = ground arith
chan_eq_iff (process i) null = ground arith
chan_eq_iff (process i) (process j) = ground arith
chan_eq_iff (process i) (object j) = ground arith
chan_eq_iff (object i) null = ground arith
chan_eq_iff (object i) (process j) = ground arith
chan_eq_iff (object i) (object j) = ground arith

-- A process that waits for `c`.
pub record IsWaiter {F : Type 0} (c : Chan) (p : Proc F) : Type 0 where
  pub asleep : p.state ≡ sleeping
  pub on : p.chan ≡ c

pub sleeps_on→IsWaiter : {F : Type 0} (c : Chan) (p : Proc F) → sleeps_on c p ≡ true → IsWaiter c p
sleeps_on→IsWaiter c p h = ground (arith, chan_eq_iff p.chan c, state_eq_iff p.state sleeping)

pub IsWaiter→sleeps_on : {F : Type 0} (c : Chan) (p : Proc F) → IsWaiter c p → sleeps_on c p ≡ true
IsWaiter→sleeps_on c p w = ground (arith, chan_eq_iff p.chan c)

wake_not-IsWaiter : {F : Type 0} (c : Chan) (p : Proc F) → ¬ IsWaiter c (wake c p)
unfolding wake
wake_not-IsWaiter c p w = ground (arith, IsWaiter→sleeps_on c (wake c p) w)

ok_procs : {F : Type 0} {t u : ProcTable F} → ok t ≡ ok u → t.procs ≡ u.procs
ok_procs e = cc

module _ {F : Type 0} (t : ProcTable F) (c : Chan) where
  -- No wakeup is lost: a process that has gone to sleep on `c` is RUNNABLE after `wakeup(c)`, and
  -- whatever else was in the table, nobody waits for `c` then.
  pub wakeup-sleep :
      (cur : ℕ) (p : Proc F) {t' : ProcTable F}
      → get_elem? t.procs cur ≡ some p
      → sleep t (some cur) true c ≡ ok t'
      → (get_elem? (wakeup t' c).procs cur ≡ some (record p { chan = c; state = runnable }))
        × ((i : ℕ) (q : Proc F) → get_elem? (wakeup t' c).procs i ≡ some q → ¬ IsWaiter c q)
  unfolding sleep wakeup wakeup1 wake
  wakeup-sleep cur p {t'} g e = (
    get_elem?-map (wake c) t'.procs cur (record p { chan = c; state = sleeping }) slept
        ∙ ap some woken,
    λ i q h w.
        let (r, _, er) = get_elem?_of_map (wake c) t'.procs i q h in
        wake_not-IsWaiter c r (subst (IsWaiter c) er w),
  )
    where
      slept : get_elem? t'.procs cur ≡ some (record p { chan = c; state = sleeping })
      slept = ap (λ u. get_elem? u cur) (sym (ok_procs e)) ∙ get_elem?-modify_self t.procs cur _ p g

      woken :
          wake c (record p { chan = c; state = sleeping }) ≡ record p { chan = c; state = runnable }
      woken = ground (arith, chan_eq_iff c c)

  -- The waiter for `c` with the highest pid.
  pub record IsHighest (i : ℕ) (p : Proc F) : Type 0 where
    pub found : get_elem? t.procs i ≡ some p
    pub waiter : IsWaiter c p
    pub positive : gtb_ℤ p.pid (pos 0) ≡ true
    pub highest :
        (j : ℕ) (q : Proc F)
        → get_elem? t.procs j ≡ some q
        → IsWaiter c q
        → gtb_ℤ q.pid p.pid ≡ false

  -- What `wakeup_pl` can do: wake one process, or change nothing.
  pub data WokeOne : ProcTable F → Type 0 where
    none_waits :
        ((i : ℕ) (p : Proc F)
          → get_elem? t.procs i ≡ some p
          → IsWaiter c p
          → gtb_ℤ p.pid (pos 0) ≡ false)
        → WokeOne t
    woke :
        (i : ℕ) (p : Proc F)
        → IsHighest i p
        → WokeOne (record t { procs = set t.procs i (record p { state = runnable }) })

  -- `wakeup_pl(c)` makes the waiter for `c` with the highest pid RUNNABLE, and changes nothing else;
  -- it changes nothing at all only if no waiter for `c` has a positive pid.
  pub wakeup_pl-WokeOne : WokeOne (wakeup_pl t c)
  unfolding wakeup_pl highest_waiter
  wakeup_pl-WokeOne =
      go (highest_waiter t.procs c) (
        scan-Chosen (sleeps_on c) (λ p. p.pid) gtb_ℤ gtb_ℤ_trans gtb_ℤ_irrefl t.procs 0 (pos 0)
          none)
    where
      go :
          (out : Option ℕ)
          → Chosen
              (sleeps_on c)
              (λ p. p.pid)
              gtb_ℤ
              gtb_ℤ_trans
              gtb_ℤ_irrefl
              t.procs
              0
              (pos 0)
              none
              out
          → WokeOne (elim out [
            | none ↦ t
            | some i ↦ record t { procs = modify t.procs i λ p. record p { state = runnable } }
          ])
      go none (inl (e, u)) = none_waits λ i p g w. u i p g (IsWaiter→sleeps_on c p w)
      go (some i) (inl (e, u)) = cc
      go none (inr (j, p, e, g, el, b, u)) = cc
      go (some i) (inr (j, p, e, g, el, b, u)) =
          let at : i ≡ j = ground arith in
          let gi : get_elem? t.procs i ≡ some p = rw at g in
          rw (modify-eq-set t.procs i _ p gi) (
            woke i p (record {
              found = gi;
              waiter = sleeps_on→IsWaiter c p el;
              positive = b;
              highest = λ k q gk w. u k q gk (IsWaiter→sleeps_on c q w);
            }))
