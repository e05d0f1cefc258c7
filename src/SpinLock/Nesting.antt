-- ===== src/SpinLock/Nesting.antt =====
-- How `pushcli` and `popcli` nest.
use os_lab.Base.{
  if◌then◌else◌, Bool-cases, length, ℕ, zero, suc, ◌+◌, ◌^◌, ◌<◌, ◌≡◌, refl, ap, ◌∙◌, inl, inr,
  Bool, true, false, ◌&&◌, Option, none, some, List, [], ◌∷◌, arith, ℕ_discrete,
}
use os_lab.Base.Int.{ℤ, pos, ◌-ℤ◌, ltb_ℤ, sub_int, eqb_ℤ, add_int, add_int_one, sub_int_one}
use os_lab.Base.Outcome.{Outcome, ok, panic, ◌>>=◌, Returns}
use os_lab.SpinLock.{Cpu, pushcli, popcli}

pub data Op : Type 0 where
  push pop : Op

abbrev pub step : Op → Cpu → Outcome Cpu
step push c = ok (pushcli c)
step pop c = popcli c

-- The calls one after the other.
abbrev pub run : List Op → Cpu → Outcome Cpu
run [] c = ok c
run (o ∷ os) c = step o c >>= run os

-- The depth of nesting after the calls, from the depth `d`; `none` if a `popcli` has no `pushcli`.
abbrev pub depth : List Op → ℕ → Option ℕ
depth [] d = some d
depth (push ∷ os) d = depth os (suc d)
depth (pop ∷ os) zero = none
depth (pop ∷ os) (suc d) = depth os d

-- At depth `d` of calls that began with the flag `before`.
pub record IsNested (before : Bool) (d : ℕ) (c : Cpu) : Type 0 where
  pub nested : c.ncli ≡ pos d
  pub outside : d ≡ 0 → c.interrupts ≡ before
  pub inside : 0 < d → (c.interrupts ≡ false) × (c.intena ≡ before)

-- What `popcli` makes of the flag, from the new `ncli` and `intena`.
restored :
    (n : ℤ) (saved : Bool) → n ≡ pos 0 → (if eqb_ℤ n (pos 0) && saved then true else false) ≡ saved
restored n saved e = rw e (ground arith)

still_off :
    (n : ℤ) (d : ℕ) (saved : Bool)
    → n ≡ pos d
    → 0 < d
    → (if eqb_ℤ n (pos 0) && saved then true else false) ≡ false
still_off n d saved e k = rw e (ground (arith, k))

below_zero : ltb_ℤ (sub_int (pos 0) (pos 1)) (pos 0) ≡ true
unfolding ◌-ℤ◌
below_zero = refl

module _ (before : Bool) (d : ℕ) (c : Cpu) where
  pub pushcli-IsNested : IsNested before d c → d + 1 < 2 ^ 31 → IsNested before (suc d) (pushcli c)
  unfolding pushcli
  pushcli-IsNested v lt = record {
    nested = ap (λ z. add_int z (pos 1)) v.nested ∙ add_int_one d lt ∙ ap pos (omega arith);
    outside = λ e. absurd (omega arith);
    inside = λ k. (refl, kept);
  }
    where
      kept : (if eqb_ℤ c.ncli (pos 0) then c.interrupts else c.intena) ≡ before
      kept = elim (ℕ_discrete d 0) [
        | yes z ↦ rw (v.nested ∙ ap pos z) (v.outside z)
        | no nz ↦ rw v.nested (ground (arith, nz, (v.inside (omega arith)).1))
      ]

  pub popcli-IsNested :
      IsNested before (suc d) c → d + 1 < 2 ^ 31 → Returns (IsNested before d) (popcli c)
  unfolding popcli
  popcli-IsNested v lt =
      let (off, saved) = v.inside (omega arith) in
      let left : sub_int c.ncli (pos 1) ≡ pos d =
        ap (λ z. sub_int z (pos 1)) (v.nested ∙ ap pos (omega arith)) ∙ sub_int_one d lt in
      let guard : ltb_ℤ (sub_int c.ncli (pos 1)) (pos 0) ≡ false = rw left (ground arith) in
      rw (off, guard, popcli)
        (record {
          nested = left;
          outside = λ z. restored (sub_int c.ncli (pos 1)) c.intena (left ∙ ap pos z) ∙ saved;
          inside = λ k. (still_off (sub_int c.ncli (pos 1)) d c.intena left k, saved);
        })

  popcli_outside : IsNested before 0 c → popcli c ≡ panic
  unfolding popcli
  popcli_outside v = elim (Bool-cases c.interrupts) [
    | inl on ↦ rw (on, popcli) refl
    | inr off ↦
        let guard : ltb_ℤ (sub_int c.ncli (pos 1)) (pos 0) ≡ true =
          ap (λ z. ltb_ℤ (sub_int z (pos 1)) (pos 0)) v.nested ∙ below_zero in
        rw (off, guard, popcli) refl
  ]

-- What calls of depth `o` in the end come to.
abbrev pub Ends : Bool → Option ℕ → Outcome Cpu → Type 0
Ends before none r = r ≡ panic
Ends before (some d) r = Returns (IsNested before d) r

after :
    (os : List Op) (before : Bool) (d : ℕ) (r : Outcome Cpu)
    → Returns (IsNested before d) r
    → ((c : Cpu) → IsNested before d c → Ends before (depth os d) (run os c))
    → Ends before (depth os d) (r >>= run os)
after os before d (ok c) v rest = rest c v
after os before d panic v rest = elim v [ ]

run-Ends :
    (os : List Op) (before : Bool) (d : ℕ) (c : Cpu)
    → IsNested before d c
    → d + length os < 2 ^ 31
    → Ends before (depth os d) (run os c)
run-Ends [] before d c v lt = v
run-Ends (push ∷ os) before d c v lt =
    run-Ends os before (suc d) (pushcli c) (pushcli-IsNested before d c v (omega arith))
      (omega arith)
run-Ends (pop ∷ os) before zero c v lt = rw (popcli_outside before 0 c v) refl
run-Ends (pop ∷ os) before (suc d) c v lt =
    after os before d (popcli c) (popcli-IsNested before d c v (omega arith))
      (λ c' w. run-Ends os before d c' w (omega arith))

-- However the calls of `pushcli` and `popcli` nest: at the depth 0 again, interrupts are as they were
-- before the first call; at any other depth they are off; and a `popcli` without its `pushcli` panics.
-- The CPU starts outside of all of them, and makes fewer calls than the largest `int`.
pub run_lem :
    (os : List Op) (c : Cpu)
    → c.ncli ≡ pos 0
    → length os < 2 ^ 31
    → Ends c.interrupts (depth os 0) (run os c)
run_lem os c e lt =
    run-Ends os c.interrupts 0 c
      (record { nested = e; outside = λ z. refl; inside = λ k. absurd (omega arith) }) (omega arith)
