-- ===== src/Bio/Search.antt =====
-- The scan from the tail.
use os_lab.Base.{
  Bool-cases, get_elem?, ℕ, zero, suc, ◌<◌, ◌≡◌, refl, subst, inl, inr, Bool, true, false, Option,
  none, some, some-injective, List, [], ◌∷◌, arith,
}
use os_lab.Bio.{Buf, find_last}

module _ (test : Buf → Bool) where
  -- No entry meets the test, or `i` is the last that does.
  pub data Last (bs : List Buf) : Option ℕ → Type 0 where
    nowhere : ((j : ℕ) (c : Buf) → get_elem? bs j ≡ some c → test c ≡ false) → Last bs none
    last_at :
        (i : ℕ) (b : Buf)
        → get_elem? bs i ≡ some b
        → test b ≡ true
        → ((j : ℕ) (c : Buf) → get_elem? bs j ≡ some c → i < j → test c ≡ false)
        → Last bs (some i)

  pub find_last-Last : (bs : List Buf) → Last bs (find_last test bs)
  unfolding find_last
  find_last-Last [] = nowhere (λ j c g. cc)
  find_last-Last (b ∷ bs) = later (find_last test bs) (find_last-Last bs) refl
    where
      later :
          (o : Option ℕ)
          → Last bs o
          → find_last test bs ≡ o
          → Last (b ∷ bs) (find_last test (b ∷ bs))
      later o (last_at i x g t after) e =
          rw (e, find_last) (last_at (suc i) x g t (later_still i after))
        where
          later_still :
              (i : ℕ)
              → ((j : ℕ) (c : Buf) → get_elem? bs j ≡ some c → i < j → test c ≡ false)
              → (j : ℕ) (c : Buf) → get_elem? (b ∷ bs) j ≡ some c
              → suc i < j
              → test c ≡ false
          later_still i after zero c g lt = absurd (omega arith)
          later_still i after (suc j) c g lt = after j c g (omega arith)
      later o (nowhere n) e = elim (Bool-cases (test b)) [
        | inl meets ↦ rw (e, meets, find_last) (last_at 0 b refl meets (beyond n))
        | inr fails ↦ rw (e, fails, find_last) (nowhere (not_here n fails))
      ]
        where
          beyond :
              ((j : ℕ) (c : Buf) → get_elem? bs j ≡ some c → test c ≡ false)
              → (j : ℕ) (c : Buf) → get_elem? (b ∷ bs) j ≡ some c
              → 0 < j
              → test c ≡ false
          beyond n zero c g lt = absurd (omega arith)
          beyond n (suc j) c g lt = n j c g

          not_here :
              ((j : ℕ) (c : Buf) → get_elem? bs j ≡ some c → test c ≡ false)
              → test b ≡ false
              → (j : ℕ) (c : Buf) → get_elem? (b ∷ bs) j ≡ some c
              → test c ≡ false
          not_here n f zero c g = subst (λ x. test x ≡ false) (some-injective _ _ g) f
          not_here n f (suc j) c g = n j c g
