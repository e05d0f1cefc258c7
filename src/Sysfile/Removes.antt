-- ===== src/Sysfile/Removes.antt =====
-- The ends of `sys_unlink`, and the look into a directory.
use os_lab.Sysfile.Ledger.{Ledger, inc, after, zeros, one, Has, AtRest, Runs}
use os_lab.Sysfile.Rules.{Runs-bind, Runs-if, rest, put_back, put-Runs, put_one}
use os_lab.Sysfile.Names.{check_entry, isdirempty_loop, give_up, cleared_entry}
use os_lab.Sysfile.{end_op, read_entry, fewer_links, ret, ◌>>◌, step, iunlockput, is_dir}
use os_lab.Fs.{FileKind}
use os_lab.Base.Int.{ℤ, pos, negsuc}
use os_lab.Base.{
  ◌==◌, if◌then◌else◌, ℕ, zero, suc, ◌+◌, ◌<◌, ◌≡◌, refl, ◌≢◌, ◌⊎◌, inl, inr, Bool, true, false,
  Option, none, some, arith,
}

-- The result is -1 and no entry was cleared, or 0 and that of an inode `i` in `dp` was, with its own
-- entry for `dp` if it is a directory.
abbrev pub Unlinked : Ledger → ℤ → Ledger → Type 0
Unlinked before r l' =
    AtRest before.opened l'
    × (((r ≡ negsuc 0) × ((j : ℕ) → l'.unnamed j ≡ before.unnamed j))
        ⊎ ((r ≡ pos 0)
            × ((i : ℕ) × (dp : ℕ) × (b : Bool) × ((j : ℕ)
                  → l'.unnamed j ≡ one i j + (if b then one dp j else 0) + before.unnamed j))))

pub isdirempty_loop-Runs :
    (P : Bool → Ledger → Type 0) (n dp off : ℕ) (l : Ledger)
    → 0 < l.locks dp
    → ((b : Bool) → P b l)
    → Runs P (isdirempty_loop n dp off) l
unfolding isdirempty_loop
isdirempty_loop-Runs P zero dp off l locked p = p true
isdirempty_loop-Runs P (suc n) dp off l locked p =
    (locked, λ entry _. go (isdirempty_loop-Runs P n dp (off + 16) l locked p) entry)
  where
    go :
        Runs P (isdirempty_loop n dp (off + 16)) l
        → (entry : Option ℕ)
        → Runs P
            (check_entry (isdirempty_loop n dp (off + 16)) entry)
            (after (read_entry dp off) entry l)
    go next none = refl
    go next (some inum) = Runs-if P (inum == 0) _ _ l (λ _. next) (λ _. p false)

pub give_up-Runs :
    (dp : ℕ) (before l : Ledger)
    → Has true (one dp) (one dp) zeros l
    → l.opened ≡ before.opened
    → ((j : ℕ) → l.unnamed j ≡ before.unnamed j)
    → Runs (Unlinked before) (give_up dp) l
unfolding give_up
give_up-Runs dp before l h same unnamed =
    put-Runs (Unlinked before) dp (step end_op >> ret (negsuc 0)) l h.in_op
      (ground (arith, h.refs dp)) (ground (arith, h.locks dp))
      (
        (h.in_op, λ j. ground (arith, h.locks j)),
        λ _ _. (rest before.opened (put_back dp l) after_put same, inl (refl, unnamed)),
      )
  where
    after_put : Has true zeros zeros zeros (put_back dp l)
    after_put = put_one dp l h

-- The entry is cleared; `more` is what the counts of links still lack.
pub cleared_entry-Runs :
    (dp ip : ℕ) (kind : FileKind) (before l : Ledger)
    → dp ≢ ip
    → l.in_op ≡ true
    → ((j : ℕ) → l.refs j ≡ one dp j + one ip j)
    → ((j : ℕ) → l.locks j ≡ one dp j + one ip j)
    → ((j : ℕ) → l.files j ≡ 0)
    → ((j : ℕ)
        → l.up j + l.unnamed j
          ≡ l.down j + l.named j + one ip j + (if is_dir kind then one dp j else 0))
    → l.opened ≡ before.opened
    → ((j : ℕ) → l.unnamed j ≡ one ip j + (if is_dir kind then one dp j else 0) + before.unnamed j)
    → Runs (Unlinked before) (cleared_entry dp ip kind true) l
unfolding cleared_entry
cleared_entry-Runs dp ip kind before l ne op refs locks files links same unnamed =
    Runs-bind (Unlinked before) (if is_dir kind then step (fewer_links dp) else ret tt) _ l (
      Runs-if _ (is_dir kind) _ _ l
        (λ dir. (
          (op, ground (arith, locks dp)),
          λ _ _.
              tail (record l { down = inc l.down dp }) op refs locks files
                (λ j. ground (arith, links j, dir)) same unnamed,
        ))
        (λ no_dir. tail l op refs locks files (λ j. ground (arith, links j, no_dir)) same unnamed))
  where
    tail :
        (m : Ledger)
        → m.in_op ≡ true
        → ((j : ℕ) → m.refs j ≡ one dp j + one ip j)
        → ((j : ℕ) → m.locks j ≡ one dp j + one ip j)
        → ((j : ℕ) → m.files j ≡ 0)
        → ((j : ℕ) → m.up j + m.unnamed j ≡ m.down j + m.named j + one ip j)
        → m.opened ≡ before.opened
        → ((j : ℕ)
            → m.unnamed j ≡ one ip j + (if is_dir kind then one dp j else 0) + before.unnamed j)
        → Runs
            (Unlinked before)
            (iunlockput dp
              >> (step (fewer_links ip) >> (iunlockput ip >> (step end_op >> ret (pos 0)))))
            m
    tail m op refs locks files links same unnamed =
        put-Runs (Unlinked before) dp
          (step (fewer_links ip) >> (iunlockput ip >> (step end_op >> ret (pos 0)))) m op
          (ground (arith, refs dp)) (ground (arith, locks dp, ne))
          (
            (op, ground (arith, locks ip, ne)),
            λ _ _.
                put-Runs (Unlinked before) ip (step end_op >> ret (pos 0))
                  (record (put_back dp m) { down = inc m.down ip }) op (ground (arith, refs ip, ne))
                  (ground (arith, locks ip, ne))
                  (
                    (op, λ j. ground (arith, locks j)),
                    λ _ _. (
                      rest before.opened _
                          (record {
                            in_op = op;
                            refs = λ j. ground (arith, refs j);
                            locks = λ j. ground (arith, locks j);
                            files = files;
                            links = λ j. ground (arith, links j);
                          })
                          same,
                      inr (refl, (ip, dp, is_dir kind, unnamed)),
                    ),
                  ),
          )
