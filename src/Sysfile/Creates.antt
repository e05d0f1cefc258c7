-- ===== src/Sysfile/Creates.antt =====
-- `create` keeps its ledger.
use os_lab.Fs.{FileKind}
use os_lab.Sysfile.Names.{link_dots, created, create_new}
use os_lab.Sysfile.{ilock, ialloc, dirlink, init_inode, Prog, ret, panic, ◌>>=◌, ◌>>◌, step, is_dir}
use os_lab.Base.Int.{ℤ}
use os_lab.Base.{
  if◌then◌else◌, ℕ, ◌+◌, ◌≡◌, refl, sym, subst, ◌≢◌, Bool, true, false, Option, none, some, List,
  [], ◌∷◌, arith,
}
use os_lab.Sysfile.Ledger.{Ledger, inc, after, zeros, one, Has, Runs}
use os_lab.Sysfile.Rules.{Runs-bind, Runs-imp, Runs-if, put-Runs}

-- Nothing is held but, if there is an inode, a reference to it and its lock; the transaction is open, and
-- the links that were counted are the entries that were made.
abbrev pub Holding : Ledger → Option ℕ → Ledger → Type 0
Holding before none l = Has true zeros zeros zeros l × (l.opened ≡ before.opened)
Holding before (some ip) l = Has true (one ip) (one ip) zeros l × (l.opened ≡ before.opened)

module _ (dp ip : ℕ) (ne : dp ≢ ip) (before : Ledger) where
  abbrev both : ℕ → ℕ
  both j = one dp j + one ip j

  -- The entries "." and "..".
  link_dots-Runs :
      (l : Ledger)
      → Has true both both (one ip) l
      → l.opened ≡ before.opened
      → Runs
          (λ _ l'. Has true both both (one ip) l' × (l'.opened ≡ before.opened))
          (link_dots dp ip)
          l
  unfolding link_dots
  link_dots-Runs l h same = (
    (h.in_op, ground (arith, h.locks dp)),
    λ _ _. ((h.in_op, ground (arith, h.locks ip)), λ dot _. first dot),
  )
    where
      dots_of : Bool → Prog (Unit {0})
      dots_of dot = (if dot then step (dirlink ip (b'.' ∷ b'.' ∷ []) dp) else ret false) >>= λ dots.
          if dots then ret tt else panic

      second :
          (m : Ledger) (dots : Bool)
          → Has true both both both m
          → m.opened ≡ before.opened
          → Runs
              (λ _ l'. Has true both both (one ip) l' × (l'.opened ≡ before.opened))
              (if dots then ret tt else panic)
              (after (dirlink ip (b'.' ∷ b'.' ∷ []) dp) dots m)
      second m false hm e = refl
      second m true hm e = (
        record {
          in_op = hm.in_op;
          refs = hm.refs;
          locks = hm.locks;
          files = hm.files;
          links = λ j. ground (arith, hm.links j, ne);
        },
        e,
      )

      first :
          (dot : Bool)
          → Runs
              (λ _ l'. Has true both both (one ip) l' × (l'.opened ≡ before.opened))
              (dots_of dot)
              (after (dirlink ip (b'.' ∷ []) ip) dot (record l { up = inc l.up dp }))
      first false = refl
      first true = (
        (h.in_op, ground (arith, h.locks ip)),
        λ dots _.
            second (after (dirlink ip (b'.' ∷ []) ip) true (record l { up = inc l.up dp })) dots
              (record {
                in_op = h.in_op;
                refs = h.refs;
                locks = h.locks;
                files = h.files;
                links = λ j. ground (arith, h.links j);
              })
              same,
      )

  created-Runs :
      (name : List ℕ) (l : Ledger)
      → Has true both both (one ip) l
      → l.opened ≡ before.opened
      → (linked : Bool)
      → Runs (Holding before) (created dp ip linked) (after (dirlink dp name ip) linked l)
  unfolding created
  created-Runs name l h same false = refl
  created-Runs name l h same true =
      put-Runs (Holding before) dp (ret (some ip)) (after (dirlink dp name ip) true l) h.in_op
        (ground (arith, h.refs dp, ne)) (ground (arith, h.locks dp, ne))
        (
          record {
            in_op = h.in_op;
            refs = λ j. ground (arith, h.refs j);
            locks = λ j. ground (arith, h.locks j);
            files = h.files;
            links = λ j. ground (arith, h.links j, ne);
          },
          same,
        )

pub create_new-Runs :
    (dp dev : ℕ) (name : List ℕ) (kind : FileKind) (major minor : ℤ) (before l : Ledger)
    → Has true (one dp) (one dp) zeros l
    → l.opened ≡ before.opened
    → Runs (Holding before) (create_new dp dev name kind major minor) l
unfolding create_new
create_new-Runs dp dev name kind major minor before l h same =
    (h.in_op, λ ip fresh. go ip (other ip fresh) fresh)
  where
    other : (ip : ℕ) → l.locks ip ≡ 0 → dp ≢ ip
    other ip fresh e =
        let locked = h.locks dp in
        let free = subst (λ j. l.locks j ≡ 0) (sym e) fresh in ground arith

    go :
        (ip : ℕ)
        → dp ≢ ip
        → l.locks ip ≡ 0
        → Runs
            (Holding before)
            (step (ilock ip) >>= λ _.
              (step (init_inode ip major minor)
                >> ((if is_dir kind then link_dots dp ip else ret tt)
                    >> (step (dirlink dp name ip) >>= λ linked. created dp ip linked))))
            (after (ialloc dev kind) ip l)
    go ip ne fresh = (
      (ground (arith, h.refs ip), fresh),
      λ a _. (
        (h.in_op, ground (arith, h.locks ip)),
        λ _ _.
            let m =
              after (init_inode ip major minor) tt
                (after (ilock ip) a (after (ialloc dev kind) ip l)) in
            let hm : Has true (λ j. one dp j + one ip j) (λ j. one dp j + one ip j) (one ip) m =
              record {
                in_op = h.in_op;
                refs = λ j. ground (arith, h.refs j);
                locks = λ j. ground (arith, h.locks j);
                files = h.files;
                links = λ j. ground (arith, h.links j);
              } in
            Runs-bind (Holding before) (if is_dir kind then link_dots dp ip else ret tt) _ m (
              Runs-if _ (is_dir kind) (link_dots dp ip) (ret tt) m
                (λ _.
                  Runs-imp _ _ (link_dots dp ip) m (λ _ l' (h', same'). last ip ne l' h' same')
                    (link_dots-Runs dp ip ne before m hm same))
                (λ _. last ip ne m hm same)),
      ),
    )
      where
        last :
            (ip : ℕ)
            → dp ≢ ip
            → (l' : Ledger)
            → Has true (λ j. one dp j + one ip j) (λ j. one dp j + one ip j) (one ip) l'
            → l'.opened ≡ before.opened
            → Runs
                (Holding before)
                (step (dirlink dp name ip) >>= λ linked. created dp ip linked)
                l'
        last ip ne l' h' same' = (
          (h'.in_op, ground (arith, h'.locks dp)),
          λ linked _. created-Runs dp ip ne before name l' h' same' linked,
        )
