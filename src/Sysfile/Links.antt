-- ===== src/Sysfile/Links.antt =====
-- `sys_link` keeps its ledger.
use os_lab.Fs.{FileKind}
use os_lab.Sysfile.Names.{undo_link, end_link, link_parent}
use os_lab.Sysfile.{Str, Attrs, nameiparent, ilock, dirlink, ret, step, is_dir}
use os_lab.Base.{
  ◌==◌, if◌then◌else◌, ℕ, ◌+◌, ◌≡◌, refl, sym, ap, ◌∙◌, ap₂, ◌≢◌, ◌⊎◌, inl, inr, Bool, true, false,
  ◌||◌, not, false≢true, Option, none, some, List, arith,
}
use os_lab.Base.Int.{ℤ, pos, negsuc}
use os_lab.Sysfile.Ledger.{Ledger, is_none, Fresh, after, zeros, one, Has, AtRest, Runs}
use os_lab.Sysfile.Rules.{Runs-bind, Runs-if}

-- The result is -1 and no name was made, or 0 and one was.
abbrev pub Linked : Ledger → ℤ → Ledger → Type 0
Linked l r l' =
    AtRest l.opened l'
    × (((r ≡ negsuc 0) × ((j : ℕ) → l'.named j ≡ l.named j))
        ⊎ ((r ≡ pos 0) × ((i : ℕ) × ((j : ℕ) → l'.named j ≡ one i j + l.named j))))

pub undo_link-Runs :
    (ip : ℕ) (before l : Ledger)
    → Has true (one ip) zeros (one ip) l
    → l.opened ≡ before.opened
    → ((j : ℕ) → l.named j ≡ before.named j)
    → Runs (Linked before) (undo_link ip) l
unfolding undo_link
undo_link-Runs ip before l h same named = (
  (ground (arith, h.refs ip), h.locks ip),
  λ a _. (
    (h.in_op, ground (arith, h.locks ip)),
    λ _ _. (
      ground (arith, h.locks ip),
      λ _ _. (
        (h.in_op, ground (arith, h.refs ip), ground (arith, h.locks ip)),
        λ _ _. (
          (h.in_op, λ j. ground (arith, h.locks j)),
          λ _ _. (
            record {
              has = record {
                in_op = refl;
                refs = λ j. ground (arith, h.refs j);
                locks = λ j. ground (arith, h.locks j);
                files = h.files;
                links = λ j. ground (arith, h.links j);
              };
              opened = same;
            },
            inl (refl, named),
          ),
        ),
      ),
    ),
  ),
)

-- The directory is given back: to the end with the new name, or to the label `bad`.
end_link-Runs :
    (ip dp : ℕ) (linked : Bool) (before l : Ledger)
    → Has true (λ j. one ip j + one dp j) (one dp) (if linked then zeros else one ip) l
    → l.opened ≡ before.opened
    → ((j : ℕ) → l.named j ≡ (if linked then one ip j else 0) + before.named j)
    → Runs (Linked before) (end_link ip dp linked) l
unfolding end_link
end_link-Runs ip dp false before l h same named = (
  ground (arith, h.locks dp),
  λ _ _. (
    (h.in_op, ground (arith, h.refs dp), ground (arith, h.locks dp)),
    λ _ _.
        undo_link-Runs ip before _
          (record {
            in_op = h.in_op;
            refs = λ j. ground (arith, h.refs j);
            locks = λ j. ground (arith, h.locks j);
            files = h.files;
            links = h.links;
          })
          same (λ j. ground (arith, named j)),
  ),
)
end_link-Runs ip dp true before l h same named = (
  ground (arith, h.locks dp),
  λ _ _. (
    (h.in_op, ground (arith, h.refs dp), ground (arith, h.locks dp)),
    λ _ _. (
      (h.in_op, ground (arith, h.refs ip), ground (arith, h.locks ip)),
      λ _ _. (
        (h.in_op, λ j. ground (arith, h.locks j)),
        λ _ _. (
          record {
            has = record {
              in_op = refl;
              refs = λ j. ground (arith, h.refs j);
              locks = λ j. ground (arith, h.locks j);
              files = h.files;
              links = λ j. ground (arith, h.links j);
            };
            opened = same;
          },
          inr (refl, (ip, named)),
        ),
      ),
    ),
  ),
)

-- An inode that is not a directory is not the directory of the new name.
not_parent :
    (kinds : ℕ → FileKind) (ip dp : ℕ) (kind : FileKind)
    → kinds ip ≡ kind
    → is_dir kind ≡ false
    → is_none kind ≡ false
    → (is_dir (kinds dp) || is_none (kinds dp)) ≡ true
    → dp ≢ ip
not_parent kinds ip dp kind e no_dir in_use parent same = false≢true (
    sym (ap₂ ◌||◌ no_dir in_use)
    ∙ sym (ap (λ k. is_dir k || is_none k) (ap kinds same ∙ e))
    ∙ parent)

pub link_parent-Runs :
    (ip : ℕ) (a : Attrs) (new : Str) (before l : Ledger)
    → Has true (one ip) zeros (one ip) l
    → l.opened ≡ before.opened
    → ((j : ℕ) → l.named j ≡ before.named j)
    → l.kinds ip ≡ a.kind
    → is_dir a.kind ≡ false
    → is_none a.kind ≡ false
    → (parent : Option (ℕ × List ℕ)) → Fresh (nameiparent new) parent l
    → Runs (Linked before) (link_parent ip a parent) (after (nameiparent new) parent l)
unfolding link_parent
link_parent-Runs ip a new before l h same named kind no_dir in_use none fresh =
    undo_link-Runs ip before l h same named
link_parent-Runs ip a new before l h same named kind no_dir in_use (some (dp, name)) fresh = (
  (ground (arith, h.refs dp), h.locks dp),
  λ d _.
      Runs-bind (Linked before)
        (if not (d.dev == a.dev) then ret false else step (dirlink dp name ip)) (end_link ip dp) _
        (Runs-if _ (not (d.dev == a.dev)) (ret false) (step (dirlink dp name ip)) _
          (λ _.
            end_link-Runs ip dp false before (dp_locked d) (unlinked d) same
              (λ j. ground (arith, named j)))
          (λ _. (
            (h.in_op, ground (arith, h.locks dp)),
            λ linked _.
                elim linked
                  as (λ linked.
                    Runs (Linked before) (end_link ip dp linked)
                      (after (dirlink dp name ip) linked (dp_locked d))) [
                        | false ↦
                            end_link-Runs ip dp false before
                              (after (dirlink dp name ip) false (dp_locked d))
                              (record {
                                in_op = h.in_op;
                                refs = (unlinked d).refs;
                                locks = (unlinked d).locks;
                                files = h.files;
                                links = h.links;
                              })
                              same (λ j. ground (arith, named j))
                        | true ↦
                            end_link-Runs ip dp true before
                              (after (dirlink dp name ip) true (dp_locked d))
                              (record {
                                in_op = h.in_op;
                                refs = (unlinked d).refs;
                                locks = (unlinked d).locks;
                                files = h.files;
                                links = λ j. ground (arith, h.links j, other);
                              })
                              same (λ j. ground (arith, named j, other))
                      ],
          ))),
)
  where
    dp_locked : Attrs → Ledger
    dp_locked d = after (ilock dp) d (after (nameiparent new) (some (dp, name)) l)

    other : dp ≢ ip
    other = not_parent l.kinds ip dp a.kind kind no_dir in_use fresh

    unlinked :
        (d : Attrs)
        → Has true
            (λ j. one ip j + one dp j)
            (one dp)
            (one ip)
            (after (ilock dp) d (after (nameiparent new) (some (dp, name)) l))
    unlinked d = record {
      in_op = h.in_op;
      refs = λ j. ground (arith, h.refs j);
      locks = λ j. ground (arith, h.locks j);
      files = h.files;
      links = h.links;
    }
