-- ===== src/Sysfile/Rules.antt =====
-- How the account of a call goes on: rules for programs, and ledgers after a step.
use os_lab.Base.{if◌then◌else◌, ℕ, ◌<◌, ◌≡◌, refl, Bool, true, false, arith}
use os_lab.Sysfile.{Attrs, Op, ilock, Ans, Prog, ret, panic, call, ◌>>=◌, ◌>>◌, iunlockput}
use os_lab.Sysfile.Ledger.{
  Ledger, inc, dec, Fresh, after, zeros, one, Has, AtRest, Answers, RunsUnder, Runs,
}

-- Fewer answers.
pub Runs-under :
    {A : Type 0} (can : Answers) (P : A → Ledger → Type 0) (m : Prog A) (l : Ledger)
    → ((o : Op) (a : Ans o) (l' : Ledger) → can o a l' → Fresh o a l')
    → Runs P m l
    → RunsUnder can P m l
Runs-under can P (ret a) l honest r = r
Runs-under can P panic l honest r = r
Runs-under can P (call o k) l honest r =
    (r.0, λ a c. Runs-under can P (k a) (after o a l) honest (r.1 a (honest o a l c)))

pub Runs-bind :
    {A B : Type 0} (P : B → Ledger → Type 0) (m : Prog A) (f : A → Prog B) (l : Ledger)
    → Runs (λ a l'. Runs P (f a) l') m l
    → Runs P (m >>= f) l
Runs-bind P (ret a) f l r = r
Runs-bind P panic f l r = r
Runs-bind P (call o k) f l r = (r.0, λ a fresh. Runs-bind P (k a) f (after o a l) (r.1 a fresh))

pub Runs-imp :
    {A : Type 0} (P Q : A → Ledger → Type 0) (m : Prog A) (l : Ledger)
    → ((a : A) (l' : Ledger) → P a l' → Q a l')
    → Runs P m l
    → Runs Q m l
Runs-imp P Q (ret a) l h r = h a l r
Runs-imp P Q panic l h r = r
Runs-imp P Q (call o k) l h r = (r.0, λ a fresh. Runs-imp P Q (k a) (after o a l) h (r.1 a fresh))

pub Runs-if :
    {A : Type 0} (P : A → Ledger → Type 0) (b : Bool) (p q : Prog A) (l : Ledger)
    → (b ≡ true → Runs P p l)
    → (b ≡ false → Runs P q l)
    → Runs P (if b then p else q) l
Runs-if P true p q l h k = h refl
Runs-if P false p q l h k = k refl

pub rest :
    (n : ℕ) (l : Ledger)
    → Has true zeros zeros zeros l
    → l.opened ≡ n
    → AtRest n (record l { in_op = false })
rest n l h e = record {
  has = record { in_op = refl; refs = h.refs; locks = h.locks; files = h.files; links = h.links };
  opened = e;
}

-- The transaction is open.
pub with_op :
    (l : Ledger) → AtRest l.opened l → Has true zeros zeros zeros (record l { in_op = true })
with_op l h = record {
  in_op = refl;
  refs = h.has.refs;
  locks = h.has.locks;
  files = h.has.files;
  links = h.has.links;
}

-- The first reference and the first lock, and the last.
pub lock_one :
    (i : ℕ) (a : Attrs) (l : Ledger)
    → Has true zeros zeros zeros l
    → Has true (one i) (one i) zeros (after (ilock i) a (record l { refs = inc l.refs i }))
lock_one i a l h = record {
  in_op = h.in_op;
  refs = λ j. ground (arith, h.refs j);
  locks = λ j. ground (arith, h.locks j);
  files = h.files;
  links = h.links;
}

-- What `iunlockput` leaves.
abbrev pub put_back : ℕ → Ledger → Ledger
put_back i l = record l { locks = dec l.locks i; refs = dec l.refs i }

pub put-Runs :
    {A : Type 0} (P : A → Ledger → Type 0) (i : ℕ) (m : Prog A) (l : Ledger)
    → l.in_op ≡ true
    → 0 < l.refs i
    → l.locks i ≡ 1
    → Runs P m (put_back i l)
    → Runs P (iunlockput i >> m) l
put-Runs P i m l op held locked r =
    (omega (arith, locked), λ _ _. ((op, held, ground (arith, locked)), λ _ _. r))

pub put_one :
    (i : ℕ) (l : Ledger)
    → Has true (one i) (one i) zeros l
    → Has true zeros zeros zeros (put_back i l)
put_one i l h = record {
  in_op = h.in_op;
  refs = λ j. ground (arith, h.refs j);
  locks = λ j. ground (arith, h.locks j);
  files = h.files;
  links = h.links;
}
