-- ===== src/Pipe/Write.antt =====
-- `pipewrite` against a queue of bytes that holds at most 512.
use os_lab.Base.{
  if◌then◌else◌, ==_iff, Bool-cases, set, length-set, ℕ, suc, ◌%◌, ◌<◌, ◌≡◌, refl, sym, ap, ◌∙◌,
  ◌≢◌, ◌⊎◌, inl, inr, Bool, true, false, ◌||◌, not, false≢true, List, [], ◌∷◌, ◌++◌, append-nil,
  append_assoc, arith,
}
use os_lab.Pipe.{
  pipesize, add_uint, Pipe, Wrote, wrote, broken, full, is_full, put_byte, write_loop, pipewrite,
}
use os_lab.Pipe.Ring.{window, count, contents, IsPipe, window-set}

is_full→count : (p : Pipe) → IsPipe p → is_full p ≡ true → count p ≡ pipesize
is_full→count p v h =
    let e : p.nwrite ≡ add_uint p.nread pipesize = (==_iff _ _).0 h in
    omega (arith, v.read_word, v.write_word)

count-put :
    (p : Pipe) (b : ℕ)
    → IsPipe p
    → is_full p ≡ false
    → (count p < pipesize) × (count (put_byte p b) ≡ suc (count p))
unfolding put_byte
count-put p b v h =
    let ne : p.nwrite ≢ add_uint p.nread pipesize = λ e. false≢true (sym h ∙ (==_iff _ _).1 e) in
    let lt : count p < pipesize = omega (arith, v.read_word, v.write_word, v.bounded) in
    (lt, omega (arith, v.read_word, v.write_word))

-- One byte goes to the end.
put_byte-contents :
    (p : Pipe) (b : ℕ)
    → IsPipe p
    → is_full p ≡ false
    → IsPipe (put_byte p b) × (contents (put_byte p b) ≡ contents p ++ b ∷ [])
unfolding put_byte
put_byte-contents p b v h =
    let (lt, c) = count-put p b v h in
    (
      record {
        room = length-set p.ring (p.nwrite % pipesize) b ∙ v.room;
        read_word = v.read_word;
        write_word = omega arith;
        bounded = omega (arith, c);
      },
      ap (window (set p.ring (p.nwrite % pipesize) b) p.nread) c
          ∙ window-set p.ring b (count p) p.nread (p.nwrite % pipesize) v.room lt
              (omega (arith, v.read_word, v.write_word)),
    )

-- How a run of the loop ends, with `rest` still to write.
abbrev pub Ends : Pipe → Bool → List ℕ → Wrote → Type 0
Ends p killed rest wrote = rest ≡ []
Ends p killed rest broken =
    (count p ≡ pipesize) × (rest ≢ []) × ((p.readopen ≡ false) ⊎ (killed ≡ true))
Ends p killed rest (full bs) =
    (rest ≡ bs) × (count p ≡ pipesize) × (bs ≢ []) × (p.readopen ≡ true) × (killed ≡ false)

-- A run of `pipewrite` appends the bytes `taken` and leaves the bytes `rest`.
pub record Writes (p : Pipe) (killed : Bool) (bs : List ℕ) (p' : Pipe) (w : Wrote) : Type 0 where
  pub taken : List ℕ
  pub rest : List ℕ
  pub split : bs ≡ taken ++ rest
  pub appended : contents p' ≡ contents p ++ taken
  pub valid : IsPipe p'
  pub open_kept : (p'.readopen ≡ p.readopen) × (p'.writeopen ≡ p.writeopen) × (p'.nread ≡ p.nread)
  pub ends : Ends p' killed rest w

stop-Ends :
    (p : Pipe) (o k : Bool) (b : ℕ) (bs : List ℕ)
    → count p ≡ pipesize
    → p.readopen ≡ o
    → Ends p k (b ∷ bs) (if not o || k then broken else full (b ∷ bs))
stop-Ends p false k b bs c e = (c, λ h. cc, inl e)
stop-Ends p true true b bs c e = (c, λ h. cc, inr refl)
stop-Ends p true false b bs c e = (refl, c, λ h. cc, e, refl)

stop :
    (p : Pipe) (killed : Bool) (b : ℕ) (bs : List ℕ)
    → IsPipe p
    → is_full p ≡ true
    → Writes p killed (b ∷ bs) p (if not p.readopen || killed then broken else full (b ∷ bs))
stop p killed b bs v h = record {
  taken = [];
  rest = b ∷ bs;
  split = refl;
  appended = sym (append-nil (contents p));
  valid = v;
  open_kept = (refl, refl, refl);
  ends = stop-Ends p p.readopen killed b bs (is_full→count p v h) refl;
}

after :
    (p : Pipe) (killed : Bool) (b : ℕ) (bs : List ℕ) {p' : Pipe} {w : Wrote}
    → contents (put_byte p b) ≡ contents p ++ b ∷ []
    → Writes (put_byte p b) killed bs p' w
    → Writes p killed (b ∷ bs) p' w
unfolding put_byte
after p killed b bs c r = record {
  taken = b ∷ r.taken;
  rest = r.rest;
  split = ap (◌∷◌ b) r.split;
  appended = r.appended ∙ ap (λ l. l ++ r.taken) c ∙ append_assoc (contents p) (b ∷ []) r.taken;
  valid = r.valid;
  open_kept = r.open_kept;
  ends = r.ends;
}

write_loop-Writes :
    (bs : List ℕ) (p : Pipe) (killed : Bool)
    → IsPipe p
    → Writes p killed bs (write_loop p killed bs).0 (write_loop p killed bs).1
unfolding write_loop
write_loop-Writes [] p killed v = record {
  taken = [];
  rest = [];
  split = refl;
  appended = sym (append-nil (contents p));
  valid = v;
  open_kept = (refl, refl, refl);
  ends = refl;
}
write_loop-Writes (b ∷ bs) p killed v = elim (Bool-cases (is_full p)) [
  | inl h ↦ rw (h, write_loop) (stop p killed b bs v h)
  | inr h ↦
      let (v', c) = put_byte-contents p b v h in
      rw (h, write_loop) (after p killed b bs c (write_loop-Writes bs (put_byte p b) killed v'))
]

-- `pipewrite` appends to the pipe a prefix of its bytes, in order. It returns `n` only when all are
-- written; it sleeps only with the pipe full, the read end open and the writer not killed; and it
-- returns -1 only with the pipe full and the read end closed or the writer killed. It keeps the
-- pipe's invariant and the other fields.
pub pipewrite-Writes :
    (p : Pipe) (killed : Bool) (bs : List ℕ)
    → IsPipe p
    → Writes p killed bs (pipewrite p killed bs).0 (pipewrite p killed bs).1
unfolding pipewrite
pipewrite-Writes p killed bs v = write_loop-Writes bs p killed v
