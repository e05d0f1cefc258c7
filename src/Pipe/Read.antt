-- ===== src/Pipe/Read.antt =====
-- `piperead` against a queue of bytes that holds at most 512.
use os_lab.Base.{
  ◌==◌, if◌then◌else◌, ==_iff, Bool-cases, length, get_or, ℕ, zero, suc, ◌+◌, ◌%◌, min, ◌≡◌, refl,
  sym, ap, ◌∙◌, ◌≢◌, ◌⊎◌, inl, inr, Bool, true, false, ◌&&◌, false≢true, List, [], ◌∷◌, ◌++◌, arith,
}
use os_lab.Pipe.{
  pipesize, add_uint, Pipe, Side, writers, Got, got, interrupted, starved, read_loop, piperead,
}
use os_lab.Pipe.Ring.{window, count, contents, IsPipe, window-congr}

-- A run of the copy loop takes the bytes `bs` off the front.
pub record Reads (p : Pipe) (n : ℕ) (p' : Pipe) (bs : List ℕ) : Type 0 where
  pub split : contents p ≡ bs ++ contents p'
  pub amount : length bs ≡ min n (count p)
  pub valid : IsPipe p'
  pub kept : (p'.readopen ≡ p.readopen) × (p'.writeopen ≡ p.writeopen) × (p'.nwrite ≡ p.nwrite)

-- The pipe after one byte is read.
abbrev drop_byte : Pipe → Pipe
drop_byte p = record p { nread = add_uint p.nread 1 }

drop_byte-contents :
    (p : Pipe)
    → IsPipe p
    → p.nread ≢ p.nwrite
    → IsPipe (drop_byte p)
      × (count p ≡ suc (count (drop_byte p)))
      × (contents p ≡ get_or p.ring (p.nread % pipesize) 0 ∷ contents (drop_byte p))
drop_byte-contents p v ne =
    let c : count p ≡ suc (count (drop_byte p)) = omega (arith, v.read_word, v.write_word) in
    (
      record {
        room = v.room;
        read_word = omega arith;
        write_word = v.write_word;
        bounded = omega (arith, v.bounded);
      },
      c,
      ap (window p.ring p.nread) c
          ∙ ap (◌∷◌ (get_or p.ring (p.nread % pipesize) 0)) (
              window-congr p.ring (count (drop_byte p)) (p.nread + 1) (add_uint p.nread 1)
                (omega arith)),
    )

read_loop-Reads : (n : ℕ) (p : Pipe) → IsPipe p → Reads p n (read_loop p n).0 (read_loop p n).1
unfolding read_loop
read_loop-Reads zero p v = record {
  split = refl;
  amount = omega arith;
  valid = v;
  kept = (refl, refl, refl);
}
read_loop-Reads (suc n) p v = elim (Bool-cases (p.nread == p.nwrite)) [
  | inl h ↦
      rw (h, read_loop)
        (record {
          split = refl;
          amount = let e : p.nread ≡ p.nwrite = (==_iff _ _).0 h in omega (arith, v.read_word);
          valid = v;
          kept = (refl, refl, refl);
        })
  | inr h ↦
      let ne : p.nread ≢ p.nwrite = λ e. false≢true (sym h ∙ (==_iff _ _).1 e) in
      let (v', c, s) = drop_byte-contents p v ne in
      let r = read_loop-Reads n (drop_byte p) v' in
      rw (h, read_loop)
        (record {
          split = s ∙ ap (◌∷◌ (get_or p.ring (p.nread % pipesize) 0)) r.split;
          amount = omega (arith, r.amount);
          valid = r.valid;
          kept = r.kept;
        })
]

-- How a run of `piperead` ends.
abbrev pub Answers : Pipe → Bool → ℕ → Pipe → Got → Type 0
Answers p killed n p' (got bs) = ((contents p ≢ []) ⊎ (p.writeopen ≡ false)) × Reads p n p' bs
Answers p killed n p' interrupted =
    (contents p ≡ []) × (p.writeopen ≡ true) × (killed ≡ true) × (p' ≡ p)
Answers p killed n p' starved =
    (contents p ≡ []) × (p.writeopen ≡ true) × (killed ≡ false) × (p' ≡ p)

contents-empty : (p : Pipe) → IsPipe p → (p.nread == p.nwrite) ≡ true → contents p ≡ []
contents-empty p v h =
    let e : p.nread ≡ p.nwrite = (==_iff _ _).0 h in
    let c : count p ≡ 0 = omega (arith, v.read_word) in ap (window p.ring p.nread) c

contents-ne_nil : (p : Pipe) → IsPipe p → (p.nread == p.nwrite) ≡ false → contents p ≢ []
contents-ne_nil p v h e =
    let ne : p.nread ≢ p.nwrite = λ e. false≢true (sym h ∙ (==_iff _ _).1 e) in
    let s = (drop_byte-contents p v ne).2 in cc

-- The three ways out, by the two tests and the reader's flag.
finish :
    (p : Pipe) (n : ℕ) (e w k : Bool)
    → IsPipe p
    → (p.nread == p.nwrite) ≡ e
    → p.writeopen ≡ w
    → let r : Pipe × Got × List Side =
        if e && w
        then (p, if k then interrupted else starved, [])
        else ((read_loop p n).0, got (read_loop p n).1, writers ∷ []) in
      Answers p k n r.0 r.1
finish p n true true true v he hw = (contents-empty p v he, hw, refl, refl)
finish p n true true false v he hw = (contents-empty p v he, hw, refl, refl)
finish p n true false k v he hw = (inr hw, read_loop-Reads n p v)
finish p n false w k v he hw = (inl (contents-ne_nil p v he), read_loop-Reads n p v)

-- `piperead` returns the oldest bytes of the pipe, as many as it holds but at most `n`, takes exactly
-- these off, and keeps the invariant. It sleeps, or returns -1 if the reader is killed, exactly when
-- the pipe is empty and its write end is open, and then changes nothing.
pub piperead-Answers :
    (p : Pipe) (killed : Bool) (n : ℕ)
    → IsPipe p
    → Answers p killed n (piperead p killed n).0 (piperead p killed n).1
unfolding piperead
piperead-Answers p killed n v = finish p n (p.nread == p.nwrite) p.writeopen killed v refl refl
