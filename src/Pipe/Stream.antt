-- ===== src/Pipe/Stream.antt =====
-- A pipe between a writer and a reader, whose calls are interleaved in any order.
use os_lab.Base.{
  length, length-append, take, ℕ, ◌+◌, ◌-◌, ◌%◌, ◌^◌, ◌≡◌, refl, sym, ap, ◌∙◌, ap₂, Bool, true,
  false, List, [], ◌∷◌, ◌++◌, append-nil, append_assoc, arith,
}
use os_lab.Pipe.{
  pipesize, Pipe, pipe_init, pipeclose, Wrote, pipewrite, Got, got, interrupted, starved, piperead,
}
use os_lab.Pipe.Ring.{count, contents, IsPipe, length-window}
use os_lab.Pipe.Write.{Writes, pipewrite-Writes}
use os_lab.Pipe.Read.{Answers, piperead-Answers}

-- A run of a call: the writer or the reader enters its body, also again after a sleep, or an end is
-- closed.
pub data Call : Type 0 where
  writes : Bool → List ℕ → Call
  reads : Bool → ℕ → Call
  closes : Bool → Call

-- The pipe, the bytes that the writer has put in and the bytes that the reader has got.
pub record Trace : Type 0 where
  pub pipe : Pipe
  pub sent : List ℕ
  pub received : List ℕ

-- How far `nwrite` has moved.
abbrev moved : Pipe → Pipe → ℕ
moved p p' = (p'.nwrite + 2 ^ 32 - p.nwrite) % 2 ^ 32

abbrev bytes_of : Got → List ℕ
bytes_of (got bs) = bs
bytes_of _ = []

pub step : Trace → Call → Trace
step s (writes killed bs) =
    let p' = (pipewrite s.pipe killed bs).0 in
    record s { pipe = p'; sent = s.sent ++ take (moved s.pipe p') bs }
step s (reads killed n) =
    let r = piperead s.pipe killed n in
    record s { pipe = r.0; received = s.received ++ bytes_of r.1 }
step s (closes writable) = record s { pipe = (pipeclose s.pipe writable).0 }

pub run : Trace → List Call → Trace
run s [] = s
run s (c ∷ cs) = run (step s c) cs

pub record InOrder (s : Trace) : Type 0 where
  pub valid : IsPipe s.pipe
  pub in_order : s.sent ≡ s.received ++ contents s.pipe

take-append : (xs ys : List ℕ) (n : ℕ) → n ≡ length xs → take n (xs ++ ys) ≡ xs
take-append [] ys n e = rw e refl
take-append (x ∷ xs) ys n e = rw e (ap (◌∷◌ x) (take-append xs ys (length xs) refl))

moved-taken :
    (p : Pipe) (killed : Bool) (bs : List ℕ) (p' : Pipe) (w : Wrote)
    → IsPipe p
    → (r : Writes p killed bs p' w) → moved p p' ≡ length r.taken
moved-taken p killed bs p' w v r =
    let l : count p' ≡ count p + length r.taken =
      sym (length-window p'.ring (count p') p'.nread)
      ∙ ap length r.appended
      ∙ length-append (contents p) r.taken
      ∙ ap (λ n. n + length r.taken) (length-window p.ring (count p) p.nread) in
    omega (arith, l, r.open_kept.2, r.valid.bounded, r.valid.write_word, v.write_word, v.read_word)

write-InOrder :
    (s : Trace) (killed : Bool) (bs : List ℕ) → InOrder s → InOrder (step s (writes killed bs))
unfolding step
write-InOrder s killed bs o =
    let r = pipewrite-Writes s.pipe killed bs o.valid in
    let p' = (pipewrite s.pipe killed bs).0 in
    let m = moved-taken s.pipe killed bs p' (pipewrite s.pipe killed bs).1 o.valid r in
    let t : take (moved s.pipe p') bs ≡ r.taken =
      ap (take (moved s.pipe p')) r.split ∙ take-append r.taken r.rest (moved s.pipe p') m in
    record {
      valid = r.valid;
      in_order =
          ap₂ ◌++◌ o.in_order t
          ∙ append_assoc s.received (contents s.pipe) r.taken
          ∙ ap (◌++◌ s.received) (sym r.appended);
    }

read-InOrder :
    (s : Trace) (killed : Bool) (n : ℕ) (p' : Pipe) (g : Got)
    → InOrder s
    → Answers s.pipe killed n p' g
    → InOrder (record s { pipe = p'; received = s.received ++ bytes_of g })
read-InOrder s killed n p' (got bs) o (_, r) = record {
  valid = r.valid;
  in_order =
      o.in_order ∙ ap (◌++◌ s.received) r.split ∙ sym (append_assoc s.received bs (contents p'));
}
read-InOrder s killed n p' interrupted o (c, w, k, e) =
    rw (e, append-nil) (record { valid = o.valid; in_order = o.in_order })
read-InOrder s killed n p' starved o (c, w, k, e) =
    rw (e, append-nil) (record { valid = o.valid; in_order = o.in_order })

step-InOrder : (s : Trace) (c : Call) → InOrder s → InOrder (step s c)
unfolding step pipeclose
step-InOrder s (writes killed bs) o = write-InOrder s killed bs o
step-InOrder s (reads killed n) o =
    let r = piperead s.pipe killed n in
    read-InOrder s killed n r.0 r.1 o (piperead-Answers s.pipe killed n o.valid)
step-InOrder s (closes true) o = record {
  valid = record {
    room = o.valid.room;
    read_word = o.valid.read_word;
    write_word = o.valid.write_word;
    bounded = o.valid.bounded;
  };
  in_order = o.in_order;
}
step-InOrder s (closes false) o = record {
  valid = record {
    room = o.valid.room;
    read_word = o.valid.read_word;
    write_word = o.valid.write_word;
    bounded = o.valid.bounded;
  };
  in_order = o.in_order;
}

run-InOrder : (cs : List Call) (s : Trace) → InOrder s → InOrder (run s cs)
unfolding run
run-InOrder [] s o = o
run-InOrder (c ∷ cs) s o = run-InOrder cs (step s c) (step-InOrder s c o)

-- A pipe is a queue of bytes for its writer and reader, however their calls are interleaved and however
-- often the counters wrap: after any calls on a fresh pipe, over a page of 512 bytes,
-- the bytes put in are the bytes got out followed by the bytes in the pipe, and the pipe's invariant
-- holds.
pub run-pipe_init-InOrder :
    (page : List ℕ) (cs : List Call)
    → length page ≡ pipesize
    → InOrder (run (record { pipe = pipe_init page; sent = []; received = [] }) cs)
unfolding pipe_init
run-pipe_init-InOrder page cs l = run-InOrder cs _ (record {
  valid = record {
    room = l;
    read_word = omega arith;
    write_word = omega arith;
    bounded = omega arith;
  };
  in_order = refl;
})
