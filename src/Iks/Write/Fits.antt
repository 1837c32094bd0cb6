-- ===== src/Iks/Write/Fits.antt =====
-- `iks_string` of src/iks.c never writes behind the buffer that it has asked for.
use iksemel.Base.{
  ℕ, suc, ◌+◌, true, false, leb, if◌then◌else◌, Option, none, some, [], ◌++◌, Bytes, codes, length,
  take, strlen, ◌≡◌, refl, length-append, arith,
}
use iksemel.Iks.Heap.{
  Node, Heap, Run, ok, fault, out_of_fuel, Cmd, pure, crash, and_then, ◌>>=◌, if_null, load,
  request, dup,
}
use iksemel.Iks.Create.{is_cdata}
use iksemel.Iks.Sim.{EndsAs, Sim-EndsAs, at_request}
use iksemel.Iks.Write.{sizes, writes, again, walk, iks_string}
use iksemel.Iks.Write.Escape.{my_strcat, escape}
use iksemel.Iks.Write.Escaped.{length-escape, length-dup}
use iksemel.Iks.Write.Passes.{IsImage, walk-Images}

length-my_strcat : (t name : Bytes) → length (my_strcat t name 0) ≡ length t + strlen name
unfolding my_strcat
length-my_strcat t name = rw (length-append t (dup name 0), length-dup name)

writes-sizes : IsImage length writes sizes
writes-sizes = record {
  start = λ t n. rw (length-my_strcat (t ++ codes "<") n, length-append t (codes "<"));
  attribute = λ t n v.
      let named = my_strcat (t ++ codes " ") n 0 in
      rw
        (
          length-append (escape (named ++ codes "='") (take (strlen v) v)) (codes "'"),
          length-escape (named ++ codes "='") (take (strlen v) v),
          length-append named (codes "='"),
          length-my_strcat (t ++ codes " ") n,
          length-append t (codes " "),
        )
        (omega arith);
  open_end = λ t. rw (length-append t (codes ">"));
  single_end = λ t. rw (length-append t (codes "/>"));
  text = λ t c. rw (length-escape t c);
  close = λ t n.
      rw
        (
          length-append (my_strcat (t ++ codes "</") n 0) (codes ">"),
          length-my_strcat (t ++ codes "</") n,
          length-append t (codes "</"),
        )
        (omega arith);
}

same-pass : IsImage (λ t. t) writes writes
same-pass = record {
  start = λ t n. refl;
  attribute = λ t n v. refl;
  open_end = λ t. refl;
  single_end = λ t. refl;
  text = λ t c. refl;
  close = λ t n. refl;
}

-- a request for memory, and NULL or the text in it
abbrev pub answered : Bytes → Cmd (Option Bytes)
answered text = do r ← request; if_null r (pure none) λ _. pure (some text)

-- writing first, and asking for memory then
abbrev pub written : ℕ → ℕ → Cmd (Option Bytes)
written fuel x = do text ← walk writes fuel (again 0 true (some x) []); answered text

-- the second half of `iks_string`, with `w` for the loop that writes
abbrev buffered : Cmd Bytes → ℕ → Cmd (Option Bytes)
buffered w size = do
  r ← request
  if_null r (pure none) λ _. do text ← w; if leb (length text) size then pure (some text) else crash

buffered_enough :
    (w : Cmd Bytes) (text : Bytes) (h : Heap)
    → w (at_request (suc h.fresh) h) ≡ ok text (at_request (suc h.fresh) h)
    → buffered w (length text) h ≡ answered text h
unfolding request
buffered_enough w text h e =
    let all : leb (length text) (length text) ≡ true = ground arith in
    elim (h.grants h.fresh)
      as (λ b.
        and_then (ok (if b then some h.fresh else none) (at_request (suc h.fresh) h)) (λ r.
          if_null r (pure none) λ _. do
            text' ← w
            if leb (length text') (length text) then pure (some text') else crash)
        ≡ and_then (ok (if b then some h.fresh else none) (at_request (suc h.fresh) h))
            (λ r. if_null r (pure none) λ _. pure (some text))) [
              | true ↦ rw (e, all)
              | false ↦ refl
            ]

-- On a node that is not text, `iks_string` ends as the loop that writes does where no buffer
-- limits it, whatever the heap: what the counting loop has asked for is always enough.
pub iks_string-written :
    (fuel : ℕ) (s : Option ℕ) (x : ℕ) (n : Node) (h : Heap)
    → h.node x ≡ some n
    → is_cdata n.type ≡ false
    → iks_string fuel s (some x) h ≡ written fuel x h
unfolding iks_string load
iks_string-written fuel s x n h e c =
    let start = again 0 true (some x) [] in
    let w = walk writes fuel start in
    let counted =
      Sim-EndsAs (walk-Images length writes sizes writes-sizes h h.fresh fuel start).runs in
    let moved =
      Sim-EndsAs (walk-Images (λ t. t) writes writes same-pass h (suc h.fresh) fuel start).runs in
    rw (iks_string, load, e, c) (ended (w h) counted moved)
  where
    ended :
        (r : Run Bytes)
        → EndsAs length h h r (walk sizes fuel (again 0 true (some x) 0) h)
        → EndsAs
            (λ t. t)
            h
            (at_request (suc h.fresh) h)
            r
            (walk writes fuel (again 0 true (some x) []) (at_request (suc h.fresh) h))
        → and_then
            (walk sizes fuel (again 0 true (some x) 0) h)
            (buffered (walk writes fuel (again 0 true (some x) [])))
          ≡ and_then r answered
    ended (ok text left) (same, counted) (_, moved) =
        rw (counted, same) (buffered_enough _ text h moved)
    ended fault counted moved = rw counted
    ended out_of_fuel counted moved = rw counted
