-- ===== src/Dom/File/Pieces.antt =====
-- The loop of `iks_load` on a file that comes in pieces.
use iksemel.Base.{
  ℕ, zero, suc, ◌≤◌, true, false, ltb, Option, none, some, List, [], ◌∷◌, Bytes, length, ◌≡◌, refl,
  arith,
}
use iksemel.Sax.Types.{iks_ok, Env, Parser, Outcome, ok, err, fault, out_of_fuel, ◌>>=◌}
use iksemel.Sax.Parse.{iks_parse}
use iksemel.Iks.Heap.{Run}
use iksemel.Dom.{DomData}
use iksemel.Dom.File.{Files, Load, loaded, if_parsed, file_io_buf_size, load_piece, load_loop}

abbrev Dom : Type 0
Dom = Parser (Run DomData)

-- the pieces fed to the parser one after the other; an empty one is not
abbrev pub feed : Env (Run DomData) → List Bytes → Dom → Outcome (Run DomData) Dom
feed env [] p = ok p
feed env ([] ∷ pieces) p = feed env pieces p
feed env ((c ∷ cs) ∷ pieces) p =
    iks_parse env p (some (c ∷ cs)) (length (c ∷ cs)) >>= λ q. feed env pieces q

-- the error code and the parser
abbrev pub parsed : Outcome (Run DomData) Dom → Option (ℕ × Dom)
parsed (ok p) = some (iks_ok, p)
parsed (err e p) = some (e, p)
parsed _ = none

module _ {W : Type 0} where
  abbrev pub left_by : Load W → Option (ℕ × Dom)
  left_by (loaded e p w) = some (e, p)
  left_by _ = none

  -- Reading the file gives pieces that fill the buffer, and then a last one that does not, behind
  -- which the file is at its end.
  pub data Gives (fs : Files W) (f : ℕ) : W → List Bytes → Type 0 where
    last :
        (w after : W) (b : Bytes)
        → fs.read f file_io_buf_size w ≡ (b, after)
        → ltb (length b) file_io_buf_size ≡ true
        → fs.at_end f after ≡ true
        → Gives fs f w (b ∷ [])
    more :
        (w after : W) (b : Bytes) (pieces : List Bytes)
        → fs.read f file_io_buf_size w ≡ (b, after)
        → ltb (length b) file_io_buf_size ≡ false
        → Gives fs f after pieces
        → Gives fs f w (b ∷ pieces)

  if_parsed_lem :
      (r : Outcome (Run DomData) Dom) (w : W) (next : Dom → Load W)
      (rest : Dom → Outcome (Run DomData) Dom)
      → ((p : Dom) → left_by (next p) ≡ parsed (rest p))
      → left_by (if_parsed r w next) ≡ parsed (r >>= rest)
  if_parsed_lem (ok p) w next rest same = same p
  if_parsed_lem (err e p) w next rest same = refl
  if_parsed_lem fault w next rest same = refl
  if_parsed_lem out_of_fuel w next rest same = refl

  module _ (fs : Files W) (env : Env (Run DomData)) (f : ℕ) where
    last_piece :
        (b : Bytes) (p : Dom) (w : W) (next : Dom → Load W)
        → ltb (length b) file_io_buf_size ≡ true
        → fs.at_end f w ≡ true
        → left_by (load_piece fs env f p b w next) ≡ parsed (feed env (b ∷ []) p)
    unfolding load_piece
    last_piece [] p w next short ends = rw (load_piece, ends)
    last_piece (c ∷ cs) p w next short ends =
        rw (load_piece, short, ends)
          (if_parsed_lem (iks_parse env p (some (c ∷ cs)) (length (c ∷ cs))) w
            (λ q. loaded iks_ok q w) ok λ q. refl)

    full_piece :
        (b : Bytes) (pieces : List Bytes) (p : Dom) (w : W) (next : Dom → Load W)
        → ltb (length b) file_io_buf_size ≡ false
        → ((q : Dom) → left_by (next q) ≡ parsed (feed env pieces q))
        → left_by (load_piece fs env f p b w next) ≡ parsed (feed env (b ∷ pieces) p)
    unfolding load_piece
    full_piece [] pieces p w next full same = cc full
    full_piece (c ∷ cs) pieces p w next full same =
        rw (load_piece, full)
          (if_parsed_lem (iks_parse env p (some (c ∷ cs)) (length (c ∷ cs))) w next
            (feed env pieces) same)

    -- On a file that gives these pieces, with fuel for a round for each, the loop of `iks_load` ends as feeding the
    -- pieces to the parser does.
    pub load_loop-feed :
        (rounds : ℕ) (pieces : List Bytes) (w : W) (p : Dom)
        → length pieces ≤ rounds
        → Gives fs f w pieces
        → left_by (load_loop fs env rounds f p w) ≡ parsed (feed env pieces p)
    unfolding load_loop
    load_loop-feed zero _ _ p le (last w after b read short ends) = absurd (omega arith)
    load_loop-feed zero _ _ p le (more w after b pieces read full g) = absurd (omega arith)
    load_loop-feed (suc rounds) _ _ p le (last w after b read short ends) =
        rw (load_loop, read) (last_piece b p after _ short ends)
    load_loop-feed (suc rounds) _ _ p le (more w after b pieces read full g) =
        rw (load_loop, read)
          (full_piece b pieces p after (λ q. load_loop fs env rounds f q after) full
            λ q. load_loop-feed rounds pieces after q (omega arith) g)
