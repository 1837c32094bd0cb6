-- ===== src/Dom/File.antt =====
-- `iks_load` and `iks_save` of src/dom.c, over files that are a parameter.
pub mod Pieces
pub mod Saved
use iksemel.Base.{
  ℕ, zero, suc, Bool, true, false, not, ◌==◌, ltb, if◌then◌else◌, Option, none, some, [], ◌∷◌,
  Bytes, length,
}
use iksemel.Sax.Types.{iks_ok, iks_nomem, Env, Parser}
use iksemel.Sax.Types
use iksemel.Sax.Parse.{iks_parse, parser_delete}
use iksemel.Iks.Heap.{Ptr, Run, fault, out_of_fuel, ok, Cmd, pure, ◌>>=◌, ◌>>◌, and_then, if_null}
use iksemel.Iks.Write.{iks_string}
use iksemel.Dom.{DomData, iks_dom_new, dom_env}

-- `enum iksfileerror`
abbrev pub iks_file_nofile : ℕ
iks_file_nofile = 4

abbrev pub iks_file_noaccess : ℕ
iks_file_noaccess = 5

abbrev pub iks_file_rwerr : ℕ
iks_file_rwerr = 6

abbrev pub file_io_buf_size : ℕ
file_io_buf_size = 4096

-- how `fopen` ends: a handle, ENOENT, or another error
pub data Opened : Type 0 where
  opened : ℕ → Opened
  no_file other_error : Opened

-- The functions of <stdio.h>, on a world: `fopen` for reading and for writing, `fread` of at most so
-- many bytes, `feof`, `fputs`, which may fail, and `fclose`.
pub record Files (W : Type 0) : Type 0 where
  pub open_read : Bytes → W → Opened × W
  pub open_write : Bytes → W → Opened × W
  pub read : ℕ → ℕ → W → Bytes × W
  pub at_end : ℕ → W → Bool
  pub puts : ℕ → Bytes → W → Bool × W
  pub close : ℕ → W → W

-- how the loop of `iks_load` ends: the error code with the parser as it stands
pub data Load (W : Type 0) : Type 0 where
  loaded : ℕ → Parser (Run DomData) → W → Load W
  crashed unfinished : Load W

-- a call of `iks_parse` in the loop: another error code ends it
abbrev pub if_parsed :
    {W : Type 0}
    → Types.Outcome (Run DomData) (Parser (Run DomData))
    → W
    → (Parser (Run DomData) → Load W)
    → Load W
if_parsed (Types.ok p) w next = next p
if_parsed (Types.err e p) w next = loaded e p w
if_parsed Types.fault w next = crashed
if_parsed Types.out_of_fuel w next = unfinished

module _ {W : Type 0} (fs : Files W) where
  -- the last piece, if there is one
  unfoldable pub last_of : Env (Run DomData) → Parser (Run DomData) → W → Bytes → Load W
  unfolding iks_parse
  last_of env p w [] = loaded iks_ok p w
  last_of env p w (c ∷ cs) =
      if_parsed (iks_parse env p (some (c ∷ cs)) (length (c ∷ cs))) w λ q. loaded iks_ok q w

  -- a round of the loop behind `fread`; a piece that does not fill the buffer is the last one
  unfoldable pub load_piece :
      Env (Run DomData)
      → ℕ
      → Parser (Run DomData)
      → Bytes
      → W
      → (Parser (Run DomData) → Load W)
      → Load W
  unfolding last_of iks_parse
  load_piece env f p buf w next =
      if ltb (length buf) file_io_buf_size
      then (if fs.at_end f w then last_of env p w buf else loaded iks_file_rwerr p w)
      else if_parsed (iks_parse env p (some buf) (length buf)) w next

  -- the loop, with fuel for its rounds
  unfoldable pub load_loop : Env (Run DomData) → ℕ → ℕ → Parser (Run DomData) → W → Load W
  unfolding load_piece
  load_loop env zero f p w = unfinished
  load_loop env (suc rounds) f p w =
      let (buf, after) = fs.read f file_io_buf_size w in
      load_piece env f p buf after λ q. load_loop env rounds f q after

  -- the file is closed and the parser deleted: the error code, the tree and the world
  unfoldable pub load_result : Env (Run DomData) → ℕ → Load W → Run (ℕ × Ptr × W)
  unfolding parser_delete
  load_result env f (loaded e p w) =
      and_then (parser_delete env p) λ d. pure (e, d.tree, fs.close f w)
  load_result env f crashed = fault
  load_result env f unfinished = out_of_fuel

  -- the file could not be opened
  unfoldable pub not_opened : Env (Run DomData) → ℕ → Parser (Run DomData) → W → Run (ℕ × Ptr × W)
  unfolding parser_delete
  not_opened env e p w = and_then (parser_delete env p) λ d. pure (e, d.tree, w)

  -- `iks_load`, where `size` is `sizeof (iksparser)`
  unfoldable pub iks_load : ℕ → ℕ → (ℕ → Bool) → ℕ → Bytes → W → Cmd (ℕ × Ptr × W)
  unfolding iks_dom_new dom_env load_loop load_result not_opened
  iks_load fuel rounds malloc size fname w =
      if malloc file_io_buf_size
      then (do
        prs ← iks_dom_new malloc size
        if_null prs (pure (iks_nomem, none, w)) λ p h.
            let env = dom_env fuel malloc in
            let (file, after) = fs.open_read fname w in
            elim file [
              | opened f ↦ load_result env f (load_loop env rounds f p after)
              | no_file ↦ not_opened env iks_file_nofile p after
              | other_error ↦ not_opened env iks_file_noaccess p after
            ])
      else pure (iks_nomem, none, w)

  -- the text goes to the file
  unfoldable pub save_text : Bytes → Bytes → W → ℕ × W
  save_text fname text w =
      let (file, after) = fs.open_write fname w in
      elim file [
        | opened f ↦
            let (fine, later) = fs.puts f text after in
            (if fine then iks_ok else iks_file_rwerr, fs.close f later)
        | no_file ↦ (iks_file_noaccess, after)
        | other_error ↦ (iks_file_noaccess, after)
      ]

  unfoldable pub iks_save : ℕ → Bytes → Ptr → W → Cmd (ℕ × W)
  unfolding iks_string save_text
  iks_save fuel fname x w = do
    text ← iks_string fuel none x
    if_null text (pure (iks_nomem, w)) λ t. pure (save_text fname t w)
