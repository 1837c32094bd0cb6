-- ===== src/Tests/File.antt =====
-- Trees that are loaded from a file and saved to one.
use iksemel.Base.{
  suc, ◌≡◌, refl, ℕ, arith, true, false, Bool, Option, none, some, List, [], ◌∷◌, ◌++◌, Bytes,
  codes,
}
use iksemel.Iks.Heap.{Run, ok, pure, ◌>>=◌}
use iksemel.Iks.Write.{iks_string}
use iksemel.Utility.Escape.{escape_bytes, escape_byte}
use iksemel.Sax.Types.{sax_new, Parser}
use iksemel.Dom.{DomData, no_data, dom_env}
use iksemel.Dom.File.{
  opened, Files, load_piece, last_of, load_loop, load_result, iks_load, save_text, iks_save,
}
use iksemel.Dom.File.Pieces.{last, left_by, feed, parsed, load_loop-feed}
use iksemel.Dom.File.Saved.{Saved}
use iksemel.Tests.Dom.{empty_heap, running, parsing, result, built}

-- one file, in pieces
abbrev World : Type 0
World = List Bytes

abbrev first_of : World → Bytes × World
first_of [] = ([], [])
first_of (b ∷ bs) = (b, bs)

abbrev is_empty : World → Bool
is_empty [] = true
is_empty (b ∷ bs) = false

abbrev disk : Files World
disk = record {
  open_read = λ fname w. (opened 3, w);
  open_write = λ fname w. (opened 3, []);
  read = λ f room w. first_of w;
  at_end = λ f w. is_empty w;
  puts = λ f text w. (true, w ++ text ∷ []);
  close = λ f w. w;
}

abbrev page : Bytes
page = codes "<a><b/></a>"

abbrev parser : Parser (Run DomData)
parser = sax_new (ok no_data empty_heap)

load_loop-feed_example :
    left_by (load_loop disk (dom_env 9 (λ n. true)) 1 3 parser (page ∷ []))
    ≡ parsed (feed (dom_env 9 (λ n. true)) (page ∷ []) parser)
load_loop-feed_example =
    load_loop-feed disk (dom_env 9 (λ n. true)) 3 1 (page ∷ []) (page ∷ []) parser (omega arith)
      (last (page ∷ []) [] page refl refl refl)

abbrev all_of : World → Bytes
all_of [] = []
all_of (b ∷ bs) = b ++ all_of bs

saved :
    iks_save disk 20 (codes "f") (some 1) [] built
    ≡ ok (0, codes "<a b='1'>x&amp;y<c/></a>" ∷ []) (record built { fresh = suc built.fresh })
unfolding running iks_save save_text escape_bytes escape_byte
saved = refl

load_text :
    result {A = ℕ × Option Bytes} (
      (do
        r ← iks_load disk 50 3 (λ n. true) 200 (codes "f") (page ∷ [])
        t ← iks_string 50 none r.1
        pure (r.0, t))
        empty_heap)
    ≡ some (0, some page)
unfolding running parsing iks_load load_loop load_piece last_of load_result
load_text = refl
