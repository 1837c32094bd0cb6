-- ===== src/Tests/Ikstack.antt =====
-- A string copied behind another one.
use iksemel.Base.{
  ℕ, inl, inr, NoNul, c_string, strlen, ◌+◌, ◌≡◌, refl, List, arith, Bool, true, Option, none, some,
  [], ◌∷◌, ◌++◌, codes,
}
use iksemel.Ikstack.{
  Chunk, Ikstack, new_chunk, placed, stack_strdup, stack_alloc, stack_strcat, append_in, stack_stat,
  find_space, append_chunk, stack_delete, free_chunks, iks_stack_strcat, Freed, data_chunk,
  whole_stack,
}
use iksemel.Ikstack.Strdup.{Copied, stack_strdup-Copied}
use iksemel.Ikstack.Strcat.{Joined, stack_strcat-Joined}

abbrev granted : ℕ → Bool
granted n = true

abbrev chunk : Chunk
chunk = placed (new_chunk 64) (codes "iks" ++ 0 ∷ [])

abbrev one_string : Ikstack
one_string = record { allocated = 232; meta_chunks = new_chunk 64 ∷ []; data_chunks = chunk ∷ [] }

abbrev stat_of : Option (Ikstack × ℕ × ℕ) → ℕ × ℕ
stat_of none = (0, 0)
stat_of (some (s, i, off)) = stack_stat s

-- A piece that does not fit makes a chunk of twice the size.
grown : stat_of (stack_alloc granted one_string 65) ≡ (232 + 40 + 128, 76)
unfolding stack_alloc stack_stat find_space append_chunk
grown = refl

stack_strdup-Copied_example :
    Copied granted
      (chunk ∷ [])
      (codes "xml")
      (stack_strdup granted one_string (some (codes "xml" ++ codes "ns")) 3)
stack_strdup-Copied_example =
    stack_strdup-Copied granted one_string chunk [] (codes "xml") (codes "ns") refl
      ((omega arith, refl), tt) (omega arith, (omega arith, (omega arith, tt))) (omega arith)

abbrev place_of : Option (Ikstack × ℕ × ℕ) → ℕ × ℕ
place_of none = (9, 9)
place_of (some (s, i, off)) = (i, off)

-- The last string of a chunk grows where it stands.
in_place :
    place_of (stack_strcat granted one_string (codes "iks") (0, 0) 3 (codes "emel") 4) ≡ (0, 0)
unfolding stack_strcat append_in
in_place = refl

emel_nul : NoNul (codes "emel")
emel_nul = (omega arith, (omega arith, (omega arith, (omega arith, tt))))

stack_strcat-Joined_example :
    Joined
      (codes "iks")
      (codes "emel")
      emel_nul
      0
      granted
      (chunk ∷ [])
      0
      (stack_strcat granted one_string (codes "iks") (0, 0) 3 (codes "emel") 0)
unfolding c_string
stack_strcat-Joined_example =
    stack_strcat-Joined granted one_string chunk [] (codes "iks") (codes "emel") 0 0 3 0 emel_nul
      refl ((omega arith, refl), tt) (chunk, refl, omega arith, refl) (inr refl) (inl refl)

-- the first chunks are freed with the stack
freed_chunks :
    stack_delete
      (λ f (l : List Freed). f ∷ l)
      (record one_string { data_chunks = chunk ∷ chunk ∷ chunk ∷ [] })
      []
    ≡ whole_stack ∷ data_chunk 2 ∷ data_chunk 1 ∷ []
unfolding stack_delete free_chunks
freed_chunks = refl

-- A string that is not the last of its chunk moves behind it.
moved_behind :
    place_of (
      iks_stack_strcat granted
        (record one_string { data_chunks = placed chunk (codes "a" ++ 0 ∷ []) ∷ [] })
        (some (codes "iks", 0, 0))
        0
        (codes "emel")
        0)
    ≡ (0, 6)
unfolding iks_stack_strcat stack_strcat append_in find_space strlen
moved_behind = refl
