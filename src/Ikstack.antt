-- ===== src/Ikstack.antt =====
-- src/ikstack.c where a `size_t` and a pointer have 64 bits: chunks of memory from which pieces are
-- taken, and strings copied into them. A pointer is the place of a chunk and an offset into it.
pub mod Area
pub mod Space
pub mod Strdup
pub mod Grown
pub mod Strcat
use iksemel.Base.{
  zero, suc, ◌&&◌, ℕ, ◌+◌, ◌-◌, ◌*◌, ◌%◌, Bool, true, false, ◌==◌, ltb, leb, if◌then◌else◌, Option,
  none, some, List, [], ◌∷◌, ◌++◌, Bytes, length, take, replicate, store, strlen,
}

-- `struct ikschunk_struct`; -1 is `none`, and `bytes` is the area behind the header.
pub record Chunk : Type 0 where
  pub size : ℕ
  pub used : ℕ
  pub last : Option ℕ
  pub bytes : Bytes

-- `struct ikstack_struct` with its two lists of chunks
pub record Ikstack : Type 0 where
  pub allocated : ℕ
  pub meta_chunks : List Chunk
  pub data_chunks : List Chunk

-- `sizeof (ikschunk)` and `sizeof (ikstack)`
abbrev pub chunk_header : ℕ
chunk_header = 40

abbrev pub stack_header : ℕ
stack_header = 24

-- `if (size & ALIGN_MASK) size = ALIGN (size);`
abbrev pub align : ℕ → ℕ
align size = if size % 8 == 0 then size else size + (8 - size % 8)

abbrev pub new_chunk : ℕ → Chunk
new_chunk size = record { size = size; used = 0; last = none; bytes = replicate size 0 }

-- the chunk that `find_space` returns, those around it, and what it has added to `allocated`
pub record Found : Type 0 where
  pub before : List Chunk
  pub here : Chunk
  pub after : List Chunk
  pub added : ℕ

-- the end of the list
unfoldable pub append_chunk : (ℕ → Bool) → Chunk → ℕ → Option Found
append_chunk malloc c size =
    let n = if ltb size (c.size * 2) then c.size * 2 else size in
    if malloc (chunk_header + n)
    then some (record { before = c ∷ []; here = new_chunk n; after = []; added = chunk_header + n })
    else none

abbrev pub behind_chunk : Chunk → Option Found → Option Found
behind_chunk c none = none
behind_chunk c (some f) = some (record f { before = c ∷ f.before })

-- `find_space`
unfoldable pub find_space : (ℕ → Bool) → List Chunk → ℕ → Option Found
find_space malloc [] size = none
find_space malloc (c ∷ []) size =
    if leb size (c.size - c.used)
    then some (record { before = []; here = c; after = []; added = 0 })
    else append_chunk malloc c size
find_space malloc (c ∷ d ∷ rest) size =
    let further = find_space malloc (d ∷ rest) size in
    if leb size (c.size - c.used)
    then some (record { before = []; here = c; after = d ∷ rest; added = 0 })
    else behind_chunk c further

-- `iks_stack_new`
unfoldable pub stack_new : (ℕ → Bool) → ℕ → ℕ → Option Ikstack
stack_new malloc meta_chunk data_chunk =
    let m = align (if ltb meta_chunk 64 then 64 else meta_chunk) in
    let d = align (if ltb data_chunk 64 then 64 else data_chunk) in
    let len = stack_header + m + d + chunk_header * 2 in
    if malloc len
    then some
        (record { allocated = len; meta_chunks = new_chunk m ∷ []; data_chunks = new_chunk d ∷ [] })
    else none

-- `iks_stack_alloc`: the stack, and where the memory is
unfoldable pub stack_alloc : (ℕ → Bool) → Ikstack → ℕ → Option (Ikstack × ℕ × ℕ)
stack_alloc malloc s size =
    elim (find_space malloc s.meta_chunks (align (if ltb size 8 then 8 else size))) [
      | none ↦ none
      | some f ↦
          let c = record f.here { used = f.here.used + align (if ltb size 8 then 8 else size) } in
          some (
            record s { allocated = s.allocated + f.added; meta_chunks = f.before ++ (c ∷ f.after) },
            length f.before,
            f.here.used,
          )
    ]

-- the string at the end of a chunk
abbrev pub placed : Chunk → Bytes → Chunk
placed c string = record c {
  last = some c.used;
  used = c.used + length string;
  bytes = store c.bytes c.used string;
}

-- `iks_stack_strdup`: the stack, and where the copy is
unfoldable pub stack_strdup : (ℕ → Bool) → Ikstack → Option Bytes → ℕ → Option (Ikstack × ℕ × ℕ)
stack_strdup malloc s none len = none
stack_strdup malloc s (some src) len =
    let n = if len == 0 then strlen src else len in
    let string = take n src ++ 0 ∷ [] in
    elim (find_space malloc s.data_chunks (n + 1)) [
      | none ↦ none
      | some f ↦ some (
        record s {
          allocated = s.allocated + f.added;
          data_chunks = f.before ++ (placed f.here string ∷ f.after);
        },
        length f.before,
        f.here.used,
      )
    ]

abbrev pub sum_used : List Chunk → ℕ
sum_used [] = 0
sum_used (c ∷ cs) = c.used + sum_used cs

-- `iks_stack_stat`
unfoldable pub stack_stat : Ikstack → ℕ × ℕ
stack_stat s = (s.allocated, sum_used s.meta_chunks + sum_used s.data_chunks)

-- the chunk whose last string stands at this place
abbrev pub ends_with : Chunk → ℕ → Bool
ends_with c off = elim c.last [ none ↦ false | some last ↦ last == off ]

-- `c->used += src_len`, with the string and its NUL behind the old one
abbrev pub appended : Chunk → ℕ → Bytes → Chunk
appended c at src = record c {
  used = c.used + length src;
  bytes = store c.bytes at (src ++ 0 ∷ []);
}

-- The chunk of this place, where the string at this offset is its last one and there is room: the
-- chunks with the string appended. `none` where it has to move.
unfoldable pub append_in : List Chunk → ℕ → ℕ → ℕ → Bytes → Option (List Chunk)
append_in [] i off at src = none
append_in (c ∷ cs) zero off at src =
    if ends_with c off && ltb (length src) (c.size - c.used)
    then some (appended c at src ∷ cs)
    else none
append_in (c ∷ cs) (suc i) off at src = elim (append_in cs i off at src) [
  | none ↦ none
  | some cs' ↦ some (c ∷ cs')
]

-- `iks_stack_strcat` behind its first test, on a string `old` of the stack, and its place; lengths that are 0 are those
-- of the strings.
unfoldable pub stack_strcat :
    (ℕ → Bool) → Ikstack → Bytes → ℕ × ℕ → ℕ → Bytes → ℕ → Option (Ikstack × ℕ × ℕ)
stack_strcat malloc s old (i, off) old_len src src_len =
    let n = if old_len == 0 then strlen old else old_len in
    let m = if src_len == 0 then strlen src else src_len in
    elim (append_in s.data_chunks i off (off + n) (take m src)) [
      | some cs ↦ some (record s { data_chunks = cs }, i, off)
      | none ↦ elim (find_space malloc s.data_chunks (n + m + 1)) [
        | none ↦ none
        | some f ↦ some (
          record s {
            allocated = s.allocated + f.added;
            data_chunks =
                f.before ++ (placed f.here (take n old ++ take m src ++ 0 ∷ []) ∷ f.after);
          },
          length f.before,
          f.here.used,
        )
      ]
    ]

-- `iks_stack_strcat`, where NULL is appended to by a copy
unfoldable pub iks_stack_strcat :
    (ℕ → Bool) → Ikstack → Option (Bytes × ℕ × ℕ) → ℕ → Bytes → ℕ → Option (Ikstack × ℕ × ℕ)
unfolding stack_strdup stack_strcat
iks_stack_strcat malloc s none old_len src src_len = stack_strdup malloc s (some src) src_len
iks_stack_strcat malloc s (some (old, i, off)) old_len src src_len =
    stack_strcat malloc s old (i, off) old_len src src_len

-- what `iks_stack_delete` frees: a chunk of a list, by its place, or the stack with its first chunks
pub data Freed : Type 0 where
  meta_chunk data_chunk : ℕ → Freed
  whole_stack : Freed

-- `while (c)`, from the chunk of this place on
unfoldable pub free_chunks : {W : Type 0} → (ℕ → W → W) → ℕ → List Chunk → W → W
free_chunks free i [] w = w
free_chunks free i (c ∷ cs) w = free_chunks free (suc i) cs (free i w)

abbrev pub behind_first : List Chunk → List Chunk
behind_first [] = []
behind_first (c ∷ cs) = cs

-- `iks_stack_delete`
unfoldable pub stack_delete : {W : Type 0} → (Freed → W → W) → Ikstack → W → W
unfolding free_chunks
stack_delete free s w =
    let w1 = free_chunks (λ i. free (meta_chunk i)) 1 (behind_first s.meta_chunks) w in
    let w2 = free_chunks (λ i. free (data_chunk i)) 1 (behind_first s.data_chunks) w1 in
    free whole_stack w2
