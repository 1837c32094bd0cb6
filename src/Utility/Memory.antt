-- ===== src/Utility/Memory.antt =====
-- The wrapper of the allocator in src/utility.c. A function of the client's or of the system's works
-- on a world; an address is a number, and `none` is NULL.
use iksemel.Base.{ℕ, Option, none, some}

-- the two variables of the wrapper, `none` for NULL
pub record MemFuncs (W : Type 0) : Type 0 where
  pub my_malloc_func : Option (ℕ → W → Option ℕ × W)
  pub my_free_func : Option (Option ℕ → W → W)

module _ {W : Type 0} where
  -- `malloc` is the system's
  unfoldable pub iks_malloc : (ℕ → W → Option ℕ × W) → MemFuncs W → ℕ → W → Option ℕ × W
  iks_malloc malloc m size w = elim m.my_malloc_func [
    | none ↦ malloc size w
    | some own ↦ own size w
  ]

  -- `free` is the system's
  unfoldable pub iks_free : (Option ℕ → W → W) → MemFuncs W → Option ℕ → W → W
  iks_free free m p w = elim m.my_free_func [ none ↦ free p w | some own ↦ own p w ]

  unfoldable pub iks_set_mem_funcs :
      Option (ℕ → W → Option ℕ × W) → Option (Option ℕ → W → W) → MemFuncs W → MemFuncs W
  iks_set_mem_funcs malloc_func free_func m = record {
    my_malloc_func = malloc_func;
    my_free_func = free_func;
  }
