-- ===== src/Sax/Types.antt =====
-- The data of src/sax.c: the contexts, the tag types, the parser and the hooks it calls.
use iksemel.Base.{ℕ, ◌%◌, ◌^◌, ◌+◌, Bool, Option, none, List, [], Bytes}

-- `enum cons_e`
pub data Context : Type 0 where
  c_cdata c_tag_start c_tag c_tag_end : Context
  c_attribute c_attribute_1 c_attribute_2 : Context
  c_value c_value_apos c_value_quot c_whitespace c_entity : Context
  c_comment c_comment_1 c_comment_2 c_comment_3 c_markup c_markup_1 : Context
  c_sect c_sect_cdata c_sect_cdata_1 c_sect_cdata_2 c_sect_cdata_3 c_sect_cdata_4 : Context
  c_sect_cdata_c c_sect_cdata_e c_sect_cdata_e2 c_pi : Context

-- `enum ikstagtype`
pub data TagType : Type 0 where
  iks_open iks_close iks_single : TagType

-- `enum ikserror`; a hook may return any other number for an error of its own.
abbrev pub iks_ok : ℕ
iks_ok = 0

abbrev pub iks_nomem : ℕ
iks_nomem = 1

abbrev pub iks_badxml : ℕ
iks_badxml = 2

abbrev pub iks_hook : ℕ
iks_hook = 3

-- What the parser is given: the allocator (does a request of this size succeed?) and the hooks,
-- `none` for NULL. A hook takes the user data and returns it changed, with its error code.
-- `tag_hook` gets the name, the attribute array as the strings in front of its NULL (`none`
-- where the array pointer is NULL), and the tag type.
pub record Env (U : Type 0) : Type 0 where
  pub malloc : ℕ → Bool
  pub tag_hook : Option (U → Bytes → Option (List Bytes) → TagType → ℕ × U)
  pub cdata_hook : Option (U → Bytes → ℕ × U)
  pub delete_hook : Option (U → U)

-- `struct iksparser_struct` without the hooks. Pointers into the token stack are offsets from
-- its start, so a move of the stack leaves them as they are.
-- `stack` holds the bytes below `stack_pos`, and `stack_max` is 0 while the stack is NULL.
-- `atts` is the whole array, `[]` while it is NULL. `entity` holds the bytes below `entpos`.
pub record Parser (U : Type 0) : Type 0 where
  pub user_data : U
  pub stack : Bytes
  pub stack_max : ℕ
  pub context : Context
  pub oldcontext : Context
  pub tag_name : Option ℕ
  pub tagtype : TagType
  pub attmax : ℕ
  pub attcur : ℕ
  pub attflag : ℕ
  pub atts : List (Option ℕ)
  pub valflag : ℕ
  pub entity : Bytes
  pub nr_bytes : ℕ
  pub nr_lines : ℕ
  pub uni_max : ℕ
  pub uni_len : ℕ
  pub uni_char : ℕ

-- `iks_sax_new`: the memory is cleared, and the user data set.
abbrev pub sax_new : {U : Type 0} → U → Parser U
sax_new u = record {
  user_data = u;
  stack = [];
  stack_max = 0;
  context = c_cdata;
  oldcontext = c_cdata;
  tag_name = none;
  tagtype = iks_open;
  attmax = 0;
  attcur = 0;
  attflag = 0;
  atts = [];
  valflag = 0;
  entity = [];
  nr_bytes = 0;
  nr_lines = 0;
  uni_max = 0;
  uni_len = 0;
  uni_char = 0;
}

-- The local variables of `sax_core` that outlive a round of its loop; -1 is `none`.
pub record Locals : Type 0 where
  pub old : ℕ
  pub stack_old : Option ℕ

-- How a piece of `sax_core` ends: it goes on, it returns an error code with the parser as it
-- stands, it touches memory out of bounds, or the loop has used up its fuel.
pub data Outcome (U : Type 0) (A : Type 0) : Type 0 where
  ok : A → Outcome U A
  err : ℕ → Parser U → Outcome U A
  fault : Outcome U A
  out_of_fuel : Outcome U A

infixl 5 ◌>>=◌
abbrev pub ◌>>=◌ : {U A B : Type 0} → Outcome U A → (A → Outcome U B) → Outcome U B
ok a >>= f = f a
err e p >>= f = err e p
fault >>= f = fault
out_of_fuel >>= f = out_of_fuel

-- `n++` and `n += k` on an `unsigned long` of 64 bits, and on an `unsigned int` of 32.
abbrev pub add64 : ℕ → ℕ → ℕ
add64 a b = (a + b) % 2 ^ 64

abbrev pub add32 : ℕ → ℕ → ℕ
add32 a b = (a + b) % 2 ^ 32
