-- ===== src/Sax/Parse.antt =====
-- The entry points of src/sax.c around `sax_core`.
use iksemel.Base.{
  Bool, int_of_size, ℕ, ◌==◌, if◌then◌else◌, Option, none, some, [], Bytes, take, strlen,
}
use iksemel.Sax.Types.{sax_new, Env, Parser, Outcome, ok, iks_open, c_cdata}
use iksemel.Sax.Core.{sax_core}

-- `iks_parse`; the flag `finish` is not read.
unfoldable pub iks_parse : {U : Type 0} → Env U → Parser U → Option Bytes → ℕ → Outcome U (Parser U)
iks_parse env p none len = ok p
iks_parse env p (some area) len =
    sax_core env p (take (int_of_size (if len == 0 then strlen area else len)) area)

-- `iks_parser_reset`
unfoldable pub parser_reset : {U : Type 0} → Env U → Parser U → Parser U
parser_reset env p = record p {
  user_data = elim env.delete_hook [ none ↦ p.user_data | some hook ↦ hook p.user_data ];
  stack = [];
  context = c_cdata;
  oldcontext = c_cdata;
  tagtype = iks_open;
  attcur = 0;
  attflag = 0;
  valflag = 0;
  entity = [];
  nr_bytes = 0;
  nr_lines = 0;
  uni_max = 0;
  uni_len = 0;
  uni_char = 0;
}

-- `iks_parser_delete`: the user data that is left
unfoldable pub parser_delete : {U : Type 0} → Env U → Parser U → U
parser_delete env p = elim env.delete_hook [ none ↦ p.user_data | some hook ↦ hook p.user_data ]

-- `iks_sax_extend`, where `size` is `sizeof (iksparser)`
unfoldable pub sax_extend : {U : Type 0} → (ℕ → Bool) → ℕ → U → Option (Parser U)
sax_extend malloc size u = if malloc size then some (sax_new u) else none

unfoldable pub iks_user_data : {U : Type 0} → Parser U → U
iks_user_data p = p.user_data

unfoldable pub iks_nr_bytes : {U : Type 0} → Parser U → ℕ
iks_nr_bytes p = p.nr_bytes

unfoldable pub iks_nr_lines : {U : Type 0} → Parser U → ℕ
iks_nr_lines p = p.nr_lines
