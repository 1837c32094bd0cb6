-- ===== src/Jabber/Features.antt =====
-- `iks_sasl_mechanisms` and `iks_stream_features` of src/jabber.c: what a server offers.
use iksemel.Base.{
  ℕ, zero, suc, bit_or, Bool, true, false, if◌then◌else◌, Option, none, some, Bytes, codes,
}
use iksemel.Utility.Strings.{less, same, greater, iks_strcmp}
use iksemel.Iks.Heap.{Ptr, Cmd, pure, starve, ◌>>=◌}
use iksemel.Iks.Move.{iks_child, iks_next_tag}
use iksemel.Iks.Info.{iks_name, text_of}

abbrev pub starttls : ℕ
starttls = 1

abbrev pub session : ℕ
session = 2

abbrev pub bind : ℕ
bind = 4

abbrev pub sasl_plain : ℕ
sasl_plain = 8

abbrev pub sasl_md5 : ℕ
sasl_md5 = 16

-- `!iks_strcmp (a, b)`
unfoldable pub is_text : Option Bytes → Bytes → Bool
unfolding iks_strcmp
is_text a b = elim (iks_strcmp a (some b)) [ same ↦ true | less ↦ false | greater ↦ false ]

-- the loop of `iks_sasl_mechanisms`, with what it has found so far
unfoldable pub sasl_mechanisms : ℕ → ℕ → Ptr → Cmd ℕ
unfolding iks_child text_of iks_next_tag is_text
sasl_mechanisms fuel mech none = pure mech
sasl_mechanisms zero mech (some x) = starve
sasl_mechanisms (suc fuel) mech (some x) = do
  child ← iks_child (some x)
  md5 ← text_of child
  found ←
      if is_text md5 (codes "DIGEST-MD5")
      then pure (bit_or mech sasl_md5)
      else pure (if is_text md5 (codes "PLAIN") then bit_or mech sasl_plain else mech)
  next ← iks_next_tag fuel (some x)
  sasl_mechanisms fuel found next

-- what an element of the features adds
unfoldable pub add_feature : ℕ → ℕ → Ptr → Option Bytes → Cmd ℕ
unfolding iks_child sasl_mechanisms is_text
add_feature fuel features x name =
    if is_text name (codes "starttls")
    then pure (bit_or features starttls)
    else if is_text name (codes "bind")
    then pure (bit_or features bind)
    else if is_text name (codes "session")
    then pure (bit_or features session)
    else if is_text name (codes "mechanisms")
    then (do child ← iks_child x; mech ← sasl_mechanisms fuel 0 child; pure (bit_or features mech))
    else pure features

unfoldable pub features_from : ℕ → ℕ → Ptr → Cmd ℕ
unfolding iks_name add_feature iks_next_tag
features_from fuel features none = pure features
features_from zero features (some x) = starve
features_from (suc fuel) features (some x) = do
  name ← iks_name (some x)
  more ← add_feature fuel features (some x) name
  next ← iks_next_tag fuel (some x)
  features_from fuel more next

unfoldable pub iks_stream_features : ℕ → Ptr → Cmd ℕ
unfolding iks_name iks_child features_from is_text
iks_stream_features fuel x = do
  name ← iks_name x
  if is_text name (codes "stream:features")
      then (do child ← iks_child x; features_from fuel 0 child)
      else pure 0
