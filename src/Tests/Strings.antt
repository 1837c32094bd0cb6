-- ===== src/Tests/Strings.antt =====
-- The NULL-safe string functions on small strings.
use iksemel.Base.{◌≡◌, refl, none, some, codes}
use iksemel.Utility.Strings.{less, same, strcmp, iks_strcmp, iks_strncasecmp}

equal_letters : iks_strncasecmp (some (codes "Jabber")) (some (codes "jABs")) 3 ≡ same
unfolding iks_strncasecmp strcmp
equal_letters = refl

no_string : iks_strcmp none (some (codes "a")) ≡ less
unfolding iks_strcmp
no_string = refl
