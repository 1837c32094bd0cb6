-- ===== src/Stream/Bounds.antt =====
-- The areas that src/stream.c asks for are as large as what it prints into them.
use iksemel.Base.{
  ℕ, ◌+◌, ◌≡◌, refl, ◌∙◌, Option, none, some, List, [], ◌∷◌, Bytes, Bool, true, false,
  length-concat, codes, length, leb, arith, if◌then◌else◌,
}
use iksemel.Md5.{Md5, md5_reset, md5_hash}
use iksemel.Md5.Digits.{length-md5_hash, length-digits}
use iksemel.Stream.Sasl.{colon, hash_all, response_value, response_text}
use iksemel.Iks.Heap.{Heap}
use iksemel.Stream.Types.{Conn, Act, ◌>>◌}
use iksemel.Stream.Send.{header_text, print_into}

length-hash_all :
    (parts : List (Option Bytes)) (m : Md5) → length (hash_all m parts).state ≡ length m.state
unfolding hash_all
length-hash_all [] m = refl
length-hash_all (none ∷ []) m = length-md5_hash m _ _ _
length-hash_all (some s ∷ []) m = length-md5_hash m _ _ _
length-hash_all (none ∷ b ∷ rest) m =
    length-hash_all (b ∷ rest) (md5_hash m [] 0 false) ∙ length-md5_hash m _ _ _
length-hash_all (some s ∷ b ∷ rest) m =
    length-hash_all (b ∷ rest) (md5_hash m s (length s) false) ∙ length-md5_hash m _ _ _

pub length-response_value :
    (username pass server realm : Option Bytes) (nonce cnonce : Bytes)
    → length (response_value username pass server realm nonce cnonce) ≡ 32
unfolding response_value
length-response_value username pass server realm nonce cnonce = length-digits _ (
    length-hash_all (some _ ∷ colon ∷ some nonce ∷ some _ ∷ some cnonce ∷ some _ ∷ some _ ∷ [])
      md5_reset)

pub length-header_text :
    (name_space to : Bytes)
    → length (header_text name_space to) ≡ 91 + (length name_space + (6 + (length to + 16)))
length-header_text name_space to = length-concat (
    codes
      "<?xml version='1.0'?><stream:stream xmlns:stream='http://etherx.jabber.org/streams' xmlns='"
    ∷ name_space
    ∷ codes "' to='"
    ∷ to
    ∷ codes "' version='1.0'>"
    ∷ [])

pub length-response_text :
    (username realm nonce cnonce server value : Bytes)
    → length (response_text username realm nonce cnonce server value)
      ≡ 10
        + (length username
            + (9
                + (length realm
                    + (9
                        + (length nonce
                            + (10
                                + (length cnonce
                                    + (40 + (length server + (11 + (length value + 14)))))))))))
length-response_text username realm nonce cnonce server value = length-concat (
    codes "username=\""
    ∷ username
    ∷ codes "\",realm=\""
    ∷ realm
    ∷ codes "\",nonce=\""
    ∷ nonce
    ∷ codes "\",cnonce=\""
    ∷ cnonce
    ∷ codes "\",nc=00000001,qop=auth,digest-uri=\"xmpp/"
    ∷ server
    ∷ codes "\",response="
    ∷ value
    ∷ codes ",charset=utf-8"
    ∷ [])

-- a text that is printed into an area of its own size
pub printed :
    {W A : Type 0} (malloc : ℕ → Bool) (n : ℕ) (text : Bytes) (act other : Act W A) (c : Conn W)
    (h : Heap)
    → n ≡ length text + 1
    → (if malloc n then print_into n text >> act else other) c h
      ≡ (if malloc (length text + 1) then act else other) c h
printed malloc n text act other c h e =
    let fits : leb (length text + 1) (length text + 1) ≡ true = ground arith in rw (e, fits)
