-- ===== src/SessionState/Keys/Quote.antt =====
-- `urllib.parse.quote(value, safe="")` over code points, and that it can be read back.
pub mod Laws
use Prim.Native.String.{[], ◌∷◌}
use user_delegated_auth_serv.Base.{
  ℕ, ◌+◌, ◌/◌, ◌%◌, code, String, Bool, ◌||◌, ◌&&◌, List, [], ◌∷◌, ◌++◌, leb, ltb, nat_eq,
  if◌then◌else◌,
}

abbrev pub codes : String → List ℕ
codes [] = []
codes (c ∷ s) = code c ∷ codes s

-- Letters, digits and `_.-~` stand for themselves.
unfoldable pub is_unreserved : ℕ → Bool
is_unreserved c =
    (leb b'A' c && leb c b'Z')
    || (leb b'a' c && leb c b'z')
    || (leb b'0' c && leb c b'9')
    || nat_eq c b'_'
    || nat_eq c b'.'
    || nat_eq c b'-'
    || nat_eq c b'~'

-- An upper-case hexadecimal digit.
hex : ℕ → ℕ
hex d = if ltb d 10 then 48 + d else 55 + d

-- `%XX`
percent : ℕ → List ℕ
unfolding hex
percent byte = b'%' ∷ hex (byte / 16) ∷ hex (byte % 16) ∷ []

-- The UTF-8 bytes of a code point.
unfoldable pub utf8 : ℕ → List ℕ
utf8 c =
    if ltb c 0x80
    then c ∷ []
    else if ltb c 0x800
    then (0xc0 + c / 64) ∷ (0x80 + c % 64) ∷ []
    else if ltb c 0x10000
    then (0xe0 + c / 4096) ∷ (0x80 + c / 64 % 64) ∷ (0x80 + c % 64) ∷ []
    else (0xf0 + c / 262144) ∷ (0x80 + c / 4096 % 64) ∷ (0x80 + c / 64 % 64) ∷ (0x80 + c % 64) ∷ []

percents : List ℕ → List ℕ
unfolding percent
percents [] = []
percents (b ∷ bs) = percent b ++ percents bs

quote_char : ℕ → List ℕ
unfolding percents utf8 is_unreserved
quote_char c = if is_unreserved c then c ∷ [] else percents (utf8 c)

unfoldable pub quote : List ℕ → List ℕ
unfolding quote_char
quote [] = []
quote (c ∷ s) = quote_char c ++ quote s
