-- ===== src/AgUiGateway/Ascii.antt =====
-- Case and kind of ASCII characters, and the spelling of a key as the gateway compares it.
use Prim.Native.String.{[], ◌∷◌}
use user_delegated_auth_serv.Base.{
  ℕ, zero, suc, ◌-◌, Char, code, String, ◌≡◌, refl, Bool, true, ◌&&◌, ◌||◌, leb, ltb, mem, arith,
  if◌then◌else◌,
}
use user_delegated_auth_serv.AgUiGateway.Models.{Python}
use user_delegated_auth_serv.AgUiGateway.Sse.{
  keep_chars, normalized_private_key, is_private, browser_private_keys,
}

unfoldable pub is_ascii : String → Bool
is_ascii [] = true
is_ascii (c ∷ s) = ltb (code c) 128 && is_ascii s

-- The character at a place, or U+0000.
nth : ℕ → String → Char
nth i [] = Prim.Native.Char.nul
nth zero (c ∷ s) = c
nth (suc i) (c ∷ s) = nth i s

lower_char : Char → Char
unfolding nth
lower_char c =
    if leb b'A' (code c) && leb (code c) b'Z'
    then nth (code c - 65) "abcdefghijklmnopqrstuvwxyz"
    else c

unfoldable pub ascii_lower : String → String
unfolding lower_char
ascii_lower [] = []
ascii_lower (c ∷ s) = lower_char c ∷ ascii_lower s

unfoldable pub ascii_alnum : Char → Bool
ascii_alnum c =
    (leb b'A' (code c) && leb (code c) b'Z')
    || (leb b'a' (code c) && leb (code c) b'z')
    || (leb b'0' (code c) && leb (code c) b'9')

-- `str.lower` and `str.isalnum` on ASCII.
pub record IsAsciiCase (python : Python) : Type 0 where
  pub lower_of_ascii : (s : String) → is_ascii s ≡ true → python.lower s ≡ ascii_lower s
  pub is_alnum_of_ascii : (c : Char) → ltb (code c) 128 ≡ true → python.is_alnum c ≡ ascii_alnum c

-- The letters and digits of a key, in lower case.
abbrev pub spelling : String → String
spelling key = keep_chars ascii_alnum (ascii_lower key)

nth-is_ascii : (i : ℕ) (s : String) → is_ascii s ≡ true → ltb (code (nth i s)) 128 ≡ true
unfolding nth is_ascii
nth-is_ascii i [] h = refl
nth-is_ascii zero (c ∷ s) h = ground arith
nth-is_ascii (suc i) (c ∷ s) h = nth-is_ascii i s (ground arith)

lower_char-is_ascii : (c : Char) → ltb (code c) 128 ≡ true → ltb (code (lower_char c)) 128 ≡ true
unfolding lower_char is_ascii
lower_char-is_ascii c h =
    ground (arith, nth-is_ascii (code c - 65) "abcdefghijklmnopqrstuvwxyz" refl)

ascii_lower-is_ascii : (s : String) → is_ascii s ≡ true → is_ascii (ascii_lower s) ≡ true
unfolding is_ascii ascii_lower
ascii_lower-is_ascii [] h = refl
ascii_lower-is_ascii (c ∷ s) h = ground (arith, lower_char-is_ascii c, ascii_lower-is_ascii s)

module _ (python : Python) (case : IsAsciiCase python) where
  keep_chars_of_ascii :
      (s : String) → is_ascii s ≡ true → keep_chars python.is_alnum s ≡ keep_chars ascii_alnum s
  unfolding keep_chars is_ascii
  keep_chars_of_ascii [] h = refl
  keep_chars_of_ascii (c ∷ s) h =
      let ascii : ltb (code c) 128 ≡ true = ground arith in
      let rest : is_ascii s ≡ true = ground arith in
      rw (case.is_alnum_of_ascii c ascii, keep_chars_of_ascii s rest) refl

  -- An ASCII key is private exactly when it spells a private name.
  pub is_private_of_ascii :
      (key : String)
      → is_ascii key ≡ true
      → is_private python key ≡ mem (spelling key) browser_private_keys
  unfolding normalized_private_key
  is_private_of_ascii key h =
      rw (case.lower_of_ascii key h)
        (rw (keep_chars_of_ascii (ascii_lower key) (ascii_lower-is_ascii key h)) refl)
