-- ===== src/SessionState/Keys/Quote/Laws.antt =====
-- `quote` is injective and its result has no colon.
use Prim.Native.Char.{char}
use Prim.Native.String.{[], ◌∷◌}
use mathlib.Core.Path.{ap₂}
use text.Mathlib.TextEquality.{Char-path}
use user_delegated_auth_serv.Base.{
  ℕ, ◌+◌, ◌/◌, ◌%◌, ◌<◌, Char, code, String, ◌≡◌, ◌≢◌, refl, sym, true, List, [], ◌∷◌, ◌++◌, arith,
  ltb, All, length, Bool-cases, inl, inr, if◌then◌else◌,
}
use user_delegated_auth_serv.SessionState.Keys.Quote.{
  codes, hex, percent, utf8, percents, quote_char, quote, is_unreserved,
}

code-lt : (c : Char) → code c < 1114112
code-lt (char n p) = ground arith

hex_inj : (a b : ℕ) → a < 16 → b < 16 → hex a ≡ hex b → a ≡ b
unfolding hex
hex_inj a b p q h = ground arith

hex-ne-colon : (d : ℕ) → d < 16 → hex d ≢ 58
unfolding hex
hex-ne-colon d h = ground arith

abbrev IsByte : ℕ → Type 0
IsByte b = b < 256

percents_inj :
    (xs ys s t : List ℕ)
    → All IsByte xs
    → All IsByte ys
    → length xs ≡ length ys
    → percents xs ++ s ≡ percents ys ++ t
    → (xs ≡ ys) × (s ≡ t)
unfolding percents percent
percents_inj [] [] s t hx hy l e = (refl, e)
percents_inj [] (y ∷ ys) s t hx hy l e = absurd (omega arith)
percents_inj (x ∷ xs) [] s t hx hy l e = absurd (omega arith)
percents_inj (x ∷ xs) (y ∷ ys) s t hx hy l e =
    ground (
      arith,
      hex_inj (x / 16) (y / 16),
      hex_inj (x % 16) (y % 16),
      percents_inj xs ys s t hx.1 hy.1,
    )

lead : ℕ → ℕ
lead c =
    if ltb c 0x80
    then c
    else if ltb c 0x800
    then 0xc0 + c / 64
    else if ltb c 0x10000
    then 0xe0 + c / 4096
    else 0xf0 + c / 262144

width : ℕ → ℕ
width c = if ltb c 0x80 then 1 else if ltb c 0x800 then 2 else if ltb c 0x10000 then 3 else 4

width_of_lead : (c d : ℕ) → c < 1114112 → d < 1114112 → lead c ≡ lead d → width c ≡ width d
unfolding lead width
width_of_lead c d p q h = ground arith

length-utf8 : (c : ℕ) → length (utf8 c) ≡ width c
unfolding utf8 width
length-utf8 c = ground arith

utf8-IsByte : (c : ℕ) → c < 1114112 → All IsByte (utf8 c)
unfolding utf8
utf8-IsByte c h = ground arith

utf8_inj : (c d : ℕ) → utf8 c ≡ utf8 d → c ≡ d
unfolding utf8
utf8_inj c d h = ground arith

trail : ℕ → List ℕ
trail c =
    if ltb c 0x80
    then []
    else if ltb c 0x800
    then (0x80 + c % 64) ∷ []
    else if ltb c 0x10000
    then (0x80 + c / 64 % 64) ∷ (0x80 + c % 64) ∷ []
    else (0x80 + c / 4096 % 64) ∷ (0x80 + c / 64 % 64) ∷ (0x80 + c % 64) ∷ []

utf8_lem : (c : ℕ) → utf8 c ≡ lead c ∷ trail c
unfolding utf8 lead trail
utf8_lem c = ground arith

lead-lt : (c : ℕ) → c < 1114112 → lead c < 256
unfolding lead
lead-lt c h = ground arith

-- The first byte is read back from its two digits, whatever follows.
first_byte :
    (a b : ℕ) (xs ys s t : List ℕ)
    → a < 256
    → b < 256
    → percents (a ∷ xs) ++ s ≡ percents (b ∷ ys) ++ t
    → a ≡ b
unfolding percents percent
first_byte a b xs ys s t p q e =
    ground (arith, hex_inj (a / 16) (b / 16), hex_inj (a % 16) (b % 16))

percents-utf8_inj :
    (c d : ℕ) (s t : List ℕ)
    → c < 1114112
    → d < 1114112
    → percents (utf8 c) ++ s ≡ percents (utf8 d) ++ t
    → (c ≡ d) × (s ≡ t)
percents-utf8_inj c d s t p q e =
    let same : lead c ≡ lead d =
      first_byte (lead c) (lead d) (trail c) (trail d) s t (lead-lt c p) (lead-lt d q)
        (rw (← utf8_lem c, ← utf8_lem d) e) in
    let widths : length (utf8 c) ≡ length (utf8 d) =
      cc (length-utf8 c, length-utf8 d, width_of_lead c d p q same) in
    let both = percents_inj (utf8 c) (utf8 d) s t (utf8-IsByte c p) (utf8-IsByte d q) widths e in
    (utf8_inj c d both.0, both.1)

is_unreserved-ne : (c : ℕ) → is_unreserved c ≡ true → (c ≢ 37) × (c ≢ 58)
unfolding is_unreserved
is_unreserved-ne c h = ground arith

-- What a reserved character becomes begins with a percent sign.
percents-head : (a c : ℕ) (xs s t : List ℕ) → c ≢ 37 → percents (a ∷ xs) ++ s ≢ c ∷ t
unfolding percents percent
percents-head a c xs s t h e = ground arith

percents-utf8-ne :
    (d c : ℕ) (s t : List ℕ) → is_unreserved c ≡ true → percents (utf8 d) ++ s ≢ c ∷ t
percents-utf8-ne d c s t h e =
    percents-head (lead d) c (trail d) s t (is_unreserved-ne c h).0 (rw (← utf8_lem d) e)

quote_char_inj :
    (c d : ℕ) (s t : List ℕ)
    → c < 1114112
    → d < 1114112
    → quote_char c ++ s ≡ quote_char d ++ t
    → (c ≡ d) × (s ≡ t)
unfolding quote_char
quote_char_inj c d s t p q e = elim (Bool-cases (is_unreserved c)) [
  | inl uc ↦ elim (Bool-cases (is_unreserved d)) [
    | inl ud ↦ ground (arith, rw (uc, ud) at e)
    | inr ud ↦ absurd (percents-utf8-ne d c t s uc (sym (rw (uc, ud) at e)))
  ]
  | inr uc ↦ elim (Bool-cases (is_unreserved d)) [
    | inl ud ↦ absurd (percents-utf8-ne c d s t ud (rw (uc, ud) at e))
    | inr ud ↦ percents-utf8_inj c d s t p q (rw (uc, ud) at e)
  ]
]

percents-ne-nil : (a : ℕ) (xs s : List ℕ) → percents (a ∷ xs) ++ s ≢ []
unfolding percents percent
percents-ne-nil a xs s e = cc

percents-utf8-ne-nil : (c : ℕ) (s : List ℕ) → percents (utf8 c) ++ s ≢ []
percents-utf8-ne-nil c s e = percents-ne-nil (lead c) (trail c) s (rw (← utf8_lem c) e)

quote_char-ne-nil : (c : ℕ) (s : List ℕ) → quote_char c ++ s ≢ []
unfolding quote_char
quote_char-ne-nil c s e = elim (Bool-cases (is_unreserved c)) [
  | inl u ↦ cc (rw u at e)
  | inr u ↦ percents-utf8-ne-nil c s (rw u at e)
]

-- Different texts have different quotations.
pub quote_inj : (a b : String) → quote (codes a) ≡ quote (codes b) → a ≡ b
unfolding quote
quote_inj [] [] e = refl
quote_inj [] (d ∷ b) e = absurd (quote_char-ne-nil (code d) (quote (codes b)) (sym e))
quote_inj (c ∷ a) [] e = absurd (quote_char-ne-nil (code c) (quote (codes a)) e)
quote_inj (c ∷ a) (d ∷ b) e =
    let both =
      quote_char_inj (code c) (code d) (quote (codes a)) (quote (codes b)) (code-lt c) (code-lt d)
        e in
    ap₂ ◌∷◌ (Char-path c d both.0) (quote_inj a b both.1)

abbrev pub NoColon : List ℕ → Type 0
NoColon xs = All (λ x. x ≢ 58) xs

pub NoColon-append : (xs ys : List ℕ) → NoColon xs → NoColon ys → NoColon (xs ++ ys)
NoColon-append [] ys h k = k
NoColon-append (x ∷ xs) ys (h, hs) k = (h, NoColon-append xs ys hs k)

percents-NoColon : (bs : List ℕ) → All IsByte bs → NoColon (percents bs)
unfolding percents percent
percents-NoColon [] h = tt
percents-NoColon (b ∷ bs) (h, hs) = (
  omega arith,
  (
    hex-ne-colon (b / 16) (omega arith),
    (hex-ne-colon (b % 16) (omega arith), percents-NoColon bs hs),
  ),
)

quote_char-NoColon : (c : ℕ) → c < 1114112 → NoColon (quote_char c)
unfolding quote_char
quote_char-NoColon c h = elim (Bool-cases (is_unreserved c)) [
  | inl u ↦ rw u ((is_unreserved-ne c u).1, tt)
  | inr u ↦ rw u (percents-NoColon (utf8 c) (utf8-IsByte c h))
]

pub quote-NoColon : (s : String) → NoColon (quote (codes s))
unfolding quote
quote-NoColon [] = tt
quote-NoColon (c ∷ s) =
    NoColon-append (quote_char (code c)) (quote (codes s)) (quote_char-NoColon (code c) (code-lt c))
      (quote-NoColon s)
