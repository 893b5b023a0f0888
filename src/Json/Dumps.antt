-- ===== src/Json/Dumps.antt =====
-- `json.dumps(value, sort_keys=True, separators=(",", ":"), ensure_ascii=…)`.
use Prim.Native.String.{[], ◌∷◌, ◌++◌}
use user_delegated_auth_serv.Base.{
  ℕ, ◌+◌, ◌-◌, ◌/◌, ◌%◌, Char, code, String, Bool, true, false, List, [], ◌∷◌, ◌||◌, ◌&&◌, ltb,
  nat_eq, str_lt, decimal, if◌then◌else◌,
}
use user_delegated_auth_serv.Json.{
  ℤ, pos, negsuc, Json, null, bool, int, float, str, arr, obj, Items, nil, cons, Fields, end, field,
}

-- `str` of an integer.
unfoldable pub show_int : ℤ → String
show_int (pos n) = decimal n
show_int (negsuc n) = "-" ++ decimal (n + 1)

hex_digit : ℕ → String
hex_digit d =
    if nat_eq d 10
    then "a"
    else if nat_eq d 11
    then "b"
    else if nat_eq d 12
    then "c"
    else if nat_eq d 13
    then "d"
    else if nat_eq d 14
    then "e"
    else if nat_eq d 15
    then "f"
    else decimal d

-- `'\\u{0:04x}'.format(unit)`
unicode_escape : ℕ → String
unfolding hex_digit
unicode_escape u =
    "\\u"
    ++ (hex_digit (u / 4096)
        ++ (hex_digit (u / 256 % 16) ++ (hex_digit (u / 16 % 16) ++ hex_digit (u % 16))))

-- Beyond the BMP: the two halves of a surrogate pair.
wide_escape : ℕ → String
unfolding unicode_escape
wide_escape n =
    if ltb n 0x10000
    then unicode_escape n
    else (unicode_escape (0xd800 + (n - 0x10000) / 1024)
        ++ unicode_escape (0xdc00 + (n - 0x10000) % 1024))

escape_char : Bool → Char → String
unfolding wide_escape
escape_char ensure_ascii c =
    if nat_eq (code c) 34
    then "\\\""
    else if nat_eq (code c) 92
    then "\\\\"
    else if nat_eq (code c) 10
    then "\\n"
    else if nat_eq (code c) 13
    then "\\r"
    else if nat_eq (code c) 9
    then "\\t"
    else if nat_eq (code c) 12
    then "\\f"
    else if nat_eq (code c) 8
    then "\\b"
    else if ltb (code c) 32 || (ensure_ascii && ltb 126 (code c))
    then wide_escape (code c)
    else c ∷ []

escape : Bool → String → String
unfolding escape_char
escape ensure_ascii [] = []
escape ensure_ascii (c ∷ s) = escape_char ensure_ascii c ++ escape ensure_ascii s

unfoldable pub quoted : Bool → String → String
unfolding escape
quoted ensure_ascii s = "\"" ++ (escape ensure_ascii s ++ "\"")

-- Stable, as `sorted(dct.items())`: the keys of a `dict` are distinct.
insert_member : String × String → List (String × String) → List (String × String)
insert_member m [] = m ∷ []
insert_member m (n ∷ ns) = if str_lt n.0 m.0 then n ∷ insert_member m ns else m ∷ n ∷ ns

sort_members : List (String × String) → List (String × String)
unfolding insert_member str_lt
sort_members [] = []
sort_members (m ∷ ms) = insert_member m (sort_members ms)

join_members : Bool → List (String × String) → String
unfolding quoted
join_members ensure_ascii [] = []
join_members ensure_ascii ((k, v) ∷ []) = quoted ensure_ascii k ++ (":" ++ v)
join_members ensure_ascii ((k, v) ∷ m ∷ ms) =
    quoted ensure_ascii k ++ (":" ++ (v ++ ("," ++ join_members ensure_ascii (m ∷ ms))))

unfoldable pub join : String → List String → String
join sep [] = []
join sep (x ∷ []) = x
join sep (x ∷ y ∷ ys) = x ++ (sep ++ join sep (y ∷ ys))

unfoldable mutual
  unfolding quoted show_int join sort_members join_members

  pub dumps : Bool → Json → String
  dumps ensure_ascii null = "null"
  dumps ensure_ascii (bool true) = "true"
  dumps ensure_ascii (bool false) = "false"
  dumps ensure_ascii (int n) = show_int n
  dumps ensure_ascii (float x) = x.text
  dumps ensure_ascii (str s) = quoted ensure_ascii s
  dumps ensure_ascii (arr xs) = "[" ++ (join "," (dump_items ensure_ascii xs) ++ "]")
  dumps ensure_ascii (obj fs) =
      "{" ++ (join_members ensure_ascii (sort_members (dump_fields ensure_ascii fs)) ++ "}")

  pub dump_items : Bool → Items → List String
  dump_items ensure_ascii nil = []
  dump_items ensure_ascii (cons x xs) = dumps ensure_ascii x ∷ dump_items ensure_ascii xs

  pub dump_fields : Bool → Fields → List (String × String)
  dump_fields ensure_ascii end = []
  dump_fields ensure_ascii (field k v fs) = (k, dumps ensure_ascii v) ∷ dump_fields ensure_ascii fs
