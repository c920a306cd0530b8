-- ===== src/Text.antt =====
-- The text helpers that every component repeats (`_required_text`, `_optional_text` of
-- code_index/openclaw_hostd/leases.py and its siblings), over Python's `str.strip`, and the part
-- of Python's runtime that rests on the Unicode tables.
pub mod Strip
pub mod Ascii
use Prim.Native.String.{String, ◌++◌}
use memory_network.Prelude.{
  ℕ, zero, suc, Char, code, ◌≡◌, Bool, true, false, ◌&&◌, ◌||◌, ◌/◌, ◌%◌, Option, none, some, List,
  [], ◌∷◌, leb, nat_beq, if◌then◌else◌,
}

-- `str.isspace` of one character, for all of Unicode.
unfoldable pub is_space : Char → Bool
is_space c =
    let n = code c in
    (leb 9 n && leb n 13)
    || (leb 28 n && leb n 32)
    || nat_beq n 0x85
    || nat_beq n 0xa0
    || nat_beq n 0x1680
    || (leb 0x2000 n && leb n 0x200a)
    || nat_beq n 0x2028
    || nat_beq n 0x2029
    || nat_beq n 0x202f
    || nat_beq n 0x205f
    || nat_beq n 0x3000

unfoldable pub is_empty : String → Bool
is_empty String.[] = true
is_empty (String.◌∷◌ c s) = false

-- `s.lstrip(…)`, `s.rstrip(…)` and `s.strip(…)`, for the set of characters `p`
unfoldable pub lstrip : (Char → Bool) → String → String
lstrip p String.[] = String.[]
lstrip p (String.◌∷◌ c s) = let rest = lstrip p s in if p c then rest else String.◌∷◌ c s

unfoldable pub rstrip_cons : (Char → Bool) → Char → String → String
unfolding is_empty
rstrip_cons p c rest = if p c && is_empty rest then String.[] else String.◌∷◌ c rest

unfoldable pub rstrip : (Char → Bool) → String → String
rstrip p String.[] = String.[]
rstrip p (String.◌∷◌ c s) = rstrip_cons p c (rstrip p s)

unfoldable pub strip : (Char → Bool) → String → String
unfolding lstrip rstrip rstrip_cons
strip p s = rstrip p (lstrip p s)

-- every character in `p` written as `w`, as `s.replace(c, w)` does for one character
unfoldable pub replace : (Char → Bool) → String → String → String
replace p w String.[] = String.[]
replace p w (String.◌∷◌ c s) = (if p c then w else String.◌∷◌ c String.[]) ++ replace p w s

-- `s.startswith(prefix)` and `part in s`
unfoldable pub starts_with : String → String → Bool
starts_with String.[] s = true
starts_with (String.◌∷◌ p ps) String.[] = false
starts_with (String.◌∷◌ p ps) (String.◌∷◌ c s) = nat_beq (code p) (code c) && starts_with ps s

unfoldable pub has_part : String → String → Bool
unfolding starts_with is_empty
has_part part String.[] = is_empty part
has_part part (String.◌∷◌ c s) = starts_with part (String.◌∷◌ c s) || has_part part s

-- `s.split(c)` for the one character in `p`, from what was read since the last of them
unfoldable pub split_from : (Char → Bool) → String → String → List String
split_from p part String.[] = part ∷ []
split_from p part (String.◌∷◌ c s) =
    let closed = split_from p String.[] s in
    let longer = split_from p (part ++ String.◌∷◌ c String.[]) s in
    if p c then part ∷ closed else longer

-- `text or None`
unfoldable pub nonempty : String → Option String
unfolding is_empty
nonempty s = if is_empty s then none else some s

-- `str(value or "").strip()` for a text or `None`
unfoldable pub stripped : Option String → String
unfolding strip is_space
stripped none = String.[]
stripped (some s) = strip is_space s

unfoldable pub optional_text : Option String → Option String
unfolding nonempty stripped
optional_text value = nonempty (stripped value)

-- `str(n)` of a natural number
digit_text : ℕ → String
digit_text n =
    if nat_beq n 0
    then "0"
    else if nat_beq n 1
    then "1"
    else if nat_beq n 2
    then "2"
    else if nat_beq n 3
    then "3"
    else if nat_beq n 4
    then "4"
    else if nat_beq n 5
    then "5"
    else if nat_beq n 6
    then "6"
    else if nat_beq n 7
    then "7"
    else if nat_beq n 8
    then "8"
    else "9"

decimal_go : ℕ → ℕ → String → String
decimal_go zero n acc = acc
decimal_go (suc fuel) n acc =
    let rest = decimal_go fuel (n / 10) (digit_text (n % 10) ++ acc) in
    if leb n 9 then digit_text n ++ acc else rest

unfoldable pub decimal : ℕ → String
unfolding decimal_go digit_text
decimal n = decimal_go (suc n) n String.[]

-- The letters, `_` and `-` of which the program's own status words are made.
plain_char : Char → Bool
plain_char c = let n = code c in (leb b'a' n && leb n b'z') || nat_beq n b'_' || nat_beq n b'-'

unfoldable pub is_plain : String → Bool
unfolding plain_char
is_plain String.[] = true
is_plain (String.◌∷◌ c s) = plain_char c && is_plain s

-- What the program uses of Python's Unicode tables: `str.lower`, which leaves a text of small
-- letters as it is, and `str.isalnum` of one character.
pub record Unicode : Type 0 where
  pub lower : String → String
  pub is_alnum : Char → Bool
  pub lower_plain : (s : String) → is_plain s ≡ true → lower s ≡ s
