-- ===== src/Url/Number.antt =====
-- `std::stoi(text, nullptr, 0)`, which `Url::Parse` reads the port with: blanks are skipped, a sign
-- is read, the base is found from the prefix, and what follows the digits is ignored.
use mile_csa_jsonrpc_client.Base.{ℕ, ◌+◌, ◌-◌, ◌*◌, Bool, ◌&&◌, ◌||◌, Option, none}
use mile_csa_jsonrpc_client.Base.{some, [], ◌∷◌, ltb, leb, ◌==◌, if◌then◌else◌, Text}
use mile_csa_jsonrpc_client.Base.Int.{ℤ, pos, negate}

-- `std::stoi` returns a number or throws.
pub data StoiResult : Type 0 where
  number : ℤ → StoiResult
  invalid_argument out_of_range : StoiResult

unfoldable pub is_space : ℕ → Bool
is_space c = c == 32 || (leb 9 c && leb c 13)

-- The value of a digit or letter.
unfoldable pub digit : ℕ → Option ℕ
digit c =
    if leb b'0' c && leb c b'9'
    then some (c - b'0')
    else if leb b'a' c && leb c b'z'
    then some (c - b'a' + 10)
    else if leb b'A' c && leb c b'Z'
    then some (c - b'A' + 10)
    else none

-- The value of `c`, if it is a digit of the base.
unfoldable pub digit_in : ℕ → ℕ → Option ℕ
unfolding digit
digit_in base c = elim (digit c) [ none ↦ none | some d ↦ if ltb d base then some d else none ]

-- The digits at the front of the text, read onto `acc`.
unfoldable pub digits : ℕ → Text → ℕ → ℕ
unfolding digit_in
digits base [] acc = acc
digits base (c ∷ s) acc = elim (digit_in base c) [
  | none ↦ acc
  | some d ↦ digits base s (acc * base + d)
]

-- The digits, of which there has to be one.
unfoldable pub magnitude : ℕ → Text → Option ℕ
unfolding digits
magnitude base [] = none
magnitude base (c ∷ s) = elim (digit_in base c) [ none ↦ none | some d ↦ some (digits base s d) ]

abbrev is_x : ℕ → Bool
is_x c = c == b'x' || c == b'X'

-- After a `0`: hexadecimal if `x` and a digit follow it, and octal if not.
unfoldable pub after_zero : Text → ℕ
unfolding digits
after_zero (x ∷ c ∷ s) = elim (digit_in 16 c) [
  | none ↦ digits 8 (x ∷ c ∷ s) 0
  | some d ↦ if is_x x then digits 16 s d else digits 8 (x ∷ c ∷ s) 0
]
after_zero s = digits 8 s 0

unfoldable pub unsigned : Text → Option ℕ
unfolding magnitude after_zero
unsigned [] = none
unsigned (c ∷ s) = if c == b'0' then some (after_zero s) else magnitude 10 (c ∷ s)

unfoldable pub skip_spaces : Text → Text
unfolding is_space
skip_spaces [] = []
skip_spaces (c ∷ s) = let rest = skip_spaces s in if is_space c then rest else c ∷ s

-- A positive and a negative number that fits in `int`.
abbrev in_int : Option ℕ → StoiResult
in_int none = invalid_argument
in_int (some n) = if ltb n 2147483648 then number (pos n) else out_of_range

abbrev in_int_negated : Option ℕ → StoiResult
in_int_negated none = invalid_argument
in_int_negated (some n) = if leb n 2147483648 then number (negate n) else out_of_range

unfoldable pub signed : Text → StoiResult
unfolding unsigned
signed [] = invalid_argument
signed (c ∷ s) =
    if c == b'-'
    then in_int_negated (unsigned s)
    else if c == b'+'
    then in_int (unsigned s)
    else in_int (unsigned (c ∷ s))

unfoldable pub stoi : Text → StoiResult
unfolding signed skip_spaces
stoi s = signed (skip_spaces s)
