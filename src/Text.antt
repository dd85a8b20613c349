-- ===== src/Text.antt =====
-- Go's strings and the functions of `strings` and `fmt` that the agent calls. A string is the list
-- of its code points: all text that the agent reads is decoded from JSON or YAML, so it is valid
-- UTF-8, and UTF-8 keeps the order of code points.
pub mod Equality
pub mod Order
pub mod Trim
pub mod Split
pub mod Decimal
pub mod Scan
use Prim.Native.Char.{code}
use sidecar_agent.Prelude.{
  ℕ, zero, suc, ◌+◌, ◌-◌, ◌*◌, ◌/◌, ◌%◌, ◌^◌, String, Bool, true, false, ◌&&◌, ◌||◌, Option, none,
  some, List, [], ◌∷◌, ◌++◌, ltb, leb, ◌==◌, if◌then◌else◌, Eq, ◌≡◌, refl,
}
use sidecar_agent.Prelude.Int.{ℤ, pos, negsuc}

abbrev pub Text : Type 0
Text = List ℕ

abbrev pub codes : String → Text
codes String.[] = []
codes (String.◌∷◌ c s) = code c ∷ codes s

unfoldable pub text_eq : Text → Text → Bool
text_eq [] [] = true
text_eq [] (y ∷ ys) = false
text_eq (x ∷ xs) [] = false
text_eq (x ∷ xs) (y ∷ ys) = x == y && text_eq xs ys

-- `left < right`
unfoldable pub text_lt : Text → Text → Bool
text_lt [] [] = false
text_lt [] (y ∷ ys) = true
text_lt (x ∷ xs) [] = false
text_lt (x ∷ xs) (y ∷ ys) = if ltb x y then true else if ltb y x then false else text_lt xs ys

abbrev pub is_empty : Text → Bool
is_empty [] = true
is_empty (c ∷ s) = false

-- `unicode.IsSpace`
unfoldable pub is_space : ℕ → Bool
is_space c =
    (leb 9 c && leb c 13)
    || c == 32
    || c == 0x85
    || c == 0xA0
    || c == 0x1680
    || (leb 0x2000 c && leb c 0x200A)
    || c == 0x2028
    || c == 0x2029
    || c == 0x202F
    || c == 0x205F
    || c == 0x3000

module _ (p : ℕ → Bool) where
  unfoldable pub trim_left : Text → Text
  trim_left [] = []
  trim_left (c ∷ s) = let rest = trim_left s in if p c then rest else c ∷ s

  unfoldable pub trim_right : Text → Text
  trim_right [] = []
  trim_right (c ∷ s) = let rest = trim_right s in if is_empty rest && p c then [] else c ∷ rest

-- `strings.TrimSpace`
unfoldable pub trim_space : Text → Text
unfolding trim_left trim_right is_space
trim_space s = trim_right is_space (trim_left is_space s)

abbrev pub is_slash : ℕ → Bool
is_slash c = c == b'/'

-- `strings.Trim(s, "/")`
unfoldable pub trim_slashes : Text → Text
unfolding trim_left trim_right
trim_slashes s = trim_right is_slash (trim_left is_slash s)

-- `strings.HasPrefix`
unfoldable pub has_prefix : Text → Text → Bool
has_prefix s [] = true
has_prefix [] (p ∷ ps) = false
has_prefix (c ∷ s) (p ∷ ps) = c == p && has_prefix s ps

-- `s[len(prefix):]` where the prefix is there, as `strings.TrimPrefix` does.
unfoldable pub trim_prefix : Text → Text → Text
trim_prefix s [] = s
trim_prefix [] (p ∷ ps) = []
trim_prefix (c ∷ s) (p ∷ ps) = trim_prefix s ps

-- `strings.LastIndex` of one character; `none` is -1.
unfoldable pub last_index : ℕ → Text → Option ℕ
last_index b [] = none
last_index b (c ∷ s) = elim (last_index b s) [
  | some i ↦ some (suc i)
  | none ↦ if c == b then some 0 else none
]

-- `strings.Split` at one character: there is always a part.
add_to_first : ℕ → List Text → List Text
add_to_first c [] = (c ∷ []) ∷ []
add_to_first c (part ∷ parts) = (c ∷ part) ∷ parts

unfoldable pub split : ℕ → Text → List Text
unfolding add_to_first
split b [] = [] ∷ []
split b (c ∷ s) = let parts = split b s in if c == b then [] ∷ parts else add_to_first c parts

-- `strings.Join` with one character between the parts.
unfoldable pub join : ℕ → List Text → Text
join b [] = []
join b (part ∷ []) = part
join b (part ∷ next ∷ parts) = part ++ b ∷ join b (next ∷ parts)

-- `%d` of a number that is not negative. The fuel is one more than the number.
decimal_fuel : ℕ → ℕ → Text
decimal_fuel zero n = []
decimal_fuel (suc f) n =
    let front = decimal_fuel f (n / 10) in
    if ltb n 10 then (b'0' + n) ∷ [] else front ++ (b'0' + n % 10) ∷ []

unfoldable pub decimal : ℕ → Text
unfolding decimal_fuel
decimal n = decimal_fuel (suc n) n

-- `%d` of an `int`
unfoldable pub format_int : ℤ → Text
unfolding decimal
format_int (pos n) = decimal n
format_int (negsuc n) = b'-' ∷ decimal (suc n)

abbrev pub is_digit : ℕ → Bool
is_digit c = leb b'0' c && leb c b'9'

-- The number that digits stand for, after `acc`.
unfoldable pub digits_value : ℕ → Text → ℕ
digits_value acc [] = acc
digits_value acc (c ∷ s) = digits_value (acc * 10 + (c - b'0')) s

-- The digits that a text begins with.
unfoldable pub leading_digits : Text → Text
leading_digits [] = []
leading_digits (c ∷ s) = let rest = leading_digits s in if is_digit c then c ∷ rest else []

-- `strconv.ParseInt(digits, 10, 64)` after a sign: `none` is its error.
unfoldable pub to_int64 : Bool → Text → Option ℤ
to_int64 negative [] = none
to_int64 false (c ∷ s) =
    let n = digits_value 0 (c ∷ s) in if ltb n (2 ^ 63) then some (pos n) else none
to_int64 true (c ∷ s) =
    let n = digits_value 0 (c ∷ s) in
    if n == 0 then some (pos 0) else if leb n (2 ^ 63) then some (negsuc (n - 1)) else none

-- `fmt.Sscanf(s, "%d", &value)` for a text that does not begin with a space: what follows the
-- digits is not read.
unfoldable pub scan_int : Text → Option ℤ
unfolding leading_digits to_int64 digits_value
scan_int [] = none
scan_int (c ∷ s) =
    if c == b'-'
    then to_int64 true (leading_digits s)
    else if c == b'+'
    then to_int64 false (leading_digits s)
    else to_int64 false (leading_digits (c ∷ s))

test_scan : scan_int (codes "12a") ≡ some (pos 12)
unfolding scan_int
test_scan = refl

test_trim : trim_space (codes " \ta b ") ≡ codes "a b"
unfolding trim_space
test_trim = refl

test_format : format_int (pos 65535) ≡ codes "65535"
unfolding format_int
test_format = refl

test_split : split b',' (codes "a,,b") ≡ codes "a" ∷ [] ∷ codes "b" ∷ []
unfolding split
test_split = refl

test_last_index : last_index b'/' (codes "/a/b") ≡ some 2
unfolding last_index
test_last_index = refl
