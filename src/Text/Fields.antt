-- ===== src/Text/Fields.antt =====
-- `splitComma`, `split2`, `parseBig` and the unsigned numbers of c3-distributor/contract/main.go.
-- A text is walked by its characters; all that the code looks for is ASCII.
use Prim.Native.Char.{code}
use magi_tokenomics.Common.{
  ℕ, zero, suc, ◌+◌, ◌-◌, ◌*◌, ◌/◌, ◌%◌, ℤ, pos, negsuc, ◌-ℤ◌, Bool, true, false, ◌&&◌, ◌||◌, not,
  String, List, [], ◌∷◌, Option, none, some, ltb, leb, nat_beq, ◌==◌, string_eq, if◌then◌else◌,
  Outcome, ok, require, abort_if, ◌>>◌, epoch_required, epoch_not_numeric, epoch_not_canonical,
  epoch_out_of_range,
}
use Prim.Native.String.{len, slice, ◌++◌}

-- The bytes of an ASCII text.
unfoldable pub codes : String → List ℕ
codes String.[] = []
codes (String.◌∷◌ c s) = code c ∷ codes s

-- The text up to the first comma, and the fields after it.
unfoldable pub comma_fields : String → String × List String
comma_fields String.[] = ("", [])
comma_fields (String.◌∷◌ c s) =
    let (x, xs) = comma_fields s in
    if nat_beq (code c) 44 then ("", x ∷ xs) else (String.◌∷◌ c x, xs)

unfoldable pub nonempty_fields : List String → List String
nonempty_fields [] = []
nonempty_fields (x ∷ xs) = let rest = nonempty_fields xs in if x == "" then rest else x ∷ rest

unfoldable pub split_comma : String → List String
unfolding comma_fields nonempty_fields
split_comma s = let (x, xs) = comma_fields s in nonempty_fields (x ∷ xs)

-- The two sides of the last colon.
unfoldable pub last_colon : String → Option (String × String)
last_colon String.[] = none
last_colon (String.◌∷◌ c s) = elim (last_colon s) [
  | some p ↦ some (String.◌∷◌ c p.0, p.1)
  | none ↦ if nat_beq (code c) 58 then some ("", s) else none
]

unfoldable pub split2 : String → String × String
unfolding last_colon
split2 s = elim (last_colon s) [ none ↦ (s, "") | some p ↦ p ]

unfoldable pub is_decimal : String → Bool
is_decimal String.[] = true
is_decimal (String.◌∷◌ c s) = leb 48 (code c) && leb (code c) 57 && is_decimal s

unfoldable pub decimal_value : ℕ → String → ℕ
decimal_value acc String.[] = acc
decimal_value acc (String.◌∷◌ c s) = decimal_value (acc * 10 + (code c - 48)) s

abbrev pub unsigned : String → Option ℕ
unsigned s = if s == "" || not (is_decimal s) then none else some (decimal_value 0 s)

-- A sign, if there is one, and digits.
unfoldable pub signed : String → Option ℤ
unfolding is_decimal decimal_value
signed String.[] = none
signed (String.◌∷◌ c s) =
    if nat_beq (code c) 45
    then negated (unsigned s)
    else if nat_beq (code c) 43
    then positive (unsigned s)
    else positive (unsigned (String.◌∷◌ c s))
  where
    positive : Option ℕ → Option ℤ
    positive none = none
    positive (some n) = some (pos n)

    negated : Option ℕ → Option ℤ
    negated none = none
    negated (some n) = some (pos 0 -ℤ pos n)

-- `parseBig`, where `garbled` is what big.Int's SetString leaves of a text that it refuses, which
-- its documentation calls undefined.
unfoldable pub parse_big : (String → ℤ) → String → ℤ
unfolding signed
parse_big garbled s = if s == "" then pos 0 else (elim (signed s) [ none ↦ garbled s | some x ↦ x ])

-- `strconv.ParseUint(s, 10, 64)`
unfoldable pub parse_uint : String → Option ℕ
unfolding is_decimal decimal_value
parse_uint s = elim (unsigned s) [
  | none ↦ none
  | some n ↦ if ltb n 18446744073709551616 then some n else none
]

-- `strconv.Atoi` where an int has 32 bits, as in the contracts.
unfoldable pub parse_int : String → Option ℤ
unfolding signed
parse_int s = elim (signed s) [ none ↦ none | some x ↦ if fits x then some x else none ]
  where
    fits : ℤ → Bool
    fits (pos n) = ltb n 2147483648
    fits (negsuc n) = ltb n 2147483648

unfoldable pub leading_zero : String → Bool
leading_zero String.[] = false
leading_zero (String.◌∷◌ c s) = nat_beq (code c) 48

-- `canon`: the text itself, if it is a canonical decimal of at most 19 digits.
unfoldable pub canon : String → Outcome String
unfolding is_decimal leading_zero
canon s = do
  abort_if (s == "") epoch_required
  require (is_decimal s) epoch_not_numeric
  abort_if (ltb 1 (len s) && leading_zero s) epoch_not_canonical
  abort_if (ltb 19 (len s)) epoch_out_of_range
  ok s

-- `Int.String` and `FormatUint`; a number has fewer digits than its value or one.
unfoldable pub show_nat : ℕ → ℕ → String
show_nat zero n = ""
show_nat (suc fuel) n = elim (ltb n 10) [
  | true ↦ slice "0123456789" n (n + 1)
  | false ↦ show_nat fuel (n / 10) ++ slice "0123456789" (n % 10) (n % 10 + 1)
]

unfoldable pub show_int : ℤ → String
unfolding show_nat
show_int (pos n) = show_nat (n + 1) n
show_int (negsuc n) = "-" ++ show_nat (n + 2) (n + 1)
