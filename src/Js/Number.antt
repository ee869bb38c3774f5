-- ===== src/Js/Number.antt =====
-- JavaScript numbers as the sources use them: NaN, the infinities and exact decimals. `Number(text)`
-- reads the literals of ECMAScript; a decimal is kept exact where JavaScript rounds it to 53 bits, and
-- `String(number)` writes no exponent where JavaScript does (from 1e21 and below 1e-6).
pub mod Whole
use Prim.Native.Char.{Char, code}
use Prim.Native.String.{[], ◌∷◌, len, slice}
use node_red_contrib_bull.Prelude.{
  ℕ, zero, suc, ◌+◌, ◌-◌, ◌*◌, ◌/◌, ◌%◌, ◌^◌, String, ◌≡◌, refl, Bool, true, false, not, ◌&&◌, ◌||◌,
  ◌<>◌, ◌==◌, leb, ltb, str_eq, if◌then◌else◌,
}
use node_red_contrib_bull.Js.Text.{trim}

-- `dec negative digits scale` is ±digits / 10^scale, and `inf negative` an infinity.
pub data Number : Type 0 where
  nan : Number
  inf : Bool → Number
  dec : Bool → ℕ → ℕ → Number

abbrev pub nat : ℕ → Number
nat n = dec false n 0

-- `Number.isInteger(x)`
unfoldable pub is_integer : Number → Bool
is_integer (dec _ d s) = d % (10 ^ s) == 0
is_integer _ = false

-- `Number.isFinite(x)`
unfoldable pub is_finite : Number → Bool
is_finite (dec _ _ _) = true
is_finite _ = false

-- `x < n` and `x > n`, against a natural number.
unfoldable pub is_below : Number → ℕ → Bool
is_below nan n = false
is_below (inf negative) n = negative
is_below (dec true d s) n = ltb 0 (d + n)
is_below (dec false d s) n = ltb d (n * 10 ^ s)

unfoldable pub is_above : Number → ℕ → Bool
is_above nan n = false
is_above (inf negative) n = not negative
is_above (dec true d s) n = false
is_above (dec false d s) n = ltb (n * 10 ^ s) d

-- Neither 0 nor NaN.
unfoldable pub is_nonzero : Number → Bool
is_nonzero nan = false
is_nonzero (inf _) = true
is_nonzero (dec _ d _) = not (d == 0)

unfoldable pub is_nan : Number → Bool
is_nan nan = true
is_nan _ = false

-- Drops the zeros at the end of a fraction.
unfoldable pub normal : Bool → ℕ → ℕ → Number
normal negative d zero = dec negative d 0
normal negative d (suc s) =
    let shorter = normal negative (d / 10) s in
    if d % 10 == 0 then shorter else dec negative d (suc s)

digit_value : Char → ℕ
digit_value c =
    let n = code c in
    if leb b'0' n && leb n b'9'
    then n - b'0'
    else if leb b'a' n && leb n b'z'
    then n - b'a' + 10
    else if leb b'A' n && leb n b'Z'
    then n - b'A' + 10
    else 99

-- The digits at the front of a text: their value after `acc`, how many there are, and the rest.
read_digits : ℕ → ℕ → ℕ → String → ℕ × ℕ × String
read_digits base acc n [] = (acc, n, [])
read_digits base acc n (c ∷ s) =
    let more = read_digits base (acc * base + digit_value c) (suc n) s in
    if ltb (digit_value c) base then more else (acc, n, c ∷ s)

scaled : Bool → Bool → ℕ → ℕ → ℕ → Number
scaled negative true d s e = normal negative d (s + e)
scaled negative false d s e = normal negative (d * 10 ^ e) s

at_end : String → Number → Number
at_end [] x = x
at_end (_ ∷ _) x = nan

-- The digits of an exponent, at least one, up to the end of the text.
exponent_digits : Bool → Bool → ℕ → ℕ → String → Number
exponent_digits negative down d s t =
    let (e, n, rest) = read_digits 10 0 0 t in
    if n == 0 then nan else at_end rest (scaled negative down d s e)

exponent_sign : Bool → ℕ → ℕ → String → Number
exponent_sign negative d s [] = nan
exponent_sign negative d s (c ∷ t) =
    if code c == b'-'
    then exponent_digits negative true d s t
    else if code c == b'+'
    then exponent_digits negative false d s t
    else exponent_digits negative false d s (c ∷ t)

exponent : Bool → ℕ → ℕ → String → Number
exponent negative d s [] = normal negative d s
exponent negative d s (c ∷ t) =
    if code c == b'e' || code c == b'E' then exponent_sign negative d s t else nan

fraction : Bool → ℕ → ℕ → String → Number
fraction negative d n [] = if n == 0 then nan else normal negative d 0
fraction negative d n (c ∷ t) =
    let (d', k, rest) = read_digits 10 d 0 t in
    if code c == b'.'
    then if n + k == 0 then nan else exponent negative d' k rest
    else if n == 0
    then nan
    else exponent negative d 0 (c ∷ t)

unsigned : Bool → String → Number
unsigned negative t =
    let (d, n, rest) = read_digits 10 0 0 t in
    if str_eq t "Infinity" then inf negative else fraction negative d n rest

radix : ℕ → String → Number
radix base t =
    let (d, n, rest) = read_digits base 0 0 t in if n == 0 then nan else at_end rest (nat d)

signed : String → Number
signed [] = nat 0
signed (c ∷ t) =
    if code c == b'-'
    then unsigned true t
    else if code c == b'+'
    then unsigned false t
    else unsigned false (c ∷ t)

abbrev text_prefix : String → String
text_prefix t = slice t 0 2

parse : String → Number
parse t =
    let p = text_prefix t in
    let rest = slice t 2 (len t) in
    if str_eq p "0x" || str_eq p "0X"
    then radix 16 rest
    else if str_eq p "0o" || str_eq p "0O"
    then radix 8 rest
    else if str_eq p "0b" || str_eq p "0B"
    then radix 2 rest
    else signed t

-- `Number(text)`
unfoldable pub of_string : String → Number
unfolding parse signed radix unsigned fraction exponent exponent_sign exponent_digits at_end scaled
    read_digits digit_value normal trim
of_string t = parse (trim t)

abbrev digit_text : ℕ → String
digit_text n = slice "0123456789" (n % 10) (n % 10 + 1)

-- The last `k` digits.
pad : ℕ → ℕ → String
pad zero n = ""
pad (suc k) n = pad k (n / 10) <> digit_text n

show_fuel : ℕ → ℕ → String
show_fuel zero n = ""
show_fuel (suc f) n =
    let front = show_fuel f (n / 10) in if ltb n 10 then digit_text n else front <> digit_text n

unfoldable pub show_nat : ℕ → String
unfolding show_fuel
show_nat n = show_fuel (suc n) n

show_decimal : ℕ → ℕ → String
show_decimal d zero = show_nat d
show_decimal d (suc s) = show_nat (d / 10 ^ suc s) <> "." <> pad (suc s) d

-- `String(number)`
unfoldable pub to_string : Number → String
unfolding show_decimal show_nat pad
to_string nan = "NaN"
to_string (inf negative) = if negative then "-Infinity" else "Infinity"
to_string (dec negative d s) =
    if negative && not (d == 0) then "-" <> show_decimal d s else show_decimal d s

of_string_test :
    (of_string " 6379 " ≡ nat 6379)
    × (of_string "" ≡ nat 0)
    × (of_string "1.50e1" ≡ nat 15)
    × (of_string "0x1F" ≡ nat 31)
    × (of_string "-.5" ≡ dec true 5 1)
    × (of_string "63a" ≡ nan)
    × (of_string "-Infinity" ≡ inf true)
unfolding of_string
of_string_test = (refl, refl, refl, refl, refl, refl, refl)

to_string_test : (to_string (nat 6379) ≡ "6379") × (to_string (dec true 105 1) ≡ "-10.5")
unfolding to_string
to_string_test = (refl, refl)
