-- ===== src/Codec.antt =====
-- Encodings of the Go standard library that the bridge's keys and digests use: encoding/binary,
-- encoding/hex and the decimal form of big.Int and of `%d`.
pub mod Uvarint
pub mod Fixed
pub mod Decimal
pub mod Trimmed
pub mod Digits
use aegis_link.Common.{
  ℕ, zero, suc, ◌+◌, ◌*◌, ◌/◌, ◌%◌, ◌^◌, List, [], ◌∷◌, ◌++◌, ltb, leb, nat_beq, ◌-◌, ◌&&◌, Bool,
  Option, none, some, if◌then◌else◌,
}
use mathlib.Core.Option
use aegis_link.Common.Int.{ℤ, pos, negsuc}
use aegis_link.Text.{Text}

-- `binary.PutUvarint`: seven bits to a byte, the low ones first, the high bit set on all but the
-- last. The fuel is the room for bytes; ten hold every uint64.
unfoldable pub put_uvarint : ℕ → ℕ → List ℕ
put_uvarint zero x = []
put_uvarint (suc room) x =
    let rest = put_uvarint room (x / 128) in
    let more = (x % 128 + 128) ∷ rest in if ltb x 128 then x ∷ [] else more

abbrev pub max_varint_len64 : ℕ
max_varint_len64 = 10

-- `binary.BigEndian.PutUint64`
unfoldable pub put_uint64 : ℕ → List ℕ
put_uint64 x =
    (x / 2 ^ 56 % 256)
    ∷ (x / 2 ^ 48 % 256)
    ∷ (x / 2 ^ 40 % 256)
    ∷ (x / 2 ^ 32 % 256)
    ∷ (x / 2 ^ 24 % 256)
    ∷ (x / 2 ^ 16 % 256)
    ∷ (x / 2 ^ 8 % 256)
    ∷ (x % 256)
    ∷ []

-- A digit of base 16 as a lower case letter.
abbrev hex_digit : ℕ → ℕ
hex_digit d = if ltb d 10 then d + 48 else d + 87

-- `hex.EncodeToString`
unfoldable pub hex_encode : List ℕ → Text
hex_encode [] = []
hex_encode (b ∷ bs) = hex_digit (b / 16) ∷ hex_digit (b % 16) ∷ hex_encode bs

-- Decimal digits with fuel, which `suc n` is enough of.
unfoldable pub digits_from : ℕ → ℕ → Text
digits_from zero n = []
digits_from (suc fuel) n =
    let front = digits_from fuel (n / 10) in
    let longer = front ++ (n % 10 + 48) ∷ [] in if ltb n 10 then (n + 48) ∷ [] else longer

-- `%d` of an unsigned integer.
unfoldable pub decimal : ℕ → Text
unfolding digits_from
decimal n = digits_from (suc n) n

-- `big.Int.String`
unfoldable pub int_decimal : ℤ → Text
unfolding decimal
int_decimal (pos n) = decimal n
int_decimal (negsuc n) = 0x2d ∷ decimal (suc n)

abbrev is_digit : ℕ → Bool
is_digit b = leb 48 b && leb b 57

-- The value of a text of decimal digits, after those read so far.
unfoldable pub parse_digits : ℕ → Text → Option ℕ
parse_digits acc [] = some acc
parse_digits acc (b ∷ s) =
    let rest = parse_digits (acc * 10 + (b - 48)) s in if is_digit b then rest else none

-- At least one digit.
unfoldable pub parse_unsigned : Text → Option ℕ
unfolding parse_digits
parse_unsigned [] = none
parse_unsigned (b ∷ s) = parse_digits 0 (b ∷ s)

-- `0 - n`
abbrev pub negated : ℕ → ℤ
negated zero = pos 0
negated (suc n) = negsuc n

-- `new(big.Int).SetString(s, 10)`: an optional sign and digits.
unfoldable pub set_string : Text → Option ℤ
unfolding parse_unsigned
set_string [] = none
set_string (b ∷ s) =
    if nat_beq b 0x2d
    then Option.map negated (parse_unsigned s)
    else Option.map pos (parse_unsigned (if nat_beq b 0x2b then s else b ∷ s))
