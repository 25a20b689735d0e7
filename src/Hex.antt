-- ===== src/Hex.antt =====
-- libdevcore/CommonData.h and CommonData.cpp: hexadecimal text and bytes. A string is the list of
-- its character codes, and a read one past its end gives 0.
pub mod Digits
pub mod RoundTrip
pub mod BadText
use firominer.Base.{
  ℕ, zero, suc, ◌+◌, ◌-◌, ◌*◌, ◌/◌, ◌%◌, Bool, true, false, ◌&&◌, List, [], ◌∷◌, ◌++◌,
}
use firominer.Base.{
  Option, none, some, length, get_or, replicate, drop, ltb, leb, ◌==◌, if◌then◌else◌,
}

-- `fromHex` of a character; `none` is its -1.
unfoldable pub from_hex_char : ℕ → Option ℕ
from_hex_char c =
    if leb b'0' c && leb c b'9'
    then some (c - b'0')
    else if leb b'a' c && leb c b'f'
    then some (c - b'a' + 10)
    else if leb b'A' c && leb c b'F'
    then some (c - b'A' + 10)
    else none

pub data HexBytes : Type 0 where
  bytes : List ℕ → HexBytes
  bad_hex_character : HexBytes

-- What the function ends with at a bad character.
abbrev pub bad_hex : Bool → HexBytes
bad_hex throw = if throw then bad_hex_character else bytes []

abbrev pub push_pair : Option ℕ → Option ℕ → List ℕ → Option (List ℕ)
push_pair (some h) (some l) ret = some (ret ++ ((h * 16 + l) % 256) ∷ [])
push_pair (some h) none ret = none
push_pair none l ret = none

-- The loop over the pairs of characters, with the bytes so far; `none` is a bad character.
unfoldable pub from_hex_pairs : List ℕ → List ℕ → Option (List ℕ)
unfolding from_hex_char
from_hex_pairs [] ret = some ret
from_hex_pairs (h ∷ []) ret = none
from_hex_pairs (h ∷ l ∷ rest) ret = elim (push_pair (from_hex_char h) (from_hex_char l) ret) [
  | none ↦ none
  | some ret' ↦ from_hex_pairs rest ret'
]

-- The first character alone, where the length is odd.
abbrev pub from_hex_odd : List ℕ → Option (List ℕ)
from_hex_odd [] = none
from_hex_odd (c ∷ rest) = elim (from_hex_char c) [
  | none ↦ none
  | some h ↦ from_hex_pairs rest (h ∷ [])
]

abbrev pub or_bad : Bool → Option (List ℕ) → HexBytes
or_bad throw none = bad_hex throw
or_bad throw (some bs) = bytes bs

abbrev pub hex_prefix : List ℕ → ℕ
hex_prefix s = if get_or s 0 0 == b'0' && get_or s 1 0 == b'x' then 2 else 0

-- `fromHex` of a string, with whether it throws.
unfoldable pub from_hex : List ℕ → Bool → HexBytes
unfolding from_hex_pairs
from_hex s throw =
    let digits = drop (hex_prefix s) s in
    or_bad throw (if length s % 2 == 1 then from_hex_odd digits else from_hex_pairs digits [])

-- `padLeft`, which is also what `setw` with `setfill` does to a number.
unfoldable pub pad_left : List ℕ → ℕ → ℕ → List ℕ
pad_left value len fill =
    if ltb (length value) len then replicate (len - length value) fill ++ value else value

unfoldable pub pad_right : List ℕ → ℕ → ℕ → List ℕ
pad_right value len fill =
    if ltb (length value) len then value ++ replicate (len - length value) fill else value

abbrev pub hex_char : ℕ → ℕ
hex_char d = if ltb d 10 then b'0' + d else b'a' - 10 + d

-- A number as `std::hex` writes it: the digits with fuel, which the number itself is enough of.
unfoldable pub hex_digits : ℕ → ℕ → List ℕ
hex_digits zero n = hex_char n ∷ []
hex_digits (suc f) n =
    let rest = hex_digits f (n / 16) ++ hex_char (n % 16) ∷ [] in
    if ltb n 16 then hex_char n ∷ [] else rest

abbrev pub add_prefix : Bool → List ℕ → List ℕ
add_prefix add s = if add then b'0' ∷ b'x' ∷ s else s

-- `toHex` of a number, with the least count of digits: 16 for `uint64_t`, 8 for `uint32_t`.
unfoldable pub to_hex : ℕ → Bool → ℕ → List ℕ
unfolding hex_digits pad_left
to_hex n add width = add_prefix add (pad_left (hex_digits n n) width b'0')

unfoldable pub to_compact_hex : ℕ → Bool → List ℕ
unfolding hex_digits
to_compact_hex n add = add_prefix add (hex_digits n n)

-- The bytes of a collection, the first with a width of its own.
unfoldable pub hex_of_bytes : ℕ → List ℕ → List ℕ
unfolding hex_digits pad_left
hex_of_bytes w [] = []
hex_of_bytes w (b ∷ bs) = pad_left (hex_digits b b) w b'0' ++ hex_of_bytes 2 bs

-- `toHex` of a collection of bytes.
unfoldable pub bytes_to_hex : List ℕ → ℕ → Bool → List ℕ
unfolding hex_of_bytes
bytes_to_hex bs w add = add_prefix add (hex_of_bytes w bs)
