-- ===== src/Fixtures/Hex.antt =====
-- crates/shell-fixtures/src/lib.rs: the texts of a fixture. A text is its bytes; a panic, whatever its
-- message, is one error.
use shell_chain_specs.Common.{
  ℕ, ◌+◌, ◌-◌, ◌*◌, ◌==◌, ◌&&◌, leb, Bool, Option, none, some, List, [], ◌∷◌, Bytes, length, take,
  drop, bytes_eq, if◌then◌else◌, Result, ok, err, ◌>>=◌, ok_or,
}

pub data Panic : Type 0 where
  panicked : Panic

abbrev pub Text : Type 0
Text = Bytes

-- `assert!`
abbrev pub check : Bool → Result (Unit {0}) Panic
check condition = if condition then ok tt else err panicked

abbrev pub traverse {ℓ κ} :
    {A : Type ℓ} {B : Type κ} → (A → Result B Panic) → List A → Result (List B) Panic
traverse f [] = ok []
traverse f (x ∷ xs) = do y ← f x; ys ← traverse f xs; ok (y ∷ ys)

-- `char::to_digit(16)`
unfoldable pub hex_digit : ℕ → Option ℕ
hex_digit c =
    if leb 48 c && leb c 57
    then some (c - 48)
    else if leb 97 c && leb c 102
    then some (c - 87)
    else if leb 65 c && leb c 70
    then some (c - 55)
    else none

-- `u8::from_str_radix(text, 16)` on two characters: two digits, or a plus sign and one.
unfoldable pub hex_byte : ℕ → ℕ → Option ℕ
unfolding hex_digit
hex_byte first second =
    let pair : Option ℕ = elim (hex_digit first) [
      | none ↦ none
      | some high ↦ elim (hex_digit second) [ none ↦ none | some low ↦ some (high * 16 + low) ]
    ] in
    if first == 43 then hex_digit second else pair

-- The bytes of pairs of digits; a digit that is left over fails the assertion on the length.
unfoldable pub hex_pairs : Text → Result Bytes Panic
unfolding hex_byte
hex_pairs [] = ok []
hex_pairs (digit ∷ []) = err panicked
hex_pairs (first ∷ second ∷ digits) = do
  byte ← ok_or (hex_byte first second) panicked
  bytes ← hex_pairs digits
  ok (byte ∷ bytes)

-- The text starts with the bytes of "0x".
unfoldable pub parse_hex : Text → Result Bytes Panic
unfolding hex_pairs
parse_hex value =
    let digits = hex_pairs (drop 2 value) in
    if bytes_eq (take 2 value) (48 ∷ 120 ∷ []) then digits else err panicked

-- `try_into` an array.
unfoldable pub parse_array : ℕ → Text → Result Bytes Panic
unfolding parse_hex
parse_array size value = do bytes ← parse_hex value; _ ← check (length bytes == size); ok bytes

abbrev pub parse_root : Text → Result Bytes Panic
parse_root value = parse_array 32 value

abbrev pub parse_address : Text → Result Bytes Panic
parse_address value = parse_array 20 value

abbrev pub parse_bytes_32 : Text → Result Bytes Panic
parse_bytes_32 value = parse_array 32 value

abbrev pub parse_bytes_31 : Text → Result Bytes Panic
parse_bytes_31 value = parse_array 31 value
