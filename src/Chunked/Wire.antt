-- ===== src/Chunked/Wire.antt =====
-- The chunked format (RFC 7230, section 4.1), as src/chunked reads and writes it: sizes in
-- hexadecimal, and the relation between the bytes on the wire and the payload.
pub mod Hex
use async_h.Base.{
  ℕ, zero, suc, ◌+◌, ◌-◌, ◌*◌, ◌/◌, ◌%◌, ◌≤◌, ◌<◌, ◌≡◌, List, [], ◌∷◌, ◌++◌, ◌&&◌, Option, none,
  some, ltb, leb, if◌then◌else◌, length,
}
use async_h.Base.Bytes.{Bytes}

abbrev pub u64_max : ℕ
u64_max = 18446744073709551615

abbrev pub cr : ℕ
cr = b'\r'

abbrev pub lf : ℕ
lf = b'\n'

-- The arms of `match byte` for hexadecimal digits.
unfoldable pub hex_digit : ℕ → Option ℕ
hex_digit byte =
    if leb b'0' byte && leb byte b'9'
    then some (byte - b'0')
    else if leb b'a' byte && leb byte b'f'
    then some (10 + byte - b'a')
    else if leb b'A' byte && leb byte b'F'
    then some (10 + byte - b'A')
    else none

-- A size with one more digit, if it stays in 64 bits.
unfoldable pub push_digit : ℕ → ℕ → Option ℕ
push_digit size byte = elim (hex_digit byte) [
  | none ↦ none
  | some v ↦ if ltb u64_max (size * 16 + v) then none else some (size * 16 + v)
]

-- The size that digits spell behind those already read.
unfoldable pub size_value : ℕ → Bytes → Option ℕ
size_value size [] = some size
size_value size (c ∷ s) = elim (push_digit size c) [ none ↦ none | some size' ↦ size_value size' s ]

-- `{:X}`: upper-case digits, with no leading zeros.
abbrev pub upper_digit : ℕ → ℕ
upper_digit v = if ltb v 10 then b'0' + v else b'A' + (v - 10)

unfoldable pub hex_digits : ℕ → ℕ → Bytes
hex_digits zero n = []
hex_digits (suc fuel) n =
    let more = hex_digits fuel (n / 16) ++ upper_digit (n % 16) ∷ [] in
    if ltb n 16 then upper_digit n ∷ [] else more

-- Sixteen digits hold every `usize`.
unfoldable pub to_hex : ℕ → Bytes
unfolding hex_digits
to_hex n = hex_digits 16 n

-- What follows a size: the last chunk with the trailer part, or data and more chunks. The trailer
-- part is whatever the caller accepts as one.
mutual
  pub data AfterSize (IsTrailer : Bytes → Type 0) : ℕ → Bytes → Bytes → Type 0 where
    last :
        {size : ℕ} {wire payload : Bytes}
        → size ≡ 0
        → payload ≡ []
        → IsTrailer wire
        → AfterSize IsTrailer size wire payload
    chunk :
        {size : ℕ} {wire payload : Bytes} (bytes wire' payload' : Bytes)
        → length bytes ≡ size
        → 0 < size
        → wire ≡ bytes ++ (cr ∷ lf ∷ wire')
        → payload ≡ bytes ++ payload'
        → IsChunked IsTrailer wire' payload'
        → AfterSize IsTrailer size wire payload

  -- `wire` is a chunked message with the given payload. The decoder accepts a size of no digits,
  -- which is zero, and the format has it, too.
  pub data IsChunked (IsTrailer : Bytes → Type 0) : Bytes → Bytes → Type 0 where
    sized :
        {wire payload : Bytes} (digits wire' : Bytes) (size : ℕ)
        → size_value 0 digits ≡ some size
        → wire ≡ digits ++ (cr ∷ lf ∷ wire')
        → AfterSize IsTrailer size wire' payload
        → IsChunked IsTrailer wire payload
