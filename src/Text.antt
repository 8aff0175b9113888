-- ===== src/Text.antt =====
-- What the sources use of Go's `unicode/utf8`, `unicode` and `strings`: UTF-8 validity of a string,
-- the runes that `range` visits, and the white-space and control classes.
use harness_security_gateway.Prelude.{
  ℕ, ◌+◌, ◌-◌, ◌*◌, Bool, true, false, ◌&&◌, ◌||◌, List, [], ◌∷◌, ltb, leb, ◌==◌, if◌then◌else◌,
}
use harness_security_gateway.Prelude.Bytes.{Bytes}

-- A decoder that reads one byte at a time: how many continuation bytes are due, the range of the
-- next one, the bits so far, and the runes read, the last one first.
record Decoder : Type 0 where
  need : ℕ
  low : ℕ
  high : ℕ
  bits : ℕ
  runes : List ℕ
  valid : Bool

abbrev within : ℕ → ℕ → ℕ → Bool
within low high b = leb low b && leb b high

expect : Decoder → ℕ → ℕ → ℕ → ℕ → Decoder
expect d need low high bits = record d { need = need; low = low; high = high; bits = bits }

-- The first byte of a rune; the bounds of the second byte rule out overlong forms, surrogates and
-- what lies above U+10FFFF.
lead : Decoder → ℕ → Decoder
unfolding expect
lead d b =
    if ltb b 0x80
    then record d { runes = b ∷ d.runes }
    else if within 0xC2 0xDF b
    then expect d 1 0x80 0xBF (b - 0xC0)
    else if within 0xE0 0xEF b
    then expect d 2 (if b == 0xE0 then 0xA0 else 0x80) (if b == 0xED then 0x9F else 0xBF) (b - 0xE0)
    else if within 0xF0 0xF4 b
    then expect d 3 (if b == 0xF0 then 0x90 else 0x80) (if b == 0xF4 then 0x8F else 0xBF) (b - 0xF0)
    else record d { valid = false }

continuation : Decoder → ℕ → Decoder
unfolding expect
continuation d b =
    let bits = d.bits * 64 + (b - 0x80) in
    if within d.low d.high b
    then (if d.need == 1
        then record d { need = 0; runes = bits ∷ d.runes }
        else expect d (d.need - 1) 0x80 0xBF bits)
    else record d { valid = false }

feed : Decoder → ℕ → Decoder
unfolding lead continuation
feed d b = if d.need == 0 then lead d b else continuation d b

decode_from : Decoder → Bytes → Decoder
unfolding feed
decode_from d [] = d
decode_from d (b ∷ s) = decode_from (feed d b) s

abbrev start : Decoder
start = record { need = 0; low = 0; high = 0; bits = 0; runes = []; valid = true }

-- utf8.ValidString
unfoldable pub valid_utf8 : Bytes → Bool
unfolding decode_from
valid_utf8 s = let d = decode_from start s in d.valid && d.need == 0

-- The runes of a valid string, the last one first.
unfoldable pub runes_of : Bytes → List ℕ
unfolding decode_from
runes_of s = (decode_from start s).runes

-- unicode.IsSpace
unfoldable pub is_space : ℕ → Bool
is_space r =
    within 0x09 0x0D r
    || r == 0x20
    || r == 0x85
    || r == 0xA0
    || r == 0x1680
    || within 0x2000 0x200A r
    || r == 0x2028
    || r == 0x2029
    || r == 0x202F
    || r == 0x205F
    || r == 0x3000

-- unicode.IsControl
unfoldable pub is_control : ℕ → Bool
is_control r = ltb r 0x20 || within 0x7F 0x9F r

unfoldable pub any_of : (ℕ → Bool) → List ℕ → Bool
any_of p [] = false
any_of p (x ∷ xs) = p x || any_of p xs

unfoldable pub all_of : (ℕ → Bool) → List ℕ → Bool
all_of p [] = true
all_of p (x ∷ xs) = p x && all_of p xs

-- Whether `strings.TrimSpace` of a valid string is empty.
unfoldable pub is_blank : Bytes → Bool
unfolding runes_of is_space all_of
is_blank s = all_of is_space (runes_of s)

-- Lower-case hexadecimal digits, and letters and digits of ASCII.
unfoldable pub is_lower_hex : ℕ → Bool
is_lower_hex c = within b'0' b'9' c || within b'a' b'f' c

unfoldable pub is_ascii_alphanumeric : ℕ → Bool
is_ascii_alphanumeric c = within b'a' b'z' c || within b'A' b'Z' c || within b'0' b'9' c
