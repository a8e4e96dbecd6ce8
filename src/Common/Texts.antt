-- ===== src/Common/Texts.antt =====
-- What the program uses of Go's standard library on texts.
use Prim.Native.String.{String, [] as no_text, ◌∷◌ as char_then}
use Prim.Native.Nat.{ℕ, ◌+◌, ◌-◌, ◌*◌, ◌^◌}
use Prim.Native.Char.{code}
use mathlib.Core.Bool.{Bool, true, ◌&&◌, ◌||◌}
use package.go_graphics.Common.Tests.{leb, ltb, if◌then◌else◌}

abbrev pub is_hex_digit : ℕ → Bool
is_hex_digit c = (leb 48 c && leb c 57) || ((leb 97 c && leb c 102) || (leb 65 c && leb c 70))

-- `hex.DecodeString` accepts a text of even length.
unfoldable pub is_hex : String → Bool
is_hex no_text = true
is_hex (char_then c s) = is_hex_digit (code c) && is_hex s

abbrev utf8_width : ℕ → ℕ
utf8_width c = if ltb c 128 then 1 else if ltb c 2048 then 2 else if ltb c 65536 then 3 else 4

-- Go's `len` of a string: its bytes.
unfoldable pub byte_len : String → ℕ
byte_len no_text = 0
byte_len (char_then c s) = utf8_width (code c) + byte_len s

parse_from : ℕ → String → ℕ
parse_from n no_text = n
parse_from n (char_then c s) =
    let next = n * 10 + (code c - 48) in
    let rest = parse_from next s in
    if leb 48 (code c) && leb (code c) 57
    then (if leb (2 ^ 64) next then 2 ^ 64 - 1 else rest)
    else 0

-- The number that `strconv.ParseUint(s, 10, 64)` returns, its error dropped.
unfoldable pub parse_uint : String → ℕ
unfolding parse_from
parse_uint s = parse_from 0 s
