-- ===== src/Prelude/Utf8.antt =====
-- `std::str::from_utf8`: which byte lists are UTF-8, by one pass over the bytes.
use Prim.Native.Nat.{ℕ, zero, suc, ◌<◌}
use mathlib.Core.Path.{◌≡◌, refl}
use mathlib.Core.Bool.{Bool, true, false, ◌&&◌, ◌||◌}
use mathlib.Core.List.{[], ◌∷◌}
use native.Mathlib.Omega.{arith}
use clotho.Prelude.Tests.{ltb, leb, ◌==◌, if◌then◌else◌}
use clotho.Prelude.Lists.{All}
use clotho.Prelude.Bytes.{Bytes}

-- What the next byte may be: the start of a character, the next of `left + 1` continuation bytes
-- (in a range), or nothing that would make the text valid.
pub data Utf8 : Type 0 where
  start : Utf8
  continuation : (left lo hi : ℕ) → Utf8
  invalid : Utf8

abbrev first_byte : ℕ → Utf8
first_byte b =
    if ltb b 0x80
    then start
    else if leb 0xC2 b && leb b 0xDF
    then continuation 0 0x80 0xBF
    else if b == 0xE0
    then continuation 1 0xA0 0xBF
    else if leb 0xE1 b && leb b 0xEC || leb 0xEE b && leb b 0xEF
    then continuation 1 0x80 0xBF
    else if b == 0xED
    then continuation 1 0x80 0x9F
    else if b == 0xF0
    then continuation 2 0x90 0xBF
    else if leb 0xF1 b && leb b 0xF3
    then continuation 2 0x80 0xBF
    else if b == 0xF4
    then continuation 2 0x80 0x8F
    else invalid

abbrev after : ℕ → Utf8
after zero = start
after (suc left) = continuation left 0x80 0xBF

abbrev next_byte : Utf8 → ℕ → Utf8
next_byte start b = first_byte b
next_byte (continuation left lo hi) b = if leb lo b && leb b hi then after left else invalid
next_byte invalid b = invalid

abbrev is_start : Utf8 → Bool
is_start start = true
is_start _ = false

utf8_from : Utf8 → Bytes → Bool
utf8_from state [] = is_start state
utf8_from state (b ∷ bs) = utf8_from (next_byte state b) bs

unfoldable pub is_utf8 : Bytes → Bool
unfolding utf8_from
is_utf8 bytes = utf8_from start bytes

abbrev pub IsAscii : Bytes → Type 0
IsAscii = All (λ b. b < 0x80)

pub is_utf8_of_IsAscii : (bytes : Bytes) → IsAscii bytes → is_utf8 bytes ≡ true
unfolding is_utf8
is_utf8_of_IsAscii [] h = refl
is_utf8_of_IsAscii (b ∷ bs) (p, h) = ground (arith, is_utf8_of_IsAscii bs h)
