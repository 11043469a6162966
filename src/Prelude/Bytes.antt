-- ===== src/Prelude/Bytes.antt =====
-- Text as Rust holds it: the list of its UTF-8 bytes.
use Prim.Native.Char.{code}
use Prim.Native.String.{String}
use mathlib.Core.Path.{◌≡◌, refl}
use mathlib.Core.Logic.{◌↔◌}
use mathlib.Core.Bool.{Bool, true, false, ◌&&◌, ◌||◌}
use mathlib.Core.Option.{Option, none, some}
use mathlib.Core.List.{List, [], ◌∷◌, ◌++◌, map}
use Prim.Native.Nat.{ℕ, ◌+◌}
use native.Mathlib.Omega.{arith}
use clotho.Prelude.Tests.{leb, ◌==◌, if◌then◌else◌}

abbrev pub Bytes : Type 0
Bytes = List ℕ

codes : String → Bytes
codes String.[] = []
codes (String.◌∷◌ c s) = code c ∷ codes s

-- The bytes of an ASCII literal of the source.
unfoldable pub lit : String → Bytes
unfolding codes
lit s = codes s

-- `==` of `str`
unfoldable pub beq : Bytes → Bytes → Bool
beq [] [] = true
beq (x ∷ xs) (y ∷ ys) = (x == y) && beq xs ys
beq _ _ = false

pub beq-eq : (xs ys : Bytes) → beq xs ys ≡ true → xs ≡ ys
unfolding beq
beq-eq [] [] h = refl
beq-eq (x ∷ xs) (y ∷ ys) h = ground (arith, beq-eq xs ys)
beq-eq [] (y ∷ ys) h = cc
beq-eq (x ∷ xs) [] h = cc

pub beq_refl : (xs : Bytes) → beq xs xs ≡ true
unfolding beq
beq_refl [] = refl
beq_refl (x ∷ xs) = ground (arith, beq_refl xs)

pub beq_iff : (xs ys : Bytes) → (beq xs ys ≡ true) ↔ (xs ≡ ys)
beq_iff xs ys = (beq-eq xs ys, λ e. rw e (beq_refl ys))

abbrev pub is_empty : Bytes → Bool
is_empty [] = true
is_empty (x ∷ xs) = false

-- `str::strip_prefix`
unfoldable pub strip_prefix : Bytes → Bytes → Option Bytes
strip_prefix [] text = some text
strip_prefix (p ∷ ps) [] = none
strip_prefix (p ∷ ps) (c ∷ cs) = if p == c then strip_prefix ps cs else none

pub strip_prefix-append : (p text : Bytes) → strip_prefix p (p ++ text) ≡ some text
unfolding strip_prefix
strip_prefix-append [] text = refl
strip_prefix-append (x ∷ p) text = ground (arith, strip_prefix-append p text)

abbrev pub is_digit : ℕ → Bool
is_digit c = leb b'0' c && leb c b'9'

abbrev pub is_lower : ℕ → Bool
is_lower c = leb b'a' c && leb c b'z'

abbrev pub is_upper : ℕ → Bool
is_upper c = leb b'A' c && leb c b'Z'

-- `u8::is_ascii_alphanumeric`
abbrev pub is_alphanumeric : ℕ → Bool
is_alphanumeric c = is_digit c || is_lower c || is_upper c

-- `u8::is_ascii_hexdigit`
abbrev pub is_hexdigit : ℕ → Bool
is_hexdigit c = is_digit c || leb b'a' c && leb c b'f' || leb b'A' c && leb c b'F'

-- `u8::to_ascii_lowercase`, and `str::to_ascii_lowercase`
unfoldable pub lower_byte : ℕ → ℕ
lower_byte c = if is_upper c then c + 32 else c

unfoldable pub to_ascii_lowercase : Bytes → Bytes
to_ascii_lowercase = map lower_byte

-- `str::eq_ignore_ascii_case`
unfoldable pub eq_ignore_ascii_case : Bytes → Bytes → Bool
eq_ignore_ascii_case a b = beq (to_ascii_lowercase a) (to_ascii_lowercase b)

-- To unfold the text functions together.
unfoldable pub text_code : Unit {0}
unfolding lit beq strip_prefix lower_byte to_ascii_lowercase eq_ignore_ascii_case
text_code = tt

-- `str::contains` of an ASCII character
unfoldable pub contains_byte : ℕ → Bytes → Bool
contains_byte c [] = false
contains_byte c (x ∷ xs) = (x == c) || contains_byte c xs

abbrev after_first : ℕ → Option (Bytes × Bytes) → Option (Bytes × Bytes)
after_first x none = none
after_first x (some (before, after)) = some (x ∷ before, after)

-- `str::split_once` at an ASCII character
unfoldable pub split_once : ℕ → Bytes → Option (Bytes × Bytes)
split_once c [] = none
split_once c (x ∷ xs) = if x == c then some ([], xs) else after_first x (split_once c xs)

-- At the first occurrence.
pub split_once-append :
    (c : ℕ) (xs ys : Bytes)
    → contains_byte c xs ≡ false
    → split_once c (xs ++ c ∷ ys) ≡ some (xs, ys)
unfolding split_once contains_byte
split_once-append c [] ys h = ground arith
split_once-append c (x ∷ xs) ys h = ground (arith, split_once-append c xs ys)

pub contains_byte-append :
    (c : ℕ) (xs ys : Bytes)
    → contains_byte c (xs ++ ys) ≡ (contains_byte c xs || contains_byte c ys)
unfolding contains_byte
contains_byte-append c [] ys = refl
contains_byte-append c (x ∷ xs) ys = ground (arith, contains_byte-append c xs ys)
