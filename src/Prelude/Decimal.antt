-- ===== src/Prelude/Decimal.antt =====
-- Decimal numbers: `format!("{n}")` of a u64, and `str::parse::<u64>`.
use Prim.Native.Nat.{ℕ, zero, suc, ◌+◌, ◌-◌, ◌*◌, ◌/◌, ◌%◌, ◌^◌, ◌<◌, ◌≤◌}
use mathlib.Core.Path.{◌≡◌, refl, ◌∙◌}
use mathlib.Core.Logic.{◌≢◌, inl, inr}
use mathlib.Core.Bool.{◌&&◌}
use mathlib.Core.Option.{Option, none, some}
use mathlib.Core.List.{[], ◌∷◌, ◌++◌}
use native.Mathlib.Omega.{arith}
use clotho.Prelude.Tests.{ltb, ◌==◌, if◌then◌else◌, Bool-cases, ltb→lt}
use clotho.Prelude.Lists.{All, All-append}
use clotho.Prelude.Bytes.{Bytes, is_digit}

abbrev pub u64_mod : ℕ
u64_mod = 2 ^ 64

-- The digits of a number below 10 ^ fuel.
unfoldable pub show_digits : ℕ → ℕ → Bytes
show_digits zero n = []
show_digits (suc fuel) n =
    let more = show_digits fuel (n / 10) ++ (b'0' + n % 10) ∷ [] in
    if ltb n 10 then (b'0' + n) ∷ [] else more

-- Twenty digits hold every u64.
unfoldable pub show_u64 : ℕ → Bytes
show_u64 n = show_digits 20 n

-- One digit more; `none` on another byte and on overflow.
abbrev push_digit : ℕ → ℕ → Option ℕ
push_digit n c =
    if is_digit c && ltb (n * 10 + (c - b'0')) u64_mod then some (n * 10 + (c - b'0')) else none

infixl 5 ◌>>=◌
abbrev ◌>>=◌ : Option ℕ → (ℕ → Option ℕ) → Option ℕ
none >>= f = none
some n >>= f = f n

parse_digits : ℕ → Bytes → Option ℕ
parse_digits n [] = some n
parse_digits n (c ∷ cs) = push_digit n c >>= λ m. parse_digits m cs

-- A leading "+" is allowed, an empty number is not.
unfoldable pub parse_u64 : Bytes → Option ℕ
unfolding parse_digits
parse_u64 [] = none
parse_u64 (c ∷ []) = parse_digits 0 (c ∷ [])
parse_u64 (c ∷ d ∷ cs) = if c == b'+' then parse_digits 0 (d ∷ cs) else parse_digits 0 (c ∷ d ∷ cs)

parse_digits-append :
    (n : ℕ) (xs ys : Bytes)
    → parse_digits n (xs ++ ys) ≡ (parse_digits n xs >>= λ m. parse_digits m ys)
unfolding parse_digits
parse_digits-append n [] ys = refl
parse_digits-append n (c ∷ xs) ys = ground (arith, parse_digits-append (n * 10 + (c - b'0')) xs ys)

parse_digits-lt :
    (n : ℕ) (xs : Bytes) {m : ℕ} → n < u64_mod → parse_digits n xs ≡ some m → m < u64_mod
unfolding parse_digits
parse_digits-lt n [] h e = ground arith
parse_digits-lt n (c ∷ xs) {m} h e =
    ground (arith, parse_digits-lt (n * 10 + (c - b'0')) xs {m = m})

-- What is parsed fits in 64 bits.
pub parse_u64-lt : (text : Bytes) {n : ℕ} → parse_u64 text ≡ some n → n < u64_mod
unfolding parse_u64
parse_u64-lt [] e = cc
parse_u64-lt (c ∷ []) e = parse_digits-lt 0 (c ∷ []) (omega arith) e
parse_u64-lt (c ∷ d ∷ cs) {n} e =
    ground (arith, parse_digits-lt 0 (d ∷ cs) {m = n}, parse_digits-lt 0 (c ∷ d ∷ cs) {m = n})

pow10 : ℕ → ℕ
pow10 zero = 1
pow10 (suc k) = 10 * pow10 k

parse_digits-show_digits :
    (fuel n : ℕ)
    → n < u64_mod
    → n < pow10 (suc fuel)
    → parse_digits 0 (show_digits (suc fuel) n) ≡ some n
unfolding parse_digits show_digits pow10
parse_digits-show_digits zero n h k = ground arith
parse_digits-show_digits (suc fuel) n h k = elim (Bool-cases (ltb n 10)) [
  | inl small ↦ rw small (ground arith)
  | inr big ↦ rw big (
      rw (parse_digits-append 0 (show_digits (suc fuel) (n / 10)) ((b'0' + n % 10) ∷ []))
        (rw (parse_digits-show_digits fuel (n / 10) (omega arith) (omega arith)) (ground arith)))
]

abbrev pub IsDigits : Bytes → Type 0
IsDigits = All (λ c. (b'0' ≤ c) × (c ≤ b'9'))

show_digits-IsDigits : (fuel n : ℕ) → IsDigits (show_digits fuel n)
unfolding show_digits
show_digits-IsDigits zero n = tt
show_digits-IsDigits (suc fuel) n = elim (Bool-cases (ltb n 10)) [
  | inl small ↦ rw small ((omega arith, omega (arith, ltb→lt n 10 small)), tt)
  | inr big ↦ rw big (
      All-append _ (show_digits fuel (n / 10)) ((b'0' + n % 10) ∷ [])
        (show_digits-IsDigits fuel (n / 10)) ((omega arith, omega arith), tt))
]

-- A printed number consists of digits.
pub show_u64-IsDigits : (n : ℕ) → IsDigits (show_u64 n)
unfolding show_u64
show_u64-IsDigits n = show_digits-IsDigits 20 n

parse_u64_of_digits :
    (text : Bytes) → IsDigits text → text ≢ [] → parse_u64 text ≡ parse_digits 0 text
unfolding parse_u64
parse_u64_of_digits [] h e = absurd (e refl)
parse_u64_of_digits (c ∷ []) h e = refl
parse_u64_of_digits (c ∷ d ∷ cs) (p, h) e = ground arith

append-ne-nil : (xs : Bytes) (c : ℕ) → xs ++ c ∷ [] ≢ []
append-ne-nil [] c e = cc
append-ne-nil (x ∷ xs) c e = cc

show_digits-ne-nil : (fuel n : ℕ) → show_digits (suc fuel) n ≢ []
unfolding show_digits
show_digits-ne-nil fuel n e = elim (Bool-cases (ltb n 10)) [
  | inl small ↦ cc (rw small at e)
  | inr big ↦ append-ne-nil (show_digits fuel (n / 10)) _ (rw big at e)
]

u64-lt-pow10 : (n : ℕ) → n < u64_mod → n < pow10 20
unfolding pow10
u64-lt-pow10 n h = omega arith

-- Printing a u64 and parsing it again.
pub parse_u64-show_u64 : (n : ℕ) → n < u64_mod → parse_u64 (show_u64 n) ≡ some n
unfolding show_u64
parse_u64-show_u64 n h =
    parse_u64_of_digits (show_digits 20 n) (show_digits-IsDigits 20 n) (show_digits-ne-nil 19 n)
    ∙ parse_digits-show_digits 19 n h (u64-lt-pow10 n h)

-- A printed number is not empty.
pub show_u64-ne-nil : (n : ℕ) → show_u64 n ≢ []
unfolding show_u64
show_u64-ne-nil n = show_digits-ne-nil 19 n
