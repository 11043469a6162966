-- ===== src/Prelude/Lists.antt =====
-- Lists measured and cut by native numbers, under the library's names.
use Prim.Native.Nat.{ℕ, zero, suc, ◌+◌, ◌-◌, ◌≤◌, min}
use mathlib.Core.Path.{◌≡◌, refl, ap, sym, ◌∙◌}
use mathlib.Core.Bool.{Bool, true, ◌&&◌}
use mathlib.Core.List.{List, [], ◌∷◌, ◌++◌, append_assoc}
use native.Mathlib.Omega.{arith}

module _ {ℓ} {A : Type ℓ} where
  abbrev pub length : List A → ℕ
  length [] = 0
  length (x ∷ xs) = suc (length xs)

  abbrev pub take : ℕ → List A → List A
  take zero xs = []
  take (suc n) [] = []
  take (suc n) (x ∷ xs) = x ∷ take n xs

  abbrev pub drop : ℕ → List A → List A
  drop zero xs = xs
  drop (suc n) [] = []
  drop (suc n) (x ∷ xs) = drop n xs

  abbrev pub concat : List (List A) → List A
  concat [] = []
  concat (xs ∷ xss) = xs ++ concat xss

  -- `Iterator::all`.
  abbrev pub all : (A → Bool) → List A → Bool
  all p [] = true
  all p (x ∷ xs) = p x && all p xs

module _ {ℓ κ} {A : Type ℓ} where
  -- A predicate holds of every entry.
  abbrev pub All : (A → Type κ) → List A → Type κ
  All P [] = Unit
  All P (x ∷ xs) = P x × All P xs

  pub All-append : (P : A → Type κ) (xs ys : List A) → All P xs → All P ys → All P (xs ++ ys)
  All-append P [] ys h k = k
  All-append P (x ∷ xs) ys (p, h) k = (p, All-append P xs ys h k)

  pub All-mono : (P Q : A → Type κ) (xs : List A) → ((x : A) → P x → Q x) → All P xs → All Q xs
  All-mono P Q [] f h = tt
  All-mono P Q (x ∷ xs) f (p, h) = (f x p, All-mono P Q xs f h)

zero_add : (n : ℕ) → zero + n ≡ n
zero_add n = omega arith

suc_add : (m n : ℕ) → suc (m + n) ≡ suc m + n
suc_add m n = omega arith

sub_of_le : (m n : ℕ) → m ≤ n → m - n ≡ zero
sub_of_le m n h = omega arith

zero_sub : (n : ℕ) → zero - suc n ≡ zero
zero_sub n = omega arith

sub_zero : (m : ℕ) → m - zero ≡ m
sub_zero m = omega arith

sub_suc : (m n : ℕ) → suc m - suc n ≡ m - n
sub_suc m n = omega arith

left_over : (from to n : ℕ) → to - from - (n - from) ≡ to - n - (from - n)
left_over from to n = omega arith

module _ {ℓ} {A : Type ℓ} where
  pub length-append : (xs ys : List A) → length (xs ++ ys) ≡ length xs + length ys
  length-append [] ys = omega arith
  length-append (x ∷ xs) ys = omega (arith, length-append xs ys)

  pub take-append-drop : (n : ℕ) (xs : List A) → take n xs ++ drop n xs ≡ xs
  take-append-drop zero xs = refl
  take-append-drop (suc n) [] = refl
  take-append-drop (suc n) (x ∷ xs) = rw (take-append-drop n xs)

  pub length-take : (n : ℕ) (xs : List A) → length (take n xs) ≡ min n (length xs)
  length-take zero xs = omega arith
  length-take (suc n) [] = omega arith
  length-take (suc n) (x ∷ xs) = omega (arith, length-take n xs)

  pub length-drop : (n : ℕ) (xs : List A) → length (drop n xs) ≡ length xs - n
  length-drop zero xs = omega arith
  length-drop (suc n) [] = omega arith
  length-drop (suc n) (x ∷ xs) = omega (arith, length-drop n xs)

  pub take_of_le : (n : ℕ) (xs : List A) → length xs ≤ n → take n xs ≡ xs
  take_of_le zero [] h = refl
  take_of_le zero (x ∷ xs) h = absurd (omega arith)
  take_of_le (suc n) [] h = refl
  take_of_le (suc n) (x ∷ xs) h = ap (λ ys. x ∷ ys) (take_of_le n xs (omega arith))

  pub drop_of_le : (n : ℕ) (xs : List A) → length xs ≤ n → drop n xs ≡ []
  drop_of_le zero [] h = refl
  drop_of_le zero (x ∷ xs) h = absurd (omega arith)
  drop_of_le (suc n) [] h = refl
  drop_of_le (suc n) (x ∷ xs) h = drop_of_le n xs (omega arith)

  pub take-append :
      (n : ℕ) (xs ys : List A) → take n (xs ++ ys) ≡ take n xs ++ take (n - length xs) ys
  take-append zero [] ys = refl
  take-append (suc n) [] ys = rw (sub_zero (suc n))
  take-append zero (x ∷ xs) ys = rw (zero_sub (length xs))
  take-append (suc n) (x ∷ xs) ys =
      rw (sub_suc n (length xs)) (ap (λ zs. x ∷ zs) (take-append n xs ys))

  pub drop-append :
      (n : ℕ) (xs ys : List A) → drop n (xs ++ ys) ≡ drop n xs ++ drop (n - length xs) ys
  drop-append zero [] ys = refl
  drop-append (suc n) [] ys = rw (sub_zero (suc n))
  drop-append zero (x ∷ xs) ys = rw (zero_sub (length xs))
  drop-append (suc n) (x ∷ xs) ys = rw (sub_suc n (length xs)) (drop-append n xs ys)

  -- `data[from..to]`, for `from ≤ to ≤ data.len()`.
  abbrev pub slice : ℕ → ℕ → List A → List A
  slice from to xs = take (to - from) (drop from xs)

  -- A slice of two lists is the slice of the first and what is left of the second.
  pub slice-append :
      (from to : ℕ) (xs ys : List A)
      → slice from to (xs ++ ys) ≡ slice from to xs ++ slice (from - length xs) (to - length xs) ys
  slice-append from to xs ys =
      rw drop-append
        (rw take-append (rw (length-drop from xs) (rw (left_over from to (length xs)))))

  pub drop-drop : (m n : ℕ) (xs : List A) → drop n (drop m xs) ≡ drop (m + n) xs
  drop-drop zero n xs = rw (zero_add n)
  drop-drop (suc m) n [] =
      drop_of_le n [] (omega arith) ∙ sym (drop_of_le (suc m + n) [] (omega arith))
  drop-drop (suc m) n (x ∷ xs) = drop-drop m n xs ∙ ap (λ k. drop k (x ∷ xs)) (suc_add m n)

  pub slice_before : (from to : ℕ) (xs : List A) → length xs ≤ from → slice from to xs ≡ []
  slice_before from to xs h = rw (drop_of_le from xs h) (take_of_le (to - from) [] (omega arith))

  pub slice_empty : (from to : ℕ) (xs : List A) → to ≤ from → slice from to xs ≡ []
  slice_empty from to xs h = rw (sub_of_le to from h)

  pub slice_past_end :
      (from to : ℕ) (xs : List A) → length xs ≤ to → slice from to xs ≡ slice from (length xs) xs
  slice_past_end from to xs h =
      take_of_le (to - from) (drop from xs) (omega (arith, length-drop from xs))
      ∙ sym (take_of_le (length xs - from) (drop from xs) (omega (arith, length-drop from xs)))

  pub concat-append : (xss yss : List (List A)) → concat (xss ++ yss) ≡ concat xss ++ concat yss
  concat-append [] yss = refl
  concat-append (xs ∷ xss) yss =
      ap (λ zs. xs ++ zs) (concat-append xss yss) ∙ sym (append_assoc xs (concat xss) (concat yss))
