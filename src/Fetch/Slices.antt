-- ===== src/Fetch/Slices.antt =====
-- `take` and `drop`: how the blocks of a file fit together.
use rufs.Base.{
  ℕ, zero, suc, ◌+◌, ◌-◌, ◌≤◌, ◌≡◌, refl, sym, ap, List, [], ◌∷◌, ◌++◌, length, take, drop, arith,
}
use Prim.Native.Nat.{min}

module _ {ℓ} {A : Type ℓ} where
  pub take-append-drop : (n : ℕ) (xs : List A) → take n xs ++ drop n xs ≡ xs
  take-append-drop zero xs = refl
  take-append-drop (suc n) [] = refl
  take-append-drop (suc n) (x ∷ xs) = ap (◌∷◌ x) (take-append-drop n xs)

  pub take-nil : (n : ℕ) → ◌≡◌ {A = List A} (take n []) []
  take-nil zero = refl
  take-nil (suc n) = refl

  drop-nil : (n : ℕ) → ◌≡◌ {A = List A} (drop n []) []
  drop-nil zero = refl
  drop-nil (suc n) = refl

  -- The first `a + b` items, cut after the first `a`. The sum is a variable with an equation.
  pub take_sum : (a b c : ℕ) (xs : List A) → c ≡ a + b → take c xs ≡ take a xs ++ take b (drop a xs)
  take_sum zero b c xs e = ap (λ n. take n xs) (omega arith)
  take_sum (suc a) b zero xs e = absurd (omega arith)
  take_sum (suc a) b (suc c) [] e = sym (take-nil b)
  take_sum (suc a) b (suc c) (x ∷ xs) e = ap (◌∷◌ x) (take_sum a b c xs (omega arith))

  pub drop_sum : (a b c : ℕ) (xs : List A) → c ≡ a + b → drop c xs ≡ drop b (drop a xs)
  drop_sum zero b c xs e = ap (λ n. drop n xs) (omega arith)
  drop_sum (suc a) b zero xs e = absurd (omega arith)
  drop_sum (suc a) b (suc c) [] e = sym (drop-nil b)
  drop_sum (suc a) b (suc c) (x ∷ xs) e = drop_sum a b c xs (omega arith)

  pub length-take : (n : ℕ) (xs : List A) → length (take n xs) ≡ min n (length xs)
  length-take zero xs = omega arith
  length-take (suc n) [] = omega arith
  length-take (suc n) (x ∷ xs) = omega (arith, length-take n xs)

  pub length-drop : (n : ℕ) (xs : List A) → length (drop n xs) ≡ length xs - n
  length-drop zero xs = omega arith
  length-drop (suc n) [] = omega arith
  length-drop (suc n) (x ∷ xs) = omega (arith, length-drop n xs)

  pub take_of_length-le : (n : ℕ) (xs : List A) → length xs ≤ n → take n xs ≡ xs
  take_of_length-le (suc n) [] short = refl
  take_of_length-le (suc n) (x ∷ xs) short = ap (◌∷◌ x) (take_of_length-le n xs (omega arith))
  take_of_length-le zero [] short = refl
  take_of_length-le zero (x ∷ xs) short = absurd (omega arith)

  pub take-take_le : (a b : ℕ) (xs : List A) → a ≤ b → take a (take b xs) ≡ take a xs
  take-take_le zero b xs h = refl
  take-take_le (suc a) zero xs h = absurd (omega arith)
  take-take_le (suc a) (suc b) [] h = refl
  take-take_le (suc a) (suc b) (x ∷ xs) h = ap (◌∷◌ x) (take-take_le a b xs (omega arith))

  pub drop-append_le :
      (n : ℕ) (xs ys : List A) → n ≤ length xs → drop n (xs ++ ys) ≡ drop n xs ++ ys
  drop-append_le zero xs ys h = refl
  drop-append_le (suc n) [] ys h = absurd (omega arith)
  drop-append_le (suc n) (x ∷ xs) ys h = drop-append_le n xs ys (omega arith)

  -- What is left of the first `a + b` items after the first `a`.
  pub drop-take_sum :
      (a b c : ℕ) (xs : List A) → c ≡ a + b → drop a (take c xs) ≡ take b (drop a xs)
  drop-take_sum zero b c xs e = ap (λ n. take n xs) (omega arith)
  drop-take_sum (suc a) b zero xs e = absurd (omega arith)
  drop-take_sum (suc a) b (suc c) [] e = sym (take-nil b)
  drop-take_sum (suc a) b (suc c) (x ∷ xs) e = drop-take_sum a b c xs (omega arith)
