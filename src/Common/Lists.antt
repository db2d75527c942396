-- ===== src/Common/Lists.antt =====
-- Lists measured and indexed by native numbers, under the library's names.
use Prim.Native.Nat.{ℕ, zero, suc, ◌+◌, ◌<◌, ◌≤◌}
use mathlib.Core.Path.{◌≡◌, refl, ap, sym, ◌∙◌}
use mathlib.Core.List.{List, [], ◌∷◌, ◌++◌}
use mathlib.Core.Option.{Option, none, some}
use native.Mathlib.Omega.{arith}

module _ {ℓ} {A : Type ℓ} where
  abbrev pub length : List A → ℕ
  length [] = 0
  length (x ∷ xs) = suc (length xs)

  abbrev pub get_elem? : List A → ℕ → Option A
  get_elem? [] i = none
  get_elem? (x ∷ xs) zero = some x
  get_elem? (x ∷ xs) (suc i) = get_elem? xs i

  abbrev pub take : ℕ → List A → List A
  take zero xs = []
  take (suc n) [] = []
  take (suc n) (x ∷ xs) = x ∷ take n xs

  abbrev pub drop : ℕ → List A → List A
  drop zero xs = xs
  drop (suc n) [] = []
  drop (suc n) (x ∷ xs) = drop n xs

  abbrev pub replicate : ℕ → A → List A
  replicate zero a = []
  replicate (suc n) a = a ∷ replicate n a

  pub length-append : (xs ys : List A) → length (xs ++ ys) ≡ length xs + length ys
  length-append [] ys = omega arith
  length-append (x ∷ xs) ys = omega (arith, length-append xs ys)

  pub length-replicate : (n : ℕ) (a : A) → length (replicate n a) ≡ n
  length-replicate zero a = refl
  length-replicate (suc n) a = ap suc (length-replicate n a)

  -- An index inside the list has an entry.
  pub get_elem?-lt : (xs : List A) (i : ℕ) → i < length xs → (x : A) × (get_elem? xs i ≡ some x)
  get_elem?-lt [] i h = elim h [ ]
  get_elem?-lt (x ∷ xs) zero h = (x, refl)
  get_elem?-lt (x ∷ xs) (suc i) h = get_elem?-lt xs i (omega arith)

  pub get_elem?-append_right :
      (xs ys : List A) (i : ℕ) → get_elem? (xs ++ ys) (length xs + i) ≡ get_elem? ys i
  get_elem?-append_right [] ys i = let e : 0 + i ≡ i = omega arith in ap (get_elem? ys) e
  get_elem?-append_right (x ∷ xs) ys i = step (get_elem?-append_right xs ys i)
    where
      step :
          get_elem? (xs ++ ys) (length xs + i) ≡ get_elem? ys i
          → get_elem? (x ∷ xs ++ ys) (suc (length xs) + i) ≡ get_elem? ys i
      step ih = let e : suc (length xs) + i ≡ suc (length xs + i) = omega arith in rw e ih

  take-nil : (n : ℕ) → take n [] ≡ []
  take-nil zero = refl
  take-nil (suc n) = refl

  pub take-split :
      (n m s : ℕ) (xs : List A) → s ≡ n + m → take n xs ++ take m (drop n xs) ≡ take s xs
  take-split zero m s xs e = ap (λ (k : ℕ). take k xs) (omega arith)
  take-split (suc n) m s [] e = take-nil m ∙ sym (take-nil s)
  take-split (suc n) m zero (x ∷ xs) e = absurd (omega arith)
  take-split (suc n) m (suc s) (x ∷ xs) e =
      ap (λ (ys : List A). x ∷ ys) (take-split n m s xs (omega arith))

  pub take-length-take : (k : ℕ) (xs : List A) → take (length (take k xs)) xs ≡ take k xs
  take-length-take zero xs = refl
  take-length-take (suc k) [] = refl
  take-length-take (suc k) (x ∷ xs) = ap (λ (ys : List A). x ∷ ys) (take-length-take k xs)

  pub length-take-drop :
      (n k : ℕ) (xs : List A) → n ≤ length xs → n + length (take k (drop n xs)) ≤ length xs
  length-take-drop zero zero xs h = omega arith
  length-take-drop zero (suc k) [] h = omega arith
  length-take-drop zero (suc k) (x ∷ xs) h = omega (arith, length-take-drop zero k xs (omega arith))
  length-take-drop (suc n) k [] h = omega arith
  length-take-drop (suc n) k (x ∷ xs) h = omega (arith, length-take-drop n k xs (omega arith))

  pub take_all : (n : ℕ) (xs : List A) → length xs ≤ n → take n xs ≡ xs
  take_all zero [] h = refl
  take_all zero (x ∷ xs) h = absurd (omega arith)
  take_all (suc n) [] h = refl
  take_all (suc n) (x ∷ xs) h = ap (λ (ys : List A). x ∷ ys) (take_all n xs (omega arith))
