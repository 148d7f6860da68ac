-- ===== src/Common/Lists.antt =====
-- Lists measured and cut by native numbers, under the library's names.
use Prim.Native.Nat.{ℕ, zero, suc, ◌+◌, ◌-◌, ◌≤◌, min}
use mathlib.Core.Path.{◌≡◌, refl, ap}
use mathlib.Core.List.{List, [], ◌∷◌, ◌++◌, map}
use native.Mathlib.Omega.{arith}

module _ {ℓ} {A : Type ℓ} where
  abbrev pub length : List A → ℕ
  length [] = 0
  length (x ∷ xs) = suc (length xs)

  abbrev pub take : ℕ → List A → List A
  take zero xs = []
  take (suc n) [] = []
  take (suc n) (x ∷ xs) = x ∷ take n xs

  abbrev pub drop : ℕ → List A → List A
  drop zero xs = xs
  drop (suc n) [] = []
  drop (suc n) (x ∷ xs) = drop n xs

  -- The element at an index, or a default out of range.
  abbrev pub get_or : List A → ℕ → A → A
  get_or [] i a = a
  get_or (x ∷ xs) zero a = x
  get_or (x ∷ xs) (suc i) a = get_or xs i a

  abbrev pub replicate : ℕ → A → List A
  replicate zero a = []
  replicate (suc n) a = a ∷ replicate n a

  pub length-append : (xs ys : List A) → length (xs ++ ys) ≡ length xs + length ys
  length-append [] ys = omega arith
  length-append (x ∷ xs) ys = omega (arith, length-append xs ys)

  pub length-take : (n : ℕ) (xs : List A) → length (take n xs) ≡ min n (length xs)
  length-take zero xs = omega arith
  length-take (suc n) [] = omega arith
  length-take (suc n) (x ∷ xs) = omega (arith, length-take n xs)

  pub length-drop : (n : ℕ) (xs : List A) → length (drop n xs) ≡ length xs - n
  length-drop zero xs = omega arith
  length-drop (suc n) [] = omega arith
  length-drop (suc n) (x ∷ xs) = omega (arith, length-drop n xs)

  pub length-replicate : (n : ℕ) (a : A) → length (replicate n a) ≡ n
  length-replicate zero a = refl
  length-replicate (suc n) a = ap suc (length-replicate n a)

  pub take_all : (n : ℕ) (xs : List A) → length xs ≤ n → take n xs ≡ xs
  take_all zero [] h = refl
  take_all zero (x ∷ xs) h = absurd (omega arith)
  take_all (suc n) [] h = refl
  take_all (suc n) (x ∷ xs) h = ap (◌∷◌ x) (take_all n xs (omega arith))

  pub take-append_le : (n : ℕ) (xs ys : List A) → n ≤ length xs → take n (xs ++ ys) ≡ take n xs
  take-append_le zero xs ys h = refl
  take-append_le (suc n) [] ys h = absurd (omega arith)
  take-append_le (suc n) (x ∷ xs) ys h = ap (◌∷◌ x) (take-append_le n xs ys (omega arith))

  pub take-append_ge :
      (n : ℕ) (xs ys : List A) → length xs ≤ n → take n (xs ++ ys) ≡ xs ++ take (n - length xs) ys
  take-append_ge n [] ys h = ap (λ (k : ℕ). take k ys) (omega arith)
  take-append_ge zero (x ∷ xs) ys h = absurd (omega arith)
  take-append_ge (suc n) (x ∷ xs) ys h =
      rw (take-append_ge n xs ys (omega arith))
        (ap (λ (k : ℕ). x ∷ (xs ++ take k ys)) (omega arith))

  pub drop-append_le :
      (n : ℕ) (xs ys : List A) → n ≤ length xs → drop n (xs ++ ys) ≡ drop n xs ++ ys
  drop-append_le zero xs ys h = refl
  drop-append_le (suc n) [] ys h = absurd (omega arith)
  drop-append_le (suc n) (x ∷ xs) ys h = drop-append_le n xs ys (omega arith)

  pub drop-append_ge :
      (n : ℕ) (xs ys : List A) → length xs ≤ n → drop n (xs ++ ys) ≡ drop (n - length xs) ys
  drop-append_ge n [] ys h = ap (λ (k : ℕ). drop k ys) (omega arith)
  drop-append_ge zero (x ∷ xs) ys h = absurd (omega arith)
  drop-append_ge (suc n) (x ∷ xs) ys h =
      rw (drop-append_ge n xs ys (omega arith)) (ap (λ (k : ℕ). drop k ys) (omega arith))

  drop-nil : (n : ℕ) (xs : List A) → length xs ≡ 0 → drop n xs ≡ xs
  drop-nil zero xs h = refl
  drop-nil (suc n) [] h = refl
  drop-nil (suc n) (x ∷ xs) h = absurd (omega arith)

  pub drop-drop : (m n : ℕ) (xs : List A) → drop m (drop n xs) ≡ drop (n + m) xs
  drop-drop m zero xs = ap (λ (k : ℕ). drop k xs) (omega arith)
  drop-drop m (suc n) [] = rw (drop-nil m [] refl) (rw (drop-nil (suc n + m) [] refl))
  drop-drop m (suc n) (x ∷ xs) =
      let e : suc n + m ≡ suc (n + m) = omega arith in rw e (drop-drop m n xs)

  pub take-take : (m n : ℕ) (xs : List A) → m ≤ n → take m (take n xs) ≡ take m xs
  take-take zero n xs h = refl
  take-take (suc m) zero xs h = absurd (omega arith)
  take-take (suc m) (suc n) [] h = refl
  take-take (suc m) (suc n) (x ∷ xs) h = ap (◌∷◌ x) (take-take m n xs (omega arith))

  take-nil : (n : ℕ) (xs : List A) → length xs ≡ 0 → xs ≡ take n xs
  take-nil n [] h = elim n as (λ k. [] ≡ take k []) [ zero ↦ refl | suc k ↦ refl ]
  take-nil n (x ∷ xs) h = absurd (omega arith)

  pub drop-take : (m n : ℕ) (xs : List A) → drop m (take n xs) ≡ take (n - m) (drop m xs)
  drop-take zero n xs = ap (λ (k : ℕ). take k xs) (omega arith)
  drop-take (suc m) zero xs = let e : 0 - suc m ≡ 0 = omega arith in rw e refl
  drop-take (suc m) (suc n) [] = take-nil (suc n - suc m) [] refl
  drop-take (suc m) (suc n) (x ∷ xs) =
      let e : suc n - suc m ≡ n - m = omega arith in rw e (drop-take m n xs)

-- Sums of weights over a list.
module _ {ℓ} {A : Type ℓ} (w : A → ℕ) where
  abbrev pub total : List A → ℕ
  total [] = 0
  total (x ∷ xs) = w x + total xs

  pub total-append : (xs ys : List A) → total (xs ++ ys) ≡ total xs + total ys
  total-append [] ys = omega arith
  total-append (x ∷ xs) ys = omega (arith, total-append xs ys)

  -- One element among others.
  pub total_middle : (xs ys : List A) (x : A) → total (xs ++ x ∷ ys) ≡ total xs + total ys + w x
  total_middle xs ys x = omega (arith, total-append xs (x ∷ ys))

  pub total-replicate : (n : ℕ) (x : A) → w x ≡ 0 → total (replicate n x) ≡ 0
  total-replicate zero x h = refl
  total-replicate (suc n) x h = omega (arith, total-replicate n x h)

  pub total-le-length : (xs : List A) → ((x : A) → w x ≤ 1) → total xs ≤ length xs
  total-le-length [] h = omega arith
  total-le-length (x ∷ xs) h = omega (arith, h x, total-le-length xs h)

-- A property of each element of a list.
module _ {ℓ} {A : Type ℓ} (P : A → Type 0) where
  abbrev pub All : List A → Type 0
  All [] = Unit
  All (x ∷ xs) = P x × All xs

  pub All-split : (xs ys : List A) (y : A) → All (xs ++ y ∷ ys) → All xs × P y × All ys
  All-split [] ys y (p, a) = (tt, p, a)
  All-split (x ∷ xs) ys y (p, a) = let (b, q, c) = All-split xs ys y a in ((p, b), q, c)

  pub All-join : (xs ys : List A) (y : A) → All xs → P y → All ys → All (xs ++ y ∷ ys)
  All-join [] ys y a q c = (q, c)
  All-join (x ∷ xs) ys y (p, a) q c = (p, All-join xs ys y a q c)

  pub All-map : (f : A → A) → ((x : A) → P x → P (f x)) → (xs : List A) → All xs → All (map f xs)
  All-map f h [] a = tt
  All-map f h (x ∷ xs) (p, a) = (h x p, All-map f h xs a)

  pub total-le :
      (v w : A → ℕ) → ((x : A) → P x → v x ≤ w x) → (xs : List A) → All xs → total v xs ≤ total w xs
  total-le v w h [] a = omega arith
  total-le v w h (x ∷ xs) (p, a) = omega (arith, h x p, total-le v w h xs a)

-- A change of the elements that keeps their weight
pub total-map {ℓ} :
    {A : Type ℓ} (w : A → ℕ) (f : A → A)
    → ((x : A) → w (f x) ≡ w x)
    → (xs : List A) → total w (map f xs) ≡ total w xs
total-map w f h [] = refl
total-map w f h (x ∷ xs) = omega (arith, h x, total-map w f h xs)
