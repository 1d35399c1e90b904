-- ===== src/Prelude/Lists.antt =====
-- Lists measured and indexed by native numbers, and C arrays as lists.
use Prim.Native.Nat.{ℕ, zero, suc, ◌+◌, ◌-◌, ◌≤◌}
use mathlib.Core.Path.{◌≡◌, refl, ap, ◌∙◌}
use mathlib.Core.Logic.{◌≢◌, inl, inr}
use stc_isp_demo.Prelude.Tests.{Option-cases}
use mathlib.Core.List.{List, [], ◌∷◌, ◌++◌}
use mathlib.Core.Option.{Option, none, some}
use native.Mathlib.Omega.{arith}

module _ {ℓ} {A : Type ℓ} where
  abbrev pub length : List A → ℕ
  length [] = 0
  length (x ∷ xs) = suc (length xs)

  abbrev pub get_or : List A → ℕ → A → A
  get_or [] i d = d
  get_or (x ∷ xs) zero d = x
  get_or (x ∷ xs) (suc i) d = get_or xs i d

  -- A write into an array; `none` is a write past its end.
  abbrev pub write : List A → ℕ → A → Option (List A)
  write [] i v = none
  write (x ∷ xs) zero v = some (v ∷ xs)
  write (x ∷ xs) (suc i) v = elim (write xs i v) [ none ↦ none | some ys ↦ some (x ∷ ys) ]

  abbrev pub take : ℕ → List A → List A
  take zero xs = []
  take (suc n) [] = []
  take (suc n) (x ∷ xs) = x ∷ take n xs

  abbrev pub drop : ℕ → List A → List A
  drop zero xs = xs
  drop (suc n) [] = []
  drop (suc n) (x ∷ xs) = drop n xs

  pub length-append : (xs ys : List A) → length (xs ++ ys) ≡ length xs + length ys
  length-append [] ys = omega arith
  length-append (x ∷ xs) ys = omega (arith, length-append xs ys)

  pub take-append-drop : (n : ℕ) (xs : List A) → take n xs ++ drop n xs ≡ xs
  take-append-drop zero xs = refl
  take-append-drop (suc n) [] = refl
  take-append-drop (suc n) (x ∷ xs) = ap (◌∷◌ x) (take-append-drop n xs)

  pub take-add : (n m : ℕ) (xs : List A) → take n xs ++ take m (drop n xs) ≡ take (n + m) xs
  take-add zero m xs = ap (λ k. take k xs) {x = m} (omega arith)
  take-add (suc n) m [] = nothing m ∙ ap (λ k. take k []) {x = suc (n + m)} (omega arith)
    where
      nothing : (m : ℕ) → take m [] ≡ []
      nothing zero = refl
      nothing (suc m) = refl
  take-add (suc n) m (x ∷ xs) =
      ap (◌∷◌ x) (take-add n m xs) ∙ ap (λ k. take k (x ∷ xs)) {x = suc (n + m)} (omega arith)

  pub drop-add : (n m : ℕ) (xs : List A) → drop (n + m) xs ≡ drop m (drop n xs)
  drop-add zero m xs = ap (λ k. drop k xs) {x = zero + m} (omega arith)
  drop-add (suc n) m [] =
      ap (λ k. drop k []) {x = suc n + m} {y = suc (n + m)} (omega arith) ∙ nothing m
    where
      nothing : (m : ℕ) → [] ≡ drop m []
      nothing zero = refl
      nothing (suc m) = refl
  drop-add (suc n) m (x ∷ xs) =
      ap (λ k. drop k (x ∷ xs)) {x = suc n + m} {y = suc (n + m)} (omega arith) ∙ drop-add n m xs

  pub length-drop : (n : ℕ) (xs : List A) → length (drop n xs) ≡ length xs - n
  length-drop zero xs = omega arith
  length-drop (suc n) [] = omega arith
  length-drop (suc n) (x ∷ xs) = omega (arith, length-drop n xs)

  -- The write just behind a filled prefix.
  pub write-append :
      (pre : List A) (x : A) (suf : List A) (v : A)
      → write (pre ++ (x ∷ suf)) (length pre) v ≡ some (pre ++ (v ∷ suf))
  write-append [] x suf v = refl
  write-append (y ∷ pre) x suf v = rw (write-append pre x suf v, write)

  pub write_past : (xs : List A) (i : ℕ) (v : A) → length xs ≤ i → write xs i v ≡ none
  write_past [] i v h = refl
  write_past (x ∷ xs) zero v h = absurd (omega arith)
  write_past (x ∷ xs) (suc i) v h = rw (write_past xs i v (omega arith), write)

  pub append_snoc : (xs : List A) (x : A) (ys : List A) → (xs ++ (x ∷ [])) ++ ys ≡ xs ++ (x ∷ ys)
  append_snoc [] x ys = refl
  append_snoc (y ∷ xs) x ys = ap (◌∷◌ y) (append_snoc xs x ys)

  pub get_or-append :
      (pre : List A) (x : A) (suf : List A) (d : A) → get_or (pre ++ (x ∷ suf)) (length pre) d ≡ x
  get_or-append [] x suf d = refl
  get_or-append (y ∷ pre) x suf d = get_or-append pre x suf d

  pub take-append : (xs ys : List A) → take (length xs) (xs ++ ys) ≡ xs
  take-append [] ys = refl
  take-append (x ∷ xs) ys = ap (◌∷◌ x) (take-append xs ys)

  pub length-write :
      (xs : List A) (i : ℕ) (v : A) (ys : List A) → write xs i v ≡ some ys → length ys ≡ length xs
  length-write [] i v ys e = cc
  length-write (x ∷ xs) zero v ys e = ground arith
  length-write (x ∷ xs) (suc i) v ys e = elim (Option-cases (write xs i v)) [
    | inl e' ↦ ground arith
    | inr (zs, e') ↦ ground (arith, length-write xs i v zs e')
  ]

  pub take-all : (xs : List A) → take (length xs) xs ≡ xs
  take-all [] = refl
  take-all (x ∷ xs) = ap (◌∷◌ x) (take-all xs)

  pub take-append_le : (n : ℕ) (xs ys : List A) → n ≤ length xs → take n (xs ++ ys) ≡ take n xs
  take-append_le zero xs ys h = refl
  take-append_le (suc n) [] ys h = absurd (omega arith)
  take-append_le (suc n) (x ∷ xs) ys h = ap (◌∷◌ x) (take-append_le n xs ys (omega arith))

  pub take_of_eq : (n : ℕ) (xs ys zs : List A) → n ≡ length xs → zs ≡ xs ++ ys → take n zs ≡ xs
  take_of_eq n xs ys zs e f = rw (e, f) (take-append xs ys)

  pub get_or-write_ne :
      (xs : List A) (i j : ℕ) (v d : A) (ys : List A)
      → write xs i v ≡ some ys
      → i ≢ j
      → get_or ys j d ≡ get_or xs j d
  get_or-write_ne [] i j v d ys e h = cc
  get_or-write_ne (x ∷ xs) zero zero v d ys e h = absurd (h refl)
  get_or-write_ne (x ∷ xs) zero (suc j) v d ys e h = ground arith
  get_or-write_ne (x ∷ xs) (suc i) zero v d ys e h = elim (Option-cases (write xs i v)) [
    | inl e' ↦ ground arith
    | inr (zs, e') ↦ ground arith
  ]
  get_or-write_ne (x ∷ xs) (suc i) (suc j) v d ys e h = elim (Option-cases (write xs i v)) [
    | inl e' ↦ ground arith
    | inr (zs, e') ↦ ground (arith, get_or-write_ne xs i j v d zs e')
  ]

  pub two_of_length :
      (xs : List A) → 2 ≤ length xs → (x : A) × (y : A) × (ys : List A) × (xs ≡ x ∷ y ∷ ys)
  two_of_length [] h = absurd (omega arith)
  two_of_length (x ∷ []) h = absurd (omega arith)
  two_of_length (x ∷ y ∷ ys) h = (x, y, ys, refl)

  pub length-take_le : (n : ℕ) (xs : List A) → length (take n xs) ≤ n
  length-take_le zero xs = omega arith
  length-take_le (suc n) [] = omega arith
  length-take_le (suc n) (x ∷ xs) = omega (arith, length-take_le n xs)

  pub length-take : (n : ℕ) (xs : List A) → n ≤ length xs → length (take n xs) ≡ n
  length-take zero xs h = refl
  length-take (suc n) [] h = omega arith
  length-take (suc n) (x ∷ xs) h = ap suc (length-take n xs (omega arith))
