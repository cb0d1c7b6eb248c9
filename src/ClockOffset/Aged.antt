-- ===== src/ClockOffset/Aged.antt =====
-- Lists used as rings, for the samples of server/driver/clock_offset.cpp.
use native.Mathlib.Nat.{mod-eq_of_lt, mod_self}
use wi_vrn.Common.{
  ℕ, zero, suc, ◌+◌, ◌-◌, ◌%◌, ◌<◌, ◌≤◌, ◌≡◌, ◌⊎◌, inl, inr, refl, sym, ap, ◌∙◌, List, [], ◌∷◌,
  ◌++◌, arith, length, take, drop, set, append_assoc, append-nil, length-append, length-drop,
  drop-append, drop_all, take_all,
}

pub last : (i n : ℕ) → i < n → (i + 1 < n) ⊎ (i + 1 ≡ n)
last i n lt = ground arith

pub plus_one : (i : ℕ) → i + 1 ≡ suc i
plus_one i = omega arith

module _ {A : Type 0} where
  pub take-set :
      (xs : List A) (i : ℕ) (a : A)
      → i < length xs
      → take (suc i) (set xs i a) ≡ take i xs ++ (a ∷ [])
  take-set [] i a h = absurd (omega arith)
  take-set (x ∷ xs) zero a h = refl
  take-set (x ∷ xs) (suc i) a h = ap (x ∷◌) (take-set xs i a (omega arith))

  pub drop-set : (xs : List A) (i : ℕ) (a : A) → drop (suc i) (set xs i a) ≡ drop (suc i) xs
  drop-set [] i a = refl
  drop-set (x ∷ xs) zero a = refl
  drop-set (x ∷ xs) (suc i) a = drop-set xs i a

  pub drop_at : (xs : List A) (i j : ℕ) → i ≡ j → drop i xs ≡ drop j xs
  drop_at xs i j e = ap (λ k. drop k xs) e

  pub drop-drop : (xs : List A) (i n : ℕ) → drop i (drop n xs) ≡ drop (n + i) xs
  drop-drop xs i zero = drop_at xs i (zero + i) (omega arith)
  drop-drop [] i (suc n) = drop_all i [] (omega arith) ∙ sym (drop_all (suc n + i) [] (omega arith))
  drop-drop (x ∷ xs) i (suc n) =
      drop-drop xs i n ∙ drop_at (x ∷ xs) (suc (n + i)) (suc n + i) (omega arith)

  -- The list of a ring of which `i` is the oldest place.
  abbrev pub aged : List A → ℕ → List A
  aged xs i = drop i xs ++ take i xs

  -- The last `n`.
  abbrev pub recent : ℕ → List A → List A
  recent n xs = drop (length xs - n) xs

  pub aged-set :
      (xs : List A) (i : ℕ) (a : A)
      → i < length xs
      → aged (set xs i a) (suc i) ≡ drop 1 (aged xs i ++ (a ∷ []))
  aged-set xs i a h =
      ap (drop (suc i) (set xs i a) ++◌) (take-set xs i a h)
      ∙ ap (◌++ (take i xs ++ (a ∷ [])))
          (drop-set xs i a ∙ drop_at xs (suc i) (i + 1) (omega arith) ∙ sym (drop-drop xs 1 i))
      ∙ sym (
          ap (drop 1) (append_assoc (drop i xs) (take i xs) (a ∷ []))
          ∙ drop-append 1 (drop i xs) (take i xs ++ (a ∷ [])) (omega (arith, length-drop i xs)))

  pub aged-wrap : (xs : List A) (n : ℕ) → length xs ≡ n → aged xs n ≡ aged xs 0
  aged-wrap xs n e =
      ap (◌++ take n xs) (drop_all n xs (omega arith))
      ∙ take_all n xs (omega arith)
      ∙ sym (append-nil xs)

  pub aged_next :
      (xs : List A) (i n : ℕ) → i < n → length xs ≡ n → aged xs ((i + 1) % n) ≡ aged xs (suc i)
  aged_next xs i n lt e = elim (last i n lt) [
    | inl inside ↦ ap (aged xs) (mod-eq_of_lt inside ∙ plus_one i)
    | inr end ↦
        ap (aged xs) (ap (λ k. k % n) end ∙ mod_self n)
        ∙ sym (aged-wrap xs n e)
        ∙ ap (aged xs) (sym end ∙ plus_one i)
  ]

  -- One more item pushes the oldest out.
  pub recent-snoc :
      (n : ℕ) (xs : List A) (a : A)
      → n ≤ length xs
      → recent n (xs ++ (a ∷ [])) ≡ drop 1 (recent n xs ++ (a ∷ []))
  recent-snoc n xs a h =
      drop_at (xs ++ (a ∷ [])) (length (xs ++ (a ∷ [])) - n) (length xs - n + 1)
        (omega (arith, length-append xs (a ∷ [])))
      ∙ sym (drop-drop (xs ++ (a ∷ [])) 1 (length xs - n))
      ∙ ap (drop 1) (drop-append (length xs - n) xs (a ∷ []) (omega arith))

  pub recent_all : (n : ℕ) (xs : List A) → length xs ≤ n → recent n xs ≡ xs
  recent_all n xs h = drop_at xs (length xs - n) 0 (omega arith)
