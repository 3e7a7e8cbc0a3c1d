-- ===== src/Base/Sort.antt =====
-- `sort.SliceStable` with a `less` function, as a stable insertion sort, and membership in lists.
use Prim.Native.Nat.{ℕ, zero, suc, ◌+◌}
use mathlib.Core.Path.{◌≡◌, refl}
use mathlib.Core.Logic.{◌⊎◌, inl, inr}
use mathlib.Core.Bool.{Bool, true, false}
use mathlib.Core.List.{List, [], ◌∷◌, ◌++◌}
use native.Mathlib.Omega.{arith}
use requestinspector_relay.Base.Tests.{if◌then◌else◌, Bool-cases}
use requestinspector_relay.Base.Lists.{length, take, drop, All, All-drop}

module _ {A : Type 0} where
  abbrev pub In : A → List A → Type 0
  In x [] = ⊥
  In x (y ∷ ys) = (x ≡ y) ⊎ In x ys

  pub In-append : (x : A) (xs ys : List A) → In x (xs ++ ys) → In x xs ⊎ In x ys
  In-append x [] ys h = inr h
  In-append x (z ∷ xs) ys (inl e) = inl (inl e)
  In-append x (z ∷ xs) ys (inr h) = elim (In-append x xs ys h) [
    | inl a ↦ inl (inr a)
    | inr b ↦ inr b
  ]

  pub All-In {κ} : (P : A → Type κ) (x : A) (xs : List A) → All P xs → In x xs → P x
  All-In P x [] a h = elim h [ ]
  All-In P x (y ∷ xs) a (inl e) = rw e a.0
  All-In P x (y ∷ xs) a (inr h) = All-In P x xs a.1 h

module _ {A : Type 0} where
  -- Any two elements, in either order, are related.
  abbrev pub Separated {κ} : (A → A → Type κ) → List A → Type κ
  Separated R [] = Unit
  Separated R (x ∷ xs) = All (λ y. R x y × R y x) xs × Separated R xs

  pub Separated-drop {κ} :
      (R : A → A → Type κ) (n : ℕ) (xs : List A) → Separated R xs → Separated R (drop n xs)
  Separated-drop R zero xs s = s
  Separated-drop R (suc n) [] s = tt
  Separated-drop R (suc n) (x ∷ xs) s = Separated-drop R n xs s.1

module _ {A : Type 0} (less : A → A → Bool) where
  unfoldable pub insert_sorted : A → List A → List A
  insert_sorted x [] = x ∷ []
  insert_sorted x (y ∷ ys) = if less y x then y ∷ insert_sorted x ys else x ∷ y ∷ ys

  unfoldable pub sort : List A → List A
  unfolding insert_sorted
  sort [] = []
  sort (x ∷ xs) = insert_sorted x (sort xs)

  length-insert_sorted : (x : A) (xs : List A) → length (insert_sorted x xs) ≡ length xs + 1
  unfolding insert_sorted
  length-insert_sorted x [] = omega arith
  length-insert_sorted x (y ∷ ys) = ground (arith, length-insert_sorted x ys)

  pub length-sort : (xs : List A) → length (sort xs) ≡ length xs
  unfolding sort
  length-sort [] = refl
  length-sort (x ∷ xs) = omega (arith, length-insert_sorted x (sort xs), length-sort xs)

  In-insert_sorted : (z x : A) (xs : List A) → (z ≡ x) ⊎ In z xs → In z (insert_sorted x xs)
  unfolding insert_sorted
  In-insert_sorted z x [] h = h
  In-insert_sorted z x (y ∷ ys) h = ground (arith, In-insert_sorted z x ys)

  -- Nothing is lost by sorting.
  pub In-sort : (z : A) (xs : List A) → In z xs → In z (sort xs)
  unfolding sort
  In-sort z [] h = h
  In-sort z (x ∷ xs) (inl e) = In-insert_sorted z x (sort xs) (inl e)
  In-sort z (x ∷ xs) (inr h) = In-insert_sorted z x (sort xs) (inr (In-sort z xs h))

  module _ {κ} (P : A → Type κ) where
    pub All-insert_sorted : (x : A) (xs : List A) → P x → All P xs → All P (insert_sorted x xs)
    unfolding insert_sorted
    All-insert_sorted x [] p a = (p, tt)
    All-insert_sorted x (y ∷ ys) p a = elim (Bool-cases (less y x)) [
      | inl h ↦ rw (h, insert_sorted) (a.0, All-insert_sorted x ys p a.1)
      | inr h ↦ rw (h, insert_sorted) (p, a)
    ]

    pub All-sort : (xs : List A) → All P xs → All P (sort xs)
    unfolding sort
    All-sort [] a = tt
    All-sort (x ∷ xs) a = All-insert_sorted x (sort xs) a.0 (All-sort xs a.1)

  module _ {κ} (R : A → A → Type κ) where
    Separated-insert_sorted :
        (x : A) (xs : List A)
        → All (λ y. R x y × R y x) xs
        → Separated R xs
        → Separated R (insert_sorted x xs)
    unfolding insert_sorted
    Separated-insert_sorted x [] a s = (tt, tt)
    Separated-insert_sorted x (y ∷ ys) a s = elim (Bool-cases (less y x)) [
      | inl h ↦
          rw (h, insert_sorted)
            (
              All-insert_sorted (λ z. R y z × R z y) x ys (a.0.1, a.0.0) s.0,
              Separated-insert_sorted x ys a.1 s.1,
            )
      | inr h ↦ rw (h, insert_sorted) (a, s)
    ]

    pub Separated-sort : (xs : List A) → Separated R xs → Separated R (sort xs)
    unfolding sort
    Separated-sort [] s = tt
    Separated-sort (x ∷ xs) s =
        Separated-insert_sorted x (sort xs) (All-sort (λ y. R x y × R y x) xs s.0)
          (Separated-sort xs s.1)

  -- No element is less than one before it.
  abbrev pub IsSorted : List A → Type 0
  IsSorted [] = Unit
  IsSorted (x ∷ xs) = All (λ y. less y x ≡ false) xs × IsSorted xs

  -- `less` is a strict weak order: this is what a caller of `sort.SliceStable` owes.
  pub record IsWeakOrder : Type 0 where
    pub asymm : (a b : A) → less a b ≡ true → less b a ≡ false
    pub trans : (a b c : A) → less b a ≡ false → less c b ≡ false → less c a ≡ false

  module _ (o : IsWeakOrder) where
    All-not-less :
        (x y : A) (xs : List A)
        → less y x ≡ false
        → All (λ z. less z y ≡ false) xs
        → All (λ z. less z x ≡ false) xs
    All-not-less x y [] h a = tt
    All-not-less x y (z ∷ xs) h a = (o.trans x y z h a.0, All-not-less x y xs h a.1)

    insert_sorted-IsSorted : (x : A) (xs : List A) → IsSorted xs → IsSorted (insert_sorted x xs)
    unfolding insert_sorted
    insert_sorted-IsSorted x [] s = (tt, tt)
    insert_sorted-IsSorted x (y ∷ ys) s = elim (Bool-cases (less y x)) [
      | inl h ↦
          rw (h, insert_sorted)
            (
              All-insert_sorted (λ z. less z y ≡ false) x ys (o.asymm y x h) s.0,
              insert_sorted-IsSorted x ys s.1,
            )
      | inr h ↦ rw (h, insert_sorted) ((h, All-not-less x y ys h s.0), s)
    ]

    pub sort-IsSorted : (xs : List A) → IsSorted (sort xs)
    unfolding sort
    sort-IsSorted [] = tt
    sort-IsSorted (x ∷ xs) = insert_sorted-IsSorted x (sort xs) (sort-IsSorted xs)

  -- What a cut of a sorted list leaves is not less than what it keeps.
  pub IsSorted-cut :
      (n : ℕ) (x : A) (xs : List A)
      → IsSorted xs
      → In x (take n xs)
      → All (λ y. less y x ≡ false) (drop n xs)
  IsSorted-cut zero x xs s h = elim h [ ]
  IsSorted-cut (suc n) x [] s h = elim h [ ]
  IsSorted-cut (suc n) x (y ∷ xs) s (inl e) = rw e (All-drop (λ z. less z y ≡ false) n xs s.0)
  IsSorted-cut (suc n) x (y ∷ xs) s (inr h) = IsSorted-cut n x xs s.1 h
