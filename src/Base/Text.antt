-- ===== src/Base/Text.antt =====
-- Texts: equality, and the order of their bytes (Go's `<` on strings), as a total order.
use Prim.Native.Char.{Char, code}
use Prim.Native.Nat.{ℕ, ◌<◌, compare as compare_ℕ, Ordering}
use Prim.Native.String.compare
use Prim.Native.String.{String, [], ◌∷◌, then, compare}
use mathlib.Core.Path.{◌≡◌, sym, ◌∙◌}
use mathlib.Core.List.{List}
use mathlib.Core.Logic.{◌⊎◌}
use mathlib.Core.Bool.{Bool, true, false}
use native.Mathlib.Omega.{arith}
use text.Mathlib.Text.{◌==◌ as text_eq}
use text.Mathlib.TextEquality.{path_by_compare}
use text.Mathlib.TextPositions.{compare_refl}

abbrev pub str_eq : String → String → Bool
str_eq s t = text_eq s t

-- The bytes of an ASCII text.
abbrev pub codes : String → List ℕ
codes [] = List.[]
codes (c ∷ s) = List.◌∷◌ (code c) (codes s)

-- A character more at the front of the first part.
abbrev lengthened : Char → List String → List String
lengthened c List.[] = List.[]
lengthened c (List.◌∷◌ part parts) = List.◌∷◌ (c ∷ part) parts

-- `strings.Split(s, ",")`
unfoldable pub split_commas : String → List String
split_commas [] = List.◌∷◌ [] List.[]
split_commas (c ∷ s) =
    let rest = split_commas s in
    elim (compare_ℕ (code c) 44) [ Ordering.eq ↦ List.◌∷◌ [] rest | _ ↦ lengthened c rest ]

-- Go's `s < t` on strings.
pub str_lt : String → String → Bool
str_lt s t = elim (compare s t) [ Ordering.lt ↦ true | _ ↦ false ]

abbrev flip : Ordering → Ordering
flip Ordering.lt = Ordering.gt
flip Ordering.eq = Ordering.eq
flip Ordering.gt = Ordering.lt

compare-flip : (s t : String) → compare t s ≡ flip (compare s t)
compare-flip [] [] = rw compare.nil-nil
compare-flip [] (d ∷ t) = rw (compare.nil-cons, compare.cons-nil)
compare-flip (c ∷ s) [] = rw (compare.nil-cons, compare.cons-nil)
compare-flip (c ∷ s) (d ∷ t) =
    rw (compare.cons-cons, compare.cons-cons, compare-flip s t) (ground arith)

-- A less-than of two texts with a first character: by it, or by the rest after equal ones.
then-eq-lt :
    (m n : ℕ) (o : Ordering)
    → then (compare_ℕ m n) o ≡ Ordering.lt
    → (m < n) ⊎ ((m ≡ n) × (o ≡ Ordering.lt))
then-eq-lt m n o h = ground arith

lt-then-eq :
    (m n : ℕ) (o : Ordering)
    → (m < n) ⊎ ((m ≡ n) × (o ≡ Ordering.lt))
    → then (compare_ℕ m n) o ≡ Ordering.lt
lt-then-eq m n o h = ground arith

compare_trans :
    (s t u : String)
    → compare s t ≡ Ordering.lt
    → compare t u ≡ Ordering.lt
    → compare s u ≡ Ordering.lt
compare_trans s [] [] h k = absurd (cc (compare.nil-nil))
compare_trans [] [] (e ∷ u) h k = k
compare_trans (c ∷ s) [] (e ∷ u) h k = cc (compare.cons-nil c s)
compare_trans s (d ∷ t) [] h k = cc (compare.cons-nil d t)
compare_trans [] (d ∷ t) (e ∷ u) h k = compare.nil-cons e u
compare_trans (c ∷ s) (d ∷ t) (e ∷ u) h k =
    compare.cons-cons c e s u
    ∙ lt-then-eq (code c) (code e) (compare s u) (
        ground (
          arith,
          then-eq-lt (code c) (code d) (compare s t) (sym (compare.cons-cons c d s t) ∙ h),
          then-eq-lt (code d) (code e) (compare t u) (sym (compare.cons-cons d e t u) ∙ k),
          compare_trans s t u,
        ))

pub str_lt_trans : (s t u : String) → str_lt s t ≡ true → str_lt t u ≡ true → str_lt s u ≡ true
unfolding str_lt
str_lt_trans s t u h k = ground (arith, compare_trans s t u)

pub str_lt_irrefl : (s : String) → str_lt s s ≡ false
unfolding str_lt
str_lt_irrefl s = ground (arith, compare_refl s)

-- Two texts of which neither is less are equal.
pub str_eq_of_not-lt : (s t : String) → str_lt s t ≡ false → str_lt t s ≡ false → s ≡ t
unfolding str_lt
str_eq_of_not-lt s t h k = path_by_compare s t (ground (arith, compare-flip s t))

pub str_lt_asymm : (s t : String) → str_lt s t ≡ true → str_lt t s ≡ false
unfolding str_lt
str_lt_asymm s t h = ground (arith, compare-flip s t)
