-- ===== src/Base/Assoc.antt =====
-- Go maps with text keys, as association lists without repeated keys.
use Prim.Native.Nat.{◌+◌, ◌≤◌}
use Prim.Native.String.{String}
use mathlib.Core.Path.{◌≡◌, refl}
use mathlib.Core.List.{List, [], ◌∷◌}
use mathlib.Core.Option.{Option, none, some}
use native.Mathlib.Omega.{arith}
use text.Mathlib.TextEquality.{eq_iff}
use requestinspector_relay.Base.Lists.{length}
use requestinspector_relay.Base.Tests.{if◌then◌else◌}
use requestinspector_relay.Base.Text.{str_eq}

module _ {ℓ} {V : Type ℓ} where
  -- `v, ok := m[k]`
  unfoldable pub lookup : String → List (String × V) → Option V
  lookup key [] = none
  lookup key ((asked, v) ∷ pairs) = if str_eq asked key then some v else lookup key pairs

  -- `m[k] = v`
  unfoldable pub insert : String → V → List (String × V) → List (String × V)
  insert key v [] = (key, v) ∷ []
  insert key v ((asked, old) ∷ pairs) =
      if str_eq asked key then (key, v) ∷ pairs else (asked, old) ∷ insert key v pairs

  -- `delete(m, k)`
  unfoldable pub erase : String → List (String × V) → List (String × V)
  erase key [] = []
  erase key ((asked, old) ∷ pairs) =
      if str_eq asked key then erase key pairs else (asked, old) ∷ erase key pairs

  abbrev pub HasDistinctKeys : List (String × V) → Type ℓ
  HasDistinctKeys [] = Unit
  HasDistinctKeys ((key, v) ∷ pairs) = (lookup key pairs ≡ none) × HasDistinctKeys pairs

  pub lookup-insert :
      (key asked : String) (v : V) (pairs : List (String × V))
      → lookup asked (insert key v pairs)
        ≡ (if str_eq key asked then some v else lookup asked pairs)
  unfolding lookup insert
  lookup-insert key asked v [] = refl
  lookup-insert key asked v ((first, old) ∷ pairs) = ground (
    arith,
    eq_iff key asked,
    eq_iff first key,
    eq_iff first asked,
    lookup-insert key asked v pairs,
  )

  pub lookup-erase :
      (key asked : String) (pairs : List (String × V))
      → lookup asked (erase key pairs) ≡ (if str_eq key asked then none else lookup asked pairs)
  unfolding lookup erase
  lookup-erase key asked [] = ground arith
  lookup-erase key asked ((first, old) ∷ pairs) =
      ground (
        arith,
        eq_iff key asked,
        eq_iff first key,
        eq_iff first asked,
        lookup-erase key asked pairs,
      )

  pub insert-HasDistinctKeys :
      (key : String) (v : V) (pairs : List (String × V))
      → HasDistinctKeys pairs
      → HasDistinctKeys (insert key v pairs)
  unfolding lookup insert
  insert-HasDistinctKeys key v [] h = (refl, tt)
  insert-HasDistinctKeys key v ((first, old) ∷ pairs) h = ground (
    arith,
    eq_iff first key,
    eq_iff key first,
    lookup-insert key first v pairs,
    insert-HasDistinctKeys key v pairs h.1,
  )

  pub erase-HasDistinctKeys :
      (key : String) (pairs : List (String × V))
      → HasDistinctKeys pairs
      → HasDistinctKeys (erase key pairs)
  unfolding lookup erase
  erase-HasDistinctKeys key [] h = tt
  erase-HasDistinctKeys key ((first, old) ∷ pairs) h = ground (
    arith,
    eq_iff first key,
    eq_iff key first,
    lookup-erase key first pairs,
    erase-HasDistinctKeys key pairs h.1,
  )

  pub length-erase-le :
      (key : String) (pairs : List (String × V)) → length (erase key pairs) ≤ length pairs
  unfolding erase
  length-erase-le key [] = omega arith
  length-erase-le key ((first, old) ∷ pairs) = ground (arith, length-erase-le key pairs)

  pub erase_absent :
      (key : String) (pairs : List (String × V)) → lookup key pairs ≡ none → erase key pairs ≡ pairs
  unfolding lookup erase
  erase_absent key [] h = refl
  erase_absent key ((first, old) ∷ pairs) h = ground (arith, erase_absent key pairs)

  pub length-insert_absent :
      (key : String) (v : V) (pairs : List (String × V))
      → lookup key pairs ≡ none
      → length (insert key v pairs) ≡ length pairs + 1
  unfolding lookup insert
  length-insert_absent key v [] h = omega arith
  length-insert_absent key v ((first, old) ∷ pairs) h =
      ground (arith, length-insert_absent key v pairs)

  pub length-insert_present :
      (key : String) (v old : V) (pairs : List (String × V))
      → lookup key pairs ≡ some old
      → length (insert key v pairs) ≡ length pairs
  unfolding lookup insert
  length-insert_present key v old [] h = cc
  length-insert_present key v old ((first, u) ∷ pairs) h =
      ground (arith, length-insert_present key v old pairs)
