-- ===== src/Base/Decimal.antt =====
-- `strconv.FormatUint(n, 10)` and the digits that `strconv.ParseInt` reads.
use Prim.Native.Char.{code}
use Prim.Native.Nat.{ℕ, zero, suc, ◌+◌, ◌-◌, ◌*◌, ◌/◌, ◌%◌, ◌<◌}
use Prim.Native.String.append
use Prim.Native.String.{String, [], ◌∷◌, ◌++◌}
use mathlib.Core.Path.{◌≡◌, refl, ap, ◌∙◌}
use mathlib.Core.Logic.{◌≢◌, inl, inr}
use mathlib.Core.Bool.{Bool, true, false, ◌&&◌}
use mathlib.Core.Option.{Option, none, some}
use native.Mathlib.Omega.{arith}
use requestinspector_relay.Base.Tests.{if◌then◌else◌, ltb, leb, Bool-cases, ltb→lt}

digit_text : ℕ → String
digit_text zero = "0"
digit_text (suc zero) = "1"
digit_text (suc (suc zero)) = "2"
digit_text (suc (suc (suc zero))) = "3"
digit_text (suc (suc (suc (suc zero)))) = "4"
digit_text (suc (suc (suc (suc (suc zero))))) = "5"
digit_text (suc (suc (suc (suc (suc (suc zero)))))) = "6"
digit_text (suc (suc (suc (suc (suc (suc (suc zero))))))) = "7"
digit_text (suc (suc (suc (suc (suc (suc (suc (suc zero)))))))) = "8"
digit_text _ = "9"

-- The fuel is more than the number, which has fewer digits.
format_from : ℕ → ℕ → String
format_from zero n = ""
format_from (suc fuel) n =
    let more = format_from fuel (n / 10) in
    if ltb n 10 then digit_text n else more ++ digit_text (n % 10)

unfoldable pub format_uint : ℕ → String
unfolding format_from digit_text
format_uint n = format_from (suc n) n

-- The value of the digits of a text, behind digits of value `acc`; `none` at any other character.
unfoldable pub parse_from : ℕ → String → Option ℕ
parse_from acc [] = some acc
parse_from acc (c ∷ s) =
    let rest = parse_from (acc * 10 + (code c - 48)) s in
    if leb 48 (code c) && leb (code c) 57 then rest else none

-- A decimal number needs a digit.
unfoldable pub parse_digits : String → Option ℕ
unfolding parse_from
parse_digits [] = none
parse_digits (c ∷ s) = parse_from 0 (c ∷ s)

parse_from-digit_text : (acc d : ℕ) → d < 10 → parse_from acc (digit_text d) ≡ some (acc * 10 + d)
unfolding parse_from digit_text
parse_from-digit_text acc zero h = ground arith
parse_from-digit_text acc (suc zero) h = refl
parse_from-digit_text acc (suc (suc zero)) h = refl
parse_from-digit_text acc (suc (suc (suc zero))) h = refl
parse_from-digit_text acc (suc (suc (suc (suc zero)))) h = refl
parse_from-digit_text acc (suc (suc (suc (suc (suc zero))))) h = refl
parse_from-digit_text acc (suc (suc (suc (suc (suc (suc zero)))))) h = refl
parse_from-digit_text acc (suc (suc (suc (suc (suc (suc (suc zero))))))) h = refl
parse_from-digit_text acc (suc (suc (suc (suc (suc (suc (suc (suc zero)))))))) h = refl
parse_from-digit_text acc (suc (suc (suc (suc (suc (suc (suc (suc (suc zero))))))))) h = refl
parse_from-digit_text acc (suc (suc (suc (suc (suc (suc (suc (suc (suc (suc d)))))))))) h =
    absurd (omega arith)

abbrev then_parse : Option ℕ → String → Option ℕ
then_parse none t = none
then_parse (some a) t = parse_from a t

parse_from-append :
    (acc : ℕ) (s t : String) → parse_from acc (s ++ t) ≡ then_parse (parse_from acc s) t
unfolding parse_from
parse_from-append acc [] t = rw append.nil
parse_from-append acc (c ∷ s) t =
    rw append.cons (ground (arith, parse_from-append (acc * 10 + (code c - 48)) s t))

parse_from-format_from : (fuel n : ℕ) → n < fuel → parse_from 0 (format_from fuel n) ≡ some n
unfolding format_from
parse_from-format_from zero n h = absurd (omega arith)
parse_from-format_from (suc fuel) n h = elim (Bool-cases (ltb n 10)) [
  | inl small ↦ rw small (parse_from-digit_text 0 n (ltb→lt n 10 small) ∙ ground arith)
  | inr large ↦
      rw (large, parse_from-append, parse_from-format_from fuel (n / 10) (ground arith))
        (parse_from-digit_text (n / 10) (n % 10) (omega arith) ∙ ground arith)
]

-- A formatted number is not empty: it has a last digit.
abbrev is_empty : String → Bool
is_empty [] = true
is_empty (c ∷ s) = false

digit_text-ne_empty : (d : ℕ) → is_empty (digit_text d) ≡ false
unfolding digit_text
digit_text-ne_empty zero = refl
digit_text-ne_empty (suc zero) = refl
digit_text-ne_empty (suc (suc zero)) = refl
digit_text-ne_empty (suc (suc (suc zero))) = refl
digit_text-ne_empty (suc (suc (suc (suc zero)))) = refl
digit_text-ne_empty (suc (suc (suc (suc (suc zero))))) = refl
digit_text-ne_empty (suc (suc (suc (suc (suc (suc zero)))))) = refl
digit_text-ne_empty (suc (suc (suc (suc (suc (suc (suc zero))))))) = refl
digit_text-ne_empty (suc (suc (suc (suc (suc (suc (suc (suc zero)))))))) = refl
digit_text-ne_empty (suc (suc (suc (suc (suc (suc (suc (suc (suc d))))))))) = refl

append-ne_empty : (s t : String) → is_empty t ≡ false → is_empty (s ++ t) ≡ false
append-ne_empty [] t h = rw append.nil h
append-ne_empty (c ∷ s) t h = rw append.cons

format_uint-ne_empty : (n : ℕ) → is_empty (format_uint n) ≡ false
unfolding format_uint
format_uint-ne_empty n = elim (Bool-cases (ltb n 10)) [
  | inl small ↦ rw small (digit_text-ne_empty n)
  | inr large ↦ rw large (append-ne_empty _ _ (digit_text-ne_empty (n % 10)))
]

pub format_uint-ne-nil : (n : ℕ) → format_uint n ≢ ""
format_uint-ne-nil n e = cc (format_uint-ne_empty n, ap is_empty e)

parse_digits-parse_from : (s : String) → is_empty s ≡ false → parse_digits s ≡ parse_from 0 s
unfolding parse_digits
parse_digits-parse_from [] h = cc
parse_digits-parse_from (c ∷ s) h = refl

parse_from-format_uint : (n : ℕ) → parse_from 0 (format_uint n) ≡ some n
unfolding format_uint
parse_from-format_uint n = parse_from-format_from (suc n) n (omega arith)

-- Reading a formatted number gives it back.
pub parse_digits-format_uint : (n : ℕ) → parse_digits (format_uint n) ≡ some n
parse_digits-format_uint n =
    parse_digits-parse_from (format_uint n) (format_uint-ne_empty n) ∙ parse_from-format_uint n

pub format_uint-injective : (m n : ℕ) → format_uint m ≡ format_uint n → m ≡ n
format_uint-injective m n e =
    cc (parse_digits-format_uint m, parse_digits-format_uint n, ap parse_digits e)
