-- ===== src/Httpapi/Range.antt =====
-- `parseRange` of internal/httpapi/input.go: the byte range that a client asks for. A size is the
-- length of a body, so it is never negative.
use Prim.Native.Char.{code}
use Prim.Native.String.{[], ◌∷◌}
use requestinspector_relay.Base.{
  ℕ, ◌-◌, ◌^◌, ◌≤◌, ◌<◌, ◌≡◌, min, String, Option, none, some, Bool, true, false, ◌&&◌, ◌||◌, ltb,
  leb, ◌==◌, if◌then◌else◌, str_eq, parse_digits, arith,
}
use requestinspector_relay.Config.{ℤ, pos, negsuc}

pub record ByteRange : Type 0 where
  pub start : ℕ
  pub end : ℕ

-- `strings.TrimPrefix` where `strings.HasPrefix` holds.
unfoldable pub strip_prefix : String → String → Option String
strip_prefix [] text = some text
strip_prefix (c ∷ prefix) [] = none
strip_prefix (c ∷ prefix) (d ∷ text) =
    let rest = strip_prefix prefix text in if code c == code d then rest else none

unfoldable pub has_char : ℕ → String → Bool
has_char n [] = false
has_char n (c ∷ text) = code c == n || has_char n text

abbrev prepend : String → Option (String × String) → Option (String × String)
prepend first none = none
prepend [] (some (front, back)) = some (front, back)
prepend (c ∷ first) (some (front, back)) = some (c ∷ front, back)

-- `strings.SplitN(text, "-", 2)`, where there is a dash.
unfoldable pub split_dash : String → Option (String × String)
split_dash [] = none
split_dash (c ∷ text) =
    let rest = split_dash text in if code c == 45 then some ([], text) else prepend (c ∷ []) rest

abbrev signed : Bool → Option ℕ → Option ℤ
signed minus none = none
signed true (some n) =
    if ltb (2 ^ 63) n then none else if n == 0 then some (pos 0) else some (negsuc (n - 1))
signed false (some n) = if leb (2 ^ 63) n then none else some (pos n)

-- `strconv.ParseInt(text, 10, 64)`: a sign may come first, and the value is an int64.
unfoldable pub parse_int : String → Option ℤ
unfolding parse_digits
parse_int [] = none
parse_int (c ∷ text) =
    if code c == 43
    then signed false (parse_digits text)
    else if code c == 45
    then signed true (parse_digits text)
    else signed false (parse_digits (c ∷ text))

unfoldable pub suffix_range : Option ℤ → ℕ → Option ByteRange
suffix_range none size = none
suffix_range (some (negsuc n)) size = none
suffix_range (some (pos n)) size =
    if n == 0 || size == 0
    then none
    else some (record { start = size - min n size; end = size - 1 })

abbrev range_end : String → Option ℤ → ℕ → ℕ → Option ByteRange
range_end text none start size =
    if str_eq text "" then some (record { start = start; end = size - 1 }) else none
range_end text (some (negsuc n)) start size = none
range_end text (some (pos n)) start size =
    if ltb n start
    then none
    else some (record { start = start; end = if leb size n then size - 1 else n })

unfoldable pub start_range : Option ℤ → String → ℕ → Option ByteRange
start_range none text size = none
start_range (some (negsuc n)) text size = none
start_range (some (pos start)) text size =
    if leb size start then none else range_end text (parse_int text) start size

unfoldable pub parse_parts : Option (String × String) → ℕ → Option ByteRange
unfolding suffix_range start_range
parse_parts none size = none
parse_parts (some (first, last)) size =
    if str_eq first "" && str_eq last ""
    then none
    else if str_eq first ""
    then suffix_range (parse_int last) size
    else start_range (parse_int first) last size

abbrev then_split : Option String → Option (String × String)
then_split none = none
then_split (some rest) = split_dash rest

unfoldable pub parse_range : String → ℕ → Option ByteRange
unfolding strip_prefix has_char split_dash parse_parts
parse_range value size =
    if has_char 44 value then none else parse_parts (then_split (strip_prefix "bytes=" value)) size

suffix_range_bounds :
    (n : Option ℤ) (size : ℕ) (r : ByteRange)
    → suffix_range n size ≡ some r
    → (r.start ≤ r.end) × (r.end < size)
unfolding suffix_range
suffix_range_bounds none size r h = cc h
suffix_range_bounds (some (negsuc n)) size r h = cc h
suffix_range_bounds (some (pos n)) size r h = ground arith

range_end_bounds :
    (text : String) (n : Option ℤ) (start size : ℕ) (r : ByteRange)
    → start < size
    → range_end text n start size ≡ some r
    → (r.start ≤ r.end) × (r.end < size)
range_end_bounds text none start size r k h = ground arith
range_end_bounds text (some (negsuc n)) start size r k h = cc h
range_end_bounds text (some (pos n)) start size r k h = ground arith

start_range_bounds :
    (n : Option ℤ) (text : String) (size : ℕ) (r : ByteRange)
    → start_range n text size ≡ some r
    → (r.start ≤ r.end) × (r.end < size)
unfolding start_range
start_range_bounds none text size r h = cc h
start_range_bounds (some (negsuc n)) text size r h = cc h
start_range_bounds (some (pos start)) text size r h =
    ground (arith, range_end_bounds text (parse_int text) start size r)

parse_parts_bounds :
    (p : Option (String × String)) (size : ℕ) (r : ByteRange)
    → parse_parts p size ≡ some r
    → (r.start ≤ r.end) × (r.end < size)
unfolding parse_parts
parse_parts_bounds none size r h = cc h
parse_parts_bounds (some (first, last)) size r h = ground (
  arith,
  suffix_range_bounds (parse_int last) size r,
  start_range_bounds (parse_int first) last size r,
)

-- A range that is accepted, whatever the header says, is not empty and lies within the body.
pub parse_range_bounds :
    (value : String) (size : ℕ) (r : ByteRange)
    → parse_range value size ≡ some r
    → (r.start ≤ r.end) × (r.end < size)
unfolding parse_range
parse_range_bounds value size r h =
    ground (arith, parse_parts_bounds (then_split (strip_prefix "bytes=" value)) size r)
