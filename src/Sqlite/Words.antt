-- ===== src/Sqlite/Words.antt =====
-- Go's int64 as two's complement: a natural number below 2 ^ 64.
use requestinspector_relay.Base.{
  ℕ, ◌+◌, ◌-◌, ◌%◌, ◌^◌, ◌<◌, ◌≤◌, ◌≡◌, Bool, true, false, ltb, leb, if◌then◌else◌, arith,
}

abbrev pub add64 : ℕ → ℕ → ℕ
add64 a b = (a + b) % 2 ^ 64

abbrev pub sub64 : ℕ → ℕ → ℕ
sub64 a b = (a + (2 ^ 64 - b)) % 2 ^ 64

abbrev pub is_negative : ℕ → Bool
is_negative a = leb (2 ^ 63) a

-- The signed order.
abbrev pub less64 : ℕ → ℕ → Bool
less64 a b =
    if is_negative a
    then (if is_negative b then ltb a b else true)
    else (if is_negative b then false else ltb a b)

pub add64_small : (a b : ℕ) → a + b < 2 ^ 63 → add64 a b ≡ a + b
add64_small a b h = omega arith

pub sub64_small : (a b : ℕ) → b ≤ a → a < 2 ^ 63 → sub64 a b ≡ a - b
sub64_small a b h k = omega arith
