-- ===== src/App/Sockets.antt =====
-- The sockets that the planes of internal/app hold open, numbered as they are opened: every
-- `net.Listen` yields a new one.
use requestinspector_relay.Base.{
  ℕ, ◌+◌, ◌<◌, ◌≡◌, ◌≢◌, ==_iff, refl, ap, String, List, [], ◌∷◌, not, ◌==◌, arith, keep, All,
}

pub record Socket : Type 0 where
  pub number : ℕ
  pub address : String

pub record Sockets : Type 0 where
  pub count : ℕ
  pub open_numbers : List ℕ

unfoldable pub listen : Sockets → String → Sockets × Socket
listen sockets address = (
  record { count = sockets.count + 1; open_numbers = sockets.count ∷ sockets.open_numbers },
  record { number = sockets.count; address = address },
)

abbrev pub without : ℕ → List ℕ → List ℕ
without number numbers = keep (λ n. not (n == number)) numbers

unfoldable pub close_socket : Sockets → ℕ → Sockets
close_socket sockets number = record sockets { open_numbers = without number sockets.open_numbers }

-- The open sockets are those that are used, and none is numbered as a future one.
pub record IsUsed (sockets : Sockets) (used : List ℕ) : Type 0 where
  pub same : sockets.open_numbers ≡ used
  pub past : All (λ n. n < sockets.count) used

without_fresh : (n : ℕ) (numbers : List ℕ) → All (λ m. m < n) numbers → without n numbers ≡ numbers
without_fresh n [] h = refl
without_fresh n (m ∷ numbers) h = ground (arith, h.0, without_fresh n numbers h.1)

All-without :
    (bound n : ℕ) (numbers : List ℕ)
    → All (λ m. m < bound) numbers
    → All (λ m. m < bound) (without n numbers)
All-without bound n [] h = tt
All-without bound n (m ∷ numbers) h = ground (arith, h.0, All-without bound n numbers h.1)

All-later :
    (bound : ℕ) (numbers : List ℕ) → All (λ m. m < bound) numbers → All (λ m. m < bound + 1) numbers
All-later bound [] h = tt
All-later bound (m ∷ numbers) h = (omega (arith, h.0), All-later bound numbers h.1)

pub without-first :
    (first number : ℕ) (numbers : List ℕ)
    → first ≢ number
    → without number (first ∷ numbers) ≡ first ∷ without number numbers
without-first first number numbers other = ground (arith, other, ==_iff first number)

-- A socket that is opened and used is used.
pub listen-IsUsed :
    (sockets : Sockets) (address : String) (used : List ℕ)
    → IsUsed sockets used
    → IsUsed (listen sockets address).0 ((listen sockets address).1.number ∷ used)
unfolding listen
listen-IsUsed sockets address used u = record {
  same = ap (◌∷◌ sockets.count) u.same;
  past = (omega arith, All-later sockets.count used u.past);
}

-- A socket that is opened and closed again leaves those before it.
pub close-listen-IsUsed :
    (sockets : Sockets) (address : String) (used : List ℕ)
    → IsUsed sockets used
    → IsUsed (close_socket (listen sockets address).0 (listen sockets address).1.number) used
unfolding listen close_socket
close-listen-IsUsed sockets address used u = record {
  same = ground (arith, u.same, without_fresh sockets.count used u.past);
  past = All-later sockets.count used u.past;
}

pub close_socket-IsUsed :
    (sockets : Sockets) (number : ℕ) (used : List ℕ)
    → IsUsed sockets used
    → IsUsed (close_socket sockets number) (without number used)
unfolding close_socket
close_socket-IsUsed sockets number used u = record {
  same = ap (without number) u.same;
  past = All-without sockets.count number used u.past;
}
