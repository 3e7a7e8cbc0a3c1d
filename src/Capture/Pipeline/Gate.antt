-- ===== src/Capture/Pipeline/Gate.antt =====
-- The admission counters: `admit`, `release`, `rejectAdmission`, `recordBodyTooLarge` and `Metrics`.
-- Each holds the mutex to its end. Requests run side by side, so their calls come in any order.
use requestinspector_relay.Base.{
  ℕ, ◌+◌, ◌-◌, ◌≤◌, ◌≡◌, refl, ◌⊎◌, Bool, true, false, ltb, leb, if◌then◌else◌, arith, suc,
}
use requestinspector_relay.Capture.Pipeline.{Admission}

unfoldable pub admit : Admission → ℕ → Admission × Bool
admit a limit =
    let bound = if ltb limit 1 then 1 else limit in
    if leb bound a.in_flight
    then (record a { admission_rejected = a.admission_rejected + 1 }, false)
    else (record a { in_flight = a.in_flight + 1 }, true)

unfoldable pub release : Admission → Admission
release a = record a { in_flight = a.in_flight - 1 }

unfoldable pub reject_admission : Admission → Admission
reject_admission a = record a { admission_rejected = a.admission_rejected + 1 }

unfoldable pub record_body_too_large : Admission → Admission
record_body_too_large a = record a { body_too_large = a.body_too_large + 1 }

-- The calls of the requests that are being served: an admitted request releases once, at its end.
-- `limit` is the bound of the configuration snapshot that each request takes.
pub data Step (a : Admission) (active : ℕ) (b : Admission) (active' : ℕ) : Type 0 where
  enter :
      (limit : ℕ)
      → (admit a limit).1 ≡ true
      → b ≡ (admit a limit).0
      → active' ≡ suc active
      → Step a active b active'
  turn_away :
      (limit : ℕ)
      → (admit a limit).1 ≡ false
      → b ≡ (admit a limit).0
      → active' ≡ active
      → Step a active b active'
  leave : active ≡ suc active' → b ≡ release a → Step a active b active'
  reject : b ≡ reject_admission a → active' ≡ active → Step a active b active'
  too_large : b ≡ record_body_too_large a → active' ≡ active → Step a active b active'

pub data Reach : Admission → ℕ → Type 0 where
  start : Reach (record { in_flight = 0; admission_rejected = 0; body_too_large = 0 }) 0
  next :
      {a b : Admission} {active active' : ℕ}
      → Reach a active
      → Step a active b active'
      → Reach b active'

Step-in_flight :
    {a b : Admission} {active active' : ℕ}
    → Step a active b active'
    → a.in_flight ≡ active
    → b.in_flight ≡ active'
unfolding admit release reject_admission record_body_too_large
Step-in_flight (enter limit ok e n) h = ground arith
Step-in_flight (turn_away limit no' e n) h = ground arith
Step-in_flight (leave n e) h = ground arith
Step-in_flight (reject e n) h = ground arith
Step-in_flight (too_large e n) h = ground arith

-- In every interleaving of the calls the counter is the number of requests being served, whatever
-- limits the requests saw.
pub Reach-in_flight : {a : Admission} {active : ℕ} → Reach a active → a.in_flight ≡ active
Reach-in_flight start = refl
Reach-in_flight (next r s) = Step-in_flight s (Reach-in_flight r)

-- A request is admitted exactly below the limit it saw, where a limit of 0 counts as 1; its
-- admission keeps the number served within that limit and the count of rejections, and a refusal is
-- counted and keeps the number served.
pub admit_lem :
    (a : Admission) (limit : ℕ)
    → (((admit a limit).1 ≡ true)
        × ((admit a limit).0.in_flight ≡ a.in_flight + 1)
        × ((admit a limit).0.in_flight ≤ (if ltb limit 1 then 1 else limit))
        × ((admit a limit).0.admission_rejected ≡ a.admission_rejected))
      ⊎ (((admit a limit).1 ≡ false)
          × ((admit a limit).0.in_flight ≡ a.in_flight)
          × ((if ltb limit 1 then 1 else limit) ≤ a.in_flight)
          × ((admit a limit).0.admission_rejected ≡ a.admission_rejected + 1))
unfolding admit
admit_lem a limit = ground arith
