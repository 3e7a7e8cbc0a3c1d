-- ===== src/Capture/Transition.antt =====
-- `Exchange.Transition` of internal/capture/model.go.
use requestinspector_relay.Base.{
  ℕ, ◌+◌, ◌-◌, ◌≤◌, arith, ◌≡◌, ◌⊎◌, inl, inr, refl, Bool-cases, Bool, true, false, not, Option,
  none, some, ◌==◌, if◌then◌else◌,
}
use requestinspector_relay.Capture.Model.{
  State, receiving, forwarding, completed, failed, cancelled, discarded, Exchange, is_terminal,
}

unfoldable pub valid_transition : State → State → Bool
valid_transition receiving receiving = false
valid_transition receiving _ = true
valid_transition forwarding completed = true
valid_transition forwarding failed = true
valid_transition forwarding cancelled = true
valid_transition _ _ = false

-- The exchange in its new state. `-` stops at 0, which is the clamp of a negative duration.
unfoldable pub entered : Exchange → State → ℕ → Exchange
unfolding is_terminal
entered exchange next at =
    if is_terminal next
    then record exchange {
      state = next;
      revision = exchange.revision + 1;
      completed_at = at;
      duration =
          at
          - (if not (exchange.started_monotonic == 0)
              then exchange.started_monotonic
              else exchange.started_at);
    }
    else record exchange { state = next; revision = exchange.revision + 1 }

-- `none` is the error.
unfoldable pub transition : Exchange → State → ℕ → Option Exchange
transition exchange next at =
    if not (valid_transition exchange.state next) then none else some (entered exchange next at)

pub entered-state :
    (e : Exchange) (next : State) (at : ℕ)
    → ((entered e next at).state ≡ next) × ((entered e next at).revision ≡ e.revision + 1)
unfolding entered
entered-state e receiving at = (refl, refl)
entered-state e _ at = (refl, refl)

entered-completed :
    (e : Exchange) (next : State) (at : ℕ)
    → ((entered e next at).completed_at ≡ (if is_terminal next then at else e.completed_at))
      × ((if is_terminal next then (entered e next at).duration else 0) ≤ at)
unfolding entered is_terminal
entered-completed e receiving at = (refl, omega arith)
entered-completed e forwarding at = (refl, omega arith)
entered-completed e completed at = (refl, omega arith)
entered-completed e failed at = (refl, omega arith)
entered-completed e cancelled at = (refl, omega arith)
entered-completed e discarded at = (refl, omega arith)

no_exit : (s t : State) → is_terminal s ≡ true → valid_transition s t ≡ false
unfolding is_terminal valid_transition
no_exit receiving t h = cc
no_exit forwarding t h = cc
no_exit completed t h = refl
no_exit failed t h = refl
no_exit cancelled t h = refl
no_exit discarded t h = refl

-- A transition succeeds exactly along the state machine; it then enters the state and counts one
-- revision; exactly a terminal state takes the time of the transition as the completion's, and its
-- duration is at most that time.
pub transition_lem :
    (e : Exchange) (next : State) (at : ℕ)
    → ((valid_transition e.state next ≡ true)
        × (transition e next at ≡ some (entered e next at))
        × ((entered e next at).state ≡ next)
        × ((entered e next at).revision ≡ e.revision + 1)
        × ((entered e next at).completed_at ≡ (if is_terminal next then at else e.completed_at))
        × ((if is_terminal next then (entered e next at).duration else 0) ≤ at))
      ⊎ ((valid_transition e.state next ≡ false) × (transition e next at ≡ none))
unfolding transition
transition_lem e next at = elim (Bool-cases (valid_transition e.state next)) [
  | inr bad ↦ inr (bad, rw (bad, transition))
  | inl good ↦ inl (
    good,
    rw (good, transition),
    (entered-state e next at).0,
    (entered-state e next at).1,
    (entered-completed e next at).0,
    (entered-completed e next at).1,
  )
]

-- A terminal state is final: no transition leaves it.
terminal-is_final :
    (e : Exchange) (next : State) (at : ℕ)
    → is_terminal e.state ≡ true
    → transition e next at ≡ none
unfolding transition
terminal-is_final e next at h = rw (no_exit e.state next h, transition)
