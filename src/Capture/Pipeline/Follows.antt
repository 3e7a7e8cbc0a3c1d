-- ===== src/Capture/Pipeline/Follows.antt =====
-- The invariant of a request in progress: its stored states, its admission and its commit.
use requestinspector_relay.Base.{
  ℕ, suc, ◌≡◌, ◌⊎◌, inl, inr, refl, ◌∙◌, ap, String, List, [], ◌∷◌, Option, true,
}
use requestinspector_relay.Events.{EventType}
use requestinspector_relay.Capture.Model.{Exchange, State, is_terminal}
use requestinspector_relay.Capture.Transition.{valid_transition, entered, transition_lem}
use requestinspector_relay.Capture.Pipeline.{
  DownstreamResponse, EventData, RepositoryOps, Surroundings, World, Effect, saved, published,
  responded, committed, cancelled_reservation, publish_evicted, tick, save, publish, fail,
}
use requestinspector_relay.Capture.Pipeline.Answers.{write_downstream, write_error, error_response}

-- The states that the log's `Save` calls stored, the last one first.
abbrev pub saved_states : List Effect → List State
saved_states [] = []
saved_states (saved e ∷ log) = e.state ∷ saved_states log
saved_states (published _ _ _ _ ∷ log) = saved_states log
saved_states (responded _ ∷ log) = saved_states log
saved_states (committed _ ∷ log) = saved_states log
saved_states (cancelled_reservation ∷ log) = saved_states log

-- How often the reservation was committed.
abbrev pub commits : List Effect → ℕ
commits [] = 0
commits (saved e ∷ log) = commits log
commits (published _ _ _ _ ∷ log) = commits log
commits (responded _ ∷ log) = commits log
commits (committed _ ∷ log) = suc (commits log)
commits (cancelled_reservation ∷ log) = commits log

abbrev pub Moves : State → State → Type 0
Moves from to = (to ≡ from) ⊎ (valid_transition from to ≡ true)

-- Each stored state is the one before it or a valid transition from it.
abbrev pub IsPath : List State → Type 0
IsPath [] = Unit
IsPath (s ∷ []) = Unit
IsPath (s ∷ r ∷ states) = Moves r s × IsPath (r ∷ states)

-- The stored states are a path that ends in `state`, `n` requests are admitted, and nothing has been
-- committed.
pub record Follows {R : Type 0} (n : ℕ) (w : World R) (state : State) : Type 0 where
  pub before : List State
  pub states : saved_states w.log ≡ state ∷ before
  pub path : IsPath (state ∷ before)
  pub admitted : w.admission.in_flight ≡ n
  pub unsettled : commits w.log ≡ 0

pub record Ends {R : Type 0} (n : ℕ) (p : World R × Exchange) : Type 0 where
  pub follows : Follows n p.0 p.1.state
  pub terminal : is_terminal p.1.state ≡ true

pub saved_states-publish_evicted :
    (evicted : List Exchange) (log : List Effect)
    → saved_states (publish_evicted evicted log) ≡ saved_states log
unfolding publish_evicted
saved_states-publish_evicted [] log = refl
saved_states-publish_evicted (e ∷ evicted) log = saved_states-publish_evicted evicted _

pub commits-publish_evicted :
    (evicted : List Exchange) (log : List Effect)
    → commits (publish_evicted evicted log) ≡ commits log
unfolding publish_evicted
commits-publish_evicted [] log = refl
commits-publish_evicted (e ∷ evicted) log = commits-publish_evicted evicted _

module _ {R : Type 0} (ops : RepositoryOps R) (env : Surroundings) where
  pub tick-Follows :
      {n : ℕ} {s : State} (w : World R) → Follows n w s → Follows n (tick ops env w) s
  tick-Follows w f = record {
    before = f.before;
    states = f.states;
    path = f.path;
    admitted = f.admitted;
    unsettled = f.unsettled;
  }

  -- A `Save` stores one state and commits nothing.
  pub save-log :
      (w : World R) (e : Exchange)
      → (saved_states (save ops env w e).log ≡ e.state ∷ saved_states w.log)
        × (commits (save ops env w e).log ≡ commits w.log)
        × ((save ops env w e).admission ≡ w.admission)
  unfolding save
  save-log w e = (
    saved_states-publish_evicted (ops.save w.repository e).1 (saved e ∷ w.log),
    commits-publish_evicted (ops.save w.repository e).1 (saved e ∷ w.log),
    refl,
  )

  pub save-Follows :
      {n : ℕ} {s : State} (w : World R) (e : Exchange)
      → Follows n w s
      → Moves s e.state
      → Follows n (save ops env w e) e.state
  save-Follows {s} w e f m =
      let l = save-log w e in
      record {
        before = s ∷ f.before;
        states = l.0 ∙ ap (◌∷◌ e.state) f.states;
        path = (m, f.path);
        admitted = ap (λ a. a.in_flight) l.2 ∙ f.admitted;
        unsettled = l.1 ∙ f.unsettled;
      }

  pub publish-Follows :
      {n : ℕ} {s : State} (w : World R) (t : EventType) (e : Exchange) (d : Option EventData)
      → Follows n w s
      → Follows n (publish ops env w t e d) s
  unfolding publish
  publish-Follows w t e d f = record {
    before = f.before;
    states = f.states;
    path = f.path;
    admitted = f.admitted;
    unsettled = f.unsettled;
  }

  pub write_downstream-Follows :
      {n : ℕ} {s : State} (w : World R) (r : DownstreamResponse)
      → Follows n w s
      → Follows n (write_downstream env w r).0 s
  unfolding write_downstream
  write_downstream-Follows w r f = record {
    before = f.before;
    states = f.states;
    path = f.path;
    admitted = f.admitted;
    unsettled = f.unsettled;
  }

  pub fail-Ends :
      {n : ℕ} (w : World R) (e : Exchange) (to : State)
      → Follows n w e.state
      → valid_transition e.state to ≡ true
      → is_terminal to ≡ true
      → Ends n (fail ops env w e to)
  unfolding fail
  fail-Ends w e to f v t = elim (transition_lem e to (env.now w.clock)) [
    | inr (bad, _) ↦ cc (v, bad)
    | inl (_, moved, state, _, _, _) ↦
        rw (moved, fail)
          (record {
            follows = publish-Follows _ _ _ _ (
                save-Follows _ (entered e to (env.now w.clock)) (tick-Follows w f)
                  (inr (rw state v)));
            terminal = rw state t;
          })
  ]

  pub write_error-Follows :
      {n : ℕ} {s : State} (w : World R) (status : ℕ) (code message : String)
      → Follows n w s
      → Follows n (write_error env w status code message) s
  unfolding write_error
  write_error-Follows w status code message f =
      write_downstream-Follows w (error_response env status code message) f
