-- ===== src/Capture/Pipeline/Outcome.antt =====
-- How every request ends: its exchange is terminal, its saved states follow the state machine, and
-- the admission is given back.
use requestinspector_relay.Base.{
  ℕ, ◌+◌, ◌≡◌, ◌⊎◌, inl, inr, refl, sym, ◌∙◌, ap, String, Bool, true, ◌&&◌, ◌||◌, ltb, str_eq,
  arith, Bool-cases, Option-cases, subst,
}
use requestinspector_relay.Capture.Model.{
  ConfigSnapshot, Exchange, State, receiving, forwarding, completed, failed, cancelled, is_terminal,
}
use requestinspector_relay.Capture.Transition.{valid_transition, entered, transition_lem}
use requestinspector_relay.Capture.Body.{
  Reader, BodyError, body_too_large, limit_not_positive, read_failed, read_body,
}
use requestinspector_relay.Capture.Pipeline.{
  DownstreamResponse, HandleError, RepositoryOps, Surroundings, World, tick, fail,
}
use requestinspector_relay.Capture.Pipeline.Gate.{record_body_too_large}
use requestinspector_relay.Capture.Pipeline.Answers.{
  write_error, write_response, error_response, mode_failure, apply_mode_result,
}
use requestinspector_relay.Capture.Pipeline.Serve.{
  complete, deliver, announce, with_failure, answer_failure, handle, forward, request_complete,
  refuse_body, process, with_body, count_body_failure,
}
use requestinspector_relay.Capture.Pipeline.Follows.{
  Follows, Ends, tick-Follows, save-Follows, publish-Follows, write_downstream-Follows, fail-Ends,
  write_error-Follows,
}

module _ {R : Type 0} (ops : RepositoryOps R) (env : Surroundings) where
  -- A failure that is answered by an error response.
  fail_answered-Ends :
      {n : ℕ} (w : World R) (e : Exchange) (status : ℕ) (code message : String)
      → Follows n w e.state
      → valid_transition e.state failed ≡ true
      → Ends n (
        write_error env (fail ops env w e failed).0 status code message,
        (fail ops env w e failed).1,
      )
  unfolding is_terminal
  fail_answered-Ends w e status code message f v =
      let ended = fail-Ends ops env w e failed f v refl in
      record {
        follows = write_error-Follows ops env _ status code message ended.follows;
        terminal = ended.terminal;
      }

  -- The exchange waits for its end: no terminal state yet.
  abbrev pub IsActive : State → Type 0
  IsActive s = (s ≡ receiving) ⊎ (s ≡ forwarding)

  IsActive-exits :
      (s : State)
      → IsActive s
      → (valid_transition s completed ≡ true)
        × (valid_transition s failed ≡ true)
        × (valid_transition s cancelled ≡ true)
  unfolding valid_transition
  IsActive-exits s (inl e) = rw e (refl, refl, refl)
  IsActive-exits s (inr e) = rw e (refl, refl, refl)

  complete-Ends :
      {n : ℕ} (w : World R) (e : Exchange)
      → Follows n w e.state
      → IsActive e.state
      → Ends n (complete ops env w e)
  unfolding complete is_terminal
  complete-Ends w e f a = elim (transition_lem e completed (env.now w.clock)) [
    | inr (bad, _) ↦ cc (bad, (IsActive-exits e.state a).0)
    | inl (v, moved, state, _, _, _) ↦
        rw (moved, complete)
          (record {
            follows =
                save-Follows ops env _ (entered e completed (env.now w.clock))
                  (tick-Follows ops env w f) (inr (rw state v));
            terminal = rw state refl;
          })
  ]

  write_response-state :
      (w : World R) (e : Exchange) (r : DownstreamResponse)
      → (write_response env w e r).1.state ≡ e.state
  unfolding write_response
  write_response-state w e r = ground arith

  write_response-Follows :
      {n : ℕ} {s : State} (w : World R) (e : Exchange) (r : DownstreamResponse)
      → Follows n w s
      → Follows n (write_response env w e r).0 s
  unfolding write_response
  write_response-Follows w e r f =
      let f' = write_downstream-Follows ops env (tick ops env w) r (tick-Follows ops env w f) in
      record {
        before = f'.before;
        states = f'.states;
        path = f'.path;
        admitted = f'.admitted;
        unsettled = f'.unsettled;
      }

  deliver-Ends :
      {n : ℕ} (w : World R) (e : Exchange) (r : DownstreamResponse)
      → Follows n w e.state
      → IsActive e.state
      → Ends n (deliver ops env w e r)
  unfolding deliver is_terminal
  deliver-Ends {n} w e r f a =
      let same = write_response-state w e r in
      let f' =
        subst (Follows n (write_response env w e r).0) (sym same)
          (write_response-Follows w e r f) in
      let a' = subst IsActive (sym same) a in
      elim (Option-cases (write_response env w e r).3) [
        | inl sent ↦ rw (sent, deliver) (complete-Ends _ _ f' a')
        | inr (text, broken) ↦
            rw (broken, deliver) (fail-Ends ops env _ _ failed f' (IsActive-exits _ a').1 refl)
      ]

  announce-Follows :
      {n : ℕ} (w : World R) (e : Exchange) (snapshot : ConfigSnapshot)
      → Follows n w e.state
      → Follows n (announce ops env w e snapshot).0 (announce ops env w e snapshot).1.state
        × ((announce ops env w e snapshot).1.state ≡ e.state)
  unfolding announce
  announce-Follows w e snapshot f = elim (Option-cases e.response) [
    | inl missing ↦ rw (missing, announce) (f, refl)
    | inr (r, present) ↦
        elim (Bool-cases (str_eq snapshot.mode "proxy" && str_eq r.origin "upstream")) [
          | inr quiet ↦ rw (present, announce) (rw quiet (f, refl))
          | inl told ↦
              rw (present, announce)
                (rw told
                  (publish-Follows ops env _ _ _ _ (save-Follows ops env w _ f (inl refl)), refl))
        ]
  ]

  mode_failure-exits :
      (err : HandleError) (gone : Bool) (s : State)
      → IsActive s
      → (valid_transition s (mode_failure err gone).0 ≡ true)
        × (is_terminal (mode_failure err gone).0 ≡ true)
  unfolding mode_failure is_terminal
  mode_failure-exits err gone s a = elim (Bool-cases (err.is_canceled || gone)) [
    | inl away ↦ rw (away, mode_failure) ((IsActive-exits s a).2, refl)
    | inr here ↦ elim (Option-cases err.failure) [
      | inl other ↦ rw (here, mode_failure) (rw other ((IsActive-exits s a).1, refl))
      | inr (m, known) ↦ rw (here, mode_failure) (rw known ((IsActive-exits s a).1, refl))
    ]
  ]

  with_failure-state :
      (e : Exchange) (snapshot : ConfigSnapshot) (m : State × ℕ × String × String)
      → (with_failure ops env e snapshot m).state ≡ e.state
  unfolding with_failure
  with_failure-state e snapshot (state, status, category, message) = ground arith

  answer_failure-Ends :
      {n : ℕ} (w : World R) (e : Exchange) (snapshot : ConfigSnapshot) (err : HandleError)
      → Follows n w e.state
      → IsActive e.state
      → Ends n (answer_failure ops env w e snapshot err)
  unfolding answer_failure
  answer_failure-Ends {n} w e snapshot err f a =
      let m = mode_failure err env.is_canceled in
      let r = error_response env m.1 m.2 m.3 in
      let e2 = with_failure ops env e snapshot m in
      let same = write_response-state w e2 r ∙ with_failure-state e snapshot m in
      let exits = mode_failure-exits err env.is_canceled e.state a in
      fail-Ends ops env _ _ m.0
        (subst (Follows n (write_response env w e2 r).0) (sym same)
          (write_response-Follows w e2 r f))
        (rw same exits.0) exits.1

  counted-Follows :
      {n : ℕ} {s : State} (w : World R) (err : BodyError)
      → Follows n w s
      → Follows n (count_body_failure ops env w err) s
  unfolding count_body_failure record_body_too_large
  counted-Follows w body_too_large f = record {
    before = f.before;
    states = f.states;
    path = f.path;
    admitted = f.admitted;
    unsettled = f.unsettled;
  }
  counted-Follows w limit_not_positive f = f
  counted-Follows w (read_failed cause) f = f

  module _ (snapshot : ConfigSnapshot) where
    handle-Ends :
        {n : ℕ} (w : World R) (e : Exchange)
        → Follows n w e.state
        → IsActive e.state
        → Ends n (handle ops env w e snapshot)
    unfolding handle apply_mode_result
    handle-Ends w e f a = elim (Option-cases (env.handlers snapshot.mode)) [
      | inl missing ↦
          rw (missing, handle) (fail_answered-Ends w _ _ _ _ f (IsActive-exits e.state a).1)
      | inr (handler, found) ↦
          let e' = apply_mode_result e (handler e.request snapshot).0 in
          let told = announce-Follows w e' snapshot f in
          elim (Option-cases (handler e.request snapshot).1) [
            | inr (err, broken) ↦
                rw (found, handle) (rw broken (answer_failure-Ends w e' snapshot err f a))
            | inl fine ↦
                rw (found, handle)
                  (rw fine (deliver-Ends _ _ _ told.0 (subst IsActive (sym told.1) a)))
          ]
    ]

    forward-Ends :
        {n : ℕ} (w : World R) (e : Exchange)
        → Follows n w e.state
        → e.state ≡ receiving
        → Ends n (forward ops env w e snapshot)
    unfolding forward valid_transition
    forward-Ends w e f r = elim (Bool-cases (str_eq snapshot.mode "proxy")) [
      | inr capture ↦ rw (capture, forward) (handle-Ends w e f (inl r))
      | inl proxy ↦ elim (transition_lem e forwarding (env.now w.clock)) [
        | inr (bad, _) ↦ cc (bad, ap (λ s. valid_transition s forwarding) r)
        | inl (v, moved, state, _, _, _) ↦
            rw (proxy, forward)
              (rw moved (
                handle-Ends _ _
                  (save-Follows ops env _ (entered e forwarding (env.now w.clock))
                    (tick-Follows ops env w f) (inr (rw state v)))
                  (inr state)))
      ]
    ]

    request_complete-Ends :
        {n : ℕ} (w : World R) (e : Exchange)
        → Follows n w e.state
        → e.state ≡ receiving
        → Ends n (request_complete ops env w e snapshot)
    unfolding request_complete
    request_complete-Ends w e f r =
        forward-Ends _ (record e { revision = e.revision + 1 })
          (publish-Follows ops env _ _ _ _
            (save-Follows ops env w (record e { revision = e.revision + 1 }) f (inl refl)))
          r

    refuse_body-Ends :
        {n : ℕ} (w : World R) (e : Exchange) (err : BodyError)
        → Follows n w e.state
        → e.state ≡ receiving
        → Ends n (refuse_body ops env w e err)
    unfolding refuse_body
    refuse_body-Ends w e err f r =
        fail_answered-Ends (count_body_failure ops env w err) _ _ _ _ (counted-Follows w err f)
          (IsActive-exits e.state (inl r)).1

    -- An exchange that was stored as received ends in a terminal state, whatever its headers, its
    -- body, the handler and the writer do: each state stored on the way is the one before or a valid
    -- transition of it, the last one stored is the one it ends in, its reservation is not committed
    -- yet, and the number of admitted requests is as before.
    pub process-Ends :
        {n : ℕ} (w : World R) (e : Exchange) (body : Reader)
        → Follows n w e.state
        → e.state ≡ receiving
        → Ends n (process ops env w e snapshot body)
    unfolding process with_body
    process-Ends w e body f r =
        elim (Bool-cases
          (ltb snapshot.limits.request_header_bytes e.request.header_bytes_estimate)) [
            | inl large ↦
                rw (large, process)
                  (fail_answered-Ends w _ _ _ _ f (IsActive-exits e.state (inl r)).1)
            | inr small ↦
                elim (Option-cases (read_body body snapshot.limits.request_body_bytes).2) [
                  | inr (err, bad) ↦ rw (small, process) (rw bad (refuse_body-Ends w _ err f r))
                  | inl whole ↦ rw (small, process) (rw whole (request_complete-Ends w _ f r))
                ]
          ]
