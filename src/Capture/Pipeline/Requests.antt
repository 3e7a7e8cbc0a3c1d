-- ===== src/Capture/Pipeline/Requests.antt =====
-- What `ServeHTTP` guarantees for a whole request.
use requestinspector_relay.Base.{
  ℕ, suc, ◌+◌, ◌≡◌, ◌≢◌, inl, inr, refl, ◌∙◌, ap, String, List, [], ◌∷◌, Option, none, some, Bool,
  true, false, ltb, ◌<◌, if◌then◌else◌, arith, Option-cases, subst,
}
use requestinspector_relay.Capture.Model.{ConfigSnapshot, Exchange, State, receiving, is_terminal}
use requestinspector_relay.Capture.Pipeline.{
  RepositoryOps, Surroundings, World, Effect, Reserved, responded, committed, refused, unreserved,
  reserved, reserved_size, normalized_status, tick, save, publish,
}
use requestinspector_relay.Capture.Pipeline.Gate.{admit, admit_lem, release, reject_admission}
use requestinspector_relay.Capture.Pipeline.Answers.{write_error, error_response, write_downstream}
use requestinspector_relay.Capture.Pipeline.Serve.{
  Incoming, process, commit_terminal, cancel_reservation, start_exchange, serve_admitted,
  serve_http, new_exchange,
}
use requestinspector_relay.Capture.Pipeline.Follows.{
  saved_states, commits, IsPath, Follows, Ends, save-Follows, save-log,
}
use requestinspector_relay.Capture.Pipeline.Outcome.{process-Ends}

module _ {R : Type 0} (ops : RepositoryOps R) (env : Surroundings) where
  -- The request's exchange is settled: its stored states are a path to a terminal state, and it was
  -- committed as often as `k` says.
  pub record IsSettled (n k : ℕ) (w : World R) : Type 0 where
    pub last : State
    pub before : List State
    pub states : saved_states w.log ≡ last ∷ before
    pub path : IsPath (last ∷ before)
    pub terminal : is_terminal last ≡ true
    pub admitted : w.admission.in_flight ≡ n
    pub settled : commits w.log ≡ k

  commit_terminal-IsSettled :
      {n : ℕ} (w : World R) (e : Exchange)
      → Ends n (w, e)
      → IsSettled n 1 (commit_terminal ops env (w, e))
  unfolding commit_terminal
  commit_terminal-IsSettled w e ends =
      let f = ends.follows in
      let queued : Exchange = record e {
        persistence = some (record { state = "queued"; error = "" });
      } in
      let w1 = save ops env w queued in
      let f1 = save-Follows ops env w queued f (inl refl) in
      elim (Option-cases (ops.commit w1.repository queued).1) [
        | inl done ↦
            rw (ends.terminal, commit_terminal)
              (rw done (record {
                last = e.state;
                before = f1.before;
                states = f1.states;
                path = f1.path;
                terminal = ends.terminal;
                admitted = f1.admitted;
                settled = ap suc f1.unsettled;
              }))
        | inr (text, broken) ↦
            let w2 : World R = record w1 {
              repository = (ops.commit w1.repository queued).0;
              log = committed queued ∷ w1.log;
            } in
            let l =
              save-log ops env w2 (record queued {
                persistence = some (record { state = "failed"; error = text });
              }) in
            rw (ends.terminal, commit_terminal)
              (rw broken (record {
                last = e.state;
                before = e.state ∷ f1.before;
                states = l.0 ∙ ap (◌∷◌ e.state) f1.states;
                path = (inl refl, f1.path);
                terminal = ends.terminal;
                admitted = ap (λ a. a.in_flight) l.2 ∙ f1.admitted;
                settled = l.1 ∙ ap suc f1.unsettled;
              }))
      ]

  start-Follows :
      (w : World R) (incoming : Incoming) (snapshot : ConfigSnapshot) (id : String)
      → w.log ≡ []
      → env.new_id ≡ some id
      → Follows w.admission.in_flight (start_exchange ops env w incoming snapshot).0 receiving
        × ((start_exchange ops env w incoming snapshot).1
            ≡ some (new_exchange env.canonical incoming snapshot id (env.now w.clock)))
  unfolding start_exchange publish new_exchange
  start-Follows w incoming snapshot id empty named =
      let e = new_exchange env.canonical incoming snapshot id (env.now w.clock) in
      let l = save-log ops env (tick ops env w) e in
      rw (named, start_exchange)
        (
          record {
            before = [];
            states = l.0 ∙ ap (λ l. receiving ∷ saved_states l) empty;
            path = tt;
            admitted = ap (λ a. a.in_flight) l.2;
            unsettled = l.1 ∙ ap commits empty;
          },
          refl,
        )

  abbrev commits_for : Bool → ℕ
  commits_for true = 1
  commits_for false = 0

  -- An admitted request whose exchange gets an identifier is settled, with one commit if it holds a
  -- reservation and none if not.
  serve_admitted-IsSettled :
      (w : World R) (incoming : Incoming) (snapshot : ConfigSnapshot) (id : String)
      (has_reservation : Bool)
      → w.log ≡ []
      → env.new_id ≡ some id
      → IsSettled w.admission.in_flight
          (commits_for has_reservation)
          (serve_admitted ops env w incoming snapshot has_reservation)
  unfolding serve_admitted new_exchange cancel_reservation
  serve_admitted-IsSettled w incoming snapshot id true empty named =
      let (f, started) = start-Follows w incoming snapshot id empty named in
      let e = new_exchange env.canonical incoming snapshot id (env.now w.clock) in
      let w1 = (start_exchange ops env w incoming snapshot).0 in
      let ends = process-Ends ops env snapshot w1 e incoming.body f refl in
      let s =
        commit_terminal-IsSettled (process ops env w1 e snapshot incoming.body).0
          (process ops env w1 e snapshot incoming.body).1 ends in
      rw (started, serve_admitted)
        (record {
          last = s.last;
          before = s.before;
          states = s.states;
          path = s.path;
          terminal = s.terminal;
          admitted = s.admitted;
          settled = s.settled;
        })
  serve_admitted-IsSettled w incoming snapshot id false empty named =
      let (f, started) = start-Follows w incoming snapshot id empty named in
      let e = new_exchange env.canonical incoming snapshot id (env.now w.clock) in
      let w1 = (start_exchange ops env w incoming snapshot).0 in
      let ends = process-Ends ops env snapshot w1 e incoming.body f refl in
      rw (started, serve_admitted)
        (record {
          last = (process ops env w1 e snapshot incoming.body).1.state;
          before = ends.follows.before;
          states = ends.follows.states;
          path = ends.follows.path;
          terminal = ends.terminal;
          admitted = ends.follows.admitted;
          settled = ends.follows.unsettled;
        })

  abbrev pub commits_of : Reserved → ℕ
  commits_of refused = 0
  commits_of unreserved = 0
  commits_of reserved = 1

  admitted_world : World R → ConfigSnapshot → World R
  admitted_world w snapshot = record w {
    admission = (admit w.admission snapshot.limits.concurrent_exchanges).0;
    repository = (ops.reserve w.repository (reserved_size snapshot)).0;
  }

  released-IsSettled :
      {n k : ℕ} (w : World R)
      → IsSettled (n + 1) k w
      → IsSettled n k (record w { admission = release w.admission })
  unfolding release
  released-IsSettled w s = record {
    last = s.last;
    before = s.before;
    states = s.states;
    path = s.path;
    terminal = s.terminal;
    admitted = omega (arith, s.admitted);
    settled = s.settled;
  }

  -- From an empty log, a request that is admitted, not refused by the persistence, and given an
  -- identifier is settled, whatever its content, the handler, the writer and the repository do: each
  -- state that is stored is the one before or a valid transition of it, and the last one is
  -- terminal; it is committed exactly once if it holds a reservation and never without one; and
  -- the number of admitted requests is as before.
  pub serve_http-IsSettled :
      (w : World R) (incoming : Incoming) (snapshot : ConfigSnapshot) (id : String)
      → w.log ≡ []
      → env.new_id ≡ some id
      → (admit w.admission snapshot.limits.concurrent_exchanges).1 ≡ true
      → (ops.reserve w.repository (reserved_size snapshot)).1 ≢ refused
      → IsSettled w.admission.in_flight
          (commits_of (ops.reserve w.repository (reserved_size snapshot)).1)
          (serve_http ops env w incoming snapshot)
  unfolding serve_http admitted_world
  serve_http-IsSettled w incoming snapshot id empty named open' admitted =
      let entered : (admit w.admission snapshot.limits.concurrent_exchanges).0.in_flight
          ≡ w.admission.in_flight + 1 =
        ground (arith, admit_lem w.admission snapshot.limits.concurrent_exchanges) in
      by_answer (ops.reserve w.repository (reserved_size snapshot)).1 refl entered
    where
      w2 : World R
      w2 = admitted_world w snapshot

      by_answer :
          (answer : Reserved)
          → (ops.reserve w.repository (reserved_size snapshot)).1 ≡ answer
          → (admit w.admission snapshot.limits.concurrent_exchanges).0.in_flight
            ≡ w.admission.in_flight + 1
          → IsSettled w.admission.in_flight
              (commits_of (ops.reserve w.repository (reserved_size snapshot)).1)
              (serve_http ops env w incoming snapshot)
      by_answer refused e n = absurd (admitted e)
      by_answer unreserved e n =
          rw (open', serve_http)
            (rw e (
              released-IsSettled (serve_admitted ops env w2 incoming snapshot false) (
                subst (λ m. IsSettled m 0 (serve_admitted ops env w2 incoming snapshot false)) n
                  (serve_admitted-IsSettled w2 incoming snapshot id false empty named))))
      by_answer reserved e n =
          rw (open', serve_http)
            (rw e (
              released-IsSettled (serve_admitted ops env w2 incoming snapshot true) (
                subst (λ m. IsSettled m 1 (serve_admitted ops env w2 incoming snapshot true)) n
                  (serve_admitted-IsSettled w2 incoming snapshot id true empty named))))

  -- The status of an answer that the log notes first.
  abbrev pub answered : List Effect → Option ℕ
  answered (responded r ∷ _) = some r.status
  answered _ = none

  -- From an empty log, a request below the limit that the persistence refuses is answered 503,
  -- nothing of it is stored, its admission is given back, and it is counted as rejected.
  pub serve_http-unpersisted :
      (w : World R) (incoming : Incoming) (snapshot : ConfigSnapshot)
      → w.log ≡ []
      → w.admission.in_flight < (
          if ltb snapshot.limits.concurrent_exchanges 1
          then 1
          else snapshot.limits.concurrent_exchanges)
      → (ops.reserve w.repository (reserved_size snapshot)).1 ≡ refused
      → (answered (serve_http ops env w incoming snapshot).log ≡ some 503)
        × (saved_states (serve_http ops env w incoming snapshot).log ≡ [])
        × ((serve_http ops env w incoming snapshot).admission.in_flight ≡ w.admission.in_flight)
        × ((serve_http ops env w incoming snapshot).admission.admission_rejected
            ≡ w.admission.admission_rejected + 1)
  unfolding serve_http release reject_admission write_error write_downstream error_response
      normalized_status
  serve_http-unpersisted w incoming snapshot empty room refusal =
      let bound =
        if ltb snapshot.limits.concurrent_exchanges 1
        then 1
        else snapshot.limits.concurrent_exchanges in
      let open' : (admit w.admission snapshot.limits.concurrent_exchanges).1 ≡ true =
        ground (arith, admit_lem w.admission snapshot.limits.concurrent_exchanges) in
      let entered : (admit w.admission snapshot.limits.concurrent_exchanges).0.in_flight
          ≡ w.admission.in_flight + 1 =
        ground (arith, admit_lem w.admission snapshot.limits.concurrent_exchanges) in
      let counted : (admit w.admission snapshot.limits.concurrent_exchanges).0.admission_rejected
          ≡ w.admission.admission_rejected =
        ground (arith, admit_lem w.admission snapshot.limits.concurrent_exchanges) in
      rw (open', serve_http)
        (rw refusal (refl, ap saved_states empty, omega (arith, entered), omega (arith, counted)))
