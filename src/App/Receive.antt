-- ===== src/App/Receive.antt =====
-- `receiveUDP` of internal/app/app.go: one round of its loop. The repository is the pipeline's; what
-- `WriteToUDP` and the sessions' `Forward` answer, the clock and the identifier are parameters.
use requestinspector_relay.Base.{
  ℕ, ◌≤◌, ◌≡◌, ◌⊎◌, inl, inr, refl, String, List, [], ◌∷◌, Option, none, some, Bool, true, false,
  not, ◌&&◌, ltb, if◌then◌else◌, str_eq, length, take, arith, length-take, take_all, ltb-eq-false,
  Option-cases, if_cases,
}
use requestinspector_relay.Config.{Config, Udp}
use requestinspector_relay.Capture.Model.{
  Exchange, Request, DatagramDelivery, ExchangeError, completed, discarded, udp,
  new_config_snapshot,
}
use requestinspector_relay.Capture.Pipeline.{RepositoryOps, Reserved, refused, unreserved, reserved}

pub record DatagramEnv : Type 0 where
  pub now : ℕ
  pub new_id : Option String
  pub write : List ℕ → ℕ × Option String
  pub forward : Option (List ℕ → Option String)

-- What a datagram brought: the bytes in the buffer, and the two addresses.
pub record Arrival : Type 0 where
  pub content : List ℕ
  pub source : String
  pub local_address : String

-- The repository, the replies written to clients and the datagrams announced, the last one first.
pub record Ingestion (R : Type 0) : Type 0 where
  pub repository : R
  pub replies : List (List ℕ)
  pub announced : List (String × ℕ)

abbrev not_sent : DatagramDelivery
not_sent = record { result = "not_sent"; sent_bytes = 0; message = ""; truncated = false }

-- The request of an exchange that has none.
abbrev no_request : Request
no_request = record {
  method = "";
  scheme = "";
  protocol = "";
  host = "";
  request_target = "";
  path = "";
  raw_query = "";
  remote_address = "";
  headers = [];
  content_type = "";
  body = [];
  observed_body_bytes = 0;
  body_complete = false;
  header_bytes_estimate = 0;
  preview = [];
  preview_truncated = false;
  decoded_preview_bytes = none;
  preview_error = "";
}

-- The reason to discard a datagram; a refused reservation overrides its size.
abbrev discard_error : Bool → Bool → Option ExchangeError
discard_error oversized true = some (record {
  category = "udp_datagram_overload";
  message = "UDP persistence capacity is exhausted.";
})
discard_error true false = some (record {
  category = "udp_datagram_oversized";
  message = "UDP datagram exceeds configured limit.";
})
discard_error false false = none

abbrev reason_of : Option ExchangeError → String
reason_of none = ""
reason_of (some e) = e.category

-- The reply of the capture mode, cut to the accepted bytes.
abbrev capture_reply : Udp → List ℕ → List ℕ
capture_reply cfg payload =
    if ltb (length payload) (length cfg.capture_response)
    then take (length payload) cfg.capture_response
    else cfg.capture_response

abbrev capture_delivery : DatagramEnv → Udp → List ℕ → DatagramDelivery
capture_delivery env cfg payload =
    let truncated = ltb (length payload) (length cfg.capture_response) in
    let (sent, failure) = env.write (capture_reply cfg payload) in
    (elim failure [
      | some text ↦ record {
        result = "failed";
        sent_bytes = sent;
        message = text;
        truncated = truncated;
      }
      | none ↦
          if truncated
          then record {
            result = "truncated";
            sent_bytes = sent;
            message = "Capture reply was limited to accepted datagram bytes.";
            truncated = true;
          }
          else record { result = "sent"; sent_bytes = sent; message = ""; truncated = false }
    ])

abbrev replies_to : Udp → Option ExchangeError → Bool
replies_to cfg (some e) = false
replies_to cfg none = str_eq cfg.mode "capture" && ltb 0 (length cfg.capture_response)

abbrev forward_delivery : (List ℕ → Option String) → List ℕ → DatagramDelivery
forward_delivery forward payload = elim (forward payload) [
  | some text ↦ record not_sent { result = "failed"; message = text }
  | none ↦ record not_sent { result = "forwarded" }
]

unfoldable pub delivery_of : DatagramEnv → Udp → List ℕ → Option ExchangeError → DatagramDelivery
delivery_of env cfg payload (some e) = not_sent
delivery_of env cfg payload none =
    if replies_to cfg none
    then capture_delivery env cfg payload
    else if str_eq cfg.mode "proxy"
    then (elim env.forward [ none ↦ not_sent | some forward ↦ forward_delivery forward payload ])
    else not_sent

-- The exchange of a datagram.
unfoldable pub datagram_exchange : DatagramEnv → Config → ℕ → Arrival → String → Bool → Exchange
unfolding delivery_of
datagram_exchange env cfg revision arrival id is_refused =
    let payload = take cfg.udp.max_datagram_bytes arrival.content in
    let oversized = ltb cfg.udp.max_datagram_bytes (length arrival.content) in
    let error = discard_error oversized is_refused in
    let truncated = ltb cfg.preview.bytes (length payload) in
    record {
      id = id;
      transport = udp;
      mode = cfg.udp.mode;
      config_revision = revision;
      configuration = new_config_snapshot cfg revision;
      revision = 1;
      state = elim error [ none ↦ completed | some e ↦ discarded ];
      started_at = env.now;
      completed_at = env.now;
      duration = 0;
      request = no_request;
      datagram = some (record {
        source_address = arrival.source;
        local_address = arrival.local_address;
        accepted_bytes = length payload;
        payload = payload;
        payload_complete = not oversized;
        preview = if truncated then take cfg.preview.bytes payload else payload;
        preview_truncated = truncated;
        discard_reason = reason_of error;
        delivery = delivery_of env cfg.udp payload error;
      });
      response = none;
      effective_upstream = "";
      upstream_response_header_bytes_estimate = 0;
      upstream_observed_response_body_bytes = 0;
      proxy_timing = none;
      error = error;
      downstream_delivery = record { status = 0; body_bytes = 0; error = "" };
      persistence = none;
      started_monotonic = 0;
    }

module _ {R : Type 0} (ops : RepositoryOps R) where
  -- The exchange is saved, and committed where it has a reservation.
  unfoldable pub settle_datagram : R → Exchange → Reserved → R
  settle_datagram repository e reserved =
      let queued : Exchange = record e {
        persistence = some (record { state = "queued"; error = "" });
      } in
      let (kept, evicted) = ops.save repository queued in
      let (committed, failure) = ops.commit kept queued in
      (elim failure [
        | none ↦ committed
        | some text ↦
            (ops.save committed
              (record queued { persistence = some (record { state = "failed"; error = text }) })).0
      ])
  settle_datagram repository e refused = (ops.save repository e).0
  settle_datagram repository e unreserved = (ops.save repository e).0

  abbrev pub is_refusal : Reserved → Bool
  is_refusal refused = true
  is_refusal unreserved = false
  is_refusal reserved = false

  -- One datagram at an active listener, with the plane's settings in the configuration.
  unfoldable pub receive_datagram : DatagramEnv → Config → ℕ → Arrival → Ingestion R → Ingestion R
  unfolding datagram_exchange settle_datagram
  receive_datagram env cfg revision arrival w = elim env.new_id [
    | none ↦ w
    | some id ↦
        (let payload = take cfg.udp.max_datagram_bytes arrival.content in
          let (repository, answer) = ops.reserve w.repository (length payload) in
          let e = datagram_exchange env cfg revision arrival id (is_refusal answer) in
          record {
            repository = settle_datagram repository e answer;
            replies =
                if replies_to cfg.udp e.error
                then capture_reply cfg.udp payload ∷ w.replies
                else w.replies;
            announced = (id, length payload) ∷ w.announced;
          })
  ]

  accepted :
      (cfg : Udp) (oversized is_refused : Bool)
      → replies_to cfg (discard_error oversized is_refused) ≡ true
      → (oversized ≡ false) × (is_refused ≡ false)
  accepted cfg oversized true h = cc h
  accepted cfg true false h = cc h
  accepted cfg false false h = (refl, refl)

  -- Of the replies that `receiveUDP` itself writes, which are those of the capture mode, a datagram
  -- leads to one at most. It is no longer than the datagram, the limit of a datagram and the
  -- configured reply; and there is none where the datagram is longer than the limit or the storage
  -- has no room for it. Replies of an upstream, in the proxy mode, are not among them.
  pub receive_datagram-replies :
      (env : DatagramEnv) (cfg : Config) (revision : ℕ) (arrival : Arrival) (w : Ingestion R)
      → ((receive_datagram env cfg revision arrival w).replies ≡ w.replies)
        ⊎ ((reply : List ℕ) × ((receive_datagram env cfg revision arrival w).replies
              ≡ reply ∷ w.replies)
            × (length reply ≤ length arrival.content)
            × (length reply ≤ length cfg.udp.capture_response)
            × (length arrival.content ≤ cfg.udp.max_datagram_bytes)
            × (is_refusal
                  (ops.reserve w.repository
                    (length (take cfg.udp.max_datagram_bytes arrival.content))).1
                ≡ false))
  unfolding receive_datagram datagram_exchange
  receive_datagram-replies env cfg revision arrival w = elim (Option-cases env.new_id) [
    | inl unnamed ↦ rw (unnamed, receive_datagram) (inl refl)
    | inr (id, named) ↦
        let payload = take cfg.udp.max_datagram_bytes arrival.content in
        let answer = (ops.reserve w.repository (length payload)).1 in
        let oversized = ltb cfg.udp.max_datagram_bytes (length arrival.content) in
        rw (named, receive_datagram)
          (if_cases {A = List (List ℕ)}
            (λ replies.
              (replies ≡ w.replies)
              ⊎ ((reply : List ℕ) × (replies ≡ reply ∷ w.replies)
                  × (length reply ≤ length arrival.content)
                  × (length reply ≤ length cfg.udp.capture_response)
                  × (length arrival.content ≤ cfg.udp.max_datagram_bytes)
                  × (is_refusal answer ≡ false)))
            (replies_to cfg.udp (discard_error oversized (is_refusal answer))) _ _
            (λ replying.
              let accepting = accepted cfg.udp oversized (is_refusal answer) replying in
              let fits = ltb-eq-false _ _ accepting.0 in
              inr (
                capture_reply cfg.udp payload,
                refl,
                ground (
                  arith,
                  fits,
                  take_all cfg.udp.max_datagram_bytes arrival.content fits,
                  length-take (length payload) cfg.udp.capture_response,
                ),
                ground (arith, length-take (length payload) cfg.udp.capture_response),
                fits,
                accepting.1,
              ))
            (λ silent. inl refl))
  ]
