-- ===== src/Httpapi/Changes.antt =====
-- internal/httpapi/handler.go: a change of the configuration, from the request to the planes that it
-- reloads. `configUpdateMutex` is held to the end of each; the three functions that prepare the
-- reloads are set, as in `Start` of internal/app/app.go. The deferred functions abort the plans that
-- a return leaves, the last one first; each concerns its own plane.
pub mod InStep
use requestinspector_relay.Base.{
  ℕ, ◌+◌, String, List, [], ◌∷◌, Option, none, some, Bool, true, false, not, ◌&&◌, ◌||◌,
  if◌then◌else◌, str_eq, any, Result, ok, err,
}
use requestinspector_relay.Capture.Model.{Exchange}
use requestinspector_relay.Config.{ℤ, Config}
use requestinspector_relay.Config.Validation.{Parsers}
use requestinspector_relay.Config.Overrides.{ConfigError, revision_conflict, Decoders}
use requestinspector_relay.Config.Manager.{
  FileAnswers, Manager, PreparedUpdate, UpdateRequest, prepare, commit,
}
use requestinspector_relay.Events.{EventType, exchange_evicted, config_changed}
use requestinspector_relay.Store.{Memory, resize}
use requestinspector_relay.Httpapi.Reload.{PlaneOps}
use requestinspector_relay.Httpapi.Update.{
  management_settings_changed, traffic_settings_changed, udp_settings_changed,
}

-- A published envelope: its type, the identifier of its exchange, and its revision.
abbrev pub Published : Type 0
Published = EventType × String × ℕ

-- The manager, the three planes, the exchanges in memory, what was published, the last envelope
-- first, and the retention of the storage, if there is one.
pub record Api (Node S1 S2 S3 : Type 0) : Type 0 where
  pub manager : Manager Node
  pub management : S1
  pub traffic : S2
  pub udp : S3
  pub history : Memory
  pub published : List Published
  pub retention : Option ℤ

-- The status and the code of an answer.
abbrev pub Answer : Type 0
Answer = ℕ × String

unfoldable pub config_error : ConfigError → Answer
config_error revision_conflict = (409, "revision_conflict")
config_error _ = (422, "configuration_invalid")

module _ {S P : Type 0} (ops : PlaneOps S P) where
  -- A reload is prepared where the settings changed; `err` is an error of the plane.
  abbrev pub prepare_if : Bool → S → Config → S × Result (Unit {0}) (Option P)
  prepare_if false s next = (s, ok none)
  prepare_if true s next =
      let (held, plan) = ops.prepare s next in
      (held, elim plan [ none ↦ err tt | some p ↦ ok (some p) ])

  abbrev pub abort_plan : S → Option P → S
  abort_plan s none = s
  abort_plan s (some p) = (ops.abort s p).0

  abbrev pub activate_plan : Config → S → Option P → S
  activate_plan current s none = s
  activate_plan current s (some p) = (ops.activate current s p).0

-- The loop of `resizeHistory`.
unfoldable pub publish_resized : List Exchange → List Published → List Published
publish_resized [] published = published
publish_resized (e ∷ evicted) published =
    publish_resized evicted ((exchange_evicted, e.id, e.revision) ∷ published)

abbrev pub keys {ℓ} : {V : Type ℓ} → List (String × V) → List String
keys [] = []
keys ((key, v) ∷ pairs) = key ∷ keys pairs

unfoldable pub contains_any : List String → List String → Bool
contains_any values candidates =
    any (λ value. any (λ candidate. str_eq value candidate) candidates) values

module _ {Node Raw S1 S2 S3 P1 P2 P3 : Type 0} (net : Parsers) (d : Decoders Node)
    (json_node : Raw → Result String Node) (management : PlaneOps S1 P1) (traffic : PlaneOps S2 P2)
    (udp : PlaneOps S3 P3) where
  abbrev pub abort_all : Api Node S1 S2 S3 → Option P1 → Option P2 → Option P3 → Api Node S1 S2 S3
  abort_all api plan1 plan2 plan3 = record api {
    management = abort_plan management api.management plan1;
    traffic = abort_plan traffic api.traffic plan2;
    udp = abort_plan udp api.udp plan3;
  }

  -- The end of `applyConfigurationUpdate`, after `Commit`, with a plan for each plane that changes.
  unfoldable pub settle_update :
      Api Node S1 S2 S3
      → Manager Node × Result ConfigError Config
      → Option P1
      → Option P2
      → Option P3
      → Api Node S1 S2 S3 × Answer
  unfolding publish_resized
  settle_update api (manager, err e) plan1 plan2 plan3 =
      (abort_all (record api { manager = manager }) plan1 plan2 plan3, config_error e)
  settle_update api (manager, ok next) plan1 plan2 plan3 =
      let (history, evicted) = resize api.history next.history.max_exchanges in
      (
        record api {
          manager = manager;
          history = history;
          published =
              (config_changed, "", manager.revision) ∷ publish_resized evicted api.published;
          retention = elim api.retention [
            | none ↦ none
            | some days ↦ some next.storage.retention_days
          ];
          udp = activate_plan udp manager.effective api.udp plan3;
          traffic = activate_plan traffic manager.effective api.traffic plan2;
          management = activate_plan management manager.effective api.management plan1;
        },
        (200, ""),
      )

  -- `applyConfigurationUpdate` from the plan of the UDP plane on.
  unfoldable pub update_udp :
      FileAnswers
      → Api Node S1 S2 S3
      → PreparedUpdate Node
      → Option P1
      → Option P2
      → Api Node S1 S2 S3 × Answer
  unfolding settle_update
  update_udp answers api prepared plan1 plan2 =
      let changed = udp_settings_changed api.manager.effective prepared.effective in
      let (held, plan) = prepare_if udp changed api.udp prepared.effective in
      (elim plan [
        | err e ↦ (
          abort_all (record api { udp = held }) plan1 plan2 none,
          (409, "udp_listener_unavailable"),
        )
        | ok plan3 ↦
            settle_update (record api { udp = held })
              (commit net d json_node answers api.manager prepared) plan1 plan2 plan3
      ])

  -- From the plan of the traffic plane on.
  unfoldable pub update_traffic :
      FileAnswers → Api Node S1 S2 S3 → PreparedUpdate Node → Option P1 → Api Node S1 S2 S3 × Answer
  unfolding update_udp
  update_traffic answers api prepared plan1 =
      let changed = traffic_settings_changed api.manager.effective prepared.effective in
      let (held, plan) = prepare_if traffic changed api.traffic prepared.effective in
      (elim plan [
        | err e ↦ (
          abort_all (record api { traffic = held }) plan1 none none,
          (409, "traffic_listener_unavailable"),
        )
        | ok plan2 ↦ update_udp answers (record api { traffic = held }) prepared plan1 plan2
      ])

  unfoldable pub apply_configuration_update :
      FileAnswers → Api Node S1 S2 S3 → UpdateRequest Raw → Api Node S1 S2 S3 × Answer
  unfolding update_traffic
  apply_configuration_update answers api change =
      elim (prepare net d json_node api.manager change) [
        | err e ↦ (api, config_error e)
        | ok prepared ↦
            (let changed = management_settings_changed api.manager.effective prepared.effective in
              let (held, plan) = prepare_if management changed api.management prepared.effective in
              (elim plan [
                | err e ↦
                    (record api { management = held }, (409, "management_listener_unavailable"))
                | ok plan1 ↦
                    update_traffic answers (record api { management = held }) prepared plan1
              ]))
      ]

  -- `removeOverride`, with the revision that was parsed, if any.
  unfoldable pub remove_override :
      FileAnswers → Api Node S1 S2 S3 → Option ℕ → String → Api Node S1 S2 S3 × Answer
  unfolding apply_configuration_update contains_any
  remove_override answers api none field = (api, (400, "expected_revision_required"))
  remove_override answers api (some expected) field =
      let removals =
        if str_eq field "authentication"
        then "authentication.username" ∷ "authentication.password" ∷ []
        else field ∷ [] in
      if not (contains_any (keys api.manager.overrides) removals)
      then (api, (404, "override_not_found"))
      else apply_configuration_update answers api
          (record { expected_revision = expected; values = []; removals = removals })
