-- ===== src/Httpapi/Changes/InStep.antt =====
-- What runs is what is configured, whatever becomes of a change.
use requestinspector_relay.Base.{
  ℕ, ◌≡◌, ◌≢◌, ◌⊎◌, inl, inr, refl, sym, ◌∙◌, ap, subst, String, Option, none, some, Bool, true,
  false, ltb, arith, if◌then◌else◌, if_cases, Result, ok, err, result_cases, not,
}
use requestinspector_relay.Config.{ℤ, Config}
use requestinspector_relay.Config.Validation.{Parsers}
use requestinspector_relay.Config.Overrides.{ConfigError, Decoders}
use requestinspector_relay.Config.Manager.{
  FileAnswers, Manager, PreparedUpdate, UpdateRequest, prepare,
}
use requestinspector_relay.Config.Manager.Runs.{
  IsConsistent, commit-IsConsistent, commit-Committed, Committed, SameSettings, NextSettings,
}
use requestinspector_relay.Store.Eviction.{IsValid, resize-IsValid, resize-capacity}
use requestinspector_relay.Httpapi.Reload.{PlaneOps, IsPlane, Completes}
use requestinspector_relay.Httpapi.Update.{
  management_settings_changed, traffic_settings_changed, udp_settings_changed,
}
use requestinspector_relay.Httpapi.Changes.{
  Api, Answer, config_error, prepare_if, abort_plan, activate_plan, settle_update, update_udp,
  update_traffic, apply_configuration_update, remove_override, contains_any, keys,
}

-- A plane that is free, and serves a configuration.
abbrev pub Runs : {S : Type 0} → (S → Type 0) → (S → Config → Type 0) → Config → S → Type 0
Runs IsFree Serves cfg s = IsFree s × Serves s cfg

module _ {S P : Type 0} (ops : PlaneOps S P) (IsFree : S → Type 0) (Serves : S → Config → Type 0)
    (current next : Config) where
  -- A plane with a plan: aborted it runs with the old settings, activated with the new ones.
  abbrev pub IsReady : S → Option P → Type 0
  IsReady s plan =
      Runs IsFree Serves current (abort_plan ops s plan)
      × Runs IsFree Serves next (activate_plan ops next s plan)

  abbrev pub Ready : S × Result (Unit {0}) (Option P) → Type 0
  Ready (s, err u) = Runs IsFree Serves current s
  Ready (s, ok plan) = IsReady s plan

  pub prepare_if-Ready :
      (changed : Config → Config → Bool) (s : S)
      → IsPlane ops IsFree Serves changed
      → Runs IsFree Serves current s
      → Ready (prepare_if ops (changed current next) s next)
  prepare_if-Ready changed s laws runs = by_changed (changed current next) refl
    where
      by_prepared :
          (after : S × Option P)
          → Completes ops IsFree Serves current next after
          → Ready (after.0, elim after.1 [ none ↦ err tt | some p ↦ ok (some p) ])
      by_prepared (s', none) c = c
      by_prepared (s', some p) c = ((c.0, c.1), (c.2, c.3))

      by_changed : (b : Bool) → changed current next ≡ b → Ready (prepare_if ops b s next)
      by_changed false same = (runs, (runs.0, laws.unchanged s current next same runs.1))
      by_changed true differs =
          by_prepared (ops.prepare s next) (laws.completes s current next runs.0 runs.1)

abbrev pub Retains : Option ℤ → ℤ → Type 0
Retains none days = Unit
Retains (some kept) days = kept ≡ days

Retains-renewed :
    (o : Option ℤ) {days days' : ℤ}
    → days ≡ days'
    → Retains (elim o [ none ↦ none | some kept ↦ some days ]) days'
Retains-renewed none e = tt
Retains-renewed (some kept) e = e

module _ {Node Raw S1 S2 S3 P1 P2 P3 : Type 0} (net : Parsers) (d : Decoders Node)
    (json_node : Raw → Result String Node) (management : PlaneOps S1 P1) (traffic : PlaneOps S2 P2)
    (udp : PlaneOps S3 P3) (F1 : S1 → Type 0) (F2 : S2 → Type 0) (F3 : S3 → Type 0)
    (V1 : S1 → Config → Type 0) (V2 : S2 → Config → Type 0) (V3 : S3 → Config → Type 0) where
  -- The manager, the history and the retention of the interface stand as its configuration says.
  pub record IsKept (cfg : Config) (api : Api Node S1 S2 S3) : Type 0 where
    pub consistent : IsConsistent net d json_node api.manager
    pub effective : api.manager.effective ≡ cfg
    pub valid : IsValid api.history
    pub capacity :
        api.history.capacity
        ≡ (if ltb cfg.history.max_exchanges 1 then 1 else cfg.history.max_exchanges)
    pub retention : Retains api.retention cfg.storage.retention_days

  -- All parts of the program run with the effective configuration, and no lock is held.
  pub record IsInStep (api : Api Node S1 S2 S3) : Type 0 where
    pub kept : IsKept api.manager.effective api
    pub manages : Runs F1 V1 api.manager.effective api.management
    pub receives : Runs F2 V2 api.manager.effective api.traffic
    pub listens : Runs F3 V3 api.manager.effective api.udp

  -- All or nothing: an answer of 200 and what `Prepare` made of the change adopted, or another
  -- answer and the same settings and history, with nothing published; in both cases all parts are in
  -- step.
  abbrev pub Updated : Api Node S1 S2 S3 → UpdateRequest Raw → Api Node S1 S2 S3 × Answer → Type 0
  Updated before change after =
      IsInStep after.0
      × (((after.1.0 ≡ 200)
            × (prepared : PreparedUpdate Node) × (prepare net d json_node before.manager change
                ≡ ok prepared)
            × NextSettings net d json_node before.manager prepared after.0.manager)
          ⊎ ((after.1.0 ≢ 200)
              × SameSettings net d json_node before.manager after.0.manager
              × (after.0.history ≡ before.history)
              × (after.0.published ≡ before.published)
              × (after.0.retention ≡ before.retention)))

  -- Before the commit, each plane is ready for either.
  record IsPending (next : Config) (api : Api Node S1 S2 S3) (plan1 : Option P1) (plan2 : Option P2)
      (plan3 : Option P3) : Type 0 where
    pub kept : IsKept api.manager.effective api
    pub manages : IsReady management F1 V1 api.manager.effective next api.management plan1
    pub receives : IsReady traffic F2 V2 api.manager.effective next api.traffic plan2
    pub listens : IsReady udp F3 V3 api.manager.effective next api.udp plan3

  config_error-ne_ok : (e : ConfigError) → (config_error e).0 ≢ 200
  unfolding config_error
  config_error-ne_ok e = ground arith

  settle_update-Updated :
      (api : Api Node S1 S2 S3) (change : UpdateRequest Raw) (prepared : PreparedUpdate Node)
      (after : Manager Node × Result ConfigError Config) (plan1 : Option P1) (plan2 : Option P2)
      (plan3 : Option P3)
      → prepare net d json_node api.manager change ≡ ok prepared
      → Committed net d json_node api.manager prepared after
      → IsConsistent net d json_node after.0
      → IsPending prepared.effective api plan1 plan2 plan3
      → Updated api change
          (settle_update net d json_node management traffic udp api after plan1 plan2 plan3)
  unfolding settle_update
  settle_update-Updated api change prepared (manager, err e) plan1 plan2 plan3 from kept c pending =
      let k = pending.kept in
      let same = kept.0 in
      (
        record {
          kept = record {
            consistent = c;
            effective = refl;
            valid = k.valid;
            capacity = rw same k.capacity;
            retention = rw same k.retention;
          };
          manages = rw same pending.manages.0;
          receives = rw same pending.receives.0;
          listens = rw same pending.listens.0;
        },
        inr (config_error-ne_ok e, kept, refl, refl, refl),
      )
  settle_update-Updated api change prepared (manager, ok next) plan1 plan2 plan3 from
        (adopted, done) c pending =
      let current = adopted.0 in
      let e = done ∙ sym current in
      (
        record {
          kept = record {
            consistent = c;
            effective = refl;
            valid = resize-IsValid api.history next.history.max_exchanges pending.kept.valid;
            capacity = rw⁻¹ e (resize-capacity api.history next.history.max_exchanges);
            retention = Retains-renewed api.retention (ap (λ cfg. cfg.storage.retention_days) e);
          };
          manages = rw current pending.manages.1;
          receives = rw current pending.receives.1;
          listens = rw current pending.listens.1;
        },
        inl (refl, prepared, from, adopted),
      )

  -- The planes are not among what is kept.
  rekept :
      {cfg : Config} {api : Api Node S1 S2 S3} {s1 : S1} {s2 : S2} {s3 : S3}
      → IsKept cfg api
      → IsKept cfg (record api { management = s1; traffic = s2; udp = s3 })
  rekept k = record {
    consistent = k.consistent;
    effective = k.effective;
    valid = k.valid;
    capacity = k.capacity;
    retention = k.retention;
  }

  update_udp-Updated :
      (answers : FileAnswers) (change : UpdateRequest Raw) (api : Api Node S1 S2 S3)
      (prepared : PreparedUpdate Node) (plan1 : Option P1) (plan2 : Option P2)
      → IsPlane udp F3 V3 udp_settings_changed
      → prepare net d json_node api.manager change ≡ ok prepared
      → IsKept api.manager.effective api
      → IsReady management F1 V1 api.manager.effective prepared.effective api.management plan1
      → IsReady traffic F2 V2 api.manager.effective prepared.effective api.traffic plan2
      → Runs F3 V3 api.manager.effective api.udp
      → Updated api change
          (update_udp net d json_node management traffic udp answers api prepared plan1 plan2)
  unfolding update_udp
  update_udp-Updated answers change api prepared plan1 plan2 laws from kept manages receives
        listens =
      let current = api.manager.effective in
      let next = prepared.effective in
      let after = prepare_if udp (udp_settings_changed current next) api.udp next in
      let ready =
        prepare_if-Ready udp F3 V3 current next udp_settings_changed api.udp laws listens in
      result_cases (Updated api change) after.1 _ _
        (λ plan e.
          let r = subst (λ x. Ready udp F3 V3 current next (after.0, x)) e ready in
          settle_update-Updated (record api { udp = after.0 }) change prepared _ plan1 plan2 plan
            from (commit-Committed net d json_node answers api.manager prepared)
            (commit-IsConsistent net d json_node answers api.manager api.manager change prepared
              from refl kept.consistent)
            (record { kept = rekept kept; manages = manages; receives = receives; listens = r }))
        (λ u e.
          let r = subst (λ x. Ready udp F3 V3 current next (after.0, x)) e ready in
          (
            record { kept = rekept kept; manages = manages.0; receives = receives.0; listens = r },
            inr (omega arith, (refl, refl, refl), refl, refl, refl),
          ))

  update_traffic-Updated :
      (answers : FileAnswers) (change : UpdateRequest Raw) (api : Api Node S1 S2 S3)
      (prepared : PreparedUpdate Node) (plan1 : Option P1)
      → IsPlane traffic F2 V2 traffic_settings_changed
      → IsPlane udp F3 V3 udp_settings_changed
      → prepare net d json_node api.manager change ≡ ok prepared
      → IsKept api.manager.effective api
      → IsReady management F1 V1 api.manager.effective prepared.effective api.management plan1
      → Runs F2 V2 api.manager.effective api.traffic
      → Runs F3 V3 api.manager.effective api.udp
      → Updated api change
          (update_traffic net d json_node management traffic udp answers api prepared plan1)
  unfolding update_traffic
  update_traffic-Updated answers change api prepared plan1 laws2 laws3 from kept manages receives
        listens =
      let current = api.manager.effective in
      let next = prepared.effective in
      let after = prepare_if traffic (traffic_settings_changed current next) api.traffic next in
      let ready =
        prepare_if-Ready traffic F2 V2 current next traffic_settings_changed api.traffic laws2
          receives in
      result_cases (Updated api change) after.1 _ _
        (λ plan e.
          let r = subst (λ x. Ready traffic F2 V2 current next (after.0, x)) e ready in
          update_udp-Updated answers change (record api { traffic = after.0 }) prepared plan1 plan
            laws3 from (rekept kept) manages r listens)
        (λ u e.
          let r = subst (λ x. Ready traffic F2 V2 current next (after.0, x)) e ready in
          (
            record { kept = rekept kept; manages = manages.0; receives = r; listens = listens },
            inr (omega arith, (refl, refl, refl), refl, refl, refl),
          ))

  -- A change of the configuration is made as a whole or not at all, whatever the request, the file
  -- system and the planes answer. From a state in which all parts run with the effective
  -- configuration and no plane's lock is held, `applyConfigurationUpdate` ends in such a state: the
  -- document on disk, the three planes, the capacity of the history and the retention stand as the
  -- effective configuration says. With an answer of 200, the configuration and the overrides are the
  -- ones that `Prepare` made of the change, and the revision is the next one. With any other, the
  -- configuration, the overrides, the revision, the history, the published envelopes and the
  -- retention are the ones before. The three planes keep the laws of their interface.
  pub apply_configuration_update-Updated :
      (answers : FileAnswers) (api : Api Node S1 S2 S3) (change : UpdateRequest Raw)
      → IsPlane management F1 V1 management_settings_changed
      → IsPlane traffic F2 V2 traffic_settings_changed
      → IsPlane udp F3 V3 udp_settings_changed
      → IsInStep api
      → Updated api change
          (apply_configuration_update net d json_node management traffic udp answers api change)
  unfolding apply_configuration_update
  apply_configuration_update-Updated answers api change laws1 laws2 laws3 step =
      result_cases (Updated api change) (prepare net d json_node api.manager change) _ _
        (λ prepared from.
          let current = api.manager.effective in
          let next = prepared.effective in
          let changed = management_settings_changed in
          let after = prepare_if management (changed current next) api.management next in
          let ready =
            prepare_if-Ready management F1 V1 current next changed api.management laws1
              step.manages in
          result_cases (Updated api change) after.1 _ _
            (λ plan e.
              let r = subst (λ x. Ready management F1 V1 current next (after.0, x)) e ready in
              update_traffic-Updated answers change (record api { management = after.0 }) prepared
                plan laws2 laws3 from (rekept step.kept) r step.receives step.listens)
            (λ u e.
              let r = subst (λ x. Ready management F1 V1 current next (after.0, x)) e ready in
              (
                record {
                  kept = rekept step.kept;
                  manages = r;
                  receives = step.receives;
                  listens = step.listens;
                },
                inr (omega arith, (refl, refl, refl), refl, refl, refl),
              )))
        (λ e bad. (step, inr (config_error-ne_ok e, (refl, refl, refl), refl, refl, refl)))

  module _ (laws1 : IsPlane management F1 V1 management_settings_changed)
      (laws2 : IsPlane traffic F2 V2 traffic_settings_changed)
      (laws3 : IsPlane udp F3 V3 udp_settings_changed) where
    remove_override-IsInStep :
        (answers : FileAnswers) (api : Api Node S1 S2 S3) (expected : Option ℕ) (field : String)
        → IsInStep api
        → IsInStep
            (remove_override net d json_node management traffic udp answers api expected field).0
    unfolding remove_override
    remove_override-IsInStep answers api none field step = step
    remove_override-IsInStep answers api (some expected) field step =
        if_cases {A = Api Node S1 S2 S3 × Answer} (λ after. IsInStep after.0)
          (not (contains_any (keys api.manager.overrides) _)) _ _ (λ missing. step)
          (λ found. (apply_configuration_update-Updated answers api _ laws1 laws2 laws3 step).0)
