-- ===== src/Config/Manager/Runs.antt =====
-- The manager over time: what is current is what the overrides lead to, and an update that was
-- prepared is committed only on what it was prepared from.
use requestinspector_relay.Base.{
  ℕ, ◌+◌, ◌^◌, ◌<◌, ◌≡◌, ◌⊎◌, inl, inr, refl, ◌∙◌, ap, String, List, [], Option, none, some, true,
  not, ◌||◌, ◌==◌, ==_iff, arith, Bool-cases, erase, lookup, is_some, Result, ok, err, bind,
  Result-cases, subst, if_cases, option_cases,
}
use requestinspector_relay.Config.{Config}
use requestinspector_relay.Config.Validation.{Parsers}
use requestinspector_relay.Config.Overrides.{
  ConfigError, revision_conflict, not_exist, not_persisted, Decoders,
}
use requestinspector_relay.Config.Manager.{
  FileAnswers, Disk, Manager, PreparedUpdate, UpdateRequest, effective_of, prepare, persist, adopt,
  commit, activate, remove, remove_authentication, count_revision, remove_fields, insert_fields,
}
use requestinspector_relay.Config.Manager.Persist.{Replaced, persist-Replaced}

abbrev pub stored : {Node : Type 0} → Option (List (String × Node)) → List (String × Node)
stored none = []
stored (some overrides) = overrides

module _ {Node Raw : Type 0} (net : Parsers) (d : Decoders Node)
    (json_node : Raw → Result String Node) where
  -- The effective configuration is what the overrides lead to, accepted by `Validate`, and the
  -- overrides are those of the document on disk.
  pub record IsConsistent (m : Manager Node) : Type 0 where
    pub current : effective_of net d json_node m.lower m.overrides ≡ ok m.effective
    pub saved : stored m.disk.document ≡ m.overrides

  -- What a step of the manager may change: nothing, or by one revision.
  pub data Change (m : Manager Node) : Manager Node × Result ConfigError Config → Type 0 where
    failed :
        (e : ConfigError) (k : Disk Node)
        → stored k.document ≡ stored m.disk.document
        → Change m (record m { disk = k }, err e)
    adopted :
        (overrides : List (String × Node)) (next : Config) (k : Disk Node)
        → effective_of net d json_node m.lower overrides ≡ ok next
        → k.document ≡ some overrides
        → Change m (
          record m {
            effective = next;
            overrides = overrides;
            revision = count_revision net d json_node m.revision;
            disk = k;
          },
          ok next,
        )

  adopt-Change :
      (answers : FileAnswers) (m : Manager Node) (overrides : List (String × Node)) (next : Config)
      → effective_of net d json_node m.lower overrides ≡ ok next
      → Change m (adopt net d json_node answers m overrides next)
  unfolding adopt
  adopt-Change answers m overrides next valid =
      by_answer (persist net d json_node answers m.path overrides m.disk)
        (persist-Replaced net d json_node answers m.path overrides m.disk)
    where
      by_answer :
          (after : Disk Node × Option String)
          → Replaced net d json_node answers overrides m.disk after
          → Change m (elim after.1 [
            | some text ↦ (record m { disk = after.0 }, err (not_persisted text))
            | none ↦ (
              record m {
                effective = next;
                overrides = overrides;
                revision = count_revision net d json_node m.revision;
                disk = after.0;
              },
              ok next,
            )
          ])
      by_answer (k, none) r = adopted overrides next k valid (ground (arith, r))
      by_answer (k, some text) r = failed (not_persisted text) k (ground (arith, r))

  commit-Change :
      (answers : FileAnswers) (m : Manager Node) (p : PreparedUpdate Node)
      → effective_of net d json_node m.lower p.overrides ≡ ok p.effective
      → Change m (commit net d json_node answers m p)
  unfolding commit
  commit-Change answers m p valid = elim (Bool-cases (p.expected == m.revision)) [
    | inr stale ↦ rw (stale, commit) (failed revision_conflict m.disk refl)
    | inl same ↦ rw (same, commit) (adopt-Change answers m p.overrides p.effective valid)
  ]

  activate-Change :
      (answers : FileAnswers) (m : Manager Node) (overrides : List (String × Node))
      → Change m (activate net d json_node answers m overrides)
  unfolding activate
  activate-Change answers m overrides =
      elim (Result-cases (effective_of net d json_node m.lower overrides)) [
        | inl (next, valid) ↦ rw (valid, activate) (adopt-Change answers m overrides next valid)
        | inr (e, bad) ↦ rw (bad, activate) (failed e m.disk refl)
      ]

  remove-Change :
      (answers : FileAnswers) (m : Manager Node) (expected : ℕ) (field : String)
      → Change m (remove net d json_node answers m expected field)
  unfolding remove
  remove-Change answers m expected field = elim (Bool-cases (expected == m.revision)) [
    | inr stale ↦ rw (stale, remove) (failed revision_conflict m.disk refl)
    | inl same ↦ elim (Bool-cases (is_some (lookup field m.overrides))) [
      | inr missing ↦ rw (same, remove) (rw (missing, remove) (failed not_exist m.disk refl))
      | inl found ↦
          rw (same, remove)
            (rw (found, remove) (activate-Change answers m (erase field m.overrides)))
    ]
  ]

  remove_authentication-Change :
      (answers : FileAnswers) (m : Manager Node) (expected : ℕ)
      → Change m (remove_authentication net d json_node answers m expected)
  unfolding remove_authentication
  remove_authentication-Change answers m expected = elim (Bool-cases (expected == m.revision)) [
    | inr stale ↦ rw (stale, remove_authentication) (failed revision_conflict m.disk refl)
    | inl same ↦
        elim (Bool-cases (
          is_some (lookup "authentication.username" m.overrides)
          || is_some (lookup "authentication.password" m.overrides))) [
            | inr missing ↦
                rw (same, remove_authentication)
                  (rw (missing, remove_authentication) (failed not_exist m.disk refl))
            | inl found ↦
                rw (same, remove_authentication)
                  (rw (found, remove_authentication) (activate-Change answers m _))
          ]
  ]

  -- A prepared update leads to an accepted configuration over the lower one, and names the revision
  -- that it was prepared at.
  pub prepare_lem :
      (m : Manager Node) (u : UpdateRequest Raw) (p : PreparedUpdate Node)
      → prepare net d json_node m u ≡ ok p
      → (p.expected ≡ m.revision)
        × (effective_of net d json_node m.lower p.overrides ≡ ok p.effective)
  unfolding prepare
  prepare_lem m u p h = elim (Bool-cases (u.expected_revision == m.revision)) [
    | inr stale ↦ cc (rw (stale, prepare) at h)
    | inl same ↦
        by_fields same
          (bind (remove_fields net d json_node u.removals m.overrides)
            (insert_fields net d json_node u.values))
          (rw (same, prepare) at h)
  ]
    where
      by_fields :
          u.expected_revision == m.revision ≡ true
          → (fields : Result ConfigError (List (String × Node)))
          → bind fields (λ overrides. bind (effective_of net d json_node m.lower overrides) (λ next.
            ok
              (record { expected = u.expected_revision; overrides = overrides; effective = next })))
            ≡ ok p
          → (p.expected ≡ m.revision)
            × (effective_of net d json_node m.lower p.overrides ≡ ok p.effective)
      by_fields same (err e) h = cc h
      by_fields same (ok overrides) h =
          elim (Result-cases (effective_of net d json_node m.lower overrides)) [
            | inr (e, bad) ↦ cc (rw bad at h)
            | inl (next, good) ↦
                ground (arith, rw good at h, good, (==_iff u.expected_revision m.revision).0 same)
          ]

  -- One call, with what the file system answered. A commit takes what some earlier manager, with the
  -- same lower configuration, prepared.
  pub data Step (m m' : Manager Node) : Type 0 where
    commits :
        (answers : FileAnswers) (earlier : Manager Node) (u : UpdateRequest Raw)
        (p : PreparedUpdate Node)
        → prepare net d json_node earlier u ≡ ok p
        → earlier.lower ≡ m.lower
        → m' ≡ (commit net d json_node answers m p).0
        → Step m m'
    removes :
        (answers : FileAnswers) (expected : ℕ) (field : String)
        → m' ≡ (remove net d json_node answers m expected field).0
        → Step m m'
    removes_authentication :
        (answers : FileAnswers) (expected : ℕ)
        → m' ≡ (remove_authentication net d json_node answers m expected).0
        → Step m m'

  -- A run in which the 64-bit revision does not wrap.
  pub data Reach (m : Manager Node) : Manager Node → Type 0 where
    here : Reach m m
    next :
        {m' m'' : Manager Node} → Reach m m' → m'.revision + 1 < 2 ^ 64 → Step m' m'' → Reach m m''

  Step-Change :
      (m m' : Manager Node) → Step m m' → (r : Result ConfigError Config) × Change m (m', r)
  Step-Change m m' (commits answers earlier u p prepared same e) =
      let valid = (prepare_lem earlier u p prepared).1 in
      (
        (commit net d json_node answers m p).1,
        rw e (
            commit-Change answers m p (
              subst (λ lower. effective_of net d json_node lower p.overrides ≡ ok p.effective) same
                valid)),
      )
  Step-Change m m' (removes answers expected field e) = (
    (remove net d json_node answers m expected field).1,
    rw e (remove-Change answers m expected field),
  )
  Step-Change m m' (removes_authentication answers expected e) = (
    (remove_authentication net d json_node answers m expected).1,
    rw e (remove_authentication-Change answers m expected),
  )

  -- What a change keeps of the manager, and when it may differ.
  abbrev Kept : Manager Node → Manager Node → Type 0
  Kept m m' =
      (m'.lower ≡ m.lower)
      × (((m'.revision ≡ m.revision) × (m'.overrides ≡ m.overrides) × (m'.effective ≡ m.effective))
          ⊎ (m'.revision ≡ count_revision net d json_node m.revision))

  Change-Kept :
      (m : Manager Node) (after : Manager Node × Result ConfigError Config)
      → Change m after
      → Kept m after.0
  Change-Kept m _ (failed e k same) = (refl, inl (refl, refl, refl))
  Change-Kept m _ (adopted overrides cfg k valid written) = (refl, inr refl)

  Change-IsConsistent :
      (m : Manager Node) (after : Manager Node × Result ConfigError Config)
      → Change m after
      → IsConsistent m
      → IsConsistent after.0
  Change-IsConsistent m _ (failed e k same) c = record {
    current = c.current;
    saved = same ∙ c.saved;
  }
  Change-IsConsistent m _ (adopted overrides cfg k valid written) c = record {
    current = valid;
    saved = ap stored written;
  }

  -- A commit of what was prepared from the same lower configuration keeps the manager consistent.
  pub commit-IsConsistent :
      (answers : FileAnswers) (m earlier : Manager Node) (u : UpdateRequest Raw)
      (p : PreparedUpdate Node)
      → prepare net d json_node earlier u ≡ ok p
      → earlier.lower ≡ m.lower
      → IsConsistent m
      → IsConsistent (commit net d json_node answers m p).0
  commit-IsConsistent answers m earlier u p prepared same c =
      Change-IsConsistent m _ (Step-Change m _ (commits answers earlier u p prepared same refl)).1 c

  -- A manager with the configuration, the overrides and the revision of another.
  abbrev pub SameSettings : Manager Node → Manager Node → Type 0
  SameSettings m m' =
      (m'.effective ≡ m.effective) × (m'.overrides ≡ m.overrides) × (m'.revision ≡ m.revision)

  -- A manager with the prepared configuration and overrides, one revision later.
  abbrev pub NextSettings : Manager Node → PreparedUpdate Node → Manager Node → Type 0
  NextSettings m p m' =
      (m'.effective ≡ p.effective)
      × (m'.overrides ≡ p.overrides)
      × (m'.revision ≡ count_revision net d json_node m.revision)

  -- A commit adopts the prepared settings, or keeps the current ones.
  abbrev pub Committed :
      Manager Node → PreparedUpdate Node → Manager Node × Result ConfigError Config → Type 0
  Committed m p (m', err e) = SameSettings m m'
  Committed m p (m', ok done) = NextSettings m p m' × (done ≡ p.effective)

  pub commit-Committed :
      (answers : FileAnswers) (m : Manager Node) (p : PreparedUpdate Node)
      → Committed m p (commit net d json_node answers m p)
  unfolding commit adopt
  commit-Committed answers m p =
      if_cases (Committed m p) (not (p.expected == m.revision)) _ _ (λ stale. (refl, refl, refl))
        (λ current.
          option_cases (Committed m p) (persist net d json_node answers m.path p.overrides m.disk).1
            _ _ (λ saved. ((refl, refl, refl), refl)) (λ text broken. (refl, refl, refl)))

  -- However updates are prepared, committed and removed side by side, and whatever the file system
  -- answers, from a consistent manager the effective configuration is always the one that the
  -- overrides lead to, accepted by `Validate`, and the document on disk holds just these overrides.
  pub Reach-IsConsistent : (m m' : Manager Node) → IsConsistent m → Reach m m' → IsConsistent m'
  Reach-IsConsistent m m' c here = c
  Reach-IsConsistent m m' c (next {m' = k} r small s) =
      Change-IsConsistent k _ (Step-Change k m' s).1 (Reach-IsConsistent m k c r)

  -- A manager is as it was, or its revision has grown.
  Reach-grows :
      (m m' : Manager Node)
      → Reach m m'
      → (m'.lower ≡ m.lower)
        × (((m'.revision ≡ m.revision)
              × (m'.overrides ≡ m.overrides)
              × (m'.effective ≡ m.effective))
            ⊎ (m.revision < m'.revision))
  Reach-grows m m' here = (refl, inl (refl, refl, refl))
  Reach-grows m m' (next {m' = k} r small s) =
      let before = Reach-grows m k r in
      let step = Change-Kept k _ (Step-Change k m' s).1 in
      (step.0 ∙ before.0, joined before.1 step.1)
    where
      joined :
          ((k.revision ≡ m.revision) × (k.overrides ≡ m.overrides) × (k.effective ≡ m.effective))
            ⊎ (m.revision < k.revision)
          → ((m'.revision ≡ k.revision)
              × (m'.overrides ≡ k.overrides)
              × (m'.effective ≡ k.effective))
            ⊎ (m'.revision ≡ count_revision net d json_node k.revision)
          → ((m'.revision ≡ m.revision)
              × (m'.overrides ≡ m.overrides)
              × (m'.effective ≡ m.effective))
            ⊎ (m.revision < m'.revision)
      joined (inl a) (inl b) = inl (b.0 ∙ a.0, b.1 ∙ a.1, b.2 ∙ a.2)
      joined (inr a) (inl b) = inr (omega (arith, a, b.0))
      joined (inl a) (inr b) = inr (omega (arith, a.0, b, small))
      joined (inr a) (inr b) = inr (omega (arith, a, b, small))

  -- No update is lost: if what `Prepare` made of one manager is committed with success after any
  -- run of other calls in which the revision does not wrap, then in that run nothing was changed,
  -- and the new overrides and the new configuration are the prepared ones.
  pub commit-serializable :
      (m m' : Manager Node) (answers : FileAnswers) (u : UpdateRequest Raw)
      (p : PreparedUpdate Node) (done : Config)
      → prepare net d json_node m u ≡ ok p
      → Reach m m'
      → (commit net d json_node answers m' p).1 ≡ ok done
      → (m'.overrides ≡ m.overrides)
        × (m'.effective ≡ m.effective)
        × ((commit net d json_node answers m' p).0.overrides ≡ p.overrides)
        × ((commit net d json_node answers m' p).0.effective ≡ p.effective)
        × (done ≡ p.effective)
  unfolding commit adopt
  commit-serializable m m' answers u p done prepared r success =
      let at = (prepare_lem m u p prepared).0 in
      elim (Bool-cases (p.expected == m'.revision)) [
        | inr stale ↦ cc (rw (stale, commit) at success)
        | inl same ↦
            let current = (==_iff p.expected m'.revision).0 same in
            elim (Reach-grows m m' r).1 [
              | inr grown ↦ absurd (omega (arith, at, current, grown))
              | inl kept ↦
                  let end =
                    adopted_lem (persist net d json_node answers m'.path p.overrides m'.disk).1 refl
                      same success in
                  (kept.1, kept.2, end.0, end.1, end.2)
            ]
      ]
    where
      adopted_lem :
          (failure : Option String)
          → (persist net d json_node answers m'.path p.overrides m'.disk).1 ≡ failure
          → p.expected == m'.revision ≡ true
          → (commit net d json_node answers m' p).1 ≡ ok done
          → ((commit net d json_node answers m' p).0.overrides ≡ p.overrides)
            × ((commit net d json_node answers m' p).0.effective ≡ p.effective)
            × (done ≡ p.effective)
      adopted_lem (some text) e same success = cc (rw (e, adopt) at (rw (same, commit) at success))
      adopted_lem none e same success =
          rw (same, commit)
            (rw (e, adopt) (refl, refl, cc (rw (e, adopt) at (rw (same, commit) at success))))
