-- ===== src/Config/Manager.antt =====
-- internal/config/manager.go: the effective configuration, its revision, and the updates that are
-- prepared first and committed later. Every method holds the manager's lock to its end; between a
-- `Prepare` and its `Commit` others may come. The document on disk is its overrides: the base that
-- is written with them never changes.
pub mod Runs
pub mod Persist
pub mod Tests
use requestinspector_relay.Base.{
  ℕ, ◌+◌, ◌%◌, ◌^◌, String, List, [], ◌∷◌, ◌≡◌, Option, none, some, Bool, true, false, not, ◌||◌,
  ◌==◌, if◌then◌else◌, str_eq, lookup, insert, erase, is_some, Result, ok, err, bind,
}
use requestinspector_relay.Config.{Config}
use requestinspector_relay.Config.Validation.{Parsers, ValidationError, validate}
use requestinspector_relay.Config.Overrides.{
  ConfigError, revision_conflict, not_exist, unknown_field, field_invalid, invalid, not_persisted,
  Decoders, known_field, apply_overrides,
}

-- What the operations of the file system answer, in their order; `none` is success.
pub record FileAnswers : Type 0 where
  pub encode : Option String
  pub make_directory : Option String
  pub create : Option String
  pub protect : Option String
  pub write : Option String
  pub sync : Option String
  pub shut : Option String
  pub rename : Option String
  pub remove : Option String

-- The document at the path, if any, and the temporary files beside it.
pub record Disk (Node : Type 0) : Type 0 where
  pub document : Option (List (String × Node))
  pub temporaries : ℕ

pub record Manager (Node : Type 0) : Type 0 where
  pub lower : Config
  pub effective : Config
  pub overrides : List (String × Node)
  pub revision : ℕ
  pub path : String
  pub disk : Disk Node

pub record PreparedUpdate (Node : Type 0) : Type 0 where
  pub expected : ℕ
  pub overrides : List (String × Node)
  pub effective : Config

-- `Raw` is the JSON of a value.
pub record UpdateRequest (Raw : Type 0) : Type 0 where
  pub expected_revision : ℕ
  pub values : List (String × Raw)
  pub removals : List String

module _ {Node Raw : Type 0} (net : Parsers) (d : Decoders Node)
    (json_node : Raw → Result String Node) where
  -- The first loop of `Prepare`.
  unfoldable pub remove_fields :
      List String → List (String × Node) → Result ConfigError (List (String × Node))
  remove_fields [] overrides = ok overrides
  remove_fields (field ∷ removals) overrides =
      let rest = remove_fields removals (erase field overrides) in
      if not (known_field field) then err (unknown_field field) else rest

  abbrev json_field : String → Raw → Result ConfigError Node
  json_field field raw = elim (json_node raw) [
    | ok node ↦ ok node
    | err text ↦ err (field_invalid field text)
  ]

  -- The second one.
  unfoldable pub insert_fields :
      List (String × Raw) → List (String × Node) → Result ConfigError (List (String × Node))
  insert_fields [] overrides = ok overrides
  insert_fields ((field, raw) ∷ values) overrides =
      let rest =
        bind (json_field field raw) (λ node. insert_fields values (insert field node overrides)) in
      if not (known_field field) then err (unknown_field field) else rest

  -- The configuration that overrides lead to: applied to the lower one, and validated.
  unfoldable pub effective_of : Config → List (String × Node) → Result ConfigError Config
  effective_of lower overrides =
      bind (apply_overrides d overrides lower)
        (λ next. elim (validate net next) [ [] ↦ ok next | e ∷ es ↦ err (invalid (e ∷ es)) ])

  unfoldable pub prepare :
      Manager Node → UpdateRequest Raw → Result ConfigError (PreparedUpdate Node)
  unfolding remove_fields insert_fields effective_of
  prepare m update =
      if not (update.expected_revision == m.revision)
      then err revision_conflict
      else bind (bind (remove_fields update.removals m.overrides) (insert_fields update.values))
          (λ overrides. bind (effective_of m.lower overrides) (λ next. ok (record {
            expected = update.expected_revision;
            overrides = overrides;
            effective = next;
          })))

  -- `persist` from `os.CreateTemp` on: the deferred removal takes the temporary file away, unless it
  -- fails, which nobody is told; after a rename the file is no longer there.
  unfoldable pub replace_document :
      FileAnswers → List (String × Node) → Disk Node → Disk Node × Option String
  replace_document answers overrides disk = elim answers.create [
    | some text ↦ (disk, some text)
    | none ↦
        (let made : Disk Node = record disk { temporaries = disk.temporaries + 1 } in
          let removed : Disk Node = (elim answers.remove [
            | some ignored ↦ made
            | none ↦ record made { temporaries = disk.temporaries }
          ]) in
          (elim answers.protect [
            | some text ↦ (removed, some text)
            | none ↦ (elim answers.write [
              | some text ↦ (removed, some text)
              | none ↦ (elim answers.sync [
                | some text ↦ (removed, some text)
                | none ↦ (elim answers.shut [
                  | some text ↦ (removed, some text)
                  | none ↦ (elim answers.rename [
                    | some text ↦ (removed, some text)
                    | none ↦ (
                      record made { document = some overrides; temporaries = disk.temporaries },
                      none,
                    )
                  ])
                ])
              ])
            ])
          ]))
  ]

  unfoldable pub persist :
      FileAnswers → String → List (String × Node) → Disk Node → Disk Node × Option String
  unfolding replace_document
  persist answers path overrides disk =
      if str_eq path ""
      then (disk, some "configuration path is unavailable")
      else (elim answers.encode [
        | some text ↦ (disk, some text)
        | none ↦ (elim answers.make_directory [
          | some text ↦ (disk, some text)
          | none ↦ replace_document answers overrides disk
        ])
      ])

  abbrev count_revision : ℕ → ℕ
  count_revision revision = (revision + 1) % 2 ^ 64

  -- The end of `Commit` and of `activate`: what is persisted becomes current.
  unfoldable pub adopt :
      FileAnswers
      → Manager Node
      → List (String × Node)
      → Config
      → Manager Node × Result ConfigError Config
  unfolding persist
  adopt answers m overrides next =
      let (disk, failure) = persist answers m.path overrides m.disk in
      (elim failure [
        | some text ↦ (record m { disk = disk }, err (not_persisted text))
        | none ↦ (
          record m {
            effective = next;
            overrides = overrides;
            revision = count_revision m.revision;
            disk = disk;
          },
          ok next,
        )
      ])

  unfoldable pub commit :
      FileAnswers → Manager Node → PreparedUpdate Node → Manager Node × Result ConfigError Config
  unfolding adopt
  commit answers m prepared =
      if not (prepared.expected == m.revision)
      then (m, err revision_conflict)
      else adopt answers m prepared.overrides prepared.effective

  unfoldable pub activate :
      FileAnswers → Manager Node → List (String × Node) → Manager Node × Result ConfigError Config
  unfolding adopt effective_of
  activate answers m overrides = elim (effective_of m.lower overrides) [
    | err e ↦ (m, err e)
    | ok next ↦ adopt answers m overrides next
  ]

  unfoldable pub remove :
      FileAnswers → Manager Node → ℕ → String → Manager Node × Result ConfigError Config
  unfolding activate
  remove answers m expected field =
      if not (expected == m.revision)
      then (m, err revision_conflict)
      else if not (is_some (lookup field m.overrides))
      then (m, err not_exist)
      else activate answers m (erase field m.overrides)

  unfoldable pub remove_authentication :
      FileAnswers → Manager Node → ℕ → Manager Node × Result ConfigError Config
  unfolding activate
  remove_authentication answers m expected =
      if not (expected == m.revision)
      then (m, err revision_conflict)
      else if not (
          is_some (lookup "authentication.username" m.overrides)
          || is_some (lookup "authentication.password" m.overrides))
      then (m, err not_exist)
      else activate answers m
          (erase "authentication.password" (erase "authentication.username" m.overrides))

  unfoldable pub update_with_removals :
      FileAnswers → Manager Node → UpdateRequest Raw → Manager Node × Result ConfigError Config
  unfolding prepare commit
  update_with_removals answers m update = elim (prepare m update) [
    | err e ↦ (m, err e)
    | ok prepared ↦ commit answers m prepared
  ]

  -- `NewManager` with no path: nothing is read.
  unfoldable pub new_manager : Config → Manager Node
  new_manager initial = record {
    lower = initial;
    effective = initial;
    overrides = [];
    revision = 1;
    path = initial.config_path;
    disk = record { document = none; temporaries = 0 };
  }
