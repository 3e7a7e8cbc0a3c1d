-- ===== src/Config/Manager/Persist.antt =====
-- `persist` of internal/config/manager.go: the document is replaced as a whole or not at all.
use requestinspector_relay.Base.{
  String, List, ◌≡◌, ◌≢◌, ◌⊎◌, ◌+◌, Option, none, some, arith, Result,
}
use requestinspector_relay.Config.Validation.{Parsers}
use requestinspector_relay.Config.Overrides.{Decoders}
use requestinspector_relay.Config.Manager.{FileAnswers, Disk, replace_document, persist}

module _ {Node Raw : Type 0} (net : Parsers) (d : Decoders Node)
    (json_node : Raw → Result String Node) where
  -- The document is the new one, with no error, or the old one, with an error; a temporary file
  -- stays only with an error, where its removal failed.
  abbrev pub Replaced :
      FileAnswers → List (String × Node) → Disk Node → Disk Node × Option String → Type 0
  Replaced answers overrides disk after =
      ((after.1 ≡ none)
        × (after.0.document ≡ some overrides)
        × (after.0.temporaries ≡ disk.temporaries))
      ⊎ ((after.1 ≢ none)
          × (after.0.document ≡ disk.document)
          × ((after.0.temporaries ≡ disk.temporaries)
              ⊎ ((answers.remove ≢ none) × (after.0.temporaries ≡ disk.temporaries + 1))))

  replace_document-Replaced :
      (answers : FileAnswers) (overrides : List (String × Node)) (disk : Disk Node)
      → Replaced answers overrides disk (replace_document net d json_node answers overrides disk)
  unfolding replace_document
  replace_document-Replaced answers overrides disk = ground arith

  -- Whatever the file system answers, after `persist` the document at the path is the new one where
  -- it tells no error and the old one where it tells one; and no temporary file is left, except one
  -- with an error where the file system refused to remove it.
  pub persist-Replaced :
      (answers : FileAnswers) (path : String) (overrides : List (String × Node)) (disk : Disk Node)
      → Replaced answers overrides disk (persist net d json_node answers path overrides disk)
  unfolding persist
  persist-Replaced answers path overrides disk =
      ground (arith, replace_document-Replaced answers overrides disk)
