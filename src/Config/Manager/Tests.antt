-- ===== src/Config/Manager/Tests.antt =====
-- A manager over the defaults with one stored override, whose nodes are texts.
use requestinspector_relay.Base.{
  String, [], ◌∷◌, ◌≡◌, refl, none, some, true, Result, ok, arith, insert,
}
use requestinspector_relay.Config.{defaults, pos}
use requestinspector_relay.Config.Tests.{test_parsers}
use requestinspector_relay.Config.Overrides.{
  Decoders, apply_overrides, apply_field, known_field, decode_duration,
}
use requestinspector_relay.Config.Validation.{
  validate, validate_listener, validate_mode, check_headers, validate_udp, validate_udp_mode,
  checks, udp_checks,
}
use requestinspector_relay.Config.Manager.{
  FileAnswers, Manager, PreparedUpdate, UpdateRequest, persist, prepare, commit, effective_of,
  replace_document, adopt, remove_fields, insert_fields,
}
use requestinspector_relay.Config.Manager.Persist.{persist-Replaced, Replaced}
use requestinspector_relay.Config.Manager.Runs.{
  IsConsistent, Reach-IsConsistent, commit-serializable, here, next, commits,
}

abbrev pub test_decoders : Decoders String
test_decoders = record {
  text = λ node. ok node;
  flag = λ node. ok true;
  int = λ node. ok 7;
  signed_int = λ node. ok (pos 7);
  headers = λ node. ok [];
  bytes = λ node. ok [];
  parse_duration = λ text. ok 7;
}

abbrev pub test_json : String → Result String String
test_json raw = ok raw

abbrev pub no_failure : FileAnswers
no_failure = record {
  encode = none;
  make_directory = none;
  create = none;
  protect = none;
  write = none;
  sync = none;
  shut = none;
  rename = none;
  remove = none;
}

abbrev stuck_disk : FileAnswers
stuck_disk = record no_failure { write = some "no space"; remove = some "read-only" }

abbrev pub test_manager : Manager String
test_manager = record {
  lower = defaults;
  effective = defaults;
  overrides = [];
  revision = 1;
  path = "c";
  disk = record { document = none; temporaries = 0 };
}

abbrev pub test_update : UpdateRequest String
test_update = record {
  expected_revision = 1;
  values = ("cors.enabled", "true") ∷ [];
  removals = [];
}

abbrev test_prepared : PreparedUpdate String
test_prepared = record {
  expected = 1;
  overrides = ("cors.enabled", "true") ∷ [];
  effective = record defaults { cors = record { enabled = true } };
}

test_prepare :
    prepare test_parsers test_decoders test_json test_manager test_update ≡ ok test_prepared
unfolding prepare remove_fields insert_fields effective_of apply_overrides apply_field known_field
    validate validate_listener validate_mode check_headers validate_udp validate_udp_mode checks
    udp_checks defaults decode_duration insert
test_prepare = refl

pub test_manager-IsConsistent : IsConsistent test_parsers test_decoders test_json test_manager
unfolding effective_of apply_overrides validate validate_listener validate_mode check_headers
    validate_udp validate_udp_mode checks udp_checks defaults
test_manager-IsConsistent = record { current = refl; saved = refl }

persist-Replaced_example :
    Replaced test_parsers test_decoders test_json stuck_disk [] test_manager.disk
      (persist test_parsers test_decoders test_json stuck_disk "c" [] test_manager.disk)
persist-Replaced_example =
    persist-Replaced test_parsers test_decoders test_json stuck_disk "c" [] test_manager.disk

Reach-IsConsistent_example :
    IsConsistent test_parsers test_decoders test_json
      (commit test_parsers test_decoders test_json no_failure test_manager test_prepared).0
Reach-IsConsistent_example =
    Reach-IsConsistent test_parsers test_decoders test_json test_manager
      (commit test_parsers test_decoders test_json no_failure test_manager test_prepared).0
      test_manager-IsConsistent
      (next here (omega arith)
        (commits no_failure test_manager test_update test_prepared test_prepare refl refl))

commit_accepted :
    (commit test_parsers test_decoders test_json no_failure test_manager test_prepared).1
    ≡ ok test_prepared.effective
unfolding commit adopt persist replace_document
commit_accepted = refl

commit-serializable_example :
    (test_manager.overrides ≡ [])
    × (test_manager.effective ≡ defaults)
    × ((commit test_parsers test_decoders test_json no_failure test_manager
          test_prepared).0.overrides
        ≡ ("cors.enabled", "true") ∷ [])
    × ((commit test_parsers test_decoders test_json no_failure test_manager
          test_prepared).0.effective
        ≡ test_prepared.effective)
    × (test_prepared.effective ≡ test_prepared.effective)
commit-serializable_example =
    commit-serializable test_parsers test_decoders test_json test_manager test_manager no_failure
      test_update test_prepared test_prepared.effective test_prepare here commit_accepted
