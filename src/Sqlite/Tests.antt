-- ===== src/Sqlite/Tests.antt =====
-- A writer with a queue of two exchanges and one reservation.
use requestinspector_relay.Base.{
  ◌^◌, ◌≤◌, ◌≡◌, ◌-◌, refl, [], ◌∷◌, ◌++◌, none, some, true, false, arith,
}
use requestinspector_relay.Capture.Model.{completed}
use requestinspector_relay.Capture.Tests.{test_exchange}
use requestinspector_relay.Sqlite.{
  Options, Reservation, Repository, reserve, commit, cancel, write_batch, apply_defaults,
  open_repository,
}
use requestinspector_relay.Sqlite.Accounts.{
  Writer, IsAccounted, reserves, cancels, here, next, commit_fits,
}
use requestinspector_relay.Sqlite.Runs.{
  opened, opened-IsAccounted, Reach-IsAccounted, write_batch-IsAccounted, vacuum-drains,
  reserve-overflow,
}

abbrev test_options : Options
test_options = record {
  path = "x";
  queue_count = 2;
  queue_bytes = 50;
  batch_size = 2;
  flush_interval = 1;
  busy_timeout = 1;
  cleanup_batch_size = 1;
  compact_pages = 1;
  retention_days = 1;
}

abbrev test_reservation : Reservation
test_reservation = record { bytes = 20; done = false }

abbrev test_repository : Repository
test_repository = record {
  options = test_options;
  accepting = true;
  reserved_count = 1;
  reserved_bytes = 20;
  maintenance = "";
  writes = [];
  write_count = 0;
  write_failures = 0;
  busy_failures = 0;
  last_error = "";
}

abbrev vacuuming : Writer
vacuuming = record {
  repository = record test_repository { maintenance = "vacuum" };
  outstanding = 20 ∷ [];
  batch = [];
}

abbrev writing : Writer
writing = record {
  repository = test_repository;
  outstanding = [];
  batch = record { exchange = test_exchange "x" completed 9; bytes = 20 } ∷ [];
}

vacuuming-IsAccounted : IsAccounted vacuuming
vacuuming-IsAccounted = record {
  count = refl;
  bytes = refl;
  few = omega arith;
  small = omega arith;
  representable = omega arith;
}

Reach-IsAccounted_example : IsAccounted (record (opened test_options) {
  repository = (reserve (open_repository test_options) 20).0;
  outstanding = 20 ∷ [];
})
unfolding reserve open_repository apply_defaults
Reach-IsAccounted_example =
    Reach-IsAccounted (opened test_options) _ (opened-IsAccounted test_options (omega arith))
      (next here (reserves 20 test_reservation (omega arith) (ground arith) refl))

commit_fits_example :
    commit vacuuming.repository test_reservation (test_exchange "x" completed 9) ≡ (
      record vacuuming.repository {
        writes = [] ++ record { exchange = test_exchange "x" completed 9; bytes = 20 } ∷ [];
      },
      record { bytes = 20; done = true },
      none,
    )
commit_fits_example =
    commit_fits vacuuming [] [] test_reservation (test_exchange "x" completed 9)
      vacuuming-IsAccounted refl refl

write_batch-IsAccounted_example : IsAccounted (record writing {
  repository = write_batch test_repository writing.batch (some "disk full");
  batch = [];
})
write_batch-IsAccounted_example = write_batch-IsAccounted writing (some "disk full") (record {
  count = refl;
  bytes = refl;
  few = omega arith;
  small = omega arith;
  representable = omega arith;
})

vacuum-drains_example : (cancel vacuuming.repository test_reservation).0.reserved_count ≤ 1
vacuum-drains_example =
    vacuum-drains vacuuming
      (record vacuuming {
        repository = (cancel vacuuming.repository test_reservation).0;
        outstanding = [];
      })
      vacuuming-IsAccounted refl (cancels [] [] test_reservation refl refl refl)

reserve-overflow_example :
    (reserve test_repository (2 ^ 63 - 1)).1 ≡ some (record { bytes = 2 ^ 63 - 1; done = false })
reserve-overflow_example =
    reserve-overflow test_repository (2 ^ 63 - 1) refl refl (omega arith) (omega arith)
      (omega arith) (omega arith) (omega arith)
