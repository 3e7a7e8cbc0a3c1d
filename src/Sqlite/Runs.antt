-- ===== src/Sqlite/Runs.antt =====
-- The writer over time: the accounts in every run, a reservation that is settled once, a batch from
-- its outcome to its last release, and the quiet of a vacuum.
use requestinspector_relay.Base.{
  ℕ, ◌+◌, ◌^◌, ◌≤◌, ◌<◌, ◌≡◌, refl, sym, List, [], ◌∷◌, Option, none, some, true, false, String,
  str_eq, arith, Bool-cases, inl, inr,
}
use requestinspector_relay.Capture.Model.{Exchange}
use requestinspector_relay.Sqlite.{
  Options, Reservation, WriteItem, Repository, reserve, release, commit, cancel, collect,
  record_outcome, release_all, write_batch, begin_maintenance, end_maintenance, stop_accepting,
  apply_defaults, open_repository,
}
use requestinspector_relay.Sqlite.Words.{add64, is_negative}
use requestinspector_relay.Sqlite.Accounts.{
  Writer, IsAccounted, Step, Reach, reserves, commits, cancels, collects, writes, releases, begins,
  ends, closes, here, next, reserves-IsAccounted, commits-IsAccounted, cancels-IsAccounted,
  releases-IsAccounted, collects-IsAccounted, same-IsAccounted, commit_fits,
}

record_outcome-IsAccounted :
    (w : Writer) (batch : List WriteItem) (err : Option String)
    → IsAccounted w
    → IsAccounted (record w { repository = record_outcome w.repository batch err })
unfolding record_outcome
record_outcome-IsAccounted w batch none a = same-IsAccounted w _ a refl refl refl refl
record_outcome-IsAccounted w batch (some text) a = same-IsAccounted w _ a refl refl refl refl

begin_maintenance-IsAccounted :
    (w : Writer) (name : String)
    → IsAccounted w
    → IsAccounted (record w { repository = (begin_maintenance w.repository name).0 })
unfolding begin_maintenance
begin_maintenance-IsAccounted w name a = elim (Bool-cases (str_eq w.repository.maintenance "")) [
  | inl free ↦ rw (free, begin_maintenance) (same-IsAccounted w _ a refl refl refl refl)
  | inr busy ↦ rw (busy, begin_maintenance) a
]

Step-IsAccounted : (a b : Writer) → Step a b → IsAccounted a → IsAccounted b
unfolding end_maintenance stop_accepting
Step-IsAccounted a b (reserves size v fits granted e) h =
    rw e (reserves-IsAccounted a size v h fits granted)
Step-IsAccounted a b (commits front back v x open' held e) h =
    rw e (commits-IsAccounted a front back v x h open' held)
Step-IsAccounted a b (cancels front back v open' held e) h =
    rw e (cancels-IsAccounted a front back v h open' held)
Step-IsAccounted a b (collects e) h = rw e (collects-IsAccounted a h)
Step-IsAccounted a b (writes err e) h = rw e (record_outcome-IsAccounted a a.batch err h)
Step-IsAccounted a b (releases item rest taken e) h =
    rw e (releases-IsAccounted a item rest h taken)
Step-IsAccounted a b (begins name e) h = rw e (begin_maintenance-IsAccounted a name h)
Step-IsAccounted a b (ends e) h = rw e (same-IsAccounted a _ h refl refl refl refl)
Step-IsAccounted a b (closes e) h = rw e (same-IsAccounted a _ h refl refl refl refl)

-- From accounts in order, whatever steps the requests, the writer and the maintenance take, as long
-- as no requested size makes the sum overflow, what is reserved is what is outstanding, queued or
-- in the batch, and the count and the bytes stay within the limits.
pub Reach-IsAccounted : (a b : Writer) → IsAccounted a → Reach a b → IsAccounted b
Reach-IsAccounted a b h here = h
Reach-IsAccounted a b h (next {b = m} r s) = Step-IsAccounted m b s (Reach-IsAccounted a m h r)

abbrev pub opened : Options → Writer
opened options = record { repository = open_repository options; outstanding = []; batch = [] }

pub opened-IsAccounted :
    (options : Options) → options.queue_bytes < 2 ^ 63 → IsAccounted (opened options)
unfolding open_repository apply_defaults
opened-IsAccounted options h = record {
  count = refl;
  bytes = refl;
  few = omega arith;
  small = omega arith;
  representable = ground arith;
}

-- A reservation is settled once: after a `Commit` neither a `Cancel` nor another `Commit` changes
-- anything, and after a `Cancel` a `Commit` does not either.
commit-once :
    (r : Repository) (v : Reservation) (e f : Exchange)
    → (cancel (commit r v e).0 (commit r v e).1 ≡ ((commit r v e).0, (commit r v e).1))
      × (commit (commit r v e).0 (commit r v e).1 f ≡ ((commit r v e).0, (commit r v e).1, none))
      × (commit (cancel r v).0 (cancel r v).1 f ≡ ((cancel r v).0, (cancel r v).1, none))
unfolding commit cancel
commit-once r v e f = ground arith

-- The loop over a batch gives back all that the batch reserved.
release_all-IsAccounted :
    (w : Writer) (batch : List WriteItem)
    → w.batch ≡ batch
    → IsAccounted w
    → IsAccounted (record w { repository = release_all w.repository batch; batch = [] })
unfolding release_all
release_all-IsAccounted w [] e a = rw (sym e) a
release_all-IsAccounted w (item ∷ rest) e a =
    release_all-IsAccounted
      (record w { repository = release w.repository item.bytes; batch = rest }) rest refl
      (releases-IsAccounted w item rest a e)

-- Whether the transaction succeeds or fails, `writeBatch` gives back what its batch reserved: with
-- accounts in order they are in order behind it, with an empty batch.
pub write_batch-IsAccounted :
    (w : Writer) (err : Option String)
    → IsAccounted w
    → IsAccounted (record w { repository = write_batch w.repository w.batch err; batch = [] })
unfolding write_batch
write_batch-IsAccounted w err a =
    release_all-IsAccounted (record w { repository = record_outcome w.repository w.batch err })
      w.batch refl (record_outcome-IsAccounted w w.batch err a)

-- While a vacuum runs, no reservation is granted.
vacuum-refuses : (r : Repository) (size : ℕ) → r.maintenance ≡ "vacuum" → (reserve r size).1 ≡ none
unfolding reserve
vacuum-refuses r size h = rw h (ground arith)

collect-count :
    (r : Repository) (batch : List WriteItem)
    → (collect r batch).0.reserved_count ≤ r.reserved_count
unfolding collect
collect-count r batch = by_queue r.writes refl
  where
    by_queue :
        (queue : List WriteItem)
        → r.writes ≡ queue
        → (collect r batch).0.reserved_count ≤ r.reserved_count
    by_queue [] e = rw (e, collect) (omega arith)
    by_queue (item ∷ queue) e = rw (e, collect) (ground arith)

-- While a vacuum runs, with accounts in order, no step raises the reserved count: once it is 0, as
-- `waitForReservations` asks, it stays 0 to the vacuum's end.
pub vacuum-drains :
    (a b : Writer)
    → IsAccounted a
    → a.repository.maintenance ≡ "vacuum"
    → Step a b
    → b.repository.reserved_count ≤ a.repository.reserved_count
unfolding cancel release collect begin_maintenance end_maintenance stop_accepting record_outcome
vacuum-drains a b h vacuum (reserves size v fits granted e) =
    absurd (cc (granted, vacuum-refuses a.repository size vacuum))
vacuum-drains a b h vacuum (commits front back v x open' held e) =
    rw (e, commit_fits a front back v x h open' held) (omega arith)
vacuum-drains a b h vacuum (cancels front back v open' held e) =
    rw e (rw (open', cancel) (omega arith))
vacuum-drains a b h vacuum (collects e) = rw e (collect-count a.repository a.batch)
vacuum-drains a b h vacuum (writes none e) = rw e (omega arith)
vacuum-drains a b h vacuum (writes (some text) e) = rw e (omega arith)
vacuum-drains a b h vacuum (releases item rest taken e) = rw e (omega arith)
vacuum-drains a b h vacuum (begins name e) = rw e (rw vacuum (ground arith))
vacuum-drains a b h vacuum (ends e) = rw e (omega arith)
vacuum-drains a b h vacuum (closes e) = rw e (omega arith)

-- The check of the bytes does not stop a size whose sum with the reserved bytes leaves int64: an
-- accepting repository below its count, with no maintenance, grants it.
pub reserve-overflow :
    (r : Repository) (size : ℕ)
    → r.accepting ≡ true
    → r.maintenance ≡ ""
    → r.reserved_count < r.options.queue_count
    → r.options.queue_bytes < 2 ^ 63
    → r.reserved_bytes < 2 ^ 63
    → size < 2 ^ 63
    → 2 ^ 63 ≤ r.reserved_bytes + size
    → (reserve r size).1 ≡ some (record { bytes = size; done = false })
unfolding reserve
reserve-overflow r size on idle room q b s over =
    let sum : add64 r.reserved_bytes size ≡ r.reserved_bytes + size = omega arith in
    let signed : is_negative size ≡ false = ground arith in
    rw (idle, reserve) (rw (on, reserve) (rw (signed, reserve) (rw (sum, reserve) (ground arith))))
