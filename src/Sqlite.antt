-- ===== src/Sqlite.antt =====
-- internal/sqlite/repository.go: the reservations of the writer, its queue and its batches. What the
-- database answers is a parameter. A signed 64-bit number is its two's complement, below 2 ^ 64.
pub mod Words
pub mod Accounts
pub mod Runs
mod Tests
use requestinspector_relay.Base.{
  ℕ, ◌+◌, ◌-◌, ◌%◌, ◌^◌, String, ◌≡◌, List, [], ◌∷◌, ◌++◌, Option, none, some, Bool, true, false,
  not, ◌&&◌, ◌||◌, ltb, leb, ◌==◌, if◌then◌else◌, str_eq, length, codes, has_part,
}
use requestinspector_relay.Capture.Model.{Exchange}
use requestinspector_relay.Sqlite.Words.{add64, sub64, is_negative, less64}

pub record Options : Type 0 where
  pub path : String
  pub queue_count : ℕ
  pub queue_bytes : ℕ
  pub batch_size : ℕ
  pub flush_interval : ℕ
  pub busy_timeout : ℕ
  pub cleanup_batch_size : ℕ
  pub compact_pages : ℕ
  pub retention_days : ℕ

abbrev default : ℕ → ℕ → ℕ
default value standard = if value == 0 then standard else value

-- A setting of 0 stands for all that `<= 0` replaces.
unfoldable pub apply_defaults : Options → Options
apply_defaults o = record o {
  queue_count = default o.queue_count 256;
  queue_bytes = default o.queue_bytes 536870912;
  batch_size = default o.batch_size 50;
  flush_interval = default o.flush_interval 25000000;
  busy_timeout = default o.busy_timeout 5000000000;
  cleanup_batch_size = default o.cleanup_batch_size 500;
  compact_pages = default o.compact_pages 256;
}

pub record Reservation : Type 0 where
  pub bytes : ℕ
  pub done : Bool

pub record WriteItem : Type 0 where
  pub exchange : Exchange
  pub bytes : ℕ

pub record Repository : Type 0 where
  pub options : Options
  pub accepting : Bool
  pub reserved_count : ℕ
  pub reserved_bytes : ℕ
  pub maintenance : String
  pub writes : List WriteItem
  pub write_count : ℕ
  pub write_failures : ℕ
  pub busy_failures : ℕ
  pub last_error : String

unfoldable pub open_repository : Options → Repository
open_repository options = record {
  options = apply_defaults options;
  accepting = true;
  reserved_count = 0;
  reserved_bytes = 0;
  maintenance = "";
  writes = [];
  write_count = 0;
  write_failures = 0;
  busy_failures = 0;
  last_error = "";
}

abbrev is_refused : Repository → ℕ → Bool
is_refused r size =
    not r.accepting
    || str_eq r.maintenance "vacuum"
    || leb r.options.queue_count r.reserved_count
    || less64 r.options.queue_bytes (add64 r.reserved_bytes size)

unfoldable pub reserve : Repository → ℕ → Repository × Option Reservation
reserve r bytes =
    let size = if is_negative bytes then 0 else bytes in
    if is_refused r size then (r, none) else (
      record r {
        reserved_count = r.reserved_count + 1;
        reserved_bytes = add64 r.reserved_bytes size;
      },
      some (record { bytes = size; done = false }),
    )

-- `-` stops at 0, which is the clamp of the count.
unfoldable pub release : Repository → ℕ → Repository
release r bytes = record r {
  reserved_count = r.reserved_count - 1;
  reserved_bytes =
      if is_negative (sub64 r.reserved_bytes bytes) then 0 else sub64 r.reserved_bytes bytes;
}

abbrev pub queue_full : String
queue_full = "sqlite writer queue is full"

unfoldable pub commit :
    Repository → Reservation → Exchange → Repository × Reservation × Option String
commit r v e =
    if v.done
    then (r, v, none)
    else if leb r.options.queue_count (length r.writes)
    then (release r v.bytes, record v { done = true }, some queue_full)
    else (
      record r { writes = r.writes ++ record { exchange = e; bytes = v.bytes } ∷ [] },
      record v { done = true },
      none,
    )

unfoldable pub cancel : Repository → Reservation → Repository × Reservation
cancel r v = if v.done then (r, v) else (release r v.bytes, record v { done = true })

-- One receipt of the writer: the first of a batch, or a further one below the batch's size.
unfoldable pub collect : Repository → List WriteItem → Repository × List WriteItem
collect r batch = elim r.writes [
  | [] ↦ (r, batch)
  | item ∷ writes ↦
      if leb r.options.batch_size (length batch)
      then (r, batch)
      else (record r { writes = writes }, batch ++ item ∷ [])
]

unfoldable pub is_busy : String → Bool
is_busy text =
    has_part (codes "database is locked") (codes text)
    || has_part (codes "database is busy") (codes text)

-- The counters after a batch's transaction; `err` is the text of its error.
unfoldable pub record_outcome : Repository → List WriteItem → Option String → Repository
unfolding is_busy
record_outcome r batch err = elim err [
  | none ↦ record r { write_count = (r.write_count + length batch) % 2 ^ 64 }
  | some text ↦ record r {
    write_failures = (r.write_failures + length batch) % 2 ^ 64;
    busy_failures =
        if is_busy text then (r.busy_failures + length batch) % 2 ^ 64 else r.busy_failures;
    last_error = text;
  }
]

-- The loop at the end of `writeBatch`.
unfoldable pub release_all : Repository → List WriteItem → Repository
release_all r [] = r
release_all r (item ∷ batch) = release_all (release r item.bytes) batch

unfoldable pub write_batch : Repository → List WriteItem → Option String → Repository
unfolding record_outcome release_all
write_batch r batch err = release_all (record_outcome r batch err) batch

unfoldable pub begin_maintenance : Repository → String → Repository × Bool
begin_maintenance r name =
    if not (str_eq r.maintenance "") then (r, false) else (record r { maintenance = name }, true)

unfoldable pub end_maintenance : Repository → Repository
end_maintenance r = record r { maintenance = "" }

-- The first step of `finishClose`.
unfoldable pub stop_accepting : Repository → Repository
stop_accepting r = record r { accepting = false }
