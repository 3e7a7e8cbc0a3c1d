-- ===== src/Sqlite/Accounts.antt =====
-- The accounts of the writer: what is reserved is what is outstanding, queued or being written. The
-- requests, the writer and the maintenance run side by side, so their steps come in any order.
use requestinspector_relay.Base.{
  ℕ, suc, ◌+◌, ◌-◌, ◌^◌, ◌≤◌, ◌<◌, ◌≡◌, refl, ◌∙◌, ap, List, [], ◌∷◌, ◌++◌, Option, none, some,
  true, false, String, leb, length, length-append, arith, Bool-cases, inl, inr,
}
use requestinspector_relay.Capture.Model.{Exchange}
use requestinspector_relay.Sqlite.Words.{add64_small, sub64_small}
use requestinspector_relay.Sqlite.{
  Reservation, WriteItem, Repository, reserve, release, commit, cancel, collect, record_outcome,
  begin_maintenance, end_maintenance, stop_accepting,
}

abbrev pub total : List ℕ → ℕ
total [] = 0
total (b ∷ sizes) = b + total sizes

abbrev pub item_bytes : List WriteItem → ℕ
item_bytes [] = 0
item_bytes (item ∷ items) = item.bytes + item_bytes items

total-append : (xs ys : List ℕ) → total (xs ++ ys) ≡ total xs + total ys
total-append [] ys = omega arith
total-append (x ∷ xs) ys = omega (arith, total-append xs ys)

item_bytes-append : (xs ys : List WriteItem) → item_bytes (xs ++ ys) ≡ item_bytes xs + item_bytes ys
item_bytes-append [] ys = omega arith
item_bytes-append (x ∷ xs) ys = omega (arith, item_bytes-append xs ys)

-- The repository with the sizes of the reservations that are not done, and the writer's batch.
pub record Writer : Type 0 where
  pub repository : Repository
  pub outstanding : List ℕ
  pub batch : List WriteItem

-- What is reserved is what is outstanding, queued or in the batch, and within the limits.
pub record IsAccounted (w : Writer) : Type 0 where
  pub count :
      w.repository.reserved_count
      ≡ length w.outstanding + length w.repository.writes + length w.batch
  pub bytes :
      w.repository.reserved_bytes
      ≡ total w.outstanding + item_bytes w.repository.writes + item_bytes w.batch
  pub few : w.repository.reserved_count ≤ w.repository.options.queue_count
  pub small : w.repository.reserved_bytes ≤ w.repository.options.queue_bytes
  pub representable : w.repository.options.queue_bytes < 2 ^ 63

pub data Step (a b : Writer) : Type 0 where
  reserves :
      (size : ℕ) (v : Reservation)
      → a.repository.options.queue_bytes + size < 2 ^ 63
      → (reserve a.repository size).1 ≡ some v
      → b ≡ record a {
        repository = (reserve a.repository size).0;
        outstanding = v.bytes ∷ a.outstanding;
      }
      → Step a b
  commits :
      (front back : List ℕ) (v : Reservation) (e : Exchange)
      → v.done ≡ false
      → a.outstanding ≡ front ++ v.bytes ∷ back
      → b ≡ record a { repository = (commit a.repository v e).0; outstanding = front ++ back }
      → Step a b
  cancels :
      (front back : List ℕ) (v : Reservation)
      → v.done ≡ false
      → a.outstanding ≡ front ++ v.bytes ∷ back
      → b ≡ record a { repository = (cancel a.repository v).0; outstanding = front ++ back }
      → Step a b
  collects :
      b ≡ record a {
        repository = (collect a.repository a.batch).0;
        batch = (collect a.repository a.batch).1;
      }
      → Step a b
  writes :
      (err : Option String)
      → b ≡ record a { repository = record_outcome a.repository a.batch err }
      → Step a b
  releases :
      (item : WriteItem) (rest : List WriteItem)
      → a.batch ≡ item ∷ rest
      → b ≡ record a { repository = release a.repository item.bytes; batch = rest }
      → Step a b
  begins :
      (name : String)
      → b ≡ record a { repository = (begin_maintenance a.repository name).0 }
      → Step a b
  ends : b ≡ record a { repository = end_maintenance a.repository } → Step a b
  closes : b ≡ record a { repository = stop_accepting a.repository } → Step a b

pub data Reach (a : Writer) : Writer → Type 0 where
  here : Reach a a
  next : {b c : Writer} → Reach a b → Step b c → Reach a c

-- Giving back an amount that is reserved subtracts it.
release_lem :
    (r : Repository) (bytes : ℕ)
    → bytes ≤ r.reserved_bytes
    → r.reserved_bytes < 2 ^ 63
    → (release r bytes).reserved_bytes ≡ r.reserved_bytes - bytes
unfolding release
release_lem r bytes h k = ground (arith, sub64_small r.reserved_bytes bytes h k)

-- A reservation is granted only within both limits, and is counted.
reserve_lem :
    (r : Repository) (size : ℕ) (v : Reservation)
    → r.options.queue_bytes + size < 2 ^ 63
    → r.reserved_bytes ≤ r.options.queue_bytes
    → (reserve r size).1 ≡ some v
    → (v.bytes ≡ size)
      × ((reserve r size).0 ≡ record r {
        reserved_count = r.reserved_count + 1;
        reserved_bytes = r.reserved_bytes + size;
      })
      × (r.reserved_count + 1 ≤ r.options.queue_count)
      × (r.reserved_bytes + size ≤ r.options.queue_bytes)
unfolding reserve
reserve_lem r size v fits small granted =
    ground (arith, add64_small r.reserved_bytes size (omega arith))

-- With the accounts in order, a reservation that is not done has room in the queue: `Commit` never
-- meets a full queue.
pub commit_fits :
    (w : Writer) (front back : List ℕ) (v : Reservation) (e : Exchange)
    → IsAccounted w
    → v.done ≡ false
    → w.outstanding ≡ front ++ v.bytes ∷ back
    → commit w.repository v e ≡ (
      record w.repository {
        writes = w.repository.writes ++ record { exchange = e; bytes = v.bytes } ∷ [];
      },
      record v { done = true },
      none,
    )
unfolding commit
commit_fits w front back v e a open' held =
    let count : length w.outstanding ≡ length front + suc (length back) =
      ap length held ∙ length-append front (v.bytes ∷ back) in
    let room : leb w.repository.options.queue_count (length w.repository.writes) ≡ false =
      ground (arith, a.count, a.few, count) in
    rw (open', commit) (rw (room, commit) refl)

pub reserves-IsAccounted :
    (w : Writer) (size : ℕ) (v : Reservation)
    → IsAccounted w
    → w.repository.options.queue_bytes + size < 2 ^ 63
    → (reserve w.repository size).1 ≡ some v
    → IsAccounted (record w {
      repository = (reserve w.repository size).0;
      outstanding = v.bytes ∷ w.outstanding;
    })
reserves-IsAccounted w size v a fits granted =
    let r = reserve_lem w.repository size v fits a.small granted in
    rw (r.1, r.0)
      (record {
        count = omega (arith, a.count);
        bytes = omega (arith, a.bytes);
        few = r.2;
        small = r.3;
        representable = a.representable;
      })

pub commits-IsAccounted :
    (w : Writer) (front back : List ℕ) (v : Reservation) (e : Exchange)
    → IsAccounted w
    → v.done ≡ false
    → w.outstanding ≡ front ++ v.bytes ∷ back
    → IsAccounted
        (record w { repository = (commit w.repository v e).0; outstanding = front ++ back })
commits-IsAccounted w front back v e a open' held =
    let count : length w.outstanding ≡ length front + suc (length back) =
      ap length held ∙ length-append front (v.bytes ∷ back) in
    let bytes : total w.outstanding ≡ total front + (v.bytes + total back) =
      ap total held ∙ total-append front (v.bytes ∷ back) in
    let item : WriteItem = record { exchange = e; bytes = v.bytes } in
    rw (commit_fits w front back v e a open' held) (record {
      count = omega (
        arith,
        a.count,
        count,
        length-append front back,
        length-append w.repository.writes (item ∷ []),
      );
      bytes = omega (
        arith,
        a.bytes,
        bytes,
        total-append front back,
        item_bytes-append w.repository.writes (item ∷ []),
      );
      few = a.few;
      small = a.small;
      representable = a.representable;
    })

pub cancels-IsAccounted :
    (w : Writer) (front back : List ℕ) (v : Reservation)
    → IsAccounted w
    → v.done ≡ false
    → w.outstanding ≡ front ++ v.bytes ∷ back
    → IsAccounted (record w { repository = (cancel w.repository v).0; outstanding = front ++ back })
unfolding cancel release
cancels-IsAccounted w front back v a open' held =
    let count : length w.outstanding ≡ length front + suc (length back) =
      ap length held ∙ length-append front (v.bytes ∷ back) in
    let bytes : total w.outstanding ≡ total front + (v.bytes + total back) =
      ap total held ∙ total-append front (v.bytes ∷ back) in
    let left =
      release_lem w.repository v.bytes (omega (arith, a.bytes, bytes))
        (omega (arith, a.small, a.representable)) in
    rw (open', cancel)
      (record {
        count = omega (arith, a.count, count, length-append front back);
        bytes = omega (arith, a.bytes, bytes, left, total-append front back);
        few = omega (arith, a.few);
        small = omega (arith, a.small, left);
        representable = a.representable;
      })

pub releases-IsAccounted :
    (w : Writer) (item : WriteItem) (rest : List WriteItem)
    → IsAccounted w
    → w.batch ≡ item ∷ rest
    → IsAccounted (record w { repository = release w.repository item.bytes; batch = rest })
unfolding release
releases-IsAccounted w item rest a taken =
    let count : length w.batch ≡ suc (length rest) = ap length taken in
    let bytes : item_bytes w.batch ≡ item.bytes + item_bytes rest = ap item_bytes taken in
    let left =
      release_lem w.repository item.bytes (omega (arith, a.bytes, bytes))
        (omega (arith, a.small, a.representable)) in
    record {
      count = omega (arith, a.count, count);
      bytes = omega (arith, a.bytes, bytes, left);
      few = omega (arith, a.few);
      small = omega (arith, a.small, left);
      representable = a.representable;
    }

pub collects-IsAccounted :
    (w : Writer)
    → IsAccounted w
    → IsAccounted (record w {
      repository = (collect w.repository w.batch).0;
      batch = (collect w.repository w.batch).1;
    })
unfolding collect
collects-IsAccounted w a = by_queue w.repository.writes refl
  where
    by_queue :
        (queue : List WriteItem)
        → w.repository.writes ≡ queue
        → IsAccounted (record w {
          repository = (collect w.repository w.batch).0;
          batch = (collect w.repository w.batch).1;
        })
    by_queue [] e = rw (e, collect) a
    by_queue (item ∷ queue) e =
        elim (Bool-cases (leb w.repository.options.batch_size (length w.batch))) [
          | inl full ↦ rw (e, collect) (rw (full, collect) a)
          | inr room ↦
              rw (e, collect)
                (rw (room, collect)
                  (record {
                    count = omega (arith, a.count, ap length e, length-append w.batch (item ∷ []));
                    bytes =
                        omega
                          (arith, a.bytes, ap item_bytes e, item_bytes-append w.batch (item ∷ []));
                    few = a.few;
                    small = a.small;
                    representable = a.representable;
                  }))
        ]

-- What changes neither the counts, the queue nor the options keeps the accounts.
pub same-IsAccounted :
    (w : Writer) (r : Repository)
    → IsAccounted w
    → r.options ≡ w.repository.options
    → r.reserved_count ≡ w.repository.reserved_count
    → r.reserved_bytes ≡ w.repository.reserved_bytes
    → r.writes ≡ w.repository.writes
    → IsAccounted (record w { repository = r })
same-IsAccounted w r a o c b q = record {
  count = omega (arith, a.count, c, ap length q);
  bytes = omega (arith, a.bytes, b, ap item_bytes q);
  few = omega (arith, a.few, c, ap (λ x. x.queue_count) o);
  small = omega (arith, a.small, b, ap (λ x. x.queue_bytes) o);
  representable = omega (arith, a.representable, ap (λ x. x.queue_bytes) o);
}
