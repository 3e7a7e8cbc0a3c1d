-- ===== src/Store/Eviction.antt =====
-- The capacity of the store: what `evictExcess` keeps and what it drops.
use requestinspector_relay.Base.{
  ℕ, ◌≤◌, String, ◌≡◌, inl, inr, List, true, if◌then◌else◌, length, drop, insert, arith, All,
  HasDistinctKeys, All-sort, Separated, Separated-sort, Separated-drop, All-drop, length-drop,
  length-sort, leb, Bool-cases, sort, insert-HasDistinctKeys, leb→le, ltb,
}
use requestinspector_relay.Capture.Model.{Exchange, is_terminal}
use requestinspector_relay.Store.{
  Memory, new_memory, newer, sort_newest_first, values, completed_items, erase_all, evict_excess,
  save, resize,
}
use requestinspector_relay.Store.Entries.{
  HasOwnKeys, OtherId, IsFiled, erase_all-HasOwnKeys, erase_all-HasDistinctKeys, All-keep,
  All-keep-true, Separated-keep, Separated-values, values-IsFiled, length-keep-erase_all,
  insert-HasOwnKeys,
}

-- The map's shape: no key twice, each exchange under its own identifier.
pub record IsWellFormed (items : List (String × Exchange)) : Type 0 where
  pub distinct : HasDistinctKeys items
  pub own : HasOwnKeys items

-- The invariant of the store: its shape, a positive capacity, and no more completed exchanges than
-- that.
pub record IsValid (m : Memory) : Type 0 where
  pub positive : 1 ≤ m.capacity
  pub bounded : length (completed_items m) ≤ m.capacity
  pub formed : IsWellFormed m.items

module _ (m : Memory) (w : IsWellFormed m.items) where
  candidates : List Exchange
  candidates = drop m.capacity (sort newer (completed_items m))

  candidates-IsFiled : All (IsFiled m.items) candidates
  unfolding candidates completed_items
  candidates-IsFiled = All-drop (IsFiled m.items) m.capacity _ (
      All-sort newer (IsFiled m.items) (completed_items m) (
        All-keep (λ e. is_terminal e.state) (IsFiled m.items) (values m.items)
          (values-IsFiled m.items w.distinct w.own)))

  candidates-terminal : All (λ e. is_terminal e.state ≡ true) candidates
  unfolding candidates completed_items
  candidates-terminal =
      All-drop (λ e. is_terminal e.state ≡ true) m.capacity _
        (All-sort newer (λ e. is_terminal e.state ≡ true) (completed_items m)
          (All-keep-true (λ e. is_terminal e.state) (values m.items)))

  candidates-Separated : Separated OtherId candidates
  unfolding candidates completed_items
  candidates-Separated = Separated-drop OtherId m.capacity _ (
      Separated-sort newer OtherId (completed_items m) (
        Separated-keep (λ e. is_terminal e.state) OtherId (values m.items)
          (Separated-values m.items w.distinct w.own)))

  -- Each evicted exchange is the one that was filed under its identifier.
  pub evict_excess-IsFiled : All (IsFiled m.items) (evict_excess m).1
  unfolding evict_excess sort_newest_first candidates
  evict_excess-IsFiled = elim (Bool-cases (leb (length (completed_items m)) m.capacity)) [
    | inl fits ↦ rw (fits, evict_excess) tt
    | inr full ↦ rw (full, evict_excess) candidates-IsFiled
  ]

  -- Erasing the candidates leaves no more than the capacity.
  length-candidates :
      length (completed_items (record m { items = erase_all candidates m.items })) ≤ m.capacity
  unfolding completed_items candidates
  length-candidates = omega (
    arith,
    length-keep-erase_all (λ e. is_terminal e.state) candidates m.items w.distinct
        candidates-IsFiled candidates-terminal candidates-Separated,
    length-drop m.capacity (sort newer (completed_items m)),
    length-sort newer (completed_items m),
  )

  -- Eviction makes the store valid, whatever it held.
  pub evict_excess-IsValid : 1 ≤ m.capacity → IsValid (evict_excess m).0
  unfolding evict_excess sort_newest_first candidates
  evict_excess-IsValid h = elim (Bool-cases (leb (length (completed_items m)) m.capacity)) [
    | inl fits ↦
        rw (fits, evict_excess) (record { positive = h; bounded = leb→le _ _ fits; formed = w })
    | inr full ↦
        rw (full, evict_excess)
          (record {
            positive = h;
            bounded = length-candidates;
            formed = record {
              distinct = erase_all-HasDistinctKeys candidates m.items w.distinct;
              own = erase_all-HasOwnKeys candidates m.items w.own;
            };
          })
  ]

pub insert-IsWellFormed :
    (e : Exchange) (items : List (String × Exchange))
    → IsWellFormed items
    → IsWellFormed (insert e.id e items)
insert-IsWellFormed e items w = record {
  distinct = insert-HasDistinctKeys e.id e items w.distinct;
  own = insert-HasOwnKeys e items w.own;
}

-- Saving an exchange keeps a store valid: its capacity is positive, it holds no more completed
-- exchanges than that, and each exchange stands once, under its own identifier.
pub save-IsValid : (m : Memory) (e : Exchange) → IsValid m → IsValid (save m e).0
unfolding save
save-IsValid m e v =
    evict_excess-IsValid (record m { items = insert e.id e m.items })
      (insert-IsWellFormed e m.items v.formed) v.positive

-- Resizing a valid store to any capacity, also 0, gives a valid store.
pub resize-IsValid : (m : Memory) (capacity : ℕ) → IsValid m → IsValid (resize m capacity).0
unfolding resize
resize-IsValid m capacity v =
    evict_excess-IsValid (record m { capacity = if ltb capacity 1 then 1 else capacity }) v.formed
      (ground arith)

pub new_memory-IsValid : (capacity : ℕ) → IsValid (new_memory capacity)
unfolding new_memory completed_items
new_memory-IsValid capacity = record {
  positive = ground arith;
  bounded = omega arith;
  formed = record { distinct = tt; own = tt };
}

-- After a change of the capacity it is the one asked for, and at least 1.
pub resize-capacity :
    (m : Memory) (capacity : ℕ)
    → (resize m capacity).0.capacity ≡ (if ltb capacity 1 then 1 else capacity)
unfolding resize evict_excess
resize-capacity m capacity = ground arith
