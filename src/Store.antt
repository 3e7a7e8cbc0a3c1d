-- ===== src/Store.antt =====
-- internal/store/memory.go: the exchanges kept in memory. Every method holds the mutex to its end,
-- so each is one step from a state to the next. The map is an association list in some order: a
-- `range` over it goes in that order.
pub mod Order
pub mod Entries
pub mod Eviction
pub mod Reads
pub mod Joined
mod Tests
use requestinspector_relay.Base.{
  ℕ, String, ◌≡◌, List, [], ◌∷◌, map, Option, none, some, Bool, true, false, not, ◌&&◌, ltb, leb,
  ◌==◌, if◌then◌else◌, str_eq, str_lt, length, drop, keep, lookup, insert, erase, sort,
}
use requestinspector_relay.Capture.Model.{Exchange, is_terminal}

pub record Memory : Type 0 where
  pub capacity : ℕ
  pub items : List (String × Exchange)

unfoldable pub new_memory : ℕ → Memory
new_memory capacity = record { capacity = if ltb capacity 1 then 1 else capacity; items = [] }

unfoldable pub ordering_time : Exchange → ℕ
ordering_time e = if not (e.completed_at == 0) then e.completed_at else e.started_at

-- The `less` of `sortNewestFirst`.
unfoldable pub newer : Exchange → Exchange → Bool
unfolding ordering_time
newer left right =
    if ordering_time left == ordering_time right
    then str_lt right.id left.id
    else ltb (ordering_time right) (ordering_time left)

unfoldable pub sort_newest_first : List Exchange → List Exchange
sort_newest_first = sort newer

abbrev pub values : List (String × Exchange) → List Exchange
values [] = []
values ((_, e) ∷ items) = e ∷ values items

-- The first loop of `evictExcess`.
unfoldable pub completed_items : Memory → List Exchange
completed_items m = keep (λ e. is_terminal e.state) (values m.items)

-- Deletes the exchanges of a list one after the other.
unfoldable pub erase_all : List Exchange → List (String × Exchange) → List (String × Exchange)
erase_all [] items = items
erase_all (e ∷ es) items = erase_all es (erase e.id items)

unfoldable pub evict_excess : Memory → Memory × List Exchange
evict_excess m =
    if leb (length (completed_items m)) m.capacity
    then (m, [])
    else (let evicted = drop m.capacity (sort_newest_first (completed_items m)) in
        (record m { items = erase_all evicted m.items }, evicted))

unfoldable pub save : Memory → Exchange → Memory × List Exchange
save m e = evict_excess (record m { items = insert e.id e m.items })

unfoldable pub get : Memory → String → Option Exchange
get m id = lookup id m.items

unfoldable pub list : Memory → List Exchange
list m = sort_newest_first (values m.items)

unfoldable pub resize : Memory → ℕ → Memory × List Exchange
resize m capacity = evict_excess (record m { capacity = if ltb capacity 1 then 1 else capacity })

-- The loop of `Clear` and of `RemoveCompletedBefore`: what a test selects is removed.
unfoldable pub remove_where : (Exchange → Bool) → Memory → Memory × List Exchange
remove_where test m =
    let removed = keep test (values m.items) in
    (record m { items = erase_all removed m.items }, sort_newest_first removed)

unfoldable pub clear : Memory → Memory × List Exchange
clear m = remove_where (λ e. is_terminal e.state) m

unfoldable pub remove : Memory → String → Memory × Option Exchange
remove m id = elim (lookup id m.items) [
  | none ↦ (m, none)
  | some e ↦
      if not (is_terminal e.state)
      then (m, none)
      else (record m { items = erase id m.items }, some e)
]

unfoldable pub remove_completed_before : Memory → ℕ → Memory × List Exchange
remove_completed_before m cutoff =
    remove_where
      (λ e. is_terminal e.state && not (e.completed_at == 0) && ltb e.completed_at cutoff) m
