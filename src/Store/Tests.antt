-- ===== src/Store/Tests.antt =====
-- A store of two exchanges, one completed and one in flight.
use requestinspector_relay.Base.{
  [], ◌∷◌, ◌≡◌, ◌<◌, ◌⊎◌, str_lt, refl, some, true, false, arith, All, lookup, eq_iff, insert,
  erase, sort, insert_sorted,
}
use requestinspector_relay.Capture.Model.{Exchange, receiving, completed, is_terminal}
use requestinspector_relay.Capture.Tests.{test_exchange}
use requestinspector_relay.Store.{
  Memory, completed_items, newer, ordering_time, evict_excess, sort_newest_first, erase_all, save,
  get,
}
use requestinspector_relay.Store.Eviction.{IsValid, save-IsValid}
use requestinspector_relay.Store.Reads.{save-oldest, get-save_active}

abbrev old : Exchange
old = test_exchange "a" completed 5

abbrev young : Exchange
young = test_exchange "b" completed 7

abbrev active : Exchange
active = test_exchange "c" receiving 0

abbrev two : Memory
two = record { capacity = 1; items = ("a", old) ∷ ("c", active) ∷ [] }

two-IsValid : IsValid two
unfolding completed_items is_terminal lookup
two-IsValid = record {
  positive = omega arith;
  bounded = omega arith;
  formed = record { distinct = (refl, (refl, tt)); own = (refl, (refl, tt)) };
}

save-IsValid_example : IsValid (save two young).0
save-IsValid_example = save-IsValid two young two-IsValid

save_run : get (save two young).0 "b" ≡ some young
unfolding save get evict_excess completed_items is_terminal lookup sort_newest_first newer
    ordering_time erase_all insert erase sort insert_sorted
save_run = refl

save-oldest_example :
    All (λ gone. is_terminal gone.state ≡ true) (save two young).1
    × All
        (λ gone.
          (ordering_time gone < ordering_time young)
          ⊎ ((ordering_time gone ≡ ordering_time young) × (str_lt young.id gone.id ≡ false)))
        (save two young).1
unfolding is_terminal
save-oldest_example = save-oldest two young "b" young two-IsValid save_run refl

get-save_active_example : get (save two young).0 "c" ≡ some active
unfolding get lookup is_terminal
get-save_active_example =
    get-save_active two young active "c" two-IsValid refl refl (ground (arith, eq_iff "b" "c"))
