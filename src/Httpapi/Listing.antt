-- ===== src/Httpapi/Listing.antt =====
-- internal/httpapi/exchanges.go: the pages of the history, from the exchanges in memory and those
-- of the database. `UnixNano` counts from another origin than the times here, which no comparison
-- of two times sees.
pub mod Merge
use requestinspector_relay.Base.{
  ℕ, ◌≡◌, ◌≢◌, refl, ap, ◌∙◌, String, List, [], ◌∷◌, ◌++◌, Option, none, some, Bool, true, false,
  not, ◌&&◌, ◌||◌, ltb, ◌==◌, if◌then◌else◌, str_eq, str_lt, eq_iff, str_eq_of_not-lt, str_lt_asymm,
  keep, any, All, sort, IsSorted, IsWeakOrder, Separated, Separated-sort, sort-IsSorted, arith,
  Bool-cases, inl, inr,
}
use requestinspector_relay.Capture.Model.{Exchange}
use requestinspector_relay.Store.{newer, ordering_time}
use requestinspector_relay.Store.Order.{newer-IsWeakOrder}

pub record CursorBoundary : Type 0 where
  pub completed_at : ℕ
  pub id : String

unfoldable pub exchange_ordering_time : Exchange → ℕ
exchange_ordering_time e = if not (e.completed_at == 0) then e.completed_at else e.started_at

-- What `encodeCursor` takes of the last exchange of a page.
abbrev pub boundary_of : Exchange → CursorBoundary
boundary_of e = record { completed_at = exchange_ordering_time e; id = e.id }

abbrev is_older : CursorBoundary → Exchange → Bool
is_older b e =
    ltb (exchange_ordering_time e) b.completed_at
    || exchange_ordering_time e == b.completed_at && str_lt e.id b.id

unfoldable pub older_than : List Exchange → Option CursorBoundary → List Exchange
older_than items none = items
older_than items (some b) = keep (is_older b) items

-- The loops of `mergeExchanges`: the first exchange with an identifier stays.
unfoldable pub unseen : List String → List Exchange → List Exchange
unseen seen [] = []
unseen seen (e ∷ es) =
    let skipped = unseen seen es in
    let kept = unseen (e.id ∷ seen) es in
    if any (λ id. str_eq id e.id) seen then skipped else e ∷ kept

-- The order that `mergeExchanges` sorts by.
unfoldable pub listed_before : Exchange → Exchange → Bool
unfolding exchange_ordering_time
listed_before left right =
    if exchange_ordering_time left == exchange_ordering_time right
    then str_lt right.id left.id
    else ltb (exchange_ordering_time right) (exchange_ordering_time left)

unfoldable pub merge_exchanges : List Exchange → List Exchange → List Exchange
unfolding unseen
merge_exchanges memory persisted = sort listed_before (unseen [] (memory ++ persisted))

-- What follows a cursor is what is listed after its exchange.
is_older_lem : (last e : Exchange) → is_older (boundary_of last) e ≡ listed_before last e
unfolding listed_before
is_older_lem last e = ground arith

not_listed_before_itself : (e : Exchange) → listed_before e e ≡ false
unfolding listed_before
not_listed_before_itself e = ground (arith, str_lt_asymm e.id e.id, Bool-cases (str_lt e.id e.id))

listed_after :
    (last e : Exchange)
    → listed_before e last ≡ false
    → e.id ≢ last.id
    → listed_before last e ≡ true
unfolding listed_before
listed_after last e h other =
    ground (arith, str_eq_of_not-lt e.id last.id, Bool-cases (str_lt e.id last.id))

keep_none :
    (test : Exchange → Bool) (front back : List Exchange)
    → All (λ e. test e ≡ false) front
    → keep test (front ++ back) ≡ keep test back
keep_none test [] back a = refl
keep_none test (e ∷ front) back a = rw a.0 (keep_none test front back a.1)

keep_whole :
    (test : Exchange → Bool) (es : List Exchange) → All (λ e. test e ≡ true) es → keep test es ≡ es
keep_whole test [] a = refl
keep_whole test (e ∷ es) a = rw a.0 (ap (◌∷◌ e) (keep_whole test es a.1))

-- In a sorted list, those in front of an exchange are not listed after it.
front-older :
    (front back : List Exchange) (last : Exchange)
    → IsSorted listed_before (front ++ last ∷ back)
    → All (λ e. is_older (boundary_of last) e ≡ false) front
front-older [] back last s = tt
front-older (e ∷ front) back last s = (
  is_older_lem last e ∙ at_last front last back (λ x. listed_before x e) s.0,
  front-older front back last s.1,
)
  where
    at_last :
        (front : List Exchange) (last : Exchange) (back : List Exchange) (test : Exchange → Bool)
        → All (λ x. test x ≡ false) (front ++ last ∷ back)
        → test last ≡ false
    at_last [] last back test a = a.0
    at_last (x ∷ front) last back test a = at_last front last back test a.1

back-older :
    (back : List Exchange) (last : Exchange)
    → All (λ e. listed_before e last ≡ false) back
    → All (λ e. e.id ≢ last.id) back
    → All (λ e. is_older (boundary_of last) e ≡ true) back
back-older [] last s d = tt
back-older (e ∷ back) last s d =
    (is_older_lem last e ∙ listed_after last e s.0 d.0, back-older back last s.1 d.1)

tail-IsSorted :
    (front back : List Exchange)
    → IsSorted listed_before (front ++ back)
    → IsSorted listed_before back
tail-IsSorted [] back s = s
tail-IsSorted (e ∷ front) back s = tail-IsSorted front back s.1

-- A cursor made from an exchange of a sorted list leads to exactly what follows that exchange, where
-- no later one has its identifier: no exchange is skipped and none is listed again.
pub older_than-boundary_of :
    (front back : List Exchange) (last : Exchange)
    → IsSorted listed_before (front ++ last ∷ back)
    → All (λ e. e.id ≢ last.id) back
    → older_than (front ++ last ∷ back) (some (boundary_of last)) ≡ back
unfolding older_than
older_than-boundary_of front back last s d =
    let tail = tail-IsSorted front (last ∷ back) s in
    let own : is_older (boundary_of last) last ≡ false =
      is_older_lem last last ∙ not_listed_before_itself last in
    keep_none (is_older (boundary_of last)) front (last ∷ back) (front-older front back last s)
    ∙ keep_none (is_older (boundary_of last)) (last ∷ []) back (own, tt)
    ∙ keep_whole (is_older (boundary_of last)) back (back-older back last tail.0 d)

pub listed_before-IsWeakOrder : IsWeakOrder listed_before
unfolding listed_before exchange_ordering_time newer ordering_time
listed_before-IsWeakOrder = newer-IsWeakOrder

abbrev pub is_seen : List String → Exchange → Bool
is_seen seen e = any (λ id. str_eq id e.id) seen

unseen-fresh :
    (seen : List String) (es : List Exchange) → All (λ e. is_seen seen e ≡ false) (unseen seen es)
unfolding unseen
unseen-fresh seen [] = tt
unseen-fresh seen (e ∷ es) = elim (Bool-cases (is_seen seen e)) [
  | inl old ↦ rw (old, unseen) (unseen-fresh seen es)
  | inr new ↦
      rw (new, unseen)
        (new, weaker e.id seen (unseen (e.id ∷ seen) es) (unseen-fresh (e.id ∷ seen) es))
]
  where
    weaker :
        (id : String) (seen : List String) (es : List Exchange)
        → All (λ e. is_seen (id ∷ seen) e ≡ false) es
        → All (λ e. is_seen seen e ≡ false) es
    weaker id seen [] a = tt
    weaker id seen (e ∷ es) a = (ground (arith, a.0), weaker id seen es a.1)

others-differ :
    (first : Exchange) (seen : List String) (es : List Exchange)
    → All (λ e. is_seen (first.id ∷ seen) e ≡ false) es
    → All (λ e. (first.id ≢ e.id) × (e.id ≢ first.id)) es
others-differ first seen [] a = tt
others-differ first seen (e ∷ es) a = (
  (
    λ same. ground (arith, a.0, eq_iff first.id e.id),
    λ same. ground (arith, a.0, eq_iff first.id e.id),
  ),
  others-differ first seen es a.1,
)

pub unseen-Separated :
    (seen : List String) (es : List Exchange) → Separated (λ x y. x.id ≢ y.id) (unseen seen es)
unfolding unseen
unseen-Separated seen [] = tt
unseen-Separated seen (e ∷ es) = elim (Bool-cases (is_seen seen e)) [
  | inl old ↦ rw (old, unseen) (unseen-Separated seen es)
  | inr new ↦
      rw (new, unseen)
        (
          others-differ e seen (unseen (e.id ∷ seen) es) (unseen-fresh (e.id ∷ seen) es),
          unseen-Separated (e.id ∷ seen) es,
        )
]
