-- ===== src/Httpapi/Pages.antt =====
-- The handler `exchanges` of internal/httpapi/exchanges.go: a page of the history at a cursor. The
-- parameters of the request are read before: `none` inside is a text that does not parse.
pub mod Walk
use requestinspector_relay.Base.{
  ℕ, ◌+◌, String, List, [], ◌∷◌, Option, none, some, is_some, Bool, true, false, not, ◌||◌, ◌&&◌,
  ltb, ◌==◌, if◌then◌else◌, str_eq, length, take, Result, ok, err, bind,
}
use requestinspector_relay.Capture.Model.{Exchange}
use requestinspector_relay.Httpapi.Listing.{
  CursorBoundary, exchange_ordering_time, boundary_of, older_than, merge_exchanges,
}

-- What the database answers: whether it has an exchange at a boundary, and the exchanges behind it,
-- with whether there are more.
pub record Persisted : Type 0 where
  pub contains_boundary : CursorBoundary → Result (Unit {0}) Bool
  pub list_older : Option CursorBoundary → ℕ → Result (Unit {0}) (List Exchange × Bool)

pub record ListQuery : Type 0 where
  pub limit : Option (Option ℕ)
  pub cursor : Option (Option CursorBoundary)

pub record Page : Type 0 where
  pub items : List Exchange
  pub has_more : Bool
  pub next_cursor : Option CursorBoundary

-- The index behind the exchange at the cursor.
unfoldable pub cursor_index : List Exchange → CursorBoundary → Option ℕ
unfolding exchange_ordering_time
cursor_index [] cursor = none
cursor_index (e ∷ items) cursor =
    let rest = cursor_index items cursor in
    if str_eq e.id cursor.id && (exchange_ordering_time e == cursor.completed_at)
    then some 1
    else (elim rest [ none ↦ none | some index ↦ some (index + 1) ])

abbrev pub limit_of : Option (Option ℕ) → Option ℕ
limit_of none = some 50
limit_of (some none) = none
limit_of (some (some parsed)) = if ltb parsed 1 || ltb 200 parsed then none else some parsed

abbrev resync_required : Bool → Result (ℕ × String) (Unit {0})
resync_required true = ok tt
resync_required false = err (409, "resync_required")

unfoldable pub check_cursor :
    Option Persisted → List Exchange → CursorBoundary → Result (ℕ × String) (Unit {0})
unfolding cursor_index
check_cursor persisted items cursor =
    if is_some (cursor_index items cursor) then ok tt else (elim persisted [
      | none ↦ resync_required false
      | some database ↦ (elim (database.contains_boundary cursor) [
        | err e ↦ err (500, "storage_read_failed")
        | ok found ↦ resync_required found
      ])
    ])

abbrev pub last_of : List Exchange → Option Exchange
last_of [] = none
last_of (e ∷ []) = some e
last_of (e ∷ f ∷ items) = last_of (f ∷ items)

abbrev pub cursor_after : Bool → List Exchange → Option CursorBoundary
cursor_after false items = none
cursor_after true items = elim (last_of items) [ none ↦ none | some e ↦ some (boundary_of e) ]

unfoldable pub page_of : ℕ → List Exchange → Bool → Page
page_of limit items persistent_more =
    let has_more = persistent_more || ltb limit (length items) in
    let page = if ltb limit (length items) then take limit items else items in
    record { items = page; has_more = has_more; next_cursor = cursor_after has_more page }

unfoldable pub list_page :
    Option Persisted → List Exchange → ℕ → Option CursorBoundary → Result (ℕ × String) Page
unfolding page_of older_than
list_page persisted items limit boundary =
    let older = older_than items boundary in
    (elim persisted [
      | none ↦ ok (page_of limit older false)
      | some database ↦ (elim (database.list_older boundary (limit + length older)) [
        | err e ↦ err (500, "storage_read_failed")
        | ok (stored, more) ↦ ok (page_of limit (merge_exchanges older stored) more)
      ])
    ])

unfoldable pub exchanges : Option Persisted → List Exchange → ListQuery → Result (ℕ × String) Page
unfolding check_cursor list_page
exchanges persisted items query = elim (limit_of query.limit) [
  | none ↦ err (400, "invalid_limit")
  | some limit ↦ (elim query.cursor [
    | none ↦ list_page persisted items limit none
    | some none ↦ err (400, "invalid_cursor")
    | some (some cursor) ↦
        bind (check_cursor persisted items cursor)
          (λ found. list_page persisted items limit (some cursor))
  ])
]
