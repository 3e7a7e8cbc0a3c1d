-- ===== src/Httpapi/Pages/Walk.antt =====
-- A reader that follows the cursors of the pages sees the whole history.
use requestinspector_relay.Base.{
  ℕ, zero, suc, ◌+◌, ◌≤◌, ◌<◌, ◌≡◌, ◌≢◌, refl, sym, ap, ◌∙◌, subst, List, [], ◌∷◌, ◌++◌, ◌||◌,
  append_assoc, Option, none, some, is_some, true, false, ltb, eq_iff, length, take, drop,
  take-append-drop, length-drop, ok, err, arith, IsSorted, Separated, All, Bool-cases, inl, inr,
}
use requestinspector_relay.Capture.Model.{Exchange}
use requestinspector_relay.Store.Entries.{OtherId}
use requestinspector_relay.Httpapi.Listing.{
  CursorBoundary, boundary_of, older_than, listed_before, older_than-boundary_of,
}
use requestinspector_relay.Httpapi.Pages.{
  ListQuery, cursor_index, check_cursor, last_of, page_of, list_page, exchanges,
}

abbrev asked : ℕ → Option CursorBoundary → ListQuery
asked limit none = record { limit = some (some limit); cursor = none }
asked limit (some c) = record { limit = some (some limit); cursor = some (some c) }

abbrev joined : List Exchange → Option (List Exchange) → Option (List Exchange)
joined page none = none
joined page (some rest) = some (page ++ rest)

-- The pages from a cursor on, in no more requests than the fuel, up to the one without a next cursor;
-- `none` where a request is refused, or more would be needed.
unfoldable pub walk : ℕ → ℕ → List Exchange → Option CursorBoundary → Option (List Exchange)
walk zero limit items cursor = none
walk (suc fuel) limit items cursor = elim (exchanges none items (asked limit cursor)) [
  | err e ↦ none
  | ok page ↦ (elim page.next_cursor [
    | none ↦ some page.items
    | some c ↦ joined page.items (walk fuel limit items (some c))
  ])
]

found_lem :
    (front back : List Exchange) (last : Exchange)
    → is_some (cursor_index (front ++ last ∷ back) (boundary_of last)) ≡ true
unfolding cursor_index
found_lem [] back last = ground (arith, (eq_iff last.id last.id).1 refl)
found_lem (e ∷ front) back last = ground (arith, found_lem front back last)

-- The last exchange of a page of more than none, and what follows it.
last_of-take :
    (n : ℕ) (items : List Exchange)
    → suc n ≤ length items
    → (front : List Exchange) × (last : Exchange) × (items ≡ front ++ last ∷ drop (suc n) items)
      × (last_of (take (suc n) items) ≡ some last)
last_of-take n [] h = absurd (omega (arith, h))
last_of-take zero (e ∷ items) h = ([], e, refl, refl)
last_of-take (suc n) (e ∷ []) h = absurd (omega (arith, h))
last_of-take (suc n) (e ∷ f ∷ items) h =
    let (front, last, same, is_last) = last_of-take n (f ∷ items) (omega (arith, h)) in
    (e ∷ front, last, ap (◌∷◌ e) same, is_last)

Separated-others :
    (front back : List Exchange) (last : Exchange)
    → Separated OtherId (front ++ last ∷ back)
    → All (λ e. e.id ≢ last.id) back
Separated-others [] back last s = seconds back s.0
  where
    seconds :
        (es : List Exchange)
        → All (λ e. OtherId last e × OtherId e last) es
        → All (λ e. e.id ≢ last.id) es
    seconds [] a = tt
    seconds (e ∷ es) a = (a.0.1, seconds es a.1)
Separated-others (e ∷ front) back last s = Separated-others front back last s.1

last_of_page :
    (n : ℕ) (items : List Exchange)
    → 1 ≤ n
    → n ≤ length items
    → (front : List Exchange) × (last : Exchange) × (items ≡ front ++ last ∷ drop n items)
      × (last_of (take n items) ≡ some last)
last_of_page zero items low h = absurd (omega (arith, low))
last_of_page (suc n) items low h = last_of-take n items h

module _ (limit : ℕ) (items : List Exchange) (low : 1 ≤ limit) (high : limit ≤ 200)
    (sorted : IsSorted listed_before items) (distinct : Separated OtherId items) where
  first_page : exchanges none items (asked limit none) ≡ ok (page_of limit items false)
  unfolding exchanges list_page older_than
  first_page = ground arith

  next_page :
      (front back : List Exchange) (last : Exchange)
      → items ≡ front ++ last ∷ back
      → exchanges none items (asked limit (some (boundary_of last))) ≡ ok (page_of limit back false)
  unfolding exchanges list_page check_cursor
  next_page front back last e =
      let found : is_some (cursor_index items (boundary_of last)) ≡ true =
        subst (λ es. is_some (cursor_index es (boundary_of last)) ≡ true) (sym e)
          (found_lem front back last) in
      let older : older_than items (some (boundary_of last)) ≡ back =
        subst (λ es. older_than es (some (boundary_of last)) ≡ back) (sym e)
          (older_than-boundary_of front back last (subst (IsSorted listed_before) e sorted)
            (Separated-others front back last (subst (Separated OtherId) e distinct))) in
      let within : ltb limit 1 || ltb 200 limit ≡ false = ground (arith, low, high) in
      rw (within, exchanges) (rw (found, check_cursor) (rw (older, list_page) refl))

  walk_from :
      (fuel : ℕ) (cursor : Option CursorBoundary) (front back : List Exchange)
      → items ≡ front ++ back
      → exchanges none items (asked limit cursor) ≡ ok (page_of limit back false)
      → length back < fuel
      → walk fuel limit items cursor ≡ some back
  unfolding walk page_of
  walk_from zero cursor front back e answer enough = absurd (omega (arith, enough))
  walk_from (suc fuel) cursor front back e answer enough =
      elim (Bool-cases (ltb limit (length back))) [
        | inr all ↦ rw (answer, walk) (rw (all, walk) (rw (all, page_of) refl))
        | inl more ↦
            let (first, last, same, is_last) = last_of_page limit back low (ground (arith, more)) in
            let rest = drop limit back in
            let whole : items ≡ (front ++ first) ++ last ∷ rest =
              e ∙ ap (λ es. front ++ es) same ∙ sym (append_assoc front first (last ∷ rest)) in
            let later =
              walk_from fuel (some (boundary_of last)) ((front ++ first) ++ last ∷ []) rest
                (whole ∙ sym (append_assoc (front ++ first) (last ∷ []) rest))
                (next_page (front ++ first) rest last whole)
                (ground (arith, length-drop limit back, low, more, enough)) in
            rw (answer, walk)
              (rw (more, walk)
                (rw (is_last, walk)
                  (rw later (rw (more, page_of) (ap some (take-append-drop limit back))))))
      ]

  -- Of a history that is kept in memory only, without a database, paging ends, and misses nothing: while
  -- the history does not change, a reader who starts without a cursor and follows the next cursors, with a limit from 1 to 200, is never refused and sees, in no
  -- more requests than there are exchanges and one, every exchange once and in the order of the list.
  -- The list is sorted as the history is, and its identifiers differ.
  pub walk_complete : walk (length items + 1) limit items none ≡ some items
  walk_complete = walk_from (length items + 1) none [] items refl first_page (omega arith)
