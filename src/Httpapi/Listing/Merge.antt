-- ===== src/Httpapi/Listing/Merge.antt =====
-- The merged history of `mergeExchanges` in internal/httpapi/exchanges.go.
use requestinspector_relay.Base.{
  ◌<◌, ◌≡◌, ◌≢◌, ◌⊎◌, refl, ap, ◌∙◌, String, List, [], ◌∷◌, ◌++◌, Option, none, some, true, false,
  if◌then◌else◌, str_eq, str_lt, eq_iff, any, All, All-map, All-sort, sort, insert_sorted, IsSorted,
  Separated, Separated-sort, sort-IsSorted, arith, Bool-cases, inl, inr, subst,
}
use requestinspector_relay.Capture.Model.{Exchange}
use requestinspector_relay.Httpapi.Listing.{
  exchange_ordering_time, unseen, listed_before, merge_exchanges, listed_before-IsWeakOrder,
  unseen-Separated, is_seen,
}

-- No exchange is later than one before it: it completed earlier, or at the same time with no greater
-- identifier.
abbrev pub NewestFirst : List Exchange → Type 0
NewestFirst [] = Unit
NewestFirst (e ∷ es) =
    All
      (λ x.
        (exchange_ordering_time x < exchange_ordering_time e)
        ⊎ ((exchange_ordering_time x ≡ exchange_ordering_time e) × (str_lt e.id x.id ≡ false)))
      es
    × NewestFirst es

-- The first exchange with an identifier.
abbrev pub first_with : String → List Exchange → Option Exchange
first_with id [] = none
first_with id (e ∷ es) = let rest = first_with id es in if str_eq e.id id then some e else rest

not-listed_before :
    (x e : Exchange)
    → listed_before x e ≡ false
    → (exchange_ordering_time x < exchange_ordering_time e)
      ⊎ ((exchange_ordering_time x ≡ exchange_ordering_time e) × (str_lt e.id x.id ≡ false))
unfolding listed_before
not-listed_before x e h = ground arith

IsSorted-NewestFirst : (es : List Exchange) → IsSorted listed_before es → NewestFirst es
IsSorted-NewestFirst [] s = tt
IsSorted-NewestFirst (e ∷ es) s =
    (All-map _ _ (λ x. not-listed_before x e) es s.0, IsSorted-NewestFirst es s.1)

first_with-insert_sorted :
    (id : String) (e : Exchange) (es : List Exchange)
    → All (λ x. (e.id ≢ x.id) × (x.id ≢ e.id)) es
    → first_with id (insert_sorted listed_before e es) ≡ first_with id (e ∷ es)
unfolding insert_sorted
first_with-insert_sorted id e [] h = refl
first_with-insert_sorted id e (x ∷ es) h = elim (Bool-cases (listed_before x e)) [
  | inr here ↦ rw here refl
  | inl later ↦
      rw later (
        ground (arith, first_with-insert_sorted id e es h.1, eq_iff x.id id, eq_iff e.id id, h.0.0))
]

-- Among distinct identifiers, sorting changes no lookup.
first_with-sort :
    (id : String) (es : List Exchange)
    → Separated (λ x y. x.id ≢ y.id) es
    → first_with id (sort listed_before es) ≡ first_with id es
unfolding sort
first_with-sort id [] h = refl
first_with-sort id (e ∷ es) h =
    first_with-insert_sorted id e (sort listed_before es)
      (All-sort listed_before (λ x. (e.id ≢ x.id) × (x.id ≢ e.id)) es h.0)
    ∙ ap (λ rest. if str_eq e.id id then some e else rest) (first_with-sort id es h.1)

any-seen :
    (seen : List String) (a b : String)
    → any (λ id. str_eq id a) seen ≡ true
    → any (λ id. str_eq id b) seen ≡ false
    → str_eq a b ≡ false
any-seen seen a b h k = elim (Bool-cases (str_eq a b)) [
  | inr other ↦ other
  | inl same ↦ cc (subst (λ x. any (λ id. str_eq id x) seen ≡ true) ((eq_iff a b).0 same) h, k)
]

-- What is not seen yet is found as before.
first_with-unseen :
    (id : String) (es : List Exchange) (seen : List String)
    → any (λ s. str_eq s id) seen ≡ false
    → first_with id (unseen seen es) ≡ first_with id es
unfolding unseen
first_with-unseen id [] seen h = refl
first_with-unseen id (e ∷ es) seen h = elim (Bool-cases (is_seen seen e)) [
  | inl old ↦ rw old (first_with-unseen id es seen h ∙ ground (arith, any-seen seen e.id id old h))
  | inr new ↦ rw new (elim (Bool-cases (str_eq e.id id)) [
    | inl own ↦ rw own refl
    | inr other ↦ rw other (first_with-unseen id es (e.id ∷ seen) (ground (arith, other, h)))
  ])
]

-- The merged history lists the newest first, by the time that an exchange completed, or started
-- where it has not, and at one time by the identifier; it lists no identifier twice; and it has for
-- each identifier what the memory has, or else what the database has, and nothing where neither has
-- it.
pub merge_exchanges-NewestFirst :
    (memory persisted : List Exchange) (id : String)
    → NewestFirst (merge_exchanges memory persisted)
      × Separated (λ x y. x.id ≢ y.id) (merge_exchanges memory persisted)
      × (first_with id (merge_exchanges memory persisted) ≡ first_with id (memory ++ persisted))
unfolding merge_exchanges
merge_exchanges-NewestFirst memory persisted id =
    let distinct = unseen-Separated [] (memory ++ persisted) in
    (
      IsSorted-NewestFirst _
          (sort-IsSorted listed_before listed_before-IsWeakOrder (unseen [] (memory ++ persisted))),
      Separated-sort listed_before (λ x y. x.id ≢ y.id) (unseen [] (memory ++ persisted)) distinct,
      first_with-sort id (unseen [] (memory ++ persisted)) distinct
          ∙ first_with-unseen id (memory ++ persisted) [] refl,
    )
