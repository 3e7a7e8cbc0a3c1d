-- ===== src/Store/Reads.antt =====
-- What can be read from the store after each operation.
use requestinspector_relay.Base.{
  ℕ, String, ◌<◌, ◌⊎◌, str_lt, All-map, ◌≡◌, ◌≢◌, inl, inr, refl, List, [], ◌∷◌, Option, none, some,
  Bool, true, false, if◌then◌else◌, str_eq, eq_iff, length, take, drop, keep, lookup, insert, arith,
  All, In, In-append, IsSorted, IsSorted-cut, sort-IsSorted, In-sort, take-append-drop, leb,
  Bool-cases, subst, sym, sort, lookup-insert, ◌∙◌, ap, All-drop, All-sort, lookup-erase, not, ◌&&◌,
  ◌==◌, ltb, length-sort, Option-cases,
}
use requestinspector_relay.Capture.Model.{Exchange, is_terminal}
use requestinspector_relay.Store.{
  Memory, newer, ordering_time, sort_newest_first, values, completed_items, evict_excess, save, get,
  clear, remove, remove_where, remove_completed_before, list,
}
use requestinspector_relay.Store.Order.{newer-IsWeakOrder, newer_iff-false}
use requestinspector_relay.Store.Entries.{
  has_id, lookup-erase_all, In-values, In-keep, HasOwnKeys, All-keep-true, IsFiled, values-IsFiled,
  All-keep,
}
use requestinspector_relay.Store.Eviction.{
  evict_excess-IsFiled, IsValid, IsWellFormed, insert-IsWellFormed,
}

has_id-In : (e : Exchange) (es : List Exchange) → In e es → has_id es e.id ≡ true
has_id-In e [] h = elim h [ ]
has_id-In e (x ∷ es) (inl q) = ground (arith, eq_iff x.id e.id)
has_id-In e (x ∷ es) (inr h) = ground (arith, has_id-In e es h)

-- Nothing but the evicted exchanges disappears.
pub lookup-evict_excess :
    (m : Memory) (id : String)
    → lookup id (evict_excess m).0.items
      ≡ (if has_id (evict_excess m).1 id then none else lookup id m.items)
unfolding evict_excess
lookup-evict_excess m id = elim (Bool-cases (leb (length (completed_items m)) m.capacity)) [
  | inl fits ↦ rw (fits, evict_excess)
  | inr full ↦ rw (full, evict_excess) (lookup-erase_all _ id m.items)
]

lookup-id :
    (id : String) (e : Exchange) (items : List (String × Exchange))
    → HasOwnKeys items
    → lookup id items ≡ some e
    → e.id ≡ id
unfolding lookup
lookup-id id e [] o h = cc
lookup-id id e ((k, w) ∷ items) o h = ground (arith, eq_iff k id, lookup-id id e items o.1)

-- What stays after an eviction is not older than what goes.
pub evict_excess-oldest :
    (m : Memory) (id : String) (e : Exchange)
    → IsWellFormed m.items
    → lookup id (evict_excess m).0.items ≡ some e
    → is_terminal e.state ≡ true
    → All (λ gone. newer gone e ≡ false) (evict_excess m).1
unfolding evict_excess sort_newest_first completed_items
evict_excess-oldest m id e w h t = elim (Bool-cases (leb (length (completed_items m)) m.capacity)) [
  | inl fits ↦ rw (fits, evict_excess) tt
  | inr full ↦
      rw (full, evict_excess)
        (kept (rw (full, evict_excess, lookup-erase_all gone id m.items) at h))
]
  where
    ranked : List Exchange
    ranked = sort newer (completed_items m)

    gone : List Exchange
    gone = drop m.capacity ranked

    kept :
        (if has_id gone id then none else lookup id m.items) ≡ some e
        → All (λ x. newer x e ≡ false) gone
    kept r =
        let found : lookup id m.items ≡ some e = ground arith in
        let own = lookup-id id e m.items w.own found in
        let listed = In-sort newer e (completed_items m) (
          In-keep (λ x. is_terminal x.state) e (values m.items) t (In-values id e m.items found)) in
        elim (In-append e (take m.capacity ranked) gone
          (subst (In e) (sym (take-append-drop m.capacity ranked)) listed)) [
            | inl early ↦
                IsSorted-cut newer m.capacity e ranked
                  (sort-IsSorted newer newer-IsWeakOrder (completed_items m)) early
            | inr late ↦ absurd (ground (arith, has_id-In e gone late))
          ]

-- A `Get` after a `Save` finds what was saved or what was there, unless it was just evicted.
get-save :
    (m : Memory) (e : Exchange) (id : String)
    → get (save m e).0 id
      ≡ (if has_id (save m e).1 id then none else if str_eq e.id id then some e else get m id)
unfolding get save
get-save m e id =
    lookup-evict_excess (record m { items = insert e.id e m.items }) id
    ∙ ap (λ o. if has_id (save m e).1 id then none else o) (lookup-insert e.id id e m.items)

evict_excess-terminal :
    (m : Memory) → All (λ gone. is_terminal gone.state ≡ true) (evict_excess m).1
unfolding evict_excess sort_newest_first completed_items
evict_excess-terminal m = elim (Bool-cases (leb (length (completed_items m)) m.capacity)) [
  | inl fits ↦ rw (fits, evict_excess) tt
  | inr full ↦
      rw (full, evict_excess)
        (All-drop (λ e. is_terminal e.state ≡ true) m.capacity _
          (All-sort newer (λ e. is_terminal e.state ≡ true) (completed_items m)
            (All-keep-true (λ e. is_terminal e.state) (values m.items))))
]

-- In a valid store, what a `Save` evicts is completed, and not newer than any completed exchange that
-- stays: it completed earlier, or at the same time and its identifier is not the greater one.
pub save-oldest :
    (m : Memory) (e : Exchange) (id : String) (kept : Exchange)
    → IsValid m
    → get (save m e).0 id ≡ some kept
    → is_terminal kept.state ≡ true
    → All (λ gone. is_terminal gone.state ≡ true) (save m e).1
      × All
          (λ gone.
            (ordering_time gone < ordering_time kept)
            ⊎ ((ordering_time gone ≡ ordering_time kept) × (str_lt kept.id gone.id ≡ false)))
          (save m e).1
unfolding save get
save-oldest m e id kept v h t =
    let m' : Memory = record m { items = insert e.id e m.items } in
    (
      evict_excess-terminal m',
      All-map _ _ (λ gone. newer_iff-false gone kept) (save m e).1
          (evict_excess-oldest m' id kept (insert-IsWellFormed e m.items v.formed) h t),
    )

-- A listed identifier whose exchanges all pass a test leads to an exchange that passes it.
has_id-test :
    (test : Exchange → Bool) (id : String) (e : Exchange) (es : List Exchange)
    (items : List (String × Exchange))
    → lookup id items ≡ some e
    → All (IsFiled items) es
    → All (λ x. test x ≡ true) es
    → has_id es id ≡ true
    → test e ≡ true
has_id-test test id e [] items found f t h = cc
has_id-test test id e (x ∷ es) items found f t h = elim (Bool-cases (str_eq x.id id)) [
  | inr q ↦ has_id-test test id e es items found f.1 t.1 (ground arith)
  | inl q ↦
      let same : some e ≡ some x =
        sym found ∙ ap (λ k. lookup k items) (sym ((eq_iff x.id id).0 q)) ∙ f.0 in
      let eq : e ≡ x = cc same in rw eq t.0
]

-- In a valid store, an exchange in flight is not evicted: a `Save` of another leaves it as it was.
pub get-save_active :
    (m : Memory) (e active : Exchange) (id : String)
    → IsValid m
    → get m id ≡ some active
    → is_terminal active.state ≡ false
    → e.id ≢ id
    → get (save m e).0 id ≡ some active
unfolding get save
get-save_active m e active id v found busy other =
    let m' : Memory = record m { items = insert e.id e m.items } in
    let before : lookup id m'.items ≡ some active =
      ground (arith, eq_iff e.id id, lookup-insert e.id id e m.items) in
    elim (Bool-cases (has_id (evict_excess m').1 id)) [
      | inr stays ↦ lookup-evict_excess m' id ∙ ground arith
      | inl goes ↦ absurd (
          ground (
            arith,
            has_id-test (λ x. is_terminal x.state) id active (evict_excess m').1 m'.items before
                (evict_excess-IsFiled m' (insert-IsWellFormed e m.items v.formed))
                (evict_excess-terminal m') goes,
          ))
    ]

-- What a removal by a test leaves of an entry.
unfoldable pub survivor : (Exchange → Bool) → Option Exchange → Option Exchange
survivor test none = none
survivor test (some e) = if test e then none else some e

-- A removal by a test takes the entries that pass it, and no other.
lookup-remove_where :
    (test : Exchange → Bool) (m : Memory) (id : String)
    → IsWellFormed m.items
    → lookup id (remove_where test m).0.items ≡ survivor test (lookup id m.items)
unfolding remove_where survivor
lookup-remove_where test m id w =
    lookup-erase_all removed id m.items ∙ cases (lookup id m.items) refl
  where
    removed : List Exchange
    removed = keep test (values m.items)

    cases :
        (o : Option Exchange)
        → lookup id m.items ≡ o
        → (if has_id removed id then none else o) ≡ survivor test o
    cases none h = ground arith
    cases (some e) h = elim (Bool-cases (test e)) [
      | inl yes' ↦
          let own = lookup-id id e m.items w.own h in
          let listed = In-keep test e (values m.items) yes' (In-values id e m.items h) in
          ground (arith, subst (λ k. has_id removed k ≡ true) own (has_id-In e removed listed))
      | inr no' ↦ ground (
        arith,
        has_id-test test id e removed m.items h
            (All-keep test (IsFiled m.items) (values m.items)
              (values-IsFiled m.items w.distinct w.own))
            (All-keep-true test (values m.items)),
      )
    ]

-- In a valid store, `Clear` removes exactly the completed exchanges: every other entry is as it was.
get-clear :
    (m : Memory) (id : String)
    → IsValid m
    → get (clear m).0 id ≡ survivor (λ e. is_terminal e.state) (get m id)
unfolding get clear
get-clear m id v = lookup-remove_where (λ e. is_terminal e.state) m id v.formed

-- In a valid store, removal by age takes exactly the exchanges that completed before the cutoff.
get-remove_completed_before :
    (m : Memory) (cutoff : ℕ) (id : String)
    → IsValid m
    → get (remove_completed_before m cutoff).0 id
      ≡ survivor
          (λ e. is_terminal e.state && not (e.completed_at == 0) && ltb e.completed_at cutoff)
          (get m id)
unfolding get remove_completed_before
get-remove_completed_before m cutoff id v = lookup-remove_where _ m id v.formed

-- `Remove` takes the one exchange if it is completed; an active one and all others stay.
get-remove :
    (m : Memory) (id k : String)
    → get (remove m id).0 k
      ≡ (if str_eq id k then survivor (λ e. is_terminal e.state) (get m id) else get m k)
unfolding get remove survivor
get-remove m id k = elim (Option-cases (lookup id m.items)) [
  | inl miss ↦ rw (miss, remove) (ground (arith, eq_iff id k))
  | inr (e, hit) ↦ rw (hit, remove) (ground (arith, eq_iff id k, lookup-erase id k m.items))
]

In-list : (m : Memory) (id : String) (e : Exchange) → get m id ≡ some e → In e (list m)
unfolding list sort_newest_first get
In-list m id e h = In-sort newer e (values m.items) (In-values id e m.items h)

-- `List` is sorted, no exchange newer than one before it; it has as many as the store, and each
-- exchange that `Get` finds is among them.
list-IsSorted :
    (m : Memory) (id : String) (e : Exchange)
    → get m id ≡ some e
    → IsSorted newer (list m) × (length (list m) ≡ length (values m.items)) × In e (list m)
unfolding list sort_newest_first
list-IsSorted m id e h = (
  sort-IsSorted newer newer-IsWeakOrder (values m.items),
  length-sort newer (values m.items),
  In-list m id e h,
)
