-- ===== src/Store/Entries.antt =====
-- The entries of the map: what `erase_all` removes, and which exchanges a list of values holds.
use requestinspector_relay.Base.{
  ◌+◌, String, ◌≡◌, ◌≢◌, inl, inr, refl, List, [], ◌∷◌, none, some, Bool, true, if◌then◌else◌,
  str_eq, eq_iff, length, keep, any, lookup, insert, erase, arith, All, HasDistinctKeys,
  lookup-erase, erase-HasDistinctKeys, erase_absent, In, Separated, Bool-cases, subst, sym,
}
use requestinspector_relay.Capture.Model.{Exchange}
use requestinspector_relay.Store.{values, erase_all}

-- Every entry is filed under its own identifier.
abbrev pub HasOwnKeys : List (String × Exchange) → Type 0
HasOwnKeys [] = Unit
HasOwnKeys ((k, e) ∷ items) = (k ≡ e.id) × HasOwnKeys items

abbrev pub has_id : List Exchange → String → Bool
has_id es id = any (λ e. str_eq e.id id) es

pub lookup-erase_all :
    (es : List Exchange) (k : String) (items : List (String × Exchange))
    → lookup k (erase_all es items) ≡ (if has_id es k then none else lookup k items)
unfolding erase_all
lookup-erase_all [] k items = refl
lookup-erase_all (e ∷ es) k items =
    ground (arith, lookup-erase_all es k (erase e.id items), lookup-erase e.id k items)

pub erase-HasOwnKeys :
    (k : String) (items : List (String × Exchange)) → HasOwnKeys items → HasOwnKeys (erase k items)
unfolding erase
erase-HasOwnKeys k [] h = tt
erase-HasOwnKeys k ((i, w) ∷ m) h = ground (arith, erase-HasOwnKeys k m h.1)

pub insert-HasOwnKeys :
    (e : Exchange) (items : List (String × Exchange))
    → HasOwnKeys items
    → HasOwnKeys (insert e.id e items)
unfolding insert
insert-HasOwnKeys e [] h = (refl, tt)
insert-HasOwnKeys e ((i, w) ∷ m) h = ground (arith, insert-HasOwnKeys e m h.1)

pub erase_all-HasOwnKeys :
    (es : List Exchange) (items : List (String × Exchange))
    → HasOwnKeys items
    → HasOwnKeys (erase_all es items)
unfolding erase_all
erase_all-HasOwnKeys [] items h = h
erase_all-HasOwnKeys (e ∷ es) items h =
    erase_all-HasOwnKeys es (erase e.id items) (erase-HasOwnKeys e.id items h)

pub erase_all-HasDistinctKeys :
    (es : List Exchange) (items : List (String × Exchange))
    → HasDistinctKeys items
    → HasDistinctKeys (erase_all es items)
unfolding erase_all
erase_all-HasDistinctKeys [] items h = h
erase_all-HasDistinctKeys (e ∷ es) items h =
    erase_all-HasDistinctKeys es (erase e.id items) (erase-HasDistinctKeys e.id items h)

-- A found exchange is among the values.
pub In-values :
    (k : String) (e : Exchange) (items : List (String × Exchange))
    → lookup k items ≡ some e
    → In e (values items)
unfolding lookup
In-values k e [] h = cc
In-values k e ((i, w) ∷ m) h = elim (Bool-cases (str_eq i k)) [
  | inl p ↦ inl (ground arith)
  | inr p ↦ inr (In-values k e m (ground arith))
]

module _ (p : Exchange → Bool) where
  pub In-keep : (e : Exchange) (es : List Exchange) → p e ≡ true → In e es → In e (keep p es)
  In-keep e (x ∷ es) h (inl q) = rw (← q, h) (inl refl)
  In-keep e (x ∷ es) h (inr i) = elim (Bool-cases (p x)) [
    | inl q ↦ rw q (inr (In-keep e es h i))
    | inr q ↦ rw q (In-keep e es h i)
  ]
  In-keep e [] h i = elim i [ ]

  pub All-keep-true : (es : List Exchange) → All (λ e. p e ≡ true) (keep p es)
  All-keep-true [] = tt
  All-keep-true (x ∷ es) = elim (Bool-cases (p x)) [
    | inl q ↦ rw q (q, All-keep-true es)
    | inr q ↦ rw q (All-keep-true es)
  ]

  pub All-keep {κ} : (P : Exchange → Type κ) (es : List Exchange) → All P es → All P (keep p es)
  All-keep P [] a = tt
  All-keep P (x ∷ es) a = elim (Bool-cases (p x)) [
    | inl q ↦ rw q (a.0, All-keep P es a.1)
    | inr q ↦ rw q (All-keep P es a.1)
  ]

  pub Separated-keep {κ} :
      (R : Exchange → Exchange → Type κ) (es : List Exchange)
      → Separated R es
      → Separated R (keep p es)
  Separated-keep R [] s = tt
  Separated-keep R (x ∷ es) s = elim (Bool-cases (p x)) [
    | inl q ↦ rw q (All-keep (λ y. R x y × R y x) es s.0, Separated-keep R es s.1)
    | inr q ↦ rw q (Separated-keep R es s.1)
  ]

  -- Erasing an entry that passes the test takes one from the count, and one that is absent none.
  pub length-keep-erase :
      (k : String) (e : Exchange) (items : List (String × Exchange))
      → HasDistinctKeys items
      → lookup k items ≡ some e
      → p e ≡ true
      → length (keep p (values (erase k items))) + 1 ≡ length (keep p (values items))
  unfolding lookup erase
  length-keep-erase k e [] d h q = cc
  length-keep-erase k e ((i, w) ∷ m) d h q =
      ground (arith, eq_iff i k, erase_absent k m, length-keep-erase k e m d.1)

abbrev pub OtherId : Exchange → Exchange → Type 0
OtherId a b = a.id ≢ b.id

All-OtherId :
    (e : Exchange) (items : List (String × Exchange))
    → lookup e.id items ≡ none
    → HasOwnKeys items
    → All (λ b. OtherId e b × OtherId b e) (values items)
unfolding lookup
All-OtherId e [] h o = tt
All-OtherId e ((i, w) ∷ m) h o = (
  (ground (arith, eq_iff i e.id), ground (arith, eq_iff i e.id)),
  All-OtherId e m (ground arith) o.1,
)

-- The values of a map have identifiers of their own.
pub Separated-values :
    (items : List (String × Exchange))
    → HasDistinctKeys items
    → HasOwnKeys items
    → Separated OtherId (values items)
Separated-values [] d o = tt
Separated-values ((i, w) ∷ m) d o =
    (All-OtherId w m (subst (λ k. lookup k m ≡ none) o.0 d.0) o.1, Separated-values m d.1 o.1)

-- Every value is what its identifier leads to.
abbrev pub IsFiled : List (String × Exchange) → Exchange → Type 0
IsFiled items e = lookup e.id items ≡ some e

IsFiled-cons :
    (k : String) (w : Exchange) (m : List (String × Exchange)) (es : List Exchange)
    → All (λ e. k ≢ e.id) es
    → All (IsFiled m) es
    → All (IsFiled ((k, w) ∷ m)) es
unfolding lookup
IsFiled-cons k w m [] n a = tt
IsFiled-cons k w m (e ∷ es) n a = (ground (arith, eq_iff k e.id), IsFiled-cons k w m es n.1 a.1)

All-first {κ} : (P Q : Exchange → Type κ) (es : List Exchange) → All (λ e. P e × Q e) es → All P es
All-first P Q [] a = tt
All-first P Q (e ∷ es) a = (a.0.0, All-first P Q es a.1)

pub values-IsFiled :
    (items : List (String × Exchange))
    → HasDistinctKeys items
    → HasOwnKeys items
    → All (IsFiled items) (values items)
unfolding lookup
values-IsFiled [] d o = tt
values-IsFiled ((i, w) ∷ m) d o =
    let s = Separated-values ((i, w) ∷ m) d o in
    let others = All-first (OtherId w) (λ b. OtherId b w) (values m) s.0 in
    (
      ground (arith, eq_iff i w.id),
      IsFiled-cons i w m (values m) (subst (λ k. All (λ e. k ≢ e.id) (values m)) (sym o.0) others)
          (values-IsFiled m d.1 o.1),
    )

-- Erasing listed exchanges with identifiers of their own takes their number from the count.
pub length-keep-erase_all :
    (p : Exchange → Bool) (es : List Exchange) (items : List (String × Exchange))
    → HasDistinctKeys items
    → All (IsFiled items) es
    → All (λ e. p e ≡ true) es
    → Separated OtherId es
    → length (keep p (values (erase_all es items))) + length es ≡ length (keep p (values items))
unfolding erase_all
length-keep-erase_all p [] items d f t s = omega arith
length-keep-erase_all p (e ∷ es) items d f t s = omega (
  arith,
  length-keep-erase_all p es (erase e.id items) (erase-HasDistinctKeys e.id items d)
      (still es s.0 f.1) t.1 s.1,
  length-keep-erase p e.id e items d f.0 t.0,
)
  where
    still :
        (xs : List Exchange)
        → All (λ b. OtherId e b × OtherId b e) xs
        → All (IsFiled items) xs
        → All (IsFiled (erase e.id items)) xs
    still [] n a = tt
    still (x ∷ xs) n a =
        (ground (arith, eq_iff e.id x.id, lookup-erase e.id x.id items), still xs n.1 a.1)
