-- ===== src/Store/Order.antt =====
-- `newer` is a strict weak order, so the lists of the store are sorted.
use requestinspector_relay.Base.{
  ◌≡◌, ◌<◌, ◌⊎◌, false, arith, str_lt_trans, str_eq_of_not-lt, str_lt_asymm, IsWeakOrder, str_lt,
  String, Bool-cases, inl, inr,
}
use requestinspector_relay.Capture.Model.{Exchange}
use requestinspector_relay.Store.{newer, ordering_time}

-- What `newer` compares: the time, then the identifier.
pub newer_iff-false :
    (a b : Exchange)
    → newer a b ≡ false
    → (ordering_time a < ordering_time b)
      ⊎ ((ordering_time a ≡ ordering_time b) × (str_lt b.id a.id ≡ false))
unfolding newer
newer_iff-false a b h = ground arith

false→newer :
    (a b : Exchange)
    → (ordering_time a < ordering_time b)
      ⊎ ((ordering_time a ≡ ordering_time b) × (str_lt b.id a.id ≡ false))
    → newer a b ≡ false
unfolding newer
false→newer a b h = ground arith

str_not-lt_trans : (s t u : String) → str_lt s t ≡ false → str_lt t u ≡ false → str_lt s u ≡ false
str_not-lt_trans s t u h k = elim (Bool-cases (str_lt s u)) [
  | inr e ↦ e
  | inl e ↦ ground (arith, str_eq_of_not-lt s t h, str_lt_trans t s u, Bool-cases (str_lt t s))
]

pub newer-IsWeakOrder : IsWeakOrder newer
unfolding newer
newer-IsWeakOrder = record {
  asymm = λ a b h. ground (arith, str_lt_asymm b.id a.id);
  trans = λ a b c h k. false→newer c a (
      ground
        (arith, newer_iff-false b a h, newer_iff-false c b k, str_not-lt_trans a.id b.id c.id));
}
