-- ===== src/Offerings/Evictions.antt =====
-- The eviction of a marked offering.
use karpenter_provider_linod.Base.{
  ◌≡◌, refl, ap, none, some, [], ◌∷◌, ◌++◌, arith, Text, index_rune,
}
use karpenter_provider_linod.Offerings.{
  bump, offering_key, split_key, type_of_key, on_offering_evicted, UnavailableOfferings,
}

split_key-plain : (r : Text) → index_rune r b':' ≡ none → split_key r ≡ r ∷ []
unfolding split_key index_rune
split_key-plain [] h = refl
split_key-plain (c ∷ r) h = ground (arith, split_key-plain r)

split_key-offering_key :
    (t r : Text)
    → index_rune t b':' ≡ none
    → index_rune r b':' ≡ none
    → split_key (t ++ b':' ∷ r) ≡ t ∷ r ∷ []
unfolding split_key index_rune
split_key-offering_key [] r h k = ap (λ l. [] ∷ l) (split_key-plain r k)
split_key-offering_key (c ∷ t) r h k = ground (arith, split_key-offering_key t r)

-- If neither the instance type nor the region has a colon in its name, the callback for the key of
-- that offering does not panic, and counts for that type.
pub on_offering_evicted-offering_key :
    {C : Type 0} (u : UnavailableOfferings C) (type region : Text)
    → index_rune type b':' ≡ none
    → index_rune region b':' ≡ none
    → on_offering_evicted u (offering_key type region)
      ≡ some (record u { offering_seq_num = bump type u.offering_seq_num })
unfolding on_offering_evicted offering_key
on_offering_evicted-offering_key u type region h k =
    ap
      (λ l. elim (type_of_key l) [
        | none ↦ none
        | some t ↦ some (record u { offering_seq_num = bump t u.offering_seq_num })
      ])
      (split_key-offering_key type region h k)
