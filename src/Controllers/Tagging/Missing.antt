-- ===== src/Controllers/Tagging/Missing.antt =====
-- Which tags the tagging controller creates.
use karpenter_provider_linod.Base.{
  ◌≡◌, Bool, true, false, none, [], ◌∷◌, if◌then◌else◌, Text, Dict, lookup,
}
use karpenter_provider_linod.Errors.{is_some}

-- What OmitByKeys is relied on for: it returns the map without the keys of the other one.
abbrev pub OmitLaw : (Dict Text → Dict Text → Dict Text) → Type 0
OmitLaw omit =
    (j : Text) (m existing : Dict Text)
    → lookup j (omit m existing) ≡ (if is_some (lookup j existing) then none else lookup j m)

abbrev pub is_empty : Dict Text → Bool
is_empty [] = true
is_empty (kv ∷ m) = false
