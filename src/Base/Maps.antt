-- ===== src/Base/Maps.antt =====
-- Go maps with string keys as association lists. Go leaves the order of iteration open; here it is
-- the order of the entries, and the theorems speak of lookups, of membership or of sorted lists.
use mathlib.Core.Path.{◌≡◌, refl}
use mathlib.Core.Bool.{Bool, true, false}
use mathlib.Core.Option.{Option, none, some}
use mathlib.Core.List.{List, [], ◌∷◌}
use native.Mathlib.Omega.{arith}
use karpenter_provider_linod.Base.Tests.{if◌then◌else◌}
use karpenter_provider_linod.Base.Bytes.{Text, text_eq, text_eq_iff}

abbrev pub Dict {ℓ} : Type ℓ → Type ℓ
Dict V = List (Text × V)

module _ {ℓ} {V : Type ℓ} where
  -- v, ok := m[k]
  unfoldable pub lookup : Text → Dict V → Option V
  lookup k [] = none
  lookup k ((j, v) ∷ m) = if text_eq j k then some v else lookup k m

  -- m[k] = v
  unfoldable pub insert : Text → V → Dict V → Dict V
  insert k v [] = (k, v) ∷ []
  insert k v ((j, w) ∷ m) = if text_eq j k then (k, v) ∷ m else (j, w) ∷ insert k v m

  -- delete(m, k)
  unfoldable pub delete : Text → Dict V → Dict V
  delete k [] = []
  delete k ((j, v) ∷ m) = let rest = delete k m in if text_eq j k then rest else (j, v) ∷ rest

  -- lo.Assign(m, n): the entries of `n` win
  unfoldable pub assign : Dict V → Dict V → Dict V
  assign m [] = m
  assign m ((k, v) ∷ n) = assign (insert k v m) n

abbrev pub or_else {ℓ} : {A : Type ℓ} → Option A → Option A → Option A
or_else (some a) o = some a
or_else none o = o

-- No key occurs twice.
unfoldable pub nodup_keys {ℓ} : {V : Type ℓ} → Dict V → Bool
unfolding lookup
nodup_keys [] = true
nodup_keys ((k, v) ∷ m) = elim (lookup k m) [ none ↦ nodup_keys m | some _ ↦ false ]

module _ {ℓ} {V : Type ℓ} where
  pub lookup-insert :
      (j k : Text) (v : V) (m : Dict V)
      → lookup j (insert k v m) ≡ (if text_eq k j then some v else lookup j m)
  unfolding lookup insert
  lookup-insert j k v [] = refl
  lookup-insert j k v ((i, w) ∷ m) =
      ground (arith, text_eq_iff k j, text_eq_iff i k, text_eq_iff i j, lookup-insert j k v m)

  pub lookup-delete :
      (j k : Text) (m : Dict V) → lookup j (delete k m) ≡ (if text_eq k j then none else lookup j m)
  unfolding lookup delete
  lookup-delete j k [] = ground arith
  lookup-delete j k ((i, w) ∷ m) =
      ground (arith, text_eq_iff k j, text_eq_iff i k, text_eq_iff i j, lookup-delete j k m)

  pub insert-nodup_keys :
      (k : Text) (v : V) (m : Dict V) → nodup_keys m ≡ true → nodup_keys (insert k v m) ≡ true
  unfolding nodup_keys insert
  insert-nodup_keys k v [] h = refl
  insert-nodup_keys k v ((i, w) ∷ m) h =
      ground
        (arith, text_eq_iff i k, text_eq_iff k i, lookup-insert i k v m, insert-nodup_keys k v m)

  pub delete-nodup_keys :
      (k : Text) (m : Dict V) → nodup_keys m ≡ true → nodup_keys (delete k m) ≡ true
  unfolding nodup_keys delete
  delete-nodup_keys k [] h = refl
  delete-nodup_keys k ((i, w) ∷ m) h = ground (arith, lookup-delete i k m, delete-nodup_keys k m)

  -- On the right the later entries of a key are hidden, so its keys must differ.
  pub lookup-assign :
      (j : Text) (m n : Dict V)
      → nodup_keys n ≡ true
      → lookup j (assign m n) ≡ or_else (lookup j n) (lookup j m)
  unfolding lookup assign nodup_keys
  lookup-assign j m [] h = refl
  lookup-assign j m ((k, v) ∷ n) h =
      ground (arith, text_eq_iff k j, lookup-assign j (insert k v m) n, lookup-insert j k v m)

  pub assign-nodup_keys : (m n : Dict V) → nodup_keys m ≡ true → nodup_keys (assign m n) ≡ true
  unfolding assign
  assign-nodup_keys m [] h = h
  assign-nodup_keys m ((k, v) ∷ n) h =
      assign-nodup_keys (insert k v m) n (insert-nodup_keys k v m h)
