-- ===== src/Base/Sorting.antt =====
-- slices.Sort on texts, and lists that are known by their members alone.
use mathlib.Core.Path.{◌≡◌, refl, ap₂}
use mathlib.Core.Bool.{Bool, true, false, ◌&&◌, ◌||◌, not}
use mathlib.Core.List.{List, [], ◌∷◌}
use native.Mathlib.Omega.{arith}
use karpenter_provider_linod.Base.Tests.{if◌then◌else◌}
use karpenter_provider_linod.Base.Bytes.{
  Text, text_eq, text_eq_iff, text_eq_refl, text_le, text_le_total, text_le_antisym, text_le_trans,
  contains,
}

unfoldable pub insert_sorted : Text → List Text → List Text
insert_sorted t [] = t ∷ []
insert_sorted t (x ∷ xs) = if text_le t x then t ∷ x ∷ xs else x ∷ insert_sorted t xs

unfoldable pub sort : List Text → List Text
unfolding insert_sorted
sort [] = []
sort (t ∷ ts) = insert_sorted t (sort ts)

-- `t` is at most every member
unfoldable pub at_most_all : Text → List Text → Bool
at_most_all t [] = true
at_most_all t (x ∷ xs) = text_le t x && at_most_all t xs

unfoldable pub is_sorted : List Text → Bool
unfolding at_most_all
is_sorted [] = true
is_sorted (x ∷ xs) = at_most_all x xs && is_sorted xs

unfoldable pub nodup : List Text → Bool
nodup [] = true
nodup (x ∷ xs) = not (contains x xs) && nodup xs

pub contains-insert_sorted :
    (a t : Text) (xs : List Text) → contains a (insert_sorted t xs) ≡ (text_eq t a || contains a xs)
unfolding contains insert_sorted
contains-insert_sorted a t [] = refl
contains-insert_sorted a t (x ∷ xs) = ground (arith, contains-insert_sorted a t xs)

pub contains-sort : (a : Text) (ts : List Text) → contains a (sort ts) ≡ contains a ts
unfolding sort contains
contains-sort a [] = refl
contains-sort a (t ∷ ts) = ground (arith, contains-insert_sorted a t (sort ts), contains-sort a ts)

at_most_all_trans :
    (s t : Text) (xs : List Text)
    → text_le s t ≡ true
    → at_most_all t xs ≡ true
    → at_most_all s xs ≡ true
unfolding at_most_all
at_most_all_trans s t [] h k = refl
at_most_all_trans s t (x ∷ xs) h k = ground (arith, text_le_trans s t x, at_most_all_trans s t xs)

at_most_all-insert_sorted :
    (s t : Text) (xs : List Text)
    → text_le s t ≡ true
    → at_most_all s xs ≡ true
    → at_most_all s (insert_sorted t xs) ≡ true
unfolding at_most_all insert_sorted
at_most_all-insert_sorted s t [] h k = ground arith
at_most_all-insert_sorted s t (x ∷ xs) h k = ground (arith, at_most_all-insert_sorted s t xs)

insert_sorted-is_sorted :
    (t : Text) (xs : List Text) → is_sorted xs ≡ true → is_sorted (insert_sorted t xs) ≡ true
unfolding is_sorted insert_sorted
insert_sorted-is_sorted t [] h = refl
insert_sorted-is_sorted t (x ∷ xs) h = ground (
  arith,
  at_most_all_trans t x xs,
  text_le_total t x,
  at_most_all-insert_sorted x t xs,
  insert_sorted-is_sorted t xs,
)

pub sort-is_sorted : (ts : List Text) → is_sorted (sort ts) ≡ true
unfolding sort
sort-is_sorted [] = unfold is_sorted in refl
sort-is_sorted (t ∷ ts) = insert_sorted-is_sorted t (sort ts) (sort-is_sorted ts)

insert_sorted-nodup :
    (t : Text) (xs : List Text)
    → contains t xs ≡ false
    → nodup xs ≡ true
    → nodup (insert_sorted t xs) ≡ true
unfolding nodup contains insert_sorted
insert_sorted-nodup t [] h k = refl
insert_sorted-nodup t (x ∷ xs) h k = ground (
  arith,
  insert_sorted-nodup t xs,
  contains-insert_sorted x t xs,
  text_eq_iff t x,
  text_eq_iff x t,
)

pub sort-nodup : (ts : List Text) → nodup ts ≡ true → nodup (sort ts) ≡ true
unfolding nodup sort
sort-nodup [] h = refl
sort-nodup (t ∷ ts) h =
    ground (arith, insert_sorted-nodup t (sort ts), contains-sort t ts, sort-nodup ts)

at_most_all-contains :
    (t a : Text) (xs : List Text)
    → at_most_all t xs ≡ true
    → contains a xs ≡ true
    → text_le t a ≡ true
unfolding at_most_all contains
at_most_all-contains t a [] h k = ground arith
at_most_all-contains t a (x ∷ xs) h k = ground (arith, text_eq_iff x a, at_most_all-contains t a xs)

-- The two lists have the same members.
abbrev pub SameMembers : List Text → List Text → Type 0
SameMembers xs ys = (t : Text) → contains t xs ≡ contains t ys

heads_equal :
    (a b : Text) (xs ys : List Text)
    → is_sorted (a ∷ xs) ≡ true
    → is_sorted (b ∷ ys) ≡ true
    → SameMembers (a ∷ xs) (b ∷ ys)
    → a ≡ b
unfolding is_sorted contains
heads_equal a b xs ys sx sy h = ground (
  arith,
  h a,
  h b,
  text_eq_refl a,
  text_eq_refl b,
  text_eq_iff a b,
  text_eq_iff b a,
  at_most_all-contains a b xs,
  at_most_all-contains b a ys,
  text_le_antisym a b,
)

tails_same :
    (a b : Text) (xs ys : List Text)
    → a ≡ b
    → nodup (a ∷ xs) ≡ true
    → nodup (b ∷ ys) ≡ true
    → SameMembers (a ∷ xs) (b ∷ ys)
    → SameMembers xs ys
unfolding nodup contains
tails_same a b xs ys e nx ny h t = ground (arith, h t, text_eq_iff a t, text_eq_iff b t)

-- Sorted lists without repetition are equal when they have the same members.
pub sorted_unique :
    (xs ys : List Text)
    → is_sorted xs ≡ true
    → is_sorted ys ≡ true
    → nodup xs ≡ true
    → nodup ys ≡ true
    → SameMembers xs ys
    → xs ≡ ys
unfolding is_sorted nodup
sorted_unique [] [] sx sy nx ny h = refl
sorted_unique [] (b ∷ ys) sx sy nx ny h = unfold contains in ground (arith, h b, text_eq_refl b)
sorted_unique (a ∷ xs) [] sx sy nx ny h = unfold contains in ground (arith, h a, text_eq_refl a)
sorted_unique (a ∷ xs) (b ∷ ys) sx sy nx ny h =
    let e = heads_equal a b xs ys sx sy h in
    ap₂ ◌∷◌ e (
      sorted_unique xs ys (ground arith) (ground arith) (ground arith) (ground arith)
        (tails_same a b xs ys e nx ny h))
