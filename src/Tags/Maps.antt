-- ===== src/Tags/Maps.antt =====
-- Tag lists as maps and back: which tags a map lists, and what a list of tags looks up.
use karpenter_provider_linod.Base.{
  ◌≡◌, refl, ap, ◌≢◌, inl, inr, Bool, true, false, ◌&&◌, Option, none, some, List, [], ◌∷◌, arith,
  Bool-cases, Option-cases, All, Text, text_eq, text_eq_iff, contains, Dict, lookup, insert, assign,
  nodup_keys, insert-nodup_keys, sym, ◌||◌, ◌++◌, append-nil, ◌∙◌, subst, append_assoc,
  text_eq_refl, lookup-insert,
}
use karpenter_provider_linod.Tags.{
  split_tag, join_tag, insert_split, add_tags, tag_list_to_map, map_to_tag_list, opaque_tags,
}
use karpenter_provider_linod.Tags.Split.{has_equals, split_tag-join_tag, split_tag_parts}

-- A key and a value that a tag can carry.
pub record IsTagPair (kv : Text × Text) : Type 0 where
  pub key_plain : has_equals kv.0 ≡ false
  pub key_given : kv.0 ≢ []
  pub value_given : kv.1 ≢ []

-- The entries of a map that came from tags: pairs that a tag can carry, no key twice.
pub record IsTagMap (m : Dict Text) : Type 0 where
  pub pairs : All IsTagPair m
  pub keys : nodup_keys m ≡ true

pub split_tag-join : (kv : Text × Text) → IsTagPair kv → split_tag (join_tag kv) ≡ some kv
split_tag-join (k, v) p = split_tag-join_tag k v p.key_plain p.key_given p.value_given

pub split-IsTagPair : (t : Text) (kv : Text × Text) → split_tag t ≡ some kv → IsTagPair kv
split-IsTagPair t (k, v) h =
    let (_, plain, kg, vg) = split_tag_parts t k v h in
    record { key_plain = plain; key_given = kg; value_given = vg }

insert-pairs :
    (k v : Text) (m : Dict Text) → IsTagPair (k, v) → All IsTagPair m → All IsTagPair (insert k v m)
unfolding insert
insert-pairs k v [] p h = (p, tt)
insert-pairs k v ((j, w) ∷ m) p (q, h) = elim (Bool-cases (text_eq j k)) [
  | inl same ↦ rw same (p, h)
  | inr other ↦ rw other (q, insert-pairs k v m p h)
]

insert_split-IsTagMap :
    (t : Text) (m : Dict Text) → IsTagMap m → IsTagMap (insert_split (split_tag t) m)
unfolding insert_split
insert_split-IsTagMap t m h = elim (Option-cases (split_tag t)) [
  | inl e ↦ rw e h
  | inr ((k, v), e) ↦ rw e (record {
    pairs = insert-pairs k v m (split-IsTagPair t (k, v) e) h.pairs;
    keys = insert-nodup_keys k v m h.keys;
  })
]

add_tags-IsTagMap : (m : Dict Text) (tags : List Text) → IsTagMap m → IsTagMap (add_tags m tags)
unfolding add_tags
add_tags-IsTagMap m [] h = h
add_tags-IsTagMap m (t ∷ tags) h =
    add_tags-IsTagMap (insert_split (split_tag t) m) tags (insert_split-IsTagMap t m h)

pub tag_list_to_map-IsTagMap : (tags : List Text) → IsTagMap (tag_list_to_map tags)
unfolding tag_list_to_map
tag_list_to_map-IsTagMap tags =
    add_tags-IsTagMap [] tags (record { pairs = tt; keys = unfold nodup_keys in refl })

pub assign-IsTagMap : (m n : Dict Text) → IsTagMap m → IsTagMap n → IsTagMap (assign m n)
unfolding assign
assign-IsTagMap m [] h k = h
assign-IsTagMap m ((j, w) ∷ n) h k =
    assign-IsTagMap (insert j w m) n
      (record {
        pairs = insert-pairs j w m (k.pairs).0 h.pairs;
        keys = insert-nodup_keys j w m h.keys;
      })
      (record { pairs = (k.pairs).1; keys = nodup_keys_tail j w n k.keys })
  where
    nodup_keys_tail :
        (j w : Text) (n : Dict Text) → nodup_keys ((j, w) ∷ n) ≡ true → nodup_keys n ≡ true
    nodup_keys_tail j w n e = unfold nodup_keys in ground arith

-- the map has this pair
abbrev pub has_pair : Dict Text → Option (Text × Text) → Bool
has_pair m none = false
has_pair m (some (k, v)) = elim (lookup k m) [ none ↦ false | some w ↦ text_eq w v ]

has_pair-nil : (o : Option (Text × Text)) → has_pair [] o ≡ false
unfolding lookup
has_pair-nil none = refl
has_pair-nil (some kv) = refl

keys_tail :
    (k v : Text) (m : Dict Text)
    → nodup_keys ((k, v) ∷ m) ≡ true
    → (nodup_keys m ≡ true) × (lookup k m ≡ none)
unfolding nodup_keys
keys_tail k v m e = ground arith

has_pair_cons :
    (t k v : Text) (m : Dict Text)
    → IsTagPair (k, v)
    → lookup k m ≡ none
    → has_pair ((k, v) ∷ m) (split_tag t)
      ≡ (text_eq (join_tag (k, v)) t || has_pair m (split_tag t))
unfolding lookup
has_pair_cons t k v m p fresh = elim (Option-cases (split_tag t)) [
  | inl e ↦ ground (arith, text_eq_iff (join_tag (k, v)) t, split_tag-join (k, v) p, ap split_tag)
  | inr ((j, w), e) ↦
      let (whole, _, _, _) = split_tag_parts t j w e in
      rw e (
        ground (
          arith,
          whole,
          text_eq_iff (join_tag (k, v)) t,
          split_tag-join (k, v) p,
          text_eq_iff k j,
          text_eq_iff v w,
          ap split_tag,
        ))
]

-- A tag map lists the tags whose two parts it holds, and no other.
pub contains-map_to_tag_list :
    (t : Text) (m : Dict Text)
    → IsTagMap m
    → contains t (map_to_tag_list m) ≡ has_pair m (split_tag t)
unfolding contains map_to_tag_list
contains-map_to_tag_list t [] h = sym (has_pair-nil (split_tag t))
contains-map_to_tag_list t ((k, v) ∷ m) h =
    let (rest, fresh) = keys_tail k v m h.keys in
    let ih = contains-map_to_tag_list t m (record { pairs = (h.pairs).1; keys = rest }) in
    rw ih (sym (has_pair_cons t k v m (h.pairs).0 fresh))

insert_fresh : (k v : Text) (m : Dict Text) → lookup k m ≡ none → insert k v m ≡ m ++ (k, v) ∷ []
unfolding insert lookup
insert_fresh k v [] h = refl
insert_fresh k v ((j, w) ∷ m) h = ground (arith, insert_fresh k v m)

-- no key of the second map is in the first
Fresh : Dict Text → Dict Text → Type 0
Fresh m n = (k : Text) → lookup k n ≢ none → lookup k m ≡ none

Fresh-head : (k v : Text) (m n : Dict Text) → Fresh m ((k, v) ∷ n) → lookup k m ≡ none
unfolding Fresh lookup
Fresh-head k v m n f = f k (λ e. ground (arith, text_eq_refl k))

Fresh-insert :
    (k v : Text) (m n : Dict Text)
    → lookup k n ≡ none
    → Fresh m ((k, v) ∷ n)
    → Fresh (insert k v m) n
unfolding Fresh lookup
Fresh-insert k v m n new f j there = elim (Bool-cases (text_eq k j)) [
  | inl same ↦ absurd (there (subst (λ i. lookup i n ≡ none) ((text_eq_iff k j).0 same) new))
  | inr other ↦ rw (lookup-insert, other) (f j (rw other there))
]

add_tags-map_to_tag_list :
    (m n : Dict Text) → IsTagMap n → Fresh m n → add_tags m (map_to_tag_list n) ≡ m ++ n
unfolding add_tags map_to_tag_list insert_split Fresh
add_tags-map_to_tag_list m [] h f = sym (append-nil m)
add_tags-map_to_tag_list m ((k, v) ∷ n) h f =
    let (rest, new) = keys_tail k v n h.keys in
    let ih =
      add_tags-map_to_tag_list (insert k v m) n (record { pairs = (h.pairs).1; keys = rest })
        (Fresh-insert k v m n new f) in
    rw (split_tag-join (k, v) (h.pairs).0, add_tags)
      (ih
        ∙ ap (λ (l : Dict Text). l ++ n) (insert_fresh k v m (Fresh-head k v m n f))
        ∙ append_assoc m ((k, v) ∷ []) n)

-- A map without repeated keys, whose pairs a tag can carry, comes back from its tag list.
pub tag_list_to_map-map_to_tag_list :
    (m : Dict Text) → IsTagMap m → tag_list_to_map (map_to_tag_list m) ≡ m
unfolding tag_list_to_map map_to_tag_list
tag_list_to_map-map_to_tag_list m h =
    add_tags-map_to_tag_list [] m h (unfold Fresh lookup in λ k there. refl)

-- The opaque tags are the tags that do not split, in their order.
pub contains-opaque_tags :
    (t : Text) (tags : List Text)
    → contains t (opaque_tags tags)
      ≡ (contains t tags && elim (split_tag t) [ none ↦ true | some _ ↦ false ])
unfolding contains opaque_tags
contains-opaque_tags t [] = refl
contains-opaque_tags t (tag ∷ tags) =
    ground (arith, text_eq_iff tag t, ap split_tag, contains-opaque_tags t tags)
