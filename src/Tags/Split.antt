-- ===== src/Tags/Split.antt =====
-- What a tag splits into, and that joining and splitting undo one another.
use karpenter_provider_linod.Tags.{split_tag, join_tag, cut_at}
use karpenter_provider_linod.Base.{
  ℕ, zero, suc, ◌<◌, ◌≡◌, refl, ◌≢◌, Bool, true, false, none, some, [], ◌∷◌, ◌++◌, arith, length,
  take, drop, Text, index_rune, ◌+◌, inl, inr, Option-cases, length-append, take-append, sym, ap,
  ◌∙◌, length-drop, ◌↔◌,
}

-- no byte of the text is `=`
abbrev pub has_equals : Text → Bool
has_equals s = elim (index_rune s b'=') [ none ↦ false | some _ ↦ true ]

index_rune-append :
    (k v : Text) → has_equals k ≡ false → index_rune (k ++ b'=' ∷ v) b'=' ≡ some (length k)
unfolding index_rune
index_rune-append [] v h = refl
index_rune-append (a ∷ k) v h = ground (arith, index_rune-append k v)

index_rune-cut :
    (s : Text) (i : ℕ)
    → index_rune s b'=' ≡ some i
    → (s ≡ take i s ++ b'=' ∷ drop (suc i) s)
      × (has_equals (take i s) ≡ false)
      × (i < length s)
      × (length (take i s) ≡ i)
unfolding index_rune
index_rune-cut [] i h = cc
index_rune-cut (a ∷ s) zero h = ground (arith, index_rune-cut s 0)
index_rune-cut (a ∷ s) (suc i) h = ground (arith, index_rune-cut s i)

drop_past : (k v : Text) → drop (length k + 1) (k ++ b'=' ∷ v) ≡ v
drop_past [] v = refl
drop_past (a ∷ k) v = ground (arith, drop_past k v)

-- A key with no `=` in it and a value, neither empty, are what their joined tag splits into.
pub split_tag-join_tag :
    (k v : Text)
    → has_equals k ≡ false
    → k ≢ []
    → v ≢ []
    → split_tag (join_tag (k, v)) ≡ some (k, v)
unfolding split_tag
split_tag-join_tag [] v h hk hv = absurd (hk refl)
split_tag-join_tag (a ∷ k) [] h hk hv = absurd (hv refl)
split_tag-join_tag (a ∷ k) (b ∷ v) h hk hv = rw (index_rune-append (a ∷ k) (b ∷ v) h) (
    ground (
      arith,
      length-append (a ∷ k) (b'=' ∷ b ∷ v),
      take-append (a ∷ k) (b'=' ∷ b ∷ v),
      drop_past (a ∷ k) (b ∷ v),
    ))

cut_at_parts :
    (t k v : Text) (i : ℕ)
    → cut_at t (some i) ≡ some (k, v)
    → (k ≡ take i t) × (v ≡ drop (suc i) t) × (i ≢ 0) × (suc i ≢ length t)
unfolding cut_at
cut_at_parts t k v i h = ground arith

-- A tag that splits is its two parts joined, and the parts are a key and a value as above.
pub split_tag_parts :
    (t k v : Text)
    → split_tag t ≡ some (k, v)
    → (t ≡ join_tag (k, v)) × (has_equals k ≡ false) × (k ≢ []) × (v ≢ [])
unfolding split_tag
split_tag_parts t k v h = elim (Option-cases (index_rune t b'=')) [
  | inl absent ↦ ground arith
  | inr (i, found) ↦
      let (whole, key_ok, within, key_length) = index_rune-cut t i found in
      let (ek, ev, positive, below) = cut_at_parts t k v i (rw found at h) in
      rw (ek, ev)
        (
          whole,
          key_ok,
          (λ e. positive (sym key_length ∙ ap length e)),
          λ e. below (ground (arith, length-drop (suc i) t, ap length e)),
        )
]

-- A tag splits into a key and a value exactly when it is the two joined by `=`, neither is empty, and
-- the key has no `=` of its own.
pub split_tag_iff :
    (t k v : Text)
    → split_tag t ≡ some (k, v)
      ↔ (t ≡ join_tag (k, v)) × (has_equals k ≡ false) × (k ≢ []) × (v ≢ [])
split_tag_iff t k v =
    (split_tag_parts t k v, λ (whole, plain, kg, vg). rw whole (split_tag-join_tag k v plain kg vg))
