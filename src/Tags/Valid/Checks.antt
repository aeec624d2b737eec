-- ===== src/Tags/Valid/Checks.antt =====
-- When the checks of tags pass.
use karpenter_provider_linod.Base.{
  ℕ, ◌≢◌, some, ◌++◌, codes, text_eq, text_eq_iff, Option-cases, sym, ◌∙◌, subst, ◌≤◌, ◌≡◌, refl,
  ◌↔◌, false, none, List, [], ◌∷◌, length, All, Text, inl, inr, arith, ltb, Bool-cases, contains,
  sort, text_eq_refl, contains-sort, index_rune,
}
use karpenter_provider_linod.Tags.{split_tag}
use karpenter_provider_linod.Tags.Split.{split_tag_parts, split_tag-join_tag, has_equals}
use karpenter_provider_linod.Tags.Claim.{max_linode_tag_length}
use karpenter_provider_linod.Tags.Valid.{
  restricted_tag_keys, is_restricted, invalid_tags, validate_tags, too_long, validate_tag_lengths,
  error_of,
}

error_of-nil : (ts : List Text) → error_of ts ≡ none ↔ ts ≡ []
error_of-nil [] = (λ _. refl, λ _. refl)
error_of-nil (t ∷ ts) = (λ h. absurd (ground arith), λ h. absurd (ground arith))

sort-nil : (ts : List Text) → sort ts ≡ [] ↔ ts ≡ []
sort-nil [] = (λ _. refl, λ _. unfold sort in refl)
sort-nil (t ∷ ts) = (
  λ h. absurd (unfold contains in ground (arith, contains-sort t (t ∷ ts), text_eq_refl t, h)),
  λ h. absurd (ground arith),
)

too_long-nil :
    (tags : List Text) → too_long tags ≡ [] ↔ All (λ t. length t ≤ max_linode_tag_length) tags
unfolding too_long
too_long-nil [] = (λ _. tt, λ _. refl)
too_long-nil (tag ∷ tags) =
    let (f, g) = too_long-nil tags in
    elim (Bool-cases (ltb max_linode_tag_length (length tag))) [
      | inl long ↦ (λ h. absurd (ground arith), λ (a, b). absurd (ground arith))
      | inr short ↦ (λ h. (ground arith, f (rw short at h)), λ (a, b). rw short (g b))
    ]

-- ValidateTagLengths accepts tags iff none is longer than 50 bytes.
pub validate_tag_lengths_lem :
    (tags : List Text)
    → validate_tag_lengths tags ≡ none ↔ All (λ t. length t ≤ max_linode_tag_length) tags
unfolding validate_tag_lengths
validate_tag_lengths_lem tags =
    let (a, a') = error_of-nil (sort (too_long tags)) in
    let (b, b') = sort-nil (too_long tags) in
    let (c, c') = too_long-nil tags in (λ h. c (b (a h)), λ h. a' (b' (c' h)))

-- the tag has no key among the restricted ones
abbrev Allowed : Text → Type 0
Allowed tag = is_restricted restricted_tag_keys (split_tag tag) ≡ false

invalid_tags-nil :
    (tags : List Text) → invalid_tags restricted_tag_keys [] tags ≡ [] ↔ All Allowed tags
unfolding invalid_tags contains
invalid_tags-nil [] = (λ _. tt, λ _. refl)
invalid_tags-nil (tag ∷ tags) =
    let (f, g) = invalid_tags-nil tags in
    elim (Bool-cases (is_restricted restricted_tag_keys (split_tag tag))) [
      | inl taken ↦ (λ h. absurd (ground arith), λ (a, b). absurd (ground arith))
      | inr free ↦ (λ h. (free, f (rw free at h)), λ (a, b). rw free (g b))
    ]

-- the keys that are reserved for Karpenter and for the cluster
abbrev pub reserved_keys : List Text
reserved_keys =
    codes "karpenter.sh/nodepool"
    ∷ codes "karpenter.k8s.linode/linodenodeclass"
    ∷ codes "karpenter.k8s.linode/lke-managed"
    ∷ codes "karpenter.sh/nodeclaim"
    ∷ codes "lke-cluster-name"
    ∷ codes "Name"
    ∷ []

-- the tag is none of the keys followed by `=` and a value
abbrev pub NotUnder : List Text → Text → Type 0
NotUnder keys tag = All (λ key. (value : Text) → value ≢ [] → tag ≢ key ++ b'=' ∷ value) keys

-- keys that are not empty and have no `=`
abbrev Plain : List Text → Type 0
Plain keys = All (λ key. (has_equals key ≡ false) × (key ≢ [])) keys

reserved_keys-Plain : Plain reserved_keys
unfolding index_rune
reserved_keys-Plain =
    let nonempty : (a : ℕ) (k : Text) → a ∷ k ≢ [] = λ a k h. ground (arith, h) in
    (
      (refl, nonempty _ _),
      (
        (refl, nonempty _ _),
        (
          (refl, nonempty _ _),
          ((refl, nonempty _ _), ((refl, nonempty _ _), ((refl, nonempty _ _), tt))),
        ),
      ),
    )

key_of_split :
    (tag k v key value : Text)
    → split_tag tag ≡ some (k, v)
    → split_tag tag ≡ some (key, value)
    → k ≡ key
key_of_split tag k v key value h h' = ground (arith, sym h ∙ h')

-- the key that the tag splits into
under_split :
    (keys : List Text) (tag k v : Text)
    → split_tag tag ≡ some (k, v)
    → Plain keys
    → contains k keys ≡ false ↔ NotUnder keys tag
unfolding contains
under_split [] tag k v h plain = (λ _. tt, λ _. refl)
under_split (key ∷ keys) tag k v h ((no_equals, nonempty), plain) =
    let (f, g) = under_split keys tag k v h plain in
    let (whole, _, _, given) = split_tag_parts tag k v h in
    elim (Bool-cases (text_eq key k)) [
      | inl same ↦
          let eq = (text_eq_iff key k).0 same in
          (
            λ out. absurd (ground (arith, same, out)),
            λ (clear, rest). absurd (clear v given (rw eq whole)),
          )
      | inr elsewhere ↦ (
        λ out. (
          λ value set joined. absurd (
              ground (
                arith,
                elsewhere,
                text_eq_refl k,
                key_of_split tag k v key value h (
                    subst (λ t. split_tag t ≡ some (key, value)) (sym joined)
                      (split_tag-join_tag key value no_equals nonempty set)),
              )),
          f (rw elsewhere at out),
        ),
        λ (clear, rest). rw elsewhere (g rest),
      )
    ]

-- a tag that does not split is under no key
no_split : (keys : List Text) (tag : Text) → split_tag tag ≡ none → Plain keys → NotUnder keys tag
no_split [] tag h plain = tt
no_split (key ∷ keys) tag h ((no_equals, nonempty), plain) = (
  λ value set joined. absurd (
      ground (
        arith,
        sym h
            ∙ subst (λ t. split_tag t ≡ some (key, value)) (sym joined)
                (split_tag-join_tag key value no_equals nonempty set),
      )),
  no_split keys tag h plain,
)

Allowed-NotUnder : (tag : Text) → Allowed tag ↔ NotUnder reserved_keys tag
unfolding is_restricted
Allowed-NotUnder tag = elim (Option-cases (split_tag tag)) [
  | inl whole ↦ rw whole (λ _. no_split reserved_keys tag whole reserved_keys-Plain, λ _. refl)
  | inr ((k, v), split) ↦ rw split (under_split reserved_keys tag k v split reserved_keys-Plain)
]

All-Allowed-NotUnder : (tags : List Text) → All Allowed tags ↔ All (NotUnder reserved_keys) tags
All-Allowed-NotUnder [] = (λ _. tt, λ _. tt)
All-Allowed-NotUnder (tag ∷ tags) =
    let (f, g) = Allowed-NotUnder tag in
    let (fs, gs) = All-Allowed-NotUnder tags in
    (λ (a, rest). (f a, fs rest), λ (a, rest). (g a, gs rest))

-- ValidateTags accepts tags iff none of them is one of the six reserved keys (of the node pool, the node
-- class, the LKE mark, the node claim, the cluster name and the name), an `=` and a nonempty value.
pub validate_tags_lem :
    (tags : List Text) → validate_tags tags ≡ none ↔ All (NotUnder reserved_keys) tags
unfolding validate_tags
validate_tags_lem tags =
    let (a, a') = error_of-nil (invalid_tags restricted_tag_keys [] tags) in
    let (c, c') = invalid_tags-nil tags in
    let (d, d') = All-Allowed-NotUnder tags in (λ h. d (c (a h)), λ h. a' (c' (d' h)))
