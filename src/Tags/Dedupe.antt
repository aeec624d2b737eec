-- ===== src/Tags/Dedupe.antt =====
-- DedupeTags keeps every non-empty tag once.
use karpenter_provider_linod.Base.{
  ◌≡◌, refl, true, false, not, ◌&&◌, List, [], ◌∷◌, arith, Text, text_eq, text_eq_iff, text_eq_refl,
  contains, nodup, ap, ◌∙◌,
}
use karpenter_provider_linod.Tags.{dedupe_from, dedupe_tags}

contains-dedupe_from :
    (t : Text) (seen tags : List Text)
    → contains t (dedupe_from seen tags)
      ≡ (not (text_eq t []) && not (contains t seen) && contains t tags)
unfolding dedupe_from contains
contains-dedupe_from t seen [] = ground arith
contains-dedupe_from t seen (tag ∷ tags) = ground (
  arith,
  contains-dedupe_from t seen tags,
  contains-dedupe_from t (tag ∷ seen) tags,
  text_eq_iff tag t,
  text_eq_iff t [],
  text_eq_iff tag [],
)

dedupe_from-nodup : (seen tags : List Text) → nodup (dedupe_from seen tags) ≡ true
unfolding dedupe_from nodup
dedupe_from-nodup seen [] = refl
dedupe_from-nodup seen (tag ∷ tags) = ground (
  arith,
  dedupe_from-nodup seen tags,
  dedupe_from-nodup (tag ∷ seen) tags,
  contains-dedupe_from tag (tag ∷ seen) tags,
  text_eq_refl tag,
  contains,
)

pub contains-dedupe_tags :
    (t : Text) (tags : List Text)
    → contains t (dedupe_tags tags) ≡ (not (text_eq t []) && contains t tags)
unfolding dedupe_tags contains
contains-dedupe_tags t tags = ground (arith, contains-dedupe_from t [] tags)

pub dedupe_tags-nodup : (tags : List Text) → nodup (dedupe_tags tags) ≡ true
unfolding dedupe_tags
dedupe_tags-nodup tags = dedupe_from-nodup [] tags

dedupe_from_fixed :
    (seen tags : List Text)
    → nodup tags ≡ true
    → contains [] tags ≡ false
    → ((t : Text) → contains t tags ≡ true → contains t seen ≡ false)
    → dedupe_from seen tags ≡ tags
unfolding dedupe_from nodup contains
dedupe_from_fixed seen [] n e fresh = refl
dedupe_from_fixed seen (tag ∷ tags) n e fresh =
    let rest =
      dedupe_from_fixed (tag ∷ seen) tags (ground arith) (ground arith)
        λ t h. ground (arith, fresh t, text_eq_iff tag t) in
    ground (arith, fresh tag, text_eq_refl tag, text_eq_iff tag [])

dedupe_tags_idem : (tags : List Text) → dedupe_tags (dedupe_tags tags) ≡ dedupe_tags tags
dedupe_tags_idem tags =
    let no_empty =
      contains-dedupe_tags [] tags ∙ ap (λ b. not b && contains [] tags) (text_eq_refl []) in
    let fixed =
      dedupe_from_fixed [] (dedupe_tags tags) (dedupe_tags-nodup tags) no_empty
        (unfold contains in λ t h. refl) in
    unfold dedupe_tags in fixed

-- DedupeTags returns no tag twice; its members are the tags given that are not empty; and on its own
-- result it changes nothing, the order included.
pub dedupe_tags_lem :
    (t : Text) (tags : List Text)
    → (nodup (dedupe_tags tags) ≡ true)
      × (contains t (dedupe_tags tags) ≡ (not (text_eq t []) && contains t tags))
      × (dedupe_tags (dedupe_tags tags) ≡ dedupe_tags tags)
dedupe_tags_lem t tags =
    (dedupe_tags-nodup tags, contains-dedupe_tags t tags, dedupe_tags_idem tags)
