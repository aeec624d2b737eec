-- ===== src/Controllers/State.antt =====
-- What the controllers use of the cluster and of the instance provider, and the runs on it.
use karpenter_provider_linod.Base.{
  Bool, true, false, Option, none, some, List, [], ◌∷◌, ◌==◌, if◌then◌else◌, drop, Text, codes,
  Dict, or_else, has_prefix,
}
use karpenter_provider_linod.Errors.{errors_as, as_kube, KubeReason, Err, not_found, wrap}
use karpenter_provider_linod.Objects.{NodeClaim, NodeClass, Instance}
use karpenter_provider_linod.Lke.State.{Result, ok, err}

-- The Kubernetes client, the instance provider of the mode, and the JSON encoding of a list of texts.
-- What others do meanwhile is in the answers.
pub record Kube : Type 1 where
  pub World : Type 0
  -- nodeProvider.Get(ctx, id, SkipCache), CreateTags and UpdateTags
  pub get_instance : Text → World → Result Instance × World
  pub create_tags : Text → Dict Text → World → Result (Unit {0}) × World
  pub update_tags : Text → List Text → World → Result (Unit {0}) × World
  -- kubeClient.Get of a node class, kubeClient.Patch of a node claim
  pub get_node_class : Text → World → Result NodeClass × World
  pub patch_node_claim : NodeClaim → World → Result (Unit {0}) × World
  pub encode : List Text → Text
  pub decode : Text → Option (List Text)
  -- lo.OmitByKeys(m, lo.Keys(existing)) of github.com/samber/lo
  pub omit_by_keys : Dict Text → Dict Text → Dict Text
  -- options.FromContext(ctx).ClusterName
  pub cluster_name : Text

abbrev pub Run : Type 0 → Type 0 → Type 0
Run W A = W → Result A × W

abbrev pub and_then : {W : Type 0} {A B : Type 0} → Result A → (A → Run W B) → Run W B
and_then (ok a) f w = f a w
and_then (err x) f w = (err x, w)

infixl 10 ◌>>=◌ ◌>>◌
abbrev pub ◌>>=◌ : {W : Type 0} {A B : Type 0} → Run W A → (A → Run W B) → Run W B
◌>>=◌ m f w = and_then (m w).0 f (m w).1

abbrev pub ◌>>◌ : {W : Type 0} {A B : Type 0} → Run W A → Run W B → Run W B
◌>>◌ m n w = and_then (m w).0 (λ _. n) (m w).1

abbrev pub ret : {W : Type 0} {A : Type 0} → A → Run W A
ret a w = (ok a, w)

abbrev pub throw : {W : Type 0} {A : Type 0} → Err → Run W A
throw x w = (err x, w)

abbrev pub map_err : {A : Type 0} → (Err → Err) → Result A → Result A
map_err f (ok a) = ok a
map_err f (err x) = err (f x)

-- fmt.Errorf("…, %w", err)
abbrev pub wrapping : {W : Type 0} {A : Type 0} → Run W A → Run W A
wrapping m w = (map_err wrap (m w).0, (m w).1)

-- `a` in place of the errors that the test accepts
abbrev except : {A : Type 0} → (Err → Bool) → A → Result A → Result A
except test a (ok b) = ok b
except test a (err x) = if test x then ok a else err x

abbrev pub ignoring : {W : Type 0} {A : Type 0} → (Err → Bool) → A → Run W A → Run W A
ignoring test a m w = (except test a (m w).0, (m w).1)

abbrev kube_missing : Option KubeReason → Bool
kube_missing (some not_found) = true
kube_missing _ = false

-- apierrors.IsNotFound
unfoldable pub is_kube_not_found : Err → Bool
unfolding errors_as
is_kube_not_found x = kube_missing (errors_as as_kube x)

-- the text after the last "://" of a line
unfoldable pub after_scheme : Text → Option Text
unfolding has_prefix
after_scheme [] = none
after_scheme (c ∷ cs) =
    let later = after_scheme cs in
    or_else later (if has_prefix (c ∷ cs) (codes "://") then some (drop 3 (c ∷ cs)) else none)

-- the first line, and the rest of the text after its end
unfoldable pub lines_of : Text → List Text
lines_of [] = [] ∷ []
lines_of (c ∷ cs) =
    let rest = lines_of cs in
    if c == 10 then [] ∷ rest else elim rest [ [] ↦ (c ∷ []) ∷ [] | l ∷ ls ↦ (c ∷ l) ∷ ls ]

unfoldable pub first_id : List Text → Option Text
unfolding after_scheme
first_id [] = none
first_id (l ∷ ls) = let rest = first_id ls in or_else (after_scheme l) rest

-- ParseInstanceID of pkg/utils/utils.go: `.` matches no line end, and the first `.*` is greedy
unfoldable pub parse_instance_id : Text → Option Text
unfolding first_id lines_of
parse_instance_id provider_id = first_id (lines_of provider_id)
