-- ===== src/Errors.antt =====
-- The errors of the program as values, with errors.Is, errors.As and the tests of
-- pkg/utils/utils.go and pkg/providers/lke/lke.go on them. The texts of messages are left out.
-- The error types of linodego, of Karpenter and of the Kubernetes API machinery appear with what the
-- program asks of them: a status code, a cause that errors.Is and errors.As look into, a kind.
use karpenter_provider_linod.Base.{
  ℕ, Bool, true, false, ◌||◌, Option, none, some, List, [], ◌∷◌, ◌==◌, Text, codes, or_else,
}

-- the package's error variables, and those of the standard library that the program names
pub data Sentinel : Type 0 where
  nodes_provisioning no_claimable_instance claim_failed pool_scale_failed create_timeout : Sentinel
  instance_not_found : Sentinel
  handler_timeout os_deadline context_deadline unexpected_eof context_canceled : Sentinel

pub Sentinel-discrete : Discrete Sentinel
Sentinel-discrete = hlevel

-- the code of a linodego.Error: an HTTP status, or linodego.ErrorFromError
pub data Code : Type 0 where
  http : ℕ → Code
  from_error : Code

-- one entry of linodego.APIError
pub record ApiReason : Type 0 where
  pub field : Text
  pub reason : Text

-- linodego.Error; `reasons` is its response body, `none` if that is absent or cannot be decoded
pub record ApiError : Type 0 where
  pub status : Code
  pub reasons : Option (List ApiReason)

-- the condition reasons that cloudprovider.NewCreateError is given
pub data CreateReason : Type 0 where
  node_pool_tag_validation_failed node_pool_backing_off node_pool_provisioning : CreateReason
  node_pool_creation_failed node_pool_scale_failed instance_creation_failed : CreateReason
  node_class_readiness_unknown instance_type_resolution_failed : CreateReason

-- what the Kubernetes API machinery says of a failed request
pub data KubeReason : Type 0 where
  not_found conflict other : KubeReason

pub data Err : Type 0 where
  -- errors.New, or fmt.Errorf with no %w
  message : Err
  sentinel : Sentinel → Err
  -- fmt.Errorf with one %w, and with two
  wrap : Err → Err
  wrap_both : Err → Err → Err
  -- linodego.Error
  linode : ApiError → Err
  -- a net.Error, with its Timeout()
  net : Bool → Err
  -- poolRequestError
  pool_request : Err → Err
  -- Karpenter's cloudprovider errors
  create_error : CreateReason → Err → Err
  insufficient_capacity : Err → Err
  node_claim_not_found : Err → Err
  node_class_not_ready : Err → Err
  -- apierrors.StatusError
  kube : KubeReason → Err

abbrev is_sentinel : Sentinel → Err → Bool
is_sentinel s (sentinel t) = elim (Sentinel-discrete t s) [ yes _ ↦ true | no _ ↦ false ]
is_sentinel s _ = false

-- errors.Is(err, s)
unfoldable pub errors_is : Sentinel → Err → Bool
unfolding Sentinel-discrete
errors_is s (wrap e) = errors_is s e
errors_is s (wrap_both d e) = errors_is s d || errors_is s e
errors_is s (pool_request e) = errors_is s e
errors_is s (create_error _ e) = errors_is s e
errors_is s (insufficient_capacity e) = errors_is s e
errors_is s (node_claim_not_found e) = errors_is s e
errors_is s (node_class_not_ready e) = errors_is s e
errors_is s e = is_sentinel s e

-- errors.As: the first error in the chain of which `pick` gives a value
unfoldable pub errors_as {ℓ} : {A : Type ℓ} → (Err → Option A) → Err → Option A
errors_as pick (wrap e) = or_else (pick (wrap e)) (errors_as pick e)
errors_as pick (wrap_both d e) =
    or_else (pick (wrap_both d e)) (or_else (errors_as pick d) (errors_as pick e))
errors_as pick (pool_request e) = or_else (pick (pool_request e)) (errors_as pick e)
errors_as pick (create_error r e) = or_else (pick (create_error r e)) (errors_as pick e)
errors_as pick (insufficient_capacity e) =
    or_else (pick (insufficient_capacity e)) (errors_as pick e)
errors_as pick (node_claim_not_found e) = or_else (pick (node_claim_not_found e)) (errors_as pick e)
errors_as pick (node_class_not_ready e) = or_else (pick (node_class_not_ready e)) (errors_as pick e)
errors_as pick e = pick e

abbrev pub as_linode : Err → Option ApiError
as_linode (linode e) = some e
as_linode _ = none

abbrev pub as_net : Err → Option Bool
as_net (net timeout) = some timeout
as_net _ = none

abbrev pub as_pool_request : Err → Option Err
as_pool_request (pool_request e) = some e
as_pool_request _ = none

abbrev pub as_insufficient_capacity : Err → Option Err
as_insufficient_capacity (insufficient_capacity e) = some e
as_insufficient_capacity _ = none

abbrev pub as_node_claim_not_found : Err → Option Err
as_node_claim_not_found (node_claim_not_found e) = some e
as_node_claim_not_found _ = none

abbrev pub as_kube : Err → Option KubeReason
as_kube (kube r) = some r
as_kube _ = none

abbrev pub is_some {ℓ} : {A : Type ℓ} → Option A → Bool
is_some none = false
is_some (some _) = true

-- cloudprovider.IsNodeClaimNotFoundError, cloudprovider.IsInsufficientCapacityError
unfoldable pub is_node_claim_not_found : Err → Bool
unfolding errors_as
is_node_claim_not_found e = is_some (errors_as as_node_claim_not_found e)

unfoldable pub is_insufficient_capacity : Err → Bool
unfolding errors_as
is_insufficient_capacity e = is_some (errors_as as_insufficient_capacity e)

abbrev has_code : Option ApiError → List Code → Bool
has_code none codes = false
has_code (some e) [] = false
has_code (some e) (c ∷ cs) = same_code e.status c || has_code (some e) cs
  where
    same_code : Code → Code → Bool
    same_code from_error from_error = true
    same_code (http n) (http m) = n == m
    same_code _ _ = false

-- linodego.ErrHasStatus(err, codes...)
unfoldable pub err_has_status : Err → List Code → Bool
unfolding errors_as
err_has_status e wanted = has_code (errors_as as_linode e) wanted

-- linodego.IsNotFound
unfoldable pub is_not_found : Err → Bool
unfolding err_has_status
is_not_found e = err_has_status e (http 404 ∷ [])

abbrev retryable_codes : List Code
retryable_codes = http 429 ∷ http 500 ∷ http 502 ∷ http 504 ∷ http 503 ∷ http 408 ∷ from_error ∷ []

timed_out : Option Bool → Bool
timed_out none = false
timed_out (some timeout) = timeout

-- IsRetryableError
unfoldable pub is_retryable_error : Err → Bool
unfolding timed_out errors_as err_has_status errors_is
is_retryable_error e =
    timed_out (errors_as as_net e)
    || err_has_status e retryable_codes
    || errors_is handler_timeout e
    || errors_is os_deadline e
    || errors_is context_deadline e
    || errors_is unexpected_eof e

-- isRetryableCreateError
unfoldable pub is_retryable_create_error : Err → Bool
unfolding errors_is
is_retryable_create_error e =
    errors_is nodes_provisioning e
    || errors_is no_claimable_instance e
    || errors_is claim_failed e
    || errors_is pool_scale_failed e
