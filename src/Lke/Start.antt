-- ===== src/Lke/Start.antt =====
-- The configuration of the LKE provider and the state in which it begins.
use karpenter_provider_linod.Base.{ℕ, ◌*◌, false, [], ◌==◌, if◌then◌else◌, Text, ℤ}
use karpenter_provider_linod.Objects.{Tier}
use karpenter_provider_linod.Backoff.{new_backoff_tracker}
use karpenter_provider_linod.Offerings.{UnavailableOfferings}
use karpenter_provider_linod.Lke.State.{Env, Provider, State}

-- ProviderConfig; a field left out is 0
pub record ProviderConfig : Type 0 where
  pub create_deadline : ℕ
  pub tag_verification_timeout : ℕ
  pub retry_delay : ℕ
  pub backoff_base : ℕ
  pub backoff_max : ℕ

abbrev seconds : ℕ → ℕ
seconds n = n * 1000000000

-- DefaultCreateDeadline, DefaultTagVerificationTimeout, DefaultRetryDelay, DefaultBackoffBase and
-- DefaultBackoffMax
abbrev pub default_config : ProviderConfig
default_config = record {
  create_deadline = seconds 10;
  tag_verification_timeout = seconds 4;
  retry_delay = seconds 2;
  backoff_base = seconds 10;
  backoff_max = seconds 300;
}

abbrev given_or : ℕ → ℕ → ℕ
given_or given default = if given == 0 then default else given

-- the configuration that NewDefaultProvider keeps
unfoldable pub with_defaults : ProviderConfig → ProviderConfig
with_defaults c = record {
  create_deadline = given_or c.create_deadline default_config.create_deadline;
  tag_verification_timeout =
      given_or c.tag_verification_timeout default_config.tag_verification_timeout;
  retry_delay = given_or c.retry_delay default_config.retry_delay;
  backoff_base = given_or c.backoff_base default_config.backoff_base;
  backoff_max = given_or c.backoff_max default_config.backoff_max;
}

-- NewDefaultProvider: the provider, and the state in which it begins
unfoldable pub new_default_provider : ℤ → Tier → Text → ProviderConfig → Provider
unfolding with_defaults
new_default_provider cluster_id cluster_tier region config =
    let c = with_defaults config in
    record {
      cluster_id = cluster_id;
      cluster_tier = cluster_tier;
      region = region;
      create_deadline = c.create_deadline;
      tag_verification_timeout = c.tag_verification_timeout;
      retry_delay = c.retry_delay;
    }

unfoldable pub initial_state :
    (e : Env)
    → e.World
    → e.NodeCache
    → e.BackoffCache
    → UnavailableOfferings e.OfferingCache
    → ProviderConfig
    → State e
unfolding with_defaults new_backoff_tracker
initial_state e world node_cache empty offerings config =
    let c = with_defaults config in
    record {
      world = world;
      events = [];
      node_cache = node_cache;
      delete_backoff = new_backoff_tracker empty c.backoff_base c.backoff_max;
      pool_backoff = new_backoff_tracker empty c.backoff_base c.backoff_max;
      unavailable_offerings = offerings;
      created_pool = false;
      scaled_once = false;
    }
