-- ===== src/Client/Policies.antt =====
-- internal/persistence/cphttp/client.go and routes.go: the client that asks cafe-persistence whether persisted
-- policies refer to a scan or a wallet. The reply of the service to a request is a parameter, with none
-- where the transport or the reading of the body fails; so are the decoders of the two bodies.
pub mod Confirmed
use cafe_discovery.Base.{
  ℕ, Bool, true, false, not, ◌||◌, Option, none, some, List, [], ◌∷◌, ◌==◌, is_nil, trim, Text,
  codes, if◌then◌else◌, Result, ok, err, guard, ◌>>=◌, ◌>>◌, ℤ,
}
use cafe_discovery.Results.{take}
use cafe_discovery.Client.{Reply, tenant_value}

pub record Config : Type 0 where
  pub base_url : Text
  pub token : Text

pub record PolicyClient : Type 0 where
  pub base_url : Text
  pub token : Text

-- strings.TrimRight(s, "/")
abbrev pub without_slashes : Text → Text
without_slashes [] = []
without_slashes (c ∷ s) = elim (without_slashes s) [
  | [] ↦ if c == b'/' then [] else c ∷ []
  | d ∷ r ↦ c ∷ d ∷ r
]

-- NewClient
unfoldable pub new_policy_client : Config → PolicyClient
new_policy_client cfg = record {
  base_url = without_slashes (trim cfg.base_url);
  token = trim cfg.token;
}

-- The routes of internal/cp/v1 with their parameter; a scan's text is lower case already.
pub data PolicyRoute : Type 0 where
  reference_scan : ℕ → PolicyRoute
  reference_wallet : Text → PolicyRoute

pub record PolicyRequest : Type 0 where
  pub base_url : Text
  pub route : PolicyRoute
  pub token : Text
  pub user : ℕ
  pub tenant : Option Text

-- policyref.WalletTargetContext
pub record WalletTargetContext : Type 0 where
  pub exists_policy : Bool
  pub policy_count : ℤ
  pub draft_count : ℤ

pub data PolicyError : Type 0 where
  not_configured transport_failed invalid_response : PolicyError
  unexpected_status : ℕ → PolicyError

-- The bytes that are read of a body.
abbrev pub body_limit : ℕ
body_limit = 65_536

-- doJSONOnce, from the reply on.
unfoldable pub read_policy_reply :
    {A : Type 0} → (Text → Option A) → Option Reply → Result PolicyError A
read_policy_reply decode none = err transport_failed
read_policy_reply decode (some r) =
    guard (r.status == 200) (unexpected_status r.status)
    >> elim (decode (take body_limit r.body)) [ none ↦ err invalid_response | some a ↦ ok a ]

module _ (send : PolicyRequest → Option Reply) where
  -- The check of the configuration, the request's headers, and doJSON.
  unfoldable pub ask :
      {A : Type 0}
      → (Text → Option A)
      → PolicyClient
      → PolicyRoute
      → ℕ
      → Text
      → Result PolicyError A
  ask decode c route user tenant =
      guard (not (is_nil c.base_url || is_nil c.token)) not_configured
      >> read_policy_reply decode (
          send (record {
            base_url = c.base_url;
            route = route;
            token = c.token;
            user = user;
            tenant = tenant_value tenant;
          }))

  -- PersistedPoliciesReferenceScan
  unfoldable pub persisted_policies_reference_scan :
      (Text → Option Bool) → PolicyClient → ℕ → Text → ℕ → Result PolicyError Bool
  persisted_policies_reference_scan decode c user tenant scan =
      ask decode c (reference_scan scan) user tenant

  -- ActiveWalletCPMContextForTarget
  unfoldable pub active_wallet_cpm_context_for_target :
      (Text → Option WalletTargetContext)
      → PolicyClient
      → ℕ
      → Text
      → Text
      → Result PolicyError WalletTargetContext
  active_wallet_cpm_context_for_target decode c user tenant address =
      ask decode c (reference_wallet (trim address)) user tenant
