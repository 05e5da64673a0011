-- ===== src/Bandwidth/Types.antt =====
-- x/bandwidth/types: states, overrides, parameters, and the state of the module's store.
use wevibe_chain.Common.{
  ℕ, Option, none, List, [], ◌++◌, ◌∷◌, Text, codes, is_empty, if◌then◌else◌, Result, ok, err,
  Error,
}
use wevibe_chain.Common.Decimal.{format_uint}
use wevibe_chain.Common.Dict.{Dict}

pub record BandwidthState : Type 0 where
  pub org_id : Text
  pub epoch : ℕ
  pub memory_used : ℕ
  pub memory_cap : ℕ
  pub serve_used : ℕ
  pub serve_cap : ℕ

unfoldable pub new_bandwidth_state : Text → ℕ → ℕ → ℕ → BandwidthState
new_bandwidth_state org epoch memory_cap serve_cap = record {
  org_id = org;
  epoch = epoch;
  memory_used = 0;
  memory_cap = memory_cap;
  serve_used = 0;
  serve_cap = serve_cap;
}

pub record BandwidthOverride : Type 0 where
  pub org_id : Text
  pub memory_cap : ℕ
  pub serve_cap : ℕ

unfoldable pub new_bandwidth_override : Text → ℕ → ℕ → BandwidthOverride
new_bandwidth_override org memory_cap serve_cap = record {
  org_id = org;
  memory_cap = memory_cap;
  serve_cap = serve_cap;
}

-- BandwidthState.Validate, BandwidthOverride.Validate
unfoldable pub validate_org_id : Text → Result (Unit {0})
validate_org_id org = if is_empty org then err Error.invalid_org_id else ok tt

pub record Params : Type 0 where
  pub default_memory_cap_per_epoch : ℕ
  pub default_serve_cap_per_epoch : ℕ

unfoldable pub default_params : Params
default_params = record {
  default_memory_cap_per_epoch = 10000;
  default_serve_cap_per_epoch = 50000;
}

-- The keys "params", "override/<org>" and "state/<org>/<epoch>".
pub record State : Type 0 where
  pub params : Option Params
  pub overrides : Dict BandwidthOverride
  pub states : Dict BandwidthState

abbrev pub empty_state : State
empty_state = record { params = none; overrides = []; states = [] }

unfoldable pub state_key : Text → ℕ → Text
state_key org epoch = codes "state/" ++ (org ++ (47 ∷ format_uint epoch))

unfoldable pub override_key : Text → Text
override_key org = codes "override/" ++ org

pub record GenesisState : Type 0 where
  pub bandwidth_states : List BandwidthState
  pub bandwidth_overrides : List BandwidthOverride
