-- ===== src/Emissions/Types.antt =====
-- x/emissions/types: parameters, pool, daily emission, credits and gates (params.go, keys.go,
-- genesis.go), and the state that the keeper's store holds.
use wevibe_chain.Common.{
  ℕ, ◌/◌, Bool, Option, none, [], Text, codes, leb, ◌==◌, not, if◌then◌else◌, add64, sub64, mul64,
  Result, ok, err, Error,
}
use wevibe_chain.Common.Dict.{Dict}

pub record Params : Type 0 where
  pub daily_mint_amount : ℕ
  pub operator_share_percent : ℕ
  pub validator_share_percent : ℕ
  pub storage_weight_percent : ℕ
  pub retrieval_weight_percent : ℕ
  pub rarity_multiplier_cap : Text
  pub bootstrap_duration_epochs : ℕ
  pub total_supply_uvibe : ℕ
  pub validator_emission_pool_uvibe : ℕ
  pub contributor_annual_cap_uvibe : ℕ
  pub schedule_duration_days : ℕ
  pub contributor_qualify_threshold : ℕ

abbrev pub epochs_per_year : ℕ
epochs_per_year = 365

unfoldable pub default_params : Params
default_params = record {
  daily_mint_amount = 1000000000;
  operator_share_percent = 80;
  validator_share_percent = 20;
  storage_weight_percent = 30;
  retrieval_weight_percent = 70;
  rarity_multiplier_cap = codes "3.0";
  bootstrap_duration_epochs = 365;
  total_supply_uvibe = 1000000000000000;
  validator_emission_pool_uvibe = 570000000000000;
  contributor_annual_cap_uvibe = 10000000000000;
  schedule_duration_days = 11680;
  contributor_qualify_threshold = 1;
}

-- Params.Validate
unfoldable pub validate_params : Params → Result (Unit {0})
validate_params p =
    if not (add64 p.operator_share_percent p.validator_share_percent == 100)
    then err Error.share_sum
    else (if not (add64 p.storage_weight_percent p.retrieval_weight_percent == 100)
        then err Error.weight_sum
        else ok tt)

pub record EmissionPool : Type 0 where
  pub total_supply : ℕ
  pub daily_mint : ℕ
  pub operator_share : ℕ
  pub validator_share : ℕ
  pub epoch : ℕ
  pub validator_pool_remaining_uvibe : ℕ
  pub contributor_pool_remaining_uvibe : ℕ
  pub contributor_rollover_uvibe : ℕ
  pub start_epoch : ℕ
  pub total_epochs_elapsed : ℕ

-- EmissionPool.Validate
unfoldable pub validate_pool : EmissionPool → Result (Unit {0})
validate_pool p =
    if not (add64 p.operator_share p.validator_share == 100)
    then err Error.invalid_emission_pool
    else ok tt

-- DefaultEmissionPool: the whole schedule is seeded at genesis.
unfoldable pub default_emission_pool : EmissionPool
unfolding default_params
default_emission_pool =
    let p = default_params in
    let years = p.schedule_duration_days / epochs_per_year in
    record {
      total_supply = 0;
      daily_mint = p.daily_mint_amount;
      operator_share = p.operator_share_percent;
      validator_share = p.validator_share_percent;
      epoch = 0;
      validator_pool_remaining_uvibe = p.validator_emission_pool_uvibe;
      contributor_pool_remaining_uvibe = mul64 p.contributor_annual_cap_uvibe years;
      contributor_rollover_uvibe = 0;
      start_epoch = 0;
      total_epochs_elapsed = 0;
    }

pub record DailyEmission : Type 0 where
  pub epoch : ℕ
  pub total_emitted : ℕ
  pub validator_share : ℕ

pub record BootstrapCredit : Type 0 where
  pub operator_id : Text
  pub credits : ℕ
  pub redeemed : ℕ

pub record AsymmetricGate : Type 0 where
  pub operator_id : Text
  pub org_id : Text
  pub storage_passed : Bool
  pub retrieval_allowed : Bool
  pub epoch : ℕ

unfoldable pub new_bootstrap_credit : Text → ℕ → BootstrapCredit
new_bootstrap_credit operator credits = record {
  operator_id = operator;
  credits = credits;
  redeemed = 0;
}

unfoldable pub new_asymmetric_gate : Text → Text → Bool → ℕ → AsymmetricGate
new_asymmetric_gate operator org passed epoch = record {
  operator_id = operator;
  org_id = org;
  storage_passed = passed;
  retrieval_allowed = passed;
  epoch = epoch;
}

-- BootstrapCredit.CanRedeem: the subtraction is on uint64.
unfoldable pub can_redeem : BootstrapCredit → ℕ → Bool
can_redeem b amount = leb amount (sub64 b.credits b.redeemed)

-- BootstrapCredit.Redeem
unfoldable pub redeem : BootstrapCredit → ℕ → Result BootstrapCredit
unfolding can_redeem
redeem b amount =
    if not (can_redeem b amount)
    then err Error.insufficient_balance
    else ok (record b { redeemed = add64 b.redeemed amount })

-- What the module's store holds: a field for each key or key prefix of keeper.go. The dictionaries
-- are keyed by the bytes of the whole key.
pub record State : Type 0 where
  pub params : Option Params
  pub pool : Option EmissionPool
  pub emissions : Dict DailyEmission
  pub gates : Dict AsymmetricGate
  pub credits : Dict BootstrapCredit
  pub bootstrap_pool : Option ℕ
  pub rewards : Dict ℕ
  pub lifetimes : Dict ℕ
  pub bootstrap_expiry : Option ℕ
  pub avg_retrieval_volume : Option ℕ

abbrev pub empty_state : State
empty_state = record {
  params = none;
  pool = none;
  emissions = [];
  gates = [];
  credits = [];
  bootstrap_pool = none;
  rewards = [];
  lifetimes = [];
  bootstrap_expiry = none;
  avg_retrieval_volume = none;
}
