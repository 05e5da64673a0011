-- ===== src/Emissions/Genesis.antt =====
-- x/emissions/types/genesis.go and the genesis of keeper.go: what is exported, what is imported.
-- The lists of a genesis file hold no nil entries here.
use wevibe_chain.Common.{
  ℕ, ◌≡◌, Option, none, some, List, [], ltb, if◌then◌else◌, Text, Result, ok, Action, modify, ◌>>◌,
  arith,
}
use wevibe_chain.Common.Dict.{values, IsSorted}
use wevibe_chain.Common.Dict.Rebuild.{IsKeyed, insert_all, insert_all-values}
use wevibe_chain.Emissions.Types.{
  State, EmissionPool, DailyEmission, BootstrapCredit, AsymmetricGate, validate_pool,
  default_emission_pool, empty_state,
}
use wevibe_chain.Emissions.Keeper.{emission_key, gate_key, bootstrap_key, bootstrap_expiry_of}

pub record GenesisState : Type 0 where
  pub emission_pool : Option EmissionPool
  pub daily_emissions : List DailyEmission
  pub bootstrap_credits : List BootstrapCredit
  pub asymmetric_gates : List AsymmetricGate
  pub bootstrap_expiry : ℕ

unfoldable pub default_genesis : GenesisState
default_genesis = record {
  emission_pool = some default_emission_pool;
  daily_emissions = [];
  bootstrap_credits = [];
  asymmetric_gates = [];
  bootstrap_expiry = 0;
}

-- GenesisState.Validate
unfoldable pub validate_genesis : GenesisState → Result (Unit {0})
validate_genesis g = elim g.emission_pool [ none ↦ ok tt | some p ↦ validate_pool p ]

abbrev pub emission_key_of : DailyEmission → Text
emission_key_of e = emission_key e.epoch

abbrev pub credit_key_of : BootstrapCredit → Text
credit_key_of c = bootstrap_key c.operator_id

abbrev pub gate_key_of : AsymmetricGate → Text
gate_key_of g = gate_key g.operator_id g.org_id g.epoch

abbrev pub set_pool : Option EmissionPool → State → State
set_pool none s = s
set_pool (some p) s = record s { pool = some p }

-- InitGenesis
unfoldable pub init_genesis : GenesisState → Action State (Unit {0})
init_genesis g = do
  modify (set_pool g.emission_pool)
  modify (λ s. record s { emissions = insert_all emission_key_of g.daily_emissions s.emissions })
  modify (λ s. record s { credits = insert_all credit_key_of g.bootstrap_credits s.credits })
  modify (λ s. record s { gates = insert_all gate_key_of g.asymmetric_gates s.gates })
  modify (λ s.
      if ltb 0 g.bootstrap_expiry
      then record s { bootstrap_expiry = some g.bootstrap_expiry }
      else s)

-- new(types.EmissionPool)
abbrev pub zero_pool : EmissionPool
zero_pool = record {
  total_supply = 0;
  daily_mint = 0;
  operator_share = 0;
  validator_share = 0;
  epoch = 0;
  validator_pool_remaining_uvibe = 0;
  contributor_pool_remaining_uvibe = 0;
  contributor_rollover_uvibe = 0;
  start_epoch = 0;
  total_epochs_elapsed = 0;
}

abbrev pub pool_or_zero : Option EmissionPool → EmissionPool
pool_or_zero none = zero_pool
pool_or_zero (some p) = p

-- ExportGenesis
unfoldable pub export_genesis : State → GenesisState
unfolding bootstrap_expiry_of
export_genesis s = record {
  emission_pool = some (pool_or_zero s.pool);
  daily_emissions = values s.emissions;
  bootstrap_credits = values s.credits;
  asymmetric_gates = values s.gates;
  bootstrap_expiry = bootstrap_expiry_of s;
}

-- The exported dictionaries are in key order, each value under its own key.
pub record IsCoherent (s : State) : Type 0 where
  pub emissions_sorted : IsSorted s.emissions
  pub emissions_keyed : IsKeyed emission_key_of s.emissions
  pub credits_sorted : IsSorted s.credits
  pub credits_keyed : IsKeyed credit_key_of s.credits
  pub gates_sorted : IsSorted s.gates
  pub gates_keyed : IsKeyed gate_key_of s.gates

-- The expiry that an import stores: 0 is not stored.
abbrev pub nonzero : ℕ → Option ℕ
nonzero n = if ltb 0 n then some n else none

-- Importing the export of a coherent store into an empty one keeps the emissions, credits and gates,
-- the expiry and the pool, a missing pool coming back as one of zeros. It loses the parameters,
-- all pending and lifetime rewards, the bootstrap pool and the average retrieval volume.
pub import-export_emissions :
    (s : State)
    → IsCoherent s
    → init_genesis (export_genesis s) empty_state ≡ (
      ok tt,
      record empty_state {
        pool = some (pool_or_zero s.pool);
        emissions = s.emissions;
        credits = s.credits;
        gates = s.gates;
        bootstrap_expiry = nonzero (bootstrap_expiry_of s);
      },
    )
unfolding init_genesis export_genesis
import-export_emissions s c = ground (
  arith,
  insert_all-values emission_key_of s.emissions c.emissions_sorted c.emissions_keyed,
  insert_all-values credit_key_of s.credits c.credits_sorted c.credits_keyed,
  insert_all-values gate_key_of s.gates c.gates_sorted c.gates_keyed,
)
