-- ===== src/Emissions/CreditTests.antt =====
-- Instances for the bootstrap credits, the gates and the genesis of x/emissions.
use wevibe_chain.Common.{
  ◌≤◌, ◌<◌, ◌≡◌, ◌≢◌, refl, false, some, [], ◌∷◌, codes, ok, text_eq, add64, arith,
}
use wevibe_chain.Common.Decimal.{format_uint}
use wevibe_chain.Emissions.Types.{
  State, AsymmetricGate, default_emission_pool, default_params, validate_pool, empty_state,
}
use wevibe_chain.Emissions.Keeper.{
  bootstrap_key, bootstrap_expiry_of, emission_key, gate_key, set_asymmetric_gate,
  get_asymmetric_gate,
}
use wevibe_chain.Emissions.Bootstrap.{gate_round_trip}
use wevibe_chain.Common.{not, ◌&&◌, is_empty, leb}
use wevibe_chain.Common.Dict.{values}
use wevibe_chain.Memory.Types as MemoryTypes
use wevibe_chain.Memory.Keeper.{counts_in, get_contributors_with_approvals_in_epoch}
use wevibe_chain.Memory.Approvals.{occurrences, weight, committed_one}
use wevibe_chain.Emissions.Keeper.{get_params}
use wevibe_chain.Emissions.Mint.Inversion.{addrs_of}
use wevibe_chain.Emissions.Qualifying.{contains, qualifies_by_approvals}
use wevibe_chain.Emissions.Genesis.{
  default_genesis, validate_genesis, init_genesis, export_genesis, IsCoherent,
  import-export_emissions,
}

abbrev credited : State
credited = record empty_state {
  pool = some default_emission_pool;
  emissions =
      (codes "emission/3", record { epoch = 3; total_emitted = 9; validator_share = 4 }) ∷ [];
  credits =
      (codes "bootstrap/op", record { operator_id = codes "op"; credits = 10; redeemed = 4 }) ∷ [];
  bootstrap_expiry = some 50;
}

abbrev shut_gate : AsymmetricGate
shut_gate = record {
  operator_id = codes "op";
  org_id = codes "org";
  storage_passed = false;
  retrieval_allowed = false;
  epoch = 3;
}

gate_round_trip_example :
    get_asymmetric_gate
      (codes "op")
      (codes "org")
      3
      (set_asymmetric_gate (some shut_gate) credited).1
    ≡ shut_gate
gate_round_trip_example = gate_round_trip shut_gate credited

credited-IsCoherent : IsCoherent credited
unfolding emission_key bootstrap_key gate_key format_uint
credited-IsCoherent = record {
  emissions_sorted = tt;
  emissions_keyed = (refl, tt);
  credits_sorted = tt;
  credits_keyed = (refl, tt);
  gates_sorted = tt;
  gates_keyed = tt;
}

import-export_emissions_example : init_genesis (export_genesis credited) empty_state ≡ (
  ok tt,
  record empty_state {
    pool = credited.pool;
    emissions = credited.emissions;
    credits = credited.credits;
    gates = credited.gates;
    bootstrap_expiry = some 50;
  },
)
unfolding bootstrap_expiry_of
import-export_emissions_example = import-export_emissions credited credited-IsCoherent

-- One memory of "con", approved in epoch 5.
abbrev remembered : MemoryTypes.State
remembered = record MemoryTypes.empty_state {
  memories =
      (
        codes "approved/org/0708",
        record {
          org_id = codes "org";
          content_hash = 7 ∷ 8 ∷ [];
          encrypted_blob = [];
          keywords = [];
          contributor = codes "con";
          contributor_address = [];
          producer_model_id = [];
          attestation_session_hash = [];
          epoch = 0;
          committed_at_height = 0;
          committing_leader = codes "lea";
          state = MemoryTypes.MemoryState.committed;
          last_active_epoch = 0;
          wrapped_dek_enc = [];
          plaintext_hash = [];
          salt = [];
          ciphertext_hash = [];
          wrapped_dek_hash = [];
          contributor_sig = [];
          memory_type = 1;
          approved_at_epoch = 5;
          mc_version = 1;
        },
      )
      ∷ [];
}

one_approval : occurrences 5 (codes "con") (values remembered.memories) ≤ 18446744073709551615
unfolding occurrences weight committed_one counts_in MemoryTypes.is_committed text_eq
one_approval = omega arith

threshold_set : 0 < (get_params credited).contributor_qualify_threshold
unfolding get_params default_params
threshold_set = omega arith

qualifies_by_approvals_example :
    contains (codes "con") (
      addrs_of
        (ok (get_contributors_with_approvals_in_epoch 5 remembered))
        credited
        default_emission_pool)
    ≡ not (is_empty (codes "con"))
      && leb
          (get_params credited).contributor_qualify_threshold
          (occurrences 5 (codes "con") (values remembered.memories))
qualifies_by_approvals_example =
    qualifies_by_approvals 5 (codes "con") remembered credited default_emission_pool threshold_set
      one_approval

expiry_set : bootstrap_expiry_of credited ≢ 0
unfolding bootstrap_expiry_of
expiry_set h = omega arith

default_genesis_valid : validate_genesis default_genesis ≡ ok tt
unfolding validate_genesis default_genesis validate_pool default_emission_pool default_params add64
default_genesis_valid = refl
