-- ===== src/Emissions/Tests.antt =====
-- Runs and instances for x/emissions, with a bank that keeps one number.
use wevibe_chain.Common.{
  ℕ, ◌+◌, ◌-◌, ◌≤◌, ◌<◌, ◌≡◌, refl, some, List, [], ◌∷◌, Text, codes, leb, if◌then◌else◌, add64,
  mul64, Result, ok, err, Error, text_lt, arith,
}
use wevibe_chain.Common.Dict.Laws.{total}
use wevibe_chain.External.{BankKeeper}
use wevibe_chain.Emissions.Types.{
  EmissionPool, DailyEmission, default_params, default_emission_pool, validate_pool, empty_state,
}
use wevibe_chain.Emissions.Keeper.{get_params, set_emission_pool}
use wevibe_chain.Emissions.Mint.{
  World, mint_daily_emission, sort_strings, emit_epoch, add_rewards, qualifying, payout,
  contributor_budget, advance_pool, validator_emission, after_epoch_end, wevibe_epoch_identifier,
}
use wevibe_chain.Common.{◌*◌}
use wevibe_chain.Emissions.Keeper.{get_contributor_reward}
use wevibe_chain.Emissions.Mint.Credits.{copies, mint_credits}
use wevibe_chain.Emissions.Mint.Inversion.{addrs_of}
use wevibe_chain.Emissions.Mint.Bounds.{pool_sum}
use wevibe_chain.Emissions.Mint.Inversion.{paid_of}
use wevibe_chain.Emissions.Mint.Rewards.{pending}
use wevibe_chain.Emissions.Mint.Conservation.{stored_sum, mint_conserves, mint_once}
use wevibe_chain.Emissions.Mint.Solvency.{IsSolvent, supply_of}
use wevibe_chain.Emissions.Mint.Schedule.{hook_credits_unfunded}

pub mint_law : (m : Text) (n b b' : ℕ) → ok (b + n) ≡ ok b' → b' ≡ b + n
mint_law m n b b' h = ground arith

pub send_law :
    (m a : Text) (n b b' : ℕ)
    → (if leb n b then ok (b - n) else err Error.bank_refused) ≡ ok b'
    → b' + n ≡ b
send_law m a n b b' h = ground arith

-- The balance of the emissions account, where every mint is accepted.
abbrev pub ledger : BankKeeper ℕ
ledger = record {
  mint_coins = λ m n b. ok (b + n);
  send_coins_from_module_to_account =
      λ m a n b. if leb n b then ok (b - n) else err Error.bank_refused;
  module_balance = λ m b. b;
  mint-balance = mint_law;
  send-balance = send_law;
}

refused_law : (m : Text) (n b b' : ℕ) → err Error.bank_refused ≡ ok b' → b' ≡ b + n
refused_law m n b b' h = cc

-- A bank that mints nothing.
abbrev closed_bank : BankKeeper ℕ
closed_bank = record {
  mint_coins = λ m n b. err Error.bank_refused;
  send_coins_from_module_to_account =
      λ m a n b. if leb n b then ok (b - n) else err Error.bank_refused;
  module_balance = λ m b. b;
  mint-balance = refused_law;
  send-balance = send_law;
}

abbrev pub genesis : World ℕ
genesis = record { state = record empty_state { pool = some default_emission_pool }; bank = 0 }

abbrev pub alice : Text
alice = codes "alice"

abbrev pub bob : Text
bob = codes "bob"

abbrev pub approvals : Result (List (Text × ℕ))
approvals = ok ((bob, 2) ∷ (alice, 1) ∷ (codes "carol", 0) ∷ [])

abbrev first_emission : DailyEmission
first_emission = record { epoch = 1; total_emitted = 76198630135; validator_share = 48801369863 }

first_mint : (mint_daily_emission ledger approvals 1 genesis).0 ≡ ok first_emission
unfolding mint_daily_emission get_params default_params default_emission_pool validate_pool add64
    mul64 text_lt set_emission_pool emit_epoch add_rewards sort_strings qualifying payout
    contributor_budget advance_pool validator_emission
first_mint = refl

genesis-IsSolvent : IsSolvent ledger genesis
unfolding stored_sum supply_of default_emission_pool default_params mul64 total
genesis-IsSolvent = record {
  sorted = tt;
  fits = omega arith;
  owed = omega arith;
  backed = omega arith;
}

mint_conserves_example :
    stored_sum (mint_daily_emission ledger approvals 1 genesis).1.state ≡ stored_sum genesis.state
mint_conserves_example =
    mint_conserves ledger approvals 1 genesis first_emission first_mint genesis-IsSolvent.fits

mint_credits_example :
    (pool : EmissionPool) × (genesis.state.pool ≡ some pool)
    × (get_contributor_reward alice (mint_daily_emission ledger approvals 1 genesis).1.state
        ≡ get_contributor_reward alice genesis.state
          + (paid_of approvals genesis.state pool).per_contributor
            * copies alice (addrs_of approvals genesis.state pool))
mint_credits_example =
    mint_credits ledger approvals 1 genesis first_emission first_mint genesis-IsSolvent alice

mint_once_example :
    mint_daily_emission ledger approvals 1 (mint_daily_emission ledger approvals 1 genesis).1
    ≡ (err Error.epoch_not_greater, (mint_daily_emission ledger approvals 1 genesis).1)
mint_once_example =
    mint_once ledger approvals 1 genesis first_emission first_mint approvals 1 (omega arith)

default_pool_early : default_emission_pool.epoch < 1
unfolding default_emission_pool
default_pool_early = omega arith

default_pool_fits : pool_sum default_emission_pool ≤ 18446744073709551615
unfolding pool_sum default_emission_pool default_params mul64
default_pool_fits = omega arith

first_distributed : 0 < (paid_of approvals genesis.state default_emission_pool).distributed
unfolding get_params default_params default_emission_pool mul64 add64 qualifying sort_strings payout
    contributor_budget text_lt
first_distributed = omega arith

hook_credits_unfunded_example :
    let (r, w') = after_epoch_end closed_bank approvals wevibe_epoch_identifier 1 genesis in
    (r ≡ ok tt)
    × (w'.state.pool ≡ genesis.state.pool)
    × (w'.bank ≡ genesis.bank)
    × (pending w'.state
        ≡ pending genesis.state
          + (paid_of approvals genesis.state default_emission_pool).distributed)
unfolding total default_emission_pool
hook_credits_unfunded_example =
    hook_credits_unfunded closed_bank approvals 1 genesis default_emission_pool refl
      default_pool_early Error.bank_refused first_distributed refl default_pool_fits tt
      (omega arith)
