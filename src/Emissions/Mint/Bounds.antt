-- ===== src/Emissions/Mint/Bounds.antt =====
-- Bounds on what one epoch emits, and that the payout loses nothing.
use wevibe_chain.Common.{
  ℕ, zero, suc, ◌+◌, ◌*◌, ◌≤◌, ◌≡◌, arith, uint64_max, add64, mul64, add64-eq-add,
}
use native.Mathlib.Nat.{div-add-mod'}
use wevibe_chain.Emissions.Types.{Params, EmissionPool}
use wevibe_chain.Emissions.Mint.{
  remaining_epochs, validator_emission, contributor_budget, payout, advance_pool,
}

pub remaining_pos : (p : Params) (pool : EmissionPool) → 1 ≤ remaining_epochs p pool
unfolding remaining_epochs
remaining_pos p pool = ground arith

pub validator_emission_le :
    (p : Params) (pool : EmissionPool)
    → validator_emission p pool ≤ pool.validator_pool_remaining_uvibe
unfolding validator_emission
validator_emission_le p pool = ground arith

pub contributor_budget_le :
    (p : Params) (pool : EmissionPool)
    → contributor_budget p pool ≤ pool.contributor_pool_remaining_uvibe
unfolding contributor_budget
contributor_budget_le p pool = ground arith

divided_adds_up : (t d q r : ℕ) → q * d + r ≡ t → t ≤ uint64_max → mul64 q d + r ≡ t
unfolding mul64
divided_adds_up t d q r e h = omega arith

-- What is distributed and what is carried over add up to the budget and the old rollover.
pub payout_adds_up :
    (budget rollover n : ℕ)
    → budget + rollover ≤ uint64_max
    → (payout budget rollover n).distributed + (payout budget rollover n).rollover
      ≡ budget + rollover
unfolding payout
payout_adds_up budget rollover zero h = omega (arith, add64-eq-add rollover budget (omega arith))
payout_adds_up budget rollover (suc n) h =
    rw (add64-eq-add budget rollover h)
      (divided_adds_up (budget + rollover) (suc n) _ _ (div-add-mod' (budget + rollover) (suc n)) h)

-- The sum of the pools and of what was emitted.
unfoldable pub pool_sum : EmissionPool → ℕ
pool_sum p =
    p.total_supply + p.validator_pool_remaining_uvibe + p.contributor_pool_remaining_uvibe
    + p.contributor_rollover_uvibe

pub pool_sum-advance :
    (epoch validators budget rollover distributed : ℕ) (pool : EmissionPool)
    → validators ≤ pool.validator_pool_remaining_uvibe
    → budget ≤ pool.contributor_pool_remaining_uvibe
    → distributed + rollover ≡ budget + pool.contributor_rollover_uvibe
    → pool_sum pool ≤ uint64_max
    → pool_sum (advance_pool epoch validators budget rollover (add64 validators distributed) pool)
      ≡ pool_sum pool
unfolding pool_sum advance_pool add64
pool_sum-advance epoch validators budget rollover distributed pool hv hb hd hm = omega arith
