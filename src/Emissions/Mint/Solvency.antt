-- ===== src/Emissions/Mint/Solvency.antt =====
-- The module account under MintDailyEmission: it holds what the contributors can claim.
use wevibe_chain.Common.{
  ℕ, zero, suc, ◌+◌, ◌*◌, ◌≤◌, ◌≡◌, ap, ◌∙◌, none, some, List, Text, arith, uint64_max, add64,
  mul64, add64-eq-add, length, Result, ok, inl, inr,
}
use native.Mathlib.Nat.{div-mul-le_self}
use wevibe_chain.Common.Dict.{IsSorted}
use wevibe_chain.Common.Dict.Laws.{total}
use wevibe_chain.External.{BankKeeper}
use wevibe_chain.Emissions.Types.{State, EmissionPool, DailyEmission}
use wevibe_chain.Emissions.Keeper.{get_params}
use wevibe_chain.Emissions.Mint.{
  World, emissions_module, payout, add_rewards, advance_pool, mint_daily_emission,
}
use wevibe_chain.Emissions.Mint.Bounds.{
  validator_emission_le, contributor_budget_le, payout_adds_up, pool_sum,
}
use wevibe_chain.Emissions.Mint.Rewards.{pending, pending-add_rewards, add_rewards-IsSorted}
use wevibe_chain.Emissions.Mint.Inversion.{
  BankMinted, mint_inversion, validators_of, budget_of, paid_of, addrs_of, next_pool,
}
use wevibe_chain.Emissions.Mint.Conservation.{stored_sum, stored_sum-some, mint_conserves}

unfoldable pub supply_of : State → ℕ
supply_of s = elim s.pool [ none ↦ 0 | some p ↦ p.total_supply ]

-- Nothing overflows, no more is owed than was emitted, and all that is owed is in the account.
pub record IsSolvent {B : Type 0} (bank : BankKeeper B) (w : World B) : Type 0 where
  pub sorted : IsSorted w.state.rewards
  pub fits : stored_sum w.state ≤ uint64_max
  pub owed : pending w.state ≤ supply_of w.state
  pub backed : pending w.state ≤ bank.module_balance emissions_module w.bank

-- What is distributed is the share of each contributor, times their number.
pub payout_distributed :
    (budget rollover n : ℕ)
    → budget + rollover ≤ uint64_max
    → (payout budget rollover n).per_contributor * n ≡ (payout budget rollover n).distributed
unfolding payout mul64
payout_distributed budget rollover zero h = omega arith
payout_distributed budget rollover (suc n) h =
    rw (add64-eq-add budget rollover h) (omega (arith, div-mul-le_self (budget + rollover) (suc n)))

pub supply_some : (s : State) (p : EmissionPool) → s.pool ≡ some p → supply_of s ≡ p.total_supply
unfolding supply_of
supply_some s p h = rw (h, supply_of)

pub supply_pool : (s t : State) → t.pool ≡ s.pool → supply_of t ≡ supply_of s
unfolding supply_of
supply_pool s t h = rw (h, supply_of)

module _ (approvals : Result (List (Text × ℕ))) (s : State) (pool : EmissionPool)
    (fits : pool_sum pool ≤ uint64_max) where
  pub budget_fits : budget_of approvals s pool + pool.contributor_rollover_uvibe ≤ uint64_max
  unfolding pool_sum
  budget_fits = omega (arith, contributor_budget_le (get_params s) pool)

  -- What is emitted stays within what the pools hold.
  pub emitted_within :
      (paid_of approvals s pool).distributed + validators_of approvals s pool + pool.total_supply
      ≤ pool_sum pool
  unfolding pool_sum
  emitted_within = omega (
    arith,
    validator_emission_le (get_params s) pool,
    contributor_budget_le (get_params s) pool,
    payout_adds_up (budget_of approvals s pool) pool.contributor_rollover_uvibe
        (length (addrs_of approvals s pool)) budget_fits,
  )

  supply-next :
      (epoch : ℕ)
      → (next_pool approvals s pool epoch).total_supply
        ≡ pool.total_supply
          + validators_of approvals s pool
          + (paid_of approvals s pool).distributed
  unfolding advance_pool
  supply-next epoch =
      let v = validators_of approvals s pool in
      let d = (paid_of approvals s pool).distributed in
      omega (
        arith,
        emitted_within,
        add64-eq-add v d (omega (arith, emitted_within)),
        add64-eq-add pool.total_supply (v + d) (omega (arith, emitted_within)),
        ap (add64 pool.total_supply) (add64-eq-add v d (omega (arith, emitted_within))),
      )

  -- The credits of the epoch add up to what is distributed.
  pub pending-next :
      IsSorted s.rewards
      → pending s ≤ pool.total_supply
      → pending
          (add_rewards (paid_of approvals s pool).per_contributor (addrs_of approvals s pool) s).1
        ≡ pending s + (paid_of approvals s pool).distributed
  pending-next sorted owed =
      let per = (paid_of approvals s pool).per_contributor in
      let addrs = addrs_of approvals s pool in
      let whole =
        payout_distributed (budget_of approvals s pool) pool.contributor_rollover_uvibe
          (length addrs) budget_fits in
      omega (
        arith,
        whole,
        emitted_within,
        pending-add_rewards per addrs s sorted (omega (arith, whole, emitted_within)),
      )

module _ {B : Type 0} (bank : BankKeeper B) where
  BankMinted-balance :
      (n : ℕ) (b b' : B)
      → BankMinted bank n b b'
      → bank.module_balance emissions_module b' ≡ bank.module_balance emissions_module b + n
  BankMinted-balance n b b' (inl (pos, done)) = bank.mint-balance emissions_module n b b' done
  BankMinted-balance n b b' (inr (none_due, same)) = rw (same, none_due) (omega arith)

module _ {B : Type 0} (bank : BankKeeper B) (approvals : Result (List (Text × ℕ))) (epoch : ℕ)
    (w : World B) (e : DailyEmission)
    (minted : (mint_daily_emission bank approvals epoch w).0 ≡ ok e) where
  -- A successful mint keeps the module solvent: the stored sum fits in 64 bits, the pending rewards
  -- are at most the supply counter, and the module account holds at least the pending rewards.
  pub mint-IsSolvent :
      IsSolvent bank w → IsSolvent bank (mint_daily_emission bank approvals epoch w).1
  mint-IsSolvent v =
      let (pool, m) = mint_inversion bank approvals epoch w e minted in
      let before = supply_some w.state pool m.found in
      let sum_fits = rw (stored_sum-some w.state pool m.found) at v.fits in
      let d = (paid_of approvals w.state pool).distributed in
      let w' = (mint_daily_emission bank approvals epoch w).1 in
      let after = supply_some w'.state (next_pool approvals w.state pool epoch) m.stored in
      let more =
        ap total m.rewarded
        ∙ pending-next approvals w.state pool sum_fits v.sorted (omega (arith, before, v.owed)) in
      record {
        sorted = rw m.rewarded (add_rewards-IsSorted _ _ w.state v.sorted);
        fits = omega (arith, mint_conserves bank approvals epoch w e minted v.fits, v.fits);
        owed =
            omega (
              arith,
              more,
              before,
              v.owed,
              after,
              supply-next approvals w.state pool sum_fits epoch,
            );
        backed = omega (arith, more, v.backed, BankMinted-balance bank d w.bank _ m.minted);
      }
