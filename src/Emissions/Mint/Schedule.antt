-- ===== src/Emissions/Mint/Schedule.antt =====
-- The schedule of the mint: it goes through when it is due, it ends, and what a failure behind the
-- hook leaves.
use wevibe_chain.Common.{
  ℕ, ◌+◌, ◌≤◌, ◌<◌, ◌≡◌, ap, ◌∙◌, some, List, Text, arith, uint64_max, Result, ok, err, Error,
  bind_err, text_eq_refl,
}
use wevibe_chain.Common.Dict.{IsSorted}
use wevibe_chain.External.{BankKeeper}
use wevibe_chain.Emissions.Types.{State, Params, EmissionPool, DailyEmission}
use wevibe_chain.Emissions.Keeper.{get_params}
use wevibe_chain.Emissions.Mint.{
  World, emissions_module, remaining_epochs, validator_emission, advance_pool, mint_distributed,
  emit_epoch, record_epoch, mint_daily_emission, after_epoch_end, wevibe_epoch_identifier,
}
use wevibe_chain.Emissions.Mint.Bounds.{pool_sum}
use wevibe_chain.Emissions.Mint.Rewards.{pending, add_rewards-IsRewardOnly}
use wevibe_chain.Emissions.Mint.Inversion.{
  addrs_of, paid_of, next_pool, emission_of, emit_steps, rewarded_world,
}
use wevibe_chain.Emissions.Mint.Solvency.{pending-next}

remaining_last :
    (p : Params) (pool : EmissionPool)
    → p.schedule_duration_days ≤ pool.total_epochs_elapsed + 1
    → remaining_epochs p pool ≡ 1
unfolding remaining_epochs
remaining_last p pool h = ground arith

-- From the last epoch of the schedule on, a mint empties the validators' pool.
pub last_epoch_empties :
    (approvals : Result (List (Text × ℕ))) (s : State) (pool : EmissionPool) (epoch : ℕ)
    → (get_params s).schedule_duration_days ≤ pool.total_epochs_elapsed + 1
    → (next_pool approvals s pool epoch).validator_pool_remaining_uvibe ≡ 0
unfolding advance_pool validator_emission
last_epoch_empties approvals s pool epoch h = ground (arith, remaining_last (get_params s) pool h)

hook_runs :
    {B : Type 0} (bank : BankKeeper B) (approvals : Result (List (Text × ℕ))) (epoch : ℕ)
    (w : World B)
    → after_epoch_end bank approvals wevibe_epoch_identifier epoch w
      ≡ (ok tt, (mint_daily_emission bank approvals epoch w).1)
unfolding after_epoch_end
hook_runs bank approvals epoch w = rw (text_eq_refl wevibe_epoch_identifier)

module _ {B : Type 0} (bank : BankKeeper B) (approvals : Result (List (Text × ℕ))) (epoch : ℕ)
    (w : World B) (pool : EmissionPool) (found : w.state.pool ≡ some pool)
    (later : pool.epoch < epoch) where
  mint_steps :
      mint_daily_emission bank approvals epoch w
      ≡ emit_epoch bank approvals epoch (get_params w.state) pool w
  unfolding mint_daily_emission
  mint_steps = ground arith

  mint_distributed_err :
      (n : ℕ) (v : World B) (x : Error)
      → 0 < n
      → bank.mint_coins emissions_module n v.bank ≡ err x
      → mint_distributed bank n v ≡ (err x, v)
  unfolding mint_distributed
  mint_distributed_err n v x h e = ground arith

  mint_unfunded :
      (x : Error)
      → 0 < (paid_of approvals w.state pool).distributed
      → bank.mint_coins emissions_module (paid_of approvals w.state pool).distributed w.bank ≡ err x
      → mint_daily_emission bank approvals epoch w
        ≡ (err x, rewarded_world bank approvals epoch w pool)
  unfolding rewarded_world
  mint_unfunded x h e =
      let d = (paid_of approvals w.state pool).distributed in
      let r = rewarded_world bank approvals epoch w pool in
      let em = emission_of bank approvals epoch w.state pool in
      let next = next_pool approvals w.state pool epoch in
      let refused = mint_distributed_err d r x h e in
      mint_steps
      ∙ emit_steps bank approvals epoch w pool
      ∙ bind_err (mint_distributed bank d) (λ _. record_epoch bank em next) r
          (ap (λ (y : Result (Unit {0}) × World B). y.0) refused)
      ∙ ap (λ (y : Result (Unit {0}) × World B). (err x, y.1)) refused

  -- A flaw. With a stored pool of an earlier epoch whose sum fits in 64 bits, rewards in key order
  -- and within the supply counter, and a bank that refuses the mint of an epoch that has contributors
  -- to pay: the hook at the epoch's end returns no error, the pool and the bank are as before, and
  -- the contributors have been credited all the same.
  pub hook_credits_unfunded :
      (x : Error)
      → 0 < (paid_of approvals w.state pool).distributed
      → bank.mint_coins emissions_module (paid_of approvals w.state pool).distributed w.bank ≡ err x
      → pool_sum pool ≤ uint64_max
      → IsSorted w.state.rewards
      → pending w.state ≤ pool.total_supply
      → let (r, w') = after_epoch_end bank approvals wevibe_epoch_identifier epoch w in
        (r ≡ ok tt)
        × (w'.state.pool ≡ w.state.pool)
        × (w'.bank ≡ w.bank)
        × (pending w'.state ≡ pending w.state + (paid_of approvals w.state pool).distributed)
  unfolding rewarded_world
  hook_credits_unfunded x h e fits sorted owed =
      let same =
        hook_runs bank approvals epoch w
        ∙ ap (λ (y : Result DailyEmission × World B). (ok tt, y.1)) (mint_unfunded x h e) in
      let only =
        add_rewards-IsRewardOnly (paid_of approvals w.state pool).per_contributor
          (addrs_of approvals w.state pool) w.state in
      (
        ap (λ (y : Result (Unit {0}) × World B). y.0) same,
        ap (λ (y : Result (Unit {0}) × World B). y.1.state.pool) same ∙ only.pool,
        ap (λ (y : Result (Unit {0}) × World B). y.1.bank) same,
        ap (λ (y : Result (Unit {0}) × World B). pending y.1.state) same
            ∙ pending-next approvals w.state pool fits sorted owed,
      )
