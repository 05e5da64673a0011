-- ===== src/Emissions/Mint/Inversion.antt =====
-- What a successful MintDailyEmission has read and written, field by field.
use wevibe_chain.Common.{
  ℕ, ◌<◌, ◌≡◌, sym, ap, ◌∙◌, some, List, Text, arith, add64, length, Result, ok, Option-cases, inl,
  inr,
}
use wevibe_chain.Common.{◌>>◌, ◌⊎◌, bind_ok, bind_inversion}
use wevibe_chain.External.{BankKeeper}
use wevibe_chain.Emissions.Types.{State, EmissionPool, DailyEmission, validate_pool}
use wevibe_chain.Common.Dict.{insert}
use wevibe_chain.Emissions.Keeper.{get_params, emission_key}
use wevibe_chain.Emissions.Mint.{
  World, emissions_module, validator_emission, contributor_budget, qualifying, sort_strings, Payout,
  payout, add_rewards, advance_pool, approvals_or_none, mint_distributed, mint_daily_emission,
  emit_epoch, record_epoch, on_state,
}
use wevibe_chain.Emissions.Mint.Rewards.{add_rewards_ok, add_rewards-IsRewardOnly}

-- The quantities of an epoch, from the store before it and the pool read there.
module _ (approvals : Result (List (Text × ℕ))) (s : State) (pool : EmissionPool) where
  abbrev pub addrs_of : List Text
  addrs_of =
      sort_strings
        (qualifying (get_params s).contributor_qualify_threshold (approvals_or_none approvals))

  abbrev pub validators_of : ℕ
  validators_of = validator_emission (get_params s) pool

  abbrev pub budget_of : ℕ
  budget_of = contributor_budget (get_params s) pool

  abbrev pub paid_of : Payout
  paid_of = payout budget_of pool.contributor_rollover_uvibe (length addrs_of)

  abbrev pub emitted_of : ℕ
  emitted_of = add64 validators_of paid_of.distributed

  abbrev pub next_pool : ℕ → EmissionPool
  next_pool epoch = advance_pool epoch validators_of budget_of paid_of.rollover emitted_of pool

module _ {B : Type 0} (bank : BankKeeper B) where
  -- The bank has minted the amount, or there was nothing to mint.
  abbrev pub BankMinted : ℕ → B → B → Type 0
  BankMinted n b b' =
      ((0 < n) × (bank.mint_coins emissions_module n b ≡ ok b')) ⊎ ((n ≡ 0) × (b' ≡ b))

module _ {B : Type 0} (bank : BankKeeper B) (approvals : Result (List (Text × ℕ))) (epoch : ℕ) where
  -- The record of the epoch.
  abbrev pub emission_of : State → EmissionPool → DailyEmission
  emission_of s pool = record {
    epoch = epoch;
    total_emitted = emitted_of approvals s pool;
    validator_share = validators_of approvals s pool;
  }

  -- What a successful call has read and written.
  pub record IsMinted (w w' : World B) (pool : EmissionPool) (e : DailyEmission) : Type 0 where
    pub found : w.state.pool ≡ some pool
    pub later : pool.epoch < epoch
    pub stored : w'.state.pool ≡ some (next_pool approvals w.state pool epoch)
    pub shares : validate_pool (next_pool approvals w.state pool epoch) ≡ ok tt
    pub rewarded :
        w'.state.rewards
        ≡ (add_rewards
            (paid_of approvals w.state pool).per_contributor
            (addrs_of approvals w.state pool)
            w.state).1.rewards
    pub emitted : e ≡ emission_of w.state pool
    pub listed :
        w'.state.emissions
        ≡ insert (emission_key epoch) (emission_of w.state pool) w.state.emissions
    pub minted : BankMinted bank (paid_of approvals w.state pool).distributed w.bank w'.bank

  mint_start :
      (w : World B) (e : DailyEmission)
      → (mint_daily_emission bank approvals epoch w).0 ≡ ok e
      → (pool : EmissionPool) × (w.state.pool ≡ some pool)
        × (pool.epoch < epoch)
        × (mint_daily_emission bank approvals epoch w
            ≡ emit_epoch bank approvals epoch (get_params w.state) pool w)
  unfolding mint_daily_emission
  mint_start w e h = elim (Option-cases w.state.pool) [
    | inl missing ↦ ground arith
    | inr (pool, found) ↦ (pool, found, ground arith, ground arith)
  ]

  mint_distributed-state : (n : ℕ) (w : World B) → (mint_distributed bank n w).1.state ≡ w.state
  unfolding mint_distributed
  mint_distributed-state n w = ground arith

  mint_distributed-BankMinted :
      (n : ℕ) (w : World B)
      → (mint_distributed bank n w).0 ≡ ok tt
      → BankMinted bank n w.bank (mint_distributed bank n w).1.bank
  unfolding mint_distributed
  mint_distributed-BankMinted n w h = ground arith

  record_epoch_inversion :
      (em e : DailyEmission) (next : EmissionPool) (w : World B)
      → (record_epoch bank em next w).0 ≡ ok e
      → (e ≡ em)
        × (validate_pool next ≡ ok tt)
        × ((record_epoch bank em next w).1.state.pool ≡ some next)
        × ((record_epoch bank em next w).1.state.rewards ≡ w.state.rewards)
        × ((record_epoch bank em next w).1.state.emissions
            ≡ insert (emission_key em.epoch) em w.state.emissions)
        × ((record_epoch bank em next w).1.bank ≡ w.bank)
  unfolding record_epoch
  record_epoch_inversion em e next w h =
      (ground arith, ground arith, ground arith, ground arith, ground arith, ground arith)

  -- The store and the bank behind the loop of the rewards.
  unfoldable pub rewarded_world : World B → EmissionPool → World B
  rewarded_world w pool = record w {
    state =
        (add_rewards (paid_of approvals w.state pool).per_contributor
          (addrs_of approvals w.state pool) w.state).1;
  }

  pub emit_steps :
      (w : World B) (pool : EmissionPool)
      → emit_epoch bank approvals epoch (get_params w.state) pool w
        ≡ (mint_distributed bank (paid_of approvals w.state pool).distributed
              >> record_epoch bank
                  (emission_of w.state pool)
                  (next_pool approvals w.state pool epoch))
            (rewarded_world w pool)
  unfolding emit_epoch rewarded_world on_state
  emit_steps w pool =
      bind_ok
        (on_state (
          add_rewards (paid_of approvals w.state pool).per_contributor
            (addrs_of approvals w.state pool)))
        (λ _.
          mint_distributed bank (paid_of approvals w.state pool).distributed
          >> record_epoch bank (emission_of w.state pool) (next_pool approvals w.state pool epoch))
        w
        (add_rewards_ok (paid_of approvals w.state pool).per_contributor
          (addrs_of approvals w.state pool) w.state)

  stored_epoch :
      (w : World B) (pool : EmissionPool) (e : DailyEmission)
      → w.state.pool ≡ some pool
      → pool.epoch < epoch
      → (v : World B) → v.state ≡ (rewarded_world w pool).state
      → BankMinted bank (paid_of approvals w.state pool).distributed w.bank v.bank
      → (record_epoch bank (emission_of w.state pool) (next_pool approvals w.state pool epoch) v).0
        ≡ ok e
      → IsMinted w
          (record_epoch bank
            (emission_of w.state pool)
            (next_pool approvals w.state pool epoch)
            v).1
          pool
          e
  unfolding rewarded_world
  stored_epoch w pool e found later v same paid h =
      let (em, valid, kept, rewards, epochs, b) =
        record_epoch_inversion (emission_of w.state pool) e (next_pool approvals w.state pool epoch)
          v h in
      record {
        found = found;
        later = later;
        stored = kept;
        shares = valid;
        rewarded = rewards ∙ ap (λ (t : State). t.rewards) same;
        emitted = em;
        listed =
            epochs
            ∙ ap (λ (t : State). insert (emission_key epoch) (emission_of w.state pool) t.emissions)
                same
            ∙ ap (insert (emission_key epoch) (emission_of w.state pool))
                (add_rewards-IsRewardOnly (paid_of approvals w.state pool).per_contributor
                  (addrs_of approvals w.state pool) w.state).emissions;
        minted = rw b paid;
      }

  -- A successful call read a pool of an earlier epoch, and stored the next one.
  pub mint_inversion :
      (w : World B) (e : DailyEmission)
      → (mint_daily_emission bank approvals epoch w).0 ≡ ok e
      → (pool : EmissionPool) × IsMinted w (mint_daily_emission bank approvals epoch w).1 pool e
  unfolding rewarded_world
  mint_inversion w e h =
      let (pool, found, later, same) = mint_start w e h in
      let steps = same ∙ emit_steps w pool in
      let d = (paid_of approvals w.state pool).distributed in
      let r = rewarded_world w pool in
      let (u, paid, rest) =
        bind_inversion (mint_distributed bank d)
          (λ _.
            record_epoch bank (emission_of w.state pool) (next_pool approvals w.state pool epoch))
          r (ap (λ (x : Result DailyEmission × World B). x.0) (sym steps) ∙ h) in
      (
        pool,
        rw (steps ∙ rest) (
            stored_epoch w pool e found later (mint_distributed bank d r).1
              (mint_distributed-state d r) (mint_distributed-BankMinted d r paid)
              (ap (λ (x : Result DailyEmission × World B). x.0) (sym (steps ∙ rest)) ∙ h)),
      )
