-- ===== src/Emissions/Mint/Conservation.antt =====
-- The emission pool under MintDailyEmission: nothing is lost, and no epoch is emitted twice.
use wevibe_chain.Common.{
  ℕ, ◌≤◌, ◌≡◌, ◌≢◌, refl, sym, ap, ◌∙◌, none, some, List, Text, codes, arith, uint64_max, Result,
  ok, err, Error, append_cancel_left,
}
use wevibe_chain.Common.Decimal.{format_uint-injective}
use wevibe_chain.Common.Dict.{get}
use wevibe_chain.Common.Dict.Laws.{get-insert_self, get-insert_ne}
use wevibe_chain.External.{BankKeeper}
use wevibe_chain.Emissions.Types.{State, EmissionPool, DailyEmission}
use wevibe_chain.Emissions.Keeper.{get_params, emission_key, get_daily_emission}
use wevibe_chain.Emissions.Mint.{World, advance_pool, mint_daily_emission}
use wevibe_chain.Emissions.Mint.Bounds.{
  validator_emission_le, contributor_budget_le, payout_adds_up, pool_sum, pool_sum-advance,
}
use wevibe_chain.Emissions.Mint.Inversion.{
  mint_inversion, validators_of, budget_of, paid_of, next_pool, emission_of,
}

-- Emitted so far, and still to emit.
unfoldable pub stored_sum : State → ℕ
unfolding pool_sum
stored_sum s = elim s.pool [ none ↦ 0 | some p ↦ pool_sum p ]

pub stored_sum-some : (s : State) (p : EmissionPool) → s.pool ≡ some p → stored_sum s ≡ pool_sum p
unfolding stored_sum
stored_sum-some s p h = rw (h, stored_sum)

pub stored_sum_pool : (s t : State) → t.pool ≡ s.pool → stored_sum t ≡ stored_sum s
unfolding stored_sum
stored_sum_pool s t h = rw (h, stored_sum)

pub pool_sum-next :
    (approvals : Result (List (Text × ℕ))) (s : State) (pool : EmissionPool) (epoch : ℕ)
    → pool_sum pool ≤ uint64_max
    → pool_sum (next_pool approvals s pool epoch) ≡ pool_sum pool
unfolding pool_sum
pool_sum-next approvals s pool epoch h =
    let params = get_params s in
    let hv = validator_emission_le params pool in
    let hb = contributor_budget_le params pool in
    pool_sum-advance epoch (validators_of approvals s pool) (budget_of approvals s pool)
      (paid_of approvals s pool).rollover (paid_of approvals s pool).distributed pool hv hb
      (payout_adds_up (budget_of approvals s pool) pool.contributor_rollover_uvibe _ (omega arith))
      h

-- An epoch that is not later than the pool's is refused, and nothing changes.
mint_refused :
    {B : Type 0} (bank : BankKeeper B) (approvals : Result (List (Text × ℕ))) (epoch : ℕ)
    (w : World B) (pool : EmissionPool)
    → w.state.pool ≡ some pool
    → epoch ≤ pool.epoch
    → mint_daily_emission bank approvals epoch w ≡ (err Error.epoch_not_greater, w)
unfolding mint_daily_emission
mint_refused bank approvals epoch w pool found h = ground arith

next_pool-epoch :
    (approvals : Result (List (Text × ℕ))) (s : State) (pool : EmissionPool) (epoch : ℕ)
    → (next_pool approvals s pool epoch).epoch ≡ epoch
unfolding advance_pool
next_pool-epoch approvals s pool epoch = refl

emission_key-injective : (m n : ℕ) → emission_key m ≡ emission_key n → m ≡ n
unfolding emission_key
emission_key-injective m n h = format_uint-injective m n (append_cancel_left (codes "emission/") h)

daily_emission_found :
    (epoch : ℕ) (s : State) (e : DailyEmission)
    → get (emission_key epoch) s.emissions ≡ some e
    → (get_daily_emission epoch s).0 ≡ ok e
unfolding get_daily_emission
daily_emission_found epoch s e h = rw h

daily_emission_same :
    (epoch : ℕ) (s t : State)
    → get (emission_key epoch) t.emissions ≡ get (emission_key epoch) s.emissions
    → (get_daily_emission epoch t).0 ≡ (get_daily_emission epoch s).0
unfolding get_daily_emission
daily_emission_same epoch s t h = ground arith

module _ {B : Type 0} (bank : BankKeeper B) (approvals : Result (List (Text × ℕ))) (epoch : ℕ)
    (w : World B) (e : DailyEmission)
    (minted : (mint_daily_emission bank approvals epoch w).0 ≡ ok e) where
  -- Where a mint succeeds and the sum of the supply counter, the two pools and the rollover fits
  -- in 64 bits, the mint leaves that sum as it was: what leaves a pool is emitted or carried over.
  pub mint_conserves :
      stored_sum w.state ≤ uint64_max
      → stored_sum (mint_daily_emission bank approvals epoch w).1.state ≡ stored_sum w.state
  mint_conserves h =
      let (pool, m) = mint_inversion bank approvals epoch w e minted in
      let before = stored_sum-some w.state pool m.found in
      stored_sum-some _ _ m.stored
      ∙ pool_sum-next approvals w.state pool epoch (rw before at h)
      ∙ sym before

  -- After a successful mint every mint for that epoch or an earlier one is refused, and changes
  -- nothing.
  pub mint_once :
      (approvals' : Result (List (Text × ℕ))) (earlier : ℕ)
      → earlier ≤ epoch
      → let w' = (mint_daily_emission bank approvals epoch w).1 in
        mint_daily_emission bank approvals' earlier w' ≡ (err Error.epoch_not_greater, w')
  mint_once approvals' earlier h =
      let (pool, m) = mint_inversion bank approvals epoch w e minted in
      mint_refused bank approvals' earlier _ _ m.stored
        (omega (arith, next_pool-epoch approvals w.state pool epoch))

  -- After a successful mint the epoch's emission is read back as returned, and that of every other
  -- epoch as before.
  pub mint_readable :
      let w' = (mint_daily_emission bank approvals epoch w).1 in
      ((get_daily_emission epoch w'.state).0 ≡ ok e)
      × ((other : ℕ)
          → other ≢ epoch
          → (get_daily_emission other w'.state).0 ≡ (get_daily_emission other w.state).0)
  mint_readable =
      let (pool, m) = mint_inversion bank approvals epoch w e minted in
      let key = emission_key epoch in
      let record_of = emission_of bank approvals epoch w.state pool in
      (
        daily_emission_found epoch _ e (
            ap (get key) m.listed
            ∙ get-insert_self key record_of w.state.emissions
            ∙ ap some (sym m.emitted)),
        λ other ne. daily_emission_same other w.state _ (
            ap (get (emission_key other)) m.listed
            ∙ get-insert_ne (emission_key other) key record_of w.state.emissions
                (λ same. ne (emission_key-injective other epoch same))),
      )
