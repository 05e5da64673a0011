-- ===== src/Emissions/Mint.antt =====
-- MintDailyEmission of x/emissions/keeper/keeper.go, with the hook that runs it at an epoch's end
-- (epoch_hooks.go). The bank's state travels beside the module's own.
pub mod Bounds
pub mod Rewards
pub mod Inversion
pub mod Conservation
pub mod Solvency
pub mod Share
pub mod Schedule
pub mod Credits
use wevibe_chain.Common.{
  ℕ, zero, suc, ◌-◌, ◌/◌, ◌%◌, ◌&&◌, not, List, [], ◌∷◌, Text, codes, is_empty, text_eq, text_lt,
  ltb, leb, ◌==◌, if◌then◌else◌, add64, mul64, length, Result, ok, err, Error, Action, pure, gets,
  raise_if, modify, ◌>>=◌, ◌>>◌,
}
use wevibe_chain.Common.Dict.{insert}
use wevibe_chain.External.{BankKeeper}
use wevibe_chain.Emissions.Types.{State, Params, EmissionPool, DailyEmission, epochs_per_year}
use wevibe_chain.Emissions.Keeper.{
  get_params, get_emission_pool, set_emission_pool, add_contributor_reward, emission_key,
}

-- The module's store and the bank's.
pub record World (B : Type 0) : Type 0 where
  pub state : State
  pub bank : B

abbrev pub emissions_module : Text
emissions_module = codes "emissions"

abbrev pub wevibe_epoch_identifier : Text
wevibe_epoch_identifier = codes "wevibe_epoch"

-- A call of the keeper leaves the bank alone.
unfoldable pub on_state : {B A : Type 0} → Action State A → Action (World B) A
on_state act w = let (r, s) = act w.state in (r, record w { state = s })

-- A call of the bank: a refusal changes nothing.
unfoldable pub on_bank : {B : Type 0} → (B → Result B) → Action (World B) (Unit {0})
on_bank call w = elim (call w.bank) [ ok b ↦ (ok tt, record w { bank = b }) | err e ↦ (err e, w) ]

unfoldable pub remaining_epochs : Params → EmissionPool → ℕ
remaining_epochs p pool =
    if ltb pool.total_epochs_elapsed p.schedule_duration_days
    then p.schedule_duration_days - pool.total_epochs_elapsed
    else 1

unfoldable pub validator_emission : Params → EmissionPool → ℕ
unfolding remaining_epochs
validator_emission p pool =
    let left = pool.validator_pool_remaining_uvibe in
    let share = left / remaining_epochs p pool in
    if ltb 0 left then (if ltb left share then left else share) else 0

-- The annual cap, spread over the epochs, bounds the budget; a cap of 0 is no cap.
unfoldable pub capped : ℕ → ℕ → ℕ
capped epoch_cap budget = if ltb 0 epoch_cap && ltb epoch_cap budget then epoch_cap else budget

unfoldable pub contributor_budget : Params → EmissionPool → ℕ
unfolding remaining_epochs capped
contributor_budget p pool =
    let left = pool.contributor_pool_remaining_uvibe in
    let epoch_cap = p.contributor_annual_cap_uvibe / epochs_per_year in
    let budget = capped epoch_cap (left / remaining_epochs p pool) in
    if ltb 0 left then (if ltb left budget then left else budget) else 0

-- The contributors with a key and enough approvals, from the map in any order.
unfoldable pub qualifying : ℕ → List (Text × ℕ) → List Text
qualifying threshold [] = []
qualifying threshold ((addr, count) ∷ rest) =
    if not (is_empty addr) && leb threshold count
    then addr ∷ qualifying threshold rest
    else qualifying threshold rest

-- sort.Strings
unfoldable pub insert_sorted : Text → List Text → List Text
insert_sorted a [] = a ∷ []
insert_sorted a (b ∷ rest) = if text_lt b a then b ∷ insert_sorted a rest else a ∷ (b ∷ rest)

unfoldable pub sort_strings : List Text → List Text
unfolding insert_sorted
sort_strings [] = []
sort_strings (a ∷ rest) = insert_sorted a (sort_strings rest)

-- What an epoch pays to the `n` qualifying contributors.
pub record Payout : Type 0 where
  pub per_contributor : ℕ
  pub distributed : ℕ
  pub rollover : ℕ

unfoldable pub payout : ℕ → ℕ → ℕ → Payout
payout budget rollover zero = record {
  per_contributor = 0;
  distributed = 0;
  rollover = add64 rollover budget;
}
payout budget rollover (suc n) =
    let total = add64 budget rollover in
    let per = total / suc n in
    record { per_contributor = per; distributed = mul64 per (suc n); rollover = total % suc n }

-- The loop over the qualifying contributors.
unfoldable pub add_rewards : ℕ → List Text → Action State (Unit {0})
unfolding add_contributor_reward
add_rewards per [] s = (ok tt, s)
add_rewards per (addr ∷ rest) s =
    let rewarded = (if ltb 0 per then add_contributor_reward addr per else pure tt) in
    (rewarded >> add_rewards per rest) s

unfoldable pub store_emission : DailyEmission → Action State (Unit {0})
store_emission e =
    modify (λ s. record s { emissions = insert (emission_key e.epoch) e s.emissions })

-- The pool after the epoch.
unfoldable pub advance_pool : ℕ → ℕ → ℕ → ℕ → ℕ → EmissionPool → EmissionPool
advance_pool epoch validators budget rollover emitted pool =
    let elapsed = pool.total_epochs_elapsed in
    record pool {
      total_supply = add64 pool.total_supply emitted;
      epoch = epoch;
      validator_pool_remaining_uvibe = pool.validator_pool_remaining_uvibe - validators;
      contributor_pool_remaining_uvibe = pool.contributor_pool_remaining_uvibe - budget;
      contributor_rollover_uvibe = rollover;
      start_epoch = if pool.start_epoch == 0 && elapsed == 0 then epoch else pool.start_epoch;
      total_epochs_elapsed = add64 elapsed 1;
    }

-- A failed query of the approvals counts as no approvals.
abbrev pub approvals_or_none : Result (List (Text × ℕ)) → List (Text × ℕ)
approvals_or_none (ok counts) = counts
approvals_or_none (err e) = []

module _ {B : Type 0} (bank : BankKeeper B) where
  -- Mints to the module account, if there is anything to mint.
  unfoldable pub mint_distributed : ℕ → Action (World B) (Unit {0})
  unfolding on_bank
  mint_distributed n = if ltb 0 n then on_bank (bank.mint_coins emissions_module n) else pure tt

  -- The end of the call: the epoch's record and the pool are stored.
  unfoldable pub record_epoch : DailyEmission → EmissionPool → Action (World B) DailyEmission
  unfolding on_state store_emission set_emission_pool
  record_epoch emission pool = do
    on_state (store_emission emission)
    on_state (set_emission_pool pool)
    pure emission

  -- The call from where the pool and the parameters are read.
  unfoldable pub emit_epoch :
      Result (List (Text × ℕ)) → ℕ → Params → EmissionPool → Action (World B) DailyEmission
  unfolding mint_distributed on_state record_epoch
  emit_epoch approvals epoch params pool =
      let validators = validator_emission params pool in
      let budget = contributor_budget params pool in
      let addrs =
        sort_strings
          (qualifying params.contributor_qualify_threshold (approvals_or_none approvals)) in
      let paid = payout budget pool.contributor_rollover_uvibe (length addrs) in
      let emitted = add64 validators paid.distributed in
      let emission : DailyEmission = record {
        epoch = epoch;
        total_emitted = emitted;
        validator_share = validators;
      } in
      do
        on_state (add_rewards paid.per_contributor addrs)
        mint_distributed paid.distributed
        record_epoch emission (advance_pool epoch validators budget paid.rollover emitted pool)

  -- `approvals` is the answer of the memory keeper for the epoch.
  unfoldable pub mint_daily_emission : Result (List (Text × ℕ)) → ℕ → Action (World B) DailyEmission
  unfolding on_state get_emission_pool
  mint_daily_emission approvals epoch = do
    pool ← on_state get_emission_pool
    raise_if (leb epoch pool.epoch) Error.epoch_not_greater
    params ← on_state (gets get_params)
    emit_epoch approvals epoch params pool

  -- AfterEpochEnd: an error of the mint is logged and dropped. The epoch number is an int64 that
  -- is converted to uint64; it is taken as the converted number here.
  unfoldable pub after_epoch_end : Result (List (Text × ℕ)) → Text → ℕ → Action (World B) (Unit {0})
  unfolding mint_daily_emission
  after_epoch_end approvals identifier epoch w =
      if text_eq identifier wevibe_epoch_identifier
      then (ok tt, (mint_daily_emission approvals epoch w).1)
      else (ok tt, w)
