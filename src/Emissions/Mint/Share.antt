-- ===== src/Emissions/Mint/Share.antt =====
-- What an epoch's mint takes from the two pools and pays, by an independent description of the
-- schedule: the largest equal parts of what is left.
use wevibe_chain.Common.{
  ℕ, zero, suc, ◌+◌, ◌-◌, ◌*◌, ◌/◌, ◌%◌, ◌≤◌, ◌<◌, ◌≡◌, ◌⊎◌, refl, sym, ap, ◌∙◌, arith, uint64_max,
  add64, mul64, add64-eq-add, add64-le-max, inl, inr,
}
use native.Mathlib.Nat.{div-add-mod', mod-lt, div-le_self, mul-le-mul_right, le_trans}
use wevibe_chain.Emissions.Types.{Params, EmissionPool, DailyEmission, epochs_per_year}
use wevibe_chain.Emissions.Mint.{
  remaining_epochs, validator_emission, contributor_budget, capped, payout, advance_pool,
}
use wevibe_chain.Emissions.Mint.Bounds.{
  validator_emission_le, contributor_budget_le, payout_adds_up, pool_sum,
}

-- The epochs that the schedule has left, and 1 from its end on.
abbrev pub epochs_left : Params → EmissionPool → ℕ
epochs_left p pool = suc (p.schedule_duration_days - pool.total_epochs_elapsed - 1)

abbrev pub epoch_cap : Params → ℕ
epoch_cap p = p.contributor_annual_cap_uvibe / epochs_per_year

-- What an epoch with so many contributors to pay takes from the pool, emits and leaves.
pub record IsScheduled (p : Params) (pool next : EmissionPool) (contributors : ℕ)
    (em : DailyEmission) : Type 0 where
  -- The validators' share is the largest that the pool has for each of the epochs left.
  pub share_taken :
      em.validator_share + next.validator_pool_remaining_uvibe ≡ pool.validator_pool_remaining_uvibe
  pub share_low : em.validator_share * epochs_left p pool ≤ pool.validator_pool_remaining_uvibe
  pub share_high : pool.validator_pool_remaining_uvibe < suc em.validator_share * epochs_left p pool
  -- So is the contributors' budget, below the cap, where there is one.
  pub budget : ℕ
  pub budget_taken :
      budget + next.contributor_pool_remaining_uvibe ≡ pool.contributor_pool_remaining_uvibe
  pub budget_low : budget * epochs_left p pool ≤ pool.contributor_pool_remaining_uvibe
  pub budget_high :
      (pool.contributor_pool_remaining_uvibe < suc budget * epochs_left p pool)
      ⊎ ((0 < epoch_cap p) × (budget ≡ epoch_cap p))
  pub budget_capped : (epoch_cap p ≡ 0) ⊎ (budget ≤ epoch_cap p)
  -- The budget with the last rollover is paid in equal parts, as large as possible, and the rest
  -- is carried over.
  pub paid : ℕ
  pub emitted : em.total_emitted ≡ em.validator_share + paid
  pub carried : paid + next.contributor_rollover_uvibe ≡ budget + pool.contributor_rollover_uvibe
  pub divided :
      ((contributors ≡ 0) × (paid ≡ 0))
      ⊎ ((part : ℕ) × (paid ≡ part * contributors)
          × (next.contributor_rollover_uvibe < contributors))

remaining-epochs_left :
    (p : Params) (pool : EmissionPool) → remaining_epochs p pool ≡ epochs_left p pool
unfolding remaining_epochs
remaining-epochs_left p pool = ground arith

validator_emission-eq :
    (p : Params) (pool : EmissionPool)
    → validator_emission p pool ≡ pool.validator_pool_remaining_uvibe / epochs_left p pool
unfolding validator_emission
validator_emission-eq p pool =
    let left = pool.validator_pool_remaining_uvibe in
    ground (
      arith,
      remaining-epochs_left p pool,
      ap (left /◌) (remaining-epochs_left p pool),
      div-le_self left (epochs_left p pool),
    )

part_low : (n d : ℕ) → n / suc d * suc d ≤ n
part_low n d = let e = div-add-mod' n (suc d) in omega (arith, e)

part_high : (n d : ℕ) → n < suc (n / suc d) * suc d
part_high n d =
    let e = div-add-mod' n (suc d) in
    let small : n % suc d < suc d = mod-lt n (omega arith) in omega (arith, e, small)

contributor_budget-eq :
    (p : Params) (pool : EmissionPool)
    → contributor_budget p pool
      ≡ capped (epoch_cap p) (pool.contributor_pool_remaining_uvibe / epochs_left p pool)
unfolding contributor_budget capped
contributor_budget-eq p pool =
    let left = pool.contributor_pool_remaining_uvibe in
    ground (
      arith,
      remaining-epochs_left p pool,
      ap (left /◌) (remaining-epochs_left p pool),
      div-le_self left (epochs_left p pool),
    )

capped_cases :
    (cap n : ℕ)
    → ((capped cap n ≡ n) × ((cap ≡ 0) ⊎ (n ≤ cap)))
      ⊎ ((capped cap n ≡ cap) × (0 < cap) × (cap ≤ n))
unfolding capped
capped_cases cap n = ground arith

mul64-eq-mul : (a b : ℕ) → a * b ≤ uint64_max → mul64 a b ≡ a * b
unfolding mul64
mul64-eq-mul a b h = omega arith

-- The payout is in equal parts, and less than one part for each is carried over.
payout_divided :
    (budget rollover n : ℕ)
    → budget + rollover ≤ uint64_max
    → ((n ≡ 0) × ((payout budget rollover n).distributed ≡ 0))
      ⊎ ((part : ℕ) × ((payout budget rollover n).distributed ≡ part * n)
          × ((payout budget rollover n).rollover < n))
unfolding payout
payout_divided budget rollover zero h = inl (refl, refl)
payout_divided budget rollover (suc n) h =
    let total = add64 budget rollover in
    let e = div-add-mod' total (suc n) in
    let fits = add64-le-max budget rollover in
    let small : total % suc n < suc n = mod-lt total (omega arith) in
    inr (total / suc n, mul64-eq-mul (total / suc n) (suc n) (omega (arith, e, fits)), small)

module _ (p : Params) (pool : EmissionPool) (epoch n : ℕ) (fits : pool_sum pool ≤ uint64_max) where
  share : ℕ
  share = validator_emission p pool

  budget : ℕ
  budget = contributor_budget p pool

  distributed : ℕ
  distributed = (payout budget pool.contributor_rollover_uvibe n).distributed

  rollover : ℕ
  rollover = (payout budget pool.contributor_rollover_uvibe n).rollover

  budget_low_lem : budget * epochs_left p pool ≤ pool.contributor_pool_remaining_uvibe
  unfolding budget
  budget_low_lem =
      let left = pool.contributor_pool_remaining_uvibe in
      let q = left / epochs_left p pool in
      let low = part_low left (p.schedule_duration_days - pool.total_epochs_elapsed - 1) in
      elim (capped_cases (epoch_cap p) q) [
        | inl (same, c) ↦ rw (contributor_budget-eq p pool, same) low
        | inr (cap, pos, below) ↦
            rw (contributor_budget-eq p pool, cap)
              (le_trans (mul-le-mul_right (epochs_left p pool) below) low)
      ]

  budget_high_lem :
      (pool.contributor_pool_remaining_uvibe < suc budget * epochs_left p pool)
      ⊎ ((0 < epoch_cap p) × (budget ≡ epoch_cap p))
  unfolding budget
  budget_high_lem =
      let left = pool.contributor_pool_remaining_uvibe in
      elim (capped_cases (epoch_cap p) (left / epochs_left p pool)) [
        | inl (same, c) ↦ inl (
            rw (contributor_budget-eq p pool, same)
              (part_high left (p.schedule_duration_days - pool.total_epochs_elapsed - 1)))
        | inr (cap, pos, below) ↦ inr (pos, contributor_budget-eq p pool ∙ cap)
      ]

  budget_capped_lem : (epoch_cap p ≡ 0) ⊎ (budget ≤ epoch_cap p)
  unfolding budget
  budget_capped_lem =
      let left = pool.contributor_pool_remaining_uvibe in
      elim (capped_cases (epoch_cap p) (left / epochs_left p pool)) [
        | inl (same, inl none) ↦ inl none
        | inl (same, inr below) ↦ inr (rw (contributor_budget-eq p pool, same) below)
        | inr (cap, pos, below) ↦ inr (omega (arith, contributor_budget-eq p pool, cap))
      ]

  pub scheduled :
      (em : DailyEmission)
      → em.validator_share ≡ validator_emission p pool
      → em.total_emitted
        ≡ add64
            (validator_emission p pool)
            (payout (contributor_budget p pool) pool.contributor_rollover_uvibe n).distributed
      → IsScheduled p pool
          (advance_pool epoch
            (validator_emission p pool)
            (contributor_budget p pool)
            (payout (contributor_budget p pool) pool.contributor_rollover_uvibe n).rollover
            em.total_emitted
            pool)
          n
          em
  unfolding share budget distributed rollover advance_pool pool_sum
  scheduled em v t =
      let hv = validator_emission_le p pool in
      let hb = contributor_budget_le p pool in
      let left = pool.validator_pool_remaining_uvibe in
      let d = p.schedule_duration_days - pool.total_epochs_elapsed - 1 in
      let sums =
        payout_adds_up (contributor_budget p pool) pool.contributor_rollover_uvibe n
          (omega (arith, hb, fits)) in
      record {
        share_taken = omega (arith, v, hv);
        share_low = rw (v, validator_emission-eq p pool) (part_low left d);
        share_high = rw (v, validator_emission-eq p pool) (part_high left d);
        budget = contributor_budget p pool;
        budget_taken = omega (arith, hb);
        budget_low = budget_low_lem;
        budget_high = budget_high_lem;
        budget_capped = budget_capped_lem;
        paid = (payout (contributor_budget p pool) pool.contributor_rollover_uvibe n).distributed;
        emitted =
            t
            ∙ add64-eq-add _ _ (omega (arith, hv, hb, sums, fits))
            ∙ ap
                (◌+
                  (payout (contributor_budget p pool) pool.contributor_rollover_uvibe
                    n).distributed)
                (sym v);
        carried = sums;
        divided =
            payout_divided (contributor_budget p pool) pool.contributor_rollover_uvibe n
              (omega (arith, hb, fits));
      }
