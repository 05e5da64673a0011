-- ===== src/Emissions/Mint/Credits.antt =====
-- What a mint credits to each contributor.
use wevibe_chain.Common.{
  ℕ, ◌+◌, ◌*◌, ◌≤◌, ◌≡◌, ap, ◌∙◌, some, List, [], ◌∷◌, Text, text_eq, text_eq→eq, uint64_max, add64,
  add64-eq-add, length, Bool-cases, inl, inr, eq_false_ne, if◌then◌else◌, arith, Result, ok,
}
use wevibe_chain.Common.Dict.{get, insert}
use wevibe_chain.Common.Dict.Laws.{amount, amount-le-total, get-insert_self, get-insert_ne}
use wevibe_chain.External.{BankKeeper}
use wevibe_chain.Emissions.Types.{State, DailyEmission, EmissionPool}
use wevibe_chain.Emissions.Keeper.{
  get_contributor_reward, add_contributor_reward, contrib_reward_key,
}
use wevibe_chain.Emissions.Mint.{World, add_rewards, mint_daily_emission}
use wevibe_chain.Emissions.Mint.Rewards.{credit, add_rewards-cons, reward_key-injective}
use wevibe_chain.Emissions.Mint.Inversion.{mint_inversion, addrs_of, paid_of, budget_of}
use wevibe_chain.Emissions.Mint.Conservation.{stored_sum-some}
use wevibe_chain.Emissions.Mint.Solvency.{
  IsSolvent, payout_distributed, budget_fits, emitted_within, supply_some,
}

-- How often the text stands in the list.
unfoldable pub copies : Text → List Text → ℕ
copies p [] = 0
copies p (a ∷ l) = (if text_eq p a then 1 else 0) + copies p l

reward-credit :
    (per : ℕ) (a p : Text) (s : State)
    → get_contributor_reward p s + per ≤ uint64_max
    → get_contributor_reward p (credit per a s)
      ≡ get_contributor_reward p s + (if text_eq p a then per else 0)
unfolding credit add_contributor_reward get_contributor_reward
reward-credit per a p s h =
    let k = contrib_reward_key a in
    let more = add64 (amount (get k s.rewards)) per in
    elim (Bool-cases (text_eq p a)) [
      | inl e ↦
          let same = text_eq→eq p a e in
          let at_p = ap (λ (q : Text). amount (get (contrib_reward_key q) s.rewards)) same in
          let read =
            ap (λ (q : Text). amount (get (contrib_reward_key q) (insert k more s.rewards))) same
            ∙ ap amount (get-insert_self k more s.rewards) in
          ground (arith, at_p, read, add64-eq-add (amount (get k s.rewards)) per)
      | inr e ↦
          let differs =
            λ (q : contrib_reward_key p ≡ k). eq_false_ne p a e (reward_key-injective p a q) in
          let read = ap amount (get-insert_ne (contrib_reward_key p) k more s.rewards differs) in
          ground (arith, read)
    ]

-- The loop credits a contributor once for each time that it is listed.
reward-add_rewards :
    (per : ℕ) (addrs : List Text) (p : Text) (s : State)
    → get_contributor_reward p s + per * length addrs ≤ uint64_max
    → get_contributor_reward p (add_rewards per addrs s).1
      ≡ get_contributor_reward p s + per * copies p addrs
unfolding add_rewards copies
reward-add_rewards per [] p s h = omega arith
reward-add_rewards per (a ∷ rest) p s h =
    rw (add_rewards-cons per a rest s) (elim (Bool-cases (text_eq p a)) [
      | inl e ↦
          let one = rw e at (reward-credit per a p s (omega arith)) in
          rw e (
            omega (arith, one, reward-add_rewards per rest p (credit per a s) (omega (arith, one))))
      | inr e ↦
          let none_more = rw e at (reward-credit per a p s (omega arith)) in
          rw e (
            omega (
              arith,
              none_more,
              reward-add_rewards per rest p (credit per a s) (omega (arith, none_more)),
            ))
    ])

module _ {B : Type 0} (bank : BankKeeper B) (approvals : Result (List (Text × ℕ))) (epoch : ℕ)
    (w : World B) (e : DailyEmission)
    (minted : (mint_daily_emission bank approvals epoch w).0 ≡ ok e) where
  -- A successful mint of a solvent world adds to the pending reward of each contributor the epoch's
  -- share, once for each time that the contributor is among those that qualify, so nothing where it
  -- is not.
  pub mint_credits :
      IsSolvent bank w
      → (p : Text)
      → (pool : EmissionPool) × (w.state.pool ≡ some pool)
        × (get_contributor_reward p (mint_daily_emission bank approvals epoch w).1.state
            ≡ get_contributor_reward p w.state
              + (paid_of approvals w.state pool).per_contributor
                * copies p (addrs_of approvals w.state pool))
  unfolding get_contributor_reward
  mint_credits v p =
      let (pool, m) = mint_inversion bank approvals epoch w e minted in
      let fits = rw (stored_sum-some w.state pool m.found) at v.fits in
      let per = (paid_of approvals w.state pool).per_contributor in
      let addrs = addrs_of approvals w.state pool in
      let whole =
        payout_distributed (budget_of approvals w.state pool) pool.contributor_rollover_uvibe
          (length addrs) (budget_fits approvals w.state pool fits) in
      let loop = reward-add_rewards per addrs p w.state (
        omega (
          arith,
          whole,
          emitted_within approvals w.state pool fits,
          amount-le-total (contrib_reward_key p) w.state.rewards,
          v.owed,
          supply_some w.state pool m.found,
        )) in
      (pool, m.found, ap (λ (d : _). amount (get (contrib_reward_key p) d)) m.rewarded ∙ loop)
