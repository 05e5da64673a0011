-- ===== src/Emissions/Mint/Rewards.antt =====
-- The loop that credits the contributors: what it leaves alone, and the sum that it adds.
use wevibe_chain.Common.{append_cancel_left, codes}
use wevibe_chain.Common.{
  ℕ, ◌+◌, ◌*◌, ◌≤◌, ◌≡◌, refl, List, [], ◌∷◌, Text, arith, uint64_max, add64, add64-eq-add, ltb,
  if◌then◌else◌, length, ok, Bool-cases, inl, inr,
}
use wevibe_chain.Common.Dict.{IsSorted, get}
use wevibe_chain.Common.Dict.Laws.{amount, total, total-insert, amount-le-total, insert-IsSorted}
use wevibe_chain.Emissions.Types.{State}
use wevibe_chain.Emissions.Keeper.{add_contributor_reward, contrib_reward_key}
use wevibe_chain.Emissions.Mint.{add_rewards}

-- All pending rewards.
abbrev pub pending : State → ℕ
pending s = total s.rewards

-- The loop succeeds and touches the pending and the lifetime rewards only.
pub record IsRewardOnly (s t : State) : Type 0 where
  pub params : t.params ≡ s.params
  pub pool : t.pool ≡ s.pool
  pub emissions : t.emissions ≡ s.emissions

pub add_rewards_ok : (per : ℕ) (addrs : List Text) (s : State) → (add_rewards per addrs s).0 ≡ ok tt
unfolding add_rewards
add_rewards_ok per [] s = refl
add_rewards_ok per (a ∷ rest) s = elim (Bool-cases (ltb 0 per)) [
  | inl e ↦ rw (e, add_rewards) (add_rewards_ok per rest _)
  | inr e ↦ rw (e, add_rewards) (add_rewards_ok per rest s)
]

pub add_contributor_reward-IsRewardOnly :
    (a : Text) (n : ℕ) (s : State) → IsRewardOnly s (add_contributor_reward a n s).1
unfolding add_contributor_reward
add_contributor_reward-IsRewardOnly a n s = ground arith

IsRewardOnly-trans : {s t u : State} → IsRewardOnly s t → IsRewardOnly t u → IsRewardOnly s u
IsRewardOnly-trans h k = ground arith

pub reward_key-injective : (a b : Text) → contrib_reward_key a ≡ contrib_reward_key b → a ≡ b
unfolding contrib_reward_key
reward_key-injective a b h = append_cancel_left (codes "contribreward/") h

-- One round of the loop: a credit, or nothing where there is nothing to credit.
unfoldable pub credit : ℕ → Text → State → State
credit per a s = if ltb 0 per then (add_contributor_reward a per s).1 else s

pub add_rewards-cons :
    (per : ℕ) (a : Text) (rest : List Text) (s : State)
    → add_rewards per (a ∷ rest) s ≡ add_rewards per rest (credit per a s)
unfolding add_rewards credit
add_rewards-cons per a rest s = elim (Bool-cases (ltb 0 per)) [
  | inl e ↦ rw (e, add_rewards)
  | inr e ↦ rw (e, add_rewards)
]

credit-IsRewardOnly : (per : ℕ) (a : Text) (s : State) → IsRewardOnly s (credit per a s)
unfolding credit
credit-IsRewardOnly per a s = elim (Bool-cases (ltb 0 per)) [
  | inl e ↦ rw e (add_contributor_reward-IsRewardOnly a per s)
  | inr e ↦ rw e (record { params = refl; pool = refl; emissions = refl })
]

pub add_rewards-IsRewardOnly :
    (per : ℕ) (addrs : List Text) (s : State) → IsRewardOnly s (add_rewards per addrs s).1
unfolding add_rewards
add_rewards-IsRewardOnly per [] s = ground arith
add_rewards-IsRewardOnly per (a ∷ rest) s = rw (add_rewards-cons per a rest s) (
    IsRewardOnly-trans (credit-IsRewardOnly per a s)
      (add_rewards-IsRewardOnly per rest (credit per a s)))

-- One credit adds its amount to the sum of the pending rewards, where that fits.
pub pending-add_contributor_reward :
    (a : Text) (n : ℕ) (s : State)
    → IsSorted s.rewards
    → pending s + n ≤ uint64_max
    → pending (add_contributor_reward a n s).1 ≡ pending s + n
unfolding add_contributor_reward
pending-add_contributor_reward a n s sorted fits =
    let k = contrib_reward_key a in
    let old = amount (get k s.rewards) in
    let small : old ≤ pending s = amount-le-total k s.rewards in
    omega (arith, add64-eq-add old n (omega arith), total-insert k (add64 old n) s.rewards sorted)

credit-IsSorted :
    (per : ℕ) (a : Text) (s : State) → IsSorted s.rewards → IsSorted (credit per a s).rewards
unfolding credit add_contributor_reward
credit-IsSorted per a s h = elim (Bool-cases (ltb 0 per)) [
  | inl e ↦ rw e (insert-IsSorted _ _ s.rewards h)
  | inr e ↦ rw e h
]

pending-credit :
    (per : ℕ) (a : Text) (s : State)
    → IsSorted s.rewards
    → pending s + per ≤ uint64_max
    → pending (credit per a s) ≡ pending s + per
unfolding credit
pending-credit per a s sorted fits =
    ground (arith, pending-add_contributor_reward a per s sorted fits)

pub add_rewards-IsSorted :
    (per : ℕ) (addrs : List Text) (s : State)
    → IsSorted s.rewards
    → IsSorted (add_rewards per addrs s).1.rewards
unfolding add_rewards
add_rewards-IsSorted per [] s h = h
add_rewards-IsSorted per (a ∷ rest) s h =
    rw (add_rewards-cons per a rest s)
      (add_rewards-IsSorted per rest (credit per a s) (credit-IsSorted per a s h))

-- The whole loop adds its amount once for each contributor.
pub pending-add_rewards :
    (per : ℕ) (addrs : List Text) (s : State)
    → IsSorted s.rewards
    → pending s + per * length addrs ≤ uint64_max
    → pending (add_rewards per addrs s).1 ≡ pending s + per * length addrs
unfolding add_rewards
pending-add_rewards per [] s sorted fits = omega arith
pending-add_rewards per (a ∷ rest) s sorted fits = rw (add_rewards-cons per a rest s) (
    omega (
      arith,
      pending-credit per a s sorted (omega arith),
      pending-add_rewards per rest (credit per a s) (credit-IsSorted per a s sorted)
          (omega (arith, pending-credit per a s sorted (omega arith))),
    ))
