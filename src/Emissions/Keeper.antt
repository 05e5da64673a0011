-- ===== src/Emissions/Keeper.antt =====
-- x/emissions/keeper/keeper.go: keys, getters and setters, rewards, gates and bootstrap credits.
-- The store service of the chain returns no error, and a stored value decodes to what was encoded.
use wevibe_chain.Common.{
  ℕ, ◌++◌, ◌∷◌, Bool, true, Option, none, some, Text, codes, ltb, ◌==◌, add64, sub64, Error, Action,
  raise, gets, or_raise, lift, modify, raise_if, ◌>>=◌, ◌>>◌,
}
use wevibe_chain.Common.Decimal.{format_uint}
use wevibe_chain.Common.Dict.{get, insert}
use wevibe_chain.Common.Dict.Laws.{amount}
use wevibe_chain.Emissions.Types.{
  State, Params, default_params, EmissionPool, validate_pool, DailyEmission, BootstrapCredit,
  AsymmetricGate, new_bootstrap_credit, new_asymmetric_gate, redeem,
}

unfoldable pub emission_key : ℕ → Text
emission_key epoch = codes "emission/" ++ format_uint epoch

unfoldable pub gate_key : Text → Text → ℕ → Text
gate_key operator org epoch =
    codes "gate/" ++ (operator ++ (47 ∷ (org ++ (47 ∷ format_uint epoch))))

unfoldable pub bootstrap_key : Text → Text
bootstrap_key operator = codes "bootstrap/" ++ operator

unfoldable pub contrib_reward_key : Text → Text
contrib_reward_key addr = codes "contribreward/" ++ addr

unfoldable pub lifetime_reward_key : Text → Text
lifetime_reward_key addr = codes "lifetimereward/" ++ addr

unfoldable pub set_params : Params → Action State (Unit {0})
set_params p = modify (λ s. record s { params = some p })

unfoldable pub get_params : State → Params
get_params s = elim s.params [ none ↦ default_params | some p ↦ p ]

unfoldable pub get_emission_pool : Action State EmissionPool
get_emission_pool s = or_raise s.pool Error.no_emission_pool s

-- SetEmissionPool
unfoldable pub set_emission_pool : EmissionPool → Action State (Unit {0})
unfolding validate_pool
set_emission_pool p = do lift (validate_pool p); modify (λ s. record s { pool = some p })

-- A stored number, 0 where the key is missing.
unfoldable pub get_contributor_reward : Text → State → ℕ
get_contributor_reward addr s = amount (get (contrib_reward_key addr) s.rewards)

unfoldable pub get_lifetime_contributor_reward : Text → State → ℕ
get_lifetime_contributor_reward addr s = amount (get (lifetime_reward_key addr) s.lifetimes)

unfoldable pub set_contributor_reward : Text → ℕ → Action State (Unit {0})
set_contributor_reward addr n =
    modify (λ s. record s { rewards = insert (contrib_reward_key addr) n s.rewards })

-- AddContributorReward: the pending and the lifetime amount.
unfoldable pub add_contributor_reward : Text → ℕ → Action State (Unit {0})
unfolding get_contributor_reward get_lifetime_contributor_reward
add_contributor_reward addr n = do
  modify (λ s. record s {
    rewards = insert (contrib_reward_key addr) (add64 (get_contributor_reward addr s) n) s.rewards;
  })
  modify (λ s. record s {
    lifetimes =
        insert (lifetime_reward_key addr) (add64 (get_lifetime_contributor_reward addr s) n)
          s.lifetimes;
  })

unfoldable pub get_daily_emission : ℕ → Action State DailyEmission
get_daily_emission epoch s =
    or_raise (get (emission_key epoch) s.emissions) Error.daily_emission_not_found s

unfoldable pub set_avg_retrieval_volume : ℕ → Action State (Unit {0})
set_avg_retrieval_volume avg = modify (λ s. record s { avg_retrieval_volume = some avg })

-- SetAsymmetricGate; `none` is the nil pointer.
unfoldable pub set_asymmetric_gate : Option AsymmetricGate → Action State (Unit {0})
set_asymmetric_gate none = raise Error.invalid_asymmetric_gate
set_asymmetric_gate (some g) =
    modify (λ s. record s { gates = insert (gate_key g.operator_id g.org_id g.epoch) g s.gates })

unfoldable pub get_asymmetric_gate : Text → Text → ℕ → State → AsymmetricGate
get_asymmetric_gate operator org epoch s = elim (get (gate_key operator org epoch) s.gates) [
  | none ↦ new_asymmetric_gate operator org true epoch
  | some g ↦ g
]

unfoldable pub check_retrieval_allowed : Text → Text → ℕ → State → Bool
unfolding get_asymmetric_gate
check_retrieval_allowed operator org epoch s =
    (get_asymmetric_gate operator org epoch s).retrieval_allowed

unfoldable pub set_bootstrap_credits : ℕ → Action State (Unit {0})
set_bootstrap_credits n = modify (λ s. record s { bootstrap_pool = some n })

unfoldable pub get_bootstrap_credits : Action State ℕ
get_bootstrap_credits s = or_raise s.bootstrap_pool Error.no_bootstrap_pool s

unfoldable pub get_bootstrap_credit : Text → State → BootstrapCredit
get_bootstrap_credit operator s = elim (get (bootstrap_key operator) s.credits) [
  | none ↦ new_bootstrap_credit operator 0
  | some c ↦ c
]

unfoldable pub add_bootstrap_credit : Text → ℕ → Action State (Unit {0})
add_bootstrap_credit operator n = modify λ s.
    let credit : BootstrapCredit = elim (get (bootstrap_key operator) s.credits) [
      | none ↦ new_bootstrap_credit operator n
      | some c ↦ record c { credits = add64 c.credits n }
    ] in
    record s { credits = insert (bootstrap_key operator) credit s.credits }

unfoldable pub set_bootstrap_expiry : ℕ → Action State (Unit {0})
set_bootstrap_expiry n = modify (λ s. record s { bootstrap_expiry = some n })

unfoldable pub bootstrap_expiry_of : State → ℕ
bootstrap_expiry_of s = amount s.bootstrap_expiry

unfoldable pub is_bootstrap_expired : ℕ → State → Bool
unfolding bootstrap_expiry_of
is_bootstrap_expired epoch s = ltb (bootstrap_expiry_of s) epoch

-- RedeemBootstrapCredit. A missing bootstrap pool reads as 0, since the error is dropped.
unfoldable pub redeem_bootstrap_credit : Text → ℕ → Action State (Unit {0})
redeem_bootstrap_credit operator n = do
  expiry ← gets bootstrap_expiry_of
  raise_if (expiry == 0) Error.bootstrap_expired
  credit ← gets (get_bootstrap_credit operator)
  credit' ← lift (redeem credit n)
  modify (λ s. record s { credits = insert (bootstrap_key operator) credit' s.credits })
  modify (λ s. record s { bootstrap_pool = some (sub64 (amount s.bootstrap_pool) n) })
