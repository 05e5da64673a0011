-- ===== src/Emissions/History.antt =====
-- A history of the emissions messages. The chain runs each message on a branch of the store and of
-- the bank, and drops the branch where the message fails.
use wevibe_chain.Common.{
  ℕ, ◌≡◌, refl, ap, List, [], ◌∷◌, Text, Result, ok, err, arith, Result-cases, inl, inr,
}
use wevibe_chain.Common.{◌<◌, text_eq→eq}
use wevibe_chain.Common.Dict.Laws.{total}
use wevibe_chain.External.{Sdk, BankKeeper}
use wevibe_chain.Identity.Types
use wevibe_chain.Emissions.Types.{DailyEmission}
use wevibe_chain.Emissions.Mint.{World, emissions_module, on_state, mint_daily_emission}
use wevibe_chain.Emissions.Mint.Solvency.{IsSolvent, mint-IsSolvent, supply_pool}
use wevibe_chain.Emissions.Mint.Conservation.{stored_sum_pool}
use wevibe_chain.Emissions.MsgServer.{
  MsgMintDailyEmission, MsgUpdateParams, MsgClaimContributorReward, MintResponse, mint_message,
  update_params, claim_contributor_reward,
}
use wevibe_chain.Emissions.Claims.{claim-IsSolvent}

-- The messages of the module. A mint comes with the memory keeper's answer, a claim with the
-- identity module's state at that time.
pub data Msg : Type 0 where
  mint : Result (List (Text × ℕ)) → MsgMintDailyEmission → Msg
  update : MsgUpdateParams → Msg
  claim : Types.State → MsgClaimContributorReward → Msg

-- The state after a message: the one before it where the message failed.
abbrev pub committed : {A W : Type 0} → W → Result A × W → W
committed w (ok a, w') = w'
committed w (err e, w') = w

module _ {B : Type 0} (bank : BankKeeper B) (sdk : Sdk) (authority : Text) where
  unfoldable pub deliver : World B → Msg → World B
  deliver w (mint approvals m) = committed w (mint_message bank authority approvals m w)
  deliver w (update m) = committed w (on_state (update_params authority m) w)
  deliver w (claim ids m) = committed w (claim_contributor_reward bank sdk ids m w)

  unfoldable pub deliver_all : World B → List Msg → World B
  unfolding deliver
  deliver_all w [] = w
  deliver_all w (m ∷ ms) = deliver_all (deliver w m) ms

  -- A failed message drops its branch, so only a success has to keep a property.
  committed_keeps :
      {A : Type 0} (P : World B → Type 0) (w : World B) (r : Result A × World B)
      → P w
      → ((a : A) → r.0 ≡ ok a → P r.1)
      → P (committed w r)
  committed_keeps P w (ok a, w') h k = k a refl
  committed_keeps P w (err e, w') h k = h

  -- A mint message that succeeds carries the module's authority and an epoch above 0, and leaves
  -- what the keeper's mint leaves.
  pub mint_message_authorised :
      (approvals : Result (List (Text × ℕ))) (m : MsgMintDailyEmission) (w : World B)
      (r : MintResponse)
      → (mint_message bank authority approvals m w).0 ≡ ok r
      → (m.authority ≡ authority)
        × (0 < m.epoch)
        × ((mint_message bank authority approvals m w).1
            ≡ (mint_daily_emission bank approvals m.epoch w).1)
  unfolding mint_message
  mint_message_authorised approvals m w r h =
      (ground (arith, text_eq→eq m.authority authority), ground arith, ground arith)

  mint_message_done :
      (approvals : Result (List (Text × ℕ))) (m : MsgMintDailyEmission) (w : World B)
      (r : MintResponse)
      → (mint_message bank authority approvals m w).0 ≡ ok r
      → (e : DailyEmission) × ((mint_daily_emission bank approvals m.epoch w).0 ≡ ok e)
  unfolding mint_message
  mint_message_done approvals m w r h =
      elim (Result-cases (mint_daily_emission bank approvals m.epoch w).0) [
        | inl (e, done) ↦ (e, done)
        | inr (x, failed) ↦ ground arith
      ]

  mint_message-IsSolvent :
      (approvals : Result (List (Text × ℕ))) (m : MsgMintDailyEmission) (w : World B)
      (r : MintResponse)
      → (mint_message bank authority approvals m w).0 ≡ ok r
      → IsSolvent bank w
      → IsSolvent bank (mint_message bank authority approvals m w).1
  mint_message-IsSolvent approvals m w r h v =
      let (e, done) = mint_message_done approvals m w r h in
      rw ((mint_message_authorised approvals m w r h).2)
        (mint-IsSolvent bank approvals m.epoch w e done v)

  update_frame :
      (m : MsgUpdateParams) (w : World B)
      → let w' = (on_state (update_params authority m) w).1 in
        (w'.state.pool ≡ w.state.pool) × (w'.state.rewards ≡ w.state.rewards) × (w'.bank ≡ w.bank)
  unfolding on_state update_params
  update_frame m w = (ground arith, ground arith, ground arith)

  update-IsSolvent :
      (m : MsgUpdateParams) (w : World B)
      → IsSolvent bank w
      → IsSolvent bank (on_state (update_params authority m) w).1
  update-IsSolvent m w v =
      let (pool, rewards, same) = update_frame m w in
      let w' = (on_state (update_params authority m) w).1 in
      record {
        sorted = rw rewards v.sorted;
        fits = omega (arith, stored_sum_pool w.state w'.state pool, v.fits);
        owed = omega (arith, ap total rewards, supply_pool w.state w'.state pool, v.owed);
        backed =
            omega
              (arith, ap total rewards, ap (bank.module_balance emissions_module) same, v.backed);
      }

  deliver-IsSolvent : (w : World B) (m : Msg) → IsSolvent bank w → IsSolvent bank (deliver w m)
  unfolding deliver
  deliver-IsSolvent w (mint approvals m) v =
      committed_keeps (IsSolvent bank) w (mint_message bank authority approvals m w) v
        (λ r h. mint_message-IsSolvent approvals m w r h v)
  deliver-IsSolvent w (update m) v =
      committed_keeps (IsSolvent bank) w (on_state (update_params authority m) w) v
        (λ r h. update-IsSolvent m w v)
  deliver-IsSolvent w (claim ids m) v =
      committed_keeps (IsSolvent bank) w (claim_contributor_reward bank sdk ids m w) v
        (λ n h. claim-IsSolvent bank sdk ids m w n h v)

  -- From a solvent state, every history of mints, claims and parameter changes, successful or not,
  -- ends in a solvent state.
  pub history-IsSolvent :
      (w : World B) (ms : List Msg) → IsSolvent bank w → IsSolvent bank (deliver_all w ms)
  unfolding deliver_all
  history-IsSolvent w [] v = v
  history-IsSolvent w (m ∷ ms) v = history-IsSolvent (deliver w m) ms (deliver-IsSolvent w m v)
