-- ===== src/Emissions/Claims.antt =====
-- What a claim pays, to whom, and that claims and mints keep the module solvent.
use wevibe_chain.Common.{
  ℕ, ◌+◌, ◌<◌, ◌≡◌, ◌≢◌, ap, ◌∙◌, true, some, Text, text_eq→eq, arith, ok, Option-cases, inl, inr,
}
use wevibe_chain.Common.Dict.{IsSorted, insert}
use wevibe_chain.Common.Dict.Laws.{
  amount, total, total-insert, insert-IsSorted, get-insert_self, get-insert_ne,
}
use wevibe_chain.External.{Sdk, BankKeeper}
use wevibe_chain.Identity.Types
use wevibe_chain.Identity.Keeper.{resolve_identity}
use wevibe_chain.Emissions.Types.{State}
use wevibe_chain.Emissions.Keeper.{get_contributor_reward, contrib_reward_key}
use wevibe_chain.Emissions.Mint.{World, emissions_module}
use wevibe_chain.Emissions.Mint.Rewards.{pending, reward_key-injective}
use wevibe_chain.Emissions.Mint.Conservation.{stored_sum_pool}
use wevibe_chain.Emissions.Mint.Solvency.{IsSolvent, supply_pool}
use wevibe_chain.Emissions.MsgServer.{MsgClaimContributorReward, claim_contributor_reward}

reward_cleared :
    (a : Text) (s : State)
    → get_contributor_reward a (record s { rewards = insert (contrib_reward_key a) 0 s.rewards })
      ≡ 0
unfolding get_contributor_reward
reward_cleared a s = ap amount (get-insert_self (contrib_reward_key a) 0 s.rewards)

reward_kept :
    (a b : Text) (s : State)
    → b ≢ a
    → get_contributor_reward b (record s { rewards = insert (contrib_reward_key a) 0 s.rewards })
      ≡ get_contributor_reward b s
unfolding get_contributor_reward
reward_kept a b s ne = ap amount (
    get-insert_ne (contrib_reward_key b) (contrib_reward_key a) 0 s.rewards
      (λ e. ne (reward_key-injective b a e)))

-- Clearing a reward takes just that amount out of the sum.
pending-cleared :
    (a : Text) (s : State)
    → IsSorted s.rewards
    → total (insert (contrib_reward_key a) 0 s.rewards) + get_contributor_reward a s ≡ pending s
unfolding get_contributor_reward
pending-cleared a s sorted = omega (arith, total-insert (contrib_reward_key a) 0 s.rewards sorted)

module _ {B : Type 0} (bank : BankKeeper B) (sdk : Sdk) (ids : Types.State)
    (m : MsgClaimContributorReward) (w : World B) where
  -- What a successful claim has read and written.
  pub record IsClaimed (w' : World B) (n : ℕ) : Type 0 where
    pub migrated : resolve_identity m.passkey_pubkey ids ≡ (m.signer, true, true)
    pub balance : n ≡ get_contributor_reward m.passkey_pubkey w.state
    pub positive : 0 < n
    pub recipient : Text
    pub address : sdk.acc_address_from_bech32 m.signer ≡ some recipient
    pub sent :
        bank.send_coins_from_module_to_account emissions_module recipient n w.bank ≡ ok w'.bank
    pub state : w'.state ≡ record w.state {
      rewards = insert (contrib_reward_key m.passkey_pubkey) 0 w.state.rewards;
    }

  pub claim_inversion :
      (n : ℕ)
      → (claim_contributor_reward bank sdk ids m w).0 ≡ ok n
      → IsClaimed (claim_contributor_reward bank sdk ids m w).1 n
  unfolding claim_contributor_reward
  claim_inversion n h = elim (Option-cases (sdk.acc_address_from_bech32 m.signer)) [
    | inl missing ↦ ground arith
    | inr (a, e) ↦ record {
      migrated = ground (arith, text_eq→eq (resolve_identity m.passkey_pubkey ids).0 m.signer);
      balance = ground arith;
      positive = ground arith;
      recipient = a;
      address = e;
      sent = ground arith;
      state = ground arith;
    }
  ]

  -- A successful claim was made by the wallet that the passkey is migrated to. It returns the
  -- passkey's whole pending reward, which is positive, takes it from the module account, leaves no
  -- pending reward for the passkey, and leaves those of all others.
  pub claim_pays :
      (n : ℕ)
      → (claim_contributor_reward bank sdk ids m w).0 ≡ ok n
      → let w' = (claim_contributor_reward bank sdk ids m w).1 in
        (resolve_identity m.passkey_pubkey ids ≡ (m.signer, true, true))
        × (n ≡ get_contributor_reward m.passkey_pubkey w.state)
        × (0 < n)
        × (bank.module_balance emissions_module w'.bank + n
            ≡ bank.module_balance emissions_module w.bank)
        × (get_contributor_reward m.passkey_pubkey w'.state ≡ 0)
        × ((p : Text)
            → p ≢ m.passkey_pubkey
            → get_contributor_reward p w'.state ≡ get_contributor_reward p w.state)
  claim_pays n h =
      let c = claim_inversion n h in
      (
        c.migrated,
        c.balance,
        c.positive,
        bank.send-balance emissions_module c.recipient n w.bank _ c.sent,
        ap (get_contributor_reward m.passkey_pubkey) c.state
            ∙ reward_cleared m.passkey_pubkey w.state,
        λ p ne. ap (get_contributor_reward p) c.state ∙ reward_kept m.passkey_pubkey p w.state ne,
      )

  -- A successful claim keeps the module solvent.
  pub claim-IsSolvent :
      (n : ℕ)
      → (claim_contributor_reward bank sdk ids m w).0 ≡ ok n
      → IsSolvent bank w
      → IsSolvent bank (claim_contributor_reward bank sdk ids m w).1
  claim-IsSolvent n h v =
      let c = claim_inversion n h in
      let w' = (claim_contributor_reward bank sdk ids m w).1 in
      let less = ap (λ (s : State). pending s) c.state in
      let cleared = pending-cleared m.passkey_pubkey w.state v.sorted in
      let paid = bank.send-balance emissions_module c.recipient n w.bank w'.bank c.sent in
      let balance = c.balance in
      let pool = ap (λ (s : State). s.pool) c.state in
      record {
        sorted = rw c.state (insert-IsSorted _ _ w.state.rewards v.sorted);
        fits = omega (arith, stored_sum_pool w.state w'.state pool, v.fits);
        owed = omega (arith, less, cleared, supply_pool w.state w'.state pool, v.owed);
        backed = omega (arith, less, cleared, paid, balance, v.backed);
      }
