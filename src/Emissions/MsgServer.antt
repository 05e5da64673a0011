-- ===== src/Emissions/MsgServer.antt =====
-- x/emissions/keeper/msg_server.go and types/msgs.go: the three messages.
-- The identity module's state is read only; the emitted event is left out.
use wevibe_chain.Common.{
  ℕ, List, Text, is_empty, text_eq, ◌==◌, not, ◌||◌, if◌then◌else◌, Result, ok, err, Error, Action,
  pure, or_raise, gets, lift, raise_if, ◌>>=◌, ◌>>◌,
}
use wevibe_chain.External.{Sdk, BankKeeper}
use wevibe_chain.Identity.Types
use wevibe_chain.Identity.Keeper.{resolve_identity}
use wevibe_chain.Emissions.Types.{State, Params, validate_params}
use wevibe_chain.Emissions.Keeper.{set_params, get_contributor_reward, set_contributor_reward}
use wevibe_chain.Emissions.Mint.{World, emissions_module, on_state, on_bank, mint_daily_emission}

pub record MsgMintDailyEmission : Type 0 where
  pub authority : Text
  pub epoch : ℕ

pub record MsgUpdateParams : Type 0 where
  pub authority : Text
  pub params : Params

pub record MsgClaimContributorReward : Type 0 where
  pub signer : Text
  pub passkey_pubkey : Text

-- The ValidateBasic of MsgMintDailyEmission and of MsgClaimContributorReward.
unfoldable pub validate_mint : MsgMintDailyEmission → Result (Unit {0})
validate_mint m =
    if is_empty m.authority
    then err Error.authority_empty
    else (if m.epoch == 0 then err Error.epoch_zero else ok tt)

unfoldable pub validate_claim : MsgClaimContributorReward → Result (Unit {0})
validate_claim m =
    if is_empty m.signer
    then err Error.signer_empty
    else (if is_empty m.passkey_pubkey then err Error.passkey_empty else ok tt)

pub record MintResponse : Type 0 where
  pub total_emitted : ℕ
  pub operator_share : ℕ
  pub validator_share : ℕ

-- msgServer.UpdateParams, on the module's own store.
unfoldable pub update_params : Text → MsgUpdateParams → Action State (Unit {0})
unfolding validate_params set_params
update_params authority m = do
  raise_if (not (text_eq m.authority authority)) Error.unauthorized
  lift (validate_params m.params)
  set_params m.params

module _ {B : Type 0} (bank : BankKeeper B) where
  -- msgServer.MintDailyEmission
  unfoldable pub mint_message :
      Text → Result (List (Text × ℕ)) → MsgMintDailyEmission → Action (World B) MintResponse
  unfolding validate_mint
  mint_message authority approvals m = do
    lift (validate_mint m)
    raise_if (not (text_eq m.authority authority)) Error.unauthorized
    e ← mint_daily_emission bank approvals m.epoch
    pure (record {
      total_emitted = e.total_emitted;
      operator_share = 0;
      validator_share = e.validator_share;
    })

  -- msgServer.ClaimContributorReward: the amount claimed.
  unfoldable pub claim_contributor_reward :
      Sdk → Types.State → MsgClaimContributorReward → Action (World B) ℕ
  unfolding validate_claim on_state on_bank get_contributor_reward set_contributor_reward
  claim_contributor_reward sdk ids m = do
    lift (validate_claim m)
    let resolved = resolve_identity m.passkey_pubkey ids
    raise_if (not resolved.2 || not resolved.1) Error.not_migrated
    raise_if (not (text_eq resolved.0 m.signer)) Error.unauthorized_claim
    balance ← on_state (gets (get_contributor_reward m.passkey_pubkey))
    raise_if (balance == 0) Error.nothing_to_claim
    recipient ← or_raise (sdk.acc_address_from_bech32 m.signer) Error.invalid_wallet_address
    on_bank (bank.send_coins_from_module_to_account emissions_module recipient balance)
    on_state (set_contributor_reward m.passkey_pubkey 0)
    pure balance
