-- ===== src/Emissions/ClaimTests.antt =====
-- Runs and instances for the claims and the histories of x/emissions.
use wevibe_chain.Common.{
  ℕ, ◌+◌, ◌<◌, ◌≡◌, ◌≢◌, refl, true, none, some, List, [], ◌∷◌, Text, codes, mul64, ok, err, Error,
  text_eq, text_lt, arith,
}
use wevibe_chain.Common.Dict.{get}
use wevibe_chain.Common.Dict.Laws.{total}
use wevibe_chain.External.{Sdk}
use wevibe_chain.Identity.Types
use wevibe_chain.Identity.Types.{alias_key}
use wevibe_chain.Identity.Keeper.{resolve_identity, get_alias}
use wevibe_chain.Emissions.Types.{default_params, default_emission_pool, empty_state}
use wevibe_chain.Emissions.Keeper.{get_contributor_reward, contrib_reward_key}
use wevibe_chain.Emissions.Mint.{World}
use wevibe_chain.Emissions.Mint.Conservation.{stored_sum}
use wevibe_chain.Emissions.Mint.Solvency.{IsSolvent, supply_of}
use wevibe_chain.Emissions.MsgServer.{
  MsgMintDailyEmission, MsgClaimContributorReward, claim_contributor_reward,
}
use wevibe_chain.Emissions.Claims.{claim_pays}
use wevibe_chain.Emissions.History.{Msg, deliver_all, history-IsSolvent}
use wevibe_chain.Emissions.Tests.{ledger, approvals, alice, bob}

abbrev any_address : Sdk
any_address = record {
  ed25519_verify = λ key message signature. true;
  acc_address_from_bech32 = some;
}

abbrev ids : Types.State
ids = record {
  params = none;
  aliases =
      (
        codes "alias/pk",
        record {
          passkey_pubkey = codes "pk";
          wallet_address = alice;
          is_migrated = true;
          migrated_at_epoch = 1;
        },
      )
      ∷ [];
}

abbrev rewarded : World ℕ
rewarded = record {
  state = record empty_state {
    pool = some (record default_emission_pool { total_supply = 90 });
    rewards = (codes "contribreward/pk", 40) ∷ (codes "contribreward/qq", 2) ∷ [];
  };
  bank = 100;
}

abbrev alices_claim : MsgClaimContributorReward
alices_claim = record { signer = alice; passkey_pubkey = codes "pk" }

alice_claims : (claim_contributor_reward ledger any_address ids alices_claim rewarded).0 ≡ ok 40
unfolding claim_contributor_reward resolve_identity get_contributor_reward contrib_reward_key
    text_eq get get_alias alias_key
alice_claims = refl

claim_pays_example :
    let w' = (claim_contributor_reward ledger any_address ids alices_claim rewarded).1 in
    (resolve_identity (codes "pk") ids ≡ (alice, true, true))
    × (40 ≡ get_contributor_reward (codes "pk") rewarded.state)
    × (0 < 40)
    × (w'.bank + 40 ≡ 100)
    × (get_contributor_reward (codes "pk") w'.state ≡ 0)
    × ((p : Text)
        → p ≢ codes "pk"
        → get_contributor_reward p w'.state ≡ get_contributor_reward p rewarded.state)
claim_pays_example = claim_pays ledger any_address ids alices_claim rewarded 40 alice_claims

abbrev bobs_claim : MsgClaimContributorReward
bobs_claim = record { signer = bob; passkey_pubkey = codes "pk" }

rewarded-IsSolvent : IsSolvent ledger rewarded
unfolding stored_sum supply_of default_emission_pool default_params mul64 total text_lt
rewarded-IsSolvent = record {
  sorted = (refl, tt);
  fits = omega arith;
  owed = omega arith;
  backed = omega arith;
}

abbrev mint_request : MsgMintDailyEmission
mint_request = record { authority = codes "gov"; epoch = 1 }

abbrev mixed_history : List Msg
mixed_history =
    Msg.mint approvals mint_request
    ∷ Msg.claim ids alices_claim
    ∷ Msg.claim ids bobs_claim
    ∷ Msg.update (record { authority = codes "gov"; params = default_params })
    ∷ []

history-IsSolvent_example :
    IsSolvent ledger (deliver_all ledger any_address (codes "gov") rewarded mixed_history)
history-IsSolvent_example =
    history-IsSolvent ledger any_address (codes "gov") rewarded mixed_history rewarded-IsSolvent

bob_refused :
    (claim_contributor_reward ledger any_address ids bobs_claim rewarded).0
    ≡ err Error.unauthorized_claim
unfolding claim_contributor_reward resolve_identity text_eq get get_alias alias_key
bob_refused = refl
