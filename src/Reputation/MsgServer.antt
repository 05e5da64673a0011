-- ===== src/Reputation/MsgServer.antt =====
-- x/reputation/keeper/msg_server.go with the checks of x/reputation/types/msgs.go.
use wevibe_chain.Common.{
  ℕ, ◌%◌, not, List, Text, text_eq, is_empty, ltb, if◌then◌else◌, Result, ok, err, Error, Action,
  lift, raise_if, ◌>>◌,
}
use wevibe_chain.Reputation.Types.{State, AttestedMemory, Params, validate_params}
use wevibe_chain.Reputation.Keeper.{set_params, update_reputation, get_xp}
use wevibe_chain.Reputation.Profiles.{increment_contribution, increment_serve, record_ban}

pub record MsgUpdateReputation : Type 0 where
  pub signer : Text
  pub developer : Text
  pub memory_cid : Text
  pub difficulty : ℕ
  pub quality : ℕ
  pub domain_tags : List Text
  pub provenance : Text

unfoldable pub validate_update : MsgUpdateReputation → Result (Unit {0})
validate_update m =
    if is_empty m.signer
    then err Error.signer_empty
    else (if is_empty m.developer
        then err Error.invalid_developer
        else (if is_empty m.memory_cid
            then err Error.invalid_memory
            else (if ltb 10 m.difficulty
                then err Error.invalid_difficulty
                else (if ltb 10 m.quality then err Error.invalid_quality else ok tt))))

-- The memory of the message: uint8 of the two grades.
unfoldable pub attested_memory : MsgUpdateReputation → AttestedMemory
attested_memory m = record {
  developer = m.developer;
  memory_cid = m.memory_cid;
  difficulty = m.difficulty % 256;
  quality = m.quality % 256;
  domain_tags = m.domain_tags;
  provenance = m.provenance;
}

-- UpdateReputation, which answers with the XP.
unfoldable pub submit_update : MsgUpdateReputation → Action State ℕ
unfolding validate_update attested_memory
submit_update m = do
  lift (validate_update m)
  update_reputation m.developer (attested_memory m)
  get_xp m.developer

-- UpdateParams; a message without parameters is not modelled.
unfoldable pub update_params : Text → Text → Params → Action State (Unit {0})
update_params chain_authority authority p = do
  raise_if (not (text_eq authority chain_authority)) Error.unauthorized
  lift (validate_params p)
  set_params p

-- ValidateBasic of the three messages on contributors.
unfoldable pub validate_named : Text → Text → Result (Unit {0})
validate_named authority contributor =
    if is_empty authority
    then err Error.authority_empty
    else (if is_empty contributor then err Error.contributor_id_empty else ok tt)

-- How the three messages on contributors start.
unfoldable pub authorise : Text → Text → Text → Action State (Unit {0})
unfolding validate_named
authorise chain_authority authority contributor = do
  lift (validate_named authority contributor)
  raise_if (not (text_eq authority chain_authority)) Error.unauthorized

unfoldable pub submit_contribution : Text → Text → Text → Text → Action State (Unit {0})
unfolding authorise
submit_contribution chain_authority authority contributor org = do
  authorise chain_authority authority contributor
  increment_contribution contributor org

unfoldable pub submit_serve : Text → Text → Text → Text → ℕ → Action State (Unit {0})
unfolding authorise
submit_serve chain_authority authority contributor org count = do
  authorise chain_authority authority contributor
  increment_serve contributor org count

unfoldable pub submit_ban : Text → Text → Text → Text → Action State (Unit {0})
unfolding authorise
submit_ban chain_authority authority contributor org = do
  authorise chain_authority authority contributor
  record_ban contributor org
