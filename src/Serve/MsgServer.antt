-- ===== src/Serve/MsgServer.antt =====
-- x/serve/keeper/msg_server.go: the handlers of the five messages. A handler's events and logs are
-- left out.
use wevibe_chain.Common.{
  ℕ, not, ◌||◌, Bool, Text, text_eq, is_empty, length, ltb, Result, ok, Error, Action, lift,
  raise_if, ◌>>=◌, ◌>>◌,
}
use wevibe_chain.Serve.Store.{State}
use wevibe_chain.Serve.Keeper.{set_params, get_params}
use wevibe_chain.Serve.Batch.{World, Outside, Counts, no_counts, process_serve_batch}
use wevibe_chain.Serve.Denials.{DenialCounts, process_denials}
use wevibe_chain.Serve.Events.{process_event_batch}
use wevibe_chain.Serve.Policy.{set_policy_anchor}
use wevibe_chain.Serve.Messages.{
  MsgSubmitServeBatch, MsgSubmitDenialBatch, MsgSubmitEventBatch, MsgAnchorPolicyVersion,
  MsgUpdateParams, validate_serve_batch, validate_denial_batch, validate_event_batch,
  validate_anchor, validate_update,
}

-- The org keeper's answers: whether an organisation is known, and its serving address.
pub record OrgKeeper : Type 0 where
  pub has_org : Text → Result Bool
  pub get_serving_address : Text → Result Text

module _ {R : Type 0} (orgs : OrgKeeper) where
  -- requireServingKeySigner
  unfoldable pub require_serving_key_signer : Text → Text → Action (World R) (Unit {0})
  require_serving_key_signer org signer = do
    address ← lift (orgs.get_serving_address org)
    raise_if (is_empty address || not (text_eq signer address)) Error.unauthorized

  -- What the three handlers of batches do first.
  unfoldable pub authorise : Result (Unit {0}) → Text → Text → Action (World R) (Unit {0})
  unfolding require_serving_key_signer
  authorise valid org signer = do
    lift valid
    known ← lift (orgs.has_org org)
    raise_if (not known) Error.org_not_found
    require_serving_key_signer org signer

module _ {R : Type 0} (outside : Outside R) (orgs : OrgKeeper) where
  -- MsgServer.SubmitServeBatch
  unfoldable pub submit_serve_batch : MsgSubmitServeBatch → Action (World R) Counts
  unfolding authorise
  submit_serve_batch m = do
    authorise orgs (validate_serve_batch m) m.org_id m.signer
    process_serve_batch outside m.org_id m.epoch m.serves

  -- MsgServer.SubmitDenialBatch
  unfoldable pub submit_denial_batch : MsgSubmitDenialBatch → Action (World R) DenialCounts
  unfolding authorise
  submit_denial_batch m w =
      (do
        authorise orgs (validate_denial_batch m) m.org_id m.signer
        raise_if (ltb (get_params w.state).max_serves_per_batch (length m.entries))
            Error.batch_too_large
        λ w'.
            let (c, w'') =
              process_denials outside m.org_id m.epoch m.entries
                (record { accepted = 0; rejected = 0 }) w' in
            (ok c, w''))
        w

  -- MsgServer.SubmitEventBatch
  unfoldable pub submit_event_batch : MsgSubmitEventBatch → Action (World R) Counts
  unfolding authorise
  submit_event_batch m w =
      (do
        authorise orgs (validate_event_batch m) m.org_id m.signer
        raise_if (ltb (get_params w.state).max_serves_per_batch (length m.events))
            Error.batch_too_large
        process_event_batch outside m.org_id m.epoch m.events no_counts)
        w

-- MsgServer.AnchorPolicyVersion
unfoldable pub anchor_policy_version : Text → ℕ → MsgAnchorPolicyVersion → Action State (Unit {0})
anchor_policy_version authority height m = do
  lift (validate_anchor m)
  raise_if (not (text_eq m.authority authority)) Error.unauthorized
  set_policy_anchor height m.policy_version m.policy_hash

-- MsgServer.UpdateParams
unfoldable pub update_params : Text → MsgUpdateParams → Action State (Unit {0})
update_params authority m = do
  lift (validate_update m)
  raise_if (not (text_eq m.authority authority)) Error.unauthorized
  set_params m.params
