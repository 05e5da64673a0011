-- ===== src/Reputation/Authority.antt =====
-- Who may change the reputation of a developer, and the profile of a contributor.
use wevibe_chain.Common.{ℕ, ◌≡◌, refl, false, Text, arith, is_empty, text_eq_ne, ◌≢◌}
use wevibe_chain.Reputation.Types.{State, Params}
use wevibe_chain.Reputation.MsgServer.{
  MsgUpdateReputation, submit_update, validate_update, attested_memory, authorise,
  submit_contribution, submit_serve, submit_ban, update_params, validate_named,
}

-- A message that names another signer has the same result and leaves the same store.
pub submit_update-signer :
    (m : MsgUpdateReputation) (other : Text) (s : State)
    → is_empty m.signer ≡ false
    → is_empty other ≡ false
    → submit_update (record m { signer = other }) s ≡ submit_update m s
unfolding submit_update validate_update attested_memory
submit_update-signer m other s h k = rw (validate_update, h, k) refl

-- A message on a contributor, or a change of the parameters, that names another authority than that
-- of the chain changes nothing.
pub other_authority_changes_nothing :
    (chain_authority authority contributor org : Text) (count : ℕ) (p : Params) (s : State)
    → authority ≢ chain_authority
    → ((submit_contribution chain_authority authority contributor org s).1 ≡ s)
      × ((submit_serve chain_authority authority contributor org count s).1 ≡ s)
      × ((submit_ban chain_authority authority contributor org s).1 ≡ s)
      × ((update_params chain_authority authority p s).1 ≡ s)
unfolding submit_contribution submit_serve submit_ban authorise validate_named update_params
other_authority_changes_nothing chain_authority authority contributor org count p s h =
    let other = text_eq_ne authority chain_authority h in
    (ground arith, ground arith, ground arith, ground arith)
