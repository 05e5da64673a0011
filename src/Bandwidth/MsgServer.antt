-- ===== src/Bandwidth/MsgServer.antt =====
-- x/bandwidth/keeper/msg_server.go and types/msgs.go. `has_org` and `is_leader` are the org
-- keeper's queries.
use wevibe_chain.Common.{
  ℕ, ◌≡◌, ◌≢◌, ◌⊎◌, Bool, true, none, some, Text, is_empty, text_eq, ◌==◌, not, ◌&&◌, if◌then◌else◌,
  arith, Bool-cases, inl, inr, Result, ok, err, Error, Action, lift, raise_if, ◌>>=◌, ◌>>◌,
}
use wevibe_chain.Common.Dict.{get}
use wevibe_chain.Common.Dict.Laws.{get-insert_self}
use wevibe_chain.Bandwidth.Types.{
  State, Params, BandwidthOverride, new_bandwidth_state, new_bandwidth_override, override_key,
  state_key,
}
use wevibe_chain.Bandwidth.Keeper.{set_params, set_bandwidth_override, caps}
use wevibe_chain.Bandwidth.Budget.{effective}

pub record MsgSetBandwidthOverride : Type 0 where
  pub signer : Text
  pub org_id : Text
  pub memory_cap : ℕ
  pub serve_cap : ℕ

pub record MsgUpdateParams : Type 0 where
  pub authority : Text
  pub params : Params

unfoldable pub validate_override : MsgSetBandwidthOverride → Result (Unit {0})
validate_override m =
    if is_empty m.signer
    then err Error.signer_empty
    else (if is_empty m.org_id
        then err Error.invalid_org_id
        else (if m.memory_cap == 0 && m.serve_cap == 0 then err Error.invalid_cap else ok tt))

-- MsgUpdateParams.ValidateBasic; Params.Validate of this module accepts everything.
unfoldable pub validate_update : MsgUpdateParams → Result (Unit {0})
validate_update m = if is_empty m.authority then err Error.authority_empty else ok tt

-- msgServer.UpdateParams
unfoldable pub update_params : Text → MsgUpdateParams → Action State (Unit {0})
unfolding validate_update set_params
update_params authority m = do
  raise_if (not (text_eq m.authority authority)) Error.unauthorized
  lift (validate_update m)
  set_params m.params

module _ (has_org : Text → Result Bool) (is_leader : Text → Text → Result Bool) where
  -- msgServer.SetBandwidthOverride
  unfoldable pub set_override_message : MsgSetBandwidthOverride → Action State (Unit {0})
  unfolding validate_override
  set_override_message m = do
    lift (validate_override m)
    known ← lift (has_org m.org_id)
    raise_if (not known) Error.org_not_found
    leads ← lift (is_leader m.org_id m.signer)
    raise_if (not leads) Error.unauthorized
    set_bandwidth_override m.org_id m.memory_cap m.serve_cap

  -- An override message that succeeds names an existing organisation, comes from its leader, and
  -- grants something.
  pub override_authorised :
      (m : MsgSetBandwidthOverride) (s : State)
      → (set_override_message m s).0 ≡ ok tt
      → (has_org m.org_id ≡ ok true)
        × (is_leader m.org_id m.signer ≡ ok true)
        × ((m.memory_cap ≢ 0) ⊎ (m.serve_cap ≢ 0))
  unfolding set_override_message
  override_authorised m s h = (ground arith, ground arith, granted)
    where
      granted : (m.memory_cap ≢ 0) ⊎ (m.serve_cap ≢ 0)
      granted = elim (Bool-cases (m.memory_cap == 0)) [
        | inr e ↦ inl (ground arith)
        | inl e ↦ inr (λ z. ground arith)
      ]

  -- An override message that fails changes nothing.
  pub override_err_unchanged :
      (m : MsgSetBandwidthOverride) (s : State) {e : Error}
      → (set_override_message m s).0 ≡ err e
      → (set_override_message m s).1 ≡ s
  unfolding set_override_message set_bandwidth_override
  override_err_unchanged m s h = ground arith

  -- After a successful override an epoch's budget is the stored one where it has one, and else a
  -- fresh one with the caps of the message.
  pub override_applies :
      (m : MsgSetBandwidthOverride) (s : State)
      → (set_override_message m s).0 ≡ ok tt
      → (epoch : ℕ)
      → effective m.org_id epoch (set_override_message m s).1
        ≡ elim (get (state_key m.org_id epoch) s.states) [
          | none ↦ new_bandwidth_state m.org_id epoch m.memory_cap m.serve_cap
          | some b ↦ b
        ]
  unfolding set_override_message set_bandwidth_override new_bandwidth_override effective caps
  override_applies m s h epoch =
      let o : BandwidthOverride = record {
        org_id = m.org_id;
        memory_cap = m.memory_cap;
        serve_cap = m.serve_cap;
      } in
      ground (arith, get-insert_self (override_key m.org_id) o s.overrides)
