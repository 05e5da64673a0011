-- ===== src/Attestation/Keeper.antt =====
-- x/attestation/keeper/keeper.go and msg_server.go.
use wevibe_chain.Common.{
  ℕ, Bool, true, false, not, none, some, List, [], ◌∷◌, Text, codes, text_eq, ok, Error, Action,
  modify, or_raise, raise, raise_if, lift, ◌>>◌,
}
use wevibe_chain.Common.Dict.{Dict, get, insert, values}
use wevibe_chain.Common.Range.{range, prefix_end_bytes}
use wevibe_chain.Attestation.Types.{
  State, Params, default_params, StoredSessionAttestation, MsgSubmitSessionAttestation,
  MsgUpdateParams, GenesisState, validate_submit, validate_update, attestation_key,
  attestation_by_epoch_key, attestation_by_epoch_prefix,
}

unfoldable pub set_session_attestation : StoredSessionAttestation → Action State (Unit {0})
set_session_attestation a = do
  modify (λ s. record s {
    attestations = insert (attestation_key a.org_id a.session_hash) a s.attestations;
  })
  modify (λ s. record s {
    by_epoch = insert (attestation_by_epoch_key a.org_id a.epoch a.session_hash) a s.by_epoch;
  })

unfoldable pub get_session_attestation : Text → Text → Action State StoredSessionAttestation
get_session_attestation org hash s =
    or_raise (get (attestation_key org hash) s.attestations) Error.attestation_not_found s

unfoldable pub has_session_attestation : Text → Text → State → Bool
has_session_attestation org hash s = elim (get (attestation_key org hash) s.attestations) [
  | none ↦ false
  | some a ↦ true
]

-- The entries that ListSessionAttestations visits.
unfoldable pub epoch_entries : Text → ℕ → State → Dict StoredSessionAttestation
epoch_entries org epoch s =
    let prefix = attestation_by_epoch_prefix org epoch in
    range prefix (prefix_end_bytes prefix) s.by_epoch

unfoldable pub list_session_attestations : Text → ℕ → State → List StoredSessionAttestation
unfolding epoch_entries
list_session_attestations org epoch s = values (epoch_entries org epoch s)

unfoldable pub set_params : Params → Action State (Unit {0})
set_params p = modify (λ s. record s { params = some p })

unfoldable pub get_params : State → Params
get_params s = elim s.params [ none ↦ default_params | some p ↦ p ]

-- MsgServer.SubmitSessionAttestation
unfoldable pub submit_session_attestation : MsgSubmitSessionAttestation → Action State (Unit {0})
unfolding validate_submit
submit_session_attestation m = do lift (validate_submit m); raise Error.attestation_disabled

-- MsgServer.UpdateParams
unfoldable pub update_params : Text → MsgUpdateParams → Action State (Unit {0})
unfolding validate_update set_params
update_params authority m = do
  lift (validate_update m)
  raise_if (not (text_eq m.authority authority)) Error.unauthorized
  set_params m.params

unfoldable pub set_attestations : List StoredSessionAttestation → Action State (Unit {0})
unfolding set_session_attestation
set_attestations [] s = (ok tt, s)
set_attestations (a ∷ rest) s = (set_session_attestation a >> set_attestations rest) s

-- InitGenesis
unfoldable pub init_genesis : GenesisState → Action State (Unit {0})
unfolding set_attestations
init_genesis g = set_attestations g.attestations

-- ExportGenesis: the keys that start with "attestation/" are those of the first index.
unfoldable pub export_genesis : State → GenesisState
export_genesis s =
    let prefix = codes "attestation/" in
    record { attestations = values (range prefix (prefix_end_bytes prefix) s.attestations) }
