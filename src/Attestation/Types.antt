-- ===== src/Attestation/Types.antt =====
-- x/attestation/types: attestations, parameters, keys, and the messages' checks (keys.go, msgs.go,
-- params.go), with the state of the module's store.
use wevibe_chain.Common.{
  ℕ, ◌/◌, ◌%◌, ◌+◌, ◌==◌, not, Bool, false, Option, none, List, [], ◌∷◌, ◌++◌, Text, codes,
  is_empty, length, if◌then◌else◌, ltb, Result, ok, err, Error,
}
use wevibe_chain.Common.Decimal.{format_uint}
use wevibe_chain.Common.Dict.{Dict}

-- The values of the enumeration, by number: 0 is PROVIDER_TYPE_UNSPECIFIED.
abbrev pub ProviderType : Type 0
ProviderType = ℕ

pub record StoredSessionAttestation : Type 0 where
  pub org_id : Text
  pub session_hash : Text
  pub model_id : Text
  pub turn_count : ℕ
  pub token_count : ℕ
  pub provider_type : ProviderType
  pub commitllm_receipt_hash : Text
  pub provider_signature_hash : Text
  pub contributor_id : Text
  pub epoch : ℕ
  pub submitted_at_height : ℕ

pub record MsgSubmitSessionAttestation : Type 0 where
  pub signer : Text
  pub org_id : Text
  pub session_hash : Text
  pub model_id : Text
  pub turn_count : ℕ
  pub token_count : ℕ
  pub provider_type : ProviderType
  pub commitllm_receipt_hash : Text
  pub provider_signature_hash : Text
  pub contributor_id : Text
  pub epoch : ℕ

pub record Params : Type 0 where
  pub max_attestations_per_epoch : ℕ
  pub require_attestation_for_serve : Bool

unfoldable pub default_params : Params
default_params = record {
  max_attestations_per_epoch = 10000;
  require_attestation_for_serve = false;
}

pub record MsgUpdateParams : Type 0 where
  pub authority : Text
  pub params : Params

-- The ValidateBasic of the two messages.
unfoldable pub validate_submit : MsgSubmitSessionAttestation → Result (Unit {0})
validate_submit m =
    if is_empty m.signer
    then err Error.signer_empty
    else (if is_empty m.org_id
        then err Error.invalid_org_id
        else (if not (length m.session_hash == 32)
            then err Error.invalid_session_hash
            else (if is_empty m.model_id
                then err Error.invalid_model_id
                else (if is_empty m.contributor_id
                    then err Error.invalid_contributor
                    else (if m.provider_type == 0
                        then err Error.invalid_provider_type
                        else ok tt)))))

unfoldable pub validate_update : MsgUpdateParams → Result (Unit {0})
validate_update m = if is_empty m.authority then err Error.authority_empty else ok tt

-- hex.EncodeToString, in lower case.
unfoldable pub hex_digit : ℕ → ℕ
hex_digit n = if ltb n 10 then 48 + n else 87 + n

unfoldable pub content_hash_to_hex : Text → Text
unfolding hex_digit
content_hash_to_hex [] = []
content_hash_to_hex (c ∷ s) = hex_digit (c / 16) ∷ (hex_digit (c % 16) ∷ content_hash_to_hex s)

unfoldable pub attestation_key : Text → Text → Text
attestation_key org hash = codes "attestation/" ++ (org ++ (47 ∷ content_hash_to_hex hash))

-- "session_epoch/<org>/<epoch>/"
unfoldable pub attestation_by_epoch_prefix : Text → ℕ → Text
attestation_by_epoch_prefix org epoch =
    codes "session_epoch/" ++ (org ++ (47 ∷ (format_uint epoch ++ (47 ∷ []))))

unfoldable pub attestation_by_epoch_key : Text → ℕ → Text → Text
attestation_by_epoch_key org epoch hash =
    codes "session_epoch/" ++ (org ++ (47 ∷ (format_uint epoch ++ (47 ∷ content_hash_to_hex hash))))

-- The keys "params", "attestation/..." and "session_epoch/...".
pub record State : Type 0 where
  pub params : Option Params
  pub attestations : Dict StoredSessionAttestation
  pub by_epoch : Dict StoredSessionAttestation

abbrev pub empty_state : State
empty_state = record { params = none; attestations = []; by_epoch = [] }

pub record GenesisState : Type 0 where
  pub attestations : List StoredSessionAttestation
