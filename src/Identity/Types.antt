-- ===== src/Identity/Types.antt =====
-- x/identity/types: parameters, the stored alias, the message, and the state of the store.
use wevibe_chain.Common.{
  ℕ, Bool, true, Option, none, List, [], ◌++◌, Text, codes, is_empty, if◌then◌else◌, not, Result,
  ok, err, Error,
}
use wevibe_chain.Common.Dict.{Dict}
use wevibe_chain.Identity.Hex.{hex_decode, has_length}

pub record Params : Type 0 where
  pub active : Bool

unfoldable pub default_params : Params
default_params = record { active = true }

pub record StoredIdentityAlias : Type 0 where
  pub passkey_pubkey : Text
  pub wallet_address : Text
  pub is_migrated : Bool
  pub migrated_at_epoch : ℕ

pub record MsgMigrateIdentity : Type 0 where
  pub signer : Text
  pub passkey_pubkey : Text
  pub passkey_signature : Text
  pub nonce : ℕ

abbrev pub public_key_size : ℕ
public_key_size = 32

abbrev pub signature_size : ℕ
signature_size = 64

-- MsgMigrateIdentity.ValidateBasic
unfoldable pub validate_basic : MsgMigrateIdentity → Result (Unit {0})
validate_basic m =
    if is_empty m.signer
    then err Error.signer_empty
    else (if is_empty m.passkey_pubkey
        then err Error.invalid_passkey_pubkey
        else (if is_empty m.passkey_signature
            then err Error.invalid_passkey_signature
            else (if not (has_length public_key_size (hex_decode m.passkey_pubkey))
                then err Error.invalid_passkey_pubkey
                else (if not (has_length signature_size (hex_decode m.passkey_signature))
                    then err Error.invalid_passkey_signature
                    else ok tt))))

unfoldable pub alias_key : Text → Text
alias_key passkey = codes "alias/" ++ passkey

-- The keys "params" and "alias/<passkey>".
pub record State : Type 0 where
  pub params : Option Params
  pub aliases : Dict StoredIdentityAlias

abbrev pub empty_state : State
empty_state = record { params = none; aliases = [] }

-- A nil alias in a genesis file is `none`.
pub record GenesisState : Type 0 where
  pub aliases : List (Option StoredIdentityAlias)
  pub params : Params
