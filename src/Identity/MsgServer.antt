-- ===== src/Identity/MsgServer.antt =====
-- x/identity/keeper/msg_server.go: MigrateIdentity. The block height is an argument; the emitted
-- event is left out, since nothing reads it back.
use wevibe_chain.Common.{
  ◌∷◌, ℕ, Bool, true, Option, none, some, ◌++◌, Text, codes, not, get_or_empty, Error, Action,
  or_raise, gets, lift, raise_if, ◌>>=◌, ◌>>◌,
}
use wevibe_chain.Common.Decimal.{format_uint}
use wevibe_chain.External.{Sdk}
use wevibe_chain.Identity.Hex.{hex_decode, has_length}
use wevibe_chain.Identity.Types.{
  State, StoredIdentityAlias, MsgMigrateIdentity, validate_basic, public_key_size, signature_size,
}
use wevibe_chain.Identity.Keeper.{set_alias, get_alias}

-- The bytes that the passkey signs.
unfoldable pub canonical : MsgMigrateIdentity → Text
canonical m =
    codes "wevibe.migrate_identity.v1"
    ++ (10
        ∷ (codes "passkey_pubkey:"
            ++ (m.passkey_pubkey
                ++ (10
                    ∷ (codes "wallet:"
                        ++ (m.signer ++ (10 ∷ (codes "nonce:" ++ format_uint m.nonce))))))))

-- found && existingAlias.IsMigrated
unfoldable pub already_migrated : Option StoredIdentityAlias → Bool
already_migrated none = Bool.false
already_migrated (some a) = a.is_migrated

unfoldable pub migrate_identity : Sdk → ℕ → MsgMigrateIdentity → Action State (Unit {0})
unfolding canonical already_migrated
migrate_identity sdk height m = do
  lift (validate_basic m)
  or_raise (sdk.acc_address_from_bech32 m.signer) Error.invalid_wallet_address
  let pubkey = hex_decode m.passkey_pubkey
  raise_if (not (has_length public_key_size pubkey)) Error.invalid_passkey_pubkey
  let signature = hex_decode m.passkey_signature
  raise_if (not (has_length signature_size signature)) Error.invalid_passkey_signature
  raise_if (not (sdk.ed25519_verify (get_or_empty pubkey) (canonical m) (get_or_empty signature)))
      Error.invalid_passkey_signature
  existing ← gets (get_alias m.passkey_pubkey)
  raise_if (already_migrated existing) Error.alias_already_migrated
  set_alias (
      some (record {
        passkey_pubkey = m.passkey_pubkey;
        wallet_address = m.signer;
        is_migrated = true;
        migrated_at_epoch = height;
      }))
