-- ===== src/Identity/Tests.antt =====
-- Runs and instances for x/identity.
use wevibe_chain.Common.{
  ◌≡◌, ◌↔◌, refl, true, Option, none, some, [], ◌∷◌, ◌++◌, Text, codes, Result, ok, err, Error,
  text_eq,
}
use wevibe_chain.Common.Dict.{get, insert}
use wevibe_chain.External.{Sdk}
use mathlib.Core.Path.{subst}
use wevibe_chain.Identity.Hex.{hex_decode, has_length}
use wevibe_chain.Identity.Types.{State, MsgMigrateIdentity, validate_basic, alias_key, empty_state}
use wevibe_chain.Identity.Keeper.{get_alias, set_alias, resolve_identity, get_params}
use wevibe_chain.Identity.MsgServer.{migrate_identity}
use wevibe_chain.Identity.Genesis.{init_genesis_state, export_genesis_state}
use wevibe_chain.Identity.Guards.{IsAcceptable}
use wevibe_chain.Identity.Migration.{bound_alias, migrate_ok_iff, run_migrations, migrated_forever}
use wevibe_chain.Identity.Genesis.RoundTrip.{IsCoherent, migrate-IsCoherent, import-export_aliases}

abbrev eight : Text
eight = codes "00112233"

abbrev passkey : Text
passkey = eight ++ (eight ++ (eight ++ (eight ++ (eight ++ (eight ++ (eight ++ eight))))))

-- Accepts the signature whose hex form is the passkey twice, and every address but the empty one.
abbrev lenient : Sdk
lenient = record {
  ed25519_verify = λ key message signature. text_eq signature (key ++ key);
  acc_address_from_bech32 = some_address;
}
  where
    some_address : Text → Option Text
    some_address [] = none
    some_address (c ∷ s) = some (c ∷ s)

abbrev request : MsgMigrateIdentity
request = record {
  signer = codes "wevibe1a";
  passkey_pubkey = passkey;
  passkey_signature = passkey ++ passkey;
  nonce = 7;
}

abbrev rebind : MsgMigrateIdentity
rebind = record request { signer = codes "wevibe1b" }

abbrev migrated : State
migrated = record {
  params = none;
  aliases = (codes "alias/" ++ passkey, bound_alias 5 request) ∷ [];
}

request_accepted : migrate_identity lenient 5 request empty_state ≡ (ok tt, migrated)
unfolding migrate_identity validate_basic hex_decode has_length get_alias set_alias get insert
    alias_key text_eq
request_accepted = refl

migrate_ok_iff_example :
    ((migrate_identity lenient 5 request empty_state).0 ≡ ok tt)
    ↔ IsAcceptable lenient request empty_state
migrate_ok_iff_example = migrate_ok_iff lenient 5 request empty_state

migrated_resolves : resolve_identity passkey migrated ≡ (codes "wevibe1a", true, true)
unfolding resolve_identity get alias_key text_eq
migrated_resolves = refl

migrated_forever_example :
    resolve_identity passkey (run_migrations lenient ((6, rebind) ∷ (7, request) ∷ []) migrated)
    ≡ (codes "wevibe1a", true, true)
migrated_forever_example =
    migrated_forever lenient ((6, rebind) ∷ (7, request) ∷ []) migrated passkey (codes "wevibe1a")
      migrated_resolves

empty-IsCoherent : IsCoherent empty_state
empty-IsCoherent = record { sorted = tt; keyed = tt; formed = tt }

migrated-IsCoherent : IsCoherent migrated
migrated-IsCoherent =
    subst (λ (r : Result (Unit {0}) × State). IsCoherent r.1) request_accepted reached
  where
    reached : IsCoherent (migrate_identity lenient 5 request empty_state).1
    reached = migrate-IsCoherent lenient 5 request empty_state empty-IsCoherent

import-export_aliases_example :
    init_genesis_state (some (export_genesis_state migrated)) empty_state
    ≡ (ok tt, record { params = some (get_params migrated); aliases = migrated.aliases })
import-export_aliases_example = import-export_aliases migrated migrated-IsCoherent

rebind_refused :
    migrate_identity lenient 6 rebind migrated ≡ (err Error.alias_already_migrated, migrated)
unfolding migrate_identity validate_basic hex_decode has_length get_alias set_alias get insert
    alias_key text_eq
rebind_refused = refl
