-- ===== src/Identity/Guards.antt =====
-- What MigrateIdentity demands of a message, and that its guards test just that.
use wevibe_chain.Common.{
  ap, ℕ, ◌<◌, refl, ◌≡◌, ◌≢◌, inl, inr, true, false, Option, none, some, Option-cases, length, ◌++◌,
  is_empty, [], ◌∷◌, Text, get_or_empty, ok, arith, codes,
}
use wevibe_chain.Common.Decimal.{format_uint}
use wevibe_chain.Common.Dict.{get}
use wevibe_chain.External.{Sdk}
use wevibe_chain.Identity.Hex.{hex_decode, has_length}
use wevibe_chain.Identity.Types.{
  State, StoredIdentityAlias, MsgMigrateIdentity, validate_basic, alias_key, public_key_size,
  signature_size,
}
use wevibe_chain.Identity.Keeper.{set_alias, get_alias}
use wevibe_chain.Identity.MsgServer.{canonical, already_migrated, migrate_identity}

-- What a passkey has to sign for a migration to a wallet: four lines.
abbrev pub migration_text : Text → Text → ℕ → Text
migration_text passkey wallet nonce =
    codes "wevibe.migrate_identity.v1\npasskey_pubkey:"
    ++ (passkey ++ (codes "\nwallet:" ++ (wallet ++ (codes "\nnonce:" ++ format_uint nonce))))

-- A message with a signer that is an address, a hex key of 32 bytes and a hex signature of 64 bytes
-- that verifies for the text of the migration, where the key has no migrated alias.
pub record IsAcceptable (sdk : Sdk) (m : MsgMigrateIdentity) (s : State) : Type 0 where
  pub named : m.signer ≢ []
  pub address : Text
  pub is_address : sdk.acc_address_from_bech32 m.signer ≡ some address
  pub key : Text
  pub key_decoded : hex_decode m.passkey_pubkey ≡ some key
  pub key_size : length key ≡ 32
  pub signature : Text
  pub signature_decoded : hex_decode m.passkey_signature ≡ some signature
  pub signature_size : length signature ≡ 64
  pub signed :
      sdk.ed25519_verify key (migration_text m.passkey_pubkey m.signer m.nonce) signature ≡ true
  pub unbound :
      (a : StoredIdentityAlias)
      → get (alias_key m.passkey_pubkey) s.aliases ≡ some a
      → a.is_migrated ≡ false

canonical_lem :
    (m : MsgMigrateIdentity) → canonical m ≡ migration_text m.passkey_pubkey m.signer m.nonce
unfolding canonical
canonical_lem m = refl

-- A text that decodes to so many bytes.
decoded_inversion :
    (n : ℕ) (text : Text)
    → has_length n (hex_decode text) ≡ true
    → (bytes : Text) × (hex_decode text ≡ some bytes) × (length bytes ≡ n)
unfolding has_length
decoded_inversion n text h = elim (Option-cases (hex_decode text)) [
  | inl e ↦ ground arith
  | inr (bytes, e) ↦ (bytes, e, ground arith)
]

migrated_false :
    (o : Option StoredIdentityAlias) (a : StoredIdentityAlias)
    → already_migrated o ≡ false
    → o ≡ some a
    → a.is_migrated ≡ false
unfolding already_migrated
migrated_false none a h e = cc
migrated_false (some b) a h e = let same : b ≡ a = cc in rw (← same) h

already_migrated-false :
    (o : Option StoredIdentityAlias)
    → ((a : StoredIdentityAlias) → o ≡ some a → a.is_migrated ≡ false)
    → already_migrated o ≡ false
unfolding already_migrated
already_migrated-false none h = refl
already_migrated-false (some a) h = h a refl

named_text : (t : Text) → t ≢ [] → is_empty t ≡ false
named_text [] h = absurd (h refl)
named_text (c ∷ t) h = refl

decoded_named : (t b : Text) → hex_decode t ≡ some b → 0 < length b → is_empty t ≡ false
unfolding hex_decode
decoded_named [] b e h = let same : [] ≡ b = cc in ground (arith, ap length same)
decoded_named (c ∷ t) b e h = refl

-- The guards of the handler, as it tests them.
pub record HasPassed (sdk : Sdk) (m : MsgMigrateIdentity) (s : State) : Type 0 where
  pub well_formed : validate_basic m ≡ ok tt
  pub address : sdk.acc_address_from_bech32 m.signer ≢ none
  pub key_size : has_length public_key_size (hex_decode m.passkey_pubkey) ≡ true
  pub signature_length : has_length signature_size (hex_decode m.passkey_signature) ≡ true
  pub signed :
      sdk.ed25519_verify
        (get_or_empty (hex_decode m.passkey_pubkey))
        (canonical m)
        (get_or_empty (hex_decode m.passkey_signature))
      ≡ true
  pub unbound : already_migrated (get_alias m.passkey_pubkey s) ≡ false

pub migrate_ok→HasPassed :
    (sdk : Sdk) (h : ℕ) (m : MsgMigrateIdentity) (s : State)
    → (migrate_identity sdk h m s).0 ≡ ok tt
    → HasPassed sdk m s
unfolding migrate_identity
migrate_ok→HasPassed sdk h m s e = ground arith

pub migrate_ok-validate_basic :
    (sdk : Sdk) (h : ℕ) (m : MsgMigrateIdentity) (s : State)
    → (migrate_identity sdk h m s).0 ≡ ok tt
    → validate_basic m ≡ ok tt
migrate_ok-validate_basic sdk h m s e = (migrate_ok→HasPassed sdk h m s e).well_formed

pub HasPassed→migrate_ok :
    (sdk : Sdk) (h : ℕ) (m : MsgMigrateIdentity) (s : State)
    → HasPassed sdk m s
    → (migrate_identity sdk h m s).0 ≡ ok tt
unfolding migrate_identity set_alias
HasPassed→migrate_ok sdk h m s a = ground arith

pub HasPassed→IsAcceptable :
    (sdk : Sdk) (m : MsgMigrateIdentity) (s : State) → HasPassed sdk m s → IsAcceptable sdk m s
unfolding validate_basic get_alias
HasPassed→IsAcceptable sdk m s p =
    let (key, decoded, size) = decoded_inversion public_key_size m.passkey_pubkey p.key_size in
    let (sig, sig_decoded, sig_size) =
      decoded_inversion signature_size m.passkey_signature p.signature_length in
    elim (Option-cases (sdk.acc_address_from_bech32 m.signer)) [
      | inl e ↦ absurd (p.address e)
      | inr (address, e) ↦ record {
        named = λ empty. ground (arith, p.well_formed, ap is_empty empty);
        address = address;
        is_address = e;
        key = key;
        key_decoded = decoded;
        key_size = size;
        signature = sig;
        signature_decoded = sig_decoded;
        signature_size = sig_size;
        signed = ground (arith, p.signed, canonical_lem m, decoded, sig_decoded);
        unbound = λ a found. migrated_false _ a p.unbound found;
      }
    ]

pub IsAcceptable→HasPassed :
    (sdk : Sdk) (m : MsgMigrateIdentity) (s : State) → IsAcceptable sdk m s → HasPassed sdk m s
unfolding validate_basic get_alias has_length
IsAcceptable→HasPassed sdk m s a = record {
  well_formed = ground (
    arith,
    named_text m.signer a.named,
    decoded_named m.passkey_pubkey a.key a.key_decoded (omega (arith, a.key_size)),
    decoded_named m.passkey_signature a.signature a.signature_decoded
        (omega (arith, a.signature_size)),
    a.key_decoded,
    a.key_size,
    a.signature_decoded,
    a.signature_size,
  );
  address = ground (arith, a.is_address);
  key_size = ground (arith, a.key_decoded, a.key_size);
  signature_length = ground (arith, a.signature_decoded, a.signature_size);
  signed = ground (arith, a.signed, canonical_lem m, a.key_decoded, a.signature_decoded);
  unbound = already_migrated-false _ a.unbound;
}
