-- ===== src/Identity/Migration.antt =====
-- What MigrateIdentity promises: it binds a passkey once, to the signer, and only with a valid
-- signature.
use wevibe_chain.Common.{
  Result-cases, text_eq, text_eq→eq, eq_false_ne, ap, ◌∙◌, ℕ, ◌≡◌, ◌≢◌, ◌↔◌, inl, inr, true, List,
  [], ◌∷◌, Text, ok, err, Error, arith, Bool-cases, append_cancel_left, codes,
}
use wevibe_chain.Common.Dict.{Dict, get, insert}
use wevibe_chain.Common.Dict.Laws.{get-insert_self, get-insert_ne}
use wevibe_chain.External.{Sdk}
use wevibe_chain.Identity.Types.{State, StoredIdentityAlias, MsgMigrateIdentity, alias_key}
use wevibe_chain.Identity.Keeper.{set_alias, get_alias, resolve_identity}
use wevibe_chain.Identity.MsgServer.{already_migrated, migrate_identity}
use wevibe_chain.Identity.Guards.{
  IsAcceptable, migrate_ok→HasPassed, HasPassed→migrate_ok, HasPassed→IsAcceptable,
  IsAcceptable→HasPassed,
}

alias_key-injective : (p q : Text) → alias_key p ≡ alias_key q → p ≡ q
unfolding alias_key
alias_key-injective p q h = append_cancel_left (codes "alias/") h

other_alias :
    (p q : Text)
    → p ≢ q
    → (a : StoredIdentityAlias) (d : Dict StoredIdentityAlias)
    → get (alias_key p) (insert (alias_key q) a d) ≡ get (alias_key p) d
other_alias p q ne a d =
    get-insert_ne (alias_key p) (alias_key q) a d (λ e. ne (alias_key-injective p q e))

-- MigrateIdentity succeeds exactly when the signer is not empty and is an address, key and signature
-- are hex of 32 and of 64 bytes, the signature verifies for the key and the four lines that name the
-- passkey, the signer and the nonce, and the passkey is not yet migrated.
pub migrate_ok_iff :
    (sdk : Sdk) (h : ℕ) (m : MsgMigrateIdentity) (s : State)
    → ((migrate_identity sdk h m s).0 ≡ ok tt) ↔ IsAcceptable sdk m s
migrate_ok_iff sdk h m s = (
  λ e. HasPassed→IsAcceptable sdk m s (migrate_ok→HasPassed sdk h m s e),
  λ a. HasPassed→migrate_ok sdk h m s (IsAcceptable→HasPassed sdk m s a),
)

-- A rejected migration leaves the store as it was.
pub migrate_err_unchanged :
    (sdk : Sdk) (h : ℕ) (m : MsgMigrateIdentity) (s : State) {e : Error}
    → (migrate_identity sdk h m s).0 ≡ err e
    → (migrate_identity sdk h m s).1 ≡ s
unfolding migrate_identity set_alias
migrate_err_unchanged sdk h m s e = ground arith

-- The alias that an accepted message stores.
abbrev pub bound_alias : ℕ → MsgMigrateIdentity → StoredIdentityAlias
bound_alias h m = record {
  passkey_pubkey = m.passkey_pubkey;
  wallet_address = m.signer;
  is_migrated = true;
  migrated_at_epoch = h;
}

pub migrate_ok_state :
    (sdk : Sdk) (h : ℕ) (m : MsgMigrateIdentity) (s : State)
    → (migrate_identity sdk h m s).0 ≡ ok tt
    → (migrate_identity sdk h m s).1
      ≡ record s { aliases = insert (alias_key m.passkey_pubkey) (bound_alias h m) s.aliases }
unfolding migrate_identity set_alias
migrate_ok_state sdk h m s e = ground arith

-- After an accepted migration the passkey resolves to the signer, as migrated and found, and any
-- other passkey resolves as before.
pub migrate_binds :
    (sdk : Sdk) (h : ℕ) (m : MsgMigrateIdentity) (s : State)
    → (migrate_identity sdk h m s).0 ≡ ok tt
    → (resolve_identity m.passkey_pubkey (migrate_identity sdk h m s).1 ≡ (m.signer, true, true))
      × ((p : Text)
          → p ≢ m.passkey_pubkey
          → resolve_identity p (migrate_identity sdk h m s).1 ≡ resolve_identity p s)
unfolding migrate_identity set_alias resolve_identity get_alias
migrate_binds sdk h m s e =
    (grind (arith, get-insert_self), λ p ne. grind (arith, other_alias p m.passkey_pubkey ne))

migrated-already_migrated :
    (p w : Text) (s : State)
    → resolve_identity p s ≡ (w, true, true)
    → already_migrated (get_alias p s) ≡ true
unfolding resolve_identity already_migrated
migrated-already_migrated p w s e = ground arith

-- One message never changes what a migrated passkey resolves to.
migrate_keeps_migrated :
    (sdk : Sdk) (h : ℕ) (m : MsgMigrateIdentity) (s : State) (p w : Text)
    → resolve_identity p s ≡ (w, true, true)
    → resolve_identity p (migrate_identity sdk h m s).1 ≡ (w, true, true)
migrate_keeps_migrated sdk h m s p w e = elim (Result-cases (migrate_identity sdk h m s).0) [
  | inr (x, failed) ↦ rw (migrate_err_unchanged sdk h m s failed) e
  | inl (u, done) ↦ elim (Bool-cases (text_eq p m.passkey_pubkey)) [
    | inl same ↦ cc (
      (migrate_ok→HasPassed sdk h m s done).unbound,
      migrated-already_migrated p w s e,
      ap (λ (t : Text). already_migrated (get_alias t s)) (text_eq→eq p _ same),
    )
    | inr other ↦ (migrate_binds sdk h m s done).1 p (eq_false_ne p _ other) ∙ e
  ]
]

-- The messages of a chain's history, each at its block height; a rejected one leaves its state.
unfoldable pub run_migrations : Sdk → List (ℕ × MsgMigrateIdentity) → State → State
run_migrations sdk [] s = s
run_migrations sdk ((h, m) ∷ ms) s = run_migrations sdk ms (migrate_identity sdk h m s).1

-- Once a passkey is migrated to a wallet, no sequence of further messages rebinds it.
pub migrated_forever :
    (sdk : Sdk) (ms : List (ℕ × MsgMigrateIdentity)) (s : State) (p w : Text)
    → resolve_identity p s ≡ (w, true, true)
    → resolve_identity p (run_migrations sdk ms s) ≡ (w, true, true)
unfolding run_migrations
migrated_forever sdk [] s p w e = e
migrated_forever sdk ((h, m) ∷ ms) s p w e =
    migrated_forever sdk ms _ p w (migrate_keeps_migrated sdk h m s p w e)
