-- ===== src/Identity/Genesis.antt =====
-- x/identity/types/genesis.go and the genesis of keeper.go: validation, import and export. A panic
-- of the import is an error here.
pub mod RoundTrip
use wevibe_chain.Common.{
  ℕ, Bool, true, false, Option, none, some, List, [], ◌∷◌, ◌++◌, ◌||◌, Text, text_eq, is_empty, not,
  if◌then◌else◌, Result, ok, err, Error, Action, lift, ◌>>=◌, ◌>>◌,
}
use wevibe_chain.Identity.Hex.{hex_decode, has_length}
use wevibe_chain.Identity.Types.{
  State, Params, default_params, StoredIdentityAlias, GenesisState, public_key_size,
}
use wevibe_chain.Identity.Keeper.{set_params, get_params, set_alias, iterate_aliases}

unfoldable pub default_genesis : GenesisState
default_genesis = record { aliases = []; params = default_params }

-- The map `seen`.
unfoldable pub seen_before : Text → List Text → Bool
unfolding text_eq
seen_before k [] = false
seen_before k (j ∷ seen) = text_eq k j || seen_before k seen

unfoldable pub validate_alias : StoredIdentityAlias → List Text → Result (Unit {0})
unfolding seen_before
validate_alias a seen =
    if is_empty a.passkey_pubkey
    then err Error.invalid_passkey_pubkey
    else (if not (has_length public_key_size (hex_decode a.passkey_pubkey))
        then err Error.invalid_passkey_pubkey
        else (if is_empty a.wallet_address
            then err Error.invalid_wallet_address
            else (if seen_before a.passkey_pubkey seen
                then err Error.duplicate_passkey
                else ok tt)))

unfoldable pub validate_aliases : List (Option StoredIdentityAlias) → List Text → Result (Unit {0})
unfolding validate_alias
validate_aliases [] seen = ok tt
validate_aliases (none ∷ rest) seen = err Error.alias_nil
validate_aliases (some a ∷ rest) seen = elim (validate_alias a seen) [
  | err e ↦ err e
  | ok u ↦ validate_aliases rest (a.passkey_pubkey ∷ seen)
]

-- GenesisState.Validate; Params.Validate of this module accepts everything.
unfoldable pub validate_genesis : GenesisState → Result (Unit {0})
unfolding validate_aliases
validate_genesis g = validate_aliases g.aliases []

-- The loop of InitGenesisState, which skips a nil alias.
unfoldable pub set_aliases : List (Option StoredIdentityAlias) → Action State (Unit {0})
unfolding set_alias
set_aliases [] s = (ok tt, s)
set_aliases (none ∷ rest) s = set_aliases rest s
set_aliases (some a ∷ rest) s = (set_alias (some a) >> set_aliases rest) s

unfoldable pub init_genesis_state : Option GenesisState → Action State (Unit {0})
unfolding validate_genesis set_params set_aliases default_genesis
init_genesis_state given =
    let g : GenesisState = elim given [ none ↦ default_genesis | some g ↦ g ] in
    do lift (validate_genesis g); set_params g.params; set_aliases g.aliases

-- The callback of ExportGenesisState appends a copy and goes on.
unfoldable pub export_alias :
    StoredIdentityAlias
    → List (Option StoredIdentityAlias)
    → Bool × List (Option StoredIdentityAlias)
export_alias a out = (true, out ++ (some a ∷ []))

unfoldable pub export_genesis_state : State → GenesisState
unfolding export_alias
export_genesis_state s = record {
  aliases = iterate_aliases export_alias s [];
  params = get_params s;
}
