-- ===== src/Identity/Keeper.antt =====
-- x/identity/keeper/keeper.go: the stored aliases.
use wevibe_chain.Common.{
  Bool, true, false, Option, none, some, List, [], ◌∷◌, Text, Error, Action, raise, modify,
}
use wevibe_chain.Common.Dict.{get, insert, values}
use wevibe_chain.Identity.Types.{State, Params, default_params, StoredIdentityAlias, alias_key}

unfoldable pub set_params : Params → Action State (Unit {0})
set_params p = modify (λ s. record s { params = some p })

unfoldable pub get_params : State → Params
get_params s = elim s.params [ none ↦ default_params | some p ↦ p ]

-- SetAlias; `none` is the nil pointer.
unfoldable pub set_alias : Option StoredIdentityAlias → Action State (Unit {0})
set_alias none = raise Error.alias_nil
set_alias (some a) =
    modify (λ s. record s { aliases = insert (alias_key a.passkey_pubkey) a s.aliases })

-- GetAlias: found is `some`.
unfoldable pub get_alias : Text → State → Option StoredIdentityAlias
get_alias passkey s = get (alias_key passkey) s.aliases

-- ResolveIdentity: wallet address, is migrated, found.
unfoldable pub resolve_identity : Text → State → Text × Bool × Bool
unfolding get_alias
resolve_identity passkey s = elim (get_alias passkey s) [
  | none ↦ ([], false, false)
  | some a ↦ (a.wallet_address, a.is_migrated, true)
]

-- The loop of IterateAliases: once the callback has returned false it is not called again. The
-- callback threads the state that its closure mutates.
unfoldable pub iterate_loop {ℓ} :
    {C : Type ℓ} → (StoredIdentityAlias → C → Bool × C) → Bool → List StoredIdentityAlias → C → C
iterate_loop cb stop [] c = c
iterate_loop cb true (a ∷ rest) c = iterate_loop cb true rest c
iterate_loop cb false (a ∷ rest) c =
    let (go_on, c') = cb a c in
    elim go_on [ true ↦ iterate_loop cb false rest c' | false ↦ iterate_loop cb true rest c' ]

unfoldable pub iterate_aliases {ℓ} :
    {C : Type ℓ} → (StoredIdentityAlias → C → Bool × C) → State → C → C
unfolding iterate_loop
iterate_aliases cb s c = iterate_loop cb false (values s.aliases) c
