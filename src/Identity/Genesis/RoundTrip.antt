-- ===== src/Identity/Genesis/RoundTrip.antt =====
-- Export and import of the identity module: what an exported genesis file is worth.
use wevibe_chain.Common.{
  ℕ, ◌≡◌, refl, ap, sym, ◌∙◌, true, false, Option, some, List, [], ◌∷◌, ◌++◌, Text, All, is_empty,
  text_eq, text_lt, text_lt_irrefl, text_lt_trans, text_eq→eq, ok, arith, Bool-cases, inl, inr, map,
  Result-cases,
}
use mathlib.Core.List.{append-nil, append_assoc}
use wevibe_chain.Common.Dict.{Dict, insert, values, Above, IsSorted}
use wevibe_chain.Common.Dict.Laws.{insert-IsSorted}
use wevibe_chain.Common.Dict.Rebuild.{
  IsKeyed, insert_all, insert_all-values, insert-IsKeyed, AllValues, insert-AllValues,
}
use wevibe_chain.External.{Sdk}
use wevibe_chain.Identity.Hex.{hex_decode, has_length}
use wevibe_chain.Identity.Types.{
  State, Params, StoredIdentityAlias, MsgMigrateIdentity, validate_basic, alias_key,
  public_key_size, empty_state,
}
use wevibe_chain.Identity.Keeper.{get_params, iterate_loop, iterate_aliases}
use wevibe_chain.Identity.MsgServer.{migrate_identity}
use wevibe_chain.Identity.Guards.{migrate_ok-validate_basic}
use wevibe_chain.Identity.Migration.{migrate_err_unchanged, bound_alias, migrate_ok_state}
use wevibe_chain.Identity.Genesis.{
  seen_before, validate_alias, validate_aliases, validate_genesis, set_aliases, init_genesis_state,
  export_alias, export_genesis_state,
}

abbrev pub own_key : StoredIdentityAlias → Text
own_key a = alias_key a.passkey_pubkey

-- What the genesis validation asks of an alias by itself.
pub record IsWellFormed (a : StoredIdentityAlias) : Type 0 where
  pub passkey : is_empty a.passkey_pubkey ≡ false
  pub size : has_length public_key_size (hex_decode a.passkey_pubkey) ≡ true
  pub wallet : is_empty a.wallet_address ≡ false

-- The store is in key order, each alias is under its own key, and each is well formed.
pub record IsCoherent (s : State) : Type 0 where
  pub sorted : IsSorted s.aliases
  pub keyed : IsKeyed own_key s.aliases
  pub formed : AllValues IsWellFormed s.aliases

accepted-IsWellFormed :
    (sdk : Sdk) (h : ℕ) (m : MsgMigrateIdentity) (s : State)
    → validate_basic m ≡ ok tt
    → IsWellFormed (bound_alias h m)
unfolding validate_basic
accepted-IsWellFormed sdk h m s a = ground arith

-- Every message, accepted or not, keeps the store coherent.
pub migrate-IsCoherent :
    (sdk : Sdk) (h : ℕ) (m : MsgMigrateIdentity) (s : State)
    → IsCoherent s
    → IsCoherent (migrate_identity sdk h m s).1
migrate-IsCoherent sdk h m s c = elim (Result-cases (migrate_identity sdk h m s).0) [
  | inr (x, failed) ↦ rw (migrate_err_unchanged sdk h m s failed) c
  | inl (u, done) ↦ rw (migrate_ok_state sdk h m s done) (record {
    sorted = insert-IsSorted _ _ s.aliases c.sorted;
    keyed = insert-IsKeyed own_key (bound_alias h m) s.aliases c.keyed;
    formed =
        insert-AllValues IsWellFormed _ _ s.aliases
          (accepted-IsWellFormed sdk h m s (migrate_ok-validate_basic sdk h m s done)) c.formed;
  })
]

export_loop :
    (vs : List StoredIdentityAlias) (out : List (Option StoredIdentityAlias))
    → iterate_loop export_alias false vs out ≡ out ++ map some vs
unfolding iterate_loop export_alias
export_loop [] out = sym (append-nil out)
export_loop (a ∷ vs) out =
    export_loop vs (out ++ (some a ∷ [])) ∙ append_assoc out (some a ∷ []) (map some vs)

export-aliases : (s : State) → (export_genesis_state s).aliases ≡ map some (values s.aliases)
unfolding export_genesis_state iterate_aliases
export-aliases s = export_loop (values s.aliases) []

import_loop :
    (vs : List StoredIdentityAlias) (s : State)
    → set_aliases (map some vs) s ≡ (ok tt, record s { aliases = insert_all own_key vs s.aliases })
unfolding set_aliases insert_all
import_loop [] s = refl
import_loop (a ∷ vs) s = import_loop vs (record s { aliases = insert (own_key a) a s.aliases })

-- The passkeys seen so far have keys below the key.
abbrev SeenBelow : List Text → Text → Type 0
SeenBelow seen k = All (λ p. text_lt (alias_key p) k ≡ true) seen

not_seen : (p : Text) (seen : List Text) → SeenBelow seen (alias_key p) → seen_before p seen ≡ false
unfolding seen_before
not_seen p [] h = refl
not_seen p (q ∷ seen) (lt, h) = elim (Bool-cases (text_eq p q)) [
  | inl e ↦ cc (
    text_lt_irrefl (alias_key p),
    lt,
    ap (λ (t : Text). text_lt (alias_key t) (alias_key p)) (text_eq→eq p q e),
  )
  | inr e ↦ rw (e, not_seen p seen h)
]

SeenBelow-mono :
    (seen : List Text) (j k : Text) → text_lt j k ≡ true → SeenBelow seen j → SeenBelow seen k
SeenBelow-mono [] j k lt h = tt
SeenBelow-mono (p ∷ seen) j k lt h =
    (text_lt_trans (alias_key p) j k h.0 lt, SeenBelow-mono seen j k lt h.1)

abbrev SeenBelowHead : List Text → Dict StoredIdentityAlias → Type 0
SeenBelowHead seen [] = Unit {0}
SeenBelowHead seen ((k, a) ∷ d) = SeenBelow seen k

validate_well_formed :
    (k : Text) (a : StoredIdentityAlias) (seen : List Text)
    → k ≡ own_key a
    → IsWellFormed a
    → SeenBelow seen k
    → validate_alias a seen ≡ ok tt
unfolding validate_alias
validate_well_formed k a seen e f b =
    rw (f.passkey, f.size, f.wallet, not_seen a.passkey_pubkey seen (rw e at b))

seen_next :
    (k : Text) (a : StoredIdentityAlias) (d : Dict StoredIdentityAlias) (seen : List Text)
    → Above k d
    → k ≡ own_key a
    → SeenBelow seen k
    → SeenBelowHead (a.passkey_pubkey ∷ seen) d
seen_next k a [] seen up e b = tt
seen_next k a ((j, c) ∷ d) seen up e b = (rw (← e) up.0, SeenBelow-mono seen k j up.0 b)

Above-IsSorted : (k : Text) (d : Dict StoredIdentityAlias) → Above k d → IsSorted d
Above-IsSorted k [] up = tt
Above-IsSorted k ((j, c) ∷ d) up = up.1

validate_values :
    (d : Dict StoredIdentityAlias) (seen : List Text)
    → IsSorted d
    → IsKeyed own_key d
    → AllValues IsWellFormed d
    → SeenBelowHead seen d
    → validate_aliases (map some (values d)) seen ≡ ok tt
unfolding validate_aliases
validate_values [] seen s k f b = refl
validate_values ((k, a) ∷ d) seen s key f b =
    rw (validate_well_formed k a seen key.0 f.0 b, validate_aliases)
      (validate_values d (a.passkey_pubkey ∷ seen) (Above-IsSorted k d s) key.1 f.1
        (seen_next k a d seen s key.0 b))

-- The export of a coherent store passes the genesis validation.
pub export-validates :
    (s : State) → IsCoherent s → validate_genesis (export_genesis_state s) ≡ ok tt
unfolding validate_genesis
export-validates s c =
    rw (export-aliases s) (validate_values s.aliases [] c.sorted c.keyed c.formed (start s.aliases))
  where
    start : (d : Dict StoredIdentityAlias) → SeenBelowHead [] d
    start [] = tt
    start ((k, a) ∷ d) = tt

export-params : (s : State) → (export_genesis_state s).params ≡ get_params s
unfolding export_genesis_state
export-params s = refl

import_exported :
    (s : State) (p : Option Params)
    → IsCoherent s
    → set_aliases (export_genesis_state s).aliases (record { params = p; aliases = [] })
      ≡ (ok tt, record { params = p; aliases = s.aliases })
import_exported s p c = rw (
  export-aliases s,
  import_loop (values s.aliases) (record { params = p; aliases = [] }),
  insert_all-values own_key s.aliases c.sorted c.keyed,
)

-- Importing the export of a coherent store into an empty store succeeds and gives the same aliases
-- and the same parameters.
pub import-export_aliases :
    (s : State)
    → IsCoherent s
    → init_genesis_state (some (export_genesis_state s)) empty_state
      ≡ (ok tt, record { params = some (get_params s); aliases = s.aliases })
unfolding init_genesis_state
import-export_aliases s c =
    ground (arith, export-validates s c, export-params s, import_exported s (some (get_params s)) c)
