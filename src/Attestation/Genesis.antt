-- ===== src/Attestation/Genesis.antt =====
-- The genesis of x/attestation/keeper/keeper.go.
use wevibe_chain.Common.{◌≡◌, refl, ◌∙◌, true, none, List, [], ◌∷◌, Text, codes, ok, arith}
use wevibe_chain.Common.Dict.{Dict, values, IsSorted}
use wevibe_chain.Common.Dict.Rebuild.{IsKeyed, insert_all, insert_all-values}
use wevibe_chain.Common.Range.{
  range, in_range, prefix_end_bytes, in_range-prefix_end_bytes, has_prefix-append,
}
use wevibe_chain.Attestation.Types.{
  State, StoredSessionAttestation, attestation_key, attestation_by_epoch_key, empty_state,
}
use wevibe_chain.Attestation.Keeper.{
  set_session_attestation, set_attestations, init_genesis, export_genesis,
}

abbrev pub own_key : StoredSessionAttestation → Text
own_key a = attestation_key a.org_id a.session_hash

abbrev pub own_epoch_key : StoredSessionAttestation → Text
own_epoch_key a = attestation_by_epoch_key a.org_id a.epoch a.session_hash

set_attestations_lem :
    (l : List StoredSessionAttestation) (s : State)
    → set_attestations l s ≡ (
      ok tt,
      record s {
        attestations = insert_all own_key l s.attestations;
        by_epoch = insert_all own_epoch_key l s.by_epoch;
      },
    )
unfolding set_attestations set_session_attestation insert_all
set_attestations_lem [] s = refl
set_attestations_lem (a ∷ l) s = set_attestations_lem l (set_session_attestation a s).1

own_key-in_range :
    (a : StoredSessionAttestation)
    → in_range (codes "attestation/") (prefix_end_bytes (codes "attestation/")) (own_key a) ≡ true
unfolding attestation_key
own_key-in_range a =
    in_range-prefix_end_bytes (codes "attestation") 47 _ (omega arith)
    ∙ has_prefix-append (codes "attestation/") _

-- The range of the first index is all of it.
range_whole :
    (d : Dict StoredSessionAttestation)
    → IsKeyed own_key d
    → range (codes "attestation/") (prefix_end_bytes (codes "attestation/")) d ≡ d
unfolding range
range_whole [] h = refl
range_whole ((k, a) ∷ d) h = rw (h.0, own_key-in_range a, range_whole d h.1)

-- Importing the export of a store whose first index is in key order, each attestation under its own
-- key, into an empty store gives back that index, the second one rebuilt from it, and no parameters.
pub import-export_attestations :
    (s : State)
    → IsSorted s.attestations
    → IsKeyed own_key s.attestations
    → init_genesis (export_genesis s) empty_state ≡ (
      ok tt,
      record {
        params = none;
        attestations = s.attestations;
        by_epoch = insert_all own_epoch_key (values s.attestations) [];
      },
    )
unfolding init_genesis export_genesis
import-export_attestations s sorted keyed =
    rw (range_whole s.attestations keyed, set_attestations_lem)
      (rw (insert_all-values own_key s.attestations sorted keyed) refl)
