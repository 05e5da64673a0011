-- ===== src/Attestation/Tests.antt =====
-- Runs and instances for x/attestation.
use wevibe_chain.Common.{ℕ, ◌≡◌, ◌≢◌, refl, none, some, [], ◌∷◌, ◌++◌, Text, codes, ok, arith}
use mathlib.Core.List.{Mem}
use wevibe_chain.Common.Decimal.{format_uint}
use wevibe_chain.Common.Dict.{values}
use wevibe_chain.Common.Dict.Rebuild.{insert_all}
use wevibe_chain.Common.Range.{prefix_end_bytes}
use wevibe_chain.Attestation.Types.{
  State, StoredSessionAttestation, empty_state, attestation_key, content_hash_to_hex,
}
use wevibe_chain.Attestation.Keeper.{
  set_session_attestation, list_session_attestations, init_genesis, export_genesis,
}
use wevibe_chain.Attestation.Index.{attestation_by_epoch_key-injective}
use wevibe_chain.Attestation.Listing.{moved_attestation_stays}
use wevibe_chain.Attestation.Genesis.{own_epoch_key, import-export_attestations}

abbrev seen : StoredSessionAttestation
seen = record {
  org_id = codes "org/4";
  session_hash = 10 ∷ 255 ∷ [];
  model_id = codes "m";
  turn_count = 2;
  token_count = 30;
  provider_type = 1;
  commitllm_receipt_hash = [];
  provider_signature_hash = [];
  contributor_id = codes "c";
  epoch = 7;
  submitted_at_height = 5;
}

abbrev moved : StoredSessionAttestation
moved = record seen { epoch = 8 }

four : codes "org/4" ≡ codes "org" ++ (47 ∷ format_uint 4)
unfolding format_uint
four = refl

moved_later : moved.epoch ≢ seen.epoch
moved_later e = omega arith

moved_attestation_stays_example : Mem seen (
    list_session_attestations
      (codes "org/4")
      7
      (set_session_attestation moved (set_session_attestation seen empty_state).1).1)
moved_attestation_stays_example = moved_attestation_stays seen moved empty_state moved_later

attestation_by_epoch_key-injective_example :
    (codes "a/1" ≡ codes "a/1") × (◌≡◌ {A = ℕ} 2 2) × (◌≡◌ {A = Text} (9 ∷ []) (9 ∷ []))
attestation_by_epoch_key-injective_example =
    attestation_by_epoch_key-injective (codes "a/1") (codes "a/1") 2 2 (9 ∷ []) (9 ∷ []) refl

abbrev stored : State
stored = record {
  params = none;
  attestations = (codes "attestation/org/4/0aff", seen) ∷ [];
  by_epoch = (codes "session_epoch/org/4/7/0aff", seen) ∷ [];
}

stored_key : codes "attestation/org/4/0aff" ≡ attestation_key (codes "org/4") (10 ∷ 255 ∷ [])
unfolding attestation_key content_hash_to_hex
stored_key = refl

import-export_attestations_example : init_genesis (export_genesis stored) empty_state ≡ (
  ok tt,
  record {
    params = none;
    attestations = stored.attestations;
    by_epoch = insert_all own_epoch_key (values stored.attestations) [];
  },
)
import-export_attestations_example = import-export_attestations stored tt (stored_key, tt)

end_of_prefix : prefix_end_bytes (codes "a/") ≡ some (codes "a0")
unfolding prefix_end_bytes
end_of_prefix = refl

end_of_high_bytes : prefix_end_bytes (1 ∷ 255 ∷ []) ≡ some (2 ∷ 0 ∷ [])
unfolding prefix_end_bytes
end_of_high_bytes = refl
