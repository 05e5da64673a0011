-- ===== src/Serve/RecordTests.antt =====
-- Runs and instances for the denials, the events, the policy anchors and the expired memories of
-- x/serve.
use wevibe_chain.Common.{
  ℕ, ◌+◌, ◌≡◌, refl, true, false, none, some, [], ◌∷◌, ◌++◌, codes, text_eq, ok, arith, length,
}
use wevibe_chain.Common.Dict.{get}
use wevibe_chain.Attestation.Types.{content_hash_to_hex, hex_digit}
use wevibe_chain.Common.Decimal.{format_uint}
use wevibe_chain.Memory.Types.{MemoryCommitment, approved_key}
use wevibe_chain.Memory.Tests.{hash}
use wevibe_chain.Memory.Validity.{check_epoch_expiry, get_approved_memory}
use wevibe_chain.Memory.Archived.{IsClosedAt}
use wevibe_chain.Memory.ExpiryTests.{
  window, timed, timed-IsKeyed, timed_found, window_over, window_decodes, timed_checked,
}
use wevibe_chain.Serve.Types.{
  DenialEntry, StoredServeReceipt, StoredPolicyAnchor, stored_to_serve_receipt,
}
use wevibe_chain.Serve.Store.{
  EventEntry, EventBody, StoredEvent, empty_state, denial_fingerprint_key, serve_fingerprint_key,
  receipt_key, event_key, event_fingerprint_key, policy_anchor_key,
}
use wevibe_chain.Serve.Keeper.{
  get_serve_receipt_by_fingerprint, has_denial_fingerprint, get_memory_serve_count,
}
use wevibe_chain.Serve.Batch.{World, Counts, no_counts, is_servable}
use wevibe_chain.Serve.Denials.{
  DenialVerdict, DenialCounts, is_denial_signed, judge_denial, judge_receipt, process_denials,
}
use wevibe_chain.Serve.Accusations.{denial_lines, judge_denial_lem, process_denials_lem}
use wevibe_chain.Serve.Events.{process_event_batch}
use wevibe_chain.Serve.EventLog.{
  IsRecorded, process_event_batch_lem, process_event_batch-IsRecorded,
}
use wevibe_chain.Serve.Policy.{get_policy_anchor, anchor_all, anchored_forever, new_anchor}
use wevibe_chain.Serve.Expired.{expired_servable}
use wevibe_chain.Serve.Genesis.{init_genesis, import_resets_caps}
use wevibe_chain.Serve.Tests.{outside, opened}

abbrev receipt : StoredServeReceipt
receipt = record {
  org_id = codes "org";
  memory_content_hash = hash;
  contributor_id = codes "c";
  epoch = 7;
  is_self_serve = false;
  model_id = codes "m";
  turn_count = 3;
  serve_key_pubkey = hash;
  fingerprint = hash;
  episode_ref = 2 ∷ [];
}

-- One serve has its receipt.
abbrev served : World ℕ
served = record opened {
  state = record empty_state {
    fingerprints = (serve_fingerprint_key hash, receipt_key (codes "org") 7 hash) ∷ [];
    receipts = (receipt_key (codes "org") 7 hash, receipt) ∷ [];
  };
}

abbrev denial : DenialEntry
denial = record {
  memory_hash = hash;
  reason = codes "wrong";
  serve_key_pubkey = hash;
  serve_sig = hash ++ hash;
  serve_fingerprint = hash;
  nonce = 1 ∷ [];
  neg_anchor = [];
}

denial_accepted : judge_denial outside (codes "org") 7 denial served ≡ DenialVerdict.accept receipt
unfolding judge_denial is_denial_signed judge_receipt has_denial_fingerprint get
    get_serve_receipt_by_fingerprint text_eq serve_fingerprint_key receipt_key content_hash_to_hex
    hex_digit format_uint get_approved_memory approved_key
denial_accepted = refl

judge_denial_lem_example :
    (length denial.serve_key_pubkey ≡ 32)
    × (length denial.serve_sig ≡ 64)
    × (outside.sdk.ed25519_verify denial.serve_key_pubkey
          (denial_lines (codes "org") 7 denial denial.nonce)
          denial.serve_sig
        ≡ true)
    × (get
          (denial_fingerprint_key (outside.sha256 (denial_lines (codes "org") 7 denial [])))
          served.state.denial_fingerprints
        ≡ none)
    × (get_serve_receipt_by_fingerprint hash served.state ≡ some receipt)
    × (hash ≡ hash)
    × (hash ≡ hash)
    × ((m : MemoryCommitment) × (get_approved_memory (codes "org") hash served.memory ≡ ok m))
judge_denial_lem_example =
    judge_denial_lem outside (codes "org") 7 denial receipt served denial_accepted

abbrev no_denials : DenialCounts
no_denials = record { accepted = 0; rejected = 0 }

process_denials_lem_example :
    let (d, w') =
      process_denials outside (codes "org") 7 (denial ∷ (denial ∷ [])) no_denials served in
    (d.accepted + d.rejected ≡ 0 + 0 + 2)
    × (length w'.state.denial_fingerprints + 0
        ≡ length served.state.denial_fingerprints + d.accepted)
process_denials_lem_example =
    process_denials_lem outside (codes "org") 7 (denial ∷ (denial ∷ [])) no_denials served
      (omega arith)

abbrev event : EventEntry
event = record {
  event_type = 8;
  memory_content_hash = hash;
  signer_pubkey = hash;
  nonce = 1 ∷ [];
  signature = hash ++ hash;
  body = EventBody.convergence (record { convergence_ref = 5 ∷ [] });
}

process_event_batch_lem_example :
    let (r, w') =
      process_event_batch outside (codes "org") 7 (event ∷ (event ∷ [])) no_counts opened in
    (d : Counts) × (r ≡ ok d)
    × (d.accepted + (d.rejected_duplicate + d.rejected_invalid) ≡ 0 + (0 + 0) + 2)
    × (length w'.state.event_fingerprints + 0 ≡ length opened.state.event_fingerprints + d.accepted)
process_event_batch_lem_example =
    process_event_batch_lem outside (codes "org") 7 (event ∷ (event ∷ [])) no_counts opened
      (refl, (refl, tt)) (omega arith)

abbrev logged : StoredEvent
logged = record {
  org_id = codes "org";
  epoch = 6;
  event_type = 8;
  memory_content_hash = hash;
  signer_pubkey = hash;
  nonce = 1 ∷ [];
  signature = hash ++ hash;
  fingerprint = hash;
  body = EventBody.convergence (record { convergence_ref = 5 ∷ [] });
}

abbrev log : World ℕ
log = record opened {
  state = record empty_state {
    events = (event_key (codes "org") 6 hash, logged) ∷ [];
    event_fingerprints = (event_fingerprint_key hash, tt) ∷ [];
  };
}

log-IsRecorded : IsRecorded (codes "org") 6 hash logged log.state
unfolding get text_eq event_key event_fingerprint_key content_hash_to_hex hex_digit format_uint
log-IsRecorded = record { logged = refl; known = refl }

process_event_batch-IsRecorded_example :
    IsRecorded
      (codes "org")
      6
      hash
      logged
      (process_event_batch outside (codes "org") 7 (event ∷ []) no_counts log).1.state
process_event_batch-IsRecorded_example =
    process_event_batch-IsRecorded outside (codes "org") 7 (event ∷ []) no_counts log (codes "org")
      hash 6 logged log-IsRecorded

abbrev anchored : StoredPolicyAnchor
anchored = new_anchor 40 (codes "v1") hash

v1_anchored :
    get_policy_anchor
      (codes "v1")
      (record empty_state { anchors = (policy_anchor_key (codes "v1"), anchored) ∷ [] })
    ≡ some anchored
unfolding get_policy_anchor get text_eq policy_anchor_key
v1_anchored = refl

anchored_forever_example :
    get_policy_anchor (codes "v1") (
      anchor_all
        ((41, codes "v1", codes "x") ∷ ((42, codes "v2", hash) ∷ []))
        (record empty_state { anchors = (policy_anchor_key (codes "v1"), anchored) ∷ [] }))
    ≡ some anchored
anchored_forever_example =
    anchored_forever ((41, codes "v1", codes "x") ∷ ((42, codes "v2", hash) ∷ [])) (codes "v1")
      anchored (record empty_state { anchors = (policy_anchor_key (codes "v1"), anchored) ∷ [] })
      v1_anchored

expired_servable_example :
    IsClosedAt (approved_key (codes "org") hash) (check_epoch_expiry 10 timed).1.memories
    × (is_servable outside (codes "org") 11 hash (check_epoch_expiry 10 timed).1 ≡ ok true)
expired_servable_example =
    expired_servable outside (codes "org") hash window 10 11 timed tt timed-IsKeyed timed_found refl
      window_decodes window_over timed_checked

import_resets_caps_example :
    get_memory_serve_count (codes "org") hash 7 (
      init_genesis
        (λ m. m)
        (record {
          serve_receipts = stored_to_serve_receipt receipt ∷ [];
          denial_receipts = none ∷ [];
          events = some logged ∷ [];
          policy_anchors = some anchored ∷ [];
          epoch_stats = [];
          contributor_serves = [];
        })
        empty_state)
    ≡ 0
import_resets_caps_example =
    import_resets_caps (λ m. m)
      (record {
        serve_receipts = stored_to_serve_receipt receipt ∷ [];
        denial_receipts = none ∷ [];
        events = some logged ∷ [];
        policy_anchors = some anchored ∷ [];
        epoch_stats = [];
        contributor_serves = [];
      })
      (codes "org") hash 7
