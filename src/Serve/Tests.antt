-- ===== src/Serve/Tests.antt =====
-- Runs and instances for the batches of serves of x/serve, with a hash that is the identity.
use wevibe_chain.Common.{
  ℕ, ◌+◌, ◌≤◌, ◌≡◌, ◌≢◌, refl, true, none, some, List, [], ◌∷◌, ◌++◌, map, Text, codes, text_eq,
  text_lt, ok, arith, uint64_max, add64, length,
}
use wevibe_chain.Common.Join.{join_lines}
use wevibe_chain.Common.Decimal.{format_uint}
use wevibe_chain.Common.Dict.{get, insert}
use wevibe_chain.Bandwidth.Types as BandwidthTypes
use wevibe_chain.Bandwidth.Keeper as BandwidthKeeper
use wevibe_chain.Memory.Types as MemoryTypes
use wevibe_chain.Memory.Types.{MemoryCommitment, MemoryState, approved_key}
use wevibe_chain.Memory.Validity.{get_approved_memory, is_valid_in_epoch}
use wevibe_chain.Memory.Tests.{hash}
use wevibe_chain.Attestation.Types.{content_hash_to_hex, hex_digit}
use wevibe_chain.Memory.Validity
use wevibe_chain.Serve.Types
use wevibe_chain.Serve.Store
use wevibe_chain.Serve.Canonical
use wevibe_chain.Serve.Keeper
use wevibe_chain.Serve.Batch
use wevibe_chain.Serve.Types.{ServeEntry, StoredServeReceipt, default_params}
use wevibe_chain.Serve.Store.{State, empty_state, serve_fingerprint_key, receipt_key}
use wevibe_chain.Serve.Canonical.{canonical_serve_body, canonical_denial_body}
use wevibe_chain.Serve.Keeper.{get_params, stats_of, get_memory_serve_count}
use wevibe_chain.Serve.Batch.{
  World, Outside, Counts, no_counts, Verdict, is_signed, serve_fingerprint, process_serve_batch,
  process_serves, judge_serve, store_serve,
}
use wevibe_chain.Serve.Signing.{canonical_serve_body-injective, serve_body-ne-denial_body}
use wevibe_chain.Serve.Replay.{process_serve_batch_lem}
use wevibe_chain.Serve.Ledger.{ledger_run}
use wevibe_chain.Serve.Refinement.{view, offer, process_serves_refines}
use wevibe_chain.Serve.Caps.{IsCapped, process_serve_batch-IsCapped}
use wevibe_chain.Serve.Receipts.{
  empty-IsPointed, process_serve_batch-receipts, fingerprint_crosses_orgs,
}
use wevibe_chain.Serve.Statistics.{process_serve_batch-total}
use wevibe_chain.Serve.Messages
use wevibe_chain.Serve.Messages.{MsgSubmitServeBatch, validate_serve_batch}
use wevibe_chain.Serve.MsgServer
use wevibe_chain.Serve.MsgServer.{OrgKeeper, authorise, submit_serve_batch}
use wevibe_chain.Serve.Authority.{IsAuthorised, submit_serve_batch-IsAuthorised}

abbrev pub outside : Outside ℕ
outside = record {
  sdk = record { ed25519_verify = λ key message sig. true; acc_address_from_bech32 = λ s. some s };
  sha256 = λ message. message;
  unmarshal_scope = λ s. none;
  record_serve = λ contributor org epoch self n. (ok tt, n + 1);
}

abbrev pub memory : MemoryCommitment
memory = record {
  org_id = codes "org";
  content_hash = hash;
  encrypted_blob = [];
  keywords = [];
  contributor = codes "con";
  contributor_address = [];
  producer_model_id = [];
  attestation_session_hash = [];
  epoch = 0;
  committed_at_height = 0;
  committing_leader = codes "lea";
  state = MemoryState.committed;
  last_active_epoch = 0;
  wrapped_dek_enc = [];
  plaintext_hash = [];
  salt = [];
  ciphertext_hash = [];
  wrapped_dek_hash = [];
  contributor_sig = [];
  memory_type = 1;
  approved_at_epoch = 5;
  mc_version = 1;
}

abbrev pub opened : World ℕ
opened = record {
  state = empty_state;
  bandwidth = BandwidthTypes.empty_state;
  memory = record MemoryTypes.empty_state {
    memories = (approved_key (codes "org") hash, memory) ∷ [];
  };
  reputation = 0;
}

abbrev pub serve : ServeEntry
serve = record {
  memory_content_hash = hash;
  contributor_id = codes "c";
  model_id = codes "m";
  turn_count = 3;
  contributor_wallet = [];
  serve_key_pubkey = hash;
  serve_sig = hash ++ hash;
  nonce = 1 ∷ [];
  episode_ref = 2 ∷ [];
}

abbrev pub serves : List ServeEntry
serves = serve ∷ (serve ∷ [])

abbrev pub answered : Counts
answered = record { accepted = 1; rejected_duplicate = 1; rejected_invalid = 0 }

pub batch_answered : (process_serve_batch outside (codes "org") 7 serves opened).0 ≡ ok answered
unfolding process_serve_batch text_eq text_lt get insert add64 get_params default_params
    BandwidthKeeper.consume_serve_bandwidth BandwidthKeeper.get_or_init_bandwidth_state
    BandwidthKeeper.put_state BandwidthKeeper.charge_serve BandwidthTypes.new_bandwidth_state
    BandwidthKeeper.caps BandwidthKeeper.get_params BandwidthTypes.default_params
    BandwidthTypes.override_key BandwidthTypes.state_key Keeper.has_serve_fingerprint
    get_approved_memory approved_key content_hash_to_hex is_valid_in_epoch hex_digit format_uint
    join_lines MemoryTypes.validity_key Validity.get_validity_metadata Batch.accept_serve
    Batch.consume_bandwidth Batch.credit_serve Batch.is_self_serve Batch.is_servable is_signed
    judge_serve process_serves Batch.receipt_of serve_fingerprint Batch.serve_round store_serve
    Batch.tally Canonical.big_endian canonical_serve_body Canonical.compute_serve_fingerprint
    Keeper.count_memory Keeper.count_model Keeper.count_serve Keeper.count_serve_key
    Keeper.increment_memory_serve_count Keeper.put_receipt Keeper.put_stats Keeper.serves_of
    get_memory_serve_count stats_of Keeper.update_contributor_serves Keeper.update_epoch_stats
    Store.contributor_key Store.key_first_key Store.mem_count_key Store.mem_first_key receipt_key
    serve_fingerprint_key Store.stats_key Types.add_org_id Types.new_contributor_epoch_serves
    Types.new_epoch_serve_stats Types.serve_receipt_to_stored
batch_answered = refl

-- The world after the batch.
abbrev pub after : World ℕ
after = (process_serve_batch outside (codes "org") 7 serves opened).1

process_serve_batch_lem_example :
    (1 + (1 + 0) ≡ 2)
    × (length after.state.fingerprints ≡ length opened.state.fingerprints + 1)
    × (2 ≤ (get_params opened.state).max_serves_per_batch)
process_serve_batch_lem_example =
    process_serve_batch_lem outside (codes "org") 7 serves answered opened (omega arith)
      batch_answered

process_serves_refines_example :
    let (r, w') = process_serves outside (codes "org") 7 default_params serves no_counts opened in
    (r, view w'.state)
    ≡ ledger_run
        (codes "org")
        7
        default_params.max_serves_per_memory_per_epoch
        (map (offer outside (codes "org") 7 opened.memory) serves)
        no_counts
        (view opened.state)
process_serves_refines_example =
    process_serves_refines outside (codes "org") 7 default_params serves no_counts opened

process_serve_batch-IsCapped_example :
    IsCapped
      (get_params opened.state).max_serves_per_memory_per_epoch
      (get_memory_serve_count (codes "org") hash 7 opened.state)
      (get_memory_serve_count (codes "org") hash 7 after.state)
process_serve_batch-IsCapped_example =
    process_serve_batch-IsCapped outside (codes "org") 7 serves opened (codes "org") hash 7

abbrev print : Text
print = serve_fingerprint outside (codes "org") 7 serve

print_found :
    get (serve_fingerprint_key print) after.state.fingerprints
    ≡ some (receipt_key (codes "org") 7 print)
unfolding process_serve_batch text_eq text_lt get insert add64 get_params default_params
    BandwidthKeeper.consume_serve_bandwidth BandwidthKeeper.get_or_init_bandwidth_state
    BandwidthKeeper.put_state BandwidthKeeper.charge_serve BandwidthTypes.new_bandwidth_state
    BandwidthKeeper.caps BandwidthKeeper.get_params BandwidthTypes.default_params
    BandwidthTypes.override_key BandwidthTypes.state_key Keeper.has_serve_fingerprint
    get_approved_memory approved_key content_hash_to_hex is_valid_in_epoch hex_digit format_uint
    join_lines MemoryTypes.validity_key Validity.get_validity_metadata Batch.accept_serve
    Batch.consume_bandwidth Batch.credit_serve Batch.is_self_serve Batch.is_servable is_signed
    judge_serve process_serves Batch.receipt_of serve_fingerprint Batch.serve_round store_serve
    Batch.tally Canonical.big_endian canonical_serve_body Canonical.compute_serve_fingerprint
    Keeper.count_memory Keeper.count_model Keeper.count_serve Keeper.count_serve_key
    Keeper.increment_memory_serve_count Keeper.put_receipt Keeper.put_stats Keeper.serves_of
    get_memory_serve_count stats_of Keeper.update_contributor_serves Keeper.update_epoch_stats
    Store.contributor_key Store.key_first_key Store.mem_count_key Store.mem_first_key receipt_key
    serve_fingerprint_key Store.stats_key Types.add_org_id Types.new_contributor_epoch_serves
    Types.new_epoch_serve_stats Types.serve_receipt_to_stored
print_found = refl

process_serve_batch-receipts_example :
    (r : StoredServeReceipt) × (get (receipt_key (codes "org") 7 print) after.state.receipts
      ≡ some r)
    × (r.fingerprint ≡ print)
    × (receipt_key (codes "org") 7 print ≡ receipt_key r.org_id r.epoch print)
process_serve_batch-receipts_example =
    process_serve_batch-receipts outside (codes "org") 7 serves opened print
      (receipt_key (codes "org") 7 print) empty-IsPointed print_found

no_serves : (stats_of (codes "org") 7 opened.state).total_serves + length serves ≤ uint64_max
unfolding stats_of get Types.new_epoch_serve_stats
no_serves = omega arith

process_serve_batch-total_example :
    (stats_of (codes "org") 7 after.state).total_serves
    ≡ (stats_of (codes "org") 7 opened.state).total_serves + 1
process_serve_batch-total_example =
    process_serve_batch-total outside (codes "org") 7 serves answered opened batch_answered
      no_serves

canonical_serve_body-injective_example :
    (codes "a" ≡ codes "a")
    × (hash ≡ hash)
    × (◌≡◌ {A = ℕ} 7 7)
    × (hash ≡ hash)
    × (hash ≡ hash)
    × (hash ≡ hash)
canonical_serve_body-injective_example =
    canonical_serve_body-injective (codes "a") (codes "a") hash hash 7 7 hash hash hash hash hash
      hash refl

serve_body-ne-denial_body_example :
    canonical_serve_body (codes "a") hash 7 hash hash hash
    ≢ canonical_denial_body (codes "a") hash 7 hash hash hash
serve_body-ne-denial_body_example =
    serve_body-ne-denial_body (codes "a") (codes "a") hash hash 7 7 hash hash hash hash hash hash

serve_signed : is_signed outside (codes "other") 7 serve ≡ true
unfolding is_signed
serve_signed = refl

fingerprint_crosses_orgs_example :
    judge_serve outside
      (codes "other")
      7
      (get_params opened.state)
      serve
      (record opened { state = store_serve outside (codes "org") 7 serve opened.state })
    ≡ ok Verdict.duplicate
fingerprint_crosses_orgs_example =
    fingerprint_crosses_orgs outside (codes "org") (codes "other") 7 serve serve opened serve_signed
      refl refl

abbrev pub orgs : OrgKeeper
orgs = record {
  has_org = λ o. ok (text_eq o (codes "org"));
  get_serving_address = λ o. ok (codes "hub");
}

abbrev batch : MsgSubmitServeBatch
batch = record { signer = codes "hub"; org_id = codes "org"; epoch = 7; serves = serves }

batch_submitted : (submit_serve_batch outside orgs batch opened).0 ≡ ok answered
unfolding submit_serve_batch authorise MsgServer.require_serving_key_signer validate_serve_batch
    Messages.validate_serve process_serve_batch text_eq text_lt get insert add64 get_params
    default_params BandwidthKeeper.consume_serve_bandwidth
    BandwidthKeeper.get_or_init_bandwidth_state BandwidthKeeper.put_state
    BandwidthKeeper.charge_serve BandwidthTypes.new_bandwidth_state BandwidthKeeper.caps
    BandwidthKeeper.get_params BandwidthTypes.default_params BandwidthTypes.override_key
    BandwidthTypes.state_key Keeper.has_serve_fingerprint get_approved_memory approved_key
    content_hash_to_hex is_valid_in_epoch hex_digit format_uint join_lines MemoryTypes.validity_key
    Validity.get_validity_metadata Batch.accept_serve Batch.consume_bandwidth Batch.credit_serve
    Batch.is_self_serve Batch.is_servable is_signed judge_serve process_serves Batch.receipt_of
    serve_fingerprint Batch.serve_round store_serve Batch.tally Canonical.big_endian
    canonical_serve_body Canonical.compute_serve_fingerprint Keeper.count_memory Keeper.count_model
    Keeper.count_serve Keeper.count_serve_key Keeper.increment_memory_serve_count Keeper.put_receipt
    Keeper.put_stats Keeper.serves_of get_memory_serve_count stats_of
    Keeper.update_contributor_serves Keeper.update_epoch_stats Store.contributor_key
    Store.key_first_key Store.mem_count_key Store.mem_first_key receipt_key serve_fingerprint_key
    Store.stats_key Types.add_org_id Types.new_contributor_epoch_serves Types.new_epoch_serve_stats
    Types.serve_receipt_to_stored
batch_submitted = refl

submit_serve_batch-IsAuthorised_example :
    (validate_serve_batch batch ≡ ok tt) × IsAuthorised orgs (codes "org") (codes "hub")
submit_serve_batch-IsAuthorised_example =
    submit_serve_batch-IsAuthorised outside orgs batch opened answered batch_submitted
