-- ===== src/Serve/Batch.antt =====
-- Keeper.ProcessServeBatch of x/serve/keeper/keeper.go. The stores of the bandwidth and the memory
-- keeper travel beside the module's own, and so does that of the reputation keeper, `R`.
use wevibe_chain.Common.{
  ℕ, ◌==◌, not, ◌&&◌, Bool, true, false, Option, List, [], ◌∷◌, Text, text_eq, is_empty, length,
  ltb, leb, add64, if◌then◌else◌, Result, ok, err, Error, Action, raise_if, ◌>>◌,
}
use wevibe_chain.Common.Dict.{Dict}
use wevibe_chain.External.{Sdk}
use wevibe_chain.Attestation.Types.{content_hash_to_hex}
use wevibe_chain.Bandwidth.Types
use wevibe_chain.Bandwidth.Keeper.{consume_serve_bandwidth}
use wevibe_chain.Memory.Types.{MemoryCommitment}
use wevibe_chain.Memory.Types as MemoryTypes
use wevibe_chain.Memory.Validity.{get_approved_memory, is_valid_in_epoch}
use wevibe_chain.Serve.Types.{Params, ServeEntry, ServeReceipt}
use wevibe_chain.Serve.Store.{State}
use wevibe_chain.Serve.Canonical.{canonical_serve_body, compute_serve_fingerprint}
use wevibe_chain.Serve.Keeper.{
  get_params, has_serve_fingerprint, get_memory_serve_count, put_receipt,
  increment_memory_serve_count, update_epoch_stats, update_contributor_serves,
}

pub record World (R : Type 0) : Type 0 where
  pub state : State
  pub bandwidth : Types.State
  pub memory : MemoryTypes.State
  pub reputation : R

-- What x/serve takes from outside the modelled code: verification, hashing, the decoding of scope
-- tags, and the reputation keeper's RecordServe over its own store.
pub record Outside (R : Type 0) : Type 0 where
  pub sdk : Sdk
  pub sha256 : Text → Text
  pub unmarshal_scope : Text → Option (Dict Text)
  pub record_serve : Text → Text → ℕ → Bool → Action R (Unit {0})

-- accepted, rejectedDuplicate, rejectedInvalid
pub record Counts : Type 0 where
  pub accepted : ℕ
  pub rejected_duplicate : ℕ
  pub rejected_invalid : ℕ

abbrev pub no_counts : Counts
no_counts = record { accepted = 0; rejected_duplicate = 0; rejected_invalid = 0 }

-- What a round of a loop makes of its entry.
pub data Verdict : Type 0 where
  accept duplicate invalid : Verdict

unfoldable pub tally : Verdict → Counts → Counts
tally Verdict.accept c = record c { accepted = add64 c.accepted 1 }
tally Verdict.duplicate c = record c { rejected_duplicate = add64 c.rejected_duplicate 1 }
tally Verdict.invalid c = record c { rejected_invalid = add64 c.rejected_invalid 1 }

unfoldable pub is_self_serve : ServeEntry → Bool
is_self_serve e = text_eq (content_hash_to_hex e.serve_key_pubkey) e.contributor_id

module _ {R : Type 0} (outside : Outside R) (org : Text) (epoch : ℕ) where
  -- The sizes and the signature.
  unfoldable pub is_signed : ServeEntry → Bool
  is_signed e =
      (length e.serve_key_pubkey == 32 && length e.serve_sig == 64)
      && outside.sdk.ed25519_verify e.serve_key_pubkey
          (canonical_serve_body org e.memory_content_hash epoch e.serve_key_pubkey e.nonce
            e.episode_ref)
          e.serve_sig

  unfoldable pub serve_fingerprint : ServeEntry → Text
  serve_fingerprint e =
      compute_serve_fingerprint outside.sha256 e.memory_content_hash e.serve_key_pubkey epoch

  -- An approved memory within its window.
  unfoldable pub is_servable : Text → MemoryTypes.State → Result Bool
  is_servable hash s = elim (get_approved_memory org hash s) [
    | err x ↦ ok false
    | ok m ↦ is_valid_in_epoch outside.unmarshal_scope org (content_hash_to_hex hash) epoch s
  ]

  -- The tests of a round, up to its first write. An error ends the batch.
  unfoldable pub judge_serve : Params → ServeEntry → World R → Result Verdict
  unfolding is_signed is_servable serve_fingerprint
  judge_serve params e w =
      if not (is_signed e)
      then ok Verdict.invalid
      else (if has_serve_fingerprint (serve_fingerprint e) w.state
          then ok Verdict.duplicate
          else elim (is_servable e.memory_content_hash w.memory) [
            | err x ↦ err x
            | ok false ↦ ok Verdict.invalid
            | ok true ↦
                if leb params.max_serves_per_memory_per_epoch
                  (get_memory_serve_count org e.memory_content_hash epoch w.state)
                then ok Verdict.invalid
                else ok Verdict.accept
          ])

  unfoldable pub receipt_of : ServeEntry → ServeReceipt
  unfolding serve_fingerprint is_self_serve
  receipt_of e = record {
    org_id = org;
    content_hash = e.memory_content_hash;
    serve_key = content_hash_to_hex e.serve_key_pubkey;
    serve_key_pubkey = e.serve_key_pubkey;
    contributor_id = e.contributor_id;
    epoch = epoch;
    fingerprint = serve_fingerprint e;
    is_self_serve = is_self_serve e;
    model_id = e.model_id;
    turn_count = e.turn_count;
    episode_ref = e.episode_ref;
  }

  -- The writes to the module's own store.
  unfoldable pub store_serve : ServeEntry → State → State
  unfolding is_self_serve
  store_serve e s =
      update_contributor_serves e.contributor_id epoch org (is_self_serve e) e.turn_count (
        update_epoch_stats org epoch e.memory_content_hash (content_hash_to_hex e.serve_key_pubkey)
          (is_self_serve e) e.model_id
          (increment_memory_serve_count org e.memory_content_hash epoch
            (put_receipt (receipt_of e) s)))

  -- The reputation is recorded for the contributor of the stored memory; a failure is only logged.
  unfoldable pub credit_serve : ServeEntry → World R → R
  unfolding is_self_serve
  credit_serve e w = elim (get_approved_memory org e.memory_content_hash w.memory) [
    | err x ↦ w.reputation
    | ok m ↦
        if is_empty m.contributor
        then w.reputation
        else (outside.record_serve m.contributor org epoch (is_self_serve e) w.reputation).1
  ]

  unfoldable pub accept_serve : ServeEntry → World R → World R
  unfolding store_serve credit_serve
  accept_serve e w = record w { state = store_serve e w.state; reputation = credit_serve e w }

  unfoldable pub serve_round : Verdict → ServeEntry → World R → World R
  unfolding accept_serve
  serve_round Verdict.accept e w = accept_serve e w
  serve_round Verdict.duplicate e w = w
  serve_round Verdict.invalid e w = w

  -- The loop over the serves.
  unfoldable pub process_serves : Params → List ServeEntry → Counts → Action (World R) Counts
  unfolding judge_serve serve_round tally
  process_serves params [] c w = (ok c, w)
  process_serves params (e ∷ rest) c w = elim (judge_serve params e w) [
    | err x ↦ (err x, w)
    | ok v ↦ process_serves params rest (tally v c) (serve_round v e w)
  ]

  unfoldable pub consume_bandwidth : ℕ → Action (World R) (Unit {0})
  consume_bandwidth count w =
      let (r, b) = consume_serve_bandwidth org epoch count w.bandwidth in
      (r, record w { bandwidth = b })

  -- Keeper.ProcessServeBatch
  unfoldable pub process_serve_batch : List ServeEntry → Action (World R) Counts
  unfolding process_serves consume_bandwidth
  process_serve_batch serves w =
      (do
        raise_if (ltb (get_params w.state).max_serves_per_batch (length serves))
            Error.batch_too_large
        consume_bandwidth (length serves)
        process_serves (get_params w.state) serves no_counts)
        w
