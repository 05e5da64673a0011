-- ===== src/Serve/Types.antt =====
-- x/serve/types: receipts, statistics, parameters and keys (keys.go, params.go, and the messages'
-- entries of tx.pb.go and state.pb.go), the keys of keeper.go, and the module's store.
use wevibe_chain.Common.{ℕ, Bool, List, [], ◌∷◌, Text, text_eq, if◌then◌else◌}
use wevibe_chain.Common.Dict.{Dict}
use wevibe_chain.Attestation.Types.{content_hash_to_hex}

pub record ServeReceipt : Type 0 where
  pub org_id : Text
  pub content_hash : Text
  pub serve_key : Text
  pub serve_key_pubkey : Text
  pub contributor_id : Text
  pub epoch : ℕ
  pub fingerprint : Text
  pub is_self_serve : Bool
  pub model_id : Text
  pub turn_count : ℕ
  pub episode_ref : Text

-- The stored form has no serve key: it is the public key in hex.
pub record StoredServeReceipt : Type 0 where
  pub org_id : Text
  pub memory_content_hash : Text
  pub contributor_id : Text
  pub epoch : ℕ
  pub is_self_serve : Bool
  pub model_id : Text
  pub turn_count : ℕ
  pub serve_key_pubkey : Text
  pub fingerprint : Text
  pub episode_ref : Text

unfoldable pub serve_receipt_to_stored : ServeReceipt → StoredServeReceipt
serve_receipt_to_stored r = record {
  org_id = r.org_id;
  memory_content_hash = r.content_hash;
  contributor_id = r.contributor_id;
  epoch = r.epoch;
  is_self_serve = r.is_self_serve;
  model_id = r.model_id;
  turn_count = r.turn_count;
  serve_key_pubkey = r.serve_key_pubkey;
  fingerprint = r.fingerprint;
  episode_ref = r.episode_ref;
}

unfoldable pub stored_to_serve_receipt : StoredServeReceipt → ServeReceipt
stored_to_serve_receipt r = record {
  org_id = r.org_id;
  content_hash = r.memory_content_hash;
  serve_key = content_hash_to_hex r.serve_key_pubkey;
  serve_key_pubkey = r.serve_key_pubkey;
  contributor_id = r.contributor_id;
  epoch = r.epoch;
  fingerprint = r.fingerprint;
  is_self_serve = r.is_self_serve;
  model_id = r.model_id;
  turn_count = r.turn_count;
  episode_ref = r.episode_ref;
}

pub record StoredDenialReceipt : Type 0 where
  pub org_id : Text
  pub memory_hash : Text
  pub deny_key : Text
  pub reason : Text
  pub epoch : ℕ
  pub serve_fingerprint : Text
  pub serve_key_pubkey : Text
  pub neg_anchor : Text

-- The stored form has the same fields.
pub record EpochServeStats : Type 0 where
  pub org_id : Text
  pub epoch : ℕ
  pub total_serves : ℕ
  pub total_denials : ℕ
  pub unique_memories_served : ℕ
  pub unique_serve_keys : ℕ
  pub self_serves : ℕ
  pub model_breakdown : Dict ℕ

unfoldable pub new_epoch_serve_stats : Text → ℕ → EpochServeStats
new_epoch_serve_stats org epoch = record {
  org_id = org;
  epoch = epoch;
  total_serves = 0;
  total_denials = 0;
  unique_memories_served = 0;
  unique_serve_keys = 0;
  self_serves = 0;
  model_breakdown = [];
}

-- The stored form has the same fields.
pub record ContributorEpochServes : Type 0 where
  pub contributor_id : Text
  pub epoch : ℕ
  pub serve_count : ℕ
  pub self_serve_count : ℕ
  pub org_ids : List Text
  pub total_turns : ℕ

unfoldable pub new_contributor_epoch_serves : Text → ℕ → ContributorEpochServes
new_contributor_epoch_serves contributor epoch = record {
  contributor_id = contributor;
  epoch = epoch;
  serve_count = 0;
  self_serve_count = 0;
  org_ids = [];
  total_turns = 0;
}

-- The list after ContributorEpochServes.AddOrgID: appended only where it is not there.
unfoldable pub add_org_id : Text → List Text → List Text
add_org_id org [] = org ∷ []
add_org_id org (o ∷ rest) =
    let after = add_org_id org rest in if text_eq o org then o ∷ rest else o ∷ after

pub record Params : Type 0 where
  pub max_serves_per_batch : ℕ
  pub self_serve_discount_percent : ℕ
  pub max_serves_per_memory_per_epoch : ℕ
  pub min_org_age_epochs : ℕ
  pub diminishing_returns_threshold : ℕ

unfoldable pub default_params : Params
default_params = record {
  max_serves_per_batch = 500;
  self_serve_discount_percent = 50;
  max_serves_per_memory_per_epoch = 100;
  min_org_age_epochs = 1;
  diminishing_returns_threshold = 10;
}

pub record ServeEntry : Type 0 where
  pub memory_content_hash : Text
  pub contributor_id : Text
  pub model_id : Text
  pub turn_count : ℕ
  pub contributor_wallet : Text
  pub serve_key_pubkey : Text
  pub serve_sig : Text
  pub nonce : Text
  pub episode_ref : Text

pub record DenialEntry : Type 0 where
  pub memory_hash : Text
  pub reason : Text
  pub serve_key_pubkey : Text
  pub serve_sig : Text
  pub serve_fingerprint : Text
  pub nonce : Text
  pub neg_anchor : Text

pub record StoredPolicyAnchor : Type 0 where
  pub policy_version : Text
  pub policy_hash : Text
  pub anchored_at_epoch : ℕ
  pub anchored_at_height : ℕ
