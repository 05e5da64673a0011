-- ===== src/Memory/Types.antt =====
-- x/memory/types: commitments, memories, reports and parameters (keys.go, memory_types.go,
-- params.go), the keys of keeper.go, and the state of the module's store.
use wevibe_chain.Common.{
  ℕ, ◌==◌, not, Bool, true, false, Option, none, List, [], ◌∷◌, ◌++◌, Text, codes, is_empty, length,
  if◌then◌else◌, Result, ok, err, Error,
}
use wevibe_chain.Common.Dict.{Dict}
use wevibe_chain.Attestation.Types.{content_hash_to_hex}

-- By number: 0 is MEMORY_TYPE_UNSPECIFIED, 1 is MEMORY_TYPE_MEMORY.
abbrev pub MemoryType : Type 0
MemoryType = ℕ

unfoldable pub valid_memory_type : MemoryType → Bool
valid_memory_type t = t == 1

pub data MemoryState : Type 0 where
  unspecified pending pending_keyword pending_chain committed : MemoryState
  denied archived reported_deleted : MemoryState

unfoldable pub is_committed : MemoryState → Bool
is_committed committed = true
is_committed unspecified = false
is_committed pending = false
is_committed pending_keyword = false
is_committed pending_chain = false
is_committed denied = false
is_committed archived = false
is_committed reported_deleted = false

-- Archived or denied.
unfoldable pub is_closed : MemoryState → Bool
is_closed archived = true
is_closed denied = true
is_closed unspecified = false
is_closed pending = false
is_closed pending_keyword = false
is_closed pending_chain = false
is_closed committed = false
is_closed reported_deleted = false

pub record PendingCommitment : Type 0 where
  pub org_id : Text
  pub content_hash : Text
  pub keywords : List Text
  pub contributor : Text
  pub contributor_address : Text
  pub producer_model_id : Text
  pub attestation_session_hash : Text
  pub epoch : ℕ
  pub submitted_at : ℕ
  pub memory_type : MemoryType
  pub mc_version : ℕ

-- No keyword is empty.
unfoldable pub validate_keywords : List Text → Result (Unit {0})
validate_keywords [] = ok tt
validate_keywords (kw ∷ rest) =
    let after = validate_keywords rest in if is_empty kw then err Error.invalid_keyword else after

-- PendingCommitment.Validate
unfoldable pub validate_pending : PendingCommitment → Result (Unit {0})
unfolding valid_memory_type validate_keywords
validate_pending c =
    if is_empty c.org_id
    then err Error.invalid_org_id
    else (if not (length c.content_hash == 32)
        then err Error.invalid_content_hash
        else (if is_empty c.contributor
            then err Error.invalid_contributor
            else (if not (valid_memory_type c.memory_type)
                then err Error.invalid_memory_type
                else validate_keywords c.keywords)))

pub record MemoryCommitment : Type 0 where
  pub org_id : Text
  pub content_hash : Text
  pub encrypted_blob : Text
  pub keywords : List Text
  pub contributor : Text
  pub contributor_address : Text
  pub producer_model_id : Text
  pub attestation_session_hash : Text
  pub epoch : ℕ
  pub committed_at_height : ℕ
  pub committing_leader : Text
  pub state : MemoryState
  pub last_active_epoch : ℕ
  pub wrapped_dek_enc : Text
  pub plaintext_hash : Text
  pub salt : Text
  pub ciphertext_hash : Text
  pub wrapped_dek_hash : Text
  pub contributor_sig : Text
  pub memory_type : MemoryType
  pub approved_at_epoch : ℕ
  pub mc_version : ℕ

pub record StoredMemoryReport : Type 0 where
  pub org_id : Text
  pub content_hash : Text
  pub contributor_pubkey : Text
  pub approving_moderators : List Text
  pub upholding_moderators : List Text
  pub reporter_pubkey : Text
  pub committing_leader_pubkey : Text
  pub reason : Text
  pub plaintext : Text
  pub ciphertext : Text
  pub capsule : Text
  pub plaintext_hash : Text
  pub plaintext_oversized : Bool
  pub upheld_at_epoch : ℕ
  pub upheld_at_timestamp : ℕ

-- When a memory may be served; 0 is no limit. The scope tags are JSON text.
pub record StoredValidityMetadata : Type 0 where
  pub org_id : Text
  pub memory_cid : Text
  pub valid_after_epoch : ℕ
  pub valid_until_epoch : ℕ
  pub scope_tags_bz : Text

pub record ValidityMetadata : Type 0 where
  pub valid_after_epoch : ℕ
  pub valid_until_epoch : ℕ
  pub scope_tags : Dict Text

pub record Params : Type 0 where
  pub max_pending_per_org : ℕ
  pub pending_retention_epochs : ℕ
  pub max_blob_size_bytes : ℕ
  pub max_keywords_per_memory : ℕ
  pub contest_window_epochs : ℕ

unfoldable pub default_params : Params
default_params = record {
  max_pending_per_org = 1000;
  pending_retention_epochs = 7;
  max_blob_size_bytes = 1048576;
  max_keywords_per_memory = 20;
  contest_window_epochs = 10;
}

unfoldable pub pending_key : Text → Text → Text
pending_key org hash = codes "pending/" ++ (org ++ (47 ∷ content_hash_to_hex hash))

unfoldable pub pending_prefix : Text → Text
pending_prefix org = codes "pending/" ++ (org ++ (47 ∷ []))

unfoldable pub approved_key : Text → Text → Text
approved_key org hash = codes "approved/" ++ (org ++ (47 ∷ content_hash_to_hex hash))

unfoldable pub report_key : Text → Text → Text → Text
report_key org hash reporter =
    codes "report/" ++ (org ++ (47 ∷ (content_hash_to_hex hash ++ (47 ∷ reporter))))

-- The byte 0x12, then "<org>:<cid>".
unfoldable pub validity_key : Text → Text → Text
validity_key org cid = 18 ∷ (org ++ (58 ∷ cid))

unfoldable pub count_key : Text → Text
count_key org = codes "count/" ++ org

-- The part of the store that the modelled methods use: "params", "current_epoch", and the prefixes
-- "pending/", "approved/", "count/" and "report/", and the byte 0x12 of the validity metadata.
pub record State : Type 0 where
  pub params : Option Params
  pub current_epoch : Option ℕ
  pub pendings : Dict PendingCommitment
  pub memories : Dict MemoryCommitment
  pub counts : Dict ℕ
  pub reports : Dict StoredMemoryReport
  pub validities : Dict StoredValidityMetadata

abbrev pub empty_state : State
empty_state = record {
  params = none;
  current_epoch = none;
  pendings = [];
  memories = [];
  counts = [];
  reports = [];
  validities = [];
}
