-- ===== src/Memory/Validity.antt =====
-- x/memory/keeper/validity.go and the loads of lifecycle.go: when a memory may be served, and what
-- the end of an epoch does to a memory whose time is over. `unmarshal_scope` is json.Unmarshal into
-- a map of strings, `none` where it fails.
use wevibe_chain.Common.{
  ℕ, ◌==◌, not, ◌&&◌, Bool, true, Option, none, some, List, [], ◌∷◌, Text, is_empty, length, ltb,
  if◌then◌else◌, Result, ok, err, Error, Action, lift, modify, pure, for_each, ◌>>=◌, ◌>>◌,
}
use wevibe_chain.Common.Dict.{Dict, get, insert, erase}
use wevibe_chain.Identity.Hex.{hex_decode}
use wevibe_chain.Memory.Types.{
  State, MemoryCommitment, MemoryState, StoredValidityMetadata, ValidityMetadata, approved_key,
  validity_key, is_closed,
}

-- Keeper.GetApprovedMemory: the state of the memory is not looked at.
unfoldable pub get_approved_memory : Text → Text → State → Result MemoryCommitment
get_approved_memory org hash s = elim (get (approved_key org hash) s.memories) [
  | none ↦ err Error.memory_not_found
  | some m ↦ ok m
]

unfoldable pub decode_cid : Text → Result Text
decode_cid cid = elim (hex_decode cid) [
  | none ↦ err Error.invalid_cid
  | some hash ↦ if length hash == 32 then ok hash else err Error.invalid_content_hash
]

-- loadMemoryByCID
unfoldable pub load_memory_by_cid : Text → Text → State → Result MemoryCommitment
unfolding decode_cid
load_memory_by_cid org cid s = elim (decode_cid cid) [
  | ok hash ↦ get_approved_memory org hash s
  | err e ↦ err e
]

unfoldable pub save_memory_commitment : MemoryCommitment → Action State (Unit {0})
save_memory_commitment m =
    modify (λ s. record s { memories = insert (approved_key m.org_id m.content_hash) m s.memories })

module _ (unmarshal_scope : Text → Option (Dict Text)) where
  decode_scope : Text → Option (Dict Text)
  decode_scope tags = if is_empty tags then some [] else unmarshal_scope tags

  -- decodeValidityMetadata
  unfoldable pub decode_validity_metadata : StoredValidityMetadata → Result ValidityMetadata
  unfolding decode_scope
  decode_validity_metadata v = elim (decode_scope v.scope_tags_bz) [
    | none ↦ err Error.invalid_scope_tags
    | some tags ↦ ok (record {
      valid_after_epoch = v.valid_after_epoch;
      valid_until_epoch = v.valid_until_epoch;
      scope_tags = tags;
    })
  ]

  -- GetValidityMetadata
  unfoldable pub get_validity_metadata : Text → Text → State → Result (Option ValidityMetadata)
  unfolding decode_validity_metadata
  get_validity_metadata org cid s = elim (get (validity_key org cid) s.validities) [
    | none ↦ ok none
    | some v ↦ elim (decode_validity_metadata v) [ ok m ↦ ok (some m) | err e ↦ err e ]
  ]

-- The two tests of IsValidInEpoch.
unfoldable pub in_window : ℕ → ValidityMetadata → Bool
in_window epoch m =
    not (not (m.valid_after_epoch == 0) && ltb epoch m.valid_after_epoch)
    && not (not (m.valid_until_epoch == 0) && ltb m.valid_until_epoch epoch)

module _ (unmarshal_scope : Text → Option (Dict Text)) where
  -- Keeper.IsValidInEpoch
  unfoldable pub is_valid_in_epoch : Text → Text → ℕ → State → Result Bool
  unfolding get_validity_metadata in_window
  is_valid_in_epoch org cid epoch s = elim (get_validity_metadata unmarshal_scope org cid s) [
    | err e ↦ err e
    | ok none ↦ ok true
    | ok (some m) ↦ ok (in_window epoch m)
  ]

-- The entries that CheckEpochExpiry collects in its first loop.
unfoldable pub is_expired : ℕ → StoredValidityMetadata → Bool
is_expired epoch v = not (v.valid_until_epoch == 0) && ltb v.valid_until_epoch epoch

unfoldable pub collect_expired :
    ℕ → Dict StoredValidityMetadata → List (Text × StoredValidityMetadata)
unfolding is_expired
collect_expired epoch [] = []
collect_expired epoch ((k, v) ∷ d) =
    let rest = collect_expired epoch d in if is_expired epoch v then (k, v) ∷ rest else rest

unfoldable pub archive : MemoryCommitment → Action State (Unit {0})
unfolding save_memory_commitment
archive m =
    if is_closed m.state
    then pure tt
    else save_memory_commitment (record m { state = MemoryState.archived })

-- A round of the second loop.
unfoldable pub expire_entry : Text × StoredValidityMetadata → Action State (Unit {0})
unfolding load_memory_by_cid archive
expire_entry (k, v) s =
    (do
      m ← lift (load_memory_by_cid v.org_id v.memory_cid s)
      archive m
      modify (λ t. record t { validities = erase k t.validities }))
      s

-- Keeper.CheckEpochExpiry
unfoldable pub check_epoch_expiry : ℕ → Action State (Unit {0})
unfolding collect_expired
check_epoch_expiry epoch s = for_each expire_entry (collect_expired epoch s.validities) s
