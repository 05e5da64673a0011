-- ===== src/Memory/Keeper.antt =====
-- x/memory/keeper/keeper.go and lifecycle.go: submission, approval, reports, and the approvals of an
-- epoch. The stores of the org and the reputation keeper travel beside the module's own.
use wevibe_chain.Common.{
  ℕ, ◌+◌, ◌==◌, not, ◌&&◌, Bool, true, false, Option, none, some, List, [], ◌∷◌, Text, is_empty,
  length, ltb, leb, add64, if◌then◌else◌, Result, ok, err, Error, Action, or_raise, lift, modify,
  raise_if, ◌>>=◌, ◌>>◌,
}
use wevibe_chain.Common.Dict.{Dict, get, insert, erase, values}
use wevibe_chain.Common.Dict.Laws.{amount}
use wevibe_chain.Common.Range.{range}
use wevibe_chain.Attestation.Types.{content_hash_to_hex}
use wevibe_chain.Memory.Types.{
  State, Params, default_params, PendingCommitment, MemoryCommitment, MemoryState, MemoryType,
  is_committed, valid_memory_type, validate_pending, pending_key, pending_prefix, approved_key,
  count_key,
}

-- What the keeper calls of the org and the reputation keepers, over their own stores `P`.
pub record Peers (P : Type 0) : Type 0 where
  pub has_org : Text → P → Result Bool
  pub is_leader : Text → Text → P → Result Bool
  pub increment_org_committed_memories : Text → P → Result P
  pub set_org_last_activity_epoch : Text → ℕ → P → Result P
  pub increment_contribution : Text → Text → Text → P → Result P
  pub increment_leader_chain_commit : Text → Text → P → Result P

pub record World (P : Type 0) : Type 0 where
  pub state : State
  pub peers : P

unfoldable pub set_params : Params → Action State (Unit {0})
set_params p = modify (λ s. record s { params = some p })

unfoldable pub get_params : State → Params
get_params s = elim s.params [ none ↦ default_params | some p ↦ p ]

unfoldable pub get_current_epoch : State → ℕ
get_current_epoch s = amount s.current_epoch

unfoldable pub set_current_epoch : ℕ → Action State (Unit {0})
set_current_epoch n = modify (λ s. record s { current_epoch = some n })

abbrev pub is_some : {A : Type 0} → Option A → Bool
is_some none = false
is_some (some a) = true

-- The keys that the iterator of SubmitCommitment counts. It has no end, so it runs on over the
-- commitments of later organisations and over all reports; every other key is below "pending/".
unfoldable pub pending_count : Text → State → ℕ
pending_count org s =
    length (range (pending_prefix org) none s.pendings)
    + length (range (pending_prefix org) none s.reports)

-- A call of another keeper: a refusal changes nothing.
unfoldable pub on_peers : {P : Type 0} → (P → Result P) → Action (World P) (Unit {0})
on_peers call w = elim (call w.peers) [
  | ok p ↦ (ok tt, record w { peers = p })
  | err e ↦ (err e, w)
]

unfoldable pub on_state : {P A : Type 0} → Action State A → Action (World P) A
on_state act w = let (r, s) = act w.state in (r, record w { state = s })

unfoldable pub put_pending : PendingCommitment → Action State (Unit {0})
put_pending c =
    modify (λ s. record s { pendings = insert (pending_key c.org_id c.content_hash) c s.pendings })

-- len(blob) > int(limit): from 2^63 on the int is negative, and every length is above it.
unfoldable pub exceeds_limit : ℕ → ℕ → Bool
exceeds_limit n limit = if ltb limit 9223372036854775808 then ltb limit n else true

-- The arguments of ApproveMemory, but the memory type.
pub record Approval : Type 0 where
  pub org_id : Text
  pub content_hash : Text
  pub encrypted_blob : Text
  pub committing_leader : Text
  pub wrapped_dek_enc : Text
  pub plaintext_hash : Text
  pub salt : Text
  pub ciphertext_hash : Text
  pub wrapped_dek_hash : Text
  pub contributor_sig : Text

-- The memory that an approval makes of a pending commitment.
unfoldable pub approved_memory : Approval → MemoryType → ℕ → PendingCommitment → MemoryCommitment
approved_memory a memory_type epoch pending = record {
  org_id = a.org_id;
  content_hash = a.content_hash;
  encrypted_blob = a.encrypted_blob;
  keywords = pending.keywords;
  contributor = pending.contributor;
  contributor_address = pending.contributor_address;
  producer_model_id = pending.producer_model_id;
  attestation_session_hash = pending.attestation_session_hash;
  epoch = pending.epoch;
  committed_at_height = pending.submitted_at;
  committing_leader = a.committing_leader;
  state = MemoryState.committed;
  last_active_epoch = pending.epoch;
  wrapped_dek_enc = a.wrapped_dek_enc;
  plaintext_hash = a.plaintext_hash;
  salt = a.salt;
  ciphertext_hash = a.ciphertext_hash;
  wrapped_dek_hash = a.wrapped_dek_hash;
  contributor_sig = a.contributor_sig;
  memory_type = memory_type;
  approved_at_epoch = epoch;
  mc_version = pending.mc_version;
}

-- The writes of ApproveMemory to the module's own store.
unfoldable pub commit_memory : MemoryCommitment → Action State (Unit {0})
commit_memory m = modify (λ s. record s {
  memories = insert (approved_key m.org_id m.content_hash) m s.memories;
  pendings = erase (pending_key m.org_id m.content_hash) s.pendings;
  counts =
      insert (count_key m.org_id) (add64 (amount (get (count_key m.org_id) s.counts)) 1) s.counts;
})

module _ {P : Type 0} (peers : Peers P) where
  -- Keeper.SubmitCommitment
  unfoldable pub submit_commitment : PendingCommitment → Action (World P) (Unit {0})
  unfolding on_state pending_count put_pending
  submit_commitment c w =
      (do
        lift (validate_pending c)
        known ← lift (peers.has_org c.org_id w.peers)
        raise_if (not known) Error.org_not_found
        raise_if (is_some (get (pending_key c.org_id c.content_hash) w.state.pendings))
            Error.commitment_exists
        raise_if (leb (get_params w.state).max_pending_per_org (pending_count c.org_id w.state))
            Error.max_pending_exceeded
        on_state (put_pending c))
        w

  -- The calls of the other keepers at the end of ApproveMemory.
  unfoldable pub credit_peers : MemoryCommitment → Action (World P) (Unit {0})
  unfolding on_peers
  credit_peers m = do
    on_peers (peers.increment_org_committed_memories m.org_id)
    on_peers (peers.set_org_last_activity_epoch m.org_id m.epoch)
    on_peers
        (peers.increment_contribution m.contributor m.org_id (content_hash_to_hex m.content_hash))
    on_peers (peers.increment_leader_chain_commit m.committing_leader m.org_id)

  -- Keeper.ApproveMemory
  unfoldable pub approve_memory : Approval → MemoryType → Action (World P) (Unit {0})
  unfolding on_state commit_memory
  approve_memory a memory_type w =
      (do
        raise_if (not (valid_memory_type memory_type)) Error.invalid_memory_type
        pending ←
            or_raise (get (pending_key a.org_id a.content_hash) w.state.pendings)
              Error.commitment_not_found
        leads ← lift (peers.is_leader a.org_id a.committing_leader w.peers)
        raise_if (not leads) Error.unauthorized
        raise_if (exceeds_limit (length a.encrypted_blob) (get_params w.state).max_blob_size_bytes)
            Error.blob_too_large
        raise_if (is_some (get (approved_key a.org_id a.content_hash) w.state.memories))
            Error.memory_exists
        let m = approved_memory a memory_type (get_current_epoch w.state) pending
        on_state (commit_memory m)
        credit_peers m)
        w

-- A memory that counts for the epoch: approved in it, committed still, with a contributor.
unfoldable pub counts_in : ℕ → MemoryCommitment → Bool
counts_in epoch m =
    m.approved_at_epoch == epoch && is_committed m.state && not (is_empty m.contributor)

-- The loop of GetContributorsWithApprovalsInEpoch over the memories.
unfoldable pub count_approvals : ℕ → List MemoryCommitment → Dict ℕ → Dict ℕ
unfolding counts_in
count_approvals epoch [] counts = counts
count_approvals epoch (m ∷ rest) counts =
    let more = insert m.contributor (add64 (amount (get m.contributor counts)) 1) counts in
    count_approvals epoch rest (if counts_in epoch m then more else counts)

unfoldable pub get_contributors_with_approvals_in_epoch : ℕ → State → Dict ℕ
unfolding count_approvals
get_contributors_with_approvals_in_epoch epoch s = count_approvals epoch (values s.memories) []
