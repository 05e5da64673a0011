-- ===== src/Serve/Expired.antt =====
-- A memory whose time is over, seen by the serves after the expiry check of x/memory.
use wevibe_chain.Common.{ℕ, ◌≡◌, true, some, Text, arith, ok}
use wevibe_chain.Common.Dict.{get, IsSorted}
use wevibe_chain.Common.Dict.Rebuild.{IsKeyed}
use wevibe_chain.Attestation.Types.{content_hash_to_hex}
use wevibe_chain.Memory.Types.{
  State, StoredValidityMetadata, MemoryCommitment, approved_key, validity_key,
}
use wevibe_chain.Memory.Validity.{
  is_expired, check_epoch_expiry, decode_cid, get_approved_memory, is_valid_in_epoch,
}
use wevibe_chain.Memory.Expiry.{expired_valid_again}
use wevibe_chain.Memory.Archived.{own_key, IsClosedAt, check_epoch_expiry-memories}
use wevibe_chain.Serve.Batch.{Outside, is_servable}

found_servable :
    {R : Type 0} (outside : Outside R) (org hash : Text) (epoch : ℕ) (m : MemoryCommitment)
    (s : State)
    → get (approved_key org hash) s.memories ≡ some m
    → is_valid_in_epoch outside.unmarshal_scope org (content_hash_to_hex hash) epoch s ≡ ok true
    → is_servable outside org epoch hash s ≡ ok true
unfolding is_servable get_approved_memory
found_servable outside org hash epoch m s found valid = ground arith

-- A flaw: once the end of an epoch has archived a memory whose validity metadata had expired, the
-- memory may be served again, in every epoch: its metadata is gone, and its state is not looked at.
pub expired_servable :
    {R : Type 0} (outside : Outside R) (org hash : Text) (v : StoredValidityMetadata)
    (epoch later : ℕ) (s : State)
    → IsSorted s.validities
    → IsKeyed own_key s.memories
    → get (validity_key org (content_hash_to_hex hash)) s.validities ≡ some v
    → v.org_id ≡ org
    → decode_cid v.memory_cid ≡ ok hash
    → is_expired epoch v ≡ true
    → (check_epoch_expiry epoch s).0 ≡ ok tt
    → IsClosedAt (approved_key org hash) (check_epoch_expiry epoch s).1.memories
      × (is_servable outside org later hash (check_epoch_expiry epoch s).1 ≡ ok true)
expired_servable outside org hash v epoch later s sorted keyed found named decodes over done =
    let after = (check_epoch_expiry epoch s).1 in
    let there = check_epoch_expiry-memories epoch s _ hash v keyed done found over decodes in
    let closed : IsClosedAt (approved_key org hash) after.memories = rw (← named) there in
    (
      closed,
      found_servable outside org hash later closed.0 after closed.1 (
          expired_valid_again outside.unmarshal_scope org (content_hash_to_hex hash) v epoch later s
            sorted found over done),
    )
