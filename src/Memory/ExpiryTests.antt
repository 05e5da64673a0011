-- ===== src/Memory/ExpiryTests.antt =====
-- Runs and instances for the expiry check of x/memory.
use wevibe_chain.Common.{◌≡◌, refl, true, some, [], ◌∷◌, codes, text_eq, ok, for_each}
use wevibe_chain.Common.Dict.{get}
use wevibe_chain.Common.Dict.Rebuild.{IsKeyed}
use wevibe_chain.Identity.Hex.{hex_decode}
use wevibe_chain.Attestation.Types.{content_hash_to_hex, hex_digit}
use wevibe_chain.Memory.Types.{
  State, StoredValidityMetadata, approved_key, validity_key, empty_state, is_closed,
}
use wevibe_chain.Memory.Keeper.{approved_memory}
use wevibe_chain.Memory.Tests.{hash, approval, offered}
use wevibe_chain.Memory.Validity.{
  check_epoch_expiry, is_expired, collect_expired, expire_entry, load_memory_by_cid, decode_cid,
  archive, save_memory_commitment, get_approved_memory,
}
use wevibe_chain.Memory.Expiry.{unexpired, check_epoch_expiry-validities}
use wevibe_chain.Memory.Archived.{own_key}

abbrev pub window : StoredValidityMetadata
window = record {
  org_id = codes "org";
  memory_cid = content_hash_to_hex hash;
  valid_after_epoch = 0;
  valid_until_epoch = 9;
  scope_tags_bz = [];
}

abbrev pub timed : State
timed = record empty_state {
  memories = (approved_key (codes "org") hash, approved_memory approval 1 5 offered) ∷ [];
  validities = (validity_key (codes "org") (content_hash_to_hex hash), window) ∷ [];
}

pub timed-IsKeyed : IsKeyed own_key timed.memories
unfolding approved_memory
timed-IsKeyed = (refl, tt)

pub timed_found :
    get (validity_key (codes "org") (content_hash_to_hex hash)) timed.validities ≡ some window
unfolding get text_eq validity_key content_hash_to_hex hex_digit
timed_found = refl

pub window_over : is_expired 10 window ≡ true
unfolding is_expired
window_over = refl

pub window_decodes : decode_cid window.memory_cid ≡ ok hash
unfolding decode_cid hex_decode content_hash_to_hex hex_digit
window_decodes = refl

pub timed_checked : (check_epoch_expiry 10 timed).0 ≡ ok tt
unfolding check_epoch_expiry for_each collect_expired is_expired expire_entry load_memory_by_cid
    decode_cid hex_decode content_hash_to_hex hex_digit get_approved_memory get text_eq approved_key
    archive save_memory_commitment approved_memory is_closed
timed_checked = refl

check_epoch_expiry-validities_example :
    (check_epoch_expiry 10 timed).1.validities ≡ unexpired 10 timed.validities
check_epoch_expiry-validities_example = check_epoch_expiry-validities 10 timed tt timed_checked
