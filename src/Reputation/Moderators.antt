-- ===== src/Reputation/Moderators.antt =====
-- The index of approved hashes of a moderator.
use wevibe_chain.Common.{
  ℕ, ◌≤◌, List, [], ◌∷◌, Text, arith, length, length-append, Option-cases, inl, inr,
}
use wevibe_chain.Common.Dict.{get}
use wevibe_chain.Common.Dict.Rebuild.{AllValues, insert-AllValues, get-AllValues}
use wevibe_chain.Reputation.Types.{State, StoredModeratorProfile, moderator_profile_key}
use wevibe_chain.Reputation.Profiles.{
  index_hash, max_approved_hash_index, get_moderator_profile, set_moderator_profile,
  increment_moderator_approval,
}

abbrev pub IsBounded : StoredModeratorProfile → Type 0
IsBounded p = length p.approved_memory_hashes ≤ max_approved_hash_index

length-index_hash :
    (hash : Text) (hashes : List Text)
    → length hashes ≤ max_approved_hash_index
    → length (index_hash hash hashes) ≤ max_approved_hash_index
unfolding index_hash
length-index_hash hash [] h = omega arith
length-index_hash hash (x ∷ rest) h = ground (arith, length-append rest (hash ∷ []))

get_moderator_profile-IsBounded :
    (pubkey org : Text) (s : State)
    → AllValues IsBounded s.moderators
    → IsBounded (get_moderator_profile pubkey org s)
unfolding get_moderator_profile
get_moderator_profile-IsBounded pubkey org s h =
    elim (Option-cases (get (moderator_profile_key pubkey org) s.moderators)) [
      | inr (p, e) ↦ rw (get_moderator_profile, e) (get-AllValues IsBounded _ s.moderators p h e)
      | inl e ↦ rw (get_moderator_profile, e) (omega arith)
    ]

-- An approval keeps every moderator's index of approved hashes at no more than 1000 of them.
pub increment_moderator_approval-IsBounded :
    (pubkey org hash : Text) (epoch : ℕ) (s : State)
    → AllValues IsBounded s.moderators
    → AllValues IsBounded (increment_moderator_approval pubkey org hash epoch s).1.moderators
unfolding increment_moderator_approval set_moderator_profile
increment_moderator_approval-IsBounded pubkey org hash epoch s h =
    insert-AllValues IsBounded _ _ s.moderators
      (length-index_hash hash _ (get_moderator_profile-IsBounded pubkey org s h)) h
