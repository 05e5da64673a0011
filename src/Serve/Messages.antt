-- ===== src/Serve/Messages.antt =====
-- x/serve/types/msgs.go: the messages and their checks.
use wevibe_chain.Common.{
  ℕ, ◌≡◌, All, Result-cases, inl, inr, arith, ◌==◌, not, ◌||◌, Bool, true, false, List, [], ◌∷◌,
  Text, is_empty, length, ltb, if◌then◌else◌, Result, ok, err, Error,
}
use wevibe_chain.Serve.Types.{ServeEntry, DenialEntry, Params}
use wevibe_chain.Serve.Store.{EventEntry, EventBody}
use wevibe_chain.Serve.Canonical.{
  outcome_resolution_token, outcome_source_token, predicate_result_token,
}

pub record MsgSubmitServeBatch : Type 0 where
  pub signer : Text
  pub org_id : Text
  pub epoch : ℕ
  pub serves : List ServeEntry

pub record MsgSubmitDenialBatch : Type 0 where
  pub signer : Text
  pub org_id : Text
  pub epoch : ℕ
  pub entries : List DenialEntry

pub record MsgSubmitEventBatch : Type 0 where
  pub signer : Text
  pub org_id : Text
  pub epoch : ℕ
  pub events : List EventEntry

pub record MsgAnchorPolicyVersion : Type 0 where
  pub authority : Text
  pub policy_version : Text
  pub policy_hash : Text

pub record MsgUpdateParams : Type 0 where
  pub authority : Text
  pub params : Params

is_none : {A : Type 0} → List A → Bool
is_none [] = true
is_none (x ∷ xs) = false

-- The checks in order, the first that fails.
first_error : List (Bool × Error) → Result (Unit {0})
first_error [] = ok tt
first_error ((bad, e) ∷ rest) = let after = first_error rest in if bad then err e else after

-- A check of every entry, up to the first that fails.
check_all : {A : Type 0} → (A → Result (Unit {0})) → List A → Result (Unit {0})
check_all check [] = ok tt
check_all check (x ∷ xs) =
    let after = check_all check xs in elim (check x) [ ok u ↦ after | err e ↦ err e ]

and_then : Result (Unit {0}) → Result (Unit {0}) → Result (Unit {0})
and_then (ok u) r = r
and_then (err e) r = err e

unfoldable pub validate_serve : ServeEntry → Result (Unit {0})
unfolding first_error
validate_serve e = first_error (
    (not (length e.memory_content_hash == 32), Error.invalid_content_hash)
    ∷ ((not (length e.serve_key_pubkey == 32), Error.invalid_serve_key_pubkey)
        ∷ ((not (length e.serve_sig == 64), Error.invalid_serve_signature)
            ∷ ((is_empty e.contributor_id, Error.invalid_contributor)
                ∷ ((is_empty e.episode_ref, Error.invalid_serve_episode_ref)
                    ∷ ((ltb 64 (length e.episode_ref), Error.serve_episode_ref_too_long) ∷ []))))))

unfoldable pub validate_serve_batch : MsgSubmitServeBatch → Result (Unit {0})
unfolding first_error and_then check_all validate_serve is_none
validate_serve_batch m =
    and_then
      (first_error (
        (is_empty m.signer, Error.signer_empty)
        ∷ ((is_empty m.org_id, Error.invalid_org_id)
            ∷ ((is_none m.serves, Error.batch_empty) ∷ []))))
      (check_all validate_serve m.serves)

unfoldable pub validate_denial : DenialEntry → Result (Unit {0})
unfolding first_error
validate_denial e = first_error (
    (not (length e.memory_hash == 32), Error.invalid_content_hash)
    ∷ ((not (length e.serve_key_pubkey == 32), Error.invalid_serve_key_pubkey)
        ∷ ((not (length e.serve_sig == 64), Error.invalid_serve_signature)
            ∷ ((not (length e.serve_fingerprint == 32), Error.invalid_serve_fingerprint)
                ∷ ((not (is_empty e.neg_anchor), Error.neg_anchor_inert) ∷ [])))))

unfoldable pub validate_denial_batch : MsgSubmitDenialBatch → Result (Unit {0})
unfolding first_error and_then check_all validate_denial is_none
validate_denial_batch m =
    and_then
      (first_error (
        (is_empty m.signer, Error.signer_empty)
        ∷ ((is_empty m.org_id, Error.invalid_org_id)
            ∷ ((is_none m.entries, Error.batch_empty) ∷ []))))
      (check_all validate_denial m.entries)

-- validateEventType
unfoldable pub validate_event_type : ℕ → Result (Unit {0})
validate_event_type t =
    if t == 3 || (t == 6 || (t == 7 || t == 8))
    then ok tt
    else (if t == 4 || t == 5
        then err Error.event_parked
        else (if t == 1 || t == 2
            then err Error.event_by_receipt
            else err Error.invalid_event_type))

-- validateRefCaps
unfoldable pub validate_ref_caps : List Text → Result (Unit {0})
validate_ref_caps [] = ok tt
validate_ref_caps (r ∷ rest) =
    let after = validate_ref_caps rest in
    if ltb 64 (length r) then err Error.event_ref_too_long else after

forget : {A : Type 0} → Result A → Result (Unit {0})
forget (ok a) = ok tt
forget (err e) = err e

unfoldable pub validate_outcome : EventBody → Result (Unit {0})
unfolding and_then forget first_error validate_ref_caps outcome_resolution_token
    outcome_source_token
validate_outcome (EventBody.outcome b) =
    and_then (first_error ((not (length b.serve_ref == 32), Error.invalid_serve_ref) ∷ [])) (
      and_then (forget (outcome_resolution_token b.resolution)) (
        and_then (forget (outcome_source_token b.source))
          (validate_ref_caps (b.episode_ref ∷ (b.evidence_ref ∷ [])))))
validate_outcome EventBody.absent = err Error.event_body_required
validate_outcome (EventBody.validity_predicate b) = err Error.event_body_required
validate_outcome (EventBody.cost_to_discover b) = err Error.event_body_required
validate_outcome (EventBody.convergence b) = err Error.event_body_required

unfoldable pub validate_predicate : EventBody → Result (Unit {0})
unfolding and_then forget validate_ref_caps predicate_result_token
validate_predicate (EventBody.validity_predicate b) =
    and_then (forget (predicate_result_token b.result))
      (validate_ref_caps (b.predicate_id ∷ (b.evidence_ref ∷ [])))
validate_predicate EventBody.absent = err Error.event_body_required
validate_predicate (EventBody.outcome b) = err Error.event_body_required
validate_predicate (EventBody.cost_to_discover b) = err Error.event_body_required
validate_predicate (EventBody.convergence b) = err Error.event_body_required

unfoldable pub validate_cost : EventBody → Result (Unit {0})
unfolding validate_ref_caps
validate_cost (EventBody.cost_to_discover b) = validate_ref_caps (b.evidence_ref ∷ [])
validate_cost EventBody.absent = err Error.event_body_required
validate_cost (EventBody.outcome b) = err Error.event_body_required
validate_cost (EventBody.validity_predicate b) = err Error.event_body_required
validate_cost (EventBody.convergence b) = err Error.event_body_required

unfoldable pub validate_convergence : EventBody → Result (Unit {0})
unfolding validate_ref_caps
validate_convergence (EventBody.convergence b) = validate_ref_caps (b.convergence_ref ∷ [])
validate_convergence EventBody.absent = err Error.event_body_required
validate_convergence (EventBody.outcome b) = err Error.event_body_required
validate_convergence (EventBody.validity_predicate b) = err Error.event_body_required
validate_convergence (EventBody.cost_to_discover b) = err Error.event_body_required

-- validateEventBody
unfoldable pub validate_event_body : ℕ → EventBody → Result (Unit {0})
unfolding validate_outcome validate_predicate validate_cost validate_convergence
validate_event_body t b =
    if t == 3
    then validate_outcome b
    else (if t == 6
        then validate_predicate b
        else (if t == 7
            then validate_cost b
            else (if t == 8 then validate_convergence b else err Error.invalid_event_type)))

-- validateEventEntry, of an entry that is not nil.
unfoldable pub validate_event : EventEntry → Result (Unit {0})
unfolding and_then first_error validate_event_type validate_event_body
validate_event e = and_then (validate_event_type e.event_type) (
    and_then
      (first_error (
        (not (length e.memory_content_hash == 32), Error.invalid_content_hash)
        ∷ ((not (length e.signer_pubkey == 32), Error.invalid_serve_key_pubkey)
            ∷ ((not (length e.signature == 64), Error.invalid_serve_signature)
                ∷ ((is_empty e.nonce, Error.event_nonce_empty)
                    ∷ ((ltb 64 (length e.nonce), Error.event_nonce_too_long) ∷ []))))))
      (validate_event_body e.event_type e.body))

unfoldable pub validate_event_batch : MsgSubmitEventBatch → Result (Unit {0})
unfolding first_error and_then check_all validate_event is_none
validate_event_batch m =
    and_then
      (first_error (
        (is_empty m.signer, Error.signer_empty)
        ∷ ((is_empty m.org_id, Error.invalid_org_id)
            ∷ ((is_none m.events, Error.batch_empty) ∷ []))))
      (check_all validate_event m.events)

unfoldable pub validate_anchor : MsgAnchorPolicyVersion → Result (Unit {0})
unfolding first_error
validate_anchor m = first_error (
    (is_empty m.authority, Error.authority_empty)
    ∷ ((is_empty m.policy_version, Error.policy_version_empty)
        ∷ ((ltb 128 (length m.policy_version), Error.policy_version_too_long)
            ∷ ((not (length m.policy_hash == 32), Error.policy_hash_length) ∷ []))))

unfoldable pub validate_update : MsgUpdateParams → Result (Unit {0})
validate_update m = if is_empty m.authority then err Error.authority_empty else ok tt

-- The events of a valid message have signers' keys of 32 bytes.
checked_sizes :
    (l : List EventEntry)
    → check_all validate_event l ≡ ok tt
    → All (λ e. length e.signer_pubkey ≡ 32) l
unfolding check_all validate_event and_then first_error
checked_sizes [] h = tt
checked_sizes (e ∷ rest) h = elim (Result-cases (validate_event e)) [
  | inl (u, fine) ↦ (ground arith, checked_sizes rest (ground arith))
  | inr (x, refused) ↦ ground arith
]

pub validate_event_batch-sizes :
    (m : MsgSubmitEventBatch)
    → validate_event_batch m ≡ ok tt
    → All (λ e. length e.signer_pubkey ≡ 32) m.events
unfolding validate_event_batch and_then first_error is_none
validate_event_batch-sizes m h = checked_sizes m.events (ground arith)
