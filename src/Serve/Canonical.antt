-- ===== src/Serve/Canonical.antt =====
-- x/serve/types/canonical.go: the bytes that a consumer signs, and the fingerprints by which a
-- serve, a denial or an event is known. `sha256` is crypto/sha256's Sum256.
use wevibe_chain.Common.{
  ℕ, zero, suc, ◌/◌, ◌%◌, List, [], ◌∷◌, ◌++◌, Text, codes, if◌then◌else◌, ◌==◌, Result, ok, err,
  Error,
}
use wevibe_chain.Common.Join.{join_lines}
use wevibe_chain.Common.Decimal.{format_uint}
use wevibe_chain.Attestation.Types.{content_hash_to_hex}
use wevibe_chain.Serve.Store.{EventEntry, EventBody}

-- CanonicalServeBody
unfoldable pub canonical_serve_body : Text → Text → ℕ → Text → Text → Text → Text
canonical_serve_body org hash epoch pubkey nonce episode = join_lines (codes "wevibe-serve-v3") (
    org
    ∷ (content_hash_to_hex hash
        ∷ (format_uint epoch
            ∷ (content_hash_to_hex pubkey
                ∷ (content_hash_to_hex nonce ∷ (content_hash_to_hex episode ∷ []))))))

-- CanonicalDenialBody
unfoldable pub canonical_denial_body : Text → Text → ℕ → Text → Text → Text → Text
canonical_denial_body org hash epoch pubkey fingerprint nonce =
    join_lines (codes "wevibe-denial-v1") (
      org
      ∷ (content_hash_to_hex hash
          ∷ (format_uint epoch
              ∷ (content_hash_to_hex pubkey
                  ∷ (content_hash_to_hex fingerprint ∷ (content_hash_to_hex nonce ∷ []))))))

-- binary.BigEndian.PutUint64: the lowest of so many bytes, the highest first.
unfoldable pub big_endian : ℕ → ℕ → Text → Text
big_endian zero n acc = acc
big_endian (suc i) n acc = big_endian i (n / 256) (n % 256 ∷ acc)

module _ (sha256 : Text → Text) where
  unfoldable pub compute_serve_fingerprint : Text → Text → ℕ → Text
  compute_serve_fingerprint hash pubkey epoch = sha256 (hash ++ (pubkey ++ big_endian 8 epoch []))

  unfoldable pub compute_denial_fingerprint : Text → Text → ℕ → Text → Text → Text
  compute_denial_fingerprint org hash epoch pubkey fingerprint =
      sha256 (canonical_denial_body org hash epoch pubkey fingerprint [])

  unfoldable pub compute_event_fingerprint : Text → Text
  compute_event_fingerprint body = sha256 body

unfoldable pub predicate_result_token : ℕ → Result Text
predicate_result_token r =
    if r == 1
    then ok (codes "pass")
    else (if r == 2
        then ok (codes "fail")
        else (if r == 3 then ok (codes "absent") else err Error.invalid_event_token))

unfoldable pub outcome_resolution_token : ℕ → Result Text
outcome_resolution_token r =
    if r == 1
    then ok (codes "worked")
    else (if r == 2
        then ok (codes "didnt_work")
        else (if r == 3 then ok (codes "unobserved") else err Error.invalid_event_token))

unfoldable pub outcome_source_token : ℕ → Result Text
outcome_source_token s =
    if s == 1
    then ok (codes "harvested")
    else (if s == 2 then ok (codes "user") else err Error.invalid_event_token)

-- The lines of a body of each kind; an entry whose body is of another kind has none.
unfoldable pub outcome_lines : EventBody → Result (Text × List Text)
unfolding outcome_resolution_token outcome_source_token
outcome_lines (EventBody.outcome b) = elim (outcome_resolution_token b.resolution) [
  | err e ↦ err e
  | ok resolution ↦ elim (outcome_source_token b.source) [
    | err e ↦ err e
    | ok source ↦ ok (
      codes "outcome",
      content_hash_to_hex b.episode_ref
          ∷ (content_hash_to_hex b.evidence_ref
              ∷ (content_hash_to_hex b.serve_ref
                  ∷ ((codes "resolution=" ++ resolution) ∷ ((codes "source=" ++ source) ∷ [])))),
    )
  ]
]
outcome_lines EventBody.absent = err Error.event_body_required
outcome_lines (EventBody.validity_predicate b) = err Error.event_body_required
outcome_lines (EventBody.cost_to_discover b) = err Error.event_body_required
outcome_lines (EventBody.convergence b) = err Error.event_body_required

unfoldable pub validity_predicate_lines : EventBody → Result (Text × List Text)
unfolding predicate_result_token
validity_predicate_lines (EventBody.validity_predicate b) = elim (predicate_result_token b.result) [
  | err e ↦ err e
  | ok result ↦ ok (
    codes "validity_predicate",
    content_hash_to_hex b.predicate_id
        ∷ ((codes "result=" ++ result) ∷ (content_hash_to_hex b.evidence_ref ∷ [])),
  )
]
validity_predicate_lines EventBody.absent = err Error.event_body_required
validity_predicate_lines (EventBody.outcome b) = err Error.event_body_required
validity_predicate_lines (EventBody.cost_to_discover b) = err Error.event_body_required
validity_predicate_lines (EventBody.convergence b) = err Error.event_body_required

unfoldable pub cost_to_discover_lines : EventBody → Result (Text × List Text)
cost_to_discover_lines (EventBody.cost_to_discover b) = ok (
  codes "cost_to_discover",
  (codes "cycles=" ++ format_uint b.cycles)
      ∷ ((codes "tool_calls=" ++ format_uint b.tool_calls)
          ∷ ((codes "attempts_to_green=" ++ format_uint b.attempts_to_green)
              ∷ (content_hash_to_hex b.evidence_ref ∷ []))),
)
cost_to_discover_lines EventBody.absent = err Error.event_body_required
cost_to_discover_lines (EventBody.outcome b) = err Error.event_body_required
cost_to_discover_lines (EventBody.validity_predicate b) = err Error.event_body_required
cost_to_discover_lines (EventBody.convergence b) = err Error.event_body_required

unfoldable pub convergence_lines : EventBody → Result (Text × List Text)
convergence_lines (EventBody.convergence b) =
    ok (codes "convergence", content_hash_to_hex b.convergence_ref ∷ [])
convergence_lines EventBody.absent = err Error.event_body_required
convergence_lines (EventBody.outcome b) = err Error.event_body_required
convergence_lines (EventBody.validity_predicate b) = err Error.event_body_required
convergence_lines (EventBody.cost_to_discover b) = err Error.event_body_required

-- canonicalEventSpecificLines
unfoldable pub event_specific_lines : ℕ → EventBody → Result (Text × List Text)
unfolding outcome_lines validity_predicate_lines cost_to_discover_lines convergence_lines
event_specific_lines t body =
    if t == 3
    then outcome_lines body
    else (if t == 6
        then validity_predicate_lines body
        else (if t == 7
            then cost_to_discover_lines body
            else (if t == 8 then convergence_lines body else err Error.invalid_event_type)))

-- CanonicalEventBody, of an entry that is not nil.
unfoldable pub canonical_event_body : Text → ℕ → EventEntry → Result Text
unfolding event_specific_lines
canonical_event_body org epoch e = elim (event_specific_lines e.event_type e.body) [
  | err x ↦ err x
  | ok (token, specific) ↦ ok (
      join_lines (codes "wevibe-event-v1") (
        token
        ∷ (org
            ∷ (content_hash_to_hex e.memory_content_hash
                ∷ (format_uint epoch
                    ∷ (content_hash_to_hex e.signer_pubkey
                        ∷ (specific ++ (content_hash_to_hex e.nonce ∷ []))))))))
]
