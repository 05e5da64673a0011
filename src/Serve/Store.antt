-- ===== src/Serve/Store.antt =====
-- The store of x/serve: the events of types/event.pb.go, the keys of keeper/keeper.go, and what
-- stands under each prefix.
use wevibe_chain.Common.{ℕ, Option, none, [], ◌∷◌, ◌++◌, Text, codes}
use wevibe_chain.Common.Decimal.{format_uint}
use wevibe_chain.Common.Dict.{Dict}
use wevibe_chain.Attestation.Types.{content_hash_to_hex}
use wevibe_chain.Serve.Types.{
  StoredServeReceipt, StoredDenialReceipt, EpochServeStats, ContributorEpochServes, Params,
  StoredPolicyAnchor,
}

pub record OutcomeEventBody : Type 0 where
  pub episode_ref : Text
  pub evidence_ref : Text
  pub serve_ref : Text
  pub resolution : ℕ
  pub source : ℕ

pub record ValidityPredicateEventBody : Type 0 where
  pub predicate_id : Text
  pub result : ℕ
  pub evidence_ref : Text

pub record CostToDiscoverEventBody : Type 0 where
  pub cycles : ℕ
  pub tool_calls : ℕ
  pub attempts_to_green : ℕ
  pub evidence_ref : Text

pub record ConvergenceEventBody : Type 0 where
  pub convergence_ref : Text

-- The oneof field of an event; `absent` is nil.
pub data EventBody : Type 0 where
  absent : EventBody
  outcome : OutcomeEventBody → EventBody
  validity_predicate : ValidityPredicateEventBody → EventBody
  cost_to_discover : CostToDiscoverEventBody → EventBody
  convergence : ConvergenceEventBody → EventBody

-- Enumerations by number: the event types 1 to 8 are serve, block, outcome, contest, sponsorship,
-- validity predicate, cost to discover and convergence.
pub record EventEntry : Type 0 where
  pub event_type : ℕ
  pub memory_content_hash : Text
  pub signer_pubkey : Text
  pub nonce : Text
  pub signature : Text
  pub body : EventBody

pub record StoredEvent : Type 0 where
  pub org_id : Text
  pub epoch : ℕ
  pub event_type : ℕ
  pub memory_content_hash : Text
  pub signer_pubkey : Text
  pub nonce : Text
  pub signature : Text
  pub fingerprint : Text
  pub body : EventBody

-- "<org>/<epoch>"
org_epoch : Text → ℕ → Text
org_epoch org epoch = org ++ (47 ∷ format_uint epoch)

-- "<org>/<hex>/<epoch>"
org_hash_epoch : Text → Text → ℕ → Text
org_hash_epoch org hash epoch = org ++ (47 ∷ (content_hash_to_hex hash ++ (47 ∷ format_uint epoch)))

unfoldable pub serve_fingerprint_key : Text → Text
serve_fingerprint_key f = codes "fingerprint/" ++ content_hash_to_hex f

unfoldable pub denial_fingerprint_key : Text → Text
denial_fingerprint_key f = codes "denyfingerprint/" ++ content_hash_to_hex f

unfoldable pub receipt_key : Text → ℕ → Text → Text
unfolding org_epoch
receipt_key org epoch f = codes "receipt/" ++ (org_epoch org epoch ++ (47 ∷ content_hash_to_hex f))

unfoldable pub denial_receipt_key : Text → ℕ → Text → Text
unfolding org_epoch
denial_receipt_key org epoch f =
    codes "denial/" ++ (org_epoch org epoch ++ (47 ∷ content_hash_to_hex f))

unfoldable pub event_key : Text → ℕ → Text → Text
unfolding org_epoch
event_key org epoch f = codes "event/" ++ (org_epoch org epoch ++ (47 ∷ content_hash_to_hex f))

unfoldable pub event_prefix : Text → ℕ → Text
unfolding org_epoch
event_prefix org epoch = codes "event/" ++ (org_epoch org epoch ++ (47 ∷ []))

unfoldable pub event_fingerprint_key : Text → Text
event_fingerprint_key f = codes "eventfp/" ++ content_hash_to_hex f

unfoldable pub policy_anchor_key : Text → Text
policy_anchor_key version = codes "policy_anchor/" ++ version

unfoldable pub stats_key : Text → ℕ → Text
unfolding org_epoch
stats_key org epoch = codes "stats/" ++ org_epoch org epoch

unfoldable pub contributor_key : Text → ℕ → Text
unfolding org_epoch
contributor_key contributor epoch = codes "contributor/" ++ org_epoch contributor epoch

unfoldable pub mem_count_key : Text → Text → ℕ → Text
unfolding org_hash_epoch
mem_count_key org hash epoch = codes "memcount/" ++ org_hash_epoch org hash epoch

unfoldable pub denial_count_key : Text → Text → ℕ → Text
unfolding org_hash_epoch
denial_count_key org hash epoch = codes "denycount/" ++ org_hash_epoch org hash epoch

unfoldable pub mem_first_key : Text → Text → ℕ → Text
unfolding org_hash_epoch
mem_first_key org hash epoch = codes "memfirst/" ++ org_hash_epoch org hash epoch

-- The serve key is a text here, not bytes.
unfoldable pub key_first_key : Text → Text → ℕ → Text
key_first_key org serve_key epoch =
    codes "keyfirst/" ++ (org ++ (47 ∷ (serve_key ++ (47 ∷ format_uint epoch))))

-- One store per prefix. `fingerprints` holds the keys of the receipts; the four stores of a mark
-- hold the byte 1.
pub record State : Type 0 where
  pub params : Option Params
  pub receipts : Dict StoredServeReceipt
  pub fingerprints : Dict Text
  pub denials : Dict StoredDenialReceipt
  pub denial_fingerprints : Dict (Unit {0})
  pub events : Dict StoredEvent
  pub event_fingerprints : Dict (Unit {0})
  pub anchors : Dict StoredPolicyAnchor
  pub latest_anchor : Option Text
  pub stats : Dict EpochServeStats
  pub contributors : Dict ContributorEpochServes
  pub mem_counts : Dict ℕ
  pub denial_counts : Dict ℕ
  pub mem_firsts : Dict (Unit {0})
  pub key_firsts : Dict (Unit {0})

abbrev pub empty_state : State
empty_state = record {
  params = none;
  receipts = [];
  fingerprints = [];
  denials = [];
  denial_fingerprints = [];
  events = [];
  event_fingerprints = [];
  anchors = [];
  latest_anchor = none;
  stats = [];
  contributors = [];
  mem_counts = [];
  denial_counts = [];
  mem_firsts = [];
  key_firsts = [];
}
