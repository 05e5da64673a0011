-- ===== src/Reputation/Types.antt =====
-- x/reputation/types: statistics and memories (keys.go), parameters (params.go), the stored profiles
-- (state.pb.go), and the keys and the store of keeper/*.go.
use wevibe_chain.Common.{
  ℕ, zero, suc, ◌==◌, Bool, true, Option, none, some, List, [], ◌∷◌, ◌++◌, Text, codes, is_empty,
  ltb, leb, add64, mul64, if◌then◌else◌, Result, ok, err, Error,
}
use wevibe_chain.Common.Dict.{Dict, get, insert}
use wevibe_chain.Common.Dict.Laws.{amount}

-- A map of counts; `none` is the nil map.
abbrev pub CountMap : Type 0
CountMap = Option (Dict ℕ)

pub record ReputationStats : Type 0 where
  pub developer_id : Text
  pub memory_count : ℕ
  pub difficulty_bucket : List ℕ
  pub domain_tags : CountMap
  pub provenance_breakdown : CountMap
  pub xp : ℕ
  pub serve_count : ℕ
  pub self_serve_count : ℕ
  pub org_breadth : ℕ
  pub first_seen_epoch : ℕ
  pub serve_xp : ℕ

abbrev pub no_buckets : List ℕ
no_buckets = 0 ∷ 0 ∷ 0 ∷ 0 ∷ 0 ∷ 0 ∷ 0 ∷ 0 ∷ 0 ∷ 0 ∷ 0 ∷ []

unfoldable pub new_reputation_stats : Text → ReputationStats
new_reputation_stats developer = record {
  developer_id = developer;
  memory_count = 0;
  difficulty_bucket = no_buckets;
  domain_tags = some [];
  provenance_breakdown = some [];
  xp = 0;
  serve_count = 0;
  self_serve_count = 0;
  org_breadth = 0;
  first_seen_epoch = 0;
  serve_xp = 0;
}

-- The map that a stored one decodes to: a map field with no entry is not written, and decodes to nil.
unfoldable pub decoded_map : CountMap → CountMap
decoded_map none = none
decoded_map (some []) = none
decoded_map (some (e ∷ d)) = some (e ∷ d)

-- storedToReputationStats after reputationStatsToStored.
unfoldable pub stored_stats : ReputationStats → ReputationStats
unfolding decoded_map
stored_stats r = record r {
  domain_tags = decoded_map r.domain_tags;
  provenance_breakdown = decoded_map r.provenance_breakdown;
}

-- m[tag]++: a write to a nil map panics.
unfoldable pub count_tag : Text → CountMap → Result CountMap
count_tag tag none = err Error.nil_map_panic
count_tag tag (some d) = ok (some (insert tag (add64 (amount (get tag d)) 1) d))

unfoldable pub count_tags : List Text → CountMap → Result CountMap
unfolding count_tag
count_tags [] m = ok m
count_tags (tag ∷ rest) m =
    let skipped = count_tags rest m in
    if is_empty tag
    then skipped
    else elim (count_tag tag m) [ err e ↦ err e | ok m' ↦ count_tags rest m' ]

-- bucket[i]++
unfoldable pub bump : ℕ → List ℕ → List ℕ
bump i [] = []
bump zero (n ∷ rest) = add64 n 1 ∷ rest
bump (suc i) (n ∷ rest) = n ∷ bump i rest

-- ReputationStats.AddMemory
unfoldable pub add_memory : ℕ → ℕ → List Text → Text → ReputationStats → Result ReputationStats
unfolding count_tags count_tag bump
add_memory difficulty quality tags provenance r = elim (count_tags tags r.domain_tags) [
  | err e ↦ err e
  | ok domains ↦
      elim (if is_empty provenance
        then ok r.provenance_breakdown
        else count_tag provenance r.provenance_breakdown) [
          | err e ↦ err e
          | ok breakdown ↦ ok (record r {
            memory_count = add64 r.memory_count 1;
            difficulty_bucket =
                if leb difficulty 10
                then bump difficulty r.difficulty_bucket
                else r.difficulty_bucket;
            domain_tags = domains;
            provenance_breakdown = breakdown;
            xp = add64 r.xp (mul64 difficulty quality);
          })
        ]
]

pub record AttestedMemory : Type 0 where
  pub developer : Text
  pub memory_cid : Text
  pub difficulty : ℕ
  pub quality : ℕ
  pub domain_tags : List Text
  pub provenance : Text

-- AttestedMemory.Validate
unfoldable pub validate_memory : AttestedMemory → Result (Unit {0})
validate_memory m =
    if is_empty m.developer
    then err Error.invalid_developer
    else (if is_empty m.memory_cid
        then err Error.invalid_memory
        else (if ltb 10 m.difficulty
            then err Error.invalid_difficulty
            else (if ltb 10 m.quality then err Error.invalid_quality else ok tt)))

pub record Params : Type 0 where
  pub active : Bool
  pub max_difficulty : ℕ
  pub max_quality : ℕ
  pub serve_xp_per_serve : ℕ
  pub self_serve_xp_per_serve : ℕ

unfoldable pub default_params : Params
default_params = record {
  active = true;
  max_difficulty = 10;
  max_quality = 10;
  serve_xp_per_serve = 5;
  self_serve_xp_per_serve = 2;
}

-- Params.Validate
unfoldable pub validate_params : Params → Result (Unit {0})
validate_params p =
    if p.max_difficulty == 0
    then err Error.max_difficulty_zero
    else (if p.max_quality == 0 then err Error.max_quality_zero else ok tt)

pub record StoredContributorOrgSet : Type 0 where
  pub contributor_id : Text
  pub org_ids : List Text

pub record OrgMembership : Type 0 where
  pub org_id : Text
  pub role : Text
  pub joined_epoch : ℕ
  pub active : Bool

pub record StoredContributorProfile : Type 0 where
  pub contributor_id : Text
  pub total_approved_memories : ℕ
  pub total_serves_received : ℕ
  pub total_denials_received : ℕ
  pub total_reports_filed_against : ℕ
  pub total_reports_upheld_against : ℕ
  pub memberships : List OrgMembership
  pub first_contribution_epoch : ℕ
  pub last_contribution_epoch : ℕ

pub record StoredLeaderProfile : Type 0 where
  pub leader_pubkey : Text
  pub org_id : Text
  pub total_chain_commits_signed : ℕ
  pub total_upheld_reports_committed : ℕ
  pub first_leadership_epoch : ℕ
  pub current_leader : Bool

pub record StoredModeratorProfile : Type 0 where
  pub moderator_pubkey : Text
  pub org_id : Text
  pub total_approvals : ℕ
  pub approvals_later_upheld_count : ℕ
  pub approved_memory_hashes : List Text
  pub first_approval_epoch : ℕ
  pub last_approval_epoch : ℕ

unfoldable pub stats_key : Text → Text
stats_key developer = codes "stats/" ++ developer

unfoldable pub memory_key : Text → Text → Text
memory_key developer cid = codes "memory/" ++ (developer ++ (47 ∷ cid))

unfoldable pub contributor_org_set_key : Text → Text
contributor_org_set_key developer = codes "orgset/" ++ developer

unfoldable pub contributor_profile_key : Text → Text → Text
contributor_profile_key contributor org = codes "profile/" ++ (contributor ++ (47 ∷ org))

-- The format puts a slash after a prefix that ends with one.
unfoldable pub leader_profile_key : Text → Text → Text
leader_profile_key pubkey org = codes "leaderprofile//" ++ (pubkey ++ (47 ∷ org))

unfoldable pub moderator_profile_key : Text → Text → Text
moderator_profile_key pubkey org = codes "modprofile//" ++ (pubkey ++ (47 ∷ org))

-- The keys "params" and "active/", whose value is a byte, and one store per prefix.
pub record State : Type 0 where
  pub params : Option Params
  pub active : Option ℕ
  pub stats : Dict ReputationStats
  pub memories : Dict AttestedMemory
  pub org_sets : Dict StoredContributorOrgSet
  pub profiles : Dict StoredContributorProfile
  pub leaders : Dict StoredLeaderProfile
  pub moderators : Dict StoredModeratorProfile

abbrev pub empty_state : State
empty_state = record {
  params = none;
  active = none;
  stats = [];
  memories = [];
  org_sets = [];
  profiles = [];
  leaders = [];
  moderators = [];
}
