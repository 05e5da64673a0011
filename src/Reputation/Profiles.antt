-- ===== src/Reputation/Profiles.antt =====
-- The profiles of x/reputation/keeper: contributors (keeper.go), leaders (leader_profile.go) and
-- moderators (moderator_profile.go).
use wevibe_chain.Common.{
  ℕ, ◌==◌, Bool, true, false, Option, none, some, List, [], ◌∷◌, ◌++◌, Text, text_eq, is_empty,
  length, leb, add64, if◌then◌else◌, Error, Action, modify, or_raise, ◌>>=◌,
}
use wevibe_chain.Common.Dict.{get, insert}
use wevibe_chain.Reputation.Types.{
  State, StoredContributorProfile, OrgMembership, StoredLeaderProfile, StoredModeratorProfile,
  contributor_profile_key, leader_profile_key, moderator_profile_key,
}

unfoldable pub empty_profile : Text → StoredContributorProfile
empty_profile contributor = record {
  contributor_id = contributor;
  total_approved_memories = 0;
  total_serves_received = 0;
  total_denials_received = 0;
  total_reports_filed_against = 0;
  total_reports_upheld_against = 0;
  memberships = [];
  first_contribution_epoch = 0;
  last_contribution_epoch = 0;
}

unfoldable pub get_contributor_profile : Text → Text → State → StoredContributorProfile
unfolding empty_profile
get_contributor_profile contributor org s =
    elim (get (contributor_profile_key contributor org) s.profiles) [
      | none ↦ empty_profile contributor
      | some p ↦ p
    ]

-- How every update of a profile starts: the contributor's name where the profile has none.
unfoldable pub named_profile : Text → Text → State → StoredContributorProfile
unfolding get_contributor_profile
named_profile contributor org s =
    let p = get_contributor_profile contributor org s in
    if is_empty p.contributor_id then record p { contributor_id = contributor } else p

unfoldable pub put_profile : Text → Text → StoredContributorProfile → State → State
put_profile contributor org p s = record s {
  profiles = insert (contributor_profile_key contributor org) p s.profiles;
}

unfoldable pub increment_contribution : Text → Text → Action State (Unit {0})
unfolding named_profile put_profile
increment_contribution contributor org = modify (λ s.
    let p = named_profile contributor org s in
    put_profile contributor org
      (record p { total_approved_memories = add64 p.total_approved_memories 1 }) s)

unfoldable pub increment_serve : Text → Text → ℕ → Action State (Unit {0})
unfolding named_profile put_profile
increment_serve contributor org count = modify (λ s.
    let p = named_profile contributor org s in
    put_profile contributor org
      (record p { total_serves_received = add64 p.total_serves_received count }) s)

unfoldable pub record_ban : Text → Text → Action State (Unit {0})
unfolding named_profile put_profile
record_ban contributor org = modify (λ s.
    let p = named_profile contributor org s in
    put_profile contributor org
      (record p { total_reports_upheld_against = add64 p.total_reports_upheld_against 1 }) s)

-- ContributorDelta: each int64 as the uint64 with the same bits.
pub record ContributorDelta : Type 0 where
  pub approved_memories : ℕ
  pub serves_received : ℕ
  pub denials_received : ℕ
  pub reports_filed_against : ℕ
  pub reports_upheld_against : ℕ

unfoldable pub update_contributor_aggregate : Text → ContributorDelta → Action State (Unit {0})
unfolding named_profile put_profile
update_contributor_aggregate contributor d = modify (λ s.
    let p = named_profile contributor [] s in
    put_profile contributor []
      (record p {
        total_approved_memories = add64 p.total_approved_memories d.approved_memories;
        total_serves_received = add64 p.total_serves_received d.serves_received;
        total_denials_received = add64 p.total_denials_received d.denials_received;
        total_reports_filed_against = add64 p.total_reports_filed_against d.reports_filed_against;
        total_reports_upheld_against =
            add64 p.total_reports_upheld_against d.reports_upheld_against;
      })
      s)

-- The loops over the memberships: the first one of the organisation is changed; `none` where there
-- is none.
unfoldable pub change_membership :
    (OrgMembership → OrgMembership) → Text → List OrgMembership → Option (List OrgMembership)
change_membership f org [] = none
change_membership f org (m ∷ rest) =
    let after : Option (List OrgMembership) = elim (change_membership f org rest) [
      | none ↦ none
      | some ms ↦ some (m ∷ ms)
    ] in
    if text_eq m.org_id org then some (f m ∷ rest) else after

unfoldable pub add_contributor_org_membership : Text → Text → Text → ℕ → Action State (Unit {0})
unfolding named_profile put_profile change_membership
add_contributor_org_membership contributor org role epoch = modify (λ s.
    let p = named_profile contributor [] s in
    let joined : List OrgMembership =
      elim (change_membership (λ m. record m { role = role; active = true }) org p.memberships) [
        | some ms ↦ ms
        | none ↦
            p.memberships
            ++ ((record { org_id = org; role = role; joined_epoch = epoch; active = true }) ∷ [])
      ] in
    put_profile contributor [] (record p { memberships = joined }) s)

-- The common body of UpdateContributorOrgRole and MarkContributorOrgInactive.
unfoldable pub update_membership :
    (OrgMembership → OrgMembership) → Text → Text → Action State (Unit {0})
unfolding put_profile change_membership
update_membership f contributor org s =
    (do
      p ← or_raise (get (contributor_profile_key contributor []) s.profiles) Error.profile_not_found
      ms ← or_raise (change_membership f org p.memberships) Error.membership_not_found
      modify (put_profile contributor [] (record p { memberships = ms })))
      s

unfoldable pub update_contributor_org_role : Text → Text → Text → Action State (Unit {0})
unfolding update_membership
update_contributor_org_role contributor org role =
    update_membership (λ m. record m { role = role }) contributor org

unfoldable pub mark_contributor_org_inactive : Text → Text → Action State (Unit {0})
unfolding update_membership
mark_contributor_org_inactive contributor org =
    update_membership (λ m. record m { active = false }) contributor org

unfoldable pub record_contributor_activity : Text → ℕ → Action State (Unit {0})
unfolding named_profile put_profile
record_contributor_activity contributor epoch = modify (λ s.
    let p = named_profile contributor [] s in
    put_profile contributor []
      (record p {
        first_contribution_epoch =
            if p.first_contribution_epoch == 0 then epoch else p.first_contribution_epoch;
        last_contribution_epoch = epoch;
      })
      s)

unfoldable pub get_leader_profile : Text → Text → State → StoredLeaderProfile
get_leader_profile pubkey org s = elim (get (leader_profile_key pubkey org) s.leaders) [
  | some p ↦ p
  | none ↦ record {
    leader_pubkey = pubkey;
    org_id = org;
    total_chain_commits_signed = 0;
    total_upheld_reports_committed = 0;
    first_leadership_epoch = 0;
    current_leader = false;
  }
]

unfoldable pub set_leader_profile : StoredLeaderProfile → Action State (Unit {0})
set_leader_profile p =
    modify
      (λ s. record s { leaders = insert (leader_profile_key p.leader_pubkey p.org_id) p s.leaders })

unfoldable pub increment_leader_chain_commit : Text → Text → Action State (Unit {0})
unfolding get_leader_profile
increment_leader_chain_commit pubkey org s =
    let p = get_leader_profile pubkey org s in
    set_leader_profile
      (record p { total_chain_commits_signed = add64 p.total_chain_commits_signed 1 }) s

unfoldable pub increment_leader_upheld_report : Text → Text → Action State (Unit {0})
unfolding get_leader_profile
increment_leader_upheld_report pubkey org s =
    let p = get_leader_profile pubkey org s in
    set_leader_profile
      (record p { total_upheld_reports_committed = add64 p.total_upheld_reports_committed 1 }) s

unfoldable pub set_leader_current : Text → Text → Bool → Action State (Unit {0})
unfolding get_leader_profile
set_leader_current pubkey org current s =
    set_leader_profile (record (get_leader_profile pubkey org s) { current_leader = current }) s

unfoldable pub get_moderator_profile : Text → Text → State → StoredModeratorProfile
get_moderator_profile pubkey org s = elim (get (moderator_profile_key pubkey org) s.moderators) [
  | some p ↦ p
  | none ↦ record {
    moderator_pubkey = pubkey;
    org_id = org;
    total_approvals = 0;
    approvals_later_upheld_count = 0;
    approved_memory_hashes = [];
    first_approval_epoch = 0;
    last_approval_epoch = 0;
  }
]

unfoldable pub set_moderator_profile : StoredModeratorProfile → Action State (Unit {0})
set_moderator_profile p = modify (λ s. record s {
  moderators = insert (moderator_profile_key p.moderator_pubkey p.org_id) p s.moderators;
})

abbrev pub max_approved_hash_index : ℕ
max_approved_hash_index = 1000

-- The index of approved hashes: a full one loses its oldest.
unfoldable pub index_hash : Text → List Text → List Text
index_hash hash [] = hash ∷ []
index_hash hash (h ∷ rest) =
    if leb max_approved_hash_index (length (h ∷ rest))
    then rest ++ (hash ∷ [])
    else (h ∷ rest) ++ (hash ∷ [])

unfoldable pub increment_moderator_approval : Text → Text → Text → ℕ → Action State (Unit {0})
unfolding get_moderator_profile index_hash
increment_moderator_approval pubkey org hash epoch s =
    let p = get_moderator_profile pubkey org s in
    set_moderator_profile
      (record p {
        total_approvals = add64 p.total_approvals 1;
        approved_memory_hashes = index_hash hash p.approved_memory_hashes;
        first_approval_epoch =
            if p.first_approval_epoch == 0 then epoch else p.first_approval_epoch;
        last_approval_epoch = epoch;
      })
      s

unfoldable pub increment_moderator_upheld : Text → Text → Action State (Unit {0})
unfolding get_moderator_profile
increment_moderator_upheld pubkey org s =
    let p = get_moderator_profile pubkey org s in
    set_moderator_profile
      (record p { approvals_later_upheld_count = add64 p.approvals_later_upheld_count 1 }) s
