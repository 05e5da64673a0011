-- ===== src/Org/Types.antt =====
-- x/org/types: organisations and members (keys.go, state.pb.go), and the keys of keeper/keeper.go.
use wevibe_chain.Common.{ℕ, Bool, true, false, Option, List, ◌∷◌, ◌++◌, Text, codes}
use wevibe_chain.Common.Dict.{Dict}

pub data OrgStatus : Type 0 where
  active dormant suspended closed : OrgStatus

unfoldable pub is_active : OrgStatus → Bool
is_active OrgStatus.active = true
is_active OrgStatus.dormant = false
is_active OrgStatus.suspended = false
is_active OrgStatus.closed = false

pub record StoredOrg : Type 0 where
  pub org_id : Text
  pub leader : Text
  pub created_at : ℕ
  pub renewal_height : ℕ
  pub storage_quota : ℕ
  pub retrieval_budget : ℕ
  pub status : OrgStatus
  pub domain : Text
  pub total_committed_memories : ℕ
  pub total_active_members : ℕ
  pub total_upheld_reports : ℕ
  pub last_activity_epoch : ℕ
  pub hub_serving_address : Text
  pub leader_wallet_address : Text
  pub slot : ℕ
  pub account_address : Text
  pub hub_endpoints : List Text
  pub hub_response_pubkey : Text
  pub description : Text
  pub tech_stack : Text
  pub focus_areas : Text
  pub name : Text

pub record Org : Type 0 where
  pub org_id : Text
  pub slot : ℕ
  pub leader : Text
  pub domain : Text
  pub name : Text
  pub description : Text
  pub tech_stack : Text
  pub focus_areas : Text
  pub created_at : ℕ
  pub renewal_height : ℕ
  pub storage_quota : ℕ
  pub retrieval_budget : ℕ
  pub status : OrgStatus
  pub hub_serving_address : Text
  pub hub_endpoints : List Text
  pub hub_response_pubkey : Text
  pub leader_wallet_address : Text
  pub account_address : Text

unfoldable pub stored_to_org : StoredOrg → Org
stored_to_org o = record {
  org_id = o.org_id;
  slot = o.slot;
  leader = o.leader;
  domain = o.domain;
  name = o.name;
  description = o.description;
  tech_stack = o.tech_stack;
  focus_areas = o.focus_areas;
  created_at = o.created_at;
  renewal_height = o.renewal_height;
  storage_quota = o.storage_quota;
  retrieval_budget = o.retrieval_budget;
  status = o.status;
  hub_serving_address = o.hub_serving_address;
  hub_endpoints = o.hub_endpoints;
  hub_response_pubkey = o.hub_response_pubkey;
  leader_wallet_address = o.leader_wallet_address;
  account_address = o.account_address;
}

-- StoredMemberRecord has the same fields.
pub record MemberRecord : Type 0 where
  pub org_id : Text
  pub pubkey : Text
  pub role : Text
  pub x25519_pubkey : Text
  pub can_contribute : Bool
  pub can_moderate : Bool

unfoldable pub org_key : Text → Text
org_key org = codes "org/" ++ org

unfoldable pub member_key : Text → Text → Text
member_key org pubkey = codes "member/" ++ (org ++ (47 ∷ pubkey))

-- The organisations, the members, and the number under "epoch/current".
pub record State : Type 0 where
  pub orgs : Dict StoredOrg
  pub members : Dict MemberRecord
  pub current_epoch : Option ℕ
