-- ===== src/Org/Keeper.antt =====
-- x/org/keeper/keeper.go: the members of an organisation, its leader, its status and its serving
-- key; serving_feegrant.go; and aggregates.go.
use wevibe_chain.Common.{
  ℕ, ◌-◌, not, ◌||◌, Bool, false, none, some, List, [], ◌∷◌, ◌++◌, Text, codes, text_eq, is_empty,
  add64, Result, ok, err, Error, Action, raise_if, lift, modify, or_raise, ◌>>=◌, ◌>>◌,
}
use wevibe_chain.Common.Dict.{get, insert, erase, values}
use wevibe_chain.Common.Range.{range, prefix_end_bytes}
use wevibe_chain.Memory.Keeper.{is_some}
use wevibe_chain.Org.Types.{
  State, StoredOrg, Org, MemberRecord, OrgStatus, is_active, stored_to_org, org_key, member_key,
}

unfoldable pub get_org : Text → State → Result Org
unfolding stored_to_org
get_org org s = elim (get (org_key org) s.orgs) [
  | none ↦ err Error.org_not_found
  | some o ↦ ok (stored_to_org o)
]

unfoldable pub has_org : Text → State → Bool
has_org org s = is_some (get (org_key org) s.orgs)

-- The stored record, for a change.
unfoldable pub load_org : Text → Action State StoredOrg
load_org org s = or_raise (get (org_key org) s.orgs) Error.org_not_found s

unfoldable pub put_org : Text → StoredOrg → State → State
put_org org o s = record s { orgs = insert (org_key org) o s.orgs }

unfoldable pub put_member : Text → Text → MemberRecord → State → State
put_member org pubkey m s = record s { members = insert (member_key org pubkey) m s.members }

unfoldable pub get_member : Text → Text → State → Result MemberRecord
get_member org pubkey s = elim (get (member_key org pubkey) s.members) [
  | none ↦ err Error.member_not_found
  | some m ↦ ok m
]

-- AddMember
unfoldable pub add_member : MemberRecord → Action State (Unit {0})
unfolding load_org
add_member m s =
    (do
      raise_if (not (text_eq m.role (codes "member"))) Error.invalid_role
      o ← load_org m.org_id
      raise_if (not (is_active o.status)) Error.org_not_active
      raise_if (is_some (get (member_key m.org_id m.pubkey) s.members)) Error.member_exists
      modify (put_member m.org_id m.pubkey m)
      modify
          (put_org m.org_id (record o { total_active_members = add64 o.total_active_members 1 })))
      s

-- RemoveMember
unfoldable pub remove_member : Text → Text → Action State (Unit {0})
unfolding load_org
remove_member org pubkey s =
    (do
      m ← or_raise (get (member_key org pubkey) s.members) Error.member_not_found
      raise_if (text_eq m.role (codes "leader")) Error.cannot_remove_leader
      o ← load_org org
      raise_if (not (is_active o.status)) Error.org_not_active
      modify (λ t. record t { members = erase (member_key org pubkey) t.members })
      modify (put_org org (record o { total_active_members = o.total_active_members - 1 })))
      s

unfoldable pub get_all_members : Text → State → List MemberRecord
get_all_members org s =
    let prefix = codes "member/" ++ (org ++ (47 ∷ [])) in
    values (range prefix (prefix_end_bytes prefix) s.members)

unfoldable pub is_member : Text → Text → State → Bool
is_member org pubkey s = is_some (get (member_key org pubkey) s.members)

unfoldable pub is_leader : Text → Text → State → Bool
unfolding get_member
is_leader org pubkey s = elim (get_member org pubkey s) [
  | err e ↦ false
  | ok m ↦ text_eq m.role (codes "leader")
]

unfoldable pub is_moderator : Text → Text → State → Bool
unfolding get_member
is_moderator org pubkey s = elim (get_member org pubkey s) [ err e ↦ false | ok m ↦ m.can_moderate ]

unfoldable pub get_serving_address : Text → State → Result Text
unfolding get_org
get_serving_address org s = elim (get_org org s) [ err e ↦ err e | ok o ↦ ok o.hub_serving_address ]

unfoldable pub get_leader_wallet : Text → State → Result Text
unfolding get_org
get_leader_wallet org s = elim (get_org org s) [ err e ↦ err e | ok o ↦ ok o.leader_wallet_address ]

-- The signer is the wallet of the leader.
unfoldable pub require_leader : {S : Type 0} → Org → Text → Action S (Unit {0})
require_leader o signer =
    raise_if (is_empty o.leader_wallet_address || not (text_eq signer o.leader_wallet_address))
      Error.not_leader

-- SetMemberCapabilities
unfoldable pub set_member_capabilities : Text → Text → Bool → Bool → Text → Action State (Unit {0})
unfolding get_org get_member require_leader
set_member_capabilities org pubkey can_contribute can_moderate signer s =
    (do
      o ← lift (get_org org s)
      require_leader o signer
      raise_if (not (is_active o.status)) Error.org_not_active
      m ← lift (get_member org pubkey s)
      modify (
          put_member org pubkey
            (record m { can_contribute = can_contribute; can_moderate = can_moderate })))
      s

-- CloseOrg
unfoldable pub close_org : Text → Text → Action State (Unit {0})
unfolding get_org require_leader load_org
close_org org signer s =
    (do
      o ← lift (get_org org s)
      require_leader o signer
      raise_if (not (is_active o.status)) Error.org_not_active
      stored ← load_org org
      modify (put_org org (record stored { status = OrgStatus.closed })))
      s

unfoldable pub update_org_status : Text → OrgStatus → Action State (Unit {0})
unfolding load_org
update_org_status org status = do
  o ← load_org org
  modify (put_org org (record o { status = status }))

unfoldable pub update_storage_quota : Text → ℕ → Action State (Unit {0})
unfolding load_org
update_storage_quota org quota = do
  o ← load_org org
  modify (put_org org (record o { storage_quota = quota }))
