-- ===== src/Org/Tests.antt =====
-- Examples for x/org.
use wevibe_chain.Common.{
  ℕ, suc, ◌≡◌, refl, true, false, none, some, List, [], ◌∷◌, Text, codes, text_eq, ok, err, Error,
  arith, add64,
}
use wevibe_chain.Common.Dict.{get, insert, erase}
use wevibe_chain.Org.Types.{
  State, StoredOrg, MemberRecord, OrgStatus, org_key, member_key, is_active,
}
use wevibe_chain.Org.Keeper.{is_leader, get_member, add_member, remove_member, close_org, put_org}
use wevibe_chain.Org.Transfer.{World, Chain, transfer_leadership}
use wevibe_chain.Org.Aggregates.{increment_org_committed_memories, set_org_last_activity_epoch}
use wevibe_chain.Org.Leadership.{IsLed}
use wevibe_chain.Org.Succession.{Call, run, run-IsLed}

abbrev orca : StoredOrg
orca = record {
  org_id = codes "orca";
  leader = codes "lea";
  created_at = 1;
  renewal_height = 9;
  storage_quota = 100;
  retrieval_budget = 10;
  status = OrgStatus.active;
  domain = codes "go";
  total_committed_memories = 0;
  total_active_members = 1;
  total_upheld_reports = 0;
  last_activity_epoch = 0;
  hub_serving_address = [];
  leader_wallet_address = codes "w1";
  slot = 0;
  account_address = codes "acc";
  hub_endpoints = [];
  hub_response_pubkey = [];
  description = [];
  tech_stack = [];
  focus_areas = [];
  name = codes "Orca";
}

abbrev member_of : Text → Text → MemberRecord
member_of pubkey role = record {
  org_id = codes "orca";
  pubkey = pubkey;
  role = role;
  x25519_pubkey = [];
  can_contribute = true;
  can_moderate = false;
}

abbrev founded : State
founded = record {
  orgs = (codes "org/orca", orca) ∷ [];
  members = (codes "member/orca/lea", member_of (codes "lea") (codes "leader")) ∷ [];
  current_epoch = none;
}

-- A feegrant keeper that counts its grants, and a decoder that takes every address.
abbrev chain : Chain ℕ
chain = record {
  acc_address_from_bech32 = λ a. some a;
  org_account_address = λ org. org;
  grant_allowance = λ granter grantee messages n. (ok tt, suc n);
}

abbrev world : World ℕ
world = record { store = founded; grants = 0 }

abbrev calls : List Call
calls =
    Call.add (member_of (codes "max") (codes "member"))
    ∷ Call.transfer (codes "max") (codes "w2") (codes "w1")
    ∷ Call.remove (codes "lea")
    ∷ []

founded_leader : (p : Text) → is_leader (codes "orca") p founded ≡ text_eq p (codes "lea")
unfolding is_leader get_member member_key get text_eq
founded_leader p = ground arith

run-IsLed_example : IsLed (codes "orca") (run chain (codes "orca") calls world).store
unfolding get org_key
run-IsLed_example =
    run-IsLed chain (codes "orca") calls world tt
      (record { stored = orca; found = refl; leads = founded_leader })

max_leads :
    is_leader (codes "orca") (codes "max") (run chain (codes "orca") calls world).store ≡ true
unfolding is_leader get run remove_member transfer_leadership add_member org_key is_active
    member_key insert erase
max_leads = refl

leader_stays :
    (remove_member (codes "orca") (codes "lea") founded).0 ≡ err Error.cannot_remove_leader
unfolding remove_member get member_key
leader_stays = refl

closed_by_leader :
    (add_member
      (member_of (codes "max") (codes "member"))
      (close_org (codes "orca") (codes "w1") founded).1).0
    ≡ err Error.org_not_active
unfolding add_member text_eq get close_org org_key is_active put_org insert
closed_by_leader = refl

-- The epoch of the last activity falls back to 0, since nothing writes "epoch/current".
activity_falls_back :
    get
      (codes "org/orca")
      (increment_org_committed_memories
        (codes "orca")
        (set_org_last_activity_epoch (codes "orca") 7 founded).1).1.orgs
    ≡ some (record orca { total_committed_memories = 1; last_activity_epoch = 0 })
unfolding get increment_org_committed_memories set_org_last_activity_epoch org_key insert add64
activity_falls_back = refl
