-- ===== src/Org/Transfer.antt =====
-- The calls of x/org/keeper/keeper.go that grant fee allowances, with serving_feegrant.go. The
-- feegrant keeper, over its own state `F`, the address of an organisation's account and the bech32
-- decoder are parameters.
use wevibe_chain.Common.{
  false, Option, none, some, List, [], ◌∷◌, Text, codes, is_empty, if◌then◌else◌, Result, ok, err,
  Error, Action, raise_if, lift, or_raise, modify, ◌>>=◌, ◌>>◌,
}
use wevibe_chain.Common.Dict.{get}
use wevibe_chain.Org.Types.{State, StoredOrg, MemberRecord, org_key, member_key}
use wevibe_chain.Org.Keeper.{get_org, get_member, require_leader, put_org, put_member}

pub record Chain (F : Type 0) : Type 0 where
  pub acc_address_from_bech32 : Text → Option Text
  pub org_account_address : Text → Text
  pub grant_allowance : Text → Text → List Text → F → Result (Unit {0}) × F

-- The store of x/org and the state of the feegrant keeper.
pub record World (F : Type 0) : Type 0 where
  pub store : State
  pub grants : F

abbrev pub serving_messages : List Text
serving_messages =
    codes "/wevibe.serve.v1.MsgSubmitServeBatch"
    ∷ codes "/wevibe.serve.v1.MsgSubmitDenialBatch"
    ∷ codes "/wevibe.serve.v1.MsgSubmitEventBatch"
    ∷ []

abbrev pub leader_messages : List Text
leader_messages =
    codes "/wevibe.org.v1.MsgAddMember"
    ∷ codes "/wevibe.org.v1.MsgRemoveMember"
    ∷ codes "/wevibe.org.v1.MsgSetMemberCapabilities"
    ∷ codes "/wevibe.org.v1.MsgSetOrgConfig"
    ∷ codes "/wevibe.org.v1.MsgSetServingKey"
    ∷ codes "/wevibe.org.v1.MsgSetServingInfo"
    ∷ codes "/wevibe.org.v1.MsgTransferLeadership"
    ∷ codes "/wevibe.org.v1.MsgCloseOrg"
    ∷ codes "/wevibe.org.v1.MsgGrantTrialAllowance"
    ∷ codes "/wevibe.memory.v1.MsgSubmitCommitment"
    ∷ codes "/wevibe.memory.v1.MsgApproveMemory"
    ∷ codes "/wevibe.memory.v1.MsgReportMemory"
    ∷ []

-- The member that nothing decodes to.
abbrev pub no_member : MemberRecord
no_member = record {
  org_id = [];
  pubkey = [];
  role = [];
  x25519_pubkey = [];
  can_contribute = false;
  can_moderate = false;
}

unfoldable pub stored_member : Text → Text → State → MemberRecord
stored_member org pubkey s = elim (get (member_key org pubkey) s.members) [
  | none ↦ no_member
  | some m ↦ m
]

unfoldable pub with_role : Text → Text → Text → State → State
unfolding put_member stored_member
with_role role org pubkey s =
    put_member org pubkey (record (stored_member org pubkey s) { role = role }) s

-- The writes of TransferLeadership: the old leader, then the new one, then the organisation.
unfoldable pub hand_over : Text → StoredOrg → Text → Text → State → State
unfolding with_role put_org
hand_over org o new_leader new_leader_wallet s =
    put_org org (record o { leader = new_leader; leader_wallet_address = new_leader_wallet })
      (with_role (codes "leader") org new_leader (with_role (codes "member") org o.leader s))

module _ {F : Type 0} where
  unfoldable pub write : (State → State) → Action (World F) (Unit {0})
  write f = modify (λ w. record w { store = f w.store })

  module _ (chain : Chain F) where
    -- grantServingFeegrant and grantLeaderFeegrant differ in the messages.
    unfoldable pub grant_feegrant : List Text → Text → Text → Action (World F) (Unit {0})
    grant_feegrant messages granter address w =
        let grant : Text → Result (Unit {0}) × World F = λ grantee.
          let (r, g) = chain.grant_allowance granter grantee messages w.grants in
          (r, record w { grants = g }) in
        if is_empty address then (ok tt, w) else elim (chain.acc_address_from_bech32 address) [
          | none ↦ (err Error.invalid_wallet_address, w)
          | some grantee ↦ grant grantee
        ]

    unfoldable pub grant_serving_feegrant : Text → Text → Action (World F) (Unit {0})
    unfolding grant_feegrant
    grant_serving_feegrant = grant_feegrant serving_messages

    unfoldable pub grant_leader_feegrant : Text → Text → Action (World F) (Unit {0})
    unfolding grant_feegrant
    grant_leader_feegrant = grant_feegrant leader_messages

    -- The guard of the calls of a leader.
    unfoldable pub check_leader : Text → Text → Action (World F) (Unit {0})
    unfolding get_org require_leader
    check_leader org signer w = (do o ← lift (get_org org w.store); require_leader o signer) w

    -- SetServingKey
    unfoldable pub set_serving_key : Text → Text → Text → Action (World F) (Unit {0})
    unfolding check_leader write put_org grant_serving_feegrant
    set_serving_key org key signer w =
        (do
          check_leader org signer
          o ← or_raise (get (org_key org) w.store.orgs) Error.org_not_found
          write (put_org org (record o { hub_serving_address = key }))
          grant_serving_feegrant (chain.org_account_address org) key)
          w

    -- TransferLeadership
    unfoldable pub transfer_leadership : Text → Text → Text → Text → Action (World F) (Unit {0})
    unfolding check_leader write hand_over grant_leader_feegrant get_member
    transfer_leadership org new_leader new_leader_wallet signer w =
        (do
          raise_if (is_empty new_leader_wallet) Error.wallet_empty
          a ← or_raise (chain.acc_address_from_bech32 new_leader_wallet) Error.wallet_invalid
          check_leader org signer
          o ← or_raise (get (org_key org) w.store.orgs) Error.org_not_found
          m ← or_raise (get (member_key org new_leader) w.store.members) Error.leader_not_member
          write (hand_over org o new_leader new_leader_wallet)
          grant_leader_feegrant (chain.org_account_address org) new_leader_wallet)
          w
