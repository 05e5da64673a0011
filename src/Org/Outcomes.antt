-- ===== src/Org/Outcomes.antt =====
-- What the calls that change the members of an organisation leave, on each of their branches.
use wevibe_chain.Common.{
  ◌≡◌, ◌⊎◌, false, none, some, List, ◌-◌, add64, Text, codes, arith, text_eq, text_eq→eq, Error, ok,
  err, is_empty, ◌||◌, not, Bool-cases, Option-cases, Result-cases, inl, inr,
}
use wevibe_chain.Common.Dict.{get, erase}
use wevibe_chain.Org.Types.{State, StoredOrg, MemberRecord, is_active, org_key, member_key}
use wevibe_chain.Org.Keeper.{
  get_org, require_leader, put_member, put_org, add_member, remove_member, load_org,
}
use wevibe_chain.Org.Transfer.{
  World, Chain, leader_messages, hand_over, transfer_leadership, check_leader, grant_feegrant,
  grant_leader_feegrant, write,
}

-- What an addition leaves: the store as it was, or a new member, whose role is "member".
pub add_member-cases :
    (m : MemberRecord) (s : State)
    → ((add_member m s).1 ≡ s)
      ⊎ ((o : StoredOrg) × (get (org_key m.org_id) s.orgs ≡ some o)
          × (get (member_key m.org_id m.pubkey) s.members ≡ none)
          × (m.role ≡ codes "member")
          × ((add_member m s).1
              ≡ put_org m.org_id
                  (record o { total_active_members = add64 o.total_active_members 1 })
                  (put_member m.org_id m.pubkey m s)))
unfolding add_member load_org
add_member-cases m s = elim (Option-cases (get (org_key m.org_id) s.orgs)) [
  | inl absent ↦ inl (ground arith)
  | inr (o, e) ↦ elim (Option-cases (get (member_key m.org_id m.pubkey) s.members)) [
    | inr (x, there) ↦ inl (ground arith)
    | inl fresh ↦ elim (Bool-cases (text_eq m.role (codes "member"))) [
      | inr other ↦ inl (ground arith)
      | inl role ↦ elim (Bool-cases (is_active o.status)) [
        | inr off ↦ inl (ground arith)
        | inl on ↦ inr (o, e, fresh, text_eq→eq _ _ role, ground arith)
      ]
    ]
  ]
]

pub remove_member-cases :
    (org pubkey : Text) (s : State)
    → ((remove_member org pubkey s).1 ≡ s)
      ⊎ ((o : StoredOrg) × (m : MemberRecord) × (get (org_key org) s.orgs ≡ some o)
          × (get (member_key org pubkey) s.members ≡ some m)
          × (text_eq m.role (codes "leader") ≡ false)
          × ((remove_member org pubkey s).1
              ≡ put_org org
                  (record o { total_active_members = o.total_active_members - 1 })
                  (record s { members = erase (member_key org pubkey) s.members })))
unfolding remove_member load_org
remove_member-cases org pubkey s = elim (Option-cases (get (org_key org) s.orgs)) [
  | inl absent ↦ inl (ground arith)
  | inr (o, e) ↦ elim (Option-cases (get (member_key org pubkey) s.members)) [
    | inl absent ↦ inl (ground arith)
    | inr (m, there) ↦ elim (Bool-cases (text_eq m.role (codes "leader"))) [
      | inl leads ↦ inl (ground arith)
      | inr other ↦ elim (Bool-cases (is_active o.status)) [
        | inr off ↦ inl (ground arith)
        | inl on ↦ inr (o, m, e, there, other, ground arith)
      ]
    ]
  ]
]

module _ {F : Type 0} (chain : Chain F) where
  grant_feegrant-store :
      (messages : List Text) (granter address : Text) (w : World F)
      → (grant_feegrant chain messages granter address w).1.store ≡ w.store
  unfolding grant_feegrant
  grant_feegrant-store messages granter address w = ground arith

  check_leader-world :
      (org signer : Text) (w : World F)
      → (check_leader chain org signer w ≡ (ok tt, w))
        ⊎ ((e : Error) × (check_leader chain org signer w ≡ (err e, w)))
  unfolding check_leader require_leader
  check_leader-world org signer w = elim (Result-cases (get_org org w.store)) [
    | inr (x, e) ↦ inr (x, ground arith)
    | inl (o, e) ↦
        elim (Bool-cases
          (is_empty o.leader_wallet_address || not (text_eq signer o.leader_wallet_address))) [
            | inl refused ↦ inr (Error.not_leader, ground arith)
            | inr passed ↦ inl (ground arith)
          ]
  ]

  -- A transfer fails and changes nothing, or it has handed the leadership over.
  pub transfer_leadership-cases :
      (org nl nw signer : Text) (w : World F)
      → ((e : Error) × (transfer_leadership chain org nl nw signer w ≡ (err e, w)))
        ⊎ ((o : StoredOrg) × (get (org_key org) w.store.orgs ≡ some o)
            × ((transfer_leadership chain org nl nw signer w).1.store
                ≡ hand_over org o nl nw w.store))
  unfolding transfer_leadership write grant_leader_feegrant
  transfer_leadership-cases org nl nw signer w = elim (Bool-cases (is_empty nw)) [
    | inl empty ↦ inl (Error.wallet_empty, ground arith)
    | inr named ↦ elim (Option-cases (chain.acc_address_from_bech32 nw)) [
      | inl invalid ↦ inl (Error.wallet_invalid, ground arith)
      | inr (a, e) ↦ elim (check_leader-world org signer w) [
        | inr (x, r) ↦ inl (x, ground arith)
        | inl passed ↦ elim (Option-cases (get (org_key org) w.store.orgs)) [
          | inl absent ↦ inl (Error.org_not_found, ground arith)
          | inr (o, there) ↦ elim (Option-cases (get (member_key org nl) w.store.members)) [
            | inl stranger ↦ inl (Error.leader_not_member, ground arith)
            | inr (m, joined) ↦
                let done : World F = record w { store = hand_over org o nl nw w.store } in
                let kept =
                  grant_feegrant-store leader_messages (chain.org_account_address org) nw done in
                inr (o, there, ground (arith, kept))
          ]
        ]
      ]
    ]
  ]
