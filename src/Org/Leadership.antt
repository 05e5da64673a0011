-- ===== src/Org/Leadership.antt =====
-- Who leads an organisation.
use wevibe_chain.Common.{
  ◌≡◌, refl, sym, ap, ◌∙◌, true, false, none, some, [], ◌∷◌, Text, codes, arith, text_eq,
  text_eq→eq, eq_false_ne, if◌then◌else◌, Bool-cases, inl, inr, append_cancel_left,
}
use wevibe_chain.Common.Dict.{get, erase, IsSorted}
use wevibe_chain.Common.Dict.Laws.{get-insert_self, get-insert_ne, get-erase_ne, get-erase_self}
use wevibe_chain.Org.Types.{State, StoredOrg, MemberRecord, org_key, member_key}
use wevibe_chain.Org.Keeper.{is_leader, get_member, put_member, put_org, add_member, remove_member}
use wevibe_chain.Org.Transfer.{World, Chain, with_role, hand_over, transfer_leadership}
use wevibe_chain.Org.Outcomes.{add_member-cases, remove_member-cases, transfer_leadership-cases}

-- The organisation exists, and the one member of it with the role of a leader is the one that it
-- names.
pub record IsLed (org : Text) (s : State) : Type 0 where
  pub stored : StoredOrg
  pub found : get (org_key org) s.orgs ≡ some stored
  pub leads : (p : Text) → is_leader org p s ≡ text_eq p stored.leader

member_key-injective : (org p q : Text) → member_key org p ≡ member_key org q → p ≡ q
unfolding member_key
member_key-injective org p q h =
    append_cancel_left (47 ∷ []) (append_cancel_left org (append_cancel_left (codes "member/") h))

is_leader-put_member :
    (org p q : Text) (m : MemberRecord) (s : State)
    → is_leader org p (put_member org q m s)
      ≡ (if text_eq p q then text_eq m.role (codes "leader") else is_leader org p s)
unfolding is_leader get_member put_member
is_leader-put_member org p q m s = elim (Bool-cases (text_eq p q)) [
  | inl same ↦ ground (arith, text_eq→eq p q same, get-insert_self (member_key org q) m s.members)
  | inr other ↦ ground (
    arith,
    get-insert_ne (member_key org p) (member_key org q) m s.members
        (λ h. eq_false_ne p q other (member_key-injective org p q h)),
  )
]

is_leader-put_org :
    (org p key : Text) (o : StoredOrg) (s : State)
    → is_leader org p (put_org key o s) ≡ is_leader org p s
unfolding is_leader get_member put_org
is_leader-put_org org p key o s = refl

member_not_leader : text_eq (codes "member") (codes "leader") ≡ false
unfolding text_eq
member_not_leader = refl

leader_is_leader : text_eq (codes "leader") (codes "leader") ≡ true
unfolding text_eq
leader_is_leader = refl

-- After a transfer the new leader leads, and nobody else.
is_leader-hand_over :
    (org : Text) (o : StoredOrg) (nl nw p : Text) (s : State)
    → ((q : Text) → is_leader org q s ≡ text_eq q o.leader)
    → is_leader org p (hand_over org o nl nw s) ≡ text_eq p nl
unfolding hand_over with_role
is_leader-hand_over org o nl nw p s leads =
    rw (is_leader-put_org, is_leader-put_member, is_leader-put_member, leads p)
      (ground (arith, member_not_leader, leader_is_leader))

module _ (org : Text) where
  -- The names of an organisation change, and not who leads it.
  put_org-IsLed :
      (o : StoredOrg) (s t : State) (l : IsLed org s)
      → o.leader ≡ l.stored.leader
      → ((p : Text) → is_leader org p t ≡ is_leader org p s)
      → IsLed org (put_org org o t)
  unfolding put_org
  put_org-IsLed o s t l same keeps = record {
    stored = o;
    found = get-insert_self (org_key org) o t.orgs;
    leads = λ p. is_leader-put_org org p org o t ∙ keeps p ∙ l.leads p ∙ ap (text_eq p) (sym same);
  }

  is_leader-absent :
      (p : Text) (s : State) → get (member_key org p) s.members ≡ none → is_leader org p s ≡ false
  unfolding is_leader get_member
  is_leader-absent p s h = ground arith

  same_org :
      (o : StoredOrg) (s : State) (l : IsLed org s)
      → get (org_key org) s.orgs ≡ some o
      → o ≡ l.stored
  same_org o s l e = grind (arith, l.found)

  is_leader-erase :
      (p q : Text) (m : MemberRecord) (s : State)
      → IsSorted s.members
      → get (member_key org q) s.members ≡ some m
      → text_eq m.role (codes "leader") ≡ false
      → is_leader org p (record s { members = erase (member_key org q) s.members })
        ≡ is_leader org p s
  unfolding is_leader get_member
  is_leader-erase p q m s sorted there role = elim (Bool-cases (text_eq p q)) [
    | inl same ↦
        ground (arith, text_eq→eq p q same, get-erase_self (member_key org q) s.members sorted)
    | inr other ↦ ground (
      arith,
      get-erase_ne (member_key org p) (member_key org q) s.members
          (λ h. eq_false_ne p q other (member_key-injective org p q h)),
    )
  ]

  pub remove_member-IsLed :
      (pubkey : Text) (s : State)
      → IsSorted s.members
      → IsLed org s
      → IsLed org (remove_member org pubkey s).1
  remove_member-IsLed pubkey s sorted l = elim (remove_member-cases org pubkey s) [
    | inl same ↦ rw (same) l
    | inr (o, m, found, there, role, after) ↦ rw (after) (
        put_org-IsLed _ s _ l (ap (λ (x : StoredOrg). x.leader) (same_org o s l found))
          (λ p. is_leader-erase p pubkey m s sorted there role))
  ]

  hand_over-IsLed :
      (o : StoredOrg) (nl nw : Text) (s : State)
      → ((q : Text) → is_leader org q s ≡ text_eq q o.leader)
      → IsLed org (hand_over org o nl nw s)
  unfolding hand_over put_org
  hand_over-IsLed o nl nw s leads = record {
    stored = record o { leader = nl; leader_wallet_address = nw };
    found = get-insert_self (org_key org) _ _;
    leads = λ p. is_leader-hand_over org o nl nw p s leads;
  }

  module _ {F : Type 0} (chain : Chain F) where
    pub transfer_leadership-IsLed :
        (nl nw signer : Text) (w : World F)
        → IsLed org w.store
        → IsLed org (transfer_leadership chain org nl nw signer w).1.store
    transfer_leadership-IsLed nl nw signer w l =
        elim (transfer_leadership-cases chain org nl nw signer w) [
          | inl (e, same) ↦ rw (same) l
          | inr (o, found, after) ↦
              let named = ap (λ (x : StoredOrg). x.leader) (same_org o w.store l found) in
              rw (after)
                (hand_over-IsLed o nl nw w.store (λ q. l.leads q ∙ ap (text_eq q) (sym named)))
        ]

added_same :
    (m : MemberRecord) (p : Text) (s : State)
    → get (member_key m.org_id m.pubkey) s.members ≡ none
    → m.role ≡ codes "member"
    → is_leader m.org_id p (put_member m.org_id m.pubkey m s) ≡ is_leader m.org_id p s
added_same m p s fresh role = elim (Bool-cases (text_eq p m.pubkey)) [
  | inl eq ↦
      let put = is_leader-put_member m.org_id p m.pubkey m s in
      let absent = is_leader-absent m.org_id m.pubkey s fresh in
      let same = text_eq→eq p m.pubkey eq in
      let kind : text_eq m.role (codes "leader") ≡ false = rw (role) member_not_leader in
      ground (arith, put, absent, same, kind)
  | inr ne ↦ is_leader-put_member m.org_id p m.pubkey m s ∙ rw (ne) refl
]

pub add_member-IsLed :
    (m : MemberRecord) (s : State) → IsLed m.org_id s → IsLed m.org_id (add_member m s).1
add_member-IsLed m s l = elim (add_member-cases m s) [
  | inl same ↦ rw (same) l
  | inr (o, found, fresh, role, after) ↦ rw (after) (
      put_org-IsLed m.org_id _ s (put_member m.org_id m.pubkey m s) l
        (ap (λ (x : StoredOrg). x.leader) (same_org m.org_id o s l found))
        (λ p. added_same m p s fresh role))
]
