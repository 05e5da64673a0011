-- ===== src/Org/Succession.antt =====
-- Who leads an organisation after any sequence of changes of its members.
use wevibe_chain.Common.{sym, Result, List, [], ◌∷◌, Text, inl, inr}
use mathlib.Core.Path.{subst}
use wevibe_chain.Common.Dict.{IsSorted}
use wevibe_chain.Common.Dict.Laws.{insert-IsSorted, erase-IsSorted}
use wevibe_chain.Org.Types.{MemberRecord}
use wevibe_chain.Org.Keeper.{add_member, remove_member, put_member, put_org}
use wevibe_chain.Org.Transfer.{World, Chain, transfer_leadership, hand_over, with_role}
use wevibe_chain.Org.Leadership.{
  IsLed, add_member-IsLed, remove_member-IsLed, transfer_leadership-IsLed,
}
use wevibe_chain.Org.Outcomes.{add_member-cases, remove_member-cases, transfer_leadership-cases}

-- The calls that change the members of an organisation or their roles.
pub data Call : Type 0 where
  add : MemberRecord → Call
  remove : Text → Call
  transfer : Text → Text → Text → Call

module _ {F : Type 0} (chain : Chain F) (org : Text) where
  -- What a call leaves, failed or not. A member is added to the organisation.
  unfoldable pub call : Call → World F → World F
  call (Call.add m) w = record w { store = (add_member (record m { org_id = org }) w.store).1 }
  call (Call.remove p) w = record w { store = (remove_member org p w.store).1 }
  call (Call.transfer nl nw signer) w = (transfer_leadership chain org nl nw signer w).1

  unfoldable pub run : List Call → World F → World F
  unfolding call
  run [] w = w
  run (c ∷ rest) w = run rest (call c w)

  call-IsLed :
      (c : Call) (w : World F)
      → IsSorted w.store.members
      → IsLed org w.store
      → IsLed org (call c w).store
  unfolding call
  call-IsLed (Call.add m) w sorted l = add_member-IsLed (record m { org_id = org }) w.store l
  call-IsLed (Call.remove p) w sorted l = remove_member-IsLed org p w.store sorted l
  call-IsLed (Call.transfer nl nw signer) w sorted l =
      transfer_leadership-IsLed org chain nl nw signer w l

  call-IsSorted :
      (c : Call) (w : World F) → IsSorted w.store.members → IsSorted (call c w).store.members
  unfolding call put_org put_member hand_over with_role
  call-IsSorted (Call.add m) w sorted =
      elim (add_member-cases (record m { org_id = org }) w.store) [
        | inl same ↦ rw (same) sorted
        | inr (o, f, g, r, after) ↦ rw (after) (insert-IsSorted _ _ _ sorted)
      ]
  call-IsSorted (Call.remove p) w sorted = elim (remove_member-cases org p w.store) [
    | inl same ↦ rw (same) sorted
    | inr (o, m, f, g, r, after) ↦ rw (after) (erase-IsSorted _ _ sorted)
  ]
  call-IsSorted (Call.transfer nl nw signer) w sorted =
      elim (transfer_leadership-cases chain org nl nw signer w) [
        | inl (e, same) ↦
            subst (λ (r : Result (Unit {0}) × World F). IsSorted r.1.store.members) (sym same)
              sorted
        | inr (o, f, after) ↦ rw (after) (insert-IsSorted _ _ _ (insert-IsSorted _ _ _ sorted))
      ]

  -- Any sequence of additions, removals and transfers of leadership in an organisation, successful
  -- or not, keeps the leader that the organisation names the one member of it with the role of a
  -- leader, on a store in key order.
  pub run-IsLed :
      (calls : List Call) (w : World F)
      → IsSorted w.store.members
      → IsLed org w.store
      → IsLed org (run calls w).store
  unfolding run
  run-IsLed [] w sorted l = l
  run-IsLed (c ∷ rest) w sorted l =
      run-IsLed rest (call c w) (call-IsSorted c w sorted) (call-IsLed c w sorted l)
