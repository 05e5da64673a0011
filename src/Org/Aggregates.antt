-- ===== src/Org/Aggregates.antt =====
-- x/org/keeper/aggregates.go: the counts that an organisation keeps of its activity.
use wevibe_chain.Common.{
  ℕ, none, some, List, [], ◌∷◌, ◌++◌, Text, codes, text_eq, add64, if◌then◌else◌, Action, modify,
  ◌>>=◌,
}
use wevibe_chain.Common.Range.{range, prefix_end_bytes}
use wevibe_chain.Common.Dict.{values}
use wevibe_chain.Org.Types.{State, StoredOrg, MemberRecord}
use wevibe_chain.Org.Keeper.{load_org, put_org}

unfoldable pub get_current_epoch : State → ℕ
get_current_epoch s = elim s.current_epoch [ none ↦ 0 | some e ↦ e ]

unfoldable pub modify_org_aggregate : Text → (StoredOrg → ℕ → StoredOrg) → Action State (Unit {0})
unfolding load_org put_org get_current_epoch
modify_org_aggregate org f s =
    (do o ← load_org org; modify (put_org org (f o (get_current_epoch s)))) s

unfoldable pub increment_org_committed_memories : Text → Action State (Unit {0})
unfolding modify_org_aggregate
increment_org_committed_memories org = modify_org_aggregate org (λ o epoch. record o {
  total_committed_memories = add64 o.total_committed_memories 1;
  last_activity_epoch = epoch;
})

unfoldable pub increment_org_upheld_reports : Text → Action State (Unit {0})
unfolding modify_org_aggregate
increment_org_upheld_reports org = modify_org_aggregate org (λ o epoch. record o {
  total_upheld_reports = add64 o.total_upheld_reports 1;
  last_activity_epoch = epoch;
})

unfoldable pub set_org_last_activity_epoch : Text → ℕ → Action State (Unit {0})
unfolding modify_org_aggregate
set_org_last_activity_epoch org epoch =
    modify_org_aggregate org (λ o now. record o { last_activity_epoch = epoch })

unfoldable pub count_active : List MemberRecord → ℕ
count_active [] = 0
count_active (m ∷ rest) =
    let after = count_active rest in
    if text_eq m.role (codes "inactive") then after else add64 after 1

unfoldable pub recompute_org_active_members : Text → Action State (Unit {0})
unfolding modify_org_aggregate count_active
recompute_org_active_members org s =
    let prefix = codes "member/" ++ (org ++ (47 ∷ [])) in
    modify_org_aggregate org
      (λ o epoch. record o {
        total_active_members =
            count_active (values (range prefix (prefix_end_bytes prefix) s.members));
        last_activity_epoch = epoch;
      })
      s
