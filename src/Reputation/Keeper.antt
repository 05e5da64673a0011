-- ===== src/Reputation/Keeper.antt =====
-- x/reputation/keeper/keeper.go: activation, the statistics of developers, and the record of serves.
use wevibe_chain.Common.{
  ℕ, ◌==◌, not, Bool, true, false, none, some, List, [], ◌∷◌, ◌++◌, Text, text_eq, add64,
  if◌then◌else◌, Error, Action, pure, modify, lift, or_raise, raise_if, ◌>>=◌, ◌>>◌,
}
use wevibe_chain.Common.Dict.{get, insert}
use wevibe_chain.Memory.Keeper.{is_some}
use wevibe_chain.Reputation.Types.{
  State, Params, default_params, ReputationStats, new_reputation_stats, stored_stats, add_memory,
  AttestedMemory, validate_memory, StoredContributorOrgSet, stats_key, memory_key,
  contributor_org_set_key,
}

unfoldable pub set_params : Params → Action State (Unit {0})
set_params p = modify (λ s. record s { params = some p })

unfoldable pub get_params : State → Params
get_params s = elim s.params [ none ↦ default_params | some p ↦ p ]

unfoldable pub activate : Action State (Unit {0})
activate = modify (λ s. record s { active = some 1 })

unfoldable pub deactivate : Action State (Unit {0})
deactivate = modify (λ s. record s { active = some 0 })

unfoldable pub is_active : State → Bool
is_active s = elim s.active [ none ↦ false | some b ↦ b == 1 ]

-- The statistics read, new where there are none.
unfoldable pub stats_of : Text → State → ReputationStats
stats_of developer s = elim (get (stats_key developer) s.stats) [
  | none ↦ new_reputation_stats developer
  | some r ↦ r
]

-- The store keeps what the written statistics decode to.
unfoldable pub put_stats : Text → ReputationStats → State → State
put_stats developer r s = record s { stats = insert (stats_key developer) (stored_stats r) s.stats }

-- UpdateReputation
unfoldable pub update_reputation : Text → AttestedMemory → Action State (Unit {0})
update_reputation developer m s =
    (do
      raise_if (not (is_active s)) Error.reputation_not_active
      lift (validate_memory m)
      r ← lift (add_memory m.difficulty m.quality m.domain_tags m.provenance (stats_of developer s))
      modify (put_stats developer r)
      modify (λ t. record t { memories = insert (memory_key developer m.memory_cid) m t.memories }))
      s

unfoldable pub get_reputation : Text → Action State ReputationStats
get_reputation developer s = or_raise (get (stats_key developer) s.stats) Error.no_stats s

unfoldable pub get_xp : Text → Action State ℕ
get_xp developer = do r ← get_reputation developer; pure r.xp

unfoldable pub has_developer : Text → State → Bool
has_developer developer s = is_some (get (stats_key developer) s.stats)

-- GetContributorOrgSet
unfoldable pub get_contributor_org_set : Text → State → StoredContributorOrgSet
get_contributor_org_set developer s = elim (get (contributor_org_set_key developer) s.org_sets) [
  | none ↦ record { contributor_id = developer; org_ids = [] }
  | some o ↦ o
]

unfoldable pub contains : Text → List Text → Bool
contains org [] = false
contains org (o ∷ rest) = let after = contains org rest in if text_eq o org then true else after

-- The counts of a serve, before the organisation is looked up.
unfoldable pub count_serve : Params → ℕ → Bool → ReputationStats → ReputationStats
count_serve p epoch self r = record r {
  serve_count = add64 r.serve_count 1;
  self_serve_count = if self then add64 r.self_serve_count 1 else r.self_serve_count;
  serve_xp = add64 r.serve_xp (if self then p.self_serve_xp_per_serve else p.serve_xp_per_serve);
  first_seen_epoch = if r.first_seen_epoch == 0 then epoch else r.first_seen_epoch;
}

unfoldable pub put_org_set : Text → StoredContributorOrgSet → State → State
put_org_set developer o s = record s {
  org_sets = insert (contributor_org_set_key developer) o s.org_sets;
}

-- The two writes of RecordServe, for an organisation that the set has or not.
unfoldable pub store_serve :
    Text → Text → Bool → StoredContributorOrgSet → ReputationStats → State → State
unfolding put_org_set put_stats
store_serve developer org found o r s =
    let known = put_stats developer r (put_org_set developer o s) in
    let new =
      put_stats developer (record r { org_breadth = add64 r.org_breadth 1 })
        (put_org_set developer (record o { org_ids = o.org_ids ++ (org ∷ []) }) s) in
    if found then known else new

-- RecordServe
unfoldable pub record_serve : Text → Text → ℕ → Bool → Action State (Unit {0})
unfolding count_serve store_serve get_contributor_org_set stats_of
record_serve developer org epoch self s =
    (do
      raise_if (not (is_active s)) Error.reputation_not_active
      let o = get_contributor_org_set developer s
      modify (
          store_serve developer org (contains org o.org_ids) o
            (count_serve (get_params s) epoch self (stats_of developer s))))
      s
