-- ===== src/Reputation/Tests.antt =====
-- Examples for x/reputation.
use mathlib.Core.List.{Mem}
use wevibe_chain.Common.{
  ◌⊎◌, ◌≡◌, refl, true, false, some, [], ◌∷◌, Text, codes, arith, ok, err, Error, add64, mul64,
}
use wevibe_chain.Common.Dict.{get, insert}
use wevibe_chain.Reputation.Types.{
  State, empty_state, AttestedMemory, stats_key, stored_stats, new_reputation_stats,
  validate_memory, add_memory, contributor_org_set_key,
}
use wevibe_chain.Reputation.Keeper.{
  update_reputation, record_serve, get_xp, stats_of, get_contributor_org_set, is_active,
  get_reputation, put_stats, contains,
}
use wevibe_chain.Reputation.MsgServer.{MsgUpdateReputation, submit_update}
use wevibe_chain.Reputation.Breadth.{IsBroad, record_serve-IsBroad}
use wevibe_chain.Reputation.Award.{IsTallied, update_reputation-IsTallied}
use wevibe_chain.Reputation.NilMaps.{served_cannot_update}
use wevibe_chain.Reputation.Authority.{submit_update-signer}

abbrev ann : Text
ann = codes "ann"

abbrev org : Text
org = codes "o1"

abbrev active_state : State
active_state = record empty_state { active = some 1 }

abbrev graded : AttestedMemory
graded = record {
  developer = ann;
  memory_cid = codes "cid";
  difficulty = 3;
  quality = 7;
  domain_tags = codes "go" ∷ [];
  provenance = codes "review";
}

abbrev update : MsgUpdateReputation
update = record {
  signer = codes "bob";
  developer = ann;
  memory_cid = codes "cid";
  difficulty = 3;
  quality = 7;
  domain_tags = codes "go" ∷ [];
  provenance = codes "review";
}

update_awards : (submit_update update active_state).0 ≡ ok 21
unfolding submit_update update_reputation is_active validate_memory add_memory stats_of get
    new_reputation_stats get_xp get_reputation put_stats insert stats_key stored_stats add64 mul64
update_awards = refl

serve_then_update :
    (submit_update update (record_serve ann org 4 false active_state).1).0 ≡ err Error.nil_map_panic
unfolding submit_update update_reputation is_active record_serve contains get validate_memory
    add_memory insert stats_key stored_stats new_reputation_stats
serve_then_update = refl

two_orgs_served :
    (stats_of ann
      (record_serve ann
        (codes "o2")
        5
        true
        (record_serve ann org 4 false active_state).1).1).org_breadth
    ≡ 2
unfolding stats_of get record_serve is_active contains insert contributor_org_set_key stats_key
    stored_stats add64 new_reputation_stats
two_orgs_served = refl

record_serve-IsBroad_example :
    IsBroad ann (record_serve ann org 4 false active_state).1
    × ((is_active active_state ≡ false)
        ⊎ Mem org
            (get_contributor_org_set ann (record_serve ann org 4 false active_state).1).org_ids)
unfolding get_contributor_org_set get stats_of new_reputation_stats
record_serve-IsBroad_example =
    record_serve-IsBroad ann org 4 false active_state ann (omega arith)
      (record { breadth = refl; distinct = tt })

update_reputation-IsTallied_example :
    IsTallied (stats_of ann (update_reputation ann graded active_state).1)
unfolding stats_of get new_reputation_stats
update_reputation-IsTallied_example =
    update_reputation-IsTallied ann ann graded active_state (omega arith)
      (record { buckets = refl; tallied = refl; bounded = omega arith })

served_cannot_update_example :
    (update_reputation ann graded (record_serve ann org 4 false active_state).1).0
    ≡ err Error.nil_map_panic
unfolding is_active get validate_memory
served_cannot_update_example =
    served_cannot_update ann org 4 false graded (codes "go") [] active_state refl refl refl refl
      refl

submit_update-signer_example :
    submit_update (record update { signer = codes "eve" }) active_state
    ≡ submit_update update active_state
submit_update-signer_example = submit_update-signer update (codes "eve") active_state refl refl
