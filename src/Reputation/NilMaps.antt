-- ===== src/Reputation/NilMaps.antt =====
-- A developer whose first record is a serve: its maps come back from the store as nil.
use wevibe_chain.Common.{
  ℕ, ◌≡◌, refl, ap, ◌∙◌, Bool, true, false, none, some, List, [], ◌∷◌, Text, arith, is_empty, ok,
  err, Error,
}
use wevibe_chain.Common.Dict.{get}
use wevibe_chain.Common.Dict.Laws.{get-insert_self}
use wevibe_chain.Reputation.Types.{
  State, ReputationStats, AttestedMemory, stats_key, stored_stats, decoded_map,
  new_reputation_stats, add_memory, count_tags, count_tag, validate_memory,
}
use wevibe_chain.Reputation.Keeper.{
  update_reputation, record_serve, store_serve, count_serve, contains, get_contributor_org_set,
  stats_of, put_stats, put_org_set, get_params, is_active,
}

stats_of-put_stats :
    (d : Text) (r : ReputationStats) (t : State) → stats_of d (put_stats d r t) ≡ stored_stats r
unfolding stats_of put_stats
stats_of-put_stats d r t = ground (arith, get-insert_self (stats_key d) (stored_stats r) t.stats)

stored_empty : (r : ReputationStats) → r.domain_tags ≡ some [] → (stored_stats r).domain_tags ≡ none
unfolding stored_stats decoded_map
stored_empty r h = rw (h, decoded_map) refl

-- Written with an empty map of domain tags, the statistics have none when they are read.
written_nil :
    (d : Text) (r : ReputationStats) (t : State)
    → r.domain_tags ≡ some []
    → (stats_of d (put_stats d r t)).domain_tags ≡ none
written_nil d r t h =
    ap (λ (x : ReputationStats). x.domain_tags) (stats_of-put_stats d r t) ∙ stored_empty r h

fresh_stats :
    (d : Text) (s : State) → get (stats_key d) s.stats ≡ none → (stats_of d s).domain_tags ≡ some []
unfolding new_reputation_stats stats_of
fresh_stats d s h = rw (stats_of, h) refl

module _ (d org : Text) (epoch : ℕ) (self : Bool) (s : State) where
  -- The first serve leaves statistics without a map of domain tags, and the module active.
  store_serve_nil :
      (found : Bool)
      → get (stats_key d) s.stats ≡ none
      → (stats_of d (
          store_serve d org found
            (get_contributor_org_set d s)
            (count_serve (get_params s) epoch self (stats_of d s))
            s)).domain_tags
        ≡ none
  unfolding store_serve count_serve
  store_serve_nil true fresh = written_nil d _ _ (fresh_stats d s fresh)
  store_serve_nil false fresh = written_nil d _ _ (fresh_stats d s fresh)

  record_serve_active :
      is_active s ≡ true
      → (record_serve d org epoch self s).1
        ≡ store_serve d org
            (contains org (get_contributor_org_set d s).org_ids)
            (get_contributor_org_set d s)
            (count_serve (get_params s) epoch self (stats_of d s))
            s
  unfolding record_serve
  record_serve_active h = ground arith

  store_serve-is_active :
      (found : Bool) (r : ReputationStats)
      → is_active (store_serve d org found (get_contributor_org_set d s) r s) ≡ is_active s
  unfolding store_serve put_org_set put_stats is_active
  store_serve-is_active true r = refl
  store_serve-is_active false r = refl

  first_serve :
      is_active s ≡ true
      → get (stats_key d) s.stats ≡ none
      → ((stats_of d (record_serve d org epoch self s).1).domain_tags ≡ none)
        × (is_active (record_serve d org epoch self s).1 ≡ true)
  first_serve on fresh = (
    rw (record_serve_active on) (store_serve_nil _ fresh),
    rw (record_serve_active on) (store_serve-is_active _ _ ∙ on),
  )

add_memory_nil :
    (difficulty quality : ℕ) (tag : Text) (rest : List Text) (from : Text) (r : ReputationStats)
    → r.domain_tags ≡ none
    → is_empty tag ≡ false
    → add_memory difficulty quality (tag ∷ rest) from r ≡ err Error.nil_map_panic
unfolding add_memory count_tags count_tag
add_memory_nil difficulty quality tag rest from r h named = ground arith

-- Where the first thing recorded of a developer is a serve, a valid memory of the developer whose
-- first domain tag is not empty cannot be counted afterwards: the write to its map of tags panics.
pub served_cannot_update :
    (d org : Text) (epoch : ℕ) (self : Bool) (m : AttestedMemory) (tag : Text) (rest : List Text)
    (s : State)
    → is_active s ≡ true
    → get (stats_key d) s.stats ≡ none
    → validate_memory m ≡ ok tt
    → m.domain_tags ≡ tag ∷ rest
    → is_empty tag ≡ false
    → (update_reputation d m (record_serve d org epoch self s).1).0 ≡ err Error.nil_map_panic
unfolding update_reputation
served_cannot_update d org epoch self m tag rest s on fresh valid tags named =
    let (nil, active) = first_serve d org epoch self s on fresh in
    let panics =
      add_memory_nil m.difficulty m.quality tag rest m.provenance
        (stats_of d (record_serve d org epoch self s).1) nil named in
    rw (active, valid, tags, panics) refl
