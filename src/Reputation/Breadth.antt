-- ===== src/Reputation/Breadth.antt =====
-- The breadth of a developer: in how many organisations its memories were served.
use mathlib.Core.List.{Mem}
use wevibe_chain.Common.{
  ◌⊎◌, ℕ, ◌<◌, ◌≡◌, ◌≢◌, refl, sym, ap, ◌∙◌, Bool, true, false, [], ◌∷◌, ◌++◌, Text, arith, codes,
  length, length-append, text_eq, text_eq→eq, eq_false_ne, add64, add64-eq-add, uint64_max,
  Bool-cases, inl, inr, append_cancel_left,
}
use wevibe_chain.Common.Dict.Laws.{get-insert_self, get-insert_ne}
use wevibe_chain.Reputation.Types.{
  State, ReputationStats, StoredContributorOrgSet, stats_key, contributor_org_set_key, stored_stats,
}
use wevibe_chain.Reputation.Keeper.{
  record_serve, store_serve, count_serve, contains, stats_of, put_stats, put_org_set,
  get_contributor_org_set, get_params, is_active,
}
use wevibe_chain.Reputation.Distinct.{
  IsDistinct, contains-All, contains-Mem, Mem-snoc, IsDistinct-snoc,
}

-- The breadth is the number of the organisations of the set, each of which stands in it once.
pub record IsBroad (developer : Text) (s : State) : Type 0 where
  pub breadth :
      (stats_of developer s).org_breadth ≡ length (get_contributor_org_set developer s).org_ids
  pub distinct : IsDistinct (get_contributor_org_set developer s).org_ids

pub stats_key-injective : (d e : Text) → stats_key d ≡ stats_key e → d ≡ e
unfolding stats_key
stats_key-injective d e h = append_cancel_left (codes "stats/") h

contributor_org_set_key-injective :
    (d e : Text) → contributor_org_set_key d ≡ contributor_org_set_key e → d ≡ e
unfolding contributor_org_set_key
contributor_org_set_key-injective d e h = append_cancel_left (codes "orgset/") h

-- The organisations and the statistics after the two writes.
written_self :
    (d : Text) (o : StoredContributorOrgSet) (r : ReputationStats) (s : State)
    → (get_contributor_org_set d (put_stats d r (put_org_set d o s)) ≡ o)
      × ((stats_of d (put_stats d r (put_org_set d o s))).org_breadth ≡ r.org_breadth)
      × ((stats_of d (put_stats d r (put_org_set d o s))).serve_count ≡ r.serve_count)
unfolding put_stats put_org_set get_contributor_org_set stats_of stored_stats
written_self d o r s = (
  ground (arith, get-insert_self (contributor_org_set_key d) o s.org_sets),
  ground (arith, get-insert_self (stats_key d) (stored_stats r) s.stats),
  ground (arith, get-insert_self (stats_key d) (stored_stats r) s.stats),
)

written_other :
    (d e : Text) (o : StoredContributorOrgSet) (r : ReputationStats) (s : State)
    → e ≢ d
    → (get_contributor_org_set e (put_stats d r (put_org_set d o s)) ≡ get_contributor_org_set e s)
      × (stats_of e (put_stats d r (put_org_set d o s)) ≡ stats_of e s)
unfolding put_stats put_org_set get_contributor_org_set stats_of
written_other d e o r s ne = (
  ground (
    arith,
    get-insert_ne (contributor_org_set_key e) (contributor_org_set_key d) o s.org_sets
        (λ h. ne (contributor_org_set_key-injective e d h)),
  ),
  ground (
    arith,
    get-insert_ne (stats_key e) (stats_key d) (stored_stats r) s.stats
        (λ h. ne (stats_key-injective e d h)),
  ),
)

module _ (d org : Text) (epoch : ℕ) (self : Bool) (s : State) where
  before : StoredContributorOrgSet
  before = get_contributor_org_set d s

  served : ReputationStats
  served = count_serve (get_params s) epoch self (stats_of d s)

  served-org_breadth : served.org_breadth ≡ (stats_of d s).org_breadth
  unfolding served count_serve
  served-org_breadth = refl

  -- The store after a serve of an active module: the set is as before where it has the
  -- organisation, and else one longer, as is the breadth.
  record_active :
      is_active s ≡ true
      → (record_serve d org epoch self s).1
        ≡ store_serve d org (contains org before.org_ids) before served s
  unfolding record_serve before served
  record_active h = ground arith

  record_inactive : is_active s ≡ false → (record_serve d org epoch self s).1 ≡ s
  unfolding record_serve
  record_inactive h = ground arith

  store_serve_self :
      length before.org_ids < uint64_max
      → IsBroad d s
      → IsBroad d (store_serve d org (contains org before.org_ids) before served s)
  unfolding store_serve before
  store_serve_self small broad = elim (Bool-cases (contains org before.org_ids)) [
    | inl known ↦
        let (o, r, c) = written_self d before served s in
        rw (known, store_serve)
          (record {
            breadth =
                r
                ∙ served-org_breadth
                ∙ broad.breadth
                ∙ ap (λ (t : StoredContributorOrgSet). length t.org_ids) (sym o);
            distinct = rw (o) broad.distinct;
          })
    | inr new ↦
        let grown : StoredContributorOrgSet = record before {
          org_ids = before.org_ids ++ (org ∷ []);
        } in
        let (o, r, c) =
          written_self d grown (record served { org_breadth = add64 served.org_breadth 1 }) s in
        let more =
          add64-eq-add served.org_breadth 1
            (omega (arith, served-org_breadth, broad.breadth, small)) in
        let size = length-append before.org_ids (org ∷ []) in
        rw (new, store_serve)
          (record {
            breadth =
                r
                ∙ omega (arith, more, served-org_breadth, broad.breadth, size)
                ∙ ap (λ (t : StoredContributorOrgSet). length t.org_ids) (sym o);
            distinct = rw (o) (
                IsDistinct-snoc org before.org_ids (contains-All org before.org_ids new)
                  broad.distinct);
          })
  ]

  store_serve_other :
      (e : Text)
      → e ≢ d
      → IsBroad e s
      → IsBroad e (store_serve d org (contains org before.org_ids) before served s)
  unfolding store_serve before
  store_serve_other e ne broad = elim (Bool-cases (contains org before.org_ids)) [
    | inl known ↦
        let (o, r) = written_other d e before served s ne in
        rw (known, store_serve)
          (record { breadth = rw (o, r) broad.breadth; distinct = rw (o) broad.distinct })
    | inr new ↦
        let grown : StoredContributorOrgSet = record before {
          org_ids = before.org_ids ++ (org ∷ []);
        } in
        let (o, r) =
          written_other d e grown (record served { org_breadth = add64 served.org_breadth 1 }) s
            ne in
        rw (new, store_serve)
          (record { breadth = rw (o, r) broad.breadth; distinct = rw (o) broad.distinct })
  ]

  -- The organisation of a stored serve is in the set.
  store_serve-Mem :
      Mem org
        (get_contributor_org_set d
          (store_serve d org (contains org before.org_ids) before served s)).org_ids
  unfolding store_serve before
  store_serve-Mem = elim (Bool-cases (contains org before.org_ids)) [
    | inl known ↦
        let (o, r, c) = written_self d before served s in
        rw (known, store_serve, o) (contains-Mem org before.org_ids known)
    | inr new ↦
        let grown : StoredContributorOrgSet = record before {
          org_ids = before.org_ids ++ (org ∷ []);
        } in
        let (o, r, c) =
          written_self d grown (record served { org_breadth = add64 served.org_breadth 1 }) s in
        rw (new, store_serve, o) (Mem-snoc org before.org_ids)
  ]

  -- While the developer's set has fewer than 2^64 - 1 organisations, a recorded serve keeps the
  -- breadth of every developer equal to the number of the organisations in its set, with none in it
  -- twice, and it leaves the organisation of the serve in the set, unless the module is not active.
  pub record_serve-IsBroad :
      (e : Text)
      → length (get_contributor_org_set d s).org_ids < uint64_max
      → IsBroad e s
      → IsBroad e (record_serve d org epoch self s).1
        × ((is_active s ≡ false)
            ⊎ Mem org (get_contributor_org_set d (record_serve d org epoch self s).1).org_ids)
  unfolding before
  record_serve-IsBroad e small broad = elim (Bool-cases (is_active s)) [
    | inr off ↦ (rw (record_inactive off) broad, inl off)
    | inl on ↦ (
      elim (Bool-cases (text_eq e d)) [
        | inl same ↦
            let eq = text_eq→eq e d same in
            rw (record_active on, eq) (store_serve_self small (rw (← eq) broad))
        | inr other ↦ rw (record_active on) (store_serve_other e (eq_false_ne e d other) broad)
      ],
      inr (rw (record_active on) store_serve-Mem),
    )
  ]
