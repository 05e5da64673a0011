-- ===== src/Reputation/Award.antt =====
-- What an attested memory adds to the statistics of its developer.
use wevibe_chain.Common.{
  ℕ, zero, suc, ◌⊎◌, ◌+◌, ◌*◌, ◌≤◌, ◌<◌, ◌≡◌, ◌≢◌, refl, ap, ◌∙◌, true, List, [], ◌∷◌, Text, arith,
  ok, length, text_eq, text_eq→eq, eq_false_ne, leb, add64, mul64, add64-eq-add, uint64_max,
  Bool-cases, inl, inr, Result-cases, if◌then◌else◌,
}
use wevibe_chain.Common.Dict.{insert}
use wevibe_chain.Common.Dict.Laws.{get-insert_self, get-insert_ne}
use wevibe_chain.Reputation.Types.{
  State, ReputationStats, AttestedMemory, stats_key, memory_key, stored_stats, add_memory, bump,
  validate_memory,
}
use wevibe_chain.Reputation.Breadth.{stats_key-injective}
use wevibe_chain.Reputation.Keeper.{update_reputation, stats_of, put_stats, is_active}

abbrev pub total : List ℕ → ℕ
total [] = 0
total (n ∷ rest) = n + total rest

-- The eleven buckets of difficulty add up to the number of memories, and no memory gave more than
-- 100 XP.
pub record IsTallied (r : ReputationStats) : Type 0 where
  pub buckets : length r.difficulty_bucket ≡ 11
  pub tallied : total r.difficulty_bucket ≡ r.memory_count
  pub bounded : r.xp ≤ 100 * r.memory_count

length-bump : (i : ℕ) (l : List ℕ) → length (bump i l) ≡ length l
unfolding bump
length-bump i [] = refl
length-bump zero (n ∷ rest) = refl
length-bump (suc i) (n ∷ rest) = ap suc (length-bump i rest)

total-bump :
    (i : ℕ) (l : List ℕ) → i < length l → total l < uint64_max → total (bump i l) ≡ suc (total l)
unfolding bump
total-bump i [] h small = omega arith
total-bump zero (n ∷ rest) h small = let e = add64-eq-add n 1 (omega arith) in omega arith
total-bump (suc i) (n ∷ rest) h small =
    let e = total-bump i rest (omega arith) (omega arith) in omega arith

add64-le-add : (a b : ℕ) → add64 a b ≤ a + b
unfolding add64
add64-le-add a b = omega arith

product_bound : (a b : ℕ) → a ≤ 10 → b ≤ 10 → a * b ≤ 100
product_bound a b h k = grind arith

mul64_bound : (a b : ℕ) → a ≤ 10 → b ≤ 10 → mul64 a b ≤ 100
unfolding mul64
mul64_bound a b h k = let p = product_bound a b h k in omega arith

-- What a counted memory changes besides the two maps.
add_memory_inversion :
    (d q : ℕ) (tags : List Text) (from : Text) (r r' : ReputationStats)
    → add_memory d q tags from r ≡ ok r'
    → (r'.memory_count ≡ add64 r.memory_count 1)
      × (r'.difficulty_bucket
          ≡ (if leb d 10 then bump d r.difficulty_bucket else r.difficulty_bucket))
      × (r'.xp ≡ add64 r.xp (mul64 d q))
unfolding add_memory
add_memory_inversion d q tags from r r' h = ground arith

add_memory-IsTallied :
    (d q : ℕ) (tags : List Text) (from : Text) (r r' : ReputationStats)
    → d ≤ 10
    → q ≤ 10
    → r.memory_count < uint64_max
    → IsTallied r
    → add_memory d q tags from r ≡ ok r'
    → IsTallied r'
add_memory-IsTallied d q tags from r r' hd hq small t h =
    let (count, bucket, xp) = add_memory_inversion d q tags from r r' h in
    let more = add64-eq-add r.memory_count 1 (omega arith) in
    let low : leb d 10 ≡ true = ground arith in
    let kept : r'.difficulty_bucket ≡ bump d r.difficulty_bucket = bucket ∙ rw low refl in
    let awarded = mul64_bound d q hd hq in
    record {
      buckets = rw (kept, length-bump) t.buckets;
      tallied =
          rw (kept, count, more)
            (let e =
                total-bump d r.difficulty_bucket (omega (arith, t.buckets, hd))
                  (omega (arith, t.tallied, small)) in
              omega (arith, e, t.tallied));
      bounded =
          let b = add64-le-add r.xp (mul64 d q) in
          omega (arith, b, count, more, xp, awarded, t.bounded);
    }

-- The store after an update that counts: the statistics, then the memory.
counted : Text → AttestedMemory → ReputationStats → State → State
counted d m r s =
    let t = put_stats d r s in
    record t { memories = insert (memory_key d m.memory_cid) m t.memories }

-- An update fails and changes nothing, or it has counted a memory with grades of at most 10.
update_reputation-cases :
    (d : Text) (m : AttestedMemory) (s : State)
    → ((update_reputation d m s).1 ≡ s)
      ⊎ ((r : ReputationStats) × (add_memory m.difficulty m.quality m.domain_tags m.provenance
              (stats_of d s)
            ≡ ok r)
          × (m.difficulty ≤ 10)
          × (m.quality ≤ 10)
          × ((update_reputation d m s).1 ≡ counted d m r s))
unfolding update_reputation validate_memory counted
update_reputation-cases d m s =
    elim (Result-cases
      (add_memory m.difficulty m.quality m.domain_tags m.provenance (stats_of d s))) [
        | inr (x, e) ↦ inl (ground arith)
        | inl (r, e) ↦ elim (Bool-cases (is_active s)) [
          | inr off ↦ inl (ground arith)
          | inl on ↦ elim (Result-cases (validate_memory m)) [
            | inr (x, v) ↦ inl (ground arith)
            | inl (u, v) ↦ inr (r, e, ground arith, ground arith, ground arith)
          ]
        ]
      ]

counted_self :
    (d : Text) (m : AttestedMemory) (r : ReputationStats) (s : State)
    → stats_of d (counted d m r s) ≡ stored_stats r
unfolding counted stats_of put_stats
counted_self d m r s = ground (arith, get-insert_self (stats_key d) (stored_stats r) s.stats)

counted_other :
    (d e : Text) (m : AttestedMemory) (r : ReputationStats) (s : State)
    → e ≢ d
    → stats_of e (counted d m r s) ≡ stats_of e s
unfolding counted stats_of put_stats
counted_other d e m r s ne = ground (
  arith,
  get-insert_ne (stats_key e) (stats_key d) (stored_stats r) s.stats
      (λ h. ne (stats_key-injective e d h)),
)

stored_stats-IsTallied : (r : ReputationStats) → IsTallied r → IsTallied (stored_stats r)
unfolding stored_stats
stored_stats-IsTallied r t = record {
  buckets = t.buckets;
  tallied = t.tallied;
  bounded = t.bounded;
}

-- An update of the reputation of a developer, successful or not, keeps the statistics of every
-- developer tallied: eleven buckets that add up to the number of memories, and at most 100 XP a
-- memory. The developer has counted fewer than 2^64 - 1 memories.
pub update_reputation-IsTallied :
    (d e : Text) (m : AttestedMemory) (s : State)
    → (stats_of d s).memory_count < uint64_max
    → IsTallied (stats_of e s)
    → IsTallied (stats_of e (update_reputation d m s).1)
update_reputation-IsTallied d e m s small t = elim (update_reputation-cases d m s) [
  | inl same ↦ rw (same) t
  | inr (r, added, hd, hq, after) ↦ elim (Bool-cases (text_eq e d)) [
    | inl eq ↦
        let same = text_eq→eq e d eq in
        rw (after, same, counted_self)
          (stored_stats-IsTallied r (
            add_memory-IsTallied m.difficulty m.quality m.domain_tags m.provenance (stats_of d s) r
              hd hq small (rw (← same) t) added))
    | inr ne ↦ rw (after, counted_other d e m r s (eq_false_ne e d ne)) t
  ]
]
