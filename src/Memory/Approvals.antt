-- ===== src/Memory/Approvals.antt =====
-- The approvals of an epoch, as the emissions keeper receives them, and what an approval adds.
use wevibe_chain.Common.{
  ℕ, ◌+◌, ◌≤◌, ◌≡◌, refl, ap, ◌∙◌, ◌==◌, is_empty, none, List, [], ◌∷◌, Text, arith, ◌&&◌, text_eq,
  text_lt, text_eq→eq, text_eq_refl, uint64_max, add64, add64-eq-add, Bool-cases, inl, inr,
  if◌then◌else◌,
}
use wevibe_chain.Common.Dict.{Dict, get, insert, values}
use wevibe_chain.Common.Dict.Laws.{amount, get-insert_self, get-insert_ne}
use wevibe_chain.Memory.Types.{State, MemoryState, MemoryCommitment, is_committed}
use wevibe_chain.Memory.Keeper.{
  counts_in, count_approvals, get_contributors_with_approvals_in_epoch,
}

-- 1 for a committed memory, and 0 for one in any other state.
unfoldable pub committed_one : MemoryState → ℕ
committed_one MemoryState.committed = 1
committed_one MemoryState.unspecified = 0
committed_one MemoryState.pending = 0
committed_one MemoryState.pending_keyword = 0
committed_one MemoryState.pending_chain = 0
committed_one MemoryState.denied = 0
committed_one MemoryState.archived = 0
committed_one MemoryState.reported_deleted = 0

-- 1 for a committed memory of the contributor, who has a name, that was approved in the epoch.
unfoldable pub weight : ℕ → Text → MemoryCommitment → ℕ
unfolding committed_one
weight epoch p m =
    if is_empty p
    then 0
    else (if text_eq p m.contributor && (m.approved_at_epoch == epoch)
        then committed_one m.state
        else 0)

committed_one_lem :
    (state : MemoryState) → committed_one state ≡ (if is_committed state then 1 else 0)
unfolding committed_one is_committed
committed_one_lem MemoryState.committed = refl
committed_one_lem MemoryState.unspecified = refl
committed_one_lem MemoryState.pending = refl
committed_one_lem MemoryState.pending_keyword = refl
committed_one_lem MemoryState.pending_chain = refl
committed_one_lem MemoryState.denied = refl
committed_one_lem MemoryState.archived = refl
committed_one_lem MemoryState.reported_deleted = refl

-- What the loop of the code counts is what the description says.
weight-counts_in :
    (epoch : ℕ) (p : Text) (m : MemoryCommitment)
    → weight epoch p m ≡ (if counts_in epoch m && text_eq p m.contributor then 1 else 0)
unfolding weight counts_in
weight-counts_in epoch p m =
    ground (arith, committed_one_lem m.state, text_eq→eq p m.contributor, ap is_empty)

-- The committed memories of the contributor in a list that were approved in the epoch.
unfoldable pub occurrences : ℕ → Text → List MemoryCommitment → ℕ
unfolding weight
occurrences epoch p [] = 0
occurrences epoch p (m ∷ rest) = weight epoch p m + occurrences epoch p rest

weight_counted :
    (epoch : ℕ) (p : Text) (m : MemoryCommitment) (counts : Dict ℕ)
    → amount (get p counts) + weight epoch p m ≤ uint64_max
    → amount (
        get p (
          if counts_in epoch m
          then insert m.contributor (add64 (amount (get m.contributor counts)) 1) counts
          else counts))
      ≡ amount (get p counts) + weight epoch p m
weight_counted epoch p m counts h = elim (Bool-cases (text_eq p m.contributor)) [
  | inl e ↦
      let one = weight-counts_in epoch p m in
      let same = text_eq→eq p m.contributor e in
      ground (
        arith,
        one,
        get-insert_self m.contributor (add64 (amount (get m.contributor counts)) 1) counts,
        add64-eq-add (amount (get m.contributor counts)) 1,
        ap (λ (q : Text). get q counts) same,
        ap
            (λ (q : Text).
              get q (insert m.contributor (add64 (amount (get m.contributor counts)) 1) counts))
            same,
      )
  | inr e ↦ ground (
    arith,
    weight-counts_in epoch p m,
    get-insert_ne p m.contributor (add64 (amount (get m.contributor counts)) 1) counts,
    text_eq_refl p,
    ap (text_eq p),
  )
]

count_approvals_lem :
    (epoch : ℕ) (p : Text) (l : List MemoryCommitment) (counts : Dict ℕ)
    → amount (get p counts) + occurrences epoch p l ≤ uint64_max
    → amount (get p (count_approvals epoch l counts))
      ≡ amount (get p counts) + occurrences epoch p l
unfolding occurrences count_approvals
count_approvals_lem epoch p [] counts h = omega arith
count_approvals_lem epoch p (m ∷ rest) counts h =
    let here = weight_counted epoch p m counts (omega arith) in
    let next =
      if counts_in epoch m
      then insert m.contributor (add64 (amount (get m.contributor counts)) 1) counts
      else counts in
    let after = count_approvals_lem epoch p rest next (omega (arith, here)) in
    omega (arith, here, after)

no_count : (p : Text) → amount (get p []) ≡ 0
unfolding get
no_count p = refl

-- The answer for an epoch gives each contributor the number of its committed memories that were
-- approved in the epoch, where that number fits in 64 bits.
pub contributors_with_approvals_lem :
    (epoch : ℕ) (p : Text) (s : State)
    → occurrences epoch p (values s.memories) ≤ uint64_max
    → amount (get p (get_contributors_with_approvals_in_epoch epoch s))
      ≡ occurrences epoch p (values s.memories)
unfolding get_contributors_with_approvals_in_epoch
contributors_with_approvals_lem epoch p s h = omega (
  arith,
  no_count p,
  count_approvals_lem epoch p (values s.memories) [] (omega (arith, no_count p)),
)

-- A new key adds its memory to the listed ones.
occurrences-insert :
    (epoch : ℕ) (p k : Text) (m : MemoryCommitment) (d : Dict MemoryCommitment)
    → get k d ≡ none
    → occurrences epoch p (values (insert k m d))
      ≡ weight epoch p m + occurrences epoch p (values d)
unfolding occurrences insert get
occurrences-insert epoch p k m [] h = refl
occurrences-insert epoch p k m ((j, n) ∷ d) h = elim (Bool-cases (text_eq k j)) [
  | inl e ↦ ground arith
  | inr e ↦ elim (Bool-cases (text_lt k j)) [
    | inl lt ↦ rw (e, lt) refl
    | inr ge ↦
        let rest = occurrences-insert epoch p k m d (ground arith) in
        rw (e, ge) (omega (arith, rest))
  ]
]

-- A memory stored under a new key, which counts for the epoch, adds one to its contributor's
-- approvals in that epoch and none to another's, where the numbers fit in 64 bits.
pub approvals-insert :
    (epoch : ℕ) (p k : Text) (m : MemoryCommitment) (s s' : State)
    → get k s.memories ≡ none
    → s'.memories ≡ insert k m s.memories
    → weight epoch p m + occurrences epoch p (values s.memories) ≤ uint64_max
    → amount (get p (get_contributors_with_approvals_in_epoch epoch s'))
      ≡ amount (get p (get_contributors_with_approvals_in_epoch epoch s)) + weight epoch p m
approvals-insert epoch p k m s s' fresh e h =
    let more =
      ap (λ (d : Dict MemoryCommitment). occurrences epoch p (values d)) e
      ∙ occurrences-insert epoch p k m s.memories fresh in
    omega (
      arith,
      more,
      contributors_with_approvals_lem epoch p s (omega arith),
      contributors_with_approvals_lem epoch p s' (omega (arith, more)),
    )
