-- ===== src/Emissions/Qualifying.antt =====
-- Whom an epoch pays: the answer of x/memory/keeper/lifecycle.go, filtered and sorted by
-- MintDailyEmission.
use wevibe_chain.Common.{
  ℕ, ◌≤◌, ◌<◌, ◌≡◌, refl, ap, ◌∙◌, Bool, false, not, ◌&&◌, ◌||◌, none, List, [], ◌∷◌, Text,
  is_empty, text_eq, text_eq→eq, leb, uint64_max, add64, Bool-cases, inl, inr, arith, ok,
}
use wevibe_chain.Common.Dict.{Dict, Above, get, values, IsSorted}
use wevibe_chain.Common.Dict.Laws.{amount, get-Above, insert-IsSorted}
use wevibe_chain.Emissions.Types
use wevibe_chain.Emissions.Keeper
use wevibe_chain.Emissions.Mint.{qualifying, insert_sorted, sort_strings}
use wevibe_chain.Emissions.Mint.Inversion.{addrs_of}
use wevibe_chain.Memory.Types as MemoryTypes
use wevibe_chain.Memory.Keeper.{count_approvals, get_contributors_with_approvals_in_epoch}
use wevibe_chain.Memory.Approvals.{occurrences, contributors_with_approvals_lem}

-- The text is in the list.
unfoldable pub contains : Text → List Text → Bool
contains a [] = false
contains a (b ∷ l) = text_eq a b || contains a l

contains-insert_sorted :
    (a b : Text) (l : List Text) → contains a (insert_sorted b l) ≡ text_eq a b || contains a l
unfolding contains insert_sorted
contains-insert_sorted a b [] = refl
contains-insert_sorted a b (c ∷ l) = ground (arith, contains-insert_sorted a b l)

contains-sort_strings : (a : Text) (l : List Text) → contains a (sort_strings l) ≡ contains a l
unfolding contains sort_strings
contains-sort_strings a [] = refl
contains-sort_strings a (b ∷ l) =
    contains-insert_sorted a b (sort_strings l)
    ∙ ap (λ (c : Bool). text_eq a b || c) (contains-sort_strings a l)

Above-IsSorted : (k : Text) (d : Dict ℕ) → Above k d → IsSorted d
Above-IsSorted k [] s = tt
Above-IsSorted k ((j, n) ∷ d) s = s.1

-- From a dictionary, a text qualifies where its number reaches the threshold.
contains-qualifying :
    (threshold : ℕ) (a : Text) (d : Dict ℕ)
    → 0 < threshold
    → IsSorted d
    → contains a (qualifying threshold d) ≡ not (is_empty a) && leb threshold (amount (get a d))
unfolding contains qualifying get
contains-qualifying threshold a [] h s = ground arith
contains-qualifying threshold a ((k, n) ∷ d) h s = elim (Bool-cases (text_eq a k)) [
  | inl e ↦
      let same = text_eq→eq a k e in
      let missing : get a d ≡ none = ap (λ (q : Text). get q d) same ∙ get-Above k d s in
      let rest = contains-qualifying threshold a d h (Above-IsSorted k d s) in
      ground (arith, missing, rest, same, ap is_empty same)
  | inr e ↦
      let rest = contains-qualifying threshold a d h (Above-IsSorted k d s) in ground (arith, rest)
]

count_approvals-IsSorted :
    (epoch : ℕ) (l : List MemoryTypes.MemoryCommitment) (counts : Dict ℕ)
    → IsSorted counts
    → IsSorted (count_approvals epoch l counts)
unfolding count_approvals
count_approvals-IsSorted epoch [] counts s = s
count_approvals-IsSorted epoch (m ∷ l) counts s = count_approvals-IsSorted epoch l _ (
    ground
      (arith, insert-IsSorted m.contributor (add64 (amount (get m.contributor counts)) 1) counts s))

module _ (epoch : ℕ) (a : Text) (memory : MemoryTypes.State) (s : Types.State)
    (pool : Types.EmissionPool) where
  -- Where the parameters' threshold is not 0 and the number fits in 64 bits, the contributors that
  -- the mint of an epoch pays are those with a name and at least that many memories that are
  -- committed and were approved in the epoch.
  pub qualifies_by_approvals :
      0 < (Keeper.get_params s).contributor_qualify_threshold
      → occurrences epoch a (values memory.memories) ≤ uint64_max
      → contains a (addrs_of (ok (get_contributors_with_approvals_in_epoch epoch memory)) s pool)
        ≡ not (is_empty a)
          && leb
              (Keeper.get_params s).contributor_qualify_threshold
              (occurrences epoch a (values memory.memories))
  unfolding get_contributors_with_approvals_in_epoch
  qualifies_by_approvals h fits =
      let t = (Keeper.get_params s).contributor_qualify_threshold in
      let counts = get_contributors_with_approvals_in_epoch epoch memory in
      contains-sort_strings a (qualifying t counts)
      ∙ contains-qualifying t a counts h
          (count_approvals-IsSorted epoch (values memory.memories) [] tt)
      ∙ ap (λ (n : ℕ). not (is_empty a) && leb t n)
          (contributors_with_approvals_lem epoch a memory fits)
