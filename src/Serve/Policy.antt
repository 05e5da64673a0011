-- ===== src/Serve/Policy.antt =====
-- The policy anchors of x/serve/keeper/keeper.go. `height` is the block's.
use wevibe_chain.Common.{
  ℕ, ◌≡◌, refl, ap, Option, none, some, List, [], ◌∷◌, Text, text_eq, text_eq→eq, is_empty, arith,
  if◌then◌else◌, ok, err, Error, Action, Option-cases, Bool-cases, inl, inr, eq_false_ne,
}
use wevibe_chain.Common.Dict.{get, insert}
use wevibe_chain.Common.Dict.Laws.{get-insert_self, get-insert_ne}
use wevibe_chain.Serve.Types.{StoredPolicyAnchor}
use wevibe_chain.Serve.Store.{State, policy_anchor_key}

unfoldable pub new_anchor : ℕ → Text → Text → StoredPolicyAnchor
new_anchor height version hash = record {
  policy_version = version;
  policy_hash = hash;
  anchored_at_epoch = 0;
  anchored_at_height = height;
}

-- Keeper.SetPolicyAnchor
unfoldable pub set_policy_anchor : ℕ → Text → Text → Action State (Unit {0})
unfolding new_anchor
set_policy_anchor height version hash s = elim (get (policy_anchor_key version) s.anchors) [
  | some a ↦ (if text_eq a.policy_hash hash then ok tt else err Error.policy_anchor_differs, s)
  | none ↦ (
    ok tt,
    record s {
      anchors = insert (policy_anchor_key version) (new_anchor height version hash) s.anchors;
      latest_anchor = some version;
    },
  )
]

unfoldable pub get_policy_anchor : Text → State → Option StoredPolicyAnchor
get_policy_anchor version s = get (policy_anchor_key version) s.anchors

unfoldable pub get_latest_policy_anchor : State → Option StoredPolicyAnchor
unfolding get_policy_anchor
get_latest_policy_anchor s = elim s.latest_anchor [
  | none ↦ none
  | some version ↦ if is_empty version then none else get_policy_anchor version s
]

-- Anchoring succeeds exactly where the version is new or has the same hash, and then the version
-- has an anchor with that hash.
pub set_policy_anchor_lem :
    (height : ℕ) (version hash : Text) (s : State)
    → (set_policy_anchor height version hash s).0 ≡ ok tt
    → (a : StoredPolicyAnchor) × (get_policy_anchor version
          (set_policy_anchor height version hash s).1
        ≡ some a)
      × (a.policy_hash ≡ hash)
unfolding set_policy_anchor get_policy_anchor
set_policy_anchor_lem height version hash s h =
    elim (Option-cases (get (policy_anchor_key version) s.anchors)) [
      | inl new ↦ (
        new_anchor height version hash,
        ground (
          arith,
          get-insert_self (policy_anchor_key version) (new_anchor height version hash) s.anchors,
        ),
        refl,
      )
      | inr (a, found) ↦ (a, ground arith, ground (arith, text_eq→eq a.policy_hash hash))
    ]

anchor_kept :
    (height : ℕ) (v version hash : Text) (a : StoredPolicyAnchor) (s : State)
    → get_policy_anchor v s ≡ some a
    → get_policy_anchor v (set_policy_anchor height version hash s).1 ≡ some a
unfolding set_policy_anchor get_policy_anchor
anchor_kept height v version hash a s h =
    elim (Bool-cases (text_eq (policy_anchor_key v) (policy_anchor_key version))) [
      | inl same ↦ ground (
        arith,
        ap (λ (t : Text). get t s.anchors)
            (text_eq→eq (policy_anchor_key v) (policy_anchor_key version) same),
      )
      | inr other ↦ ground (
        arith,
        get-insert_ne (policy_anchor_key v) (policy_anchor_key version)
            (new_anchor height version hash) s.anchors
            (eq_false_ne (policy_anchor_key v) (policy_anchor_key version) other),
      )
    ]

-- A history of anchorings, each at its height with its version and hash.
unfoldable pub anchor_all : List (ℕ × Text × Text) → State → State
unfolding set_policy_anchor
anchor_all [] s = s
anchor_all ((height, version, hash) ∷ rest) s =
    anchor_all rest (set_policy_anchor height version hash s).1

-- An anchored policy version keeps its anchor, with the same hash and height, through every later
-- anchoring of any version, accepted or not.
pub anchored_forever :
    (calls : List (ℕ × Text × Text)) (v : Text) (a : StoredPolicyAnchor) (s : State)
    → get_policy_anchor v s ≡ some a
    → get_policy_anchor v (anchor_all calls s) ≡ some a
unfolding anchor_all
anchored_forever [] v a s h = h
anchored_forever ((height, version, hash) ∷ rest) v a s h =
    anchored_forever rest v a (set_policy_anchor height version hash s).1
      (anchor_kept height v version hash a s h)
