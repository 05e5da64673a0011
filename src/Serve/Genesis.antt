-- ===== src/Serve/Genesis.antt =====
-- Keeper.InitGenesis of x/serve/keeper/keeper.go. `none` in a list is a nil pointer.
use wevibe_chain.Common.{ℕ, ◌≡◌, refl, ap, ◌∙◌, Option, none, some, List, [], ◌∷◌, Text}
use wevibe_chain.Common.Dict.{get, insert}
use wevibe_chain.Common.Dict.Laws.{amount}
use wevibe_chain.Serve.Types.{
  ServeReceipt, StoredDenialReceipt, StoredPolicyAnchor, EpochServeStats, ContributorEpochServes,
}
use wevibe_chain.Serve.Store.{
  State, StoredEvent, empty_state, denial_fingerprint_key, denial_receipt_key, policy_anchor_key,
  contributor_key, mem_count_key,
}
use wevibe_chain.Serve.Canonical.{compute_denial_fingerprint}
use wevibe_chain.Serve.Keeper.{
  put_receipt, increment_denial_count, update_epoch_denial_stats, put_stats, get_memory_serve_count,
}
use wevibe_chain.Serve.Events.{put_event}

pub record GenesisState : Type 0 where
  pub serve_receipts : List ServeReceipt
  pub denial_receipts : List (Option StoredDenialReceipt)
  pub events : List (Option StoredEvent)
  pub policy_anchors : List (Option StoredPolicyAnchor)
  pub epoch_stats : List EpochServeStats
  pub contributor_serves : List ContributorEpochServes

-- A loop whose body cannot fail.
unfoldable fold_state : {A : Type 0} → (A → State → State) → List A → State → State
fold_state f [] s = s
fold_state f (a ∷ rest) s = fold_state f rest (f a s)

unfoldable skip_nil : {A : Type 0} → (A → State → State) → Option A → State → State
skip_nil f none s = s
skip_nil f (some a) s = f a s

unfoldable pub import_denial : (Text → Text) → StoredDenialReceipt → State → State
import_denial sha256 d s =
    let f =
      compute_denial_fingerprint sha256 d.org_id d.memory_hash d.epoch d.serve_key_pubkey
        d.serve_fingerprint in
    let stored : State = record s {
      denial_fingerprints = insert (denial_fingerprint_key f) tt s.denial_fingerprints;
      denials = insert (denial_receipt_key d.org_id d.epoch f) d s.denials;
    } in
    (update_epoch_denial_stats d.org_id d.epoch
      (increment_denial_count d.org_id d.memory_hash d.epoch stored).1).1

unfoldable pub import_anchor : StoredPolicyAnchor → State → State
import_anchor a s = record s {
  anchors = insert (policy_anchor_key a.policy_version) a s.anchors;
  latest_anchor = some a.policy_version;
}

unfoldable pub import_stats : EpochServeStats → State → State
unfolding put_stats
import_stats es = put_stats es.org_id es.epoch es

unfoldable pub import_contributor : ContributorEpochServes → State → State
import_contributor cs s = record s {
  contributors = insert (contributor_key cs.contributor_id cs.epoch) cs s.contributors;
}

-- InitGenesis
unfoldable pub init_genesis : (Text → Text) → GenesisState → State → State
unfolding fold_state skip_nil import_denial import_anchor import_stats import_contributor
init_genesis sha256 g s = fold_state import_contributor g.contributor_serves (
    fold_state import_stats g.epoch_stats (
      fold_state (skip_nil import_anchor) g.policy_anchors (
        fold_state (skip_nil put_event) g.events (
          fold_state (skip_nil (import_denial sha256)) g.denial_receipts
            (fold_state put_receipt g.serve_receipts s)))))

-- A loop whose body leaves the counts of the memories leaves them.
fold_state-mem_counts :
    {A : Type 0} (f : A → State → State)
    → ((a : A) (s : State) → (f a s).mem_counts ≡ s.mem_counts)
    → (l : List A) (s : State) → (fold_state f l s).mem_counts ≡ s.mem_counts
unfolding fold_state
fold_state-mem_counts f kept [] s = refl
fold_state-mem_counts f kept (a ∷ rest) s = fold_state-mem_counts f kept rest (f a s) ∙ kept a s

skip_nil-mem_counts :
    {A : Type 0} (f : A → State → State)
    → ((a : A) (s : State) → (f a s).mem_counts ≡ s.mem_counts)
    → (a : Option A) (s : State) → (skip_nil f a s).mem_counts ≡ s.mem_counts
unfolding skip_nil
skip_nil-mem_counts f kept none s = refl
skip_nil-mem_counts f kept (some a) s = kept a s

init_genesis-mem_counts :
    (sha256 : Text → Text) (g : GenesisState) (s : State)
    → (init_genesis sha256 g s).mem_counts ≡ s.mem_counts
unfolding init_genesis import_denial import_anchor import_stats import_contributor put_stats
    put_receipt put_event increment_denial_count update_epoch_denial_stats
init_genesis-mem_counts sha256 g s =
    fold_state-mem_counts import_contributor (λ a t. refl) g.contributor_serves _
    ∙ fold_state-mem_counts import_stats (λ a t. refl) g.epoch_stats _
    ∙ fold_state-mem_counts (skip_nil import_anchor)
        (skip_nil-mem_counts import_anchor (λ a t. refl)) g.policy_anchors _
    ∙ fold_state-mem_counts (skip_nil put_event) (skip_nil-mem_counts put_event (λ a t. refl))
        g.events _
    ∙ fold_state-mem_counts (skip_nil (import_denial sha256))
        (skip_nil-mem_counts (import_denial sha256) (λ a t. refl)) g.denial_receipts _
    ∙ fold_state-mem_counts put_receipt (λ a t. refl) g.serve_receipts s

none_served : (k : Text) → amount (get k empty_state.mem_counts) ≡ 0
unfolding get
none_served k = refl

-- A flaw: an import into an empty store leaves the count of every memory in every epoch at 0,
-- whatever receipts it imports, so the cap of the epoch starts again.
pub import_resets_caps :
    (sha256 : Text → Text) (g : GenesisState) (org hash : Text) (epoch : ℕ)
    → get_memory_serve_count org hash epoch (init_genesis sha256 g empty_state) ≡ 0
unfolding get_memory_serve_count
import_resets_caps sha256 g org hash epoch =
    ap (λ d. amount (get (mem_count_key org hash epoch) d))
      (init_genesis-mem_counts sha256 g empty_state)
    ∙ none_served (mem_count_key org hash epoch)
