-- ===== src/Serve/Keeper.antt =====
-- x/serve/keeper/keeper.go: parameters, receipts, counts and statistics.
use wevibe_chain.Common.{
  ℕ, Bool, Option, none, some, [], Text, is_empty, add64, if◌then◌else◌, Error, Action, modify,
  or_raise,
}
use wevibe_chain.Common.Dict.{Dict, get, insert}
use wevibe_chain.Common.Dict.Laws.{amount}
use wevibe_chain.Attestation.Types.{content_hash_to_hex}
use wevibe_chain.Memory.Keeper.{is_some}
use wevibe_chain.Serve.Types.{
  Params, default_params, ServeReceipt, StoredServeReceipt, DenialEntry, EpochServeStats,
  new_epoch_serve_stats, ContributorEpochServes, new_contributor_epoch_serves, add_org_id,
  serve_receipt_to_stored,
}
use wevibe_chain.Serve.Store.{
  State, receipt_key, serve_fingerprint_key, denial_fingerprint_key, denial_receipt_key, stats_key,
  contributor_key, mem_count_key, denial_count_key, mem_first_key, key_first_key,
}

unfoldable pub set_params : Params → Action State (Unit {0})
set_params p = modify (λ s. record s { params = some p })

unfoldable pub get_params : State → Params
get_params s = elim s.params [ none ↦ default_params | some p ↦ p ]

unfoldable pub has_serve_fingerprint : Text → State → Bool
has_serve_fingerprint f s = is_some (get (serve_fingerprint_key f) s.fingerprints)

unfoldable pub has_denial_fingerprint : Text → State → Bool
has_denial_fingerprint f s = is_some (get (denial_fingerprint_key f) s.denial_fingerprints)

-- `none` is the answer (nil, false).
unfoldable pub get_serve_receipt_by_fingerprint : Text → State → Option StoredServeReceipt
get_serve_receipt_by_fingerprint f s = elim (get (serve_fingerprint_key f) s.fingerprints) [
  | none ↦ none
  | some key ↦ if is_empty key then none else get key s.receipts
]

-- The two writes that ProcessServeBatch makes of a receipt.
unfoldable pub put_receipt : ServeReceipt → State → State
put_receipt r s = record s {
  receipts =
      insert (receipt_key r.org_id r.epoch r.fingerprint) (serve_receipt_to_stored r) s.receipts;
  fingerprints =
      insert (serve_fingerprint_key r.fingerprint) (receipt_key r.org_id r.epoch r.fingerprint)
        s.fingerprints;
}

unfoldable pub store_denial_receipt : Text → ℕ → Text → DenialEntry → Action State (Unit {0})
store_denial_receipt org epoch f e = modify (λ s. record s {
  denials =
      insert (denial_receipt_key org epoch f)
        (record {
          org_id = org;
          memory_hash = e.memory_hash;
          deny_key = content_hash_to_hex e.serve_key_pubkey;
          reason = e.reason;
          epoch = epoch;
          serve_fingerprint = e.serve_fingerprint;
          serve_key_pubkey = e.serve_key_pubkey;
          neg_anchor = [];
        })
        s.denials;
})

unfoldable pub get_memory_serve_count : Text → Text → ℕ → State → ℕ
get_memory_serve_count org hash epoch s = amount (get (mem_count_key org hash epoch) s.mem_counts)

unfoldable pub increment_memory_serve_count : Text → Text → ℕ → State → State
unfolding get_memory_serve_count
increment_memory_serve_count org hash epoch s = record s {
  mem_counts =
      insert (mem_count_key org hash epoch) (add64 (get_memory_serve_count org hash epoch s) 1)
        s.mem_counts;
}

unfoldable pub get_memory_denial_count : Text → Text → ℕ → State → ℕ
get_memory_denial_count org hash epoch s =
    amount (get (denial_count_key org hash epoch) s.denial_counts)

unfoldable pub increment_denial_count : Text → Text → ℕ → Action State (Unit {0})
unfolding get_memory_denial_count
increment_denial_count org hash epoch = modify (λ s. record s {
  denial_counts =
      insert (denial_count_key org hash epoch) (add64 (get_memory_denial_count org hash epoch s) 1)
        s.denial_counts;
})

unfoldable pub get_epoch_serve_stats : Text → ℕ → Action State EpochServeStats
get_epoch_serve_stats org epoch s =
    or_raise (get (stats_key org epoch) s.stats) Error.stats_not_found s

-- The statistics of an epoch, new where there are none.
unfoldable pub stats_of : Text → ℕ → State → EpochServeStats
stats_of org epoch s = elim (get (stats_key org epoch) s.stats) [
  | none ↦ new_epoch_serve_stats org epoch
  | some es ↦ es
]

unfoldable pub put_stats : Text → ℕ → EpochServeStats → State → State
put_stats org epoch es s = record s { stats = insert (stats_key org epoch) es s.stats }

-- The three parts of updateEpochStats.
unfoldable pub count_memory : Text → ℕ → Text → State → State
unfolding put_stats stats_of
count_memory org epoch hash s =
    let marked : State = record s {
      mem_firsts = insert (mem_first_key org hash epoch) tt s.mem_firsts;
    } in
    let es = stats_of org epoch s in
    let counted =
      put_stats org epoch (record es { unique_memories_served = add64 es.unique_memories_served 1 })
        marked in
    if is_some (get (mem_first_key org hash epoch) s.mem_firsts) then s else counted

unfoldable pub count_serve_key : Text → ℕ → Text → State → State
unfolding put_stats stats_of
count_serve_key org epoch serve_key s =
    let marked : State = record s {
      key_firsts = insert (key_first_key org serve_key epoch) tt s.key_firsts;
    } in
    let es = stats_of org epoch s in
    let counted =
      put_stats org epoch (record es { unique_serve_keys = add64 es.unique_serve_keys 1 }) marked in
    if is_some (get (key_first_key org serve_key epoch) s.key_firsts) then s else counted

unfoldable pub count_model : Text → Dict ℕ → Dict ℕ
count_model model breakdown =
    if is_empty model
    then breakdown
    else insert model (add64 (amount (get model breakdown)) 1) breakdown

unfoldable pub count_serve : Text → ℕ → Bool → Text → State → State
unfolding put_stats stats_of count_model
count_serve org epoch self model s =
    let es = stats_of org epoch s in
    put_stats org epoch
      (record es {
        total_serves = add64 es.total_serves 1;
        self_serves = if self then add64 es.self_serves 1 else es.self_serves;
        model_breakdown = count_model model es.model_breakdown;
      })
      s

-- updateEpochStats
unfoldable pub update_epoch_stats : Text → ℕ → Text → Text → Bool → Text → State → State
unfolding count_memory count_serve_key count_serve
update_epoch_stats org epoch hash serve_key self model s =
    count_serve org epoch self model
      (count_serve_key org epoch serve_key (count_memory org epoch hash s))

unfoldable pub update_epoch_denial_stats : Text → ℕ → Action State (Unit {0})
unfolding put_stats stats_of
update_epoch_denial_stats org epoch = modify (λ s.
    put_stats org epoch
      (record (stats_of org epoch s) {
        total_denials = add64 (stats_of org epoch s).total_denials 1;
      })
      s)

-- The serves of a contributor in an epoch, new where there are none.
unfoldable pub serves_of : Text → ℕ → State → ContributorEpochServes
serves_of contributor epoch s = elim (get (contributor_key contributor epoch) s.contributors) [
  | none ↦ new_contributor_epoch_serves contributor epoch
  | some cs ↦ cs
]

-- updateContributorServes
unfoldable pub update_contributor_serves : Text → ℕ → Text → Bool → ℕ → State → State
unfolding serves_of
update_contributor_serves contributor epoch org self turns s =
    let cs = serves_of contributor epoch s in
    record s {
      contributors =
          insert (contributor_key contributor epoch)
            (record cs {
              serve_count = add64 cs.serve_count 1;
              self_serve_count = if self then add64 cs.self_serve_count 1 else cs.self_serve_count;
              org_ids = add_org_id org cs.org_ids;
              total_turns = add64 cs.total_turns turns;
            })
            s.contributors;
    }

unfoldable pub get_contributor_epoch_serves : Text → ℕ → Action State ContributorEpochServes
get_contributor_epoch_serves contributor epoch s =
    or_raise (get (contributor_key contributor epoch) s.contributors) Error.contributor_not_found s
