-- ===== src/Serve/Writes.antt =====
-- What an accepted serve writes under each prefix of the store.
use wevibe_chain.Common.{ℕ, ◌≡◌, refl, ◌∙◌, Bool, Text, arith, add64}
use wevibe_chain.Common.Dict.{insert}
use wevibe_chain.Serve.Types.{ServeEntry, serve_receipt_to_stored}
use wevibe_chain.Serve.Store.{State, receipt_key, serve_fingerprint_key, mem_count_key}
use wevibe_chain.Serve.Keeper.{
  put_receipt, put_stats, increment_memory_serve_count, get_memory_serve_count, count_memory,
  count_serve_key, count_serve, update_epoch_stats, update_contributor_serves,
}
use wevibe_chain.Serve.Batch.{Outside, serve_fingerprint, receipt_of, store_serve}

-- The statistics are written under prefixes of their own.
pub record IsElsewhere (s t : State) : Type 0 where
  pub receipts : t.receipts ≡ s.receipts
  pub fingerprints : t.fingerprints ≡ s.fingerprints
  pub mem_counts : t.mem_counts ≡ s.mem_counts
  pub params : t.params ≡ s.params

IsElsewhere-trans : (s t u : State) → IsElsewhere s t → IsElsewhere t u → IsElsewhere s u
IsElsewhere-trans s t u h k = record {
  receipts = k.receipts ∙ h.receipts;
  fingerprints = k.fingerprints ∙ h.fingerprints;
  mem_counts = k.mem_counts ∙ h.mem_counts;
  params = k.params ∙ h.params;
}

update_epoch_stats-IsElsewhere :
    (org : Text) (epoch : ℕ) (hash key : Text) (self : Bool) (model : Text) (s : State)
    → IsElsewhere s (update_epoch_stats org epoch hash key self model s)
unfolding update_epoch_stats count_memory count_serve_key count_serve put_stats
update_epoch_stats-IsElsewhere org epoch hash key self model s = record {
  receipts = ground arith;
  fingerprints = ground arith;
  mem_counts = ground arith;
  params = ground arith;
}

update_contributor_serves-IsElsewhere :
    (contributor : Text) (epoch : ℕ) (org : Text) (self : Bool) (turns : ℕ) (s : State)
    → IsElsewhere s (update_contributor_serves contributor epoch org self turns s)
unfolding update_contributor_serves
update_contributor_serves-IsElsewhere contributor epoch org self turns s = record {
  receipts = refl;
  fingerprints = refl;
  mem_counts = refl;
  params = refl;
}

module _ {R : Type 0} (outside : Outside R) (org : Text) (epoch : ℕ) (e : ServeEntry) where
  -- The store after the receipt and the count.
  served : State → State
  served s =
      increment_memory_serve_count org e.memory_content_hash epoch
        (put_receipt (receipt_of outside org epoch e) s)

  store_serve-IsElsewhere : (s : State) → IsElsewhere (served s) (store_serve outside org epoch e s)
  unfolding store_serve served
  store_serve-IsElsewhere s =
      IsElsewhere-trans (served s) _ _
        (update_epoch_stats-IsElsewhere org epoch e.memory_content_hash _ _ e.model_id (served s))
        (update_contributor_serves-IsElsewhere e.contributor_id epoch org _ e.turn_count _)

  pub store_serve-fingerprints :
      (s : State)
      → (store_serve outside org epoch e s).fingerprints
        ≡ insert
            (serve_fingerprint_key (serve_fingerprint outside org epoch e))
            (receipt_key org epoch (serve_fingerprint outside org epoch e))
            s.fingerprints
  unfolding served increment_memory_serve_count put_receipt receipt_of
  store_serve-fingerprints s = (store_serve-IsElsewhere s).fingerprints

  pub store_serve-receipts :
      (s : State)
      → (store_serve outside org epoch e s).receipts
        ≡ insert
            (receipt_key org epoch (serve_fingerprint outside org epoch e))
            (serve_receipt_to_stored (receipt_of outside org epoch e))
            s.receipts
  unfolding served increment_memory_serve_count put_receipt receipt_of
  store_serve-receipts s = (store_serve-IsElsewhere s).receipts

  pub store_serve-mem_counts :
      (s : State)
      → (store_serve outside org epoch e s).mem_counts
        ≡ insert
            (mem_count_key org e.memory_content_hash epoch)
            (add64 (get_memory_serve_count org e.memory_content_hash epoch s) 1)
            s.mem_counts
  unfolding served increment_memory_serve_count put_receipt receipt_of get_memory_serve_count
  store_serve-mem_counts s = (store_serve-IsElsewhere s).mem_counts

  pub store_serve-params : (s : State) → (store_serve outside org epoch e s).params ≡ s.params
  unfolding served increment_memory_serve_count put_receipt receipt_of
  store_serve-params s = (store_serve-IsElsewhere s).params
