-- ===== src/Serve/Statistics.antt =====
-- The statistics of an epoch count its accepted serves.
use wevibe_chain.Common.{
  ℕ, ◌+◌, ◌≤◌, ◌≡◌, refl, sym, ap, ◌∙◌, Bool, List, [], ◌∷◌, Text, arith, ok, length, Result, add64,
  add64-eq-add, uint64_max, Bool-cases, inl, inr, if◌then◌else◌,
}
use wevibe_chain.Common.Dict.{get, insert}
use wevibe_chain.Common.Dict.Laws.{get-insert_self}
use wevibe_chain.Attestation.Types.{content_hash_to_hex}
use wevibe_chain.Memory.Keeper.{is_some}
use wevibe_chain.Serve.Types.{Params, ServeEntry, EpochServeStats}
use wevibe_chain.Serve.Store.{State, stats_key, mem_first_key, key_first_key}
use wevibe_chain.Serve.Keeper.{
  stats_of, put_stats, put_receipt, increment_memory_serve_count, count_memory, count_serve_key,
  count_serve, update_epoch_stats, update_contributor_serves, get_params, count_model,
}
use wevibe_chain.Serve.Batch.{
  World, Outside, Counts, no_counts, Verdict, tally, store_serve, serve_round, accept_serve,
  process_serves, process_serve_batch, consume_bandwidth, is_self_serve, receipt_of,
}
use wevibe_chain.Serve.Replay.{
  counted, tally-counted, process_serves_inversion, IsBatch-inversion, bandwidth-state,
}

total : Text → ℕ → State → ℕ
total org epoch s = (stats_of org epoch s).total_serves

stats_of-put_stats :
    (org : Text) (epoch : ℕ) (es : EpochServeStats) (s : State)
    → stats_of org epoch (put_stats org epoch es s) ≡ es
unfolding stats_of put_stats
stats_of-put_stats org epoch es s = ground (arith, get-insert_self (stats_key org epoch) es s.stats)

total-put_stats :
    (org : Text) (epoch : ℕ) (es : EpochServeStats) (s : State)
    → total org epoch (put_stats org epoch es s) ≡ es.total_serves
unfolding total
total-put_stats org epoch es s =
    ap (λ (t : EpochServeStats). t.total_serves) (stats_of-put_stats org epoch es s)

count_memory-total :
    (org : Text) (epoch : ℕ) (hash : Text) (s : State)
    → total org epoch (count_memory org epoch hash s) ≡ total org epoch s
unfolding count_memory total
count_memory-total org epoch hash s =
    elim (Bool-cases (is_some (get (mem_first_key org hash epoch) s.mem_firsts))) [
      | inl seen ↦ rw (seen, count_memory) refl
      | inr new ↦
          let es = stats_of org epoch s in
          let marked : State = record s {
            mem_firsts = insert (mem_first_key org hash epoch) tt s.mem_firsts;
          } in
          rw (new, count_memory)
            (total-put_stats org epoch
              (record es { unique_memories_served = add64 es.unique_memories_served 1 }) marked)
    ]

count_serve_key-total :
    (org : Text) (epoch : ℕ) (key : Text) (s : State)
    → total org epoch (count_serve_key org epoch key s) ≡ total org epoch s
unfolding count_serve_key total
count_serve_key-total org epoch key s =
    elim (Bool-cases (is_some (get (key_first_key org key epoch) s.key_firsts))) [
      | inl seen ↦ rw (seen, count_serve_key) refl
      | inr new ↦
          let es = stats_of org epoch s in
          let marked : State = record s {
            key_firsts = insert (key_first_key org key epoch) tt s.key_firsts;
          } in
          rw (new, count_serve_key)
            (total-put_stats org epoch
              (record es { unique_serve_keys = add64 es.unique_serve_keys 1 }) marked)
    ]

count_serve-total :
    (org : Text) (epoch : ℕ) (self : Bool) (model : Text) (s : State)
    → total org epoch (count_serve org epoch self model s) ≡ add64 (total org epoch s) 1
unfolding count_serve total
count_serve-total org epoch self model s =
    let es = stats_of org epoch s in
    total-put_stats org epoch
      (record es {
        total_serves = add64 es.total_serves 1;
        self_serves = if self then add64 es.self_serves 1 else es.self_serves;
        model_breakdown = count_model model es.model_breakdown;
      })
      s

update_epoch_stats-total :
    (org : Text) (epoch : ℕ) (hash key : Text) (self : Bool) (model : Text) (s : State)
    → total org epoch (update_epoch_stats org epoch hash key self model s)
      ≡ add64 (total org epoch s) 1
unfolding update_epoch_stats
update_epoch_stats-total org epoch hash key self model s =
    let one = count_memory org epoch hash s in
    let two = count_serve_key org epoch key one in
    count_serve-total org epoch self model two
    ∙ ap (λ (n : ℕ). add64 n 1)
        (count_serve_key-total org epoch key one ∙ count_memory-total org epoch hash s)

module _ {R : Type 0} (outside : Outside R) (org : Text) (epoch : ℕ) where
  store_serve-total :
      (e : ServeEntry) (s : State)
      → total org epoch (store_serve outside org epoch e s) ≡ add64 (total org epoch s) 1
  unfolding store_serve update_contributor_serves total stats_of increment_memory_serve_count
      put_receipt
  store_serve-total e s =
      update_epoch_stats-total org epoch e.memory_content_hash
        (content_hash_to_hex e.serve_key_pubkey) (is_self_serve e) e.model_id
        (increment_memory_serve_count org e.memory_content_hash epoch
          (put_receipt (receipt_of outside org epoch e) s))

  round-total :
      (v : Verdict) (e : ServeEntry) (c : Counts) (w : World R)
      → counted c + 1 ≤ uint64_max
      → total org epoch w.state + 1 ≤ uint64_max
      → total org epoch (serve_round outside org epoch v e w).state + c.accepted
        ≡ total org epoch w.state + (tally v c).accepted
  unfolding serve_round accept_serve tally counted
  round-total Verdict.accept e c w fits small = omega (
    arith,
    store_serve-total e w.state,
    add64-eq-add (total org epoch w.state) 1 small,
    add64-eq-add c.accepted 1 (omega arith),
  )
  round-total Verdict.duplicate e c w fits small = refl
  round-total Verdict.invalid e c w fits small = refl

  tally-accepted :
      (v : Verdict) (c : Counts)
      → counted c + 1 ≤ uint64_max
      → (tally v c).accepted ≤ c.accepted + 1
  unfolding tally counted
  tally-accepted Verdict.accept c fits = omega (arith, add64-eq-add c.accepted 1 (omega arith))
  tally-accepted Verdict.duplicate c fits = omega arith
  tally-accepted Verdict.invalid c fits = omega arith

  process_serves-total :
      (params : Params) (l : List ServeEntry) (c d : Counts) (w : World R)
      → (process_serves outside org epoch params l c w).0 ≡ ok d
      → counted c + length l ≤ uint64_max
      → total org epoch w.state + length l ≤ uint64_max
      → total org epoch (process_serves outside org epoch params l c w).1.state + c.accepted
        ≡ total org epoch w.state + d.accepted
  unfolding process_serves
  process_serves-total params [] c d w h fits small =
      let same : c ≡ d = cc in omega (arith, ap (λ (x : Counts). x.accepted) same)
  process_serves-total params (e ∷ rest) c d w h fits small =
      let (v, judged, step) = process_serves_inversion outside org epoch params e rest c d w h in
      let one = tally-counted v c (omega arith) in
      let at_most = tally-accepted v c (omega arith) in
      let here = round-total v e c w (omega arith) (omega arith) in
      let more =
        process_serves-total params rest (tally v c) d _
          (ap (λ (r : Result Counts × World R). r.0) (sym step) ∙ h) (omega (arith, one))
          (omega (arith, here, at_most)) in
      let whole = ap (λ (r : Result Counts × World R). total org epoch r.1.state) step in
      omega (arith, here, more, whole)

  -- A successful batch adds the serves that it accepts to the total of its organisation and epoch,
  -- where the total stays within 64 bits.
  pub process_serve_batch-total :
      (l : List ServeEntry) (d : Counts) (w : World R)
      → (process_serve_batch outside org epoch l w).0 ≡ ok d
      → (stats_of org epoch w.state).total_serves + length l ≤ uint64_max
      → (stats_of org epoch (process_serve_batch outside org epoch l w).1.state).total_serves
        ≡ (stats_of org epoch w.state).total_serves + d.accepted
  unfolding total counted
  process_serve_batch-total l d w h small =
      let i = IsBatch-inversion outside org epoch l d w h in
      let w' = (consume_bandwidth outside org epoch (length l) w).1 in
      let loop = ap (λ (r : Result Counts × World R). r.0) (sym i.looped) ∙ h in
      let same = ap (total org epoch) (bandwidth-state outside org epoch (length l) w) in
      let grown =
        process_serves-total (get_params w.state) l no_counts d w' loop (omega arith)
          (omega (arith, same)) in
      let whole = ap (λ (r : Result Counts × World R). total org epoch r.1.state) i.looped in
      omega (arith, grown, whole, same)
