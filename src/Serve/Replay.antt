-- ===== src/Serve/Replay.antt =====
-- A batch of serves: every serve is accounted for, and no serve is accepted twice.
use wevibe_chain.Common.{
  ℕ, ◌+◌, ◌≤◌, ◌≡◌, refl, sym, ap, ◌∙◌, none, List, [], ◌∷◌, Text, arith, ok, length, Result,
  Result-cases, inl, inr, add64-eq-add, uint64_max,
}
use wevibe_chain.Common.Dict.{get}
use wevibe_chain.Common.Dict.Laws.{length-insert}
use wevibe_chain.Serve.Types.{Params, ServeEntry}
use wevibe_chain.Serve.Store.{State, serve_fingerprint_key}
use wevibe_chain.Serve.Keeper.{has_serve_fingerprint, get_params}
use wevibe_chain.Serve.Batch.{
  World, Outside, Counts, no_counts, Verdict, tally, serve_fingerprint, judge_serve, serve_round,
  accept_serve, process_serves, process_serve_batch, consume_bandwidth,
}
use wevibe_chain.Serve.Writes.{store_serve-fingerprints}

unfoldable pub counted : Counts → ℕ
counted c = c.accepted + (c.rejected_duplicate + c.rejected_invalid)

pub tally-counted :
    (v : Verdict) (c : Counts) → counted c + 1 ≤ uint64_max → counted (tally v c) ≡ counted c + 1
unfolding counted tally
tally-counted Verdict.accept c h = omega (arith, add64-eq-add c.accepted 1 (omega arith))
tally-counted Verdict.duplicate c h =
    omega (arith, add64-eq-add c.rejected_duplicate 1 (omega arith))
tally-counted Verdict.invalid c h = omega (arith, add64-eq-add c.rejected_invalid 1 (omega arith))

module _ {R : Type 0} (outside : Outside R) (org : Text) (epoch : ℕ) where
  -- A loop that ends has judged its first serve, and goes on from there.
  pub process_serves_inversion :
      (params : Params) (e : ServeEntry) (rest : List ServeEntry) (c d : Counts) (w : World R)
      → (process_serves outside org epoch params (e ∷ rest) c w).0 ≡ ok d
      → (v : Verdict) × (judge_serve outside org epoch params e w ≡ ok v)
        × (process_serves outside org epoch params (e ∷ rest) c w
            ≡ process_serves outside org epoch params rest
                (tally v c)
                (serve_round outside org epoch v e w))
  unfolding process_serves
  process_serves_inversion params e rest c d w h =
      elim (Result-cases (judge_serve outside org epoch params e w)) [
        | inl (v, j) ↦ (v, j, ground arith)
        | inr (x, j) ↦ ground arith
      ]

  process_serves-counted :
      (params : Params) (l : List ServeEntry) (c d : Counts) (w : World R)
      → (process_serves outside org epoch params l c w).0 ≡ ok d
      → counted c + length l ≤ uint64_max
      → counted d ≡ counted c + length l
  unfolding process_serves
  process_serves-counted params [] c d w h fits =
      let same : c ≡ d = cc in omega (arith, ap counted same)
  process_serves-counted params (e ∷ rest) c d w h fits =
      let (v, judged, step) = process_serves_inversion params e rest c d w h in
      let one = tally-counted v c (omega arith) in
      let more =
        process_serves-counted params rest (tally v c) d _
          (ap (λ (r : Result Counts × World R). r.0) (sym step) ∙ h) (omega (arith, one)) in
      omega (arith, one, more)

  judged_fresh :
      (params : Params) (e : ServeEntry) (w : World R)
      → judge_serve outside org epoch params e w ≡ ok Verdict.accept
      → get (serve_fingerprint_key (serve_fingerprint outside org epoch e)) w.state.fingerprints
        ≡ none
  unfolding judge_serve has_serve_fingerprint
  judged_fresh params e w h = ground arith

  -- A round stores a new fingerprint exactly where it accepts.
  round-length :
      (params : Params) (e : ServeEntry) (v : Verdict) (c : Counts) (w : World R)
      → judge_serve outside org epoch params e w ≡ ok v
      → counted c + 1 ≤ uint64_max
      → length (serve_round outside org epoch v e w).state.fingerprints + c.accepted
        ≡ length w.state.fingerprints + (tally v c).accepted
  unfolding serve_round accept_serve tally counted
  round-length params e Verdict.accept c w j fits =
      let grown =
        ap length (store_serve-fingerprints outside org epoch e w.state)
        ∙ length-insert (serve_fingerprint_key (serve_fingerprint outside org epoch e)) _
            w.state.fingerprints (judged_fresh params e w j) in
      omega (arith, grown, add64-eq-add c.accepted 1 (omega arith))
  round-length params e Verdict.duplicate c w j fits = refl
  round-length params e Verdict.invalid c w j fits = refl

  process_serves-length :
      (params : Params) (l : List ServeEntry) (c d : Counts) (w : World R)
      → (process_serves outside org epoch params l c w).0 ≡ ok d
      → counted c + length l ≤ uint64_max
      → length (process_serves outside org epoch params l c w).1.state.fingerprints + c.accepted
        ≡ length w.state.fingerprints + d.accepted
  unfolding process_serves
  process_serves-length params [] c d w h fits =
      let same : c ≡ d = cc in omega (arith, ap (λ (x : Counts). x.accepted) same)
  process_serves-length params (e ∷ rest) c d w h fits =
      let (v, judged, step) = process_serves_inversion params e rest c d w h in
      let one = tally-counted v c (omega arith) in
      let here = round-length params e v c w judged (omega arith) in
      let more =
        process_serves-length params rest (tally v c) d _
          (ap (λ (r : Result Counts × World R). r.0) (sym step) ∙ h) (omega (arith, one)) in
      let whole = ap (λ (r : Result Counts × World R). length r.1.state.fingerprints) step in
      omega (arith, here, more, whole)

  -- A successful batch is not too large, its bandwidth is charged, and its loop has run to the end.
  pub record IsBatch (l : List ServeEntry) (d : Counts) (w : World R) : Type 0 where
    pub small : length l ≤ (get_params w.state).max_serves_per_batch
    pub charged : (consume_bandwidth outside org epoch (length l) w).0 ≡ ok tt
    pub looped :
        process_serve_batch outside org epoch l w
        ≡ process_serves outside org epoch
            (get_params w.state)
            l
            no_counts
            (consume_bandwidth outside org epoch (length l) w).1

  pub IsBatch-inversion :
      (l : List ServeEntry) (d : Counts) (w : World R)
      → (process_serve_batch outside org epoch l w).0 ≡ ok d
      → IsBatch l d w
  unfolding process_serve_batch
  IsBatch-inversion l d w h =
      elim (Result-cases (consume_bandwidth outside org epoch (length l) w).0) [
        | inl (u, e) ↦ record { small = ground arith; charged = e; looped = ground arith }
        | inr (x, e) ↦ record {
          small = ground arith;
          charged = ground arith;
          looped = ground arith;
        }
      ]

  pub bandwidth-state :
      (count : ℕ) (w : World R) → (consume_bandwidth outside org epoch count w).1.state ≡ w.state
  unfolding consume_bandwidth
  bandwidth-state count w = refl

  -- A successful batch of serves answers for each of its serves whether it was accepted, a
  -- duplicate or invalid, and stores as many new fingerprints as it accepts, so that no serve is
  -- accepted twice.
  pub process_serve_batch_lem :
      (l : List ServeEntry) (d : Counts) (w : World R)
      → length l ≤ uint64_max
      → (process_serve_batch outside org epoch l w).0 ≡ ok d
      → (d.accepted + (d.rejected_duplicate + d.rejected_invalid) ≡ length l)
        × (length (process_serve_batch outside org epoch l w).1.state.fingerprints
            ≡ length w.state.fingerprints + d.accepted)
        × (length l ≤ (get_params w.state).max_serves_per_batch)
  unfolding counted
  process_serve_batch_lem l d w fits h =
      let i = IsBatch-inversion l d w h in
      let w' = (consume_bandwidth outside org epoch (length l) w).1 in
      let loop = ap (λ (r : Result Counts × World R). r.0) (sym i.looped) ∙ h in
      let sums = process_serves-counted (get_params w.state) l no_counts d w' loop (omega arith) in
      let grown = process_serves-length (get_params w.state) l no_counts d w' loop (omega arith) in
      let whole = ap (λ (r : Result Counts × World R). length r.1.state.fingerprints) i.looped in
      let same = ap (λ (s : State). length s.fingerprints) (bandwidth-state (length l) w) in
      (omega (arith, sums), omega (arith, grown, whole, same), i.small)
