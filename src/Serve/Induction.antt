-- ===== src/Serve/Induction.antt =====
-- What every accepted serve keeps, a batch of serves keeps, whether it succeeds or fails.
use wevibe_chain.Common.{
  ◌≡◌, ℕ, List, [], ◌∷◌, Text, arith, ok, err, length, Result-cases, inl, inr, ltb, Bool-cases,
  Error, ◌⊎◌,
}
use wevibe_chain.Serve.Types.{Params, ServeEntry}
use wevibe_chain.Serve.Store.{State}
use wevibe_chain.Serve.Keeper.{get_params}
use wevibe_chain.Serve.Batch.{
  World, Outside, Counts, no_counts, Verdict, tally, store_serve, judge_serve, serve_round,
  accept_serve, process_serves, process_serve_batch, consume_bandwidth,
}
use wevibe_chain.Serve.Replay.{bandwidth-state}

module _ {R : Type 0} (outside : Outside R) (org : Text) (epoch : ℕ) where
  pub loop_ok :
      (params : Params) (e : ServeEntry) (rest : List ServeEntry) (c : Counts) (v : Verdict)
      (w : World R)
      → judge_serve outside org epoch params e w ≡ ok v
      → process_serves outside org epoch params (e ∷ rest) c w
        ≡ process_serves outside org epoch params rest
            (tally v c)
            (serve_round outside org epoch v e w)
  unfolding process_serves
  loop_ok params e rest c v w j = ground arith

  pub loop_err :
      (params : Params) (e : ServeEntry) (rest : List ServeEntry) (c : Counts) (x : Error)
      (w : World R)
      → judge_serve outside org epoch params e w ≡ err x
      → process_serves outside org epoch params (e ∷ rest) c w ≡ (err x, w)
  unfolding process_serves
  loop_err params e rest c x w j = ground arith

  -- A batch leaves the module's store, or runs its loop.
  batch_cases :
      (l : List ServeEntry) (w : World R)
      → ((process_serve_batch outside org epoch l w).1.state ≡ w.state)
        ⊎ (process_serve_batch outside org epoch l w
            ≡ process_serves outside org epoch
                (get_params w.state)
                l
                no_counts
                (consume_bandwidth outside org epoch (length l) w).1)
  unfolding process_serve_batch
  batch_cases l w = elim (Result-cases (consume_bandwidth outside org epoch (length l) w).0) [
    | inl (u, e) ↦ elim (Bool-cases (ltb (get_params w.state).max_serves_per_batch (length l))) [
      | inl large ↦ inl (ground arith)
      | inr small ↦ inr (ground arith)
    ]
    | inr (x, e) ↦ inl (ground (arith, bandwidth-state outside org epoch (length l) w))
  ]

module _ {ℓ} {R : Type 0} (outside : Outside R) (org : Text) (epoch : ℕ) (params : Params)
    (P : State → Type ℓ)
    (step : (e : ServeEntry) (w : World R)
      → judge_serve outside org epoch params e w ≡ ok Verdict.accept
      → P w.state
      → P (store_serve outside org epoch e w.state)) where
  round_keeps :
      (e : ServeEntry) (v : Verdict) (w : World R)
      → judge_serve outside org epoch params e w ≡ ok v
      → P w.state
      → P (serve_round outside org epoch v e w).state
  unfolding serve_round accept_serve
  round_keeps e Verdict.accept w j p = step e w j p
  round_keeps e Verdict.duplicate w j p = p
  round_keeps e Verdict.invalid w j p = p

  pub process_serves_keeps :
      (l : List ServeEntry) (c : Counts) (w : World R)
      → P w.state
      → P (process_serves outside org epoch params l c w).1.state
  unfolding process_serves
  process_serves_keeps [] c w p = p
  process_serves_keeps (e ∷ rest) c w p =
      elim (Result-cases (judge_serve outside org epoch params e w)) [
        | inl (v, j) ↦ rw (loop_ok outside org epoch params e rest c v w j) (
            process_serves_keeps rest (tally v c) (serve_round outside org epoch v e w)
              (round_keeps e v w j p))
        | inr (x, j) ↦ rw (loop_err outside org epoch params e rest c x w j) p
      ]

  pub process_serve_batch_keeps :
      (l : List ServeEntry) (w : World R)
      → get_params w.state ≡ params
      → P w.state
      → P (process_serve_batch outside org epoch l w).1.state
  process_serve_batch_keeps l w same p = elim (batch_cases outside org epoch l w) [
    | inl kept ↦ rw kept p
    | inr loop ↦
        rw (loop, same)
          (process_serves_keeps l no_counts (consume_bandwidth outside org epoch (length l) w).1
            (rw (bandwidth-state outside org epoch (length l) w) p))
  ]
