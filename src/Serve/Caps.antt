-- ===== src/Serve/Caps.antt =====
-- How often a memory is served in an epoch.
use wevibe_chain.Common.{
  ℕ, ◌≤◌, ◌<◌, ◌≡◌, refl, ap, ◌∙◌, inl, inr, ◌⊎◌, List, Text, arith, ok, text_eq, text_eq→eq,
  eq_false_ne, add64, Bool-cases,
}
use wevibe_chain.Common.Dict.{Dict, get, insert}
use wevibe_chain.Common.Dict.Laws.{amount, get-insert_self, get-insert_ne}
use wevibe_chain.Serve.Types.{Params, ServeEntry}
use wevibe_chain.Serve.Store.{mem_count_key}
use wevibe_chain.Serve.Keeper.{get_params, get_memory_serve_count}
use wevibe_chain.Serve.Batch.{
  World, Outside, Verdict, store_serve, judge_serve, process_serve_batch,
}
use wevibe_chain.Serve.Writes.{store_serve-mem_counts}
use wevibe_chain.Serve.Induction.{process_serve_batch_keeps}

-- The count under a key is at most the cap, or what it was.
abbrev pub IsCapped : ℕ → ℕ → ℕ → Type 0
IsCapped cap before now = (now ≤ cap) ⊎ (now ≡ before)

insert-IsCapped :
    (cap before : ℕ) (j k : Text) (d : Dict ℕ)
    → amount (get k d) < cap
    → IsCapped cap before (amount (get j d))
    → IsCapped cap before (amount (get j (insert k (add64 (amount (get k d)) 1) d)))
unfolding add64
insert-IsCapped cap before j k d below h = elim (Bool-cases (text_eq j k)) [
  | inl same ↦
      let here =
        ap (λ (t : Text). amount (get t (insert k (add64 (amount (get k d)) 1) d)))
          (text_eq→eq j k same)
        ∙ ap amount (get-insert_self k (add64 (amount (get k d)) 1) d) in
      inl (omega (arith, here, below))
  | inr other ↦ rw (get-insert_ne j k (add64 (amount (get k d)) 1) d (eq_false_ne j k other)) h
]

module _ {R : Type 0} (outside : Outside R) (org : Text) (epoch : ℕ) where
  judged_below :
      (params : Params) (e : ServeEntry) (w : World R)
      → judge_serve outside org epoch params e w ≡ ok Verdict.accept
      → get_memory_serve_count org e.memory_content_hash epoch w.state
        < params.max_serves_per_memory_per_epoch
  unfolding judge_serve
  judged_below params e w h = ground arith

  store_serve-IsCapped :
      (params : Params) (before : ℕ) (j : Text) (e : ServeEntry) (w : World R)
      → judge_serve outside org epoch params e w ≡ ok Verdict.accept
      → IsCapped params.max_serves_per_memory_per_epoch before (amount (get j w.state.mem_counts))
      → IsCapped params.max_serves_per_memory_per_epoch before
          (amount (get j (store_serve outside org epoch e w.state).mem_counts))
  unfolding get_memory_serve_count
  store_serve-IsCapped params before j e w judged h =
      rw (store_serve-mem_counts outside org epoch e w.state) (
        insert-IsCapped params.max_serves_per_memory_per_epoch before j
          (mem_count_key org e.memory_content_hash epoch) w.state.mem_counts
          (judged_below params e w judged) h)

  -- A batch, successful or not, takes no memory of any organisation in any epoch above the cap of
  -- the parameters: a count that changes is afterwards at most the cap.
  pub process_serve_batch-IsCapped :
      (l : List ServeEntry) (w : World R) (o h : Text) (n : ℕ)
      → IsCapped
          (get_params w.state).max_serves_per_memory_per_epoch
          (get_memory_serve_count o h n w.state)
          (get_memory_serve_count o h n (process_serve_batch outside org epoch l w).1.state)
  unfolding get_memory_serve_count
  process_serve_batch-IsCapped l w o h n =
      let key = mem_count_key o h n in
      process_serve_batch_keeps outside org epoch (get_params w.state)
        (λ s.
          IsCapped (get_params w.state).max_serves_per_memory_per_epoch
            (amount (get key w.state.mem_counts)) (amount (get key s.mem_counts)))
        (store_serve-IsCapped (get_params w.state) (amount (get key w.state.mem_counts)) key) l w
        refl (inr refl)
