-- ===== src/Serve/Refinement.antt =====
-- The loop over a batch of serves does what a run on the ledger does.
use wevibe_chain.Common.{
  ℕ, ◌==◌, ◌&&◌, ◌||◌, ◌≡◌, refl, sym, ap, ◌∙◌, List, [], ◌∷◌, ◌++◌, map, Text, arith, codes,
  text_eq, text_eq→eq, text_eq_refl, eq_false_ne, add64, if◌then◌else◌, Result, Bool-cases,
  Result-cases, inl, inr, append_cancel_left,
}
use wevibe_chain.Common.Decimal.{
  format_uint, format_uint-injective, format_uint-NoSlash, last_slash,
}
use wevibe_chain.Common.Dict.{get, insert}
use wevibe_chain.Common.Dict.Laws.{amount, get-insert_self, get-insert_ne}
use wevibe_chain.Attestation.Types.{content_hash_to_hex}
use wevibe_chain.Attestation.Index.{content_hash_to_hex-injective, hex-NoSlash}
use wevibe_chain.Memory.Keeper.{is_some}
use wevibe_chain.Memory.Types as MemoryTypes
use mathlib.Core.List.{append_assoc}
use wevibe_chain.Serve.Types.{Params, ServeEntry}
use wevibe_chain.Serve.Store.{State, mem_count_key, serve_fingerprint_key, receipt_key}
use wevibe_chain.Serve.Keeper.{has_serve_fingerprint, get_memory_serve_count}
use wevibe_chain.Serve.Batch.{
  World, Outside, Counts, Verdict, tally, is_signed, is_servable, serve_fingerprint, store_serve,
  judge_serve, serve_round, accept_serve, process_serves,
}
use wevibe_chain.Serve.Writes.{store_serve-fingerprints, store_serve-mem_counts}
use wevibe_chain.Serve.Induction.{loop_ok, loop_err}
use wevibe_chain.Serve.Receipts.{serve_fingerprint_key-injective}
use wevibe_chain.Serve.Ledger.{
  Ledger, Offer, ledger_judge, ledger_accept, ledger_round, ledger_run, ledger_ok, ledger_err,
}

abbrev pub view : State → Ledger
view s = record {
  known = λ f. has_serve_fingerprint f s;
  served = λ p h n. get_memory_serve_count p h n s;
}

-- A count belongs to one organisation, one memory and one epoch.
mem_count_key-injective :
    (o p g h : Text) (m n : ℕ)
    → mem_count_key o g m ≡ mem_count_key p h n
    → (o ≡ p) × (g ≡ h) × (m ≡ n)
unfolding mem_count_key
mem_count_key-injective o p g h m n e =
    let whole =
      append_assoc o (47 ∷ content_hash_to_hex g) (47 ∷ format_uint m)
      ∙ append_cancel_left (codes "memcount/") e
      ∙ sym (append_assoc p (47 ∷ content_hash_to_hex h) (47 ∷ format_uint n)) in
    let (start, digits) =
      last_slash (o ++ (47 ∷ content_hash_to_hex g)) (p ++ (47 ∷ content_hash_to_hex h)) _ _
        (format_uint-NoSlash m) (format_uint-NoSlash n) whole in
    let (same, hex) = last_slash o p _ _ (hex-NoSlash g) (hex-NoSlash h) start in
    (same, content_hash_to_hex-injective g h hex, format_uint-injective m n digits)

mem_count_key-test :
    (o p g h : Text) (m n : ℕ)
    → (text_eq o p && (text_eq g h && m == n)) ≡ text_eq (mem_count_key o g m) (mem_count_key p h n)
mem_count_key-test o p g h m n =
    elim (Bool-cases (text_eq (mem_count_key o g m) (mem_count_key p h n))) [
      | inl same ↦
          let (eo, eg, em) =
            mem_count_key-injective o p g h m n
              (text_eq→eq (mem_count_key o g m) (mem_count_key p h n) same) in
          ground (
            arith,
            em,
            text_eq_refl p,
            text_eq_refl h,
            ap (λ (t : Text). text_eq t p) eo,
            ap (λ (t : Text). text_eq t h) eg,
          )
      | inr other ↦ elim (Bool-cases (text_eq o p && (text_eq g h && m == n))) [
        | inr differs ↦ differs ∙ sym other
        | inl agrees ↦
            let eo = text_eq→eq o p (ground arith) in
            let eg = text_eq→eq g h (ground arith) in
            let em : m ≡ n = ground arith in
            let keys : mem_count_key o g m ≡ mem_count_key p h n = cc (eo, eg, em) in
            absurd (eq_false_ne (mem_count_key o g m) (mem_count_key p h n) other keys)
      ]
    ]

module _ {R : Type 0} (outside : Outside R) (org : Text) (epoch : ℕ) where
  unfoldable pub offer : MemoryTypes.State → ServeEntry → Offer
  offer memory e = record {
    signed = is_signed outside org epoch e;
    servable = is_servable outside org epoch e.memory_content_hash memory;
    fingerprint = serve_fingerprint outside org epoch e;
    hash = e.memory_content_hash;
  }

  known-store_serve :
      (e : ServeEntry) (s : State) (f : Text)
      → has_serve_fingerprint f (store_serve outside org epoch e s)
        ≡ (text_eq f (serve_fingerprint outside org epoch e) || has_serve_fingerprint f s)
  unfolding has_serve_fingerprint
  known-store_serve e s f =
      let f0 = serve_fingerprint outside org epoch e in
      let k0 = receipt_key org epoch f0 in
      elim (Bool-cases (text_eq f f0)) [
        | inl same ↦
            rw (store_serve-fingerprints outside org epoch e s, same)
              (ap
                  (λ (t : Text). is_some (
                    get (serve_fingerprint_key t)
                      (insert (serve_fingerprint_key f0) k0 s.fingerprints)))
                  (text_eq→eq f f0 same)
                ∙ ap is_some (get-insert_self (serve_fingerprint_key f0) k0 s.fingerprints))
        | inr other ↦
            rw (store_serve-fingerprints outside org epoch e s, other)
              (ap is_some (
                get-insert_ne (serve_fingerprint_key f) (serve_fingerprint_key f0) k0 s.fingerprints
                  λ eq. eq_false_ne f f0 other (serve_fingerprint_key-injective f f0 eq)))
      ]

  served-store_serve :
      (e : ServeEntry) (s : State) (p h : Text) (n : ℕ)
      → get_memory_serve_count p h n (store_serve outside org epoch e s) ≡ (
          if text_eq p org && (text_eq h e.memory_content_hash && n == epoch)
          then add64 (get_memory_serve_count p h n s) 1
          else get_memory_serve_count p h n s)
  unfolding get_memory_serve_count
  served-store_serve e s p h n =
      let k = mem_count_key p h n in
      let k0 = mem_count_key org e.memory_content_hash epoch in
      let more = add64 (amount (get k0 s.mem_counts)) 1 in
      rw
        (
          store_serve-mem_counts outside org epoch e s,
          mem_count_key-test p org h e.memory_content_hash n epoch,
        )
        (elim (Bool-cases (text_eq k k0)) [
          | inl same ↦
              let eq = text_eq→eq k k0 same in
              ground (
                arith,
                ap (λ (t : Text). amount (get t (insert k0 more s.mem_counts))) eq,
                get-insert_self k0 more s.mem_counts,
                ap (λ (t : Text). amount (get t s.mem_counts)) eq,
              )
          | inr other ↦
              ground (arith, get-insert_ne k k0 more s.mem_counts (eq_false_ne k k0 other))
        ])

  -- An accepted serve is the acceptance of its offer.
  view-store_serve :
      (memory : MemoryTypes.State) (e : ServeEntry) (s : State)
      → view (store_serve outside org epoch e s) ≡ ledger_accept org epoch (offer memory e) (view s)
  unfolding ledger_accept offer
  view-store_serve memory e s = λ i. record {
    known = λ f. known-store_serve e s f i;
    served = λ p h n. served-store_serve e s p h n i;
  }

  judge_serve-ledger :
      (params : Params) (e : ServeEntry) (w : World R)
      → judge_serve outside org epoch params e w
        ≡ ledger_judge org epoch params.max_serves_per_memory_per_epoch
            (offer w.memory e)
            (view w.state)
  unfolding judge_serve ledger_judge offer
  judge_serve-ledger params e w = refl

  view-serve_round :
      (v : Verdict) (e : ServeEntry) (w : World R)
      → view (serve_round outside org epoch v e w).state
        ≡ ledger_round org epoch v (offer w.memory e) (view w.state)
  unfolding serve_round accept_serve ledger_round
  view-serve_round Verdict.accept e w = view-store_serve w.memory e w.state
  view-serve_round Verdict.duplicate e w = refl
  view-serve_round Verdict.invalid e w = refl

  memory-serve_round :
      (v : Verdict) (e : ServeEntry) (w : World R)
      → (serve_round outside org epoch v e w).memory ≡ w.memory
  unfolding serve_round accept_serve
  memory-serve_round Verdict.accept e w = refl
  memory-serve_round Verdict.duplicate e w = refl
  memory-serve_round Verdict.invalid e w = refl

  -- The loop over the serves of a batch refines a run on the ledger: it gives the same counts or
  -- the same error, and its store is seen as the ledger that the run leaves, where a serve is
  -- accepted exactly if it is signed, its fingerprint is not in the set, its memory may be served,
  -- and the number of the memory is below the cap.
  pub process_serves_refines :
      (params : Params) (l : List ServeEntry) (c : Counts) (w : World R)
      → let (r, w') = process_serves outside org epoch params l c w in
        (r, view w'.state)
        ≡ ledger_run org epoch params.max_serves_per_memory_per_epoch
            (map (offer w.memory) l)
            c
            (view w.state)
  unfolding process_serves ledger_run
  process_serves_refines params [] c w = refl
  process_serves_refines params (e ∷ rest) c w =
      let cap = params.max_serves_per_memory_per_epoch in
      let seen = judge_serve-ledger params e w in
      elim (Result-cases (judge_serve outside org epoch params e w)) [
        | inl (v, j) ↦
            let next = serve_round outside org epoch v e w in
            let run = λ (m : MemoryTypes.State) (g : Ledger).
              ledger_run org epoch cap (map (offer m) rest) (tally v c) g in
            ap (λ (r : Result Counts × World R). (r.0, view r.1.state))
              (loop_ok outside org epoch params e rest c v w j)
            ∙ process_serves_refines params rest (tally v c) next
            ∙ ap (λ (m : MemoryTypes.State). run m (view next.state)) (memory-serve_round v e w)
            ∙ ap (run w.memory) (view-serve_round v e w)
            ∙ sym (
                ledger_ok org epoch cap (offer w.memory e) (map (offer w.memory) rest) c v
                  (view w.state) (sym seen ∙ j))
        | inr (x, j) ↦
            ap (λ (r : Result Counts × World R). (r.0, view r.1.state))
              (loop_err outside org epoch params e rest c x w j)
            ∙ sym (
                ledger_err org epoch cap (offer w.memory e) (map (offer w.memory) rest) c x
                  (view w.state) (sym seen ∙ j))
      ]
