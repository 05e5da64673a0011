-- ===== src/Serve/Receipts.antt =====
-- The receipts of the accepted serves: how a fingerprint leads to its receipt.
use wevibe_chain.Common.{
  ℕ, ◌≡◌, ◌≢◌, refl, sym, ap, ◌∙◌, true, some, ◌∷◌, ◌++◌, List, Text, arith, ok, codes, text_eq,
  text_eq→eq, eq_false_ne, Bool-cases, inl, inr, append_cancel_left,
}
use wevibe_chain.Common.Decimal.{
  format_uint, format_uint-injective, format_uint-NoSlash, last_slash,
}
use wevibe_chain.Common.Dict.{get, insert}
use wevibe_chain.Common.Dict.Laws.{get-insert_self, get-insert_ne}
use wevibe_chain.Attestation.Index.{content_hash_to_hex-injective, hex-NoSlash}
use wevibe_chain.Serve.Types.{ServeEntry, StoredServeReceipt, serve_receipt_to_stored}
use wevibe_chain.Serve.Store.{State, empty_state, receipt_key, serve_fingerprint_key}
use wevibe_chain.Serve.Keeper.{get_params, has_serve_fingerprint}
use wevibe_chain.Serve.Batch.{
  World, Outside, Verdict, is_signed, serve_fingerprint, receipt_of, store_serve, judge_serve,
  process_serve_batch,
}
use wevibe_chain.Serve.Writes.{store_serve-fingerprints, store_serve-receipts}
use wevibe_chain.Serve.Induction.{process_serve_batch_keeps}

pub serve_fingerprint_key-injective :
    (f g : Text) → serve_fingerprint_key f ≡ serve_fingerprint_key g → f ≡ g
unfolding serve_fingerprint_key
serve_fingerprint_key-injective f g h =
    content_hash_to_hex-injective f g (append_cancel_left (codes "fingerprint/") h)

-- A key of a receipt belongs to one organisation, one epoch and one fingerprint.
pub receipt_key-injective :
    (o p : Text) (m n : ℕ) (f g : Text)
    → receipt_key o m f ≡ receipt_key p n g
    → (o ≡ p) × (m ≡ n) × (f ≡ g)
unfolding receipt_key
receipt_key-injective o p m n f g e =
    let (start, hex) =
      last_slash (o ++ (47 ∷ format_uint m)) (p ++ (47 ∷ format_uint n)) _ _ (hex-NoSlash f)
        (hex-NoSlash g) (append_cancel_left (codes "receipt/") e) in
    let (same, digits) = last_slash o p _ _ (format_uint-NoSlash m) (format_uint-NoSlash n) start in
    (same, format_uint-injective m n digits, content_hash_to_hex-injective f g hex)

-- Every stored fingerprint points to a receipt that has it, and that stands under its own key.
pub IsPointed : State → Type 0
IsPointed s =
    (f key : Text)
    → get (serve_fingerprint_key f) s.fingerprints ≡ some key
    → (r : StoredServeReceipt) × (get key s.receipts ≡ some r)
      × (r.fingerprint ≡ f)
      × (key ≡ receipt_key r.org_id r.epoch f)

-- An empty store has no fingerprint.
pub empty-IsPointed : IsPointed empty_state
unfolding IsPointed get
empty-IsPointed f key h = cc

module _ {R : Type 0} (outside : Outside R) (org : Text) (epoch : ℕ) where
  store_serve-IsPointed :
      (e : ServeEntry) (s : State) → IsPointed s → IsPointed (store_serve outside org epoch e s)
  unfolding IsPointed serve_receipt_to_stored receipt_of
  store_serve-IsPointed e s h f key found =
      let f0 = serve_fingerprint outside org epoch e in
      let k0 = receipt_key org epoch f0 in
      let r0 = serve_receipt_to_stored (receipt_of outside org epoch e) in
      let put = store_serve-fingerprints outside org epoch e s in
      let receipts = store_serve-receipts outside org epoch e s in
      let there = sym (ap (get (serve_fingerprint_key f)) put) ∙ found in
      elim (Bool-cases (text_eq (serve_fingerprint_key f) (serve_fingerprint_key f0))) [
        | inl same ↦
            let keys = text_eq→eq (serve_fingerprint_key f) (serve_fingerprint_key f0) same in
            let eq = serve_fingerprint_key-injective f f0 keys in
            let at_key : some key ≡ some k0 =
              sym there
              ∙ ap (λ (t : Text). get t (insert (serve_fingerprint_key f0) k0 s.fingerprints)) keys
              ∙ get-insert_self (serve_fingerprint_key f0) k0 s.fingerprints in
            let own : key ≡ k0 = cc at_key in
            (
              r0,
              ap (get key) receipts
                  ∙ ap (λ (t : Text). get t (insert k0 r0 s.receipts)) own
                  ∙ get-insert_self k0 r0 s.receipts,
              sym eq,
              own ∙ ap (receipt_key org epoch) (sym eq),
            )
        | inr other ↦
            let ne = eq_false_ne (serve_fingerprint_key f) (serve_fingerprint_key f0) other in
            let (r, at_key, named, own) = h f key (
              sym (
                get-insert_ne (serve_fingerprint_key f) (serve_fingerprint_key f0) k0 s.fingerprints
                  ne)
              ∙ there) in
            let apart : key ≢ k0 = λ eq. ne (
              ap serve_fingerprint_key
                (receipt_key-injective r.org_id org r.epoch epoch f f0 (sym own ∙ eq)).2) in
            (
              r,
              ap (get key) receipts ∙ get-insert_ne key k0 r0 s.receipts apart ∙ at_key,
              named,
              own,
            )
      ]

  -- A batch, successful or not, keeps every stored fingerprint pointing to the receipt that has it,
  -- under the key of the receipt's organisation, epoch and fingerprint.
  pub process_serve_batch-receipts :
      (l : List ServeEntry) (w : World R) (f key : Text)
      → IsPointed w.state
      → get
          (serve_fingerprint_key f)
          (process_serve_batch outside org epoch l w).1.state.fingerprints
        ≡ some key
      → (r : StoredServeReceipt) × (get key
            (process_serve_batch outside org epoch l w).1.state.receipts
          ≡ some r)
        × (r.fingerprint ≡ f)
        × (key ≡ receipt_key r.org_id r.epoch f)
  unfolding IsPointed
  process_serve_batch-receipts l w f key h =
      process_serve_batch_keeps outside org epoch (get_params w.state) IsPointed
        (λ e v judged. store_serve-IsPointed e v.state) l w refl h f key

same_fingerprint :
    {R : Type 0} (outside : Outside R) (org other : Text) (epoch : ℕ) (e f : ServeEntry)
    → f.memory_content_hash ≡ e.memory_content_hash
    → f.serve_key_pubkey ≡ e.serve_key_pubkey
    → serve_fingerprint outside other epoch f ≡ serve_fingerprint outside org epoch e
unfolding serve_fingerprint
same_fingerprint outside org other epoch e f hash key = rw (hash, key) refl

pub stored_seen :
    {R : Type 0} (outside : Outside R) (org other : Text) (epoch : ℕ) (e f : ServeEntry) (s : State)
    → f.memory_content_hash ≡ e.memory_content_hash
    → f.serve_key_pubkey ≡ e.serve_key_pubkey
    → has_serve_fingerprint
        (serve_fingerprint outside other epoch f)
        (store_serve outside org epoch e s)
      ≡ true
unfolding has_serve_fingerprint
stored_seen outside org other epoch e f s hash key =
    let k = serve_fingerprint_key (serve_fingerprint outside org epoch e) in
    rw
      (
        same_fingerprint outside org other epoch e f hash key,
        store_serve-fingerprints outside org epoch e s,
        get-insert_self k (receipt_key org epoch (serve_fingerprint outside org epoch e))
            s.fingerprints,
      )
      refl

-- A flaw: the fingerprint of a serve leaves out the organisation. Once a serve is accepted in one
-- organisation, a signed serve of the same memory by the same key in the same epoch is a duplicate
-- in every other one.
pub fingerprint_crosses_orgs :
    {R : Type 0} (outside : Outside R) (org other : Text) (epoch : ℕ) (e f : ServeEntry)
    (w : World R)
    → is_signed outside other epoch f ≡ true
    → f.memory_content_hash ≡ e.memory_content_hash
    → f.serve_key_pubkey ≡ e.serve_key_pubkey
    → judge_serve outside other epoch
        (get_params w.state)
        f
        (record w { state = store_serve outside org epoch e w.state })
      ≡ ok Verdict.duplicate
unfolding judge_serve
fingerprint_crosses_orgs outside org other epoch e f w signed hash key =
    ground (arith, stored_seen outside org other epoch e f w.state hash key)
