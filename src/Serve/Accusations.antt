-- ===== src/Serve/Accusations.antt =====
-- What an accepted denial rests on, and that no denial is accepted twice.
use wevibe_chain.Common.{
  ℕ, ◌+◌, ◌≤◌, ◌≡◌, refl, ap, ◌∙◌, true, none, some, List, [], ◌∷◌, Text, arith, ok, length,
  text_eq→eq, add64, add64-eq-add, uint64_max, codes, Option-cases, Result-cases, inl, inr,
}
use wevibe_chain.Common.Decimal.{format_uint}
use wevibe_chain.Common.Join.{join_lines}
use wevibe_chain.Common.Dict.{get, insert}
use wevibe_chain.Common.Dict.Laws.{length-insert}
use wevibe_chain.Memory.Types.{MemoryCommitment}
use wevibe_chain.Memory.Validity.{get_approved_memory}
use wevibe_chain.Serve.Types.{DenialEntry, StoredServeReceipt}
use wevibe_chain.Serve.Store.{State, denial_fingerprint_key}
use wevibe_chain.Serve.Keeper.{
  has_denial_fingerprint, get_serve_receipt_by_fingerprint, increment_denial_count,
  update_epoch_denial_stats, store_denial_receipt, put_stats,
}
use wevibe_chain.Attestation.Types.{content_hash_to_hex}
use wevibe_chain.Serve.Canonical.{canonical_denial_body, compute_denial_fingerprint}
use wevibe_chain.Serve.Batch.{World, Outside}
use wevibe_chain.Serve.Denials.{
  DenialVerdict, DenialCounts, tally_denial, is_denial_signed, denial_fingerprint, judge_receipt,
  judge_denial, store_denial, denial_round, process_denials, put_denial_fingerprint,
}

-- The lines that a denial is signed over, with the nonce; without it they are what the fingerprint
-- of the denial hashes.
abbrev pub denial_lines : Text → ℕ → DenialEntry → Text → Text
denial_lines org epoch e nonce = join_lines (codes "wevibe-denial-v1") (
    org
    ∷ content_hash_to_hex e.memory_hash
    ∷ format_uint epoch
    ∷ content_hash_to_hex e.serve_key_pubkey
    ∷ content_hash_to_hex e.serve_fingerprint
    ∷ content_hash_to_hex nonce
    ∷ [])

rejected_one :
    (c : DenialCounts)
    → c.accepted + c.rejected + 1 ≤ uint64_max
    → c.accepted + add64 c.rejected 1 ≡ c.accepted + c.rejected + 1
rejected_one c fits = omega (arith, add64-eq-add c.rejected 1 (omega arith))

module _ {R : Type 0} (outside : Outside R) (org : Text) (epoch : ℕ) where
  -- A denial is accepted only with a key of 32 bytes and a signature of 64 that verifies for the key
  -- and the seven lines over the organisation, the memory, the epoch, the key, the serve and the
  -- nonce, where no denial with the fingerprint of those lines without the nonce is known, the serve
  -- has a receipt of the same memory and the same key, and the organisation has the memory.
  pub judge_denial_lem :
      (e : DenialEntry) (r : StoredServeReceipt) (w : World R)
      → judge_denial outside org epoch e w ≡ DenialVerdict.accept r
      → (length e.serve_key_pubkey ≡ 32)
        × (length e.serve_sig ≡ 64)
        × (outside.sdk.ed25519_verify e.serve_key_pubkey
              (denial_lines org epoch e e.nonce)
              e.serve_sig
            ≡ true)
        × (get
              (denial_fingerprint_key (outside.sha256 (denial_lines org epoch e [])))
              w.state.denial_fingerprints
            ≡ none)
        × (get_serve_receipt_by_fingerprint e.serve_fingerprint w.state ≡ some r)
        × (e.memory_hash ≡ r.memory_content_hash)
        × (e.serve_key_pubkey ≡ r.serve_key_pubkey)
        × ((m : MemoryCommitment) × (get_approved_memory org e.memory_hash w.memory ≡ ok m))
  unfolding judge_denial judge_receipt has_denial_fingerprint is_denial_signed canonical_denial_body
      denial_fingerprint compute_denial_fingerprint
  judge_denial_lem e r w h =
      elim (Option-cases (get_serve_receipt_by_fingerprint e.serve_fingerprint w.state)) [
        | inl missing ↦ ground arith
        | inr (q, found) ↦
            let same : q ≡ r = ground arith in
            elim (Result-cases (get_approved_memory org e.memory_hash w.memory)) [
              | inl (m, known) ↦ (
                ground arith,
                ground arith,
                ground arith,
                ground arith,
                found ∙ ap some same,
                ground (
                  arith,
                  text_eq→eq e.memory_hash q.memory_content_hash,
                  ap (λ (t : StoredServeReceipt). t.memory_content_hash) same,
                ),
                ground (
                  arith,
                  text_eq→eq e.serve_key_pubkey q.serve_key_pubkey,
                  ap (λ (t : StoredServeReceipt). t.serve_key_pubkey) same,
                ),
                (m, known),
              )
              | inr (x, unknown) ↦ ground arith
            ]
      ]

  store_denial-fingerprints :
      (e : DenialEntry) (r : StoredServeReceipt) (s : State)
      → (store_denial outside org epoch e r s).1.denial_fingerprints
        ≡ insert
            (denial_fingerprint_key (denial_fingerprint outside org epoch e))
            tt
            s.denial_fingerprints
  unfolding store_denial put_denial_fingerprint increment_denial_count update_epoch_denial_stats
      put_stats store_denial_receipt
  store_denial-fingerprints e r s = refl

  -- A round stores a new fingerprint exactly where it accepts, and counts its entry.
  denial_round-counts :
      (e : DenialEntry) (v : DenialVerdict) (c : DenialCounts) (w : World R)
      → judge_denial outside org epoch e w ≡ v
      → c.accepted + c.rejected + 1 ≤ uint64_max
      → ((tally_denial v c).accepted + (tally_denial v c).rejected ≡ c.accepted + c.rejected + 1)
        × (length (denial_round outside org epoch v e w).state.denial_fingerprints + c.accepted
            ≡ length w.state.denial_fingerprints + (tally_denial v c).accepted)
  unfolding tally_denial denial_round denial_fingerprint compute_denial_fingerprint
      canonical_denial_body
  denial_round-counts e (DenialVerdict.accept r) c w j fits =
      let fresh = (judge_denial_lem e r w j).3 in
      let grown =
        ap length (store_denial-fingerprints e r w.state)
        ∙ length-insert (denial_fingerprint_key (denial_fingerprint outside org epoch e)) tt
            w.state.denial_fingerprints fresh in
      let one = add64-eq-add c.accepted 1 (omega arith) in
      (omega (arith, one), omega (arith, one, grown))
  denial_round-counts e DenialVerdict.invalid_signature c w j fits = (rejected_one c fits, refl)
  denial_round-counts e DenialVerdict.duplicate_fingerprint c w j fits = (rejected_one c fits, refl)
  denial_round-counts e DenialVerdict.no_receipt c w j fits = (rejected_one c fits, refl)
  denial_round-counts e DenialVerdict.hash_mismatch c w j fits = (rejected_one c fits, refl)
  denial_round-counts e DenialVerdict.serve_key_mismatch c w j fits = (rejected_one c fits, refl)
  denial_round-counts e DenialVerdict.no_memory c w j fits = (rejected_one c fits, refl)

  -- A run over denials counts each of its entries once, as accepted or as rejected, and stores as
  -- many new fingerprints as it accepts, so that no denial is accepted twice.
  pub process_denials_lem :
      (l : List DenialEntry) (c : DenialCounts) (w : World R)
      → c.accepted + c.rejected + length l ≤ uint64_max
      → let (d, w') = process_denials outside org epoch l c w in
        (d.accepted + d.rejected ≡ c.accepted + c.rejected + length l)
        × (length w'.state.denial_fingerprints + c.accepted
            ≡ length w.state.denial_fingerprints + d.accepted)
  unfolding process_denials
  process_denials_lem [] c w fits = (omega arith, refl)
  process_denials_lem (e ∷ rest) c w fits =
      let v = judge_denial outside org epoch e w in
      let (one, here) = denial_round-counts e v c w refl (omega arith) in
      let (more, there) =
        process_denials_lem rest (tally_denial v c) (denial_round outside org epoch v e w)
          (omega (arith, one)) in
      (omega (arith, one, more), omega (arith, here, there))
