-- ===== src/Serve/Denials.antt =====
-- The loop of MsgServer.SubmitDenialBatch in x/serve/keeper/msg_server.go. The counters of each kind
-- of rejection are only logged, so the verdict keeps the kind and the count its sum.
use wevibe_chain.Common.{
  ℕ, ◌==◌, not, ◌&&◌, Bool, none, some, List, [], ◌∷◌, Text, text_eq, length, add64, if◌then◌else◌,
  ok, err, Action, modify, ◌>>◌,
}
use wevibe_chain.Common.Dict.{insert}
use wevibe_chain.Memory.Validity.{get_approved_memory}
use wevibe_chain.Serve.Types.{DenialEntry, StoredServeReceipt}
use wevibe_chain.Serve.Store.{State, denial_fingerprint_key}
use wevibe_chain.Serve.Canonical.{canonical_denial_body, compute_denial_fingerprint}
use wevibe_chain.Serve.Keeper.{
  has_denial_fingerprint, get_serve_receipt_by_fingerprint, increment_denial_count,
  update_epoch_denial_stats, store_denial_receipt,
}
use wevibe_chain.Serve.Batch.{World, Outside}

pub data DenialVerdict : Type 0 where
  accept : StoredServeReceipt → DenialVerdict
  invalid_signature duplicate_fingerprint no_receipt hash_mismatch : DenialVerdict
  serve_key_mismatch no_memory : DenialVerdict

pub record DenialCounts : Type 0 where
  pub accepted : ℕ
  pub rejected : ℕ

unfoldable pub tally_denial : DenialVerdict → DenialCounts → DenialCounts
tally_denial (DenialVerdict.accept r) c = record c { accepted = add64 c.accepted 1 }
tally_denial DenialVerdict.invalid_signature c = record c { rejected = add64 c.rejected 1 }
tally_denial DenialVerdict.duplicate_fingerprint c = record c { rejected = add64 c.rejected 1 }
tally_denial DenialVerdict.no_receipt c = record c { rejected = add64 c.rejected 1 }
tally_denial DenialVerdict.hash_mismatch c = record c { rejected = add64 c.rejected 1 }
tally_denial DenialVerdict.serve_key_mismatch c = record c { rejected = add64 c.rejected 1 }
tally_denial DenialVerdict.no_memory c = record c { rejected = add64 c.rejected 1 }

module _ {R : Type 0} (outside : Outside R) (org : Text) (epoch : ℕ) where
  unfoldable pub is_denial_signed : DenialEntry → Bool
  is_denial_signed e =
      (length e.serve_key_pubkey == 32 && length e.serve_sig == 64)
      && outside.sdk.ed25519_verify e.serve_key_pubkey
          (canonical_denial_body org e.memory_hash epoch e.serve_key_pubkey e.serve_fingerprint
            e.nonce)
          e.serve_sig

  unfoldable pub denial_fingerprint : DenialEntry → Text
  denial_fingerprint e =
      compute_denial_fingerprint outside.sha256 org e.memory_hash epoch e.serve_key_pubkey
        e.serve_fingerprint

  -- The tests from the receipt on.
  unfoldable pub judge_receipt : DenialEntry → StoredServeReceipt → World R → DenialVerdict
  judge_receipt e r w =
      if not (text_eq e.memory_hash r.memory_content_hash)
      then DenialVerdict.hash_mismatch
      else (if not (text_eq e.serve_key_pubkey r.serve_key_pubkey)
          then DenialVerdict.serve_key_mismatch
          else elim (get_approved_memory org e.memory_hash w.memory) [
            | err x ↦ DenialVerdict.no_memory
            | ok m ↦ DenialVerdict.accept r
          ])

  unfoldable pub judge_denial : DenialEntry → World R → DenialVerdict
  unfolding is_denial_signed denial_fingerprint judge_receipt
  judge_denial e w =
      if not (is_denial_signed e)
      then DenialVerdict.invalid_signature
      else (if has_denial_fingerprint (denial_fingerprint e) w.state
          then DenialVerdict.duplicate_fingerprint
          else elim (get_serve_receipt_by_fingerprint e.serve_fingerprint w.state) [
            | none ↦ DenialVerdict.no_receipt
            | some r ↦ judge_receipt e r w
          ])

  unfoldable pub put_denial_fingerprint : DenialEntry → State → State
  unfolding denial_fingerprint
  put_denial_fingerprint e s = record s {
    denial_fingerprints =
        insert (denial_fingerprint_key (denial_fingerprint e)) tt s.denial_fingerprints;
  }

  -- The writes of a round that accepts.
  unfoldable pub store_denial : DenialEntry → StoredServeReceipt → Action State (Unit {0})
  unfolding put_denial_fingerprint
  store_denial e r = do
    modify (put_denial_fingerprint e)
    increment_denial_count org r.memory_content_hash epoch
    update_epoch_denial_stats org epoch
    store_denial_receipt org epoch (denial_fingerprint e) e

  unfoldable pub denial_round : DenialVerdict → DenialEntry → World R → World R
  unfolding store_denial
  denial_round (DenialVerdict.accept r) e w = record w { state = (store_denial e r w.state).1 }
  denial_round DenialVerdict.invalid_signature e w = w
  denial_round DenialVerdict.duplicate_fingerprint e w = w
  denial_round DenialVerdict.no_receipt e w = w
  denial_round DenialVerdict.hash_mismatch e w = w
  denial_round DenialVerdict.serve_key_mismatch e w = w
  denial_round DenialVerdict.no_memory e w = w

  -- The loop. StoreDenialReceipt fails only where its encoding does, so no round ends it.
  unfoldable pub process_denials :
      List DenialEntry → DenialCounts → World R → DenialCounts × World R
  unfolding judge_denial denial_round tally_denial
  process_denials [] c w = (c, w)
  process_denials (e ∷ rest) c w =
      let v = judge_denial e w in process_denials rest (tally_denial v c) (denial_round v e w)
