-- ===== src/Serve/Events.antt =====
-- Keeper.ProcessEventBatch and GetEventsForEpoch of x/serve/keeper/keeper.go.
use wevibe_chain.Common.{
  ℕ, ◌==◌, length, Result, Error, Action, not, List, [], ◌∷◌, Text, if◌then◌else◌, ok, err,
}
use wevibe_chain.Common.Dict.{get, insert, values}
use wevibe_chain.Common.Range.{range, prefix_end_bytes}
use wevibe_chain.Memory.Keeper.{is_some}
use wevibe_chain.Memory.Validity.{get_approved_memory}
use wevibe_chain.Serve.Store.{
  State, EventEntry, StoredEvent, event_key, event_prefix, event_fingerprint_key,
}
use wevibe_chain.Serve.Canonical.{canonical_event_body, compute_event_fingerprint}
use wevibe_chain.Serve.Batch.{World, Outside, Counts, Verdict, tally}

-- storedEventFromEntry
unfoldable pub stored_event_from_entry : Text → ℕ → EventEntry → Text → StoredEvent
stored_event_from_entry org epoch e f = record {
  org_id = org;
  epoch = epoch;
  event_type = e.event_type;
  memory_content_hash = e.memory_content_hash;
  signer_pubkey = e.signer_pubkey;
  nonce = e.nonce;
  signature = e.signature;
  fingerprint = f;
  body = e.body;
}

unfoldable pub put_event : StoredEvent → State → State
put_event v s = record s {
  events = insert (event_key v.org_id v.epoch v.fingerprint) v s.events;
  event_fingerprints = insert (event_fingerprint_key v.fingerprint) tt s.event_fingerprints;
}

module _ {R : Type 0} (outside : Outside R) (org : Text) (epoch : ℕ) where
  -- The tests of a round, and the fingerprint where the event has a canonical body. The size of the
  -- key is tested by the message's ValidateBasic only: ed25519.Verify panics for a key of another
  -- size.
  unfoldable pub judge_event : EventEntry → World R → Result (Verdict × Text)
  judge_event e w = elim (canonical_event_body org epoch e) [
    | err x ↦ ok (Verdict.invalid, [])
    | ok body ↦
        let f = compute_event_fingerprint outside.sha256 body in
        if not (length e.signer_pubkey == 32)
        then err Error.key_size_panic
        else (if not (outside.sdk.ed25519_verify e.signer_pubkey body e.signature)
            then ok (Verdict.invalid, f)
            else (if is_some (get (event_fingerprint_key f) w.state.event_fingerprints)
                then ok (Verdict.duplicate, f)
                else elim (get_approved_memory org e.memory_content_hash w.memory) [
                  | err x ↦ ok (Verdict.invalid, f)
                  | ok m ↦ ok (Verdict.accept, f)
                ]))
  ]

  unfoldable pub event_round : Verdict × Text → EventEntry → World R → World R
  unfolding put_event stored_event_from_entry
  event_round (Verdict.accept, f) e w = record w {
    state = put_event (stored_event_from_entry org epoch e f) w.state;
  }
  event_round (Verdict.duplicate, f) e w = w
  event_round (Verdict.invalid, f) e w = w

  -- Keeper.ProcessEventBatch: with a store that answers, only a panic ends the loop before its end.
  unfoldable pub process_event_batch : List EventEntry → Counts → Action (World R) Counts
  unfolding judge_event event_round tally
  process_event_batch [] c w = (ok c, w)
  process_event_batch (e ∷ rest) c w = elim (judge_event e w) [
    | err x ↦ (err x, w)
    | ok v ↦ process_event_batch rest (tally v.0 c) (event_round v e w)
  ]

-- GetEventsForEpoch
unfoldable pub get_events_for_epoch : Text → ℕ → State → List StoredEvent
get_events_for_epoch org epoch s =
    let prefix = event_prefix org epoch in values (range prefix (prefix_end_bytes prefix) s.events)
