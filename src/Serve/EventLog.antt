-- ===== src/Serve/EventLog.antt =====
-- The event log: every entry of a batch is accounted for, no event is recorded twice, and what is
-- recorded stays.
use wevibe_chain.Common.{
  ℕ, ◌+◌, ◌≤◌, ◌≡◌, ◌≢◌, refl, sym, ap, ◌∙◌, true, false, none, some, List, [], ◌∷◌, ◌++◌, Text,
  arith, codes, length, add64-eq-add, uint64_max, Option-cases, Result-cases, inl, inr,
  append_cancel_left, ok, err, Error, Bool-cases, All,
}
use wevibe_chain.Common.Decimal.{
  format_uint, format_uint-injective, format_uint-NoSlash, last_slash,
}
use wevibe_chain.Common.Dict.{get}
use wevibe_chain.Common.Dict.Laws.{length-insert, get-insert_ne}
use wevibe_chain.Attestation.Index.{content_hash_to_hex-injective, hex-NoSlash}
use wevibe_chain.Memory.Keeper.{is_some}
use wevibe_chain.Memory.Validity.{get_approved_memory}
use wevibe_chain.Serve.Store.{State, EventEntry, StoredEvent, event_key, event_fingerprint_key}
use wevibe_chain.Serve.Canonical.{canonical_event_body, compute_event_fingerprint}
use wevibe_chain.Serve.Batch.{World, Outside, Counts, Verdict, tally}
use wevibe_chain.Serve.Replay.{counted, tally-counted}
use wevibe_chain.Serve.Events.{
  judge_event, event_round, process_event_batch, put_event, stored_event_from_entry,
}

event_fingerprint_key-injective :
    (f g : Text) → event_fingerprint_key f ≡ event_fingerprint_key g → f ≡ g
unfolding event_fingerprint_key
event_fingerprint_key-injective f g h =
    content_hash_to_hex-injective f g (append_cancel_left (codes "eventfp/") h)

-- A key of the log belongs to one organisation, one epoch and one fingerprint.
pub event_key-injective :
    (o p : Text) (m n : ℕ) (f g : Text)
    → event_key o m f ≡ event_key p n g
    → (o ≡ p) × (m ≡ n) × (f ≡ g)
unfolding event_key
event_key-injective o p m n f g e =
    let (start, hex) =
      last_slash (o ++ (47 ∷ format_uint m)) (p ++ (47 ∷ format_uint n)) _ _ (hex-NoSlash f)
        (hex-NoSlash g) (append_cancel_left (codes "event/") e) in
    let (same, digits) = last_slash o p _ _ (format_uint-NoSlash m) (format_uint-NoSlash n) start in
    (same, format_uint-injective m n digits, content_hash_to_hex-injective f g hex)

-- The event stands in the log, and its fingerprint is known.
pub record IsRecorded (o : Text) (n : ℕ) (f : Text) (v : StoredEvent) (s : State) : Type 0 where
  pub logged : get (event_key o n f) s.events ≡ some v
  pub known : is_some (get (event_fingerprint_key f) s.event_fingerprints) ≡ true

module _ {R : Type 0} (outside : Outside R) (org : Text) (epoch : ℕ) where
  judged_new :
      (e : EventEntry) (f : Text) (w : World R)
      → judge_event outside org epoch e w ≡ ok (Verdict.accept, f)
      → is_some (get (event_fingerprint_key f) w.state.event_fingerprints) ≡ false
  unfolding judge_event
  judged_new e f w h = elim (Result-cases (canonical_event_body org epoch e)) [
    | inl (body, b) ↦
        let g = compute_event_fingerprint outside.sha256 body in
        elim (Result-cases (get_approved_memory org e.memory_content_hash w.memory)) [
          | inl (m, known) ↦
              let same : g ≡ f = ground arith in
              let new : is_some (get (event_fingerprint_key g) w.state.event_fingerprints) ≡ false =
                ground arith in
              ap (λ (t : Text). is_some (get (event_fingerprint_key t) w.state.event_fingerprints))
                (sym same)
              ∙ new
          | inr (x, unknown) ↦ ground arith
        ]
    | inr (x, b) ↦ ground arith
  ]

  fresh :
      (k : Text) (w : World R)
      → is_some (get k w.state.event_fingerprints) ≡ false
      → get k w.state.event_fingerprints ≡ none
  fresh k w h = elim (Option-cases (get k w.state.event_fingerprints)) [
    | inl e ↦ e
    | inr (u, e) ↦ ground arith
  ]

  event_round-length :
      (e : EventEntry) (v : Verdict) (f : Text) (c : Counts) (w : World R)
      → judge_event outside org epoch e w ≡ ok (v, f)
      → counted c + 1 ≤ uint64_max
      → length (event_round outside org epoch (v, f) e w).state.event_fingerprints + c.accepted
        ≡ length w.state.event_fingerprints + (tally v c).accepted
  unfolding event_round put_event stored_event_from_entry tally counted
  event_round-length e Verdict.accept f c w j fits = omega (
    arith,
    length-insert (event_fingerprint_key f) tt w.state.event_fingerprints
        (fresh (event_fingerprint_key f) w (judged_new e f w j)),
    add64-eq-add c.accepted 1 (omega arith),
  )
  event_round-length e Verdict.duplicate f c w j fits = refl
  event_round-length e Verdict.invalid f c w j fits = refl

  -- With a key of 32 bytes no round panics.
  judge_event-judged :
      (e : EventEntry) (w : World R)
      → length e.signer_pubkey ≡ 32
      → (v : Verdict) × (f : Text) × (judge_event outside org epoch e w ≡ ok (v, f))
  unfolding judge_event
  judge_event-judged e w size = elim (Result-cases (canonical_event_body org epoch e)) [
    | inr (x, b) ↦ (Verdict.invalid, [], ground arith)
    | inl (body, b) ↦
        let f = compute_event_fingerprint outside.sha256 body in
        elim (Bool-cases (outside.sdk.ed25519_verify e.signer_pubkey body e.signature)) [
          | inr forged ↦ (Verdict.invalid, f, ground arith)
          | inl signed ↦
              elim (Bool-cases
                (is_some (get (event_fingerprint_key f) w.state.event_fingerprints))) [
                  | inl known ↦ (Verdict.duplicate, f, ground arith)
                  | inr new ↦
                      elim (Result-cases (get_approved_memory org e.memory_content_hash w.memory)) [
                        | inl (m, found) ↦ (Verdict.accept, f, ground arith)
                        | inr (x, missing) ↦ (Verdict.invalid, f, ground arith)
                      ]
                ]
        ]
  ]

  -- A round that is judged goes on with the rest, and one that panics ends the loop.
  batch_goes_on :
      (e : EventEntry) (rest : List EventEntry) (c : Counts) (w : World R) (v : Verdict) (f : Text)
      → judge_event outside org epoch e w ≡ ok (v, f)
      → process_event_batch outside org epoch (e ∷ rest) c w
        ≡ process_event_batch outside org epoch rest
            (tally v c)
            (event_round outside org epoch (v, f) e w)
  unfolding process_event_batch
  batch_goes_on e rest c w v f h = ground arith

  batch_panics :
      (e : EventEntry) (rest : List EventEntry) (c : Counts) (w : World R) (x : Error)
      → judge_event outside org epoch e w ≡ err x
      → process_event_batch outside org epoch (e ∷ rest) c w ≡ (err x, w)
  unfolding process_event_batch
  batch_panics e rest c w x h = ground arith

  -- A batch of events whose signers' keys have 32 bytes, as ValidateBasic demands, where the counts
  -- stay within 64 bits, succeeds: it answers for each of its entries whether it was accepted, a
  -- duplicate or invalid, and stores as many new fingerprints as it accepts, so that no event is
  -- recorded twice.
  pub process_event_batch_lem :
      (l : List EventEntry) (c : Counts) (w : World R)
      → All (λ e. length e.signer_pubkey ≡ 32) l
      → c.accepted + (c.rejected_duplicate + c.rejected_invalid) + length l ≤ uint64_max
      → let (r, w') = process_event_batch outside org epoch l c w in
        (d : Counts) × (r ≡ ok d)
        × (d.accepted + (d.rejected_duplicate + d.rejected_invalid)
            ≡ c.accepted + (c.rejected_duplicate + c.rejected_invalid) + length l)
        × (length w'.state.event_fingerprints + c.accepted
            ≡ length w.state.event_fingerprints + d.accepted)
  unfolding process_event_batch counted
  process_event_batch_lem [] c w sizes fits = (c, refl, omega arith, refl)
  process_event_batch_lem (e ∷ rest) c w sizes fits =
      let (v, f, judged) = judge_event-judged e w sizes.0 in
      let one = tally-counted v c (omega arith) in
      let here = event_round-length e v f c w judged (omega arith) in
      let (d, done, more, there) =
        process_event_batch_lem rest (tally v c) (event_round outside org epoch (v, f) e w) sizes.1
          (omega (arith, one)) in
      rw (batch_goes_on e rest c w v f judged)
        (d, done, omega (arith, one, more), omega (arith, here, there))

  put_event-IsRecorded :
      (o f g : Text) (n : ℕ) (v : StoredEvent) (e : EventEntry) (s : State)
      → is_some (get (event_fingerprint_key g) s.event_fingerprints) ≡ false
      → IsRecorded o n f v s
      → IsRecorded o n f v (put_event (stored_event_from_entry org epoch e g) s)
  unfolding put_event stored_event_from_entry
  put_event-IsRecorded o f g n v e s new h =
      let apart : f ≢ g = λ eq. cc (
        new,
        h.known,
        ap (λ (t : Text). is_some (get (event_fingerprint_key t) s.event_fingerprints)) eq,
      ) in
      record {
        logged =
            get-insert_ne (event_key o n f) (event_key org epoch g)
              (stored_event_from_entry org epoch e g) s.events
              (λ eq. apart (event_key-injective o org n epoch f g eq).2)
            ∙ h.logged;
        known =
            ap is_some (
              get-insert_ne (event_fingerprint_key f) (event_fingerprint_key g) tt
                s.event_fingerprints (λ eq. apart (event_fingerprint_key-injective f g eq)))
            ∙ h.known;
      }

  event_round-IsRecorded :
      (o f g : Text) (n : ℕ) (v : StoredEvent) (e : EventEntry) (j : Verdict) (w : World R)
      → judge_event outside org epoch e w ≡ ok (j, g)
      → IsRecorded o n f v w.state
      → IsRecorded o n f v (event_round outside org epoch (j, g) e w).state
  unfolding event_round
  event_round-IsRecorded o f g n v e Verdict.accept w judged h =
      put_event-IsRecorded o f g n v e w.state (judged_new e g w judged) h
  event_round-IsRecorded o f g n v e Verdict.duplicate w judged h = h
  event_round-IsRecorded o f g n v e Verdict.invalid w judged h = h

  -- The log is append-only: an event that is recorded under its organisation, epoch and fingerprint
  -- is still recorded there, unchanged, after any batch of events of any organisation.
  pub process_event_batch-IsRecorded :
      (l : List EventEntry) (c : Counts) (w : World R) (o f : Text) (n : ℕ) (v : StoredEvent)
      → IsRecorded o n f v w.state
      → IsRecorded o n f v (process_event_batch outside org epoch l c w).1.state
  unfolding process_event_batch
  process_event_batch-IsRecorded [] c w o f n v h = h
  process_event_batch-IsRecorded (e ∷ rest) c w o f n v h =
      elim (Result-cases (judge_event outside org epoch e w)) [
        | inr (x, panics) ↦ rw (batch_panics e rest c w x panics) h
        | inl ((j, g), judged) ↦ rw (batch_goes_on e rest c w j g judged) (
            process_event_batch-IsRecorded rest (tally j c)
              (event_round outside org epoch (j, g) e w) o f n v
              (event_round-IsRecorded o f g n v e j w judged h))
      ]
