-- ===== src/Memory/Commit.antt =====
-- What a submission and an approval do: who may approve, what is stored, and what the contributor's
-- approvals become.
use wevibe_chain.Common.{
  ℕ, ◌+◌, ◌≤◌, ◌<◌, ◌≡◌, sym, ap, ◌∙◌, true, false, none, some, [], Text, arith, length, uint64_max,
  add64, ok, err, Error, Option-cases, Result-cases, Bool-cases, All, List, ◌∷◌, inl, inr, text_eq,
  text_eq→eq, is_empty, if◌then◌else◌,
}
use wevibe_chain.Common.Dict.{get, values, IsSorted}
use wevibe_chain.Common.Dict.Laws.{amount, get-insert_self, get-erase_self}
use wevibe_chain.Common.Dict.Rebuild.{IsKeyed}
use wevibe_chain.Memory.Types.{
  pending_prefix, State, PendingCommitment, MemoryCommitment, MemoryType, validate_pending,
  validate_keywords, valid_memory_type, pending_key, approved_key, count_key,
}
use wevibe_chain.Memory.Keeper.{
  Peers, World, Approval, submit_commitment, approve_memory, approved_memory, commit_memory,
  credit_peers, get_params, get_current_epoch, get_contributors_with_approvals_in_epoch,
}
use wevibe_chain.Memory.Pending.{
  count_under, own_report_key, pending_count-bound, count_under-le-pending_count,
}
use wevibe_chain.Memory.Approvals.{committed_one, weight, occurrences, approvals-insert}

validated_keywords : (l : List Text) → validate_keywords l ≡ ok tt → All (λ k. is_empty k ≡ false) l
unfolding validate_keywords
validated_keywords [] h = tt
validated_keywords (k ∷ rest) h = (ground arith, validated_keywords rest (ground arith))

module _ {P : Type 0} (peers : Peers P) where
  -- The other keepers' calls leave the module's own store.
  credit_peers-state :
      (m : MemoryCommitment) (w : World P) → (credit_peers peers m w).1.state ≡ w.state
  unfolding credit_peers
  credit_peers-state m w = ground arith

  -- A successful approval comes from a leader of the organisation, finds the commitment pending and
  -- no memory under its hash, and leaves the store that the commitment makes.
  pub record IsApproved (a : Approval) (t : MemoryType) (w w' : World P) : Type 0 where
    pub leads : peers.is_leader a.org_id a.committing_leader w.peers ≡ ok true
    pub pending : PendingCommitment
    pub found : get (pending_key a.org_id a.content_hash) w.state.pendings ≡ some pending
    pub fresh : get (approved_key a.org_id a.content_hash) w.state.memories ≡ none
    pub state :
        w'.state
        ≡ (commit_memory (approved_memory a t (get_current_epoch w.state) pending) w.state).1

  pub approve_inversion :
      (a : Approval) (t : MemoryType) (w : World P)
      → (approve_memory peers a t w).0 ≡ ok tt
      → IsApproved a t w (approve_memory peers a t w).1
  unfolding approve_memory commit_memory
  approve_inversion a t w h =
      elim (Option-cases (get (pending_key a.org_id a.content_hash) w.state.pendings)) [
        | inl missing ↦ ground arith
        | inr (p, e) ↦ record {
          leads = ground arith;
          pending = p;
          found = e;
          fresh = ground arith;
          state =
              let m = approved_memory a t (get_current_epoch w.state) p in
              ground
                (arith, credit_peers-state m (record w { state = (commit_memory m w.state).1 }));
        }
      ]

  -- A successful approval comes from a leader of the organisation. It finds the commitment pending,
  -- stores the memory made of it where there was none, takes it off the pending ones, and adds one
  -- to the organisation's count, modulo 2^64.
  pub approve_memory_lem :
      (a : Approval) (t : MemoryType) (w : World P)
      → IsSorted w.state.pendings
      → (approve_memory peers a t w).0 ≡ ok tt
      → let s' = (approve_memory peers a t w).1.state in
        (peers.is_leader a.org_id a.committing_leader w.peers ≡ ok true)
        × (get (approved_key a.org_id a.content_hash) w.state.memories ≡ none)
        × ((pending : PendingCommitment) × (get
                (pending_key a.org_id a.content_hash)
                w.state.pendings
              ≡ some pending)
            × (get (approved_key a.org_id a.content_hash) s'.memories
                ≡ some (approved_memory a t (get_current_epoch w.state) pending)))
        × (get (pending_key a.org_id a.content_hash) s'.pendings ≡ none)
        × (amount (get (count_key a.org_id) s'.counts)
            ≡ add64 (amount (get (count_key a.org_id) w.state.counts)) 1)
  unfolding commit_memory approved_memory
  approve_memory_lem a t w sorted h =
      let i = approve_inversion a t w h in
      let m = approved_memory a t (get_current_epoch w.state) i.pending in
      let more = add64 (amount (get (count_key a.org_id) w.state.counts)) 1 in
      (
        i.leads,
        i.fresh,
        (
          i.pending,
          i.found,
          ap (λ (s : State). get (approved_key a.org_id a.content_hash) s.memories) i.state
              ∙ get-insert_self (approved_key a.org_id a.content_hash) m w.state.memories,
        ),
        ap (λ (s : State). get (pending_key a.org_id a.content_hash) s.pendings) i.state
            ∙ get-erase_self (pending_key a.org_id a.content_hash) w.state.pendings sorted,
        ap (λ (s : State). amount (get (count_key a.org_id) s.counts)) i.state
            ∙ ap amount (get-insert_self (count_key a.org_id) more w.state.counts),
      )

  weight_approved :
      (a : Approval) (t : MemoryType) (epoch : ℕ) (p : PendingCommitment) (q : Text)
      → is_empty p.contributor ≡ false
      → weight epoch q (approved_memory a t epoch p) ≡ (if text_eq q p.contributor then 1 else 0)
  unfolding weight approved_memory committed_one
  weight_approved a t epoch p q h = ground (arith, text_eq→eq q p.contributor, ap is_empty)

  -- A successful approval of a commitment with a contributor adds one to the approvals of that
  -- contributor in the current epoch, as the emissions keeper reads them, and none to another's,
  -- where the number so far is below 2^64 - 1.
  pub approve_memory_counts :
      (a : Approval) (t : MemoryType) (w : World P) (p : PendingCommitment) (q : Text)
      → (approve_memory peers a t w).0 ≡ ok tt
      → get (pending_key a.org_id a.content_hash) w.state.pendings ≡ some p
      → is_empty p.contributor ≡ false
      → occurrences (get_current_epoch w.state) q (values w.state.memories) < uint64_max
      → let epoch = get_current_epoch w.state in
        let s' = (approve_memory peers a t w).1.state in
        amount (get q (get_contributors_with_approvals_in_epoch epoch s'))
        ≡ amount (get q (get_contributors_with_approvals_in_epoch epoch w.state))
          + (if text_eq q p.contributor then 1 else 0)
  unfolding commit_memory approved_memory
  approve_memory_counts a t w p q h found named fits =
      let i = approve_inversion a t w h in
      let epoch = get_current_epoch w.state in
      let same : i.pending ≡ p = cc (sym i.found ∙ found) in
      let s' = (approve_memory peers a t w).1.state in
      let m = approved_memory a t epoch i.pending in
      let one =
        ap (λ (r : PendingCommitment). weight epoch q (approved_memory a t epoch r)) same
        ∙ weight_approved a t epoch p q named in
      let small : (if text_eq q p.contributor then 1 else 0) ≤ 1 = ground arith in
      omega (
        arith,
        one,
        small,
        approvals-insert epoch q (approved_key a.org_id a.content_hash) m w.state s' i.fresh
            (ap (λ (s : State). s.memories) i.state) (omega (arith, one, small)),
      )

  -- A successful submission is of a commitment with an organisation that is known, a hash of 32
  -- bytes, a contributor, the one type of memory, and keywords that are not empty. Its key was free,
  -- fewer commitments than the limit were pending for its organisation, and it is the one that is
  -- then pending under its key.
  pub submit_commitment_lem :
      (c : PendingCommitment) (w : World P)
      → (submit_commitment peers c w).0 ≡ ok tt
      → (is_empty c.org_id ≡ false)
        × (length c.content_hash ≡ 32)
        × (is_empty c.contributor ≡ false)
        × (c.memory_type ≡ 1)
        × All (λ k. is_empty k ≡ false) c.keywords
        × (peers.has_org c.org_id w.peers ≡ ok true)
        × (get (pending_key c.org_id c.content_hash) w.state.pendings ≡ none)
        × (count_under (pending_prefix c.org_id) w.state.pendings
            < (get_params w.state).max_pending_per_org)
        × (get (pending_key c.org_id c.content_hash) (submit_commitment peers c w).1.state.pendings
            ≡ some c)
  unfolding submit_commitment validate_pending valid_memory_type
  submit_commitment_lem c w h = (
    ground arith,
    ground arith,
    ground arith,
    ground arith,
    validated_keywords c.keywords (ground arith),
    ground arith,
    ground arith,
    ground (arith, count_under-le-pending_count c.org_id w.state),
    ground (arith, get-insert_self (pending_key c.org_id c.content_hash) c w.state.pendings),
  )

  -- A flaw: once a store has as many reports, of whatever organisations, each under its own key, as an
  -- organisation may have pending commitments, every submission to any organisation fails and changes nothing.
  pub submit_blocked_by_reports :
      (c : PendingCommitment) (w : World P)
      → IsKeyed own_report_key w.state.reports
      → (get_params w.state).max_pending_per_org ≤ length w.state.reports
      → ((e : Error) × (submit_commitment peers c w ≡ (err e, w)))
  unfolding submit_commitment
  submit_blocked_by_reports c w keyed full =
      let bound = pending_count-bound c.org_id w.state keyed in
      elim (Result-cases (validate_pending c)) [
        | inr (x, invalid) ↦ (x, ground arith)
        | inl (u, valid) ↦ elim (Result-cases (peers.has_org c.org_id w.peers)) [
          | inr (x, unanswered) ↦ (x, ground arith)
          | inl (known, answered) ↦ elim (Bool-cases known) [
            | inr unknown ↦ (Error.org_not_found, ground arith)
            | inl there ↦
                elim (Option-cases (get (pending_key c.org_id c.content_hash) w.state.pendings)) [
                  | inr (p, taken) ↦ (Error.commitment_exists, ground arith)
                  | inl free ↦ (Error.max_pending_exceeded, ground (arith, bound))
                ]
          ]
        ]
      ]
