-- ===== src/Memory/Tests.antt =====
-- Runs and instances for x/memory, with peers that know one organisation and keep one number.
use wevibe_chain.Common.{
  ℕ, ◌+◌, ◌≤◌, ◌<◌, ◌≡◌, refl, true, false, none, some, [], ◌∷◌, ◌++◌, Text, codes, text_eq, ok,
  err, Error, arith, uint64_max, add64, length, is_empty, All, if◌then◌else◌,
}
use wevibe_chain.Common.Dict.{get, insert, values, IsSorted}
use wevibe_chain.Common.Dict.Laws.{amount}
use wevibe_chain.Common.Range.{range}
use wevibe_chain.Attestation.Types.{content_hash_to_hex, hex_digit}
use wevibe_chain.Common.Dict.Rebuild.{IsKeyed}
use wevibe_chain.Memory.Pending.{count_under, own_report_key}
use wevibe_chain.Memory.Types.{
  PendingCommitment, StoredMemoryReport, default_params, empty_state, validate_pending, pending_key,
  pending_prefix, approved_key, report_key, count_key, valid_memory_type,
}
use wevibe_chain.Memory.Keeper.{
  Peers, World, Approval, submit_commitment, approve_memory, approved_memory, get_params,
  get_current_epoch, pending_count, get_contributors_with_approvals_in_epoch, commit_memory,
  credit_peers, put_pending, exceeds_limit,
}
use wevibe_chain.Memory.Approvals.{occurrences}
use wevibe_chain.Memory.Commit.{
  approve_memory_lem, approve_memory_counts, submit_commitment_lem, submit_blocked_by_reports,
}

abbrev counting : Peers ℕ
counting = record {
  has_org = λ o p. ok (text_eq o (codes "org"));
  is_leader = λ o who p. ok (text_eq who (codes "lea"));
  increment_org_committed_memories = λ o p. ok (p + 1);
  set_org_last_activity_epoch = λ o e p. ok p;
  increment_contribution = λ c o m p. ok (p + 10);
  increment_leader_chain_commit = λ l o p. ok (p + 100);
}

abbrev pub two : Text
two = 7 ∷ 8 ∷ []

abbrev pub eight : Text
eight = two ++ (two ++ (two ++ two))

abbrev pub hash : Text
hash = eight ++ (eight ++ (eight ++ eight))

abbrev pub offered : PendingCommitment
offered = record {
  org_id = codes "org";
  content_hash = hash;
  keywords = codes "go" ∷ [];
  contributor = codes "con";
  contributor_address = [];
  producer_model_id = [];
  attestation_session_hash = [];
  epoch = 0;
  submitted_at = 0;
  memory_type = 1;
  mc_version = 1;
}

abbrev opened : World ℕ
opened = record { state = record empty_state { current_epoch = some 5 }; peers = 0 }

offered_accepted : (submit_commitment counting offered opened).0 ≡ ok tt
unfolding submit_commitment validate_pending text_eq pending_count pending_prefix range get_params
    default_params get put_pending
offered_accepted = refl

submit_commitment_lem_example :
    (is_empty (codes "org") ≡ false)
    × (length hash ≡ 32)
    × (is_empty (codes "con") ≡ false)
    × (offered.memory_type ≡ 1)
    × All (λ k. is_empty k ≡ false) (codes "go" ∷ [])
    × (counting.has_org (codes "org") 0 ≡ ok true)
    × (get (pending_key (codes "org") hash) opened.state.pendings ≡ none)
    × (count_under (pending_prefix (codes "org")) opened.state.pendings
        < (get_params opened.state).max_pending_per_org)
    × (get
          (pending_key (codes "org") hash)
          (submit_commitment counting offered opened).1.state.pendings
        ≡ some offered)
submit_commitment_lem_example = submit_commitment_lem counting offered opened offered_accepted

abbrev waiting : World ℕ
waiting = record {
  state = record empty_state {
    current_epoch = some 5;
    pendings = insert (pending_key (codes "org") hash) offered [];
  };
  peers = 0;
}

abbrev pub approval : Approval
approval = record {
  org_id = codes "org";
  content_hash = hash;
  encrypted_blob = two;
  committing_leader = codes "lea";
  wrapped_dek_enc = [];
  plaintext_hash = [];
  salt = [];
  ciphertext_hash = [];
  wrapped_dek_hash = [];
  contributor_sig = [];
}

approval_accepted : (approve_memory counting approval 1 waiting).0 ≡ ok tt
unfolding approve_memory text_eq get_params default_params get insert pending_key
    content_hash_to_hex commit_memory credit_peers valid_memory_type exceeds_limit
approval_accepted = refl

waiting_found : get (pending_key (codes "org") hash) waiting.state.pendings ≡ some offered
unfolding get insert pending_key content_hash_to_hex text_eq
waiting_found = refl

waiting-IsSorted : IsSorted waiting.state.pendings
unfolding insert
waiting-IsSorted = tt

approve_memory_lem_example :
    let s' = (approve_memory counting approval 1 waiting).1.state in
    (counting.is_leader (codes "org") (codes "lea") 0 ≡ ok true)
    × (get (approved_key (codes "org") hash) waiting.state.memories ≡ none)
    × ((pending : PendingCommitment) × (get (pending_key (codes "org") hash) waiting.state.pendings
          ≡ some pending)
        × (get (approved_key (codes "org") hash) s'.memories
            ≡ some (approved_memory approval 1 (get_current_epoch waiting.state) pending)))
    × (get (pending_key (codes "org") hash) s'.pendings ≡ none)
    × (amount (get (count_key (codes "org")) s'.counts)
        ≡ add64 (amount (get (count_key (codes "org")) waiting.state.counts)) 1)
approve_memory_lem_example =
    approve_memory_lem counting approval 1 waiting waiting-IsSorted approval_accepted

none_counted :
    occurrences (get_current_epoch waiting.state) (codes "con") (values waiting.state.memories)
    < uint64_max
unfolding occurrences
none_counted = omega arith

approve_memory_counts_example :
    let epoch = get_current_epoch waiting.state in
    let s' = (approve_memory counting approval 1 waiting).1.state in
    amount (get (codes "con") (get_contributors_with_approvals_in_epoch epoch s'))
    ≡ amount (get (codes "con") (get_contributors_with_approvals_in_epoch epoch waiting.state))
      + (if text_eq (codes "con") (codes "con") then 1 else 0)
approve_memory_counts_example =
    approve_memory_counts counting approval 1 waiting offered (codes "con") approval_accepted
      waiting_found refl none_counted

abbrev report : StoredMemoryReport
report = record {
  org_id = codes "aaa";
  content_hash = two;
  contributor_pubkey = [];
  approving_moderators = [];
  upholding_moderators = [];
  reporter_pubkey = codes "r";
  committing_leader_pubkey = [];
  reason = [];
  plaintext = [];
  ciphertext = [];
  capsule = [];
  plaintext_hash = [];
  plaintext_oversized = false;
  upheld_at_epoch = 1;
  upheld_at_timestamp = 0;
}

-- One report of another organisation, and a limit of one pending commitment.
abbrev reported : World ℕ
reported = record {
  state = record empty_state {
    params = some (record default_params { max_pending_per_org = 1 });
    reports = (codes "report/aaa/0708/r", report) ∷ [];
  };
  peers = 0;
}

reported-IsKeyed : IsKeyed own_report_key reported.state.reports
unfolding report_key content_hash_to_hex hex_digit
reported-IsKeyed = (refl, tt)

reports_fill : (get_params reported.state).max_pending_per_org ≤ length reported.state.reports
unfolding get_params
reports_fill = omega arith

submit_blocked_by_reports_example :
    (e : Error) × (submit_commitment counting offered reported ≡ (err e, reported))
submit_blocked_by_reports_example =
    submit_blocked_by_reports counting offered reported reported-IsKeyed reports_fill
