-- ===== src/Memory/Pending.antt =====
-- What the iterator of SubmitCommitment passes over: it starts at the commitments of one
-- organisation and has no end.
use wevibe_chain.Common.{
  ℕ, suc, ◌+◌, ◌≤◌, ◌≡◌, refl, ap, ◌∙◌, true, false, none, [], ◌∷◌, Text, arith, length, text_lt,
  if◌then◌else◌,
}
use wevibe_chain.Common.Dict.{Dict}
use wevibe_chain.Common.Dict.Rebuild.{IsKeyed}
use wevibe_chain.Common.Range.{range, in_range, is_below, has_prefix}
use wevibe_chain.Memory.Types.{State, StoredMemoryReport, pending_prefix, report_key}
use wevibe_chain.Memory.Keeper.{pending_count}

-- The number of the entries whose keys start with the prefix.
unfoldable pub count_under : {V : Type 0} → Text → Dict V → ℕ
count_under p [] = 0
count_under p ((k, v) ∷ d) = let rest = count_under p d in if has_prefix p k then suc rest else rest

-- The key that ReportMemory stores a report under.
abbrev pub own_report_key : StoredMemoryReport → Text
own_report_key r = report_key r.org_id r.content_hash r.reporter_pubkey

prefix_not_below : (p k : Text) → has_prefix p k ≡ true → text_lt k p ≡ false
unfolding has_prefix text_lt
prefix_not_below [] k h = refl
prefix_not_below (c ∷ p) [] h = ground arith
prefix_not_below (c ∷ p) (d ∷ k) h = ground (arith, prefix_not_below p k)

count_under-le-range :
    {V : Type 0} (p : Text) (d : Dict V) → count_under p d ≤ length (range p none d)
unfolding count_under range in_range is_below
count_under-le-range p [] = omega arith
count_under-le-range p ((k, v) ∷ d) = ground (arith, count_under-le-range p d, prefix_not_below p k)

report_in_range :
    (org : Text) (r : StoredMemoryReport)
    → in_range (pending_prefix org) none (own_report_key r) ≡ true
unfolding in_range is_below pending_prefix report_key text_lt
report_in_range org r = refl

-- Every report stands behind every pending commitment.
reports_in_range :
    (org : Text) (d : Dict StoredMemoryReport)
    → IsKeyed own_report_key d
    → length (range (pending_prefix org) none d) ≡ length d
unfolding range
reports_in_range org [] h = refl
reports_in_range org ((k, r) ∷ d) h =
    let here = ap (in_range (pending_prefix org) none) h.0 ∙ report_in_range org r in
    ground (arith, here, reports_in_range org d h.1)

-- The count takes in the pending commitments of the organisation and the reports of all of them.
pub pending_count-bound :
    (org : Text) (s : State)
    → IsKeyed own_report_key s.reports
    → count_under (pending_prefix org) s.pendings + length s.reports ≤ pending_count org s
unfolding pending_count
pending_count-bound org s h =
    omega (
      arith,
      count_under-le-range (pending_prefix org) s.pendings,
      reports_in_range org s.reports h,
    )

pub count_under-le-pending_count :
    (org : Text) (s : State) → count_under (pending_prefix org) s.pendings ≤ pending_count org s
unfolding pending_count
count_under-le-pending_count org s =
    omega (arith, count_under-le-range (pending_prefix org) s.pendings)
