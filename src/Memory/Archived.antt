-- ===== src/Memory/Archived.antt =====
-- What the expiry check of an epoch does to the memories.
use wevibe_chain.Common.{
  ℕ, ◌≡◌, refl, sym, ap, ◌∙◌, true, some, List, [], ◌∷◌, Text, arith, ok, text_eq, text_eq→eq,
  eq_false_ne, if◌then◌else◌, Bool-cases, Option-cases, Result-cases, inl, inr, for_each,
  for_each_inversion, for_each_keeps, Result,
}
use mathlib.Core.Path.{subst}
use mathlib.Core.List.{Memᴰ}
use mathlib.Core.List.Memᴰ
use wevibe_chain.Common.Dict.{Dict, get, insert}
use wevibe_chain.Common.Dict.Laws.{get-insert_self, get-insert_ne}
use wevibe_chain.Common.Dict.Rebuild.{IsKeyed, get-IsKeyed, insert-IsKeyed}
use wevibe_chain.Memory.Types.{
  State, MemoryCommitment, MemoryState, StoredValidityMetadata, approved_key, is_closed,
}
use wevibe_chain.Memory.Validity.{
  is_expired, collect_expired, expire_entry, check_epoch_expiry, load_memory_by_cid,
  get_approved_memory, archive, save_memory_commitment, decode_cid,
}

-- The memory under a key is archived or denied.
abbrev pub IsClosedAt : Text → Dict MemoryCommitment → Type 0
IsClosedAt k d = (m : MemoryCommitment) × (get k d ≡ some m) × (is_closed m.state ≡ true)

abbrev pub own_key : MemoryCommitment → Text
own_key m = approved_key m.org_id m.content_hash

expire_entry-memories :
    (k : Text) (v : StoredValidityMetadata) (s : State)
    → (expire_entry (k, v) s).0 ≡ ok tt
    → (h : Text) × (m : MemoryCommitment) × (decode_cid v.memory_cid ≡ ok h)
      × (get (approved_key v.org_id h) s.memories ≡ some m)
      × ((expire_entry (k, v) s).1.memories ≡ (
          if is_closed m.state
          then s.memories
          else insert (own_key m) (record m { state = MemoryState.archived }) s.memories))
unfolding expire_entry archive save_memory_commitment load_memory_by_cid get_approved_memory
expire_entry-memories k v s done = elim (Result-cases (decode_cid v.memory_cid)) [
  | inl (h, e) ↦ elim (Option-cases (get (approved_key v.org_id h) s.memories)) [
    | inl missing ↦ ground arith
    | inr (m, found) ↦ (h, m, e, found, ground arith)
  ]
  | inr (x, e) ↦ ground arith
]

-- What the rounds keep: memories stand under their own keys, and a closed one stays closed.
expire_entry-IsKeyed :
    (e : Text × StoredValidityMetadata) (s : State)
    → (expire_entry e s).0 ≡ ok tt
    → IsKeyed own_key s.memories
    → IsKeyed own_key (expire_entry e s).1.memories
expire_entry-IsKeyed (k, v) s done keyed =
    let (h, m, decoded, found, after) = expire_entry-memories k v s done in
    let put = insert-IsKeyed own_key (record m { state = MemoryState.archived }) s.memories keyed in
    rw after (ground arith)

insert-IsClosedAt :
    (j k : Text) (m : MemoryCommitment) (d : Dict MemoryCommitment)
    → is_closed m.state ≡ true
    → IsClosedAt j d
    → IsClosedAt j (insert k m d)
insert-IsClosedAt j k m d closed (n, e, c) = elim (Bool-cases (text_eq j k)) [
  | inl same ↦ (
    m,
    ap (λ (t : Text). get t (insert k m d)) (text_eq→eq j k same) ∙ get-insert_self k m d,
    closed,
  )
  | inr other ↦ (n, get-insert_ne j k m d (eq_false_ne j k other) ∙ e, c)
]

archived-closed : is_closed MemoryState.archived ≡ true
unfolding is_closed
archived-closed = refl

expire_entry-closed :
    (j : Text) (e : Text × StoredValidityMetadata) (s : State)
    → (expire_entry e s).0 ≡ ok tt
    → IsClosedAt j s.memories
    → IsClosedAt j (expire_entry e s).1.memories
expire_entry-closed j (k, v) s done c =
    let (h, m, decoded, found, after) = expire_entry-memories k v s done in
    let put =
      insert-IsClosedAt j (own_key m) (record m { state = MemoryState.archived }) s.memories
        archived-closed c in
    rw after (ground arith)

expire_entry-closes :
    (k h : Text) (v : StoredValidityMetadata) (s : State)
    → (expire_entry (k, v) s).0 ≡ ok tt
    → IsKeyed own_key s.memories
    → decode_cid v.memory_cid ≡ ok h
    → IsClosedAt (approved_key v.org_id h) (expire_entry (k, v) s).1.memories
expire_entry-closes k h v s done keyed decodes =
    let (g, m, decoded, found, after) = expire_entry-memories k v s done in
    let same : g ≡ h = cc in
    let own = get-IsKeyed own_key (approved_key v.org_id g) m s.memories keyed found in
    let closed_one : MemoryCommitment = record m { state = MemoryState.archived } in
    let put = get-insert_self (own_key m) closed_one s.memories in
    let here : IsClosedAt (own_key m) (expire_entry (k, v) s).1.memories =
      elim (Bool-cases (is_closed m.state)) [
        | inl c ↦ (m, ground (arith, ap (λ (t : Text). get t s.memories) own), c)
        | inr c ↦ (closed_one, ground arith, archived-closed)
      ] in
    subst (λ t. IsClosedAt t (expire_entry (k, v) s).1.memories)
      (sym own ∙ ap (approved_key v.org_id) same) here

collect_expired-Mem :
    (epoch : ℕ) (k : Text) (v : StoredValidityMetadata) (d : Dict StoredValidityMetadata)
    → get k d ≡ some v
    → is_expired epoch v ≡ true
    → Memᴰ (k, v) (collect_expired epoch d)
unfolding collect_expired get
collect_expired-Mem epoch k v [] e h = cc
collect_expired-Mem epoch k v ((j, w) ∷ d) e h = elim (Bool-cases (text_eq k j)) [
  | inl same ↦
      let key = text_eq→eq k j same in
      let here : v ≡ w = ground arith in
      let due : is_expired epoch w ≡ true = cc in rw due (Memᴰ.head (cc))
  | inr other ↦
      let rest = collect_expired-Mem epoch k v d (ground arith) h in
      elim (Bool-cases (is_expired epoch w)) [
        | inl due ↦ rw due (Memᴰ.tail rest)
        | inr not_due ↦ rw not_due rest
      ]
]

expire_loop-closes :
    (l : List (Text × StoredValidityMetadata)) (s : State) (k h : Text) (v : StoredValidityMetadata)
    → (for_each expire_entry l s).0 ≡ ok tt
    → IsKeyed own_key s.memories
    → Memᴰ (k, v) l
    → decode_cid v.memory_cid ≡ ok h
    → IsClosedAt (approved_key v.org_id h) (for_each expire_entry l s).1.memories
expire_loop-closes [] s k h v done keyed among decodes = absurd (Memᴰ.not-nil among)
expire_loop-closes (e ∷ l) s k h v done keyed among decodes =
    let (first, rest) = for_each_inversion expire_entry e l s done in
    let goes_on = ap (λ (r : Result (Unit {0}) × State). r.0) (sym rest) ∙ done in
    let after = (expire_entry e s).1 in
    let key = approved_key v.org_id h in
    rw rest (elim (Memᴰ.cases_cons among) [
      | inl same ↦
          for_each_keeps expire_entry (λ t. IsClosedAt key t.memories) (expire_entry-closed key) l
            after goes_on
            (subst (λ f. IsClosedAt key (expire_entry f s).1.memories) same
              (expire_entry-closes k h v s
                (subst (λ f. (expire_entry f s).0 ≡ ok tt) (sym same) first) keyed decodes))
      | inr later ↦
          expire_loop-closes l after k h v goes_on (expire_entry-IsKeyed e s first keyed) later
            decodes
    ])

-- After a check that ends, every memory whose validity metadata had expired is archived or denied,
-- where the memories stand under their own keys.
pub check_epoch_expiry-memories :
    (epoch : ℕ) (s : State) (k h : Text) (v : StoredValidityMetadata)
    → IsKeyed own_key s.memories
    → (check_epoch_expiry epoch s).0 ≡ ok tt
    → get k s.validities ≡ some v
    → is_expired epoch v ≡ true
    → decode_cid v.memory_cid ≡ ok h
    → IsClosedAt (approved_key v.org_id h) (check_epoch_expiry epoch s).1.memories
unfolding check_epoch_expiry
check_epoch_expiry-memories epoch s k h v keyed done found over decodes =
    expire_loop-closes (collect_expired epoch s.validities) s k h v done keyed
      (collect_expired-Mem epoch k v s.validities found over) decodes
