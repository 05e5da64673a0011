-- ===== src/Attestation/Listing.antt =====
-- What setting an attestation does to both indexes, and what ListSessionAttestations then returns.
use wevibe_chain.Common.{
  ℕ, ◌≡◌, ◌≢◌, refl, sym, ap, ◌∙◌, Bool, true, Option, none, some, [], ◌∷◌, ◌++◌, Text, codes,
  text_eq, arith, Bool-cases, inl, inr, ok, if◌then◌else◌,
}
use mathlib.Core.List.{append_assoc, Mem, mem-cons}
use wevibe_chain.Common.Decimal.{format_uint}
use wevibe_chain.Common.Dict.{Dict, get, insert, values}
use wevibe_chain.Common.Dict.Laws.{get-insert_self, get-insert_ne}
use wevibe_chain.Common.Range.{has_prefix, has_prefix-append}
use wevibe_chain.Attestation.Types.{
  State, StoredSessionAttestation, content_hash_to_hex, attestation_key, attestation_by_epoch_key,
  attestation_by_epoch_prefix,
}
use wevibe_chain.Attestation.Keeper.{
  set_session_attestation, get_session_attestation, epoch_entries, list_session_attestations,
}
use wevibe_chain.Attestation.Index.{
  attestation_key-injective, attestation_by_epoch_key-injective, epoch_entries_lem,
}

-- What stands under a key is among the values.
get-Mem : {V : Type 0} (k : Text) (v : V) (d : Dict V) → get k d ≡ some v → Mem v (values d)
unfolding get
get-Mem k v [] h = cc
get-Mem k v ((j, w) ∷ d) h = elim (Bool-cases (text_eq k j)) [
  | inl e ↦ mem-cons.1 ∣ inl (first e) ∣₁
  | inr e ↦ mem-cons.1 ∣ inr (get-Mem k v d (rw e at h)) ∣₁
]
  where
    first : text_eq k j ≡ true → v ≡ w
    first e = ground arith

-- A key with the prefix of an epoch reads in its listing as in the index.
entry_in_prefix :
    (org : Text) (epoch : ℕ) (s : State) (k : Text)
    → has_prefix (attestation_by_epoch_prefix org epoch) k ≡ true
    → get k (epoch_entries org epoch s) ≡ get k s.by_epoch
entry_in_prefix org epoch s k h =
    epoch_entries_lem org epoch s k ∙ ap (λ (b : Bool). if b then get k s.by_epoch else none) h

prefix_of :
    (org : Text) (epoch : ℕ) (rest : Text)
    → has_prefix
        (attestation_by_epoch_prefix org epoch)
        (codes "session_epoch/" ++ (org ++ (47 ∷ (format_uint epoch ++ (47 ∷ rest)))))
      ≡ true
unfolding attestation_by_epoch_prefix
prefix_of org epoch rest =
    let p = codes "session_epoch/" ++ (org ++ (47 ∷ (format_uint epoch ++ (47 ∷ [])))) in
    let split =
      append_assoc org (47 ∷ (format_uint epoch ++ (47 ∷ []))) rest
      ∙ ap (λ (t : Text). org ++ (47 ∷ t)) (append_assoc (format_uint epoch) (47 ∷ []) rest) in
    ap (has_prefix p) (ap (λ (t : Text). codes "session_epoch/" ++ t) (sym split))
    ∙ has_prefix-append p rest

key_in_prefix :
    (org : Text) (epoch : ℕ) (hash : Text)
    → has_prefix (attestation_by_epoch_prefix org epoch) (attestation_by_epoch_key org epoch hash)
      ≡ true
unfolding attestation_by_epoch_key
key_in_prefix org epoch hash = prefix_of org epoch (content_hash_to_hex hash)

-- A key of the organisation `org/epoch` has the prefix of `org` for that epoch.
key_crosses :
    (org : Text) (epoch other : ℕ) (hash : Text)
    → has_prefix
        (attestation_by_epoch_prefix org epoch)
        (attestation_by_epoch_key (org ++ (47 ∷ format_uint epoch)) other hash)
      ≡ true
unfolding attestation_by_epoch_key
key_crosses org epoch other hash =
    let rest = format_uint other ++ (47 ∷ content_hash_to_hex hash) in
    ap
      (λ (t : Text).
        has_prefix (attestation_by_epoch_prefix org epoch) (codes "session_epoch/" ++ t))
      (append_assoc org (47 ∷ format_uint epoch) (47 ∷ rest))
    ∙ prefix_of org epoch rest

module _ (a : StoredSessionAttestation) (s : State) where
  written_by_epoch :
      (set_session_attestation a s).1.by_epoch
      ≡ insert (attestation_by_epoch_key a.org_id a.epoch a.session_hash) a s.by_epoch
  unfolding set_session_attestation
  written_by_epoch = refl

  -- An attestation that was set is the one that is read for its organisation and session; every
  -- other reads as before.
  pub set_attestation_reads :
      let s' = (set_session_attestation a s).1 in
      ((get_session_attestation a.org_id a.session_hash s').0 ≡ ok a)
      × ((org hash : Text)
          → ((org ≡ a.org_id) × (hash ≡ a.session_hash) → ⊥)
          → (get_session_attestation org hash s').0 ≡ (get_session_attestation org hash s).0)
  unfolding set_session_attestation get_session_attestation
  set_attestation_reads =
      let key = attestation_key a.org_id a.session_hash in
      (
        ground (arith, get-insert_self key a s.attestations),
        λ org hash other. ground (
          arith,
          get-insert_ne (attestation_key org hash) key a s.attestations
              (λ e. other (attestation_key-injective org a.org_id hash a.session_hash e)),
        ),
      )

  -- An attestation that was set is in the listing of its organisation and epoch, under its key; all
  -- other keys of the listing of any organisation and epoch read as before.
  pub set_attestation_lists :
      let s' = (set_session_attestation a s).1 in
      let key = attestation_by_epoch_key a.org_id a.epoch a.session_hash in
      (get key (epoch_entries a.org_id a.epoch s') ≡ some a)
      × Mem a (list_session_attestations a.org_id a.epoch s')
      × ((org : Text) (epoch : ℕ) (k : Text)
          → k ≢ key
          → get k (epoch_entries org epoch s') ≡ get k (epoch_entries org epoch s))
  unfolding list_session_attestations
  set_attestation_lists =
      let s' = (set_session_attestation a s).1 in
      let key = attestation_by_epoch_key a.org_id a.epoch a.session_hash in
      let listed =
        entry_in_prefix a.org_id a.epoch s' key (key_in_prefix a.org_id a.epoch a.session_hash)
        ∙ ap (get key) written_by_epoch
        ∙ get-insert_self key a s.by_epoch in
      (
        listed,
        get-Mem key a (epoch_entries a.org_id a.epoch s') listed,
        λ org epoch k ne.
            epoch_entries_lem org epoch s' k
            ∙ ap
                (λ (o : Option StoredSessionAttestation).
                  if has_prefix (attestation_by_epoch_prefix org epoch) k then o else none)
                (ap (get k) written_by_epoch ∙ get-insert_ne k key a s.by_epoch ne)
            ∙ sym (epoch_entries_lem org epoch s k),
      )

  -- A flaw: an attestation of an organisation whose name is another's with a slash and a number
  -- after it is in the listing of that other organisation, for the epoch of that number.
  pub listing_crosses_orgs :
      (org : Text) (epoch : ℕ)
      → a.org_id ≡ org ++ (47 ∷ format_uint epoch)
      → Mem a (list_session_attestations org epoch (set_session_attestation a s).1)
  unfolding list_session_attestations
  listing_crosses_orgs org epoch h =
      let s' = (set_session_attestation a s).1 in
      let key = attestation_by_epoch_key a.org_id a.epoch a.session_hash in
      get-Mem key a (epoch_entries org epoch s') (
        entry_in_prefix org epoch s' key (
          ap
            (λ (o : Text).
              has_prefix (attestation_by_epoch_prefix org epoch)
                (attestation_by_epoch_key o a.epoch a.session_hash))
            h
          ∙ key_crosses org epoch a.epoch a.session_hash)
        ∙ ap (get key) written_by_epoch
        ∙ get-insert_self key a s.by_epoch)

-- A flaw: a session that is set again for another epoch stays listed for the old epoch too.
pub moved_attestation_stays :
    (a b : StoredSessionAttestation) (s : State)
    → b.epoch ≢ a.epoch
    → let s' = (set_session_attestation b (set_session_attestation a s).1).1 in
      Mem a (list_session_attestations a.org_id a.epoch s')
unfolding list_session_attestations
moved_attestation_stays a b s ne =
    let once = (set_session_attestation a s).1 in
    let key = attestation_by_epoch_key a.org_id a.epoch a.session_hash in
    let differs : key ≢ attestation_by_epoch_key b.org_id b.epoch b.session_hash = λ e. ne (
      sym
        (attestation_by_epoch_key-injective a.org_id b.org_id a.epoch b.epoch a.session_hash
          b.session_hash e).1) in
    get-Mem key a _ (
      (set_attestation_lists b once).2 a.org_id a.epoch key differs ∙ (set_attestation_lists a s).0)
