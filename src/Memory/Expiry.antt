-- ===== src/Memory/Expiry.antt =====
-- What is left of the validity metadata after the expiry check of an epoch.
use wevibe_chain.Common.{
  ℕ, ◌≡◌, refl, sym, ap, ◌∙◌, true, false, Option, none, some, List, [], ◌∷◌, Text, arith, ok,
  text_lt, text_eq, text_eq→eq, text_eq_refl, text_lt_irrefl, leb, ◌==◌, ◌||◌, not, if◌then◌else◌,
  Bool-cases, inl, inr, for_each, for_each_inversion, Result,
}
use wevibe_chain.Common.Dict.{Dict, get, erase, Above, IsSorted}
use wevibe_chain.Common.Dict.Laws.{get-Above, Above-mono, Above-IsSorted}
use wevibe_chain.Memory.Types.{State, StoredValidityMetadata, validity_key}
use wevibe_chain.Memory.Validity.{
  is_valid_in_epoch, is_expired, collect_expired, expire_entry, check_epoch_expiry, archive,
  save_memory_commitment, get_validity_metadata,
}

expire_entry-validities :
    (k : Text) (v : StoredValidityMetadata) (s : State)
    → (expire_entry (k, v) s).0 ≡ ok tt
    → (expire_entry (k, v) s).1.validities ≡ erase k s.validities
unfolding expire_entry archive save_memory_commitment
expire_entry-validities k v s h = ground arith

-- The metadata with no last epoch, or whose last epoch is this one or a later one.
unfoldable pub unexpired : ℕ → Dict StoredValidityMetadata → Dict StoredValidityMetadata
unexpired epoch [] = []
unexpired epoch ((k, v) ∷ d) =
    let rest = unexpired epoch d in
    if v.valid_until_epoch == 0 || leb epoch v.valid_until_epoch then (k, v) ∷ rest else rest

is_expired_lem :
    (epoch : ℕ) (v : StoredValidityMetadata)
    → is_expired epoch v ≡ not (v.valid_until_epoch == 0 || leb epoch v.valid_until_epoch)
unfolding is_expired
is_expired_lem epoch v = ground arith

unfoldable erase_entries :
    List (Text × StoredValidityMetadata) → Dict StoredValidityMetadata → Dict StoredValidityMetadata
erase_entries [] d = d
erase_entries ((k, v) ∷ l) d = erase_entries l (erase k d)

expire_loop-validities :
    (l : List (Text × StoredValidityMetadata)) (s : State)
    → (for_each expire_entry l s).0 ≡ ok tt
    → (for_each expire_entry l s).1.validities ≡ erase_entries l s.validities
unfolding for_each erase_entries
expire_loop-validities [] s h = refl
expire_loop-validities ((k, v) ∷ l) s h =
    let (first, rest) = for_each_inversion expire_entry (k, v) l s h in
    ap (λ (r : Result (Unit {0}) × State). r.1.validities) rest
    ∙ expire_loop-validities l (expire_entry (k, v) s).1
        (ap (λ (r : Result (Unit {0}) × State). r.0) (sym rest) ∙ h)
    ∙ ap (erase_entries l) (expire_entry-validities k v s first)

gt_ne : (j k : Text) → text_lt j k ≡ true → text_eq k j ≡ false
gt_ne j k h = elim (Bool-cases (text_eq k j)) [
  | inl e ↦ cc (text_lt_irrefl k, h, ap (λ (t : Text). text_lt t k) (text_eq→eq k j e))
  | inr e ↦ e
]

-- Erasing keys above the first one leaves the first entry.
erase_entries-Above :
    (epoch : ℕ) (j : Text) (w : StoredValidityMetadata) (d e : Dict StoredValidityMetadata)
    → Above j d
    → erase_entries (collect_expired epoch d) ((j, w) ∷ e)
      ≡ (j, w) ∷ erase_entries (collect_expired epoch d) e
unfolding erase_entries collect_expired erase
erase_entries-Above epoch j w [] e a = refl
erase_entries-Above epoch j w ((k, v) ∷ d) e (lt, a) = ground (
  arith,
  gt_ne j k lt,
  erase_entries-Above epoch j w d e (Above-mono j k d lt a),
  erase_entries-Above epoch j w d (erase k e) (Above-mono j k d lt a),
)

erase-collect_expired :
    (epoch : ℕ) (d : Dict StoredValidityMetadata)
    → IsSorted d
    → erase_entries (collect_expired epoch d) d ≡ unexpired epoch d
unfolding erase_entries collect_expired unexpired erase
erase-collect_expired epoch [] s = refl
erase-collect_expired epoch ((k, v) ∷ d) s = ground (
  arith,
  is_expired_lem epoch v,
  text_eq_refl k,
  erase-collect_expired epoch d (Above-IsSorted k d s),
  erase_entries-Above epoch k v d d s,
)

-- A check that ends leaves, in order, the validity metadata that has no last epoch, or whose last
-- epoch is the given one or a later one.
pub check_epoch_expiry-validities :
    (epoch : ℕ) (s : State)
    → IsSorted s.validities
    → (check_epoch_expiry epoch s).0 ≡ ok tt
    → (check_epoch_expiry epoch s).1.validities ≡ unexpired epoch s.validities
unfolding check_epoch_expiry
check_epoch_expiry-validities epoch s sorted h =
    expire_loop-validities (collect_expired epoch s.validities) s h
    ∙ erase-collect_expired epoch s.validities sorted

unexpired-none :
    (epoch : ℕ) (k : Text) (d : Dict StoredValidityMetadata)
    → get k d ≡ none
    → get k (unexpired epoch d) ≡ none
unfolding get unexpired
unexpired-none epoch k [] e = refl
unexpired-none epoch k ((j, w) ∷ d) e = ground (arith, unexpired-none epoch k d)

get-unexpired :
    (epoch : ℕ) (k : Text) (v : StoredValidityMetadata) (d : Dict StoredValidityMetadata)
    → IsSorted d
    → get k d ≡ some v
    → is_expired epoch v ≡ true
    → get k (unexpired epoch d) ≡ none
unfolding get unexpired
get-unexpired epoch k v [] s e h = cc
get-unexpired epoch k v ((j, w) ∷ d) s e h = elim (Bool-cases (text_eq k j)) [
  | inl same ↦
      let here : w ≡ v = ground arith in
      let gone =
        unexpired-none epoch k d
          (ap (λ (t : Text). get t d) (text_eq→eq k j same) ∙ get-Above j d s) in
      ground (arith, gone, ap (is_expired epoch) here, is_expired_lem epoch w)
  | inr other ↦ ground (arith, get-unexpired epoch k v d (Above-IsSorted j d s))
]

no_metadata :
    (unmarshal_scope : Text → Option (Dict Text)) (org cid : Text) (epoch : ℕ) (s : State)
    → get (validity_key org cid) s.validities ≡ none
    → is_valid_in_epoch unmarshal_scope org cid epoch s ≡ ok true
unfolding is_valid_in_epoch get_validity_metadata
no_metadata unmarshal_scope org cid epoch s h = ground arith

-- A flaw: once a check has removed the expired validity metadata of a memory, the memory counts as
-- valid again, in every epoch.
pub expired_valid_again :
    (unmarshal_scope : Text → Option (Dict Text)) (org cid : Text) (v : StoredValidityMetadata)
    (epoch later : ℕ) (s : State)
    → IsSorted s.validities
    → get (validity_key org cid) s.validities ≡ some v
    → is_expired epoch v ≡ true
    → (check_epoch_expiry epoch s).0 ≡ ok tt
    → is_valid_in_epoch unmarshal_scope org cid later (check_epoch_expiry epoch s).1 ≡ ok true
expired_valid_again unmarshal_scope org cid v epoch later s sorted found over h =
    no_metadata unmarshal_scope org cid later (check_epoch_expiry epoch s).1 (
      ap (get (validity_key org cid)) (check_epoch_expiry-validities epoch s sorted h)
      ∙ get-unexpired epoch (validity_key org cid) v s.validities sorted found over)
