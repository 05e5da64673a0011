-- ===== src/Attestation/Index.antt =====
-- The two indexes of the attestations: what a write does to each, and what a listing visits.
use wevibe_chain.Common.{
  ℕ, ◌/◌, ◌%◌, ◌<◌, ◌≡◌, ◌≢◌, refl, sym, ap, ◌∙◌, Bool, none, [], ◌∷◌, ◌++◌, Text, codes, arith,
  append_cancel_left, if◌then◌else◌,
}
use mathlib.Core.List.{append_assoc}
use wevibe_chain.Common.Join.{Without}
use wevibe_chain.Common.Decimal.{
  format_uint, format_uint-injective, format_uint-NoSlash, last_slash, NoSlash,
}
use wevibe_chain.Common.Dict.{get}
use wevibe_chain.Common.Range.{
  get-range, has_prefix, in_range, prefix_end_bytes, in_range-prefix_end_bytes,
}
use wevibe_chain.Attestation.Types.{
  State, hex_digit, content_hash_to_hex, attestation_key, attestation_by_epoch_key,
  attestation_by_epoch_prefix,
}
use wevibe_chain.Attestation.Keeper.{epoch_entries}

hex_digit_ne : (b n : ℕ) → b < 48 → hex_digit n ≢ b
unfolding hex_digit
hex_digit_ne b n small e = ground arith

-- No byte below the digits occurs in hex.
pub hex-Without : (b : ℕ) (s : Text) → b < 48 → Without b (content_hash_to_hex s)
unfolding content_hash_to_hex
hex-Without b [] small = tt
hex-Without b (c ∷ s) small =
    (hex_digit_ne b (c / 16) small, (hex_digit_ne b (c % 16) small, hex-Without b s small))

pub hex-NoSlash : (s : Text) → NoSlash (content_hash_to_hex s)
hex-NoSlash s = hex-Without 47 s (omega arith)

hex_digit-injective : (m n : ℕ) → hex_digit m ≡ hex_digit n → m ≡ n
unfolding hex_digit
hex_digit-injective m n h = ground arith

pub content_hash_to_hex-injective :
    (s t : Text) → content_hash_to_hex s ≡ content_hash_to_hex t → s ≡ t
unfolding content_hash_to_hex
content_hash_to_hex-injective [] [] h = refl
content_hash_to_hex-injective [] (d ∷ t) h = cc
content_hash_to_hex-injective (c ∷ s) [] h = cc
content_hash_to_hex-injective (c ∷ s) (d ∷ t) h =
    let high = hex_digit-injective (c / 16) (d / 16) (cc) in
    let low = hex_digit-injective (c % 16) (d % 16) (cc) in
    let rest = content_hash_to_hex-injective s t (cc) in
    let same : c ≡ d = omega arith in cc (same, rest)

-- A key of the first index belongs to one organisation and one hash.
pub attestation_key-injective :
    (o p g h : Text) → attestation_key o g ≡ attestation_key p h → (o ≡ p) × (g ≡ h)
unfolding attestation_key
attestation_key-injective o p g h e =
    let (same, hex) =
      last_slash o p _ _ (hex-NoSlash g) (hex-NoSlash h)
        (append_cancel_left (codes "attestation/") e) in
    (same, content_hash_to_hex-injective g h hex)

-- A key of the second index belongs to one organisation, one epoch and one hash.
pub attestation_by_epoch_key-injective :
    (o p : Text) (m n : ℕ) (g h : Text)
    → attestation_by_epoch_key o m g ≡ attestation_by_epoch_key p n h
    → (o ≡ p) × (m ≡ n) × (g ≡ h)
unfolding attestation_by_epoch_key
attestation_by_epoch_key-injective o p m n g h e =
    let whole =
      append_assoc o (47 ∷ format_uint m) (47 ∷ content_hash_to_hex g)
      ∙ append_cancel_left (codes "session_epoch/") e
      ∙ sym (append_assoc p (47 ∷ format_uint n) (47 ∷ content_hash_to_hex h)) in
    let (start, hex) =
      last_slash (o ++ (47 ∷ format_uint m)) (p ++ (47 ∷ format_uint n)) _ _ (hex-NoSlash g)
        (hex-NoSlash h) whole in
    let (same, digits) = last_slash o p _ _ (format_uint-NoSlash m) (format_uint-NoSlash n) start in
    (same, format_uint-injective m n digits, content_hash_to_hex-injective g h hex)

-- The prefix of an epoch is all but the last byte, and a slash.
prefix_shape :
    (org : Text) (epoch : ℕ)
    → attestation_by_epoch_prefix org epoch
      ≡ (codes "session_epoch/" ++ (org ++ (47 ∷ format_uint epoch))) ++ (47 ∷ [])
unfolding attestation_by_epoch_prefix
prefix_shape org epoch =
    ap (λ (t : Text). codes "session_epoch/" ++ t)
      (sym (append_assoc org (47 ∷ format_uint epoch) (47 ∷ [])))

-- Of the second index a listing visits exactly the entries whose keys start with the prefix of the
-- organisation and the epoch.
pub epoch_entries_lem :
    (org : Text) (epoch : ℕ) (s : State) (k : Text)
    → get k (epoch_entries org epoch s)
      ≡ (if has_prefix (attestation_by_epoch_prefix org epoch) k then get k s.by_epoch else none)
unfolding epoch_entries
epoch_entries_lem org epoch s k =
    let p = attestation_by_epoch_prefix org epoch in
    let q = codes "session_epoch/" ++ (org ++ (47 ∷ format_uint epoch)) in
    let inside : in_range p (prefix_end_bytes p) k ≡ has_prefix p k =
      rw (prefix_shape org epoch) (in_range-prefix_end_bytes q 47 k (omega arith)) in
    get-range p (prefix_end_bytes p) k s.by_epoch
    ∙ ap (λ (b : Bool). if b then get k s.by_epoch else none) inside
