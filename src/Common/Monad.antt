-- ===== src/Common/Monad.antt =====
-- A call of the program: it returns a value or an error, and the state that it leaves. What was
-- written before an error stays written: whether a failed call changes nothing has to be proved.
use mathlib.Core.Path.{◌≡◌, refl, ap}
use mathlib.Core.Logic.{◌⊎◌, inl, inr}
use mathlib.Core.Bool.{Bool}
use mathlib.Core.Option.{Option, none, some}
use wevibe_chain.Common.Tests.{if◌then◌else◌}

-- The errors of the modules: the `Err…` variables of each x/<module>/types/errors.go, and the
-- messages made by fmt.Errorf on the spot.
pub data Error : Type 0 where
  signer_empty authority_empty passkey_empty epoch_zero : Error
  invalid_org_id invalid_cap override_not_found unauthorized org_not_found : Error
  memory_bandwidth_exhausted serve_bandwidth_exhausted : Error
  no_emission_pool invalid_emission_pool epoch_not_greater : Error
  share_sum weight_sum : Error
  bootstrap_expired no_bootstrap_pool insufficient_balance : Error
  daily_emission_not_found invalid_asymmetric_gate : Error
  not_migrated unauthorized_claim nothing_to_claim invalid_wallet_address : Error
  invalid_passkey_pubkey invalid_passkey_signature alias_already_migrated : Error
  alias_nil duplicate_passkey : Error
  invalid_session_hash invalid_model_id invalid_contributor invalid_provider_type : Error
  attestation_not_found attestation_disabled : Error
  invalid_content_hash invalid_memory_type invalid_keyword commitment_exists : Error
  commitment_not_found max_pending_exceeded blob_too_large memory_exists memory_not_found : Error
  report_exists invalid_cid invalid_scope_tags : Error
  batch_empty batch_too_large invalid_serve_key_pubkey invalid_serve_signature : Error
  invalid_serve_fingerprint invalid_serve_episode_ref serve_episode_ref_too_long : Error
  stats_not_found contributor_not_found neg_anchor_inert : Error
  event_nonce_empty event_nonce_too_long event_parked event_by_receipt invalid_event_type : Error
  event_body_required invalid_event_token invalid_serve_ref event_ref_too_long : Error
  policy_version_empty policy_version_too_long policy_hash_length policy_anchor_differs : Error
  reputation_not_active no_stats invalid_developer invalid_memory : Error
  invalid_difficulty invalid_quality profile_not_found membership_not_found : Error
  contributor_id_empty max_difficulty_zero max_quality_zero nil_map_panic : Error
  member_not_found member_exists cannot_remove_leader not_leader : Error
  invalid_role org_not_active wallet_empty wallet_invalid leader_not_member : Error
  feegrant_refused : Error
  key_size_panic : Error
  bank_refused : Error

pub data Result {ℓ} (A : Type ℓ) : Type ℓ where
  ok : A → Result A
  err : Error → Result A

abbrev pub Action : Type 0 → Type 0 → Type 0
Action S A = S → Result A × S

module _ {S A : Type 0} where
  abbrev pub pure : A → Action S A
  pure a s = (ok a, s)

  abbrev pub raise : Error → Action S A
  raise e s = (err e, s)

  abbrev pub gets : (S → A) → Action S A
  gets f s = (ok (f s), s)

  abbrev pub or_raise : Option A → Error → Action S A
  or_raise none e s = (err e, s)
  or_raise (some a) e s = (ok a, s)

  abbrev pub lift : Result A → Action S A
  lift r s = (r, s)

module _ {S : Type 0} where
  abbrev pub raise_if : Bool → Error → Action S (Unit {0})
  raise_if c e s = (if c then err e else ok tt, s)

  abbrev pub modify : (S → S) → Action S (Unit {0})
  modify f s = (ok tt, f s)

infixl 5 ◌>>=◌ ◌>>◌
abbrev pub ◌>>=◌ : {S A B : Type 0} → Action S A → (A → Action S B) → Action S B
◌>>=◌ m f s = let (r, s') = m s in elim r [ ok a ↦ f a s' | err e ↦ (err e, s') ]

abbrev pub ◌>>◌ : {S A B : Type 0} → Action S A → Action S B → Action S B
m >> k = m >>= λ _. k

pub Result-cases {ℓ} :
    {A : Type ℓ} (r : Result A) → ((a : A) × (r ≡ ok a)) ⊎ ((e : Error) × (r ≡ err e))
Result-cases (ok a) = inl (a, refl)
Result-cases (err e) = inr (e, refl)

module _ {S A B : Type 0} (m : Action S A) (f : A → Action S B) (s : S) where
  -- A call that returns is followed by the rest, at the state that it leaves.
  pub bind_ok : {a : A} → (m s).0 ≡ ok a → (m >>= f) s ≡ f a (m s).1
  bind_ok e = rw (e, ◌>>=◌)

  -- A call that fails ends the chain.
  pub bind_err : {e : Error} → (m s).0 ≡ err e → (m >>= f) s ≡ (err e, (m s).1)
  bind_err e = rw (e, ◌>>=◌)

  -- A chain that returns has gone through its first call.
  pub bind_inversion :
      {b : B} → ((m >>= f) s).0 ≡ ok b → (a : A) × ((m s).0 ≡ ok a) × ((m >>= f) s ≡ f a (m s).1)
  bind_inversion h = elim (Result-cases (m s).0) [
    | inl (a, e) ↦ (a, e, bind_ok e)
    | inr (x, e) ↦ cc (ap (λ (r : Result B × S). r.0) (bind_err e))
  ]
