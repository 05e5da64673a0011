-- ===== src/Serve/Authority.antt =====
-- Who may submit a batch.
use wevibe_chain.Common.{
  ◌≡◌, ap, sym, ◌∙◌, true, false, Text, arith, is_empty, text_eq→eq, ok, Result-cases, inl, inr,
  Result, bind_inversion,
}
use wevibe_chain.Serve.Batch.{World, Outside, Counts, process_serve_batch}
use wevibe_chain.Serve.Denials.{DenialCounts}
use wevibe_chain.Serve.Messages.{
  MsgSubmitServeBatch, MsgSubmitDenialBatch, validate_serve_batch, validate_denial_batch,
}
use wevibe_chain.Serve.MsgServer.{
  OrgKeeper, authorise, require_serving_key_signer, submit_serve_batch, submit_denial_batch,
}

module _ (orgs : OrgKeeper) where
  -- The organisation exists, and the signer is its registered serving address.
  pub record IsAuthorised (org signer : Text) : Type 0 where
    pub known : orgs.has_org org ≡ ok true
    pub serving : orgs.get_serving_address org ≡ ok signer
    pub named : is_empty signer ≡ false

module _ {R : Type 0} (orgs : OrgKeeper) where
  authorise_inversion :
      (valid : Result (Unit {0})) (org signer : Text) (w : World R)
      → (authorise orgs valid org signer w).0 ≡ ok tt
      → (valid ≡ ok tt) × IsAuthorised orgs org signer
  unfolding authorise require_serving_key_signer
  authorise_inversion valid org signer w h = elim (Result-cases (orgs.get_serving_address org)) [
    | inl (address, e) ↦
        let same : signer ≡ address = ground (arith, text_eq→eq signer address) in
        let filled : is_empty address ≡ false = ground arith in
        (
          ground arith,
          record {
            known = ground arith;
            serving = e ∙ ap ok (sym same);
            named = ap is_empty same ∙ filled;
          },
        )
    | inr (x, e) ↦ ground arith
  ]

module _ {R : Type 0} (outside : Outside R) (orgs : OrgKeeper) where
  -- A batch of serves that a message gets accepted passes the checks of its fields, and is signed by
  -- the registered serving address of an existing organisation.
  pub submit_serve_batch-IsAuthorised :
      (m : MsgSubmitServeBatch) (w : World R) (c : Counts)
      → (submit_serve_batch outside orgs m w).0 ≡ ok c
      → (validate_serve_batch m ≡ ok tt) × IsAuthorised orgs m.org_id m.signer
  unfolding submit_serve_batch
  submit_serve_batch-IsAuthorised m w c h =
      let (u, e, rest) =
        bind_inversion (authorise orgs (validate_serve_batch m) m.org_id m.signer)
          (λ _. process_serve_batch outside m.org_id m.epoch m.serves) w h in
      authorise_inversion orgs (validate_serve_batch m) m.org_id m.signer w e

  -- A batch of denials that is accepted passes the checks of its fields, and is signed by the
  -- registered serving address of an existing organisation.
  pub submit_denial_batch-IsAuthorised :
      (m : MsgSubmitDenialBatch) (w : World R) (c : DenialCounts)
      → (submit_denial_batch outside orgs m w).0 ≡ ok c
      → (validate_denial_batch m ≡ ok tt) × IsAuthorised orgs m.org_id m.signer
  unfolding submit_denial_batch
  submit_denial_batch-IsAuthorised m w c h =
      elim (Result-cases (authorise orgs (validate_denial_batch m) m.org_id m.signer w).0) [
        | inl (u, e) ↦ authorise_inversion orgs (validate_denial_batch m) m.org_id m.signer w e
        | inr (x, e) ↦ ground arith
      ]
