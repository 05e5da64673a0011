-- ===== src/Serve/Ledger.antt =====
-- What a batch of serves promises, apart from its store: a set of fingerprints, and a number per
-- organisation, memory and epoch. Keys, receipts and statistics are forgotten.
use wevibe_chain.Common.{
  ℕ, ◌==◌, not, ◌&&◌, ◌||◌, ◌≡◌, Bool, true, false, List, [], ◌∷◌, Text, arith, text_eq, leb, add64,
  if◌then◌else◌, Result, ok, err, Error,
}
use wevibe_chain.Serve.Batch.{Counts, Verdict, tally}

pub record Ledger : Type 0 where
  pub known : Text → Bool
  pub served : Text → Text → ℕ → ℕ

-- A serve as the ledger sees it.
pub record Offer : Type 0 where
  pub signed : Bool
  pub servable : Result Bool
  pub fingerprint : Text
  pub hash : Text

unfoldable pub ledger_judge : Text → ℕ → ℕ → Offer → Ledger → Result Verdict
ledger_judge org epoch cap o g =
    if not o.signed
    then ok Verdict.invalid
    else (if g.known o.fingerprint then ok Verdict.duplicate else elim o.servable [
      | err x ↦ err x
      | ok false ↦ ok Verdict.invalid
      | ok true ↦
          if leb cap (g.served org o.hash epoch) then ok Verdict.invalid else ok Verdict.accept
    ])

unfoldable pub ledger_accept : Text → ℕ → Offer → Ledger → Ledger
ledger_accept org epoch o g = record {
  known = λ f. text_eq f o.fingerprint || g.known f;
  served = λ p h n.
      if text_eq p org && (text_eq h o.hash && n == epoch)
      then add64 (g.served p h n) 1
      else g.served p h n;
}

unfoldable pub ledger_round : Text → ℕ → Verdict → Offer → Ledger → Ledger
unfolding ledger_accept
ledger_round org epoch Verdict.accept o g = ledger_accept org epoch o g
ledger_round org epoch Verdict.duplicate o g = g
ledger_round org epoch Verdict.invalid o g = g

unfoldable pub ledger_run : Text → ℕ → ℕ → List Offer → Counts → Ledger → Result Counts × Ledger
unfolding ledger_judge ledger_round
ledger_run org epoch cap [] c g = (ok c, g)
ledger_run org epoch cap (o ∷ rest) c g = elim (ledger_judge org epoch cap o g) [
  | err x ↦ (err x, g)
  | ok v ↦ ledger_run org epoch cap rest (tally v c) (ledger_round org epoch v o g)
]

pub ledger_ok :
    (org : Text) (epoch cap : ℕ) (o : Offer) (rest : List Offer) (c : Counts) (v : Verdict)
    (g : Ledger)
    → ledger_judge org epoch cap o g ≡ ok v
    → ledger_run org epoch cap (o ∷ rest) c g
      ≡ ledger_run org epoch cap rest (tally v c) (ledger_round org epoch v o g)
unfolding ledger_run
ledger_ok org epoch cap o rest c v g j = ground arith

pub ledger_err :
    (org : Text) (epoch cap : ℕ) (o : Offer) (rest : List Offer) (c : Counts) (x : Error)
    (g : Ledger)
    → ledger_judge org epoch cap o g ≡ err x
    → ledger_run org epoch cap (o ∷ rest) c g ≡ (err x, g)
unfolding ledger_run
ledger_err org epoch cap o rest c x g j = ground arith
