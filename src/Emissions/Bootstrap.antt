-- ===== src/Emissions/Bootstrap.antt =====
-- The bootstrap credits of the operators and the asymmetric gates.
use wevibe_chain.Common.{
  ℕ, ◌+◌, ◌-◌, ◌≤◌, ◌<◌, ◌≡◌, ◌≢◌, sym, ap, ◌∙◌, some, ◌++◌, ◌∷◌, Text, codes, arith, uint64_max,
  sub64, sub64-eq-sub, add64-eq-add, ok, err, Error, append_cancel_left, Result-cases, inl, inr,
}
use mathlib.Core.List.{append_assoc}
use wevibe_chain.Common.Dict.{insert}
use wevibe_chain.Common.Dict.Laws.{amount, get-insert_self, get-insert_ne}
use wevibe_chain.Emissions.Types.{State, BootstrapCredit, AsymmetricGate, redeem}
use wevibe_chain.Emissions.Keeper.{
  bootstrap_key, gate_key, get_bootstrap_credit, bootstrap_expiry_of, redeem_bootstrap_credit,
  set_asymmetric_gate, get_asymmetric_gate,
}

-- No more is redeemed than was granted.
pub record IsWithin (c : BootstrapCredit) : Type 0 where
  pub covered : c.redeemed ≤ c.credits
  pub bounded : c.credits ≤ uint64_max

redeem_ok :
    (c c' : BootstrapCredit) (n : ℕ)
    → IsWithin c
    → redeem c n ≡ ok c'
    → (c' ≡ record c { redeemed = c.redeemed + n }) × (c.redeemed + n ≤ c.credits)
unfolding redeem
redeem_ok c c' n v h =
    let left = sub64-eq-sub c.credits c.redeemed v.covered v.bounded in
    let sum = add64-eq-add c.redeemed n in (ground (arith, left, sum), ground (arith, left))

redeem_short :
    (c : BootstrapCredit) (n : ℕ)
    → IsWithin c
    → c.credits < c.redeemed + n
    → redeem c n ≡ err Error.insufficient_balance
unfolding redeem
redeem_short c n v h = ground (arith, sub64-eq-sub c.credits c.redeemed v.covered v.bounded)

bootstrap_key-injective : (a b : Text) → bootstrap_key a ≡ bootstrap_key b → a ≡ b
unfolding bootstrap_key
bootstrap_key-injective a b h = append_cancel_left (codes "bootstrap/") h

wrapped : (a n : ℕ) → a < n → n ≤ uint64_max → sub64 a n ≡ a + 18446744073709551616 - n
unfolding sub64
wrapped a n h k = omega arith

module _ (operator : Text) (n : ℕ) (s : State) where
  -- What a successful redemption has done.
  redeem_inversion :
      (redeem_bootstrap_credit operator n s).0 ≡ ok tt
      → (c' : BootstrapCredit) × (redeem (get_bootstrap_credit operator s) n ≡ ok c')
        × ((redeem_bootstrap_credit operator n s).1 ≡ record s {
          credits = insert (bootstrap_key operator) c' s.credits;
          bootstrap_pool = some (sub64 (amount s.bootstrap_pool) n);
        })
  unfolding redeem_bootstrap_credit
  redeem_inversion h = elim (Result-cases (redeem (get_bootstrap_credit operator s) n)) [
    | inl (c', e) ↦ (c', e, ground arith)
    | inr (x, e) ↦ ground arith
  ]

  credit_written :
      (c : BootstrapCredit) (s' : State)
      → s'.credits ≡ insert (bootstrap_key operator) c s.credits
      → (get_bootstrap_credit operator s' ≡ c)
        × ((other : Text)
            → other ≢ operator
            → get_bootstrap_credit other s' ≡ get_bootstrap_credit other s)
  unfolding get_bootstrap_credit
  credit_written c s' e = (
    ground (arith, get-insert_self (bootstrap_key operator) c s.credits),
    λ other ne. ground (
      arith,
      get-insert_ne (bootstrap_key other) (bootstrap_key operator) c s.credits
          (λ k. ne (bootstrap_key-injective other operator k)),
    ),
  )

  -- From a credit that is not overdrawn, a successful redemption adds the amount to what is
  -- redeemed, within the credit, and leaves the credits of all other operators.
  pub redeem_accounts :
      IsWithin (get_bootstrap_credit operator s)
      → (redeem_bootstrap_credit operator n s).0 ≡ ok tt
      → let s' = (redeem_bootstrap_credit operator n s).1 in
        let c = get_bootstrap_credit operator s in
        (get_bootstrap_credit operator s' ≡ record c { redeemed = c.redeemed + n })
        × (c.redeemed + n ≤ c.credits)
        × ((other : Text)
            → other ≢ operator
            → get_bootstrap_credit other s' ≡ get_bootstrap_credit other s)
  redeem_accounts v h =
      let (c', e, after) = redeem_inversion h in
      let (same, within) = redeem_ok (get_bootstrap_credit operator s) c' n v e in
      let (self, others) = credit_written c' _ (ap (λ (t : State). t.credits) after) in
      (self ∙ same, within, others)

  -- A redemption beyond the credit is refused, and changes nothing.
  pub redeem_overdraft :
      IsWithin (get_bootstrap_credit operator s)
      → bootstrap_expiry_of s ≢ 0
      → (get_bootstrap_credit operator s).credits < (get_bootstrap_credit operator s).redeemed + n
      → redeem_bootstrap_credit operator n s ≡ (err Error.insufficient_balance, s)
  unfolding redeem_bootstrap_credit
  redeem_overdraft v open_still h =
      ground (arith, redeem_short (get_bootstrap_credit operator s) n v h)

  -- A flaw: a redemption of more than the bootstrap pool holds, for instance of an unset pool,
  -- succeeds where the credit allows it, and then wraps the pool around to a number near 2^64. The
  -- amount is a 64-bit number.
  pub redeem_wraps_pool :
      (redeem_bootstrap_credit operator n s).0 ≡ ok tt
      → amount s.bootstrap_pool < n
      → n ≤ uint64_max
      → (redeem_bootstrap_credit operator n s).1.bootstrap_pool
        ≡ some (amount s.bootstrap_pool + 18446744073709551616 - n)
  redeem_wraps_pool h short fits =
      let (c', e, after) = redeem_inversion h in
      ap (λ (t : State). t.bootstrap_pool) after
      ∙ ap some (wrapped (amount s.bootstrap_pool) n short fits)

-- A flaw: the key of a gate does not separate operator and organisation, so where a slash stands
-- in either of the names, two different pairs have one key.
pub gate_key_collides :
    (a b c : Text) (epoch : ℕ) → gate_key (a ++ (47 ∷ b)) c epoch ≡ gate_key a (b ++ (47 ∷ c)) epoch
unfolding gate_key
gate_key_collides a b c epoch =
    ap (λ (t : Text). codes "gate/" ++ t)
      (append_assoc a (47 ∷ b) _
        ∙ ap (λ (t : Text). a ++ (47 ∷ t)) (sym (append_assoc b (47 ∷ c) _)))

-- A gate that is set is the one that is read, for its operator, organisation and epoch; where none
-- is set retrieval is allowed.
pub gate_round_trip :
    (g : AsymmetricGate) (s : State)
    → get_asymmetric_gate g.operator_id g.org_id g.epoch (set_asymmetric_gate (some g) s).1 ≡ g
unfolding get_asymmetric_gate set_asymmetric_gate
gate_round_trip g s =
    ground (arith, get-insert_self (gate_key g.operator_id g.org_id g.epoch) g s.gates)
