-- ===== src/Bandwidth/Consumption.antt =====
-- What a consumption does to its budget and to the others, and how many go through.
use wevibe_chain.Common.{
  ℕ, ◌+◌, ◌-◌, ◌≤◌, ◌<◌, ◌≡◌, refl, ap, Text, arith, uint64_max, add64, add64-eq-add, Result, ok,
  err, Error,
}
use wevibe_chain.Bandwidth.Types.{State, BandwidthState}
use wevibe_chain.Bandwidth.Keeper.{
  put_state, charge_memory, charge_serve, consume_memory_bandwidth, consume_serve_bandwidth,
}
use wevibe_chain.Bandwidth.Budget.{
  effective, IsWithin, ready, put_self, put_other, memory_steps, serve_steps, ready-effective,
}

charge_memory_ok :
    (org : Text) (epoch : ℕ) (b : BandwidthState) (t : State)
    → IsWithin b
    → b.memory_used < b.memory_cap
    → charge_memory org epoch b t
      ≡ put_state org epoch (record b { memory_used = b.memory_used + 1 }) t
unfolding charge_memory put_state
charge_memory_ok org epoch b t v h = ground (arith, add64-eq-add b.memory_used 1)

charge_memory_err :
    (org : Text) (epoch : ℕ) (b : BandwidthState) (t : State)
    → b.memory_cap ≤ b.memory_used
    → charge_memory org epoch b t ≡ (err Error.memory_bandwidth_exhausted, t)
unfolding charge_memory
charge_memory_err org epoch b t h = ground arith

charge_serve_ok :
    (org : Text) (epoch count : ℕ) (b : BandwidthState) (t : State)
    → IsWithin b
    → b.serve_used + count ≤ b.serve_cap
    → charge_serve org epoch count b t
      ≡ put_state org epoch (record b { serve_used = b.serve_used + count }) t
unfolding charge_serve put_state
charge_serve_ok org epoch count b t v h = ground (arith, add64-eq-add b.serve_used count)

charge_serve_err :
    (org : Text) (epoch count : ℕ) (b : BandwidthState) (t : State)
    → b.serve_cap < b.serve_used + count
    → b.serve_used + count ≤ uint64_max
    → charge_serve org epoch count b t ≡ (err Error.serve_bandwidth_exhausted, t)
unfolding charge_serve
charge_serve_err org epoch count b t h fits = ground (arith, add64-eq-add b.serve_used count)

wrapped_sum :
    (a n : ℕ)
    → uint64_max < a + n
    → a ≤ uint64_max
    → n ≤ uint64_max
    → add64 a n ≡ a + n - 18446744073709551616
unfolding add64
wrapped_sum a n h k l = omega arith

charge_serve_wrapped :
    (org : Text) (epoch count : ℕ) (b : BandwidthState) (t : State)
    → IsWithin b
    → count ≤ uint64_max
    → uint64_max < b.serve_used + count
    → charge_serve org epoch count b t
      ≡ put_state org epoch
          (record b { serve_used = b.serve_used + count - 18446744073709551616 })
          t
unfolding charge_serve put_state
charge_serve_wrapped org epoch count b t v h k = ground (arith, wrapped_sum b.serve_used count)

put_ok :
    (org : Text) (epoch : ℕ) (b : BandwidthState) (t : State) → (put_state org epoch b t).0 ≡ ok tt
unfolding put_state
put_ok org epoch b t = refl

module _ (org : Text) (epoch : ℕ) (s : State) where
  -- The call succeeded, its budget became `b`, and no other budget changed.
  abbrev pub Charges : Result (Unit {0}) × State → BandwidthState → Type 0
  Charges (r, s') b =
      (r ≡ ok tt)
      × (effective org epoch s' ≡ b)
      × ((o : Text) (m : ℕ) → ((o ≡ org) × (m ≡ epoch) → ⊥) → effective o m s' ≡ effective o m s)

  put_Charges : (b : BandwidthState) → Charges (put_state org epoch b (ready org epoch s)) b
  put_Charges b =
      (put_ok org epoch b (ready org epoch s), put_self org epoch s b, put_other org epoch s b)

  -- Below its memory cap a budget within its caps takes one more memory, and no other budget changes.
  pub consume_memory_below :
      IsWithin (effective org epoch s)
      → (effective org epoch s).memory_used < (effective org epoch s).memory_cap
      → Charges
          (consume_memory_bandwidth org epoch s)
          (record (effective org epoch s) { memory_used = (effective org epoch s).memory_used + 1 })
  consume_memory_below v h =
      rw (memory_steps org epoch s, charge_memory_ok org epoch (effective org epoch s) _ v h)
        (put_Charges _)

  -- At its memory cap a budget refuses one more memory, and no budget changes.
  pub consume_memory_exhausted :
      (effective org epoch s).memory_cap ≤ (effective org epoch s).memory_used
      → let (r, s') = consume_memory_bandwidth org epoch s in
        (r ≡ err Error.memory_bandwidth_exhausted)
        × ((o : Text) (m : ℕ) → effective o m s' ≡ effective o m s)
  consume_memory_exhausted h =
      rw (memory_steps org epoch s, charge_memory_err org epoch (effective org epoch s) _ h)
        (refl, ready-effective org epoch s)

  -- A serve within the cap of a budget within its caps is added to the usage, and no other budget
  -- changes.
  pub consume_serve_fits :
      (count : ℕ)
      → IsWithin (effective org epoch s)
      → (effective org epoch s).serve_used + count ≤ (effective org epoch s).serve_cap
      → Charges (consume_serve_bandwidth org epoch count s) (record (effective org epoch s) {
        serve_used = (effective org epoch s).serve_used + count;
      })
  consume_serve_fits count v h =
      rw
        (
          serve_steps org epoch s count,
          charge_serve_ok org epoch count (effective org epoch s) _ v h,
        )
        (put_Charges _)

  -- A serve beyond the cap whose sum fits in 64 bits is refused, and no budget changes.
  pub consume_serve_exhausted :
      (count : ℕ)
      → (effective org epoch s).serve_used + count ≤ uint64_max
      → (effective org epoch s).serve_cap < (effective org epoch s).serve_used + count
      → let (r, s') = consume_serve_bandwidth org epoch count s in
        (r ≡ err Error.serve_bandwidth_exhausted)
        × ((o : Text) (m : ℕ) → effective o m s' ≡ effective o m s)
  consume_serve_exhausted count fits h =
      rw
        (
          serve_steps org epoch s count,
          charge_serve_err org epoch count (effective org epoch s) _ h fits,
        )
        (refl, ready-effective org epoch s)

  -- A flaw: from a budget within its caps, a serve of a 64-bit count so large that the sum with the
  -- usage leaves 64 bits is accepted, whatever the cap, and lowers the usage.
  pub consume_serve_wraps :
      (count : ℕ)
      → IsWithin (effective org epoch s)
      → count ≤ uint64_max
      → uint64_max < (effective org epoch s).serve_used + count
      → let (r, s') = consume_serve_bandwidth org epoch count s in
        (r ≡ ok tt) × ((effective org epoch s').serve_used < (effective org epoch s).serve_used)
  consume_serve_wraps count v small h =
      rw
        (
          serve_steps org epoch s count,
          charge_serve_wrapped org epoch count (effective org epoch s) _ v small h,
        )
        (
          put_ok org epoch _ (ready org epoch s),
          omega (
            arith,
            ap (λ (b : BandwidthState). b.serve_used)
                (put_self org epoch s (record (effective org epoch s) {
                  serve_used = (effective org epoch s).serve_used + count - 18446744073709551616;
                })),
          ),
        )
