-- ===== src/Bandwidth/Allowance.antt =====
-- How many requests an epoch's budget grants, and what it says is left.
use wevibe_chain.Common.{
  ℕ, zero, suc, ◌+◌, ◌-◌, ◌≤◌, ◌<◌, ◌≡◌, ap, false, Text, ltb, arith, ok, err, Error, inl, inr,
  Bool-cases, ltb→lt, sub64, sub64-eq-sub, bind_ok, pure,
}
use Prim.Native.Nat.{min}
use wevibe_chain.Bandwidth.Types.{State, BandwidthState}
use wevibe_chain.Bandwidth.Keeper.{
  get_or_init_bandwidth_state, consume_memory_bandwidth, get_remaining_bandwidth,
}
use wevibe_chain.Bandwidth.Budget.{effective, IsWithin, ready-effective, get_or_init_ok}
use wevibe_chain.Bandwidth.Consumption.{consume_memory_below, consume_memory_exhausted}

-- Asks for one memory `n` times, and counts the answers without an error.
unfoldable pub consume_times : Text → ℕ → ℕ → State → ℕ × State
consume_times org epoch zero s = (0, s)
consume_times org epoch (suc n) s =
    let (r, s') = consume_memory_bandwidth org epoch s in
    let (k, t) = consume_times org epoch n s' in elim r [ ok u ↦ (k + 1, t) | err e ↦ (k, t) ]

consume_times_below :
    (org : Text) (epoch n : ℕ) (s : State)
    → (consume_memory_bandwidth org epoch s).0 ≡ ok tt
    → (consume_times org epoch (suc n) s).0
      ≡ (consume_times org epoch n (consume_memory_bandwidth org epoch s).1).0 + 1
unfolding consume_times
consume_times_below org epoch n s h = ground arith

consume_times_exhausted :
    (org : Text) (epoch n : ℕ) (s : State) (e : Error)
    → (consume_memory_bandwidth org epoch s).0 ≡ err e
    → (consume_times org epoch (suc n) s).0
      ≡ (consume_times org epoch n (consume_memory_bandwidth org epoch s).1).0
unfolding consume_times
consume_times_exhausted org epoch n s e h = ground arith

charged_once :
    (b : BandwidthState)
    → IsWithin b
    → b.memory_used < b.memory_cap
    → IsWithin (record b { memory_used = b.memory_used + 1 })
charged_once b v h = ground arith

ltb→ge : (a b : ℕ) → ltb a b ≡ false → b ≤ a
ltb→ge a b h = ground arith

-- Of `n` requests for memory in an epoch, from a budget within its caps, exactly as many go through as the cap leaves room for.
pub consume_times-min :
    (org : Text) (epoch n : ℕ) (s : State)
    → IsWithin (effective org epoch s)
    → (consume_times org epoch n s).0
      ≡ min n ((effective org epoch s).memory_cap - (effective org epoch s).memory_used)
unfolding consume_times
consume_times-min org epoch zero s v = omega arith
consume_times-min org epoch (suc n) s v =
    let b = effective org epoch s in
    let t = (consume_memory_bandwidth org epoch s).1 in
    elim (Bool-cases (ltb b.memory_used b.memory_cap)) [
      | inl below ↦
          let (done, new, others) = consume_memory_below org epoch s v (ground arith) in
          let one_more = consume_times_below org epoch n s done in
          let rest =
            consume_times-min org epoch n t (rw new (charged_once b v (ltb→lt _ _ below))) in
          omega (
            arith,
            one_more,
            rest,
            ap (λ (c : BandwidthState). c.memory_cap) new,
            ap (λ (c : BandwidthState). c.memory_used) new,
            ltb→lt _ _ below,
          )
      | inr full ↦
          let (failed, same) = consume_memory_exhausted org epoch s (ground arith) in
          let none_more = consume_times_exhausted org epoch n s _ failed in
          let rest = consume_times-min org epoch n t (rw (same org epoch) v) in
          omega (
            arith,
            none_more,
            rest,
            ap (λ (c : BandwidthState). c.memory_cap) (same org epoch),
            ap (λ (c : BandwidthState). c.memory_used) (same org epoch),
            ltb→ge _ _ full,
          )
    ]

-- What remains of a budget within its caps is the caps less the usage; asking changes no budget.
pub remaining_lem :
    (org : Text) (epoch : ℕ) (s : State)
    → IsWithin (effective org epoch s)
    → let (r, s') = get_remaining_bandwidth org epoch s in
      let b = effective org epoch s in
      (r ≡ ok (b.memory_cap - b.memory_used, b.serve_cap - b.serve_used))
      × ((o : Text) (m : ℕ) → effective o m s' ≡ effective o m s)
unfolding get_remaining_bandwidth
remaining_lem org epoch s v =
    let b = effective org epoch s in
    let left =
      bind_ok {B = ℕ × ℕ} (get_or_init_bandwidth_state org epoch)
        (λ c. pure (sub64 c.memory_cap c.memory_used, sub64 c.serve_cap c.serve_used)) s
        (get_or_init_ok org epoch s) in
    rw left (
      ground (
        arith,
        sub64-eq-sub b.memory_cap b.memory_used v.memory v.memory_bounded,
        sub64-eq-sub b.serve_cap b.serve_used v.serve v.serve_bounded,
      ),
      ready-effective org epoch s,
    )
