-- ===== src/Bandwidth/Budget.antt =====
-- The budget of an organisation in an epoch: what a consumption does, and how often it may happen.
use wevibe_chain.Common.{
  ℕ, ◌≤◌, ◌≡◌, refl, ◌∙◌, none, some, Text, codes, arith, uint64_max, ok, Option-cases, Bool-cases,
  text_eq, text_eq→eq, eq_false_ne, ◌==◌, bind_ok, inl, inr, append_cancel_left, ◌⊎◌,
}
use wevibe_chain.Common.Decimal.{format_uint-injective, format_uint-NoSlash, last_slash}
use wevibe_chain.Common.Dict.{get, insert}
use wevibe_chain.Common.Dict.Laws.{get-insert_self, get-insert_ne}
use wevibe_chain.Bandwidth.Types.{State, BandwidthState, new_bandwidth_state, state_key}
use wevibe_chain.Bandwidth.Keeper.{
  get_params, caps, put_state, get_or_init_bandwidth_state, charge_memory, charge_serve,
  consume_memory_bandwidth, consume_serve_bandwidth,
}

-- The state that the next call sees: the stored one, or a fresh one with the caps of the moment.
unfoldable pub effective : Text → ℕ → State → BandwidthState
effective org epoch s = elim (get (state_key org epoch) s.states) [
  | none ↦ new_bandwidth_state org epoch (caps org s).0 (caps org s).1
  | some b ↦ b
]

-- A key belongs to one organisation and one epoch, whatever bytes the name holds.
pub state_key-injective : (o p : Text) (m n : ℕ) → state_key o m ≡ state_key p n → (o ≡ p) × (m ≡ n)
unfolding state_key
state_key-injective o p m n h =
    let (same, digits) =
      last_slash o p _ _ (format_uint-NoSlash m) (format_uint-NoSlash n)
        (append_cancel_left (codes "state/") h) in
    (same, format_uint-injective m n digits)

-- The store after a state was written under its key.
written : Text → ℕ → BandwidthState → State → State
written org epoch b s = record s { states = insert (state_key org epoch) b s.states }

effective-written :
    (org : Text) (epoch : ℕ) (b : BandwidthState) (s : State)
    → effective org epoch (written org epoch b s) ≡ b
unfolding effective written
effective-written org epoch b s = ground (arith, get-insert_self (state_key org epoch) b s.states)

caps-written :
    (o p : Text) (n : ℕ) (b : BandwidthState) (s : State) → caps o (written p n b s) ≡ caps o s
unfolding caps written get_params
caps-written o p n b s = refl

states-written :
    (o p : Text) (m n : ℕ) (b : BandwidthState) (s : State)
    → ((o ≡ p) × (m ≡ n) → ⊥)
    → get (state_key o m) (written p n b s).states ≡ get (state_key o m) s.states
unfolding written
states-written o p m n b s ne =
    get-insert_ne (state_key o m) (state_key p n) b s.states
      (λ k. ne (state_key-injective o p m n k))

effective-written_ne :
    (o p : Text) (m n : ℕ) (b : BandwidthState) (s : State)
    → ((o ≡ p) × (m ≡ n) → ⊥)
    → effective o m (written p n b s) ≡ effective o m s
unfolding effective
effective-written_ne o p m n b s ne =
    ground (arith, caps-written o p n b s, states-written o p m n b s ne)

-- What a call of GetOrInitBandwidthState leaves.
Initialised : Text → ℕ → State → State → Type 0
Initialised org epoch s s' = (s' ≡ s) ⊎ (s' ≡ written org epoch (effective org epoch s) s)

pub get_or_init_ok :
    (org : Text) (epoch : ℕ) (s : State)
    → (get_or_init_bandwidth_state org epoch s).0 ≡ ok (effective org epoch s)
unfolding get_or_init_bandwidth_state effective put_state
get_or_init_ok org epoch s = ground arith

get_or_init-Initialised :
    (org : Text) (epoch : ℕ) (s : State)
    → Initialised org epoch s (get_or_init_bandwidth_state org epoch s).1
unfolding get_or_init_bandwidth_state effective put_state written Initialised
get_or_init-Initialised org epoch s = elim (Option-cases (get (state_key org epoch) s.states)) [
  | inl e ↦ inr (ground arith)
  | inr (b, e) ↦ inl (ground arith)
]

same_or_other : (o p : Text) (m n : ℕ) → ((o ≡ p) × (m ≡ n)) ⊎ ((o ≡ p) × (m ≡ n) → ⊥)
same_or_other o p m n = elim (Bool-cases (text_eq o p)) [
  | inr e ↦ inr (λ h. eq_false_ne o p e h.0)
  | inl e ↦ elim (Bool-cases (m == n)) [
    | inl d ↦ inl (text_eq→eq o p e, ground arith)
    | inr d ↦ inr (λ h. ground arith)
  ]
]

Initialised-effective :
    (org : Text) (epoch : ℕ) (s s' : State)
    → Initialised org epoch s s'
    → (o : Text) (m : ℕ) → effective o m s' ≡ effective o m s
unfolding Initialised
Initialised-effective org epoch s s' (inl e) o m = rw e
Initialised-effective org epoch s s' (inr e) o m = rw e (elim (same_or_other o org m epoch) [
  | inl (a, b) ↦ rw (a, b) (effective-written org epoch (effective org epoch s) s)
  | inr ne ↦ effective-written_ne o org m epoch (effective org epoch s) s ne
])

-- No usage is above its cap, and the caps are 64-bit numbers.
pub record IsWithin (b : BandwidthState) : Type 0 where
  pub memory : b.memory_used ≤ b.memory_cap
  pub serve : b.serve_used ≤ b.serve_cap
  pub memory_bounded : b.memory_cap ≤ uint64_max
  pub serve_bounded : b.serve_cap ≤ uint64_max

module _ (org : Text) (epoch : ℕ) (s : State) where
  -- The store with which the test and the write of a consumption begin.
  abbrev pub ready : State
  ready = (get_or_init_bandwidth_state org epoch s).1

  pub put_self : (b : BandwidthState) → effective org epoch (put_state org epoch b ready).1 ≡ b
  unfolding put_state written
  put_self b = effective-written org epoch b ready

  pub put_other :
      (b : BandwidthState) (o : Text) (m : ℕ)
      → ((o ≡ org) × (m ≡ epoch) → ⊥)
      → effective o m (put_state org epoch b ready).1 ≡ effective o m s
  unfolding put_state written
  put_other b o m ne =
      effective-written_ne o org m epoch b ready ne
      ∙ Initialised-effective org epoch s ready (get_or_init-Initialised org epoch s) o m

  pub memory_steps :
      consume_memory_bandwidth org epoch s ≡ charge_memory org epoch (effective org epoch s) ready
  unfolding consume_memory_bandwidth
  memory_steps =
      bind_ok (get_or_init_bandwidth_state org epoch) (charge_memory org epoch) s
        (get_or_init_ok org epoch s)

  pub serve_steps :
      (count : ℕ)
      → consume_serve_bandwidth org epoch count s
        ≡ charge_serve org epoch count (effective org epoch s) ready
  unfolding consume_serve_bandwidth
  serve_steps count =
      bind_ok (get_or_init_bandwidth_state org epoch) (charge_serve org epoch count) s
        (get_or_init_ok org epoch s)

  pub ready-effective : (o : Text) (m : ℕ) → effective o m ready ≡ effective o m s
  ready-effective = Initialised-effective org epoch s ready (get_or_init-Initialised org epoch s)
