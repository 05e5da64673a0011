-- ===== src/Bandwidth/Keeper.antt =====
-- x/bandwidth/keeper/keeper.go: the budgets. The store service returns no error, and a stored
-- value decodes to what was encoded.
use wevibe_chain.Common.{
  ℕ, Option, none, some, Text, ltb, leb, add64, sub64, ok, Error, Action, pure, or_raise, modify,
  raise_if, ◌>>=◌, ◌>>◌,
}
use wevibe_chain.Common.Dict.{get, insert, erase}
use wevibe_chain.Bandwidth.Types.{
  State, Params, default_params, BandwidthState, new_bandwidth_state, BandwidthOverride,
  new_bandwidth_override, state_key, override_key,
}

unfoldable pub set_params : Params → Action State (Unit {0})
set_params p = modify (λ s. record s { params = some p })

unfoldable pub get_params : State → Params
get_params s = elim s.params [ none ↦ default_params | some p ↦ p ]

-- The caps of a new state: those of the override, or the default ones.
unfoldable pub caps : Text → State → ℕ × ℕ
caps org s = elim (get (override_key org) s.overrides) [
  | none ↦ ((get_params s).default_memory_cap_per_epoch, (get_params s).default_serve_cap_per_epoch)
  | some o ↦ (o.memory_cap, o.serve_cap)
]

unfoldable pub put_state : Text → ℕ → BandwidthState → Action State (Unit {0})
put_state org epoch b = modify (λ s. record s { states = insert (state_key org epoch) b s.states })

unfoldable pub get_or_init_bandwidth_state : Text → ℕ → Action State BandwidthState
get_or_init_bandwidth_state org epoch s =
    let (memory_cap, serve_cap) = caps org s in
    let fresh : BandwidthState = new_bandwidth_state org epoch memory_cap serve_cap in
    elim (get (state_key org epoch) s.states) [
      | some b ↦ (ok b, s)
      | none ↦ (put_state org epoch fresh >> pure fresh) s
    ]

-- GetOrInitBandwidthStateRaw
unfoldable pub get_or_init_bandwidth_state_raw : Text → ℕ → Action State (ℕ × ℕ × ℕ × ℕ)
get_or_init_bandwidth_state_raw org epoch = do
  b ← get_or_init_bandwidth_state org epoch
  pure (b.memory_used, b.memory_cap, b.serve_used, b.serve_cap)

unfoldable pub get_bandwidth_state : Text → ℕ → State → Option BandwidthState
get_bandwidth_state org epoch s = get (state_key org epoch) s.states

-- The rest of ConsumeMemoryBandwidth and of ConsumeServeBandwidth, from the state read.
unfoldable pub charge_memory : Text → ℕ → BandwidthState → Action State (Unit {0})
charge_memory org epoch b = do
  raise_if (leb b.memory_cap b.memory_used) Error.memory_bandwidth_exhausted
  put_state org epoch (record b { memory_used = add64 b.memory_used 1 })

unfoldable pub charge_serve : Text → ℕ → ℕ → BandwidthState → Action State (Unit {0})
charge_serve org epoch count b = do
  raise_if (ltb b.serve_cap (add64 b.serve_used count)) Error.serve_bandwidth_exhausted
  put_state org epoch (record b { serve_used = add64 b.serve_used count })

unfoldable pub consume_memory_bandwidth : Text → ℕ → Action State (Unit {0})
consume_memory_bandwidth org epoch = do
  b ← get_or_init_bandwidth_state org epoch
  charge_memory org epoch b

unfoldable pub consume_serve_bandwidth : Text → ℕ → ℕ → Action State (Unit {0})
consume_serve_bandwidth org epoch count = do
  b ← get_or_init_bandwidth_state org epoch
  charge_serve org epoch count b

unfoldable pub get_bandwidth_override : Text → Action State BandwidthOverride
get_bandwidth_override org s =
    or_raise (get (override_key org) s.overrides) Error.override_not_found s

unfoldable pub set_bandwidth_override : Text → ℕ → ℕ → Action State (Unit {0})
set_bandwidth_override org memory_cap serve_cap = modify (λ s. record s {
  overrides =
      insert (override_key org) (new_bandwidth_override org memory_cap serve_cap) s.overrides;
})

unfoldable pub delete_bandwidth_override : Text → Action State (Unit {0})
delete_bandwidth_override org =
    modify (λ s. record s { overrides = erase (override_key org) s.overrides })

unfoldable pub get_remaining_bandwidth : Text → ℕ → Action State (ℕ × ℕ)
get_remaining_bandwidth org epoch = do
  b ← get_or_init_bandwidth_state org epoch
  pure (sub64 b.memory_cap b.memory_used, sub64 b.serve_cap b.serve_used)
