-- ===== src/Bandwidth/Genesis.antt =====
-- The genesis of x/bandwidth/keeper/keeper.go.
use wevibe_chain.Common.{
  ◌≡◌, Bool, false, Option, none, some, List, [], ◌∷◌, ◌++◌, ◌||◌, map, Text, ◌==◌, text_eq,
  if◌then◌else◌, Action, modify, ◌>>◌,
}
use wevibe_chain.Common.Dict.{values}
use wevibe_chain.Common.Dict.Rebuild.{insert_all}
use wevibe_chain.Bandwidth.Types.{
  State, Params, BandwidthState, BandwidthOverride, GenesisState, state_key, override_key,
}

abbrev pub state_key_of : BandwidthState → Text
state_key_of b = state_key b.org_id b.epoch

-- The maps `seenOverrides` and `seenOverrideOrgs`: the first entry of an organisation counts.
unfoldable pub seen_before : Text → List Text → Bool
unfolding text_eq
seen_before k [] = false
seen_before k (j ∷ seen) = text_eq k j || seen_before k seen

unfoldable pub first_of_each : List Text → List BandwidthOverride → List BandwidthOverride
unfolding seen_before
first_of_each seen [] = []
first_of_each seen (o ∷ rest) =
    let added = o ∷ first_of_each (o.org_id ∷ seen) rest in
    let skipped = first_of_each seen rest in if seen_before o.org_id seen then skipped else added

abbrev pub override_key_of : BandwidthOverride → Text
override_key_of o = override_key o.org_id

-- InitGenesis
unfoldable pub init_genesis : GenesisState → Action State (Unit {0})
unfolding first_of_each
init_genesis g = do
  modify (λ s. record s { states = insert_all state_key_of g.bandwidth_states s.states })
  modify (λ s. record s {
    overrides = insert_all override_key_of (first_of_each [] g.bandwidth_overrides) s.overrides;
  })

-- What the bytes of a state read as an override: both messages have the organisation as field 1,
-- and field 2 and 3 are the epoch and the memory used in the one, the two caps in the other. The
-- other fields are unknown there, and skipped.
unfoldable pub state_as_override : BandwidthState → BandwidthOverride
state_as_override b = record { org_id = b.org_id; memory_cap = b.epoch; serve_cap = b.memory_used }

-- What the bytes of the parameters read as an override. Field 1 is a number there, which is refused
-- for a text; but a zero is not written, and then field 2 is read as the memory cap.
unfoldable pub params_as_override : Option Params → List BandwidthOverride
params_as_override none = []
params_as_override (some p) =
    if p.default_memory_cap_per_epoch == 0
    then record { org_id = []; memory_cap = p.default_serve_cap_per_epoch; serve_cap = 0 } ∷ []
    else []

-- ExportGenesis. Both iterators have no end: the one of the states begins at the last prefix, and
-- the one of the overrides runs on over the parameters and the states.
unfoldable pub export_genesis : State → GenesisState
unfolding first_of_each state_as_override params_as_override
export_genesis s = record {
  bandwidth_states = values s.states;
  bandwidth_overrides = first_of_each [] (
      values s.overrides
      ++ (params_as_override s.params ++ map state_as_override (values s.states)));
}

-- A flaw: a store with default parameters, no overrides, and the state of an organisation is exported with an override
-- for it, whose caps are the epoch and the memory used of the state.
pub export_invents_override :
    (s : State) (b : BandwidthState) (rest : List BandwidthState)
    → s.params ≡ none
    → s.overrides ≡ []
    → values s.states ≡ b ∷ rest
    → (others : List BandwidthOverride) × ((export_genesis s).bandwidth_overrides
        ≡ record { org_id = b.org_id; memory_cap = b.epoch; serve_cap = b.memory_used } ∷ others)
unfolding export_genesis
export_invents_override s b rest unset none_set states =
    (first_of_each (b.org_id ∷ []) (map state_as_override rest), rw (unset, none_set, states))
