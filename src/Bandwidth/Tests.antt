-- ===== src/Bandwidth/Tests.antt =====
-- Runs and instances for x/bandwidth.
use wevibe_chain.Common.{
  ◌+◌, ◌-◌, ◌≤◌, ◌≡◌, refl, Bool, [], ◌∷◌, Text, codes, text_eq, Result, ok, err, Error, arith,
}
use Prim.Native.Nat.{min}
use wevibe_chain.Common.Decimal.{format_uint}
use wevibe_chain.Common.Dict.{get}
use wevibe_chain.Bandwidth.Types.{State, BandwidthState, state_key, empty_state}
use wevibe_chain.Bandwidth.Budget.{effective, IsWithin}
use wevibe_chain.Bandwidth.Allowance.{consume_times, consume_times-min}
use wevibe_chain.Bandwidth.MsgServer.{
  MsgSetBandwidthOverride, set_override_message, override_err_unchanged,
}

abbrev org : Text
org = codes "org"

abbrev used : BandwidthState
used = record {
  org_id = org;
  epoch = 7;
  memory_used = 3;
  memory_cap = 5;
  serve_used = 10;
  serve_cap = 20;
}

abbrev store : State
store = record empty_state { states = (codes "state/org/7", used) ∷ [] }

store-IsWithin : IsWithin (effective org 7 store)
unfolding effective state_key get text_eq format_uint
store-IsWithin = record {
  memory = omega arith;
  serve = omega arith;
  memory_bounded = omega arith;
  serve_bounded = omega arith;
}

serve_small : (effective org 7 store).serve_used + 4 ≤ (effective org 7 store).serve_cap
unfolding effective state_key get text_eq format_uint
serve_small = omega arith

consume_times-min_example :
    (consume_times org 7 9 store).0
    ≡ min 9 ((effective org 7 store).memory_cap - (effective org 7 store).memory_used)
consume_times-min_example = consume_times-min org 7 9 store store-IsWithin

-- The org keeper: one organisation, led by "lea".
abbrev known_org : Text → Result Bool
known_org o = ok (text_eq o org)

abbrev led_by_lea : Text → Text → Result Bool
led_by_lea o who = ok (text_eq who (codes "lea"))

abbrev raise_caps : MsgSetBandwidthOverride
raise_caps = record { signer = codes "lea"; org_id = org; memory_cap = 8; serve_cap = 9 }

abbrev by_bob : MsgSetBandwidthOverride
by_bob = record raise_caps { signer = codes "bob" }

bob_refused : (set_override_message known_org led_by_lea by_bob store).0 ≡ err Error.unauthorized
unfolding set_override_message text_eq
bob_refused = refl

override_err_unchanged_example : (set_override_message known_org led_by_lea by_bob store).1 ≡ store
override_err_unchanged_example =
    override_err_unchanged known_org led_by_lea by_bob store bob_refused
