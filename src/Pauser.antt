-- ===== src/Pauser.antt =====
-- The pause switches of x/pauser (keeper/keeper.go).
pub mod History
use aegis_link.Common.{Bool, true, false, Option, none, some, List, [], ◌∷◌, map, if◌then◌else◌}
use aegis_link.Common.Map.{Map, lookup, insert, erase}
use aegis_link.Text.{Text, text_eq, trim_space, text_beq}
use aegis_link.Errors.{Error, Outcome, invalid_flow, flow_paused}

pub record Keeper : Type 0 where
  pub paused : Map Text Bool

unfoldable pub new_keeper : Keeper
new_keeper = record { paused = [] }

-- `flowKey`: the trimmed name, or an error if nothing is left of it.
abbrev pub flow_key : Text → Option Text
flow_key flow = let key = trim_space flow in if text_beq key [] then none else some key

unfoldable pub pause : Keeper → Text → Outcome Keeper
pause k flow = elim (flow_key flow) [
  | none ↦ (k, some invalid_flow)
  | some key ↦ (record k { paused = insert key true k.paused }, none)
]

unfoldable pub unpause : Keeper → Text → Outcome Keeper
unpause k flow = elim (flow_key flow) [
  | none ↦ (k, some invalid_flow)
  | some key ↦ (record k { paused = erase key k.paused }, none)
]

abbrev bool_or_false : Option Bool → Bool
bool_or_false none = false
bool_or_false (some b) = b

unfoldable pub is_paused : Keeper → Text → Bool
is_paused k flow = elim (flow_key flow) [
  | none ↦ false
  | some key ↦ bool_or_false (lookup key k.paused)
]

unfoldable pub assert_not_paused : Keeper → Text → Option Error
unfolding is_paused
assert_not_paused k flow = if is_paused k flow then some flow_paused else none

-- The flows of a list, set in a new map; the first one with no name stops the import.
import_flows : Map Text Bool → List Text → Outcome Keeper
import_flows m [] = (record { paused = m }, none)
import_flows m (flow ∷ flows) = elim (flow_key flow) [
  | none ↦ (record { paused = m }, some invalid_flow)
  | some key ↦ import_flows (insert key true m) flows
]

unfoldable pub import_paused_flows : Keeper → List Text → Outcome Keeper
unfolding import_flows
import_paused_flows k flows = import_flows [] flows
