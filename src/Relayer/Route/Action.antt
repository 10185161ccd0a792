-- ===== src/Relayer/Route/Action.antt =====
-- What a memo asks the destination to do: `parseRouteAction` of relayer/internal/route/relay.go.
-- The texts of the errors are kept as data.
use aegis_link.Common.{ℕ, ◌||◌, Option, none, some, List, [], ◌∷◌, if◌then◌else◌, nat_beq}
use aegis_link.Text.{Text, lit, trim_space, text_beq, cut_before, cut_after}
use aegis_link.Bridge.Attestation.{is_seen}

pub data ActionKind : Type 0 where
  swap stake : ActionKind

pub record RouteAction : Type 0 where
  pub kind : ActionKind
  pub target_denom : Text
  pub min_out : Text
  pub recipient : Text
  pub path : Text

pub data ActionError : Type 0 where
  missing_target_denom empty_option : ActionKind → ActionError
  invalid_option duplicate_option unsupported_option : ActionKind → Text → ActionError
  unsupported_action : Text → ActionError

-- No action, an action, or an error in its place.
pub data Parsed : Type 0 where
  no_action : Parsed
  action : RouteAction → Parsed
  action_error : ActionError → Parsed

abbrev cons_head : ℕ → List Text → List Text
cons_head a [] = (a ∷ []) ∷ []
cons_head a (p ∷ ps) = (a ∷ p) ∷ ps

-- `strings.Split` by a separator of one byte.
unfoldable pub split_on : ℕ → Text → List Text
split_on sep [] = [] ∷ []
split_on sep (a ∷ s) =
    let parts = split_on sep s in if nat_beq a sep then [] ∷ parts else cons_head a parts

-- The switch over the keys; a stake has no `min_out`.
unfoldable pub set_option : Text → Text → RouteAction → Option RouteAction
set_option key value a =
    if text_beq key (lit "recipient")
    then some (record a { recipient = value })
    else if text_beq key (lit "path")
    then some (record a { path = value })
    else elim a.kind [
      | swap ↦ if text_beq key (lit "min_out") then some (record a { min_out = value }) else none
      | stake ↦ none
    ]

-- The loop over the options, for the keys seen before.
unfoldable pub read_options : List Text → RouteAction → List Text → Parsed
unfolding set_option
read_options seen a [] = action a
read_options seen a (p ∷ parts) =
    let part = trim_space p in
    if text_beq part [] then action_error (empty_option a.kind) else elim (cut_after 0x3d part) [
      | none ↦ action_error (invalid_option a.kind part)
      | some after ↦
          let key = trim_space (cut_before 0x3d part) in
          let value = trim_space after in
          if text_beq key [] || text_beq value []
          then action_error (invalid_option a.kind part)
          else if is_seen key seen
          then action_error (duplicate_option a.kind key)
          else elim (set_option key value a) [
            | none ↦ action_error (unsupported_option a.kind key)
            | some a' ↦ read_options (key ∷ seen) a' parts
          ]
    ]

-- An action of a kind, from its target denomination on.
unfoldable pub read_action : ActionKind → Text → List Text → Parsed
unfolding read_options
read_action kind target parts =
    let denom = trim_space target in
    if text_beq denom []
    then action_error (missing_target_denom kind)
    else read_options []
        (record { kind = kind; target_denom = denom; min_out = []; recipient = []; path = [] })
        parts

abbrev action_of_parts : List Text → Parsed
action_of_parts [] = no_action
action_of_parts (p ∷ []) =
    if text_beq (trim_space p) (lit "swap")
    then action_error (missing_target_denom swap)
    else no_action
action_of_parts (p ∷ target ∷ parts) =
    if text_beq (trim_space p) (lit "swap")
    then read_action swap target parts
    else if text_beq (trim_space p) (lit "stake")
    then read_action stake target parts
    else action_error (unsupported_action (trim_space p))

unfoldable pub parse_route_action : Text → Parsed
unfolding split_on read_action
parse_route_action m =
    let memo = trim_space m in
    if text_beq memo [] then no_action else action_of_parts (split_on 0x3a memo)
