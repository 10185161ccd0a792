-- ===== src/Examples/Assets.antt =====
-- The registry and the pause switches of the small chain, and its encodings.
use aegis_link.Common.{◌≡◌, ◌≢◌, none, some, [], ◌∷◌, if◌then◌else◌}
use aegis_link.Common.Int.{negsuc}
use aegis_link.Text.{lit, trim_space}
use aegis_link.Errors.{flow_paused}
use aegis_link.Codec.{int_decimal, set_string}
use aegis_link.Codec.Decimal.{set_string-int_decimal}
use aegis_link.Pauser
use aegis_link.Pauser.{is_paused, assert_not_paused}
use aegis_link.Pauser.History.{call_pause, call_unpause, run, last_word, assert_not_paused-run}
use aegis_link.Registry
use aegis_link.Registry.{register_asset, import_assets}
use aegis_link.Registry.Denoms.{IsValid, register-IsValid, import-IsValid}
use aegis_link.Examples.Data.{registry, ether, token}

import-IsValid_example :
    IsValid (import_assets Registry.new_keeper (ether ∷ token ∷ ether ∷ [])).0.assets
import-IsValid_example = import-IsValid Registry.new_keeper (ether ∷ token ∷ ether ∷ [])

registry-IsValid : IsValid registry.assets
unfolding Registry.new_keeper import_assets
registry-IsValid =
    register-IsValid Registry.new_keeper ether (import-IsValid Registry.new_keeper [])

register-IsValid_example : IsValid (register_asset registry token).0.assets
register-IsValid_example = register-IsValid registry token registry-IsValid

assert_not_paused-run_example :
    let calls =
      call_pause (lit "eth") ∷ call_pause (lit "usdc") ∷ call_unpause (lit " usdc") ∷ [] in
    assert_not_paused (run Pauser.new_keeper calls) (lit "eth") ≡ (
      if last_word (lit "eth") (is_paused Pauser.new_keeper (lit "eth")) calls
      then some flow_paused
      else none)
unfolding trim_space
assert_not_paused-run_example =
    assert_not_paused-run Pauser.new_keeper
      (call_pause (lit "eth") ∷ call_pause (lit "usdc") ∷ call_unpause (lit " usdc") ∷ [])
      (lit "eth") named
  where
    named : lit "eth" ≢ []
    named e = cc e

set_string-int_decimal_example : set_string (int_decimal (negsuc 41)) ≡ some (negsuc 41)
set_string-int_decimal_example = set_string-int_decimal (negsuc 41)
