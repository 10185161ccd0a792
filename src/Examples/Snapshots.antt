-- ===== src/Examples/Snapshots.antt =====
-- A snapshot of the small chain with some supply.
use aegis_link.Common.{◌≡◌, refl, none, [], ◌∷◌}
use aegis_link.Common.Int.{pos}
use aegis_link.Text.{lit}
use aegis_link.Bridge.State.{Keeper}
use aegis_link.Bridge.Snapshot.{import_state, export_state}
use aegis_link.Bridge.Snapshot.Roundtrip.{IsStored, import-export}
use aegis_link.Examples.Data.{chain}

abbrev supplied : Keeper
supplied = record chain { supply_by_denom = (lit "ueth", pos 60) ∷ (lit "uusdc", pos 5) ∷ [] }

supplied-IsStored : IsStored supplied
unfolding aegis_link.Bridge.State.new_keeper aegis_link.Common.Map.lookup aegis_link.Text.text_beq
    aegis_link.Bridge.Attestation.signer_address_from_public_key aegis_link.Text.to_lower
    aegis_link.Text.trim_space aegis_link.Codec.hex_encode
supplied-IsStored = record {
  unique_claims = tt;
  unique_supply = (refl, (refl, tt));
  unique_sets = (refl, tt);
  some_set = refl;
  normal_sets = ((refl, refl), tt);
  counted = refl;
}

import-export_example : import_state chain (export_state supplied) ≡ (
  record supplied {
    registry_keeper = chain.registry_keeper;
    limits_keeper = chain.limits_keeper;
    pauser_keeper = chain.pauser_keeper;
  },
  none,
)
import-export_example = import-export supplied chain supplied-IsStored
