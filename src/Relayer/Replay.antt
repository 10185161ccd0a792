-- ===== src/Relayer/Replay.antt =====
-- The relayer's memory of what it has done: relayer/internal/replay/store.go. The file behind it is
-- a parameter: the error of `persistLocked`, if it has one.
pub mod Memory
use aegis_link.Common.{ℕ, Bool, Option, none, some, List, [], ◌∷◌}
use aegis_link.Common.Map.{Map, lookup, insert}
use aegis_link.Text.{Text, text_eq}
use aegis_link.Bridge.Attestation.{is_seen}
use aegis_link.Relayer.Services.{Failure, store_unavailable}

pub record Store : Type 0 where
  pub checkpoints : Map Text ℕ
  pub processed : List Text  -- a set
  pub load_error : Option Failure

unfoldable pub new_store : Store
new_store = record { checkpoints = []; processed = []; load_error = none }

abbrev pub or_zero : Option ℕ → ℕ
or_zero none = 0
or_zero (some n) = n

unfoldable pub checkpoint : Store → Text → ℕ
checkpoint s key = or_zero (lookup key s.checkpoints)

unfoldable pub is_processed : Store → Text → Bool
is_processed s key = is_seen key s.processed

-- The store that a write leaves, and its error, for the error that writing the file would have.
unfoldable pub save_checkpoint :
    Store → Text → ℕ → (Store → Option Failure) → Store × Option Failure
save_checkpoint s key value persist = elim s.load_error [
  | some e ↦ (s, some store_unavailable)
  | none ↦ let s' = record s { checkpoints = insert key value s.checkpoints } in (s', persist s')
]

unfoldable pub mark_processed : Store → Text → (Store → Option Failure) → Store × Option Failure
mark_processed s key persist = elim s.load_error [
  | some e ↦ (s, some store_unavailable)
  | none ↦ let s' = record s { processed = key ∷ s.processed } in (s', persist s')
]
