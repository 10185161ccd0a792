-- ===== src/Bank.antt =====
-- The wallets of x/bank/keeper/keeper.go. `persist` changes nothing in memory; its error, from the
-- hook or the store, is a field of the keeper.
pub mod Balances
pub mod Wallets
pub mod Snapshot
use aegis_link.Common.{
  Bool, true, false, Option, none, some, List, [], ◌∷◌, if◌then◌else◌, is_empty,
}
use aegis_link.Common.Int.{ℤ, pos, ◌+ℤ◌, ◌-ℤ◌, ltb_ℤ, is_zero}
use aegis_link.Common.Map.{Map, lookup, insert, erase}
use aegis_link.Text.{Text, text_eq, trim_space, text_beq}
use aegis_link.Errors.{
  Error, Outcome, Result, ok, err, invalid_address, invalid_denom, invalid_amount,
  insufficient_balance,
}
use aegis_link.Codec.{set_string}
use aegis_link.Limits.{not_positive, clone_big_int}

abbrev pub Balances : Type 0
Balances = Map Text (Map Text ℤ)

pub record Keeper : Type 0 where
  pub balances : Balances
  pub persist_error : Option Error

-- An entry of a record of the snapshot.
pub record BalanceRecord : Type 0 where
  pub address : Text
  pub denom : Text
  pub amount : Text

unfoldable pub new_keeper : Keeper
new_keeper = record { balances = []; persist_error = none }

-- `k.balances[address]`, the empty map where there is none.
abbrev pub wallet : Option (Map Text ℤ) → Map Text ℤ
wallet none = []
wallet (some denoms) = denoms

abbrev pub amount_or_zero : Option ℤ → ℤ
amount_or_zero none = pos 0
amount_or_zero (some a) = a

-- `normalizeDenom`
unfoldable pub normalize_denom : Text → Result Text
normalize_denom denom =
    let trimmed = trim_space denom in if text_beq trimmed [] then err invalid_denom else ok trimmed

-- `normalizeAmount`
unfoldable pub normalize_amount : Option ℤ → Result ℤ
normalize_amount amount =
    if not_positive amount then err invalid_amount else ok (clone_big_int amount)

-- What `Credit` adds to the maps.
unfoldable pub credit_at : Balances → Text → Text → ℤ → Balances
credit_at m address denom amount =
    let denoms = wallet (lookup address m) in
    insert address (insert denom (amount_or_zero (lookup denom denoms) +ℤ amount) denoms) m

-- The tests of the arguments that `Credit` and `Debit` share.
unfoldable pub arguments : Text → Text → Option ℤ → Result (Text × Text × ℤ)
unfolding normalize_denom normalize_amount
arguments address denom amount =
    if text_beq (trim_space address) [] then err invalid_address else elim (normalize_denom denom) [
      | err e ↦ err e
      | ok d ↦ elim (normalize_amount amount) [
        | err e ↦ err e
        | ok a ↦ ok (trim_space address, d, a)
      ]
    ]

unfoldable pub credit : Keeper → Text → Text → Option ℤ → Outcome Keeper
unfolding credit_at arguments
credit k address denom amount = elim (arguments address denom amount) [
  | err e ↦ (k, some e)
  | ok (a, d, v) ↦ (record k { balances = credit_at k.balances a d v }, k.persist_error)
]

-- A wallet put back, or taken away if nothing is left of it.
unfoldable pub put_wallet : Balances → Text → Map Text ℤ → Balances
put_wallet m address denoms = if is_empty denoms then erase address m else insert address denoms m

-- An amount put back, or taken away if it is 0.
unfoldable pub put_amount : Map Text ℤ → Text → ℤ → Map Text ℤ
put_amount denoms denom left = if is_zero left then erase denom denoms else insert denom left denoms

-- What `Debit` takes out of the maps; `none` is `ErrInsufficientBalance`.
unfoldable pub debit_at : Balances → Text → Text → ℤ → Option Balances
unfolding put_wallet put_amount
debit_at m address denom amount = elim (lookup address m) [
  | none ↦ none
  | some denoms ↦ elim (lookup denom denoms) [
    | none ↦ none
    | some current ↦
        if ltb_ℤ current amount
        then none
        else some (put_wallet m address (put_amount denoms denom (current -ℤ amount)))
  ]
]

unfoldable pub debit : Keeper → Text → Text → Option ℤ → Outcome Keeper
unfolding debit_at arguments
debit k address denom amount = elim (arguments address denom amount) [
  | err e ↦ (k, some e)
  | ok (a, d, v) ↦ elim (debit_at k.balances a d v) [
    | none ↦ (k, some insufficient_balance)
    | some balances ↦ (record k { balances = balances }, k.persist_error)
  ]
]

abbrev pub balance_at : Balances → Text → Text → ℤ
balance_at m address denom = amount_or_zero (lookup denom (wallet (lookup address m)))

unfoldable pub balance_of : Keeper → Text → Text → ℤ
balance_of k address denom =
    if text_beq (trim_space denom) []
    then pos 0
    else balance_at k.balances (trim_space address) (trim_space denom)

-- `normalizeAmountString`
unfoldable pub normalize_amount_string : Text → Result ℤ
normalize_amount_string amount = elim (set_string (trim_space amount)) [
  | none ↦ err invalid_amount
  | some a ↦ if not_positive (some a) then err invalid_amount else ok a
]

-- The loop of `loadState`, which keeps the last of two records of the same address and
-- denomination.
unfoldable pub load_balances : Balances → List BalanceRecord → Result Balances
unfolding normalize_denom normalize_amount_string
load_balances m [] = ok m
load_balances m (r ∷ rs) =
    let address = trim_space r.address in
    if text_beq address [] then err invalid_address else elim (normalize_denom r.denom) [
      | err e ↦ err e
      | ok d ↦ elim (normalize_amount_string r.amount) [
        | err e ↦ err e
        | ok a ↦ load_balances (insert address (insert d a (wallet (lookup address m))) m) rs
      ]
    ]

-- `ImportState`
unfoldable pub import_state : Keeper → List BalanceRecord → Outcome Keeper
unfolding load_balances
import_state k records = elim (load_balances [] records) [
  | err e ↦ (k, some e)
  | ok balances ↦ (record k { balances = balances }, none)
]
