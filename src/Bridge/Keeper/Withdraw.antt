-- ===== src/Bridge/Keeper/Withdraw.antt =====
-- The three ways in which `ExecuteWithdrawal` ends, on books that are kept.
use aegis_link.Common.{
  ℕ, ◌≡◌, refl, sym, ap, ◌∙◌, Option, none, some, List, [], ◌∷◌, ◌++◌, inl, inr, Option-cases, ◌⊎◌,
}
use mathlib.Core.Path.{subst}
use aegis_link.Common.Int.{ℤ}
use aegis_link.Common.Map.{Map, lookup}
use aegis_link.Text.{Text, text_eq}
use aegis_link.Text.Trim.{trim_space-trim_space}
use aegis_link.Errors.{Error, Result, ok, err, Result-cases, insufficient_supply}
use aegis_link.Crypto.{Crypto}
use aegis_link.Limits.{clone_big_int}
use aegis_link.Limits.Window.{HasRoom}
use aegis_link.Registry.{Asset, get_asset}
use aegis_link.Bridge.State.{
  Keeper, WithdrawalRecord, bridge_denom_for_asset, ensure_circuit_healthy, increment,
  new_withdrawal_record, source_asset_address_for_withdrawal,
}
use aegis_link.Bridge.Accounting.{check_accounting_invariant, burn_representation}
use aegis_link.Bridge.Accounting.Check.{IsKept, check-IsKept}
use aegis_link.Bridge.Accounting.Burnt.{IsBooked}
use aegis_link.Bridge.Keeper.{
  usable_asset, spend_limit, settle_withdrawal, withdraw_supply, withdraw_asset,
  withdrawal_arguments, execute_withdrawal,
}
use aegis_link.Bridge.Keeper.Books.{withdraw-IsKept}
use aegis_link.Bridge.Keeper.Cases.{
  IsUsable, spent, usable_asset-ok, spend_limit-some, spent-IsKept,
}

-- The keeper after a withdrawal.
abbrev pub after_withdrawal : Keeper → Map Text ℤ → WithdrawalRecord → Keeper
after_withdrawal k supply w = record k {
  next_withdrawal_nonce = increment k.next_withdrawal_nonce;
  supply_by_denom = supply;
  withdrawals = k.withdrawals ++ w ∷ [];
}

module _ (crypto : Crypto) (k : Keeper) (id : Text) (a : ℤ) (recipient : Text) (deadline : ℕ)
    (signature : List ℕ) where
  -- The record of a withdrawal, which its burn makes in the keeper with the limit spent.
  abbrev pub withdrawal_of : Asset → WithdrawalRecord
  withdrawal_of asset =
      new_withdrawal_record crypto (spent k id a) id (source_asset_address_for_withdrawal asset) a
        recipient deadline signature

  -- What a withdrawal that succeeds has passed from the asset on, and what it leaves.
  pub record IsWithdrawn (done : Keeper × Result WithdrawalRecord) : Type 0 where
    pub asset : Asset
    pub usable : IsUsable k id asset
    pub room : HasRoom k.limits_keeper id a k.current_height
    pub supply : Map Text ℤ
    pub burnt : burn_representation k.supply_by_denom (bridge_denom_for_asset asset) a ≡ some supply
    pub leaves :
        done
        ≡ (after_withdrawal (spent k id a) supply (withdrawal_of asset), ok (withdrawal_of asset))
    pub kept : IsKept done.0

  -- What a withdrawal that the supply does not cover leaves: its amount counts against the limit.
  pub record IsUncovered (done : Keeper × Result WithdrawalRecord) : Type 0 where
    pub asset : Asset
    pub usable : IsUsable k id asset
    pub room : HasRoom k.limits_keeper id a k.current_height
    pub short : burn_representation k.supply_by_denom (bridge_denom_for_asset asset) a ≡ none
    pub leaves : done ≡ (spent k id a, err insufficient_supply)

  withdrawal_of_registered :
      (asset : Asset)
      → get_asset k.registry_keeper id ≡ some asset
      → get_asset k.registry_keeper (withdrawal_of asset).asset_id ≡ some asset
  unfolding new_withdrawal_record
  withdrawal_of_registered asset found =
      ap (λ i. lookup i k.registry_keeper.assets) (trim_space-trim_space id) ∙ found

  withdraw_supply-IsWithdrawn :
      (asset : Asset)
      → IsKept k
      → IsUsable k id asset
      → HasRoom k.limits_keeper id a k.current_height
      → (supply : Map Text ℤ)
      → burn_representation k.supply_by_denom (bridge_denom_for_asset asset) a ≡ some supply
      → IsWithdrawn (withdraw_supply (spent k id a) (some supply) (withdrawal_of asset))
  unfolding withdraw_supply settle_withdrawal
  withdraw_supply-IsWithdrawn asset h usable room supply burnt =
      let w = withdrawal_of asset in
      let b : IsBooked k.registry_keeper w =
        unfold new_withdrawal_record in
        record {
          asset = asset;
          registered = withdrawal_of_registered asset usable.registered;
          nonneg = room.nonneg;
        } in
      let kept : IsKept (after_withdrawal (spent k id a) supply w) =
        unfold new_withdrawal_record in
        withdraw-IsKept (spent k id a) w supply (increment k.next_withdrawal_nonce)
          (spent-IsKept k id a h) b burnt in
      let settled : settle_withdrawal w
            (check_accounting_invariant (after_withdrawal (spent k id a) supply w))
          ≡ (after_withdrawal (spent k id a) supply w, ok w) =
        ap (settle_withdrawal w) (check-IsKept (after_withdrawal (spent k id a) supply w) kept) in
      record {
        asset = asset;
        usable = usable;
        room = room;
        supply = supply;
        burnt = burnt;
        leaves = settled;
        kept = subst (λ (x : Keeper × Result WithdrawalRecord). IsKept x.0) (sym settled) kept;
      }

  withdraw_asset-cases :
      IsKept k
      → let done = withdraw_asset crypto k id a recipient deadline signature in
        ((e : Error) × (done ≡ (k, err e))) ⊎ IsUncovered done ⊎ IsWithdrawn done
  unfolding withdraw_asset
  withdraw_asset-cases h = elim (Result-cases (usable_asset k id)) [
    | inr (e, stopped) ↦ rw (stopped, withdraw_asset) (inl (e, refl))
    | inl (asset, found) ↦
        rw (found, withdraw_asset)
          (elim (Result-cases (spend_limit k id (some a))) [
            | inr (e, stopped) ↦ rw (stopped, withdraw_asset) (inl (e, refl))
            | inl (k₁, spends) ↦
                let (room, same) = spend_limit-some k id a k₁ spends in
                let usable = usable_asset-ok k id asset found in
                rw (spends ∙ ap (λ x. ok x) same, withdraw_asset)
                  (elim (Option-cases
                    (burn_representation k.supply_by_denom (bridge_denom_for_asset asset) a)) [
                      | inl short ↦ rw short (
                          unfold withdraw_supply in
                          inr (
                            inl (record {
                              asset = asset;
                              usable = usable;
                              room = room;
                              short = short;
                              leaves = refl;
                            })))
                      | inr (supply, burnt) ↦
                          rw burnt (
                            inr
                              (inr (withdraw_supply-IsWithdrawn asset h usable room supply burnt)))
                    ])
          ])
  ]

-- On books that are kept, a withdrawal is refused and changes nothing, or its amount is counted
-- against the limit and then not covered by the supply, or it has passed every test and is burnt.
pub execute_withdrawal-cases :
    (crypto : Crypto) (k : Keeper) (id : Text) (amount : Option ℤ) (recipient : Text) (deadline : ℕ)
    (signature : List ℕ)
    → IsKept k
    → let done = execute_withdrawal crypto k id amount recipient deadline signature in
      let a = clone_big_int amount in
      ((e : Error) × (done ≡ (k, err e)))
      ⊎ IsUncovered crypto k id a recipient deadline signature done
      ⊎ ((ensure_circuit_healthy k ≡ none)
          × (withdrawal_arguments id amount recipient deadline signature ≡ none)
          × IsWithdrawn crypto k id a recipient deadline signature done)
unfolding execute_withdrawal
execute_withdrawal-cases crypto k id amount recipient deadline signature h =
    elim (Option-cases (ensure_circuit_healthy k)) [
      | inr (e, stopped) ↦ rw (stopped, execute_withdrawal) (inl (e, refl))
      | inl closed ↦
          rw (closed, execute_withdrawal)
            (elim (Option-cases (withdrawal_arguments id amount recipient deadline signature)) [
              | inr (e, stopped) ↦ rw (stopped, execute_withdrawal) (inl (e, refl))
              | inl tested ↦
                  rw (tested, execute_withdrawal)
                    (elim (withdraw_asset-cases crypto k id (clone_big_int amount) recipient
                      deadline signature h) [
                        | inl refused ↦ inl refused
                        | inr (inl uncovered) ↦ inr (inl uncovered)
                        | inr (inr done) ↦ inr (inr (refl, refl, done))
                      ])
            ])
    ]
