-- ===== src/App/Settle/Credits.antt =====
-- The credit of a claim by chain/aegislink/app/app.go, and what undoes the claim where it fails.
use mathlib.Core.Path.{subst}
use aegis_link.Common.{
  ◌≡◌, refl, sym, ap, ◌∙◌, Bool, Option, none, some, List, [], ◌∷◌, arith, Bool-cases, Option-cases,
  inl, inr, ◌⊎◌, if◌then◌else◌,
}
use aegis_link.Common.Int.{ℤ, pos, ◌+ℤ◌, ◌≤ℤ◌, int_laws}
use aegis_link.Common.Map.{Map, lookup-insert}
use aegis_link.Text.{Text, text_eq, text_beq, text_beq_iff, trim_space}
use aegis_link.Errors.{Error, ok}
use aegis_link.Bank
use aegis_link.Bank.{balance_at, balance_of}
use aegis_link.Bank.Balances.{moved}
use aegis_link.Bank.Wallets.{credit-cases}
use aegis_link.Bridge.State as BridgeState
use aegis_link.Bridge.State.{ClaimResult, increment, bridge_denom_for_asset}
use aegis_link.Bridge.Accounting.{amount_of, mint_representation}
use aegis_link.App.{App, normalize_address}
use aegis_link.App.Settle.{
  Submitted, Before, snapshots, no_result, rollback, rolled_back, credit_claim,
}
use aegis_link.App.Settle.Rollback.{IsSound, restored, rollback-restored}

-- The bridge may have counted a rejection, and is the same otherwise.
abbrev pub IsSameBridge : BridgeState.Keeper → BridgeState.Keeper → Type 0
IsSameBridge k k' = (k' ≡ k) ⊎ (k' ≡ record k { rejected_claims = increment k.rejected_claims })

-- A claim that is refused or undone.
pub record IsUnchanged (a : App) (p : Submitted) : Type 0 where
  pub error : Error
  pub errors : List Error
  pub fails : p.2 ≡ error ∷ errors
  pub bridge : IsSameBridge a.bridge_keeper p.0.bridge_keeper
  pub wallets : (x y : Text) → balance_of p.0.bank_keeper x y ≡ balance_of a.bank_keeper x y

-- A claim that is minted: the supply and one wallet grow by its amount.
pub record IsMinted (a : App) (recipient : Text) (p : Submitted) : Type 0 where
  pub amount : ℤ
  pub positive : pos 1 ≤ℤ amount
  pub succeeds : p.2 ≡ []
  pub states : p.1.amount ≡ some amount
  pub supply :
      (d : Text)
      → amount_of d p.0.bridge_keeper.supply_by_denom
        ≡ amount_of d a.bridge_keeper.supply_by_denom
          +ℤ (if text_beq p.1.denom d then amount else pos 0)
  pub wallets :
      (x y : Text)
      → balance_of p.0.bank_keeper x y
        ≡ balance_of a.bank_keeper x y
          +ℤ moved
              (trim_space recipient)
              (trim_space p.1.denom)
              amount
              (trim_space x)
              (trim_space y)

pub normalize_address-ok :
    (is_bech32 : Text → Bool) (x r : Text) → normalize_address is_bech32 x ≡ ok r → r ≡ trim_space x
unfolding normalize_address
normalize_address-ok is_bech32 x r e = ground arith

pub balance_of-same :
    (k k' : Bank.Keeper)
    → ((x y : Text) → balance_at k'.balances x y ≡ balance_at k.balances x y)
    → (x y : Text) → balance_of k' x y ≡ balance_of k x y
unfolding balance_of
balance_of-same k k' h x y = elim (Bool-cases (text_beq (trim_space y) [])) [
  | inl blank ↦ rw blank refl
  | inr named ↦ rw named (h (trim_space x) (trim_space y))
]

pub amount_of-mint :
    (supply : Map Text ℤ) (denom : Text) (v : ℤ) (d : Text)
    → amount_of d (mint_representation supply denom v)
      ≡ amount_of d supply +ℤ (if text_beq denom d then v else pos 0)
unfolding mint_representation
amount_of-mint supply denom v d = elim (Bool-cases (text_beq denom d)) [
  | inl same ↦
      let denom_is_d : denom ≡ d = (text_beq_iff denom d).0 same in
      rw lookup-insert (rw same (ap (λ t. amount_of t supply +ℤ v) denom_is_d))
  | inr other ↦ rw lookup-insert (rw other (omega int_laws))
]

-- The errors of a rollback stand behind the one that led to it.
pub rolled_back-cases :
    (flush_error : Option Error) (e : Error) (a : App) (failed : Option Error)
    → (errors : List Error) × (rolled_back flush_error (e ∷ []) (a, failed) ≡ (a, e ∷ errors))
rolled_back-cases flush_error e a none = ([], refl)
rolled_back-cases flush_error e a (some f) = (f ∷ [], refl)

pub same_keepers :
    (k k' : BridgeState.Keeper)
    → k'.registry_keeper ≡ k.registry_keeper
    → k'.pauser_keeper ≡ k.pauser_keeper
    → record k { registry_keeper = k'.registry_keeper; pauser_keeper = k'.pauser_keeper } ≡ k
same_keepers k k' same_registry same_pauser =
    ap (λ r. record k { registry_keeper = r; pauser_keeper = k'.pauser_keeper }) same_registry
    ∙ ap (λ p. record k { pauser_keeper = p }) same_pauser

module _ (flush_error : Option Error) where
  credit_claim-none :
      (before : Before) (a : App) (recipient : Text) (result : ClaimResult)
      → let (bank, failed) = Bank.credit a.bank_keeper recipient result.denom result.amount in
        failed ≡ none
        → credit_claim flush_error before a recipient result
          ≡ (record a { bank_keeper = bank }, result, [])
  unfolding credit_claim
  credit_claim-none before a recipient result e = rw (e, credit_claim) refl

  credit_claim-some :
      (before : Before) (a : App) (recipient : Text) (result : ClaimResult) (e : Error)
      → let (bank, failed) = Bank.credit a.bank_keeper recipient result.denom result.amount in
        failed ≡ some e
        → let (undone, errors) =
            rolled_back flush_error
              (e ∷ [])
              (rollback flush_error (record a { bank_keeper = bank }) before) in
          credit_claim flush_error before a recipient result ≡ (undone, no_result, errors)
  unfolding credit_claim
  credit_claim-some before a recipient result e failed = rw (failed, credit_claim) refl

  -- From the credit on, for a bridge with the registry and the pauses of before.
  pub credit_claim-cases :
      (a : App) (k : BridgeState.Keeper) (recipient : Text) (result : ClaimResult)
      → IsSound a
      → k.registry_keeper ≡ a.bridge_keeper.registry_keeper
      → k.pauser_keeper ≡ a.bridge_keeper.pauser_keeper
      → let done =
          credit_claim flush_error
            (snapshots a)
            (record a { bridge_keeper = k })
            recipient
            result in
        IsUnchanged a done
        ⊎ ((v : ℤ) × (pos 1 ≤ℤ v)
            × (result.amount ≡ some v)
            × ((m : Bank.Keeper) × (done
                  ≡ (record a { bridge_keeper = k; bank_keeper = m }, result, []))
                × ((x y : Text)
                    → balance_of m x y
                      ≡ balance_of a.bank_keeper x y
                        +ℤ moved
                            (trim_space recipient)
                            (trim_space result.denom)
                            v
                            (trim_space x)
                            (trim_space y))))
  credit_claim-cases a k recipient result sound same_registry same_pauser =
      let a₁ : App = record a { bridge_keeper = k } in
      let credited = Bank.credit a.bank_keeper recipient result.denom result.amount in
      elim (Option-cases credited.1) [
        | inr (e, failed) ↦
            let a₂ : App = record a₁ { bank_keeper = credited.0 } in
            let (m, undoes, same) = rollback-restored flush_error a₂ a sound in
            let (errors, joined) = rolled_back-cases flush_error e (restored a₂ a m) flush_error in
            let ends : credit_claim flush_error (snapshots a) a₁ recipient result
                ≡ (restored a₂ a m, no_result, e ∷ errors) =
              credit_claim-some (snapshots a) a₁ recipient result e failed
              ∙ ap (λ (r : App × List Error). (r.0, no_result, r.1))
                  (ap (rolled_back flush_error (e ∷ [])) undoes ∙ joined) in
            inl (
              subst (IsUnchanged a) (sym ends) (record {
                error = e;
                errors = errors;
                fails = refl;
                bridge = inl (same_keepers a.bridge_keeper k same_registry same_pauser);
                wallets = balance_of-same a.bank_keeper _ same;
              }))
        | inl fine ↦
            let ends = credit_claim-none (snapshots a) a₁ recipient result fine in
            elim (credit-cases a.bank_keeper recipient result.denom result.amount) [
              | inl (fails, still) ↦ absurd (fails fine)
              | inr (v, arguments, writes, moves) ↦
                  inr (v, arguments.positive, arguments.known, (credited.0, ends, moves))
            ]
      ]
