-- ===== src/Bridge/Accounting/Check.antt =====
-- `CheckAccountingInvariant` passes exactly for the books that balance.
use aegis_link.Common.{◌≡◌, refl, sym, ap, ◌∙◌, none, [], ◌∷◌, arith, Bool-cases, inl, inr, All}
use aegis_link.Common.Int.{ℤ, pos, ◌+ℤ◌, ◌-ℤ◌, ◌≤ℤ◌, int_laws, int_eqs}
use aegis_link.Common.Map.{Map, lookup, insert, Unique, insert-Unique}
use aegis_link.Text.{Text, text_eq, text_beq}
use aegis_link.Bridge.State.{Keeper, ClaimRecord, claim_status_accepted}
use aegis_link.Bridge.Accounting.{
  amount_or_zero, amount_of, expect_claims, expect_withdrawals, match_supply, match_remaining,
  match_all, match_rest, sound, broken, Checked, accounting_fault, check_accounting_invariant,
}
use aegis_link.Bridge.Accounting.Sums.{claimed, withdrawn, expect_claims-claimed}
use aegis_link.Bridge.Accounting.Burnt.{
  IsBooked, expect_withdrawals-sound, expect_withdrawals_complete, expect_withdrawals-Unique,
}
use aegis_link.Bridge.Accounting.Supply.{
  match_supply-sound, match_supply_complete, match_remaining_sound, match_remaining_complete,
}

-- The supply of each denomination is what accepted claims have minted less what withdrawals have
-- burnt.
abbrev pub IsBalanced : Keeper → Type 0
IsBalanced k =
    (d : Text)
    → amount_of d k.supply_by_denom
      ≡ claimed d k.processed_claims -ℤ withdrawn k.registry_keeper d k.withdrawals

match_rest-none :
    (supply : Map Text ℤ) (c : Checked)
    → match_rest supply c ≡ none
    → (left : Map Text ℤ) × (c ≡ sound left) × (match_remaining left ≡ none)
unfolding match_rest
match_rest-none supply (sound left) e = (left, refl, e)
match_rest-none supply (broken f) e = absurd (ground arith)

match_all-none :
    (supply : Map Text ℤ) (c : Checked)
    → match_all supply c ≡ none
    → (m left : Map Text ℤ) × (c ≡ sound m)
      × (match_supply m supply ≡ sound left)
      × (match_remaining left ≡ none)
unfolding match_all
match_all-none supply (sound m) e =
    let (left, matched, rest) = match_rest-none supply (match_supply m supply) e in
    (m, left, refl, matched, rest)
match_all-none supply (broken f) e = absurd (ground arith)

-- A check without a fault has gone through all four loops, and the other way round.
fault-none :
    (k : Keeper)
    → accounting_fault k ≡ none
    → (m left : Map Text ℤ) × (expect_withdrawals k.registry_keeper
          (expect_claims [] k.processed_claims)
          k.withdrawals
        ≡ sound m)
      × (match_supply m k.supply_by_denom ≡ sound left)
      × (match_remaining left ≡ none)
unfolding accounting_fault
fault-none k e =
    match_all-none k.supply_by_denom
      (expect_withdrawals k.registry_keeper (expect_claims [] k.processed_claims) k.withdrawals) e

none-fault :
    (k : Keeper) (m left : Map Text ℤ)
    → expect_withdrawals k.registry_keeper (expect_claims [] k.processed_claims) k.withdrawals
      ≡ sound m
    → match_supply m k.supply_by_denom ≡ sound left
    → match_remaining left ≡ none
    → accounting_fault k ≡ none
unfolding accounting_fault
none-fault k m left burnt matched rest =
    ap (match_all k.supply_by_denom) burnt ∙ ap (match_rest k.supply_by_denom) matched ∙ rest

expect_claims_empty :
    (d : Text) (claims : Map Text ClaimRecord)
    → amount_of d (expect_claims [] claims) ≡ claimed d claims
expect_claims_empty d claims = expect_claims-claimed d [] claims ∙ unfold lookup in omega int_laws

expect_claims-Unique :
    (m : Map Text ℤ) (claims : Map Text ClaimRecord) → Unique m → Unique (expect_claims m claims)
unfolding expect_claims
expect_claims-Unique m [] u = u
expect_claims-Unique m ((key, c) ∷ claims) u =
    elim (Bool-cases (text_beq c.status claim_status_accepted)) [
      | inl counted ↦ rw counted (
          expect_claims-Unique (insert c.denom (amount_of c.denom m +ℤ c.amount) m) claims
            (insert-Unique c.denom _ m u))
      | inr skipped ↦ rw skipped (expect_claims-Unique m claims u)
    ]

-- Books that are kept: each denomination has one entry, no supply is negative, the withdrawals are
-- of registered assets and not negative, and the supplies balance.
pub record IsKept (k : Keeper) : Type 0 where
  pub one_entry : Unique k.supply_by_denom
  pub supply_nonneg : (d : Text) → pos 0 ≤ℤ amount_of d k.supply_by_denom
  pub booked : All (IsBooked k.registry_keeper) k.withdrawals
  pub balanced : IsBalanced k

-- What the first two loops expect of a denomination.
expected_amount :
    (k : Keeper) (m : Map Text ℤ)
    → expect_withdrawals k.registry_keeper (expect_claims [] k.processed_claims) k.withdrawals
      ≡ sound m
    → (d : Text)
    → amount_of d m ≡ claimed d k.processed_claims -ℤ withdrawn k.registry_keeper d k.withdrawals
expected_amount k m burnt d =
    expect_withdrawals-sound k.registry_keeper _ m k.withdrawals burnt d
    ∙ ap (λ x. x -ℤ withdrawn k.registry_keeper d k.withdrawals)
        (expect_claims_empty d k.processed_claims)

-- Where the check finds no fault, the books balance.
pub fault-IsBalanced :
    (k : Keeper) → Unique k.supply_by_denom → accounting_fault k ≡ none → IsBalanced k
fault-IsBalanced k u e d =
    let (m, left, burnt, matched, rest) = fault-none k e in
    let a = expected_amount k m burnt d in
    let c : amount_of d m ≡ amount_of d k.supply_by_denom +ℤ amount_of d left =
      match_supply-sound m left k.supply_by_denom u matched d in
    let z : amount_of d left ≡ pos 0 = match_remaining_sound left rest d in omega int_eqs

minted_enough :
    (k : Keeper)
    → IsKept k
    → (d : Text)
    → withdrawn k.registry_keeper d k.withdrawals
      ≤ℤ amount_of d (expect_claims [] k.processed_claims)
minted_enough k h d =
    omega (int_eqs, expect_claims_empty d k.processed_claims, h.balanced d, h.supply_nonneg d)

-- Books that are kept have no fault.
pub IsKept-fault : (k : Keeper) → IsKept k → accounting_fault k ≡ none
IsKept-fault k h =
    let r = k.registry_keeper in
    let m₀ = expect_claims [] k.processed_claims in
    let (m, burnt) = expect_withdrawals_complete r m₀ k.withdrawals h.booked (minted_enough k h) in
    let um =
      expect_withdrawals-Unique r m₀ m k.withdrawals burnt
        (expect_claims-Unique [] k.processed_claims tt) in
    let (left, matched, ul) = match_supply_complete m k.supply_by_denom h.one_entry um (λ d v found.
      ap amount_or_zero (sym found) ∙ h.balanced d ∙ sym (expected_amount k m burnt d)) in
    none-fault k m left burnt matched (
      match_remaining_complete left ul (λ d.
        nothing_left _ _ _ (match_supply-sound m left k.supply_by_denom h.one_entry matched d)
          (h.balanced d ∙ sym (expected_amount k m burnt d))))
  where
    nothing_left : (x y z : ℤ) → x ≡ y +ℤ z → y ≡ x → z ≡ pos 0
    nothing_left x y z e f = omega int_eqs

-- On books that are kept the check passes and leaves the keeper as it is.
pub check-IsKept : (k : Keeper) → IsKept k → check_accounting_invariant k ≡ (k, none)
unfolding check_accounting_invariant
check-IsKept k h = rw (IsKept-fault k h, check_accounting_invariant)
