-- ===== src/Bridge/Keeper/Books.antt =====
-- The books of the bridge are kept by a deposit, a withdrawal and a change of the registry.
use aegis_link.Common.{
  ℕ, ◌≡◌, refl, sym, ap, ◌∙◌, Bool, none, some, List, [], ◌∷◌, ◌++◌, arith, Bool-cases, inl, inr,
  Option-cases, All, All-append,
}
use mathlib.Core.Path.{subst}
use aegis_link.Common.Int.{ℤ, pos, ◌+ℤ◌, ◌-ℤ◌, ◌≤ℤ◌, int_laws, int_eqs, ltb_ℤ}
use aegis_link.Common.Map.{Map, lookup, insert, Unique, insert-Unique}
use aegis_link.Text.{Text, text_eq, text_beq, text_beq_iff, trim_space}
use aegis_link.Limits.{clone_big_int}
use aegis_link.Registry
use aegis_link.Registry.{Asset, get_asset}
use aegis_link.Registry.Stable.{Keeps}
use aegis_link.Bridge.Claim.{DepositClaim}
use aegis_link.Bridge.State.{
  Keeper, WithdrawalRecord, claim_status_accepted, bridge_denom_for_asset,
}
use aegis_link.Bridge.Accounting.{
  amount_of, mint_representation, burn_representation, accept_deposit_claim, accepted_record,
}
use aegis_link.Bridge.Accounting.Sums.{
  claimed, withdrawn, claim_share, withdrawal_share, share, claimed-insert, withdrawn-append,
  amount_of-add, amount_of-sub,
}
use aegis_link.Bridge.Accounting.Burnt.{IsBooked, share_nonneg, share_of_asset}
use aegis_link.Bridge.Accounting.Check.{IsKept}

claim_share_accepted :
    (d : Text) (claim : DepositClaim) (denom : Text)
    → claim_share d (accepted_record claim denom) ≡ share denom d (clone_big_int claim.amount)
claim_share_accepted d claim denom =
    rw ((text_beq_iff claim_status_accepted claim_status_accepted).1 refl)

-- A deposit of an amount that is not negative, under a key that is free, is booked.
pub accept-IsKept :
    (k : Keeper) (key : Text) (claim : DepositClaim) (asset : Asset)
    → IsKept k
    → lookup key k.processed_claims ≡ none
    → pos 0 ≤ℤ clone_big_int claim.amount
    → IsKept (accept_deposit_claim k key claim asset).0
unfolding accept_deposit_claim mint_representation
accept-IsKept k key claim asset h fresh nonneg =
    let denom = bridge_denom_for_asset asset in
    let a = clone_big_int claim.amount in
    record {
      one_entry =
          insert-Unique denom (amount_of denom k.supply_by_denom +ℤ a) k.supply_by_denom
            h.one_entry;
      supply_nonneg = λ d.
          rw amount_of-add (omega (int_laws, h.supply_nonneg d, share_nonneg denom d a nonneg));
      booked = h.booked;
      balanced = λ d.
          amount_of-add d denom a k.supply_by_denom
          ∙ regroup (amount_of d k.supply_by_denom) (claimed d k.processed_claims)
              (withdrawn k.registry_keeper d k.withdrawals) (share denom d a) (h.balanced d)
          ∙ ap (λ x. x -ℤ withdrawn k.registry_keeper d k.withdrawals)
              (sym (
                claimed-insert d key (accepted_record claim denom) k.processed_claims fresh
                ∙ ap (λ x. claimed d k.processed_claims +ℤ x)
                    (claim_share_accepted d claim denom)));
    }
  where
    regroup : (x c w s : ℤ) → x ≡ c -ℤ w → x +ℤ s ≡ (c +ℤ s) -ℤ w
    regroup x c w s e = omega int_eqs

-- A burn that succeeds was covered.
pub burn-some :
    (supply : Map Text ℤ) (denom : Text) (a : ℤ) (supply' : Map Text ℤ)
    → burn_representation supply denom a ≡ some supply'
    → (supply' ≡ insert denom (amount_of denom supply -ℤ a) supply) × (a ≤ℤ amount_of denom supply)
unfolding burn_representation
burn-some supply denom a supply' e = elim (Option-cases (lookup denom supply)) [
  | inl missing ↦ absurd (ground arith)
  | inr (current, found) ↦ elim (Bool-cases (ltb_ℤ current a)) [
    | inl short ↦ absurd (ground arith)
    | inr enough ↦ (ground arith, rw found (ground arith))
  ]
]

-- A withdrawal of a registered asset, of an amount that is covered and not negative, is booked.
pub withdraw-IsKept :
    (k : Keeper) (w : WithdrawalRecord) (supply : Map Text ℤ) (nonce : ℕ)
    → IsKept k
    → (b : IsBooked k.registry_keeper w)
    → burn_representation k.supply_by_denom (bridge_denom_for_asset b.asset) w.amount ≡ some supply
    → IsKept (record k {
      next_withdrawal_nonce = nonce;
      supply_by_denom = supply;
      withdrawals = k.withdrawals ++ w ∷ [];
    })
withdraw-IsKept k w supply nonce h b burnt =
    let denom = bridge_denom_for_asset b.asset in
    let (same, covered) = burn-some k.supply_by_denom denom w.amount supply burnt in
    let amounts : (d : Text)
        → amount_of d supply ≡ amount_of d k.supply_by_denom -ℤ share denom d w.amount =
      λ d. ap (λ x. amount_of d x) same ∙ amount_of-sub d denom w.amount k.supply_by_denom in
    record {
      one_entry =
          subst (λ x. Unique x) (sym same) (insert-Unique denom _ k.supply_by_denom h.one_entry);
      supply_nonneg =
          λ d. rw (amounts d) (left_over k denom d w.amount (h.supply_nonneg d) covered);
      booked = All-append (IsBooked k.registry_keeper) k.withdrawals (w ∷ []) h.booked (b, tt);
      balanced = λ d.
          amounts d
          ∙ regroup (amount_of d k.supply_by_denom) (claimed d k.processed_claims)
              (withdrawn k.registry_keeper d k.withdrawals) (share denom d w.amount) (h.balanced d)
          ∙ ap (λ x. claimed d k.processed_claims -ℤ x)
              (sym (
                withdrawn-append k.registry_keeper d k.withdrawals w
                ∙ ap (λ x. withdrawn k.registry_keeper d k.withdrawals +ℤ x)
                    (share_of_asset k.registry_keeper d w b)));
    }
  where
    regroup : (x c w s : ℤ) → x ≡ c -ℤ w → x -ℤ s ≡ c -ℤ (w +ℤ s)
    regroup x c w s e = omega int_eqs

    left_over :
        (k : Keeper) (denom d : Text) (a : ℤ)
        → pos 0 ≤ℤ amount_of d k.supply_by_denom
        → a ≤ℤ amount_of denom k.supply_by_denom
        → pos 0 ≤ℤ amount_of d k.supply_by_denom -ℤ share denom d a
    left_over k denom d a nonneg covered = elim (Bool-cases (text_beq denom d)) [
      | inl q ↦ rw q (
          let c : a ≤ℤ amount_of d k.supply_by_denom =
            subst (λ x. a ≤ℤ amount_of x k.supply_by_denom) ((text_beq_iff denom d).0 q) covered in
          omega int_laws)
      | inr q ↦ rw q (omega int_laws)
    ]

same_denom :
    (a : Asset) (b : Bool)
    → bridge_denom_for_asset (record a { enabled = b }) ≡ bridge_denom_for_asset a
unfolding bridge_denom_for_asset
same_denom a b = refl

IsBooked-Keeps :
    (r r' : Registry.Keeper) (w : WithdrawalRecord)
    → Keeps r.assets r'.assets
    → IsBooked r w
    → IsBooked r' w
IsBooked-Keeps r r' w keeps b =
    let (on, found) = keeps (trim_space w.asset_id) b.asset b.registered in
    record { asset = record b.asset { enabled = on }; registered = found; nonneg = b.nonneg }

withdrawal_share-Keeps :
    (r r' : Registry.Keeper) (d : Text) (w : WithdrawalRecord)
    → Keeps r.assets r'.assets
    → IsBooked r w
    → withdrawal_share r' d w ≡ withdrawal_share r d w
withdrawal_share-Keeps r r' d w keeps b =
    let (on, found) = keeps (trim_space w.asset_id) b.asset b.registered in
    share_of_asset r' d w
      (record { asset = record b.asset { enabled = on }; registered = found; nonneg = b.nonneg })
    ∙ ap (λ x. share x d w.amount) (same_denom b.asset on)
    ∙ sym (share_of_asset r d w b)

withdrawn-Keeps :
    (r r' : Registry.Keeper) (d : Text) (ws : List WithdrawalRecord)
    → Keeps r.assets r'.assets
    → All (IsBooked r) ws
    → withdrawn r' d ws ≡ withdrawn r d ws
unfolding withdrawn
withdrawn-Keeps r r' d [] keeps bs = refl
withdrawn-Keeps r r' d (w ∷ ws) keeps (b, bs) =
    rw (withdrawal_share-Keeps r r' d w keeps b) (rw (withdrawn-Keeps r r' d ws keeps bs) refl)

All-IsBooked-Keeps :
    (r r' : Registry.Keeper) (ws : List WithdrawalRecord)
    → Keeps r.assets r'.assets
    → All (IsBooked r) ws
    → All (IsBooked r') ws
All-IsBooked-Keeps r r' [] keeps bs = tt
All-IsBooked-Keeps r r' (w ∷ ws) keeps (b, bs) =
    (IsBooked-Keeps r r' w keeps b, All-IsBooked-Keeps r r' ws keeps bs)

-- A registry that keeps its assets keeps the books.
pub registry-IsKept :
    (k : Keeper) (r : Registry.Keeper)
    → Keeps k.registry_keeper.assets r.assets
    → IsKept k
    → IsKept (record k { registry_keeper = r })
registry-IsKept k r keeps h = record {
  one_entry = h.one_entry;
  supply_nonneg = h.supply_nonneg;
  booked = All-IsBooked-Keeps k.registry_keeper r k.withdrawals keeps h.booked;
  balanced = λ d.
      h.balanced d
      ∙ ap (λ x. claimed d k.processed_claims -ℤ x)
          (sym (withdrawn-Keeps k.registry_keeper r d k.withdrawals keeps h.booked));
}
