-- ===== src/Bank/Snapshot/Restore.antt =====
-- Wallets that import a snapshot have the balances that it was taken of.
use mathlib.Core.Path.{subst}
use aegis_link.Common.{
  ◌≡◌, refl, sym, ap, ◌∙◌, ◌&&◌, false, none, some, List, [], ◌∷◌, arith, All, All-imp, Bool-cases,
  Option-cases, inl, inr, slice_stable, slice_stable-All, All-slice_stable, All-append, append-All,
  All-map, map-All,
}
use aegis_link.Common.Int.{ℤ, pos, ◌≤ℤ◌}
use aegis_link.Common.Map.{Map, lookup, lookup-cons_self, All-lookup}
use aegis_link.Text.{Text, text_eq, text_beq, text_beq_iff, trim_space}
use aegis_link.Errors.{ok}
use aegis_link.Bank.{
  Keeper, Balances, BalanceRecord, wallet, amount_or_zero, balance_at, load_balances, import_state,
}
use aegis_link.Bank.Snapshot.{
  keys, text_less, balance_record, export_wallet, export_wallets, export_state,
}
use aegis_link.Bank.Snapshot.Load.{IsRecord, is_record_of, load_balances-IsLoaded}

-- An entry of a wallet, and a wallet: texts are trimmed and not empty, amounts are positive.
abbrev pub IsBalance : Text × ℤ → Type 0
IsBalance (denom, amount) =
    (trim_space denom ≡ denom) × (text_beq denom [] ≡ false) × (pos 1 ≤ℤ amount)

abbrev pub IsWallet : Text × Map Text ℤ → Type 0
IsWallet (address, denoms) =
    (trim_space address ≡ address) × (text_beq address [] ≡ false) × All IsBalance denoms

-- The keys of a map are those that it has.
keys-All {ℓ κ} :
    {V : Type ℓ} (P : Text → Type κ) (key : Text) (v : V) (m : Map Text V)
    → lookup key m ≡ some v
    → All P (keys m)
    → P key
unfolding lookup
keys-All P key v [] e h = absurd (ground arith)
keys-All P key v ((i, w) ∷ m) e (p, h) = elim (Bool-cases (text_beq i key)) [
  | inl same ↦ subst P ((text_beq_iff i key).0 same) p
  | inr other ↦ keys-All P key v m (rw other at e) h
]

All-keys {ℓ} :
    {V : Type ℓ} (m : Map Text V) → All (λ key. (v : V) × (lookup key m ≡ some v)) (keys m)
All-keys [] = tt
All-keys {V} ((i, w) ∷ m) = (
  (w, lookup-cons_self i w m),
  All-imp (λ key. (v : V) × (lookup key m ≡ some v))
      (λ key. (v : V) × (lookup key ((i, w) ∷ m) ≡ some v))
      (λ key (v, found). elim (Bool-cases (text_beq i key)) [
        | inl same ↦ (w, unfold lookup in rw same refl)
        | inr other ↦ (v, unfold lookup in rw other found)
      ])
      (keys m) (All-keys m),
)

module _ (m : Balances) where
  -- What holds of all records that are exported holds of those of a wallet's entries.
  export_wallets-All {κ} :
      (P : BalanceRecord → Type κ) (addresses : List Text)
      → All P (export_wallets m addresses)
      → All (λ a. All (λ d. P (balance_record m a d)) (keys (wallet (lookup a m)))) addresses
  unfolding export_wallets export_wallet
  export_wallets-All P [] h = tt
  export_wallets-All P (a ∷ addresses) h =
      let denoms = slice_stable text_less (keys (wallet (lookup a m))) in
      let (own, others) = append-All P (export_wallet m a denoms) (export_wallets m addresses) h in
      (
        slice_stable-All (λ d. P (balance_record m a d)) text_less (keys (wallet (lookup a m)))
            (map-All (balance_record m a) P denoms own),
        export_wallets-All P addresses others,
      )

  All-export_wallets {κ} :
      (P : BalanceRecord → Type κ) (addresses : List Text)
      → All (λ a. All (λ d. P (balance_record m a d)) (keys (wallet (lookup a m)))) addresses
      → All P (export_wallets m addresses)
  unfolding export_wallets export_wallet
  All-export_wallets P [] h = tt
  All-export_wallets P (a ∷ addresses) (p, h) =
      let denoms = slice_stable text_less (keys (wallet (lookup a m))) in
      All-append P (export_wallet m a denoms) (export_wallets m addresses)
        (All-map (balance_record m a) P denoms (
          All-slice_stable (λ d. P (balance_record m a d)) text_less (keys (wallet (lookup a m)))
            p))
        (All-export_wallets P addresses h)

  -- The records that are exported of wallets that are well formed.
  export_wallets-IsRecord :
      All IsWallet m → All (IsRecord m) (export_wallets m (slice_stable text_less (keys m)))
  export_wallets-IsRecord sound =
      All-export_wallets (IsRecord m) (slice_stable text_less (keys m)) (
        All-slice_stable
          (λ a. All (λ d. IsRecord m (balance_record m a d)) (keys (wallet (lookup a m)))) text_less
          (keys m)
          (All-imp _ _
            (λ a (denoms, found).
              let (trimmed, named, balances) = All-lookup IsWallet a denoms m sound found in
              All-imp _ _
                (λ d (v, held).
                  let (trimmed', named', positive) =
                    All-lookup IsBalance d v denoms balances
                      (ap (λ w. lookup d (wallet w)) (sym found) ∙ held) in
                  record {
                    address = a;
                    denom = d;
                    same = refl;
                    address_trimmed = trimmed;
                    address_named = named;
                    denom_trimmed = trimmed';
                    denom_named = named';
                    positive = subst (λ z. pos 1 ≤ℤ z) (ap amount_or_zero (sym held)) positive;
                  })
                (keys (wallet (lookup a m))) (All-keys (wallet (lookup a m))))
            (keys m) (All-keys m)))

  -- A balance that no record is of is 0.
  balance_at-no_record :
      (x y : Text)
      → All (λ r. is_record_of m x y r ≡ false) (export_wallets m (slice_stable text_less (keys m)))
      → balance_at m x y ≡ pos 0
  balance_at-no_record x y none_of =
      let Q = λ (r : BalanceRecord). is_record_of m x y r ≡ false in
      let free = slice_stable-All _ text_less (keys m) (export_wallets-All Q _ none_of) in
      elim (Option-cases (lookup x m)) [
        | inl missing ↦ rw missing (unfold lookup in refl)
        | inr (denoms, found) ↦ elim (Option-cases (lookup y (wallet (lookup x m)))) [
          | inl missing ↦ rw missing refl
          | inr (v, held) ↦
              let own = keys-All _ x denoms m found free in
              let wrong : (text_beq x x && text_beq y y) ≡ false =
                keys-All (λ d. Q (balance_record m x d)) y v (wallet (lookup x m)) held own in
              absurd (ground (arith, text_beq_iff x x, text_beq_iff y y))
        ]
      ]

balance_at-nil : (x y : Text) → balance_at [] x y ≡ pos 0
unfolding lookup
balance_at-nil x y = refl

import_state-ok :
    (k : Keeper) (records : List BalanceRecord) (m : Balances)
    → load_balances [] records ≡ ok m
    → import_state k records ≡ (record k { balances = m }, none)
unfolding import_state
import_state-ok k records m e = rw (e, import_state) refl

-- Wallets that import what well-formed wallets export have the same balances.
pub import-export :
    (k k' : Keeper)
    → All IsWallet k.balances
    → (m : Balances) × (import_state k' (export_state k) ≡ (record k' { balances = m }, none))
      × ((x y : Text) → balance_at m x y ≡ balance_at k.balances x y)
unfolding export_state
import-export k k' sound =
    let done = load_balances-IsLoaded k.balances _ [] (export_wallets-IsRecord k.balances sound) in
    (
      done.loaded,
      import_state-ok k' _ done.loaded done.returns,
      λ x y. elim (done.balances x y) [
        | inl agrees ↦ agrees
        | inr (still, none_of) ↦
            still ∙ balance_at-nil x y ∙ sym (balance_at-no_record k.balances x y none_of)
      ],
    )
