-- ===== src/Bank/Wallets.antt =====
-- `Credit` and `Debit`, on all branches, as `BalanceOf` sees them.
use aegis_link.Common.{
  ◌≡◌, ◌≢◌, refl, sym, ap, ◌∙◌, false, Option, none, some, [], arith, Bool-cases, Option-cases, inl,
  inr, ◌⊎◌,
}
use aegis_link.Common.Int.{ℤ, pos, ◌+ℤ◌, ◌-ℤ◌, ◌≤ℤ◌, int_laws}
use aegis_link.Text.{Text, text_eq, text_beq, text_beq_iff, trim_space}
use aegis_link.Errors.{ok, Result-cases, insufficient_balance}
use aegis_link.Bank.{
  Keeper, credit, debit, arguments, normalize_denom, normalize_amount, balance_of, balance_at,
  credit_at, debit_at,
}
use aegis_link.Bank.Balances.{moved, balance_at-credit_at, balance_at-debit_at, debit_at-none}

-- The arguments of a credit or a debit that are accepted.
pub record HasArguments (address denom : Text) (amount : Option ℤ) (a d : Text) (v : ℤ)
    : Type 0 where
  pub trimmed_address : a ≡ trim_space address
  pub trimmed_denom : d ≡ trim_space denom
  pub known : amount ≡ some v
  pub positive : pos 1 ≤ℤ v
  pub named : text_beq d [] ≡ false

arguments-HasArguments :
    (address denom : Text) (amount : Option ℤ) (a d : Text) (v : ℤ)
    → arguments address denom amount ≡ ok (a, d, v)
    → HasArguments address denom amount a d v
unfolding arguments normalize_denom normalize_amount
arguments-HasArguments address denom none a d v e = absurd (ground arith)
arguments-HasArguments address denom (some w) a d v e = record {
  trimmed_address = ground arith;
  trimmed_denom = ground arith;
  known = ground arith;
  positive = ground arith;
  named = ground arith;
}

balance_of-step :
    (k k' : Keeper) (address denom : Text) (v : ℤ) (change : ℤ → ℤ → ℤ)
    → ((x : ℤ) → change x (pos 0) ≡ x)
    → text_beq (trim_space denom) [] ≡ false
    → ((a d : Text)
        → balance_at k'.balances a d
          ≡ change
              (balance_at k.balances a d)
              (moved (trim_space address) (trim_space denom) v a d))
    → (x y : Text)
    → balance_of k' x y
      ≡ change
          (balance_of k x y)
          (moved (trim_space address) (trim_space denom) v (trim_space x) (trim_space y))
unfolding balance_of text_beq
balance_of-step k k' address denom v change zero named h x y =
    elim (Bool-cases (text_beq (trim_space y) [])) [
      | inr full ↦ rw full (h (trim_space x) (trim_space y))
      | inl blank ↦
          let empty : trim_space y ≡ [] = (text_beq_iff (trim_space y) []).0 blank in
          let still : moved (trim_space address) (trim_space denom) v (trim_space x) [] ≡ pos 0 =
            elim (Bool-cases (text_beq (trim_space address) (trim_space x))) [
              | inl q ↦ rw (q, named) refl
              | inr q ↦ rw q refl
            ] in
          rw empty (rw still (sym (zero (pos 0))))
    ]

balance_of_named :
    (k : Keeper) (x y : Text)
    → text_beq (trim_space y) [] ≡ false
    → balance_of k x y ≡ balance_at k.balances (trim_space x) (trim_space y)
unfolding balance_of
balance_of_named k x y named = rw named refl

pub credit-cases :
    (k : Keeper) (address denom : Text) (amount : Option ℤ)
    → let (k', e) = credit k address denom amount in
      ((e ≢ none) × (k' ≡ k))
      ⊎ ((v : ℤ) × HasArguments address denom amount (trim_space address) (trim_space denom) v
          × (e ≡ k.persist_error)
          × ((x y : Text)
              → balance_of k' x y
                ≡ balance_of k x y
                  +ℤ moved (trim_space address) (trim_space denom) v (trim_space x) (trim_space y)))
unfolding credit
credit-cases k address denom amount = elim (Result-cases (arguments address denom amount)) [
  | inr (e, refused) ↦ rw (refused, credit) (inl ((λ (q : some e ≡ none). cc), refl))
  | inl ((a, d, v), fine) ↦
      let h = arguments-HasArguments address denom amount a d v fine in
      let h' : HasArguments address denom amount (trim_space address) (trim_space denom) v =
        record {
          trimmed_address = refl;
          trimmed_denom = refl;
          known = h.known;
          positive = h.positive;
          named = ap (λ t. text_beq t []) (sym h.trimmed_denom) ∙ h.named;
        } in
      rw (fine, credit)
        (inr (
          v,
          h',
          refl,
          balance_of-step k (record k { balances = credit_at k.balances a d v }) address denom v
              (λ x y. x +ℤ y) (λ x. omega int_laws) h'.named
              (λ x y.
                balance_at-credit_at k.balances a d v x y
                ∙ ap (λ t. balance_at k.balances x y +ℤ t)
                    (rw (h.trimmed_address, h.trimmed_denom) refl)),
        ))
]

pub debit-cases :
    (k : Keeper) (address denom : Text) (amount : Option ℤ)
    → let (k', e) = debit k address denom amount in
      ((e ≢ none) × (k' ≡ k))
      ⊎ ((v : ℤ) × HasArguments address denom amount (trim_space address) (trim_space denom) v
          × (balance_of k address denom +ℤ pos 1 ≤ℤ v)
          × (k' ≡ k)
          × (e ≡ some insufficient_balance))
      ⊎ ((v : ℤ) × HasArguments address denom amount (trim_space address) (trim_space denom) v
          × (v ≤ℤ balance_of k address denom)
          × (e ≡ k.persist_error)
          × ((x y : Text)
              → balance_of k' x y
                ≡ balance_of k x y
                  -ℤ moved (trim_space address) (trim_space denom) v (trim_space x) (trim_space y)))
unfolding debit
debit-cases k address denom amount = elim (Result-cases (arguments address denom amount)) [
  | inr (e, refused) ↦ rw (refused, debit) (inl ((λ (q : some e ≡ none). cc), refl))
  | inl ((a, d, v), fine) ↦
      let h = arguments-HasArguments address denom amount a d v fine in
      let h' : HasArguments address denom amount (trim_space address) (trim_space denom) v =
        record {
          trimmed_address = refl;
          trimmed_denom = refl;
          known = h.known;
          positive = h.positive;
          named = ap (λ t. text_beq t []) (sym h.trimmed_denom) ∙ h.named;
        } in
      let own : balance_of k address denom ≡ balance_at k.balances a d =
        balance_of_named k address denom h'.named ∙ rw (h.trimmed_address, h.trimmed_denom) refl in
      rw (fine, debit)
        (elim (Option-cases (debit_at k.balances a d v)) [
          | inl short ↦
              rw (short, debit)
                (inr (
                  inl
                    (v, h', rw own (debit_at-none k.balances a d v h.positive short), refl, refl)))
          | inr (m, enough) ↦
              let (covered, moves) = balance_at-debit_at k.balances m a d v enough in
              rw (enough, debit)
                (inr (
                  inr (
                    v,
                    h',
                    rw own covered,
                    refl,
                    balance_of-step k (record k { balances = m }) address denom v (λ x y. x -ℤ y)
                        (λ x. omega int_laws) h'.named
                        (λ x y.
                          moves x y
                          ∙ ap (λ t. balance_at k.balances x y -ℤ t)
                              (rw (h.trimmed_address, h.trimmed_denom) refl)),
                  )))
        ])
]
