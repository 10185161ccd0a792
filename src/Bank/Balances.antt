-- ===== src/Bank/Balances.antt =====
-- What a credit and a debit do to the balance of every wallet in every denomination.
use aegis_link.Common.{
  ◌≡◌, refl, sym, ap, ◌∙◌, true, none, some, [], ◌∷◌, arith, Bool-cases, Option-cases, inl, inr,
  if◌then◌else◌,
}
use aegis_link.Common.Int.{ℤ, pos, ◌+ℤ◌, ◌-ℤ◌, ◌≤ℤ◌, ltb_ℤ, is_zero, +ℤ_parts, int_laws}
use aegis_link.Common.Map.{Map, lookup, insert, lookup-insert, lookup-erase}
use aegis_link.Text.{Text, text_eq, text_beq, text_beq_iff}
use aegis_link.Bank.{
  Balances, wallet, amount_or_zero, credit_at, put_wallet, put_amount, debit_at, balance_at,
}

-- The amount, for one wallet and one denomination, and 0 for all others.
abbrev pub moved : Text → Text → ℤ → Text → Text → ℤ
moved address denom amount a d =
    if text_beq address a then (if text_beq denom d then amount else pos 0) else pos 0

pub balance_at-insert :
    (m : Balances) (address : Text) (denoms : Map Text ℤ) (a d : Text)
    → balance_at (insert address denoms m) a d
      ≡ (if text_beq address a then amount_or_zero (lookup d denoms) else balance_at m a d)
balance_at-insert m address denoms a d = elim (Bool-cases (text_beq address a)) [
  | inl q ↦ rw lookup-insert (rw q refl)
  | inr q ↦ rw lookup-insert (rw q refl)
]

balance_at-put_wallet :
    (m : Balances) (address : Text) (denoms : Map Text ℤ) (a d : Text)
    → balance_at (put_wallet m address denoms) a d
      ≡ (if text_beq address a then amount_or_zero (lookup d denoms) else balance_at m a d)
unfolding put_wallet
balance_at-put_wallet m address (x ∷ denoms) a d = balance_at-insert m address (x ∷ denoms) a d
balance_at-put_wallet m address [] a d = elim (Bool-cases (text_beq address a)) [
  | inl q ↦ rw lookup-erase (rw q (unfold lookup in refl))
  | inr q ↦ rw lookup-erase (rw q refl)
]

amount-put_amount :
    (denoms : Map Text ℤ) (denom : Text) (left : ℤ) (d : Text)
    → amount_or_zero (lookup d (put_amount denoms denom left))
      ≡ (if text_beq denom d then left else amount_or_zero (lookup d denoms))
unfolding put_amount
amount-put_amount denoms denom left d = elim (Bool-cases (is_zero left)) [
  | inl nothing ↦ rw nothing (rw lookup-erase (ground arith))
  | inr something ↦ rw something (rw lookup-insert (ground arith))
]

amount-insert :
    (denoms : Map Text ℤ) (denom : Text) (v : ℤ) (d : Text)
    → amount_or_zero (lookup d (insert denom v denoms))
      ≡ (if text_beq denom d then v else amount_or_zero (lookup d denoms))
amount-insert denoms denom v d = rw lookup-insert (ground arith)

-- A credit adds its amount to one balance and to no other.
pub balance_at-credit_at :
    (m : Balances) (address denom : Text) (amount : ℤ) (a d : Text)
    → balance_at (credit_at m address denom amount) a d
      ≡ balance_at m a d +ℤ moved address denom amount a d
unfolding credit_at
balance_at-credit_at m address denom amount a d =
    balance_at-insert m address _ a d ∙ elim (Bool-cases (text_beq address a)) [
      | inr q ↦ rw q (omega int_laws)
      | inl q ↦
          let same : address ≡ a = (text_beq_iff address a).0 q in
          rw q (
            amount-insert (wallet (lookup address m)) denom _ d
            ∙ elim (Bool-cases (text_beq denom d)) [
              | inr r ↦ rw r (rw same (omega int_laws))
              | inl r ↦
                  let same_denom : denom ≡ d = (text_beq_iff denom d).0 r in
                  rw r (rw (same, same_denom) refl)
            ])
    ]

-- What a debit that is covered has found.
record IsCovered (m m' : Balances) (address denom : Text) (amount : ℤ) : Type 0 where
  denoms : Map Text ℤ
  current : ℤ
  has_wallet : lookup address m ≡ some denoms
  has_amount : lookup denom denoms ≡ some current
  enough : amount ≤ℤ current
  leaves : m' ≡ put_wallet m address (put_amount denoms denom (current -ℤ amount))

debit_at-IsCovered :
    (m m' : Balances) (address denom : Text) (amount : ℤ)
    → debit_at m address denom amount ≡ some m'
    → IsCovered m m' address denom amount
unfolding debit_at
debit_at-IsCovered m m' address denom amount e = elim (Option-cases (lookup address m)) [
  | inl missing ↦ absurd (ground arith)
  | inr (denoms, there) ↦ elim (Option-cases (lookup denom denoms)) [
    | inl missing ↦ absurd (ground arith)
    | inr (current, found) ↦ elim (Bool-cases (ltb_ℤ current amount)) [
      | inl short ↦ absurd (ground arith)
      | inr enough ↦ record {
        denoms = denoms;
        current = current;
        has_wallet = there;
        has_amount = found;
        enough = ground arith;
        leaves = ground arith;
      }
    ]
  ]
]

-- A debit that is covered takes its amount from one balance and from no other, and that balance was
-- at least the amount.
pub balance_at-debit_at :
    (m m' : Balances) (address denom : Text) (amount : ℤ)
    → debit_at m address denom amount ≡ some m'
    → (amount ≤ℤ balance_at m address denom)
      × ((a d : Text) → balance_at m' a d ≡ balance_at m a d -ℤ moved address denom amount a d)
balance_at-debit_at m m' address denom amount e =
    let c = debit_at-IsCovered m m' address denom amount e in
    let before : balance_at m address denom ≡ c.current =
      ap (λ w. amount_or_zero (lookup denom (wallet w))) c.has_wallet
      ∙ ap amount_or_zero c.has_amount in
    (
      rw before c.enough,
      λ a d.
          ap (λ x. balance_at x a d) c.leaves
          ∙ balance_at-put_wallet m address (put_amount c.denoms denom (c.current -ℤ amount)) a d
          ∙ elim (Bool-cases (text_beq address a)) [
            | inr q ↦ rw q (omega int_laws)
            | inl q ↦
                let same : address ≡ a = (text_beq_iff address a).0 q in
                let now : balance_at m a d ≡ amount_or_zero (lookup d c.denoms) =
                  ap (λ x. balance_at m x d) (sym same)
                  ∙ ap (λ w. amount_or_zero (lookup d (wallet w))) c.has_wallet in
                rw q (
                  amount-put_amount c.denoms denom (c.current -ℤ amount) d
                  ∙ elim (Bool-cases (text_beq denom d)) [
                    | inr r ↦ rw r (rw now (omega int_laws))
                    | inl r ↦
                        let same_denom : denom ≡ d = (text_beq_iff denom d).0 r in
                        let held : c.current ≡ balance_at m a d =
                          sym before
                          ∙ ap (λ x. balance_at m x denom) same
                          ∙ ap (λ x. balance_at m a x) same_denom in
                        rw r (ap (λ x. x -ℤ amount) held)
                  ])
          ],
    )

lt_of_ltb_ℤ : (x y : ℤ) → ltb_ℤ x y ≡ true → x +ℤ pos 1 ≤ℤ y
lt_of_ltb_ℤ x y h = ground (arith, +ℤ_parts x (pos 1))

-- A debit that is not covered finds less than its amount, if that is positive.
pub debit_at-none :
    (m : Balances) (address denom : Text) (amount : ℤ)
    → pos 1 ≤ℤ amount
    → debit_at m address denom amount ≡ none
    → balance_at m address denom +ℤ pos 1 ≤ℤ amount
unfolding debit_at
debit_at-none m address denom amount positive e = elim (Option-cases (lookup address m)) [
  | inl missing ↦ rw missing (unfold lookup in omega int_laws)
  | inr (denoms, there) ↦ elim (Option-cases (lookup denom denoms)) [
    | inl missing ↦ rw there (rw missing (omega int_laws))
    | inr (current, found) ↦ elim (Bool-cases (ltb_ℤ current amount)) [
      | inl short ↦ rw there (rw found (lt_of_ltb_ℤ current amount short))
      | inr enough ↦ absurd (ground arith)
    ]
  ]
]
