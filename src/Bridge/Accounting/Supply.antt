-- ===== src/Bridge/Accounting/Supply.antt =====
-- The loops of `CheckAccountingInvariant` over the supply and over what is left.
use aegis_link.Common.{
  ◌≡◌, ◌≢◌, refl, sym, ap, ◌∙◌, none, some, [], ◌∷◌, if◌then◌else◌, arith, Bool-cases, inl, inr,
}
use aegis_link.Common.Int.{ℤ, pos, ◌+ℤ◌, int_laws, int_eqs, int_beq_iff}
use aegis_link.Common.Map.{
  Map, lookup, erase, lookup-erase, lookup-cons_self, lookup-cons_ne, lookup-erase_ne, Unique,
  erase-Unique,
}
use aegis_link.Text.{Text, text_eq, text_beq, text_beq_iff}
use aegis_link.Bridge.Accounting.{amount_or_zero, amount_of, match_supply, match_remaining, sound}

amount_of-cons :
    (d e : Text) (v : ℤ) (m : Map Text ℤ)
    → amount_of d ((e, v) ∷ m) ≡ (if text_beq e d then v else amount_of d m)
unfolding lookup
amount_of-cons d e v m = ground arith

amount_of-erase :
    (d e : Text) (m : Map Text ℤ)
    → amount_of d (erase e m) ≡ (if text_beq e d then pos 0 else amount_of d m)
amount_of-erase d e m = ground (arith, lookup-erase e d m)

match_supply-step :
    (m m' : Map Text ℤ) (denom : Text) (actual : ℤ) (supply : Map Text ℤ)
    → match_supply m ((denom, actual) ∷ supply) ≡ sound m'
    → (actual ≡ amount_of denom m) × (match_supply (erase denom m) supply ≡ sound m')
unfolding match_supply
match_supply-step m m' denom actual supply e =
    (ground (arith, int_beq_iff actual (amount_of denom m)), ground arith)

-- If the loop ends well, what is expected is the supply and what is left.
pub match_supply-sound :
    (m m' : Map Text ℤ) (supply : Map Text ℤ)
    → Unique supply
    → match_supply m supply ≡ sound m'
    → (d : Text) → amount_of d m ≡ amount_of d supply +ℤ amount_of d m'
match_supply-sound m m' [] u e d =
    let same : m ≡ m' = unfold match_supply in cc e in rw (← same) (unfold lookup in omega int_laws)
match_supply-sound m m' ((denom, actual) ∷ supply) (fresh, u) e d =
    let (exact, rest) = match_supply-step m m' denom actual supply e in
    let ih = match_supply-sound (erase denom m) m' supply u rest d in
    elim (Bool-cases (text_beq denom d)) [
      | inl own ↦
          let e : denom ≡ d = (text_beq_iff denom d).0 own in
          let gone : amount_of d (erase denom m) ≡ pos 0 =
            amount_of-erase d denom m ∙ ap (λ b. if b then pos 0 else amount_of d m) own in
          let none_left : amount_of d supply ≡ pos 0 =
            ap amount_or_zero (ap (λ x. lookup x supply) (sym e) ∙ fresh) in
          let exact' : actual ≡ amount_of d m = exact ∙ ap (λ x. amount_of x m) e in
          let head : amount_of d ((denom, actual) ∷ supply) ≡ actual =
            amount_of-cons d denom actual supply
            ∙ ap (λ b. if b then actual else amount_of d supply) own in
          omega int_eqs
      | inr other ↦
          let kept : amount_of d (erase denom m) ≡ amount_of d m =
            amount_of-erase d denom m ∙ ap (λ b. if b then pos 0 else amount_of d m) other in
          let head : amount_of d ((denom, actual) ∷ supply) ≡ amount_of d supply =
            amount_of-cons d denom actual supply
            ∙ ap (λ b. if b then actual else amount_of d supply) other in
          sym kept ∙ ih ∙ ap (λ x. x +ℤ amount_of d m') (sym head)
    ]

-- The loop ends well if each entry of the supply is what is expected.
pub match_supply_complete :
    (m : Map Text ℤ) (supply : Map Text ℤ)
    → Unique supply
    → Unique m
    → ((d : Text) (v : ℤ) → lookup d supply ≡ some v → v ≡ amount_of d m)
    → (m' : Map Text ℤ) × (match_supply m supply ≡ sound m') × Unique m'
unfolding match_supply
match_supply_complete m [] u um exact = (m, refl, um)
match_supply_complete m ((denom, actual) ∷ supply) (fresh, u) um exact =
    let first : actual ≡ amount_of denom m =
      exact denom actual (unfold lookup in rw ((text_beq_iff denom denom).1 refl)) in
    let (m', e, um') =
      match_supply_complete (erase denom m) supply u (erase-Unique denom m um) (λ d v found.
        let ne : denom ≢ d = λ q. cc (sym fresh ∙ ap (λ x. lookup x supply) q ∙ found) in
        exact d v (lookup-cons_ne denom d actual supply ne ∙ found)
        ∙ ap amount_or_zero (sym (lookup-erase_ne denom d m ne))) in
    (m', ground (arith, int_beq_iff actual (amount_of denom m)), um')

-- If nothing is left but zeros, the last loop ends well, and only then.
pub match_remaining_sound :
    (m : Map Text ℤ) → match_remaining m ≡ none → (d : Text) → amount_of d m ≡ pos 0
unfolding match_remaining
match_remaining_sound [] e d = unfold lookup in refl
match_remaining_sound ((denom, v) ∷ m) e d =
    rw amount_of-cons (ground (arith, match_remaining_sound m (ground arith) d))

pub match_remaining_complete :
    (m : Map Text ℤ) → Unique m → ((d : Text) → amount_of d m ≡ pos 0) → match_remaining m ≡ none
unfolding match_remaining
match_remaining_complete [] u zero_all = refl
match_remaining_complete ((denom, v) ∷ m) (fresh, u) zero_all =
    let first : v ≡ pos 0 = ap amount_or_zero (sym (lookup-cons_self denom v m)) ∙ zero_all denom in
    rw first (
      match_remaining_complete m u (λ d. elim (Bool-cases (text_beq denom d)) [
        | inl own ↦
            ap amount_or_zero (ap (λ x. lookup x m) (sym ((text_beq_iff denom d).0 own)) ∙ fresh)
        | inr other ↦
            ap amount_or_zero
              (sym (lookup-cons_ne denom d v m (λ q. cc (sym other ∙ (text_beq_iff denom d).1 q))))
            ∙ zero_all d
      ]))
