-- ===== src/Bank/Snapshot/Load.antt =====
-- The loop of the import of the wallets, x/bank/keeper/keeper.go, on records of what wallets hold.
use aegis_link.Common.{
  ◌≡◌, refl, ap, ◌∙◌, ◌&&◌, false, Bool, some, List, [], ◌∷◌, arith, All, Bool-cases, inl, inr, ◌⊎◌,
  if◌then◌else◌,
}
use aegis_link.Common.Int.{ℤ, pos, ◌≤ℤ◌}
use aegis_link.Common.Map.{lookup, insert, lookup-insert}
use aegis_link.Text.{Text, text_eq, text_beq, text_beq_iff, trim_space}
use aegis_link.Errors.{Result, ok}
use aegis_link.Codec.{int_decimal}
use aegis_link.Codec.Trimmed.{trim_space-int_decimal}
use aegis_link.Limits.{not_positive}
use aegis_link.Codec.Decimal.{set_string-int_decimal}
use aegis_link.Bank.{
  Balances, BalanceRecord, wallet, amount_or_zero, balance_at, load_balances, normalize_denom,
  normalize_amount_string,
}
use aegis_link.Bank.Balances.{balance_at-insert}
use aegis_link.Bank.Snapshot.{balance_record}

load_balances-step :
    (m : Balances) (rs : List BalanceRecord) (address denom : Text) (v : ℤ)
    → trim_space address ≡ address
    → text_beq address [] ≡ false
    → trim_space denom ≡ denom
    → text_beq denom [] ≡ false
    → pos 1 ≤ℤ v
    → load_balances m (record { address = address; denom = denom; amount = int_decimal v } ∷ rs)
      ≡ load_balances (insert address (insert denom v (wallet (lookup address m))) m) rs
unfolding load_balances normalize_denom normalize_amount_string
load_balances-step m rs address denom v trimmed named trimmed' named' positive =
    let some_amount : not_positive (some v) ≡ false = ground arith in
    rw trimmed (
      rw (named, load_balances)
        (rw trimmed' (
          rw (named', load_balances)
            (rw (trim_space-int_decimal v positive) (
              rw (set_string-int_decimal v, load_balances)
                (rw (some_amount, load_balances)
                  (ap (λ a. load_balances (insert a (insert denom v (wallet (lookup a m))) m) rs)
                    trimmed)))))))

balance_at-load :
    (m : Balances) (address denom : Text) (v : ℤ) (x y : Text)
    → balance_at (insert address (insert denom v (wallet (lookup address m))) m) x y
      ≡ (if text_beq address x && text_beq denom y then v else balance_at m x y)
balance_at-load m address denom v x y =
    balance_at-insert m address (insert denom v (wallet (lookup address m))) x y
    ∙ elim (Bool-cases (text_beq address x)) [
      | inr other ↦ rw other refl
      | inl same ↦
          let address_is_x : address ≡ x = (text_beq_iff address x).0 same in
          rw same (
            ap amount_or_zero (lookup-insert denom y v (wallet (lookup address m)))
            ∙ elim (Bool-cases (text_beq denom y)) [
              | inl same' ↦ rw same' refl
              | inr other ↦
                  rw other (ap (λ a. amount_or_zero (lookup y (wallet (lookup a m)))) address_is_x)
            ])
    ]

module _ (m : Balances) where
  -- A record of the snapshot, which says what the wallets hold.
  pub record IsRecord (r : BalanceRecord) : Type 0 where
    pub address : Text
    pub denom : Text
    pub same : r ≡ balance_record m address denom
    pub address_trimmed : trim_space address ≡ address
    pub address_named : text_beq address [] ≡ false
    pub denom_trimmed : trim_space denom ≡ denom
    pub denom_named : text_beq denom [] ≡ false
    pub positive : pos 1 ≤ℤ balance_at m address denom

  abbrev pub is_record_of : Text → Text → BalanceRecord → Bool
  is_record_of x y r = text_beq r.address x && text_beq r.denom y

  -- What the loop of the import leaves.
  pub record IsLoaded (m₀ : Balances) (rs : List BalanceRecord) (result : Result Balances)
      : Type 0 where
    pub loaded : Balances
    pub returns : result ≡ ok loaded
    pub balances :
        (x y : Text)
        → (balance_at loaded x y ≡ balance_at m x y)
          ⊎ ((balance_at loaded x y ≡ balance_at m₀ x y) × All (λ r. is_record_of x y r ≡ false) rs)

  pub load_balances-IsLoaded :
      (rs : List BalanceRecord) (m₀ : Balances)
      → All IsRecord rs
      → IsLoaded m₀ rs (load_balances m₀ rs)
  load_balances-IsLoaded [] m₀ h = record {
    loaded = m₀;
    returns = unfold load_balances in refl;
    balances = λ x y. inr (refl, tt);
  }
  load_balances-IsLoaded (r ∷ rs) m₀ (h, hs) =
      let v = balance_at m h.address h.denom in
      let m₁ = insert h.address (insert h.denom v (wallet (lookup h.address m₀))) m₀ in
      let rest = load_balances-IsLoaded rs m₁ hs in
      let step =
        load_balances-step m₀ rs h.address h.denom v h.address_trimmed h.address_named
          h.denom_trimmed h.denom_named h.positive in
      record {
        loaded = rest.loaded;
        returns = ap (λ x. load_balances m₀ (x ∷ rs)) h.same ∙ step ∙ rest.returns;
        balances = λ x y. elim (rest.balances x y) [
          | inl agrees ↦ inl agrees
          | inr (still, others) ↦
              let moved = still ∙ balance_at-load m₀ h.address h.denom v x y in
              elim (Bool-cases (text_beq h.address x && text_beq h.denom y)) [
                | inr other ↦ inr (
                  moved ∙ ap (λ b. if b then v else balance_at m₀ x y) other,
                  (ap (is_record_of x y) h.same ∙ other, others),
                )
                | inl own ↦ inl (
                    moved
                    ∙ ap (λ b. if b then v else balance_at m₀ x y) own
                    ∙ ground (arith, text_beq_iff h.address x, text_beq_iff h.denom y))
              ]
        ];
      }
