-- ===== src/Bridge/Snapshot/Roundtrip.antt =====
-- A snapshot gives the keeper back that it was taken of.
use mathlib.Core.List.{append_assoc, append-nil}
use mathlib.Core.Path.{subst}
use aegis_link.Common.{
  nat_eq, ℕ, ◌≡◌, refl, sym, ap, ◌∙◌, true, false, none, List, [], ◌∷◌, ◌++◌, map, All, is_empty,
  nat_beq,
}
use aegis_link.Common.Int.{ℤ}
use aegis_link.Common.Map.{Map, insert, Unique, insert_fresh, Unique-append}
use aegis_link.Text.{Text, text_eq}
use aegis_link.Codec.Decimal.{set_string-int_decimal}
use aegis_link.Bridge.SignerSet.{SignerSet, normalize_signer_set}
use aegis_link.Bridge.State.{Keeper, ClaimRecord, WithdrawalRecord}
use aegis_link.Bridge.Snapshot.{
  claim_snapshot, withdrawal_snapshot, supply_snapshot, set_snapshot, export_state, import_sets,
  import_claims, import_supply, import_withdrawals, end_claims, end_supply, end_withdrawals,
  import_state,
}

import_claims-export :
    (done m : Map Text ClaimRecord)
    → Unique (done ++ m)
    → import_claims done (map claim_snapshot m) ≡ (done ++ m, true)
unfolding import_claims
import_claims-export done [] u = ap (λ x. (x, true)) (sym (append-nil done))
import_claims-export done ((key, c) ∷ m) u =
    let next = append_assoc done ((key, c) ∷ []) m in
    rw (set_string-int_decimal c.amount, import_claims)
      (ap (λ x. import_claims x (map claim_snapshot m))
          (insert_fresh key c done (Unique-append key c done m u))
        ∙ import_claims-export (done ++ (key, c) ∷ []) m (subst (λ x. Unique x) (sym next) u)
        ∙ ap (λ x. (x, true)) next)

import_supply-export :
    (done m : Map Text ℤ)
    → Unique (done ++ m)
    → import_supply done (map supply_snapshot m) ≡ (done ++ m, true)
unfolding import_supply
import_supply-export done [] u = ap (λ x. (x, true)) (sym (append-nil done))
import_supply-export done ((key, a) ∷ m) u =
    let next = append_assoc done ((key, a) ∷ []) m in
    rw (set_string-int_decimal a, import_supply)
      (ap (λ x. import_supply x (map supply_snapshot m))
          (insert_fresh key a done (Unique-append key a done m u))
        ∙ import_supply-export (done ++ (key, a) ∷ []) m (subst (λ x. Unique x) (sym next) u)
        ∙ ap (λ x. (x, true)) next)

import_withdrawals-export :
    (done ws : List WithdrawalRecord)
    → import_withdrawals done (map withdrawal_snapshot ws) ≡ (done ++ ws, true)
unfolding import_withdrawals
import_withdrawals-export done [] = ap (λ x. (x, true)) (sym (append-nil done))
import_withdrawals-export done (w ∷ ws) =
    rw (set_string-int_decimal w.amount, import_withdrawals)
      (import_withdrawals-export (done ++ w ∷ []) ws
        ∙ ap (λ x. (x, true)) (append_assoc done (w ∷ []) ws))

-- A signer set under its version, in normal form.
abbrev pub IsNormal : ℕ × SignerSet → Type 0
IsNormal (version, set) = (version ≡ set.version) × (normalize_signer_set set ≡ set)

import_sets-export :
    (done m : Map ℕ SignerSet)
    → Unique (done ++ m)
    → All IsNormal m
    → import_sets done (map set_snapshot m) ≡ done ++ m
unfolding import_sets
import_sets-export done [] u n = sym (append-nil done)
import_sets-export done ((version, set) ∷ m) u ((own, normal), n) =
    let next = append_assoc done ((version, set) ∷ []) m in
    ap (λ x. import_sets (insert x.version x done) (map set_snapshot m)) normal
    ∙ ap (λ v. import_sets (insert v set done) (map set_snapshot m)) (sym own)
    ∙ ap (λ x. import_sets x (map set_snapshot m))
        (insert_fresh version set done (Unique-append version set done m u))
    ∙ import_sets-export (done ++ (version, set) ∷ []) m (subst (λ x. Unique x) (sym next) u) n
    ∙ next

-- What a keeper's state is like: its maps are maps, there is a signer set, all are normal, and the
-- nonce is not 0.
pub record IsStored (k : Keeper) : Type 0 where
  pub unique_claims : Unique k.processed_claims
  pub unique_supply : Unique k.supply_by_denom
  pub unique_sets : Unique k.signer_sets
  pub some_set : is_empty (map set_snapshot k.signer_sets) ≡ false
  pub normal_sets : All IsNormal k.signer_sets
  pub counted : nat_beq k.next_withdrawal_nonce 0 ≡ false

-- A keeper that imports a snapshot has all of its state, and keeps its own registry, limits and
-- pauses.
pub import-export :
    (k k' : Keeper)
    → IsStored k
    → import_state k' (export_state k) ≡ (
      record k {
        registry_keeper = k'.registry_keeper;
        limits_keeper = k'.limits_keeper;
        pauser_keeper = k'.pauser_keeper;
      },
      none,
    )
unfolding import_state export_state end_claims end_supply end_withdrawals
import-export k k' h = rw (import_claims-export [] k.processed_claims h.unique_claims) (
    rw (import_supply-export [] k.supply_by_denom h.unique_supply) (
      rw (import_withdrawals-export [] k.withdrawals) (
        rw h.some_set (
          rw h.counted
            (rw (import_sets-export [] k.signer_sets h.unique_sets h.normal_sets) refl)))))
