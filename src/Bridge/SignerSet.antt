-- ===== src/Bridge/SignerSet.antt =====
-- Signer sets: x/bridge/keeper/signer_set.go.
pub mod Newest
pub mod Sorted
use aegis_link.Common.{
  ℕ, Bool, true, false, ◌&&◌, ◌||◌, not, Option, none, some, List, [], ◌∷◌, map, length, is_empty,
  if◌then◌else◌, ltb, nat_beq,
}
use aegis_link.Common.Map.{Map}
use aegis_link.Text.{Text, trim_space, to_lower, text_beq}
use aegis_link.Errors.{Error, invalid_signer_set}
use aegis_link.Bridge.Attestation.{is_seen, normalize_signer_address}

pub record SignerSet : Type 0 where
  pub version : ℕ
  pub signers : List Text
  pub threshold : ℕ
  pub activated_at : ℕ
  pub expires_at : ℕ

abbrev err_if : Bool → Option Error → Option Error
err_if c rest = if c then some invalid_signer_set else rest

-- The loop of `ValidateBasic` over the signers, which normalises before it looks for duplicates.
unfoldable pub validate_signers : List Text → List Text → Option Error
validate_signers seen [] = none
validate_signers seen (s ∷ ss) =
    let signer = to_lower (trim_space s) in
    let rest = validate_signers (signer ∷ seen) ss in
    err_if (text_beq signer []) (err_if (is_seen signer seen) rest)

-- `SignerSet.ValidateBasic`
unfoldable pub validate_basic : SignerSet → Option Error
unfolding validate_signers
validate_basic s = err_if (nat_beq s.version 0) (
    err_if (is_empty s.signers) (
      err_if (nat_beq s.threshold 0) (
        err_if (ltb (length s.signers) s.threshold) (
          err_if (not (nat_beq s.expires_at 0) && ltb s.expires_at s.activated_at)
            (validate_signers [] s.signers)))))

-- `<` on Go strings: byte by byte.
unfoldable pub text_leb : Text → Text → Bool
text_leb [] t = true
text_leb (a ∷ s) [] = false
text_leb (a ∷ s) (b ∷ t) =
    let rest = text_leb s t in if ltb a b then true else if ltb b a then false else rest

unfoldable pub insert_sorted : Text → List Text → List Text
unfolding text_leb
insert_sorted s [] = s ∷ []
insert_sorted s (t ∷ ts) =
    let later = t ∷ insert_sorted s ts in if text_leb s t then s ∷ t ∷ ts else later

-- `sort.Strings`: the sorted list is one, whatever the algorithm.
unfoldable pub sort_strings : List Text → List Text
unfolding insert_sorted
sort_strings [] = []
sort_strings (s ∷ ss) = insert_sorted s (sort_strings ss)

unfoldable pub normalize_signer_set : SignerSet → SignerSet
unfolding sort_strings normalize_signer_address
normalize_signer_set s = record s {
  signers = sort_strings (map normalize_signer_address s.signers);
}

-- The set is active at a height.
unfoldable pub is_active : ℕ → SignerSet → Bool
is_active height s =
    not (ltb height s.activated_at) && not (not (nat_beq s.expires_at 0) && ltb s.expires_at height)

abbrev newer : Option SignerSet → SignerSet → Bool
newer none s = true
newer (some active) s = ltb active.version s.version

-- The loop of `ActiveSignerSet`; `none` is "not found".
unfoldable pub select_active : ℕ → Option SignerSet → Map ℕ SignerSet → Option SignerSet
select_active height active [] = active
select_active height active ((v, s) ∷ sets) =
    select_active height (if is_active height s && newer active s then some s else active) sets
