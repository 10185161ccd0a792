-- ===== src/Relayer/Attestations/Ranking.antt =====
-- The order of the votes in relayer/internal/attestations/collector.go, and the expiry that it
-- leads to.
use aegis_link.Common.{
  ℕ, ◌≤◌, suc, zero, ◌≡◌, refl, sym, ap, ◌∙◌, ◌||◌, true, some, List, [], ◌∷◌, ◌++◌, length, map,
  All, All-imp, arith, Bool-cases, inl, inr, if◌then◌else◌, insert_by, slice_stable, All-insert_by,
  ltb, nat_beq,
}
use mathlib.Core.List.{append_assoc, append-nil}
use aegis_link.Common.Map.{Map, contains}
use aegis_link.Text.{Text, text_eq}
use aegis_link.Bridge.Attestation.{normalize_signer_address}
use aegis_link.Relayer.Attestations.{ranks_before, take, choose}

-- The expiries do not go up.
abbrev pub IsDescending : List (Text × ℕ) → Type 0
IsDescending [] = Unit
IsDescending ((s, e) ∷ votes) = All (λ (t, f). f ≤ e) votes × IsDescending votes

insert_by-IsDescending :
    (s : Text) (e : ℕ) (votes : List (Text × ℕ))
    → IsDescending votes
    → IsDescending (insert_by ranks_before (s, e) votes)
unfolding insert_by
insert_by-IsDescending s e [] h = (tt, tt)
insert_by-IsDescending s e ((t, f) ∷ votes) (below, h) =
    elim (Bool-cases (ranks_before (t, f) (s, e))) [
      | inl before ↦
          let lower : e ≤ f = ground arith in
          rw before (
            All-insert_by (λ (x : Text × ℕ). x.1 ≤ f) ranks_before (s, e) votes lower below,
            insert_by-IsDescending s e votes h,
          )
      | inr after ↦
          let lower : f ≤ e = ground arith in
          rw after (
            (
              lower,
              All-imp (λ (x : Text × ℕ). x.1 ≤ f) (λ (x : Text × ℕ). x.1 ≤ e)
                  (λ x q. omega (arith, q)) votes below,
            ),
            (below, h),
          )
    ]

pub slice_stable-IsDescending :
    (votes : List (Text × ℕ)) → IsDescending (slice_stable ranks_before votes)
unfolding slice_stable
slice_stable-IsDescending [] = tt
slice_stable-IsDescending ((s, e) ∷ votes) =
    insert_by-IsDescending s e (slice_stable ranks_before votes) (slice_stable-IsDescending votes)

pub take-All {ℓ κ} :
    {A : Type ℓ} (P : A → Type κ) (n : ℕ) (xs : List A) → All P xs → All P (take n xs)
take-All P zero xs h = tt
take-All P (suc n) [] h = tt
take-All P (suc n) (x ∷ xs) (p, h) = (p, take-All P n xs h)

pub take-IsDescending :
    (n : ℕ) (votes : List (Text × ℕ)) → IsDescending votes → IsDescending (take n votes)
take-IsDescending zero votes h = tt
take-IsDescending (suc n) [] h = tt
take-IsDescending (suc n) ((s, e) ∷ votes) (below, h) =
    (take-All (λ (x : Text × ℕ). x.1 ≤ e) n votes below, take-IsDescending n votes h)

pub length-take {ℓ} : {A : Type ℓ} (n : ℕ) (xs : List A) → n ≤ length xs → length (take n xs) ≡ n
length-take zero xs h = refl
length-take (suc n) [] h = absurd (omega arith)
length-take (suc n) (x ∷ xs) h = omega (arith, length-take n xs (omega arith))

-- Votes whose signers have keys, and that do not expire before a height.
abbrev pub IsChosen : Map Text Text → ℕ → Text × ℕ → Type 0
IsChosen keys expiry (s, e) = (contains (normalize_signer_address s) keys ≡ true) × (expiry ≤ e)

abbrev pub addresses : List (Text × ℕ) → List Text
addresses votes = map (λ (s, e). normalize_signer_address s) votes

choose-nil :
    (keys : Map Text Text) (signers : List Text) (expiry : ℕ) (signers' : List Text) (expiry' : ℕ)
    → choose keys [] signers expiry ≡ some (signers', expiry')
    → (signers' ≡ signers) × (expiry' ≡ expiry)
unfolding choose
choose-nil keys signers expiry signers' expiry' e = (ground arith, ground arith)

choose-cons :
    (keys : Map Text Text) (s : Text) (f : ℕ) (votes : List (Text × ℕ)) (signers : List Text)
    (expiry : ℕ) (r : List Text × ℕ)
    → (if nat_beq expiry 0 || ltb f expiry then f else expiry) ≡ f
    → choose keys ((s, f) ∷ votes) signers expiry ≡ some r
    → (contains (normalize_signer_address s) keys ≡ true)
      × (choose keys votes (signers ++ normalize_signer_address s ∷ []) f ≡ some r)
unfolding choose
choose-cons keys s f votes signers expiry r same e =
    elim (Bool-cases (contains (normalize_signer_address s) keys)) [
      | inr unknown ↦ absurd (ground arith)
      | inl known ↦ (
        known,
        ap (choose keys votes (signers ++ normalize_signer_address s ∷ [])) (sym same)
            ∙ (rw (known, choose) at e),
      )
    ]

-- What the choice from descending votes, all of them at most of the expiry of before, leaves.
choose-IsChosen :
    (keys : Map Text Text) (votes : List (Text × ℕ)) (signers : List Text) (expiry : ℕ)
    (signers' : List Text) (expiry' : ℕ)
    → IsDescending votes
    → All (λ (t, f). f ≤ expiry) votes
    → choose keys votes signers expiry ≡ some (signers', expiry')
    → (signers' ≡ signers ++ addresses votes)
      × (expiry' ≤ expiry)
      × All (IsChosen keys expiry') votes
choose-IsChosen keys [] signers expiry signers' expiry' d below e =
    let (same, expires) = choose-nil keys signers expiry signers' expiry' e in
    (same ∙ sym (append-nil signers), omega arith, tt)
choose-IsChosen keys ((s, f) ∷ votes) signers expiry signers' expiry' (d, ds) (b, bs) e =
    let lower : (if nat_beq expiry 0 || ltb f expiry then f else expiry) ≡ f = ground arith in
    let (known, rest) = choose-cons keys s f votes signers expiry (signers', expiry') lower e in
    let (all, before, chosen) =
      choose-IsChosen keys votes (signers ++ normalize_signer_address s ∷ []) f signers' expiry' ds
        d rest in
    (
      all ∙ append_assoc signers (normalize_signer_address s ∷ []) (addresses votes),
      omega (arith, before),
      ((known, before), chosen),
    )

-- The choice from the beginning.
pub choose_from_nothing :
    (keys : Map Text Text) (votes : List (Text × ℕ)) (signers : List Text) (expiry : ℕ)
    → IsDescending votes
    → choose keys votes [] 0 ≡ some (signers, expiry)
    → (signers ≡ addresses votes) × All (IsChosen keys expiry) votes
choose_from_nothing keys [] signers expiry d e = ((choose-nil keys [] 0 signers expiry e).0, tt)
choose_from_nothing keys ((s, f) ∷ votes) signers expiry (d, ds) e =
    let (known, rest) = choose-cons keys s f votes [] 0 (signers, expiry) refl e in
    let (all, before, chosen) =
      choose-IsChosen keys votes (normalize_signer_address s ∷ []) f signers expiry ds d rest in
    (all, ((known, before), chosen))
