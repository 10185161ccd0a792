-- ===== src/Common/Map.antt =====
-- Go maps as association lists: a present key is replaced in place, a new one goes to the end, so
-- no key is listed twice. The list's order stands for the order of a `range` loop.
use mathlib.Core.Path.{subst, ◌≡◌, refl, sym, ap, ◌∙◌}
use mathlib.Core.Logic.{◌≢◌, ◌⊎◌, inl, inr}
use mathlib.Core.Bool.{Bool, true, false}
use mathlib.Core.Option.{Option, none, some}
use mathlib.Core.List.{List, [], ◌∷◌, ◌++◌}
use native.Mathlib.Omega.{arith}
use aegis_link.Common.Lists.{All}
use aegis_link.Common.Tests.{Eq, ◌==◌, if◌then◌else◌, Bool-cases, beq_refl, eq_of_beq}

abbrev pub Map {ℓ κ} : Type ℓ → Type κ → Type (ℓ ⊔ κ)
Map K V = List (K × V)

module _ {ℓ κ} {K : Type ℓ} {V : Type κ} ⦃e : Eq K⦄ where
  -- `v, ok := m[k]`
  unfoldable pub lookup : K → Map K V → Option V
  lookup k [] = none
  lookup k ((i, u) ∷ rest) = if i == k then some u else lookup k rest

  -- `m[k] = v`
  unfoldable pub insert : K → V → Map K V → Map K V
  insert k new [] = (k, new) ∷ []
  insert k new ((i, old) ∷ rest) = if i == k then (k, new) ∷ rest else (i, old) ∷ insert k new rest

  -- `delete(m, k)`
  unfoldable pub erase : K → Map K V → Map K V
  erase k [] = []
  erase k ((j, w) ∷ m) = let rest = erase k m in if j == k then rest else (j, w) ∷ rest

  abbrev pub contains : K → Map K V → Bool
  contains k m = elim (lookup k m) [ none ↦ false | some v ↦ true ]

  pub lookup-insert :
      (key other : K) (new : V) (m : Map K V)
      → lookup other (insert key new m) ≡ (if key == other then some new else lookup other m)
  unfolding lookup insert
  lookup-insert key other new [] = refl
  lookup-insert key other new ((i, old) ∷ rest) = ground (
    arith,
    e.beq_iff key other,
    e.beq_iff i key,
    e.beq_iff i other,
    lookup-insert key other new rest,
  )

  pub lookup-insert_self : (k : K) (v : V) (m : Map K V) → lookup k (insert k v m) ≡ some v
  lookup-insert_self k v m = rw lookup-insert (rw (beq_refl k))

  pub lookup-insert_ne :
      (k j : K) (v : V) (m : Map K V) → k ≢ j → lookup j (insert k v m) ≡ lookup j m
  lookup-insert_ne k j v m h = elim (Bool-cases (k == j)) [
    | inl q ↦ absurd (h (eq_of_beq k j q))
    | inr q ↦ rw lookup-insert (rw q)
  ]

  pub lookup-erase :
      (k j : K) (m : Map K V) → lookup j (erase k m) ≡ (if k == j then none else lookup j m)
  unfolding lookup erase
  lookup-erase k j [] = ground arith
  lookup-erase k j ((i, w) ∷ m) =
      ground (arith, e.beq_iff k j, e.beq_iff i k, e.beq_iff i j, lookup-erase k j m)

  -- No key stands twice, as in every Go map.
  abbrev pub Unique : Map K V → Type κ
  Unique [] = Unit
  Unique ((k, v) ∷ m) = (lookup k m ≡ none) × Unique m

  pub insert-Unique : (k : K) (v : V) (m : Map K V) → Unique m → Unique (insert k v m)
  unfolding insert lookup
  insert-Unique k v [] h = (refl, tt)
  insert-Unique k v ((j, w) ∷ m) h =
      ground (arith, e.beq_iff j k, e.beq_iff k j, insert-Unique k v m h.1, lookup-insert k j v m)

  pub erase-Unique : (k : K) (m : Map K V) → Unique m → Unique (erase k m)
  unfolding erase lookup
  erase-Unique k [] h = tt
  erase-Unique k ((j, w) ∷ m) h =
      ground (arith, e.beq_iff k j, erase-Unique k m h.1, lookup-erase k j m)

  -- An entry of a map after an insertion is the new one, or an old one under another key.
  pub insert-cases :
      (k : K) (v : V) (m : Map K V) (j : K) (w : V)
      → lookup j (insert k v m) ≡ some w
      → ((j ≡ k) × (w ≡ v)) ⊎ ((j ≢ k) × (lookup j m ≡ some w))
  insert-cases k v m j w found = elim (Bool-cases (k == j)) [
    | inl same ↦ inl (
      sym (eq_of_beq k j same),
      cc (sym found ∙ (lookup-insert k j v m ∙ ap (λ b. if b then some v else lookup j m) same)),
    )
    | inr other ↦ inr (
      (λ q. cc (sym other ∙ (e.beq_iff k j).1 (sym q))),
      ap (λ b. if b then some v else lookup j m) (sym other) ∙ sym (lookup-insert k j v m) ∙ found,
    )
  ]

  pub lookup-cons_self : (k : K) (v : V) (m : Map K V) → lookup k ((k, v) ∷ m) ≡ some v
  unfolding lookup
  lookup-cons_self k v m = rw (beq_refl k)

  pub lookup-cons_ne : (k j : K) (v : V) (m : Map K V) → k ≢ j → lookup j ((k, v) ∷ m) ≡ lookup j m
  unfolding lookup
  lookup-cons_ne k j v m h = elim (Bool-cases (k == j)) [
    | inl q ↦ absurd (h (eq_of_beq k j q))
    | inr q ↦ rw q
  ]

  pub lookup-erase_ne : (k j : K) (m : Map K V) → k ≢ j → lookup j (erase k m) ≡ lookup j m
  lookup-erase_ne k j m h = elim (Bool-cases (k == j)) [
    | inl q ↦ absurd (h (eq_of_beq k j q))
    | inr q ↦ rw lookup-erase (rw q)
  ]

  -- A key that is not there goes to the end.
  pub insert_fresh :
      (k : K) (v : V) (m : Map K V) → lookup k m ≡ none → insert k v m ≡ m ++ (k, v) ∷ []
  unfolding lookup insert
  insert_fresh k v [] h = refl
  insert_fresh k v ((i, w) ∷ m) h = elim (Bool-cases (i == k)) [
    | inl q ↦ absurd (ground arith)
    | inr q ↦
        let h' : lookup k m ≡ none = ground arith in
        rw q (ap (λ t. (i, w) ∷ t) (insert_fresh k v m h'))
  ]

  lookup-append_ne :
      (j k : K) (v : V) (m n : Map K V) → lookup j (m ++ (k, v) ∷ n) ≡ none → (k == j) ≡ false
  unfolding lookup
  lookup-append_ne j k v [] n h = ground arith
  lookup-append_ne j k v ((i, w) ∷ m) n h = ground (arith, lookup-append_ne j k v m n)

  -- In a map each key is new to those before it.
  pub Unique-append : (k : K) (v : V) (m n : Map K V) → Unique (m ++ (k, v) ∷ n) → lookup k m ≡ none
  unfolding lookup
  Unique-append k v [] n h = refl
  Unique-append k v ((i, w) ∷ m) n (new, h) =
      ground (
        arith,
        e.beq_iff i k,
        e.beq_iff k i,
        lookup-append_ne i k v m n new,
        Unique-append k v m n h,
      )

  module _ {μ} (P : K × V → Type μ) where
    pub insert-All : (k : K) (v : V) (m : Map K V) → P (k, v) → All P m → All P (insert k v m)
    unfolding insert
    insert-All k v [] p h = (p, tt)
    insert-All k v ((i, w) ∷ m) p (q, h) = elim (Bool-cases (i == k)) [
      | inl same ↦ rw (same, insert) (p, h)
      | inr other ↦ rw (other, insert) (q, insert-All k v m p h)
    ]

    pub All-lookup : (k : K) (v : V) (m : Map K V) → All P m → lookup k m ≡ some v → P (k, v)
    unfolding lookup
    All-lookup k v [] h e = absurd (cc e)
    All-lookup k v ((i, w) ∷ m) (q, h) e = elim (Bool-cases (i == k)) [
      | inl same ↦ subst P (cc (eq_of_beq i k same, e)) q
      | inr other ↦ All-lookup k v m h (sym (ap (λ b. if b then some w else lookup k m) other) ∙ e)
    ]
