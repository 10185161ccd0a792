-- ===== src/Common/Sorting.antt =====
-- `sort.SliceStable` by a less function: the stable sorted list is one, whatever the algorithm.
use mathlib.Core.Logic.{inl, inr}
use mathlib.Core.Bool.{Bool}
use mathlib.Core.List.{List, [], ◌∷◌}
use aegis_link.Common.Lists.{All}
use aegis_link.Common.Tests.{if◌then◌else◌, Bool-cases}

module _ {ℓ} {A : Type ℓ} where
  unfoldable pub insert_by : (A → A → Bool) → A → List A → List A
  insert_by less x [] = x ∷ []
  insert_by less x (y ∷ ys) = if less y x then y ∷ insert_by less x ys else x ∷ y ∷ ys

  unfoldable pub slice_stable : (A → A → Bool) → List A → List A
  unfolding insert_by
  slice_stable less [] = []
  slice_stable less (x ∷ xs) = insert_by less x (slice_stable less xs)

  module _ {κ} (P : A → Type κ) (less : A → A → Bool) where
    pub All-insert_by : (x : A) (ys : List A) → P x → All P ys → All P (insert_by less x ys)
    unfolding insert_by
    All-insert_by x [] p h = (p, tt)
    All-insert_by x (y ∷ ys) p (q, h) = elim (Bool-cases (less y x)) [
      | inl before ↦ rw before (q, All-insert_by x ys p h)
      | inr after ↦ rw after (p, (q, h))
    ]

    insert_by-All : (x : A) (ys : List A) → All P (insert_by less x ys) → P x × All P ys
    unfolding insert_by
    insert_by-All x [] h = h
    insert_by-All x (y ∷ ys) h = elim (Bool-cases (less y x)) [
      | inl before ↦
          let (q, rest) = rw before at h in let (p, r) = insert_by-All x ys rest in (p, (q, r))
      | inr after ↦ rw after at h
    ]

    -- Sorting keeps what holds of all elements, and adds none.
    pub All-slice_stable : (xs : List A) → All P xs → All P (slice_stable less xs)
    unfolding slice_stable
    All-slice_stable [] h = h
    All-slice_stable (x ∷ xs) (p, h) =
        All-insert_by x (slice_stable less xs) p (All-slice_stable xs h)

    pub slice_stable-All : (xs : List A) → All P (slice_stable less xs) → All P xs
    unfolding slice_stable
    slice_stable-All [] h = h
    slice_stable-All (x ∷ xs) h =
        let (p, rest) = insert_by-All x (slice_stable less xs) h in (p, slice_stable-All xs rest)
