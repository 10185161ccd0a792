-- ===== src/Bridge/SignerSet/Newest.antt =====
-- Which signer set is active: the loop of `ActiveSignerSet`.
use mathlib.Core.List.{Memᴰ}
use aegis_link.Common.{
  ℕ, ◌≤◌, ◌≡◌, refl, true, false, none, some, [], ◌∷◌, arith, All, Bool-cases, inl, inr, ◌⊎◌, ltb,
}
use aegis_link.Common.Map.{Map}
use aegis_link.Bridge.SignerSet.{SignerSet, is_active, select_active}

-- A set that is not active at a height, or not newer than a version.
abbrev pub IsPassed : ℕ → ℕ → ℕ × SignerSet → Type 0
IsPassed height version (v, s) = (is_active height s ≡ false) ⊎ (s.version ≤ version)

-- An active set of a map, of the highest version among those.
pub record IsNewest (height : ℕ) (sets : Map ℕ SignerSet) (s : SignerSet) : Type 0 where
  pub key : ℕ
  pub listed : Memᴰ (key, s) sets
  pub active : is_active height s ≡ true
  pub newest : All (IsPassed height s.version) sets

-- From a set found before: it stays, or a newer one of the map takes its place.
select_from :
    (height : ℕ) (best : SignerSet) (sets : Map ℕ SignerSet)
    → ((select_active height (some best) sets ≡ some best)
        × All (IsPassed height best.version) sets)
      ⊎ ((s : SignerSet) × (select_active height (some best) sets ≡ some s)
          × (best.version ≤ s.version)
          × IsNewest height sets s)
unfolding select_active
select_from height best [] = inl (refl, tt)
select_from height best ((v, t) ∷ sets) = elim (Bool-cases (is_active height t)) [
  | inr off ↦
      rw (off, select_active)
        (elim (select_from height best sets) [
          | inl (same, passed) ↦ inl (same, (inl refl, passed))
          | inr (s, found, above, n) ↦ inr (
            s,
            found,
            above,
            record {
              key = n.key;
              listed = Memᴰ.tail n.listed;
              active = n.active;
              newest = (inl off, n.newest);
            },
          )
        ])
  | inl on ↦
      rw (on, select_active)
        (elim (Bool-cases (ltb best.version t.version)) [
          | inr old ↦
              rw (old, select_active)
                (elim (select_from height best sets) [
                  | inl (same, passed) ↦ inl (same, (inr (ground arith), passed))
                  | inr (s, found, above, n) ↦ inr (
                    s,
                    found,
                    above,
                    record {
                      key = n.key;
                      listed = Memᴰ.tail n.listed;
                      active = n.active;
                      newest = (inr (ground arith), n.newest);
                    },
                  )
                ])
          | inl new ↦
              rw (new, select_active)
                (elim (select_from height t sets) [
                  | inl (same, passed) ↦ inr (
                    t,
                    same,
                    ground arith,
                    record {
                      key = v;
                      listed = Memᴰ.head refl;
                      active = on;
                      newest = (inr (omega arith), passed);
                    },
                  )
                  | inr (s, found, above, n) ↦ inr (
                    s,
                    found,
                    ground arith,
                    record {
                      key = n.key;
                      listed = Memᴰ.tail n.listed;
                      active = n.active;
                      newest = (inr above, n.newest);
                    },
                  )
                ])
        ])
]

-- The set that is selected is the newest one that is active at the height; none is if no set is
-- active.
pub select_active-IsNewest :
    (height : ℕ) (sets : Map ℕ SignerSet)
    → ((select_active height none sets ≡ none) × All (λ p. is_active height p.1 ≡ false) sets)
      ⊎ ((s : SignerSet) × (select_active height none sets ≡ some s) × IsNewest height sets s)
unfolding select_active
select_active-IsNewest height [] = inl (refl, tt)
select_active-IsNewest height ((v, t) ∷ sets) = elim (Bool-cases (is_active height t)) [
  | inr off ↦
      rw (off, select_active)
        (elim (select_active-IsNewest height sets) [
          | inl (nothing, all) ↦ inl (nothing, (refl, all))
          | inr (s, found, n) ↦ inr (
            s,
            found,
            record {
              key = n.key;
              listed = Memᴰ.tail n.listed;
              active = n.active;
              newest = (inl off, n.newest);
            },
          )
        ])
  | inl on ↦
      rw (on, select_active)
        (elim (select_from height t sets) [
          | inl (same, passed) ↦ inr (
            t,
            same,
            record {
              key = v;
              listed = Memᴰ.head refl;
              active = on;
              newest = (inr (omega arith), passed);
            },
          )
          | inr (s, found, above, n) ↦ inr (
            s,
            found,
            record {
              key = n.key;
              listed = Memᴰ.tail n.listed;
              active = n.active;
              newest = (inr above, n.newest);
            },
          )
        ])
]
