-- ===== src/Registry/Denoms.antt =====
-- The invariant of the registry.
use aegis_link.Common.{
  ◌≡◌, ◌≢◌, refl, sym, ◌∙◌, Bool, false, none, some, List, [], ◌∷◌, arith, inl, inr, Option-cases,
  ◌⊎◌,
}
use aegis_link.Common.Map.{Map, lookup, insert, insert-cases}
use aegis_link.Text.{Text, text_eq, trim_space, text_beq_iff, equal_fold, to_lower}
use aegis_link.Errors.{asset_already_exists}
use aegis_link.Registry.{
  Asset, Keeper, validate_basic, ensure_destination_denom_available, register_asset,
  set_asset_enabled, stored_asset, import_assets, import_from, derive_asset_metadata,
}

-- Each asset stands under its trimmed id, is valid and has one denomination; no two have the same,
-- in any letter case.
pub record IsValid (m : Map Text Asset) : Type 0 where
  pub keyed : (i : Text) (a : Asset) → lookup i m ≡ some a → trim_space a.asset_id ≡ i
  pub valid : (i : Text) (a : Asset) → lookup i m ≡ some a → validate_basic a ≡ none
  pub one_denom : (i : Text) (a : Asset) → lookup i m ≡ some a → a.denom ≡ a.destination_denom
  pub distinct :
      (i j : Text) (a b : Asset)
      → lookup i m ≡ some a
      → lookup j m ≡ some b
      → i ≢ j
      → equal_fold a.destination_denom b.destination_denom ≡ false

available-distinct :
    (m : Map Text Asset) (s : Asset) (key : Text)
    → ensure_destination_denom_available m s key ≡ none
    → (j : Text) (b : Asset) → lookup j m ≡ some b
    → j ≢ key
    → equal_fold b.destination_denom s.destination_denom ≡ false
unfolding ensure_destination_denom_available lookup
available-distinct [] s key free j b found ne = cc
available-distinct ((i, a) ∷ m) s key free j b found ne =
    ground
      (arith, text_beq_iff i key, text_beq_iff i j, available-distinct m s key (ground arith) j b)

equal_fold_comm : (s t : Text) → equal_fold s t ≡ equal_fold t s
unfolding equal_fold
equal_fold_comm s t =
    ground (arith, text_beq_iff (to_lower s) (to_lower t), text_beq_iff (to_lower t) (to_lower s))

module _ (m : Map Text Asset) (s : Asset) (key : Text) (h : IsValid m)
    (own : trim_space s.asset_id ≡ key) (checked : validate_basic s ≡ none)
    (one : s.denom ≡ s.destination_denom)
    (free : (j : Text) (b : Asset)
      → lookup j m ≡ some b
      → j ≢ key
      → equal_fold b.destination_denom s.destination_denom ≡ false) where
  insert-distinct :
      (i j : Text) (a b : Asset)
      → lookup i (insert key s m) ≡ some a
      → lookup j (insert key s m) ≡ some b
      → i ≢ j
      → equal_fold a.destination_denom b.destination_denom ≡ false
  insert-distinct i j a b fi fj ne = elim (insert-cases key s m i a fi) [
    | inl (ei, ea) ↦ elim (insert-cases key s m j b fj) [
      | inl (ej, eb) ↦ absurd (ne (ei ∙ sym ej))
      | inr (nj, oj) ↦
          rw ea (equal_fold_comm s.destination_denom b.destination_denom ∙ free j b oj nj)
    ]
    | inr (ni, oi) ↦ elim (insert-cases key s m j b fj) [
      | inl (ej, eb) ↦ rw eb (free i a oi ni)
      | inr (nj, oj) ↦ h.distinct i j a b oi oj ne
    ]
  ]

  insert-IsValid : IsValid (insert key s m)
  insert-IsValid = record {
    keyed = λ i a f. elim (insert-cases key s m i a f) [
      | inl (ei, ea) ↦ rw (ea, ei) own
      | inr (ni, oi) ↦ h.keyed i a oi
    ];
    valid = λ i a f. elim (insert-cases key s m i a f) [
      | inl (ei, ea) ↦ rw ea checked
      | inr (ni, oi) ↦ h.valid i a oi
    ];
    one_denom = λ i a f. elim (insert-cases key s m i a f) [
      | inl (ei, ea) ↦ rw ea one
      | inr (ni, oi) ↦ h.one_denom i a oi
    ];
    distinct = insert-distinct;
  }

stored_insert-IsValid :
    (m : Map Text Asset) (x : Asset)
    → IsValid m
    → validate_basic (stored_asset x) ≡ none
    → ensure_destination_denom_available m (stored_asset x) (trim_space (stored_asset x).asset_id)
      ≡ none
    → IsValid (insert (trim_space (stored_asset x).asset_id) (stored_asset x) m)
unfolding derive_asset_metadata
stored_insert-IsValid m x h checked free =
    insert-IsValid m (stored_asset x) _ h refl checked refl
      (available-distinct m (stored_asset x) _ free)

-- What a registration that goes through has found.
pub record IsRegistered (k k' : Keeper) (x : Asset) : Type 0 where
  pub checked : validate_basic (stored_asset x) ≡ none
  pub fresh : lookup (trim_space (stored_asset x).asset_id) k.assets ≡ none
  pub free :
      ensure_destination_denom_available k.assets
        (stored_asset x)
        (trim_space (stored_asset x).asset_id)
      ≡ none
  pub stored : k'.assets ≡ insert (trim_space (stored_asset x).asset_id) (stored_asset x) k.assets

-- A registration is refused and changes nothing, or it adds an asset under an id that was free.
pub register-cases :
    (k : Keeper) (x : Asset)
    → let (k', err) = register_asset k x in
      ((err ≡ none) × IsRegistered k k' x) ⊎ ((err ≢ none) × (k' ≡ k))
unfolding register_asset
register-cases k x = elim (Option-cases (validate_basic (stored_asset x))) [
  | inr (e, refused) ↦ rw (refused, register_asset) (inr ((λ (q : some e ≡ none). cc), refl))
  | inl checked ↦
      rw (checked, register_asset)
        (elim (Option-cases (lookup (trim_space (stored_asset x).asset_id) k.assets)) [
          | inr (old, there) ↦
              rw (there, register_asset)
                (inr ((λ (q : some asset_already_exists ≡ none). cc), refl))
          | inl fresh ↦
              rw (fresh, register_asset)
                (elim (Option-cases (
                  ensure_destination_denom_available k.assets (stored_asset x)
                    (trim_space (stored_asset x).asset_id))) [
                      | inr (e, taken) ↦
                          rw (taken, register_asset) (inr ((λ (q : some e ≡ none). cc), refl))
                      | inl free ↦
                          rw (free, register_asset)
                            (inl (
                              refl,
                              record {
                                checked = checked;
                                fresh = fresh;
                                free = free;
                                stored = refl;
                              },
                            ))
                    ])
        ])
]

-- Registering an asset keeps the registry valid, whether or not it is refused.
pub register-IsValid :
    (k : Keeper) (x : Asset) → IsValid k.assets → IsValid (register_asset k x).0.assets
register-IsValid k x h = elim (register-cases k x) [
  | inl (done, r) ↦ rw r.stored (stored_insert-IsValid k.assets x h r.checked r.free)
  | inr (failed, same) ↦ rw same h
]

enabled_irrelevant :
    (a : Asset) (b : Bool) → validate_basic (record a { enabled = b }) ≡ validate_basic a
unfolding validate_basic
enabled_irrelevant a b = refl

-- Enabling or disabling an asset keeps the registry valid.
pub set_asset_enabled-IsValid :
    (k : Keeper) (id : Text) (b : Bool)
    → IsValid k.assets
    → IsValid (set_asset_enabled k id b).0.assets
unfolding set_asset_enabled
set_asset_enabled-IsValid k id b h = elim (Option-cases (lookup (trim_space id) k.assets)) [
  | inl missing ↦ rw (missing, set_asset_enabled) h
  | inr (a, found) ↦
      rw (found, set_asset_enabled)
        (insert-IsValid k.assets (record a { enabled = b }) (trim_space id) h (h.keyed _ a found)
          (enabled_irrelevant a b ∙ h.valid _ a found) (h.one_denom _ a found)
          (λ j c old ne. h.distinct j (trim_space id) c a old found ne))
]

import_from-IsValid :
    (m : Map Text Asset) (xs : List Asset) → IsValid m → IsValid (import_from m xs).0.assets
unfolding import_from
import_from-IsValid m [] h = h
import_from-IsValid m (x ∷ xs) h = elim (Option-cases (validate_basic (stored_asset x))) [
  | inr (e, refused) ↦ rw (refused, import_from) h
  | inl checked ↦
      elim (Option-cases (
        ensure_destination_denom_available m (stored_asset x)
          (trim_space (stored_asset x).asset_id))) [
            | inr (e, taken) ↦ rw (checked, taken, import_from) h
            | inl free ↦
                rw (checked, free, import_from)
                  (import_from-IsValid
                    (insert (trim_space (stored_asset x).asset_id) (stored_asset x) m) xs
                    (stored_insert-IsValid m x h checked free))
          ]
]

-- An import leaves a valid registry, also where it stops at an asset that it refuses.
pub import-IsValid : (k : Keeper) (xs : List Asset) → IsValid (import_assets k xs).0.assets
unfolding import_assets lookup
import-IsValid k xs = import_from-IsValid [] xs (record {
  keyed = λ i a f. absurd (empty i a f);
  valid = λ i a f. absurd (empty i a f);
  one_denom = λ i a f. absurd (empty i a f);
  distinct = λ i j a b f g ne. absurd (empty i a f);
})
  where
    empty : (i : Text) (a : Asset) → lookup {V = Asset} i [] ≡ some a → ⊥
    empty i a f = absurd (ground arith)
