-- ===== src/Registry/Stable.antt =====
-- What no operation of the registry but an import takes away.
use aegis_link.Common.{◌≡◌, sym, ap, ◌∙◌, Bool, some, Bool-cases, inl, inr, Option-cases}
use aegis_link.Common.Map.{Map, lookup, insert, lookup-insert_self, lookup-insert_ne}
use aegis_link.Text.{Text, text_eq, trim_space, text_beq, text_beq_iff}
use aegis_link.Registry.{Asset, Keeper, register_asset, set_asset_enabled, stored_asset}
use aegis_link.Registry.Denoms.{register-cases}

-- Each asset stays under its id with all its fields but the switch `enabled`.
abbrev pub Keeps : Map Text Asset → Map Text Asset → Type 0
Keeps m m' =
    (i : Text) (a : Asset)
    → lookup i m ≡ some a
    → (b : Bool) × (lookup i m' ≡ some (record a { enabled = b }))

Keeps-refl : (m : Map Text Asset) → Keeps m m
Keeps-refl m i a found = (a.enabled, found)

pub register-Keeps : (k : Keeper) (x : Asset) → Keeps k.assets (register_asset k x).0.assets
register-Keeps k x i a found = elim (register-cases k x) [
  | inr (failed, same) ↦ rw same (a.enabled, found)
  | inl (done, r) ↦ (
    a.enabled,
    ap (lookup i) r.stored
        ∙ lookup-insert_ne (trim_space (stored_asset x).asset_id) i _ k.assets
            (λ e. cc (sym r.fresh ∙ ap (λ j. lookup j k.assets) e ∙ found))
        ∙ found,
  )
]

pub set_asset_enabled-Keeps :
    (k : Keeper) (id : Text) (b : Bool) → Keeps k.assets (set_asset_enabled k id b).0.assets
unfolding set_asset_enabled
set_asset_enabled-Keeps k id b i a found = elim (Option-cases (lookup (trim_space id) k.assets)) [
  | inl missing ↦ rw (missing, set_asset_enabled) (a.enabled, found)
  | inr (old, there) ↦
      rw (there, set_asset_enabled)
        (elim (Bool-cases (text_beq (trim_space id) i)) [
          | inl own ↦
              let e : trim_space id ≡ i = (text_beq_iff (trim_space id) i).0 own in
              let same : old ≡ a = cc (sym there ∙ ap (λ j. lookup j k.assets) e ∙ found) in
              (
                b,
                ap (λ j. lookup j (insert (trim_space id) (record old { enabled = b }) k.assets))
                      (sym e)
                    ∙ lookup-insert_self (trim_space id) _ k.assets
                    ∙ ap (λ (x : Asset). some (record x { enabled = b })) same,
              )
          | inr other ↦ (
            a.enabled,
            lookup-insert_ne (trim_space id) i _ k.assets
                  (λ e. cc (sym other ∙ (text_beq_iff (trim_space id) i).1 e))
                ∙ found,
          )
        ])
]
