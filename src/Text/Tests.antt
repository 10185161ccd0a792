-- ===== src/Text/Tests.antt =====
-- Runs of the string functions at literals.
use aegis_link.Common.{◌≡◌, refl, [], ◌∷◌, true, some}
use aegis_link.Text.{
  lit, trim_space, to_lower, equal_fold, cut_before, cut_after, has_prefix, text_beq,
}

trims_ascii : trim_space (lit "  eth.usdc \n") ≡ lit "eth.usdc"
unfolding trim_space
trims_ascii = refl

-- U+3000 in front and U+00A0 behind, with a stray continuation byte that stays.
trims_wide :
    trim_space (0xe3 ∷ 0x80 ∷ 0x80 ∷ 0x20 ∷ 0x80 ∷ 0x41 ∷ 0xc2 ∷ 0xa0 ∷ []) ≡ 0x80 ∷ 0x41 ∷ []
unfolding trim_space
trims_wide = refl

lowers : to_lower (lit "0xABCdef") ≡ lit "0xabcdef"
unfolding to_lower
lowers = refl

folds : equal_fold (lit "UETH") (lit "ueth") ≡ true
unfolding equal_fold text_beq
folds = refl

cuts : cut_before 0x2e (lit "eth.usdc.x") ≡ lit "eth"
unfolding cut_before
cuts = refl

cuts_after : cut_after 0x2e (lit "eth.usdc.x") ≡ some (lit "usdc.x")
unfolding cut_after
cuts_after = refl

prefixes : has_prefix (lit "swap:uosmo") (lit "swap:") ≡ true
unfolding has_prefix
prefixes = refl
