-- ===== src/Relayer/Replay/Memory.antt =====
-- What the store of relayer/internal/replay/store.go remembers through its writes.
use aegis_link.Common.{
  ◌≡◌, refl, ap, ◌∙◌, inl, inr, true, false, Option, none, List, [], ◌∷◌, ◌++◌, All, arith,
  Option-cases, ℕ, All-append, All-imp,
}
use aegis_link.Text.{Text, text_beq_iff}
use aegis_link.Bridge.Attestation.{is_seen}
use aegis_link.Bridge.Verify.Quorum.{Distinct}
use aegis_link.Governance.History.{Distinct-append}
use aegis_link.Relayer.Services.{Failure}
use aegis_link.Relayer.Replay.{Store, is_processed, mark_processed, save_checkpoint}

-- Keys of a list that differ, all remembered by the store.
pub record IsRemembered (store : Store) (keys : List Text) : Type 0 where
  pub distinct : Distinct keys
  pub remembered : All (λ key. is_processed store key ≡ true) keys

-- A key that the store does not remember is not among those that it does.
pub not_remembered :
    (store : Store) (key : Text) (keys : List Text)
    → All (λ k. is_processed store k ≡ true) keys
    → is_processed store key ≡ false
    → is_seen key keys ≡ false
unfolding is_seen
not_remembered store key [] h new = refl
not_remembered store key (k ∷ keys) (p, h) new =
    ground (arith, text_beq_iff k key, ap (is_processed store), not_remembered store key keys h new)

-- What a write of the store keeps.
pub record IsGrown (s s' : Store) : Type 0 where
  pub same_load : s'.load_error ≡ s.load_error
  pub grows : (key : Text) → is_processed s key ≡ true → is_processed s' key ≡ true

pub IsGrown-refl : (s : Store) → IsGrown s s
IsGrown-refl s = record { same_load = refl; grows = λ key h. h }

pub IsGrown-trans : (s s' s'' : Store) → IsGrown s s' → IsGrown s' s'' → IsGrown s s''
IsGrown-trans s s' s'' g h = record {
  same_load = h.same_load ∙ g.same_load;
  grows = λ key p. h.grows key (g.grows key p);
}

pub mark_processed-IsGrown :
    (s : Store) (key : Text) (persist : Store → Option Failure)
    → IsGrown s (mark_processed s key persist).0
unfolding mark_processed is_processed is_seen
mark_processed-IsGrown s key persist = elim (Option-cases s.load_error) [
  | inr (e, broken) ↦ rw (broken, mark_processed) (record { same_load = broken; grows = λ k h. h })
  | inl loaded ↦
      rw (loaded, mark_processed) (record { same_load = loaded; grows = λ k h. ground arith })
]

pub save_checkpoint-IsGrown :
    (s : Store) (key : Text) (value : ℕ) (persist : Store → Option Failure)
    → IsGrown s (save_checkpoint s key value persist).0
unfolding save_checkpoint is_processed
save_checkpoint-IsGrown s key value persist = elim (Option-cases s.load_error) [
  | inr (e, broken) ↦ rw (broken, save_checkpoint) (record { same_load = broken; grows = λ k h. h })
  | inl loaded ↦ rw (loaded, save_checkpoint) (record { same_load = loaded; grows = λ k h. h })
]

pub mark_processed-is_processed :
    (s : Store) (key : Text) (persist : Store → Option Failure)
    → s.load_error ≡ none
    → is_processed (mark_processed s key persist).0 key ≡ true
unfolding mark_processed is_processed is_seen
mark_processed-is_processed s key persist loaded = ground (arith, text_beq_iff key key)

pub IsRemembered-IsGrown :
    (s s' : Store) (keys : List Text) → IsGrown s s' → IsRemembered s keys → IsRemembered s' keys
IsRemembered-IsGrown s s' keys g h = record {
  distinct = h.distinct;
  remembered =
      All-imp (λ k. is_processed s k ≡ true) (λ k. is_processed s' k ≡ true) g.grows keys
        h.remembered;
}

-- A new key that the next store remembers is one more.
pub IsRemembered-append :
    (s s' : Store) (keys : List Text) (key : Text)
    → IsGrown s s'
    → IsRemembered s keys
    → is_processed s key ≡ false
    → is_processed s' key ≡ true
    → IsRemembered s' (keys ++ key ∷ [])
IsRemembered-append s s' keys key g h new marked = record {
  distinct = Distinct-append key keys h.distinct (not_remembered s key keys h.remembered new);
  remembered =
      All-append (λ k. is_processed s' k ≡ true) keys (key ∷ [])
        (IsRemembered-IsGrown s s' keys g h).remembered (marked, tt);
}
