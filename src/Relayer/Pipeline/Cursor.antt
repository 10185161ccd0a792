-- ===== src/Relayer/Pipeline/Cursor.antt =====
-- What the steps of a pass keep of the store: what is remembered, and the cursor of the deposits.
use aegis_link.Common.{
  ℕ, ◌≡◌, ◌≢◌, refl, sym, ap, ◌∙◌, inl, inr, true, false, Option, none, some, List, [], ◌∷◌, map,
  All, arith, Bool-cases, Option-cases,
}
use aegis_link.Common.Map.{lookup-insert_ne}
use aegis_link.Text.{Text, text_eq, text_beq, text_beq_iff}
use aegis_link.Bridge.Attestation.{is_seen}
use aegis_link.Relayer.Services.{Failure}
use aegis_link.Relayer.Replay.{
  Store, checkpoint, or_zero, is_processed, mark_processed, save_checkpoint,
}
use aegis_link.Relayer.Replay.Memory.{
  IsGrown, IsGrown-refl, IsGrown-trans, mark_processed-IsGrown, save_checkpoint-IsGrown,
  mark_processed-is_processed,
}
use aegis_link.Relayer.Pipeline.State.{
  Relay, Run, and_then, deposit_checkpoint_key, withdrawal_checkpoint_key,
}

-- A store that remembers all and has the same cursor for deposits.
pub record Extends (s s' : Store) : Type 0 where
  pub grown : IsGrown s s'
  pub same_cursor : checkpoint s' deposit_checkpoint_key ≡ checkpoint s deposit_checkpoint_key

pub Extends-refl : (s : Store) → Extends s s
Extends-refl s = record { grown = IsGrown-refl s; same_cursor = refl }

pub Extends-trans : (s s' s'' : Store) → Extends s s' → Extends s' s'' → Extends s s''
Extends-trans s s' s'' g h = record {
  grown = IsGrown-trans s s' s'' g.grown h.grown;
  same_cursor = h.same_cursor ∙ g.same_cursor;
}

pub mark_processed-Extends :
    (s : Store) (key : Text) (persist : Store → Option Failure)
    → Extends s (mark_processed s key persist).0
unfolding mark_processed checkpoint
mark_processed-Extends s key persist = record {
  grown = mark_processed-IsGrown s key persist;
  same_cursor = ground arith;
}

other_key : withdrawal_checkpoint_key ≢ deposit_checkpoint_key
unfolding text_beq
other_key e = cc (sym ((text_beq_iff withdrawal_checkpoint_key deposit_checkpoint_key).1 e) ∙ apart)
  where
    apart : text_beq withdrawal_checkpoint_key deposit_checkpoint_key ≡ false
    apart = refl

pub save_withdrawal-Extends :
    (s : Store) (value : ℕ) (persist : Store → Option Failure)
    → Extends s (save_checkpoint s withdrawal_checkpoint_key value persist).0
unfolding save_checkpoint checkpoint
save_withdrawal-Extends s value persist = record {
  grown = save_checkpoint-IsGrown s withdrawal_checkpoint_key value persist;
  same_cursor = elim (Option-cases s.load_error) [
    | inr (e, broken) ↦ rw (broken, save_checkpoint) refl
    | inl loaded ↦
        rw (loaded, save_checkpoint)
          (ap or_zero (
            lookup-insert_ne withdrawal_checkpoint_key deposit_checkpoint_key value s.checkpoints
              other_key))
  ];
}

pub mark_processed-none :
    (s : Store) (key : Text) (persist : Store → Option Failure)
    → (mark_processed s key persist).1 ≡ none
    → is_processed (mark_processed s key persist).0 key ≡ true
unfolding mark_processed
mark_processed-none s key persist done = elim (Option-cases s.load_error) [
  | inr (e, broken) ↦ absurd (ground arith)
  | inl loaded ↦ mark_processed-is_processed s key persist loaded
]

pub and_then-none :
    {W : Type 0} (run : Run W) (next : Relay W → Run W)
    → (and_then run next).1 ≡ none
    → (run.1 ≡ none) × (and_then run next ≡ next run.0)
and_then-none (r, some f) next e = absurd (cc e)
and_then-none (r, none) next e = (refl, refl)

-- A key that stands among the keys of a list has what they all have.
pub seen-All :
    {A : Type 0} (P : Text → Type 0) (key_of : A → Text) (xs : List A) (key : Text)
    → All (λ x. P (key_of x)) xs
    → is_seen key (map key_of xs) ≡ true
    → P key
unfolding is_seen
seen-All P key_of [] key h seen = absurd (cc seen)
seen-All P key_of (x ∷ xs) key (p, h) seen = elim (Bool-cases (text_beq (key_of x) key)) [
  | inl same ↦ rw ((text_beq_iff (key_of x) key).0 same) at p
  | inr other ↦ seen-All P key_of xs key h (ground arith)
]
