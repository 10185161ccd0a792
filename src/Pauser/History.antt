-- ===== src/Pauser/History.antt =====
-- A flow is paused exactly if the last of its calls says so.
use aegis_link.Common.{
  ◌≡◌, ◌≢◌, refl, ◌∙◌, ap, Bool, true, false, none, some, List, [], ◌∷◌, if◌then◌else◌, arith,
}
use aegis_link.Common.Map.{lookup-insert, lookup-erase}
use aegis_link.Text.{Text, text_eq, trim_space, text_beq, text_beq_iff}
use aegis_link.Errors.{flow_paused}
use aegis_link.Pauser.{Keeper, pause, unpause, is_paused, assert_not_paused}

pub data Call : Type 0 where
  call_pause call_unpause : Text → Call

unfoldable pub apply : Keeper → Call → Keeper
apply k (call_pause f) = (pause k f).0
apply k (call_unpause f) = (unpause k f).0

unfoldable pub run : Keeper → List Call → Keeper
unfolding apply
run k [] = k
run k (c ∷ cs) = run (apply k c) cs

abbrev flow_of : Call → Text
flow_of (call_pause f) = f
flow_of (call_unpause f) = f

abbrev pauses : Call → Bool
pauses (call_pause f) = true
pauses (call_unpause f) = false

-- What the calls say of a flow, given what held before: its last pause or unpause counts.
abbrev pub last_word : Text → Bool → List Call → Bool
last_word f before [] = before
last_word f before (c ∷ cs) =
    last_word f (if text_beq (trim_space (flow_of c)) (trim_space f) then pauses c else before) cs

is_paused-apply :
    (k : Keeper) (c : Call) (f : Text)
    → trim_space f ≢ []
    → is_paused (apply k c) f
      ≡ (if text_beq (trim_space (flow_of c)) (trim_space f) then pauses c else is_paused k f)
unfolding apply pause unpause is_paused
is_paused-apply k (call_pause g) f named = ground (
  arith,
  text_beq_iff (trim_space f) [],
  text_beq_iff (trim_space g) [],
  text_beq_iff (trim_space g) (trim_space f),
  lookup-insert (trim_space g) (trim_space f) true k.paused,
)
is_paused-apply k (call_unpause g) f named = ground (
  arith,
  text_beq_iff (trim_space f) [],
  text_beq_iff (trim_space g) [],
  text_beq_iff (trim_space g) (trim_space f),
  lookup-erase (trim_space g) (trim_space f) k.paused,
)

is_paused-run :
    (k : Keeper) (cs : List Call) (f : Text)
    → trim_space f ≢ []
    → is_paused (run k cs) f ≡ last_word f (is_paused k f) cs
unfolding run
is_paused-run k [] f named = refl
is_paused-run k (c ∷ cs) f named =
    is_paused-run (apply k c) cs f named ∙ ap (λ b. last_word f b cs) (is_paused-apply k c f named)

-- After any calls of `Pause` and `Unpause`, `AssertNotPaused` fails for a flow with a name exactly
-- as the last of them that was for that flow says (up to white space around the names), or as it
-- did before if there was none.
pub assert_not_paused-run :
    (k : Keeper) (cs : List Call) (f : Text)
    → trim_space f ≢ []
    → assert_not_paused (run k cs) f
      ≡ (if last_word f (is_paused k f) cs then some flow_paused else none)
unfolding assert_not_paused
assert_not_paused-run k cs f named =
    ap (λ b. if b then some flow_paused else none) (is_paused-run k cs f named)
