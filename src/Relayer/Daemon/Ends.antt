-- ===== src/Relayer/Daemon/Ends.antt =====
-- The loops of relayer/internal/pipeline/daemon.go and relayer/internal/route/relay.go end if they
-- have a limit.
use mathlib.Core.Path.{subst}
use aegis_link.Common.{
  ℕ, ◌+◌, ◌≤◌, ◌<◌, suc, zero, ◌≡◌, refl, ◌⊎◌, inl, inr, Bool, true, false, Option, none, some,
  List, [], ◌∷◌, ◌++◌, length, length-append, arith, Bool-cases,
}
use aegis_link.Common.Int.{ℤ, pos}
use aegis_link.Relayer.Services.{Failure, is_temporary}
use aegis_link.Relayer.Daemon.{
  LoopConfig, LoopEvent, Passing, Ended, reached, go_on, after_run, loop, run, with_defaults,
}

module _ {S X : Type 0} (passing : Passing S X) (cfg : LoopConfig) (limit : ℕ)
    (limited : cfg.max_consecutive_runs ≡ pos (suc limit)) where
  -- An end after at most as many events, with no error or with one that is not temporary.
  pub record IsEnd (most : ℕ) (result : Option (Ended S X)) : Type 0 where
    pub ended : Ended S X
    pub returns : result ≡ some ended
    pub few : length ended.1 ≤ most
    pub permanent :
        (ended.2 ≡ none) ⊎ ((f : Failure) × (ended.2 ≡ some f) × (is_temporary f ≡ false))

  go_on-IsEnd :
      (iteration : ℕ) (s : S) (delay : ℤ) (events : List (LoopEvent X))
      (next : S → Option (Ended S X)) (most : ℕ)
      → length events ≤ most
      → (iteration < suc limit → (s' : S) → IsEnd most (next s'))
      → IsEnd most (go_on passing cfg iteration s delay events next)
  unfolding go_on
  go_on-IsEnd iteration s delay events next most few more =
      elim (Bool-cases (reached cfg iteration)) [
        | inl over ↦
            rw over (record {
              ended = (s, events, none);
              returns = refl;
              few = few;
              permanent = inl refl;
            })
        | inr not_yet ↦
            let under : iteration < suc limit = ground arith in
            rw (not_yet, go_on)
              (elim (Bool-cases (passing.wait_for_next_run s delay).1) [
                | inl stopped ↦
                    rw (stopped, go_on)
                      (record {
                        ended = ((passing.wait_for_next_run s delay).0, events, none);
                        returns = refl;
                        few = few;
                        permanent = inl refl;
                      })
                | inr waited ↦ rw (waited, go_on) (more under (passing.wait_for_next_run s delay).0)
              ])
      ]

  after_run-IsEnd :
      (iteration failures : ℕ) (events : List (LoopEvent X))
      (next : ℕ → List (LoopEvent X) → S → Option (Ended S X)) (most : ℕ)
      (passed : S × X × Option Failure)
      → length events + 1 ≤ most
      → (iteration < suc limit
          → (failures' : ℕ) (events' : List (LoopEvent X)) (s' : S)
          → length events' ≡ length events + 1
          → IsEnd most (next failures' events' s'))
      → IsEnd most (after_run passing cfg iteration failures events next passed)
  unfolding after_run
  after_run-IsEnd iteration failures events next most (s, summary, none) few more =
      let event : LoopEvent X = record {
        iteration = iteration;
        summary = summary;
        error = none;
        temporary = false;
        consecutive_failures = 0;
      } in
      let longer = length-append events (event ∷ []) in
      go_on-IsEnd iteration s cfg.poll_interval (events ++ event ∷ []) _ most (omega arith)
        (λ under s'. more under 0 (events ++ event ∷ []) s' (omega arith))
  after_run-IsEnd iteration failures events next most (s, summary, some f) few more =
      let event = λ (t : Bool) (n : ℕ).
        events
        ++ (let e : LoopEvent X = record {
          iteration = iteration;
          summary = summary;
          error = some f;
          temporary = t;
          consecutive_failures = n;
        } in
            e)
          ∷ [] in
      let longer : (t : Bool) (n : ℕ) → length (event t n) ≡ length events + 1 =
        λ t n. length-append events _ in
      elim (Bool-cases (passing.is_cancelled s)) [
        | inl stopped ↦
            rw (stopped, after_run)
              (record {
                ended = (s, events, none);
                returns = refl;
                few = omega arith;
                permanent = inl refl;
              })
        | inr going ↦
            rw (going, after_run)
              (elim (Bool-cases (is_temporary f)) [
                | inr permanent ↦
                    rw (permanent, after_run)
                      (record {
                        ended = (s, event false failures, some f);
                        returns = refl;
                        few = omega (arith, longer false failures);
                        permanent = inr (f, refl, permanent);
                      })
                | inl temporary ↦
                    rw (temporary, after_run)
                      (go_on-IsEnd iteration s cfg.failure_backoff (event true (failures + 1)) _
                        most (omega (arith, longer true (failures + 1)))
                        (λ under s'. more under (failures + 1) _ s' (longer true (failures + 1))))
              ])
      ]

  -- With fuel for the passes that are left.
  loop-IsEnd :
      (fuel iteration failures : ℕ) (events : List (LoopEvent X)) (s : S)
      → suc limit < iteration + fuel
      → iteration ≤ suc limit
      → IsEnd (length events + fuel) (loop passing cfg fuel iteration failures events s)
  unfolding loop
  loop-IsEnd zero iteration failures events s enough below = absurd (omega arith)
  loop-IsEnd (suc fuel) iteration failures events s enough below =
      elim (Bool-cases (passing.is_cancelled s)) [
        | inl stopped ↦
            rw (stopped, loop)
              (record {
                ended = (s, events, none);
                returns = refl;
                few = omega arith;
                permanent = inl refl;
              })
        | inr going ↦
            rw (going, loop)
              (after_run-IsEnd iteration failures events
                (λ failures' events' s'. loop passing cfg fuel (iteration + 1) failures' events' s')
                (length events + suc fuel) (passing.run_once s) (omega arith)
                (λ under failures' events' s' longer.
                  let same : length events' + fuel ≡ length events + suc fuel = omega arith in
                  subst (λ n. IsEnd n (loop passing cfg fuel (iteration + 1) failures' events' s'))
                    same
                    (loop-IsEnd fuel (iteration + 1) failures' events' s' (omega arith)
                      (omega arith))))
      ]

-- A loop with a limit of runs that is positive returns, after at most as many passes as the limit;
-- it returns an error only if that error is not temporary.
pub run-IsEnd :
    {S X : Type 0} (passing : Passing S X) (cfg : LoopConfig) (limit : ℕ) (s : S)
    → cfg.max_consecutive_runs ≡ pos (suc limit)
    → (ended : Ended S X) × (run passing cfg (suc limit) s ≡ some ended)
      × (length ended.1 ≤ suc limit)
      × ((ended.2 ≡ none) ⊎ ((f : Failure) × (ended.2 ≡ some f) × (is_temporary f ≡ false)))
unfolding run
run-IsEnd passing cfg limit s limited =
    let e =
      loop-IsEnd passing (with_defaults cfg) limit limited (suc limit) 1 0 [] s (omega arith)
        (omega arith) in
    (e.ended, e.returns, omega (arith, e.few), e.permanent)
