-- ===== src/Router/Operations.antt =====
-- Each operation of the IBC router is faithful to the transfers that there are.
use aegis_link.Common.{
  ℕ, ◌+◌, ◌%◌, ◌^◌, ◌<◌, ◌≡◌, refl, sym, ap, ◌∙◌, true, Option, some, arith, inl, inr, Bool-cases,
  Option-cases, nat_beq, [],
}
use mathlib.Core.Path.{subst}
use aegis_link.Common.Int.{ℤ}
use aegis_link.Common.Map.{lookup, insert}
use aegis_link.Text.{Text, text_eq, trim_space, is_blank}
use aegis_link.Errors.{ok, Result-cases}
use aegis_link.Limits.{not_positive}
use aegis_link.Router.Profile
use aegis_link.Router.Profile.{RouteProfile, asset_route, allows_action, allows_memo}
use aegis_link.Router.State.{
  Route, TransferStatus, pending, completed, ack_failed, timed_out, refunded, other_status,
  TransferRecord, Keeper, route_validate_basic, TransportStage,
}
use aegis_link.Router.Transfers.{
  is_pending, is_recoverable, new_transfer, start_transfer, initiate_transfer,
  initiate_transfer_with_profile, get_route, get_route_profile, pending_transfer,
  acknowledge_success, acknowledge_failure, timeout_transfer, mark_refunded, move_session,
  set_route, set_route_profile,
}
use aegis_link.Router.Lifecycle.{
  Becomes, completes, fails, times_out, refunds_failed, refunds_timed_out, Follows, Numbered,
  IsFaithful, unchanged, update-Numbered, update-Tracks, start-Tracks, start-Numbered,
}

pending_of : (s : TransferStatus) → is_pending s ≡ true → s ≡ pending
pending_of pending h = refl
pending_of completed h = absurd (cc h)
pending_of ack_failed h = absurd (cc h)
pending_of timed_out h = absurd (cc h)
pending_of refunded h = absurd (cc h)
pending_of (other_status t) h = absurd (cc h)

refund_of : (s : TransferStatus) → is_recoverable s ≡ true → Becomes s refunded
refund_of pending h = absurd (cc h)
refund_of completed h = absurd (cc h)
refund_of ack_failed h = refunds_failed
refund_of timed_out h = refunds_timed_out
refund_of refunded h = absurd (cc h)
refund_of (other_status t) h = absurd (cc h)

pending_transfer-ok :
    (k : Keeper) (id : Text) (r : TransferRecord)
    → pending_transfer k id ≡ ok r
    → (lookup (trim_space id) k.transfers ≡ some r) × (r.status ≡ pending)
unfolding pending_transfer
pending_transfer-ok k id r e = elim (Option-cases (lookup (trim_space id) k.transfers)) [
  | inl missing ↦ absurd (ground arith)
  | inr (old, found) ↦ elim (Bool-cases (is_pending old.status)) [
    | inr closed ↦ absurd (ground arith)
    | inl opened ↦
        let same : old ≡ r = ground arith in
        (
          found ∙ ap (λ x. some x) same,
          ap (λ (x : TransferRecord). x.status) (sym same) ∙ pending_of old.status opened,
        )
  ]
]

module _ (k : Keeper) (h : Numbered k) where
  -- A pending transfer gets a status.
  close-IsFaithful :
      (id : Text) (r : TransferRecord) (s : TransferStatus) (reason : Text) (k' : Keeper)
      → pending_transfer k id ≡ ok r
      → Becomes pending s
      → k'.transfers
        ≡ insert r.transfer_id (record r { status = s; failure_reason = reason }) k.transfers
      → k'.next_sequence ≡ k.next_sequence
      → IsFaithful k k'
  close-IsFaithful id r s reason k' opened b stored same =
      let (found, is) = pending_transfer-ok k id r opened in
      let r' = record r { status = s; failure_reason = reason } in
      let f : Follows r r' = record {
        reason = reason;
        same = refl;
        becomes = subst (λ x. Becomes x s) (sym is) b;
      } in
      record {
        numbered = rw (stored, same) (update-Numbered k h (trim_space id) r r' found f refl);
        tracks = rw stored (update-Tracks k h (trim_space id) r r' found f refl);
      }

  pub acknowledge_success-IsFaithful : (id : Text) → IsFaithful k (acknowledge_success k id).0
  unfolding acknowledge_success
  acknowledge_success-IsFaithful id = elim (Result-cases (pending_transfer k id)) [
    | inr (e, stopped) ↦ rw (stopped, acknowledge_success) (unchanged k k h refl refl)
    | inl (r, opened) ↦
        rw (opened, acknowledge_success)
          (close-IsFaithful id r completed [] _ opened completes refl refl)
  ]

  pub acknowledge_failure-IsFaithful :
      (id reason : Text) → IsFaithful k (acknowledge_failure k id reason).0
  unfolding acknowledge_failure
  acknowledge_failure-IsFaithful id reason = elim (Result-cases (pending_transfer k id)) [
    | inr (e, stopped) ↦ rw (stopped, acknowledge_failure) (unchanged k k h refl refl)
    | inl (r, opened) ↦
        rw (opened, acknowledge_failure)
          (close-IsFaithful id r ack_failed (trim_space reason) _ opened fails refl refl)
  ]

  pub timeout_transfer-IsFaithful : (id : Text) → IsFaithful k (timeout_transfer k id).0
  unfolding timeout_transfer
  timeout_transfer-IsFaithful id = elim (Result-cases (pending_transfer k id)) [
    | inr (e, stopped) ↦ rw (stopped, timeout_transfer) (unchanged k k h refl refl)
    | inl (r, opened) ↦
        rw (opened, timeout_transfer)
          (close-IsFaithful id r timed_out r.failure_reason _ opened times_out refl refl)
  ]

  pub mark_refunded-IsFaithful : (id : Text) → IsFaithful k (mark_refunded k id).0
  unfolding mark_refunded
  mark_refunded-IsFaithful id = elim (Option-cases (lookup (trim_space id) k.transfers)) [
    | inl missing ↦ rw (missing, mark_refunded) (unchanged k k h refl refl)
    | inr (r, found) ↦
        rw (found, mark_refunded)
          (elim (Bool-cases (is_recoverable r.status)) [
            | inr closed ↦ rw (closed, mark_refunded) (unchanged k k h refl refl)
            | inl failed ↦
                let r' = record r { status = refunded } in
                let f : Follows r r' = record {
                  reason = r.failure_reason;
                  same = refl;
                  becomes = refund_of r.status failed;
                } in
                rw (failed, mark_refunded)
                  (record {
                    numbered = update-Numbered k h (trim_space id) r r' found f refl;
                    tracks = update-Tracks k h (trim_space id) r r' found f refl;
                  })
          ])
  ]

  pub move_session-IsFaithful :
      (id : Text) (stage : TransportStage) → IsFaithful k (move_session k id stage).0
  unfolding move_session
  move_session-IsFaithful id stage = elim (Option-cases (lookup (trim_space id) k.transfers)) [
    | inl missing ↦ rw (missing, move_session) (unchanged k k h refl refl)
    | inr (r, found) ↦ rw (found, move_session) (unchanged k _ h refl refl)
  ]

  pub set_route-IsFaithful : (route : Route) → IsFaithful k (set_route k route).0
  unfolding set_route
  set_route-IsFaithful route = elim (Option-cases (route_validate_basic route)) [
    | inr (e, refused) ↦ rw (refused, set_route) (unchanged k k h refl refl)
    | inl fine ↦ rw (fine, set_route) (unchanged k _ h refl refl)
  ]

  pub set_route_profile-IsFaithful :
      (profile : RouteProfile) → IsFaithful k (set_route_profile k profile).0
  unfolding set_route_profile
  set_route_profile-IsFaithful profile = elim (Option-cases (Profile.validate_basic profile)) [
    | inr (e, refused) ↦ rw (refused, set_route_profile) (unchanged k k h refl refl)
    | inl fine ↦ rw (fine, set_route_profile) (unchanged k _ h refl refl)
  ]

module _ (k : Keeper) (h : Numbered k) (left : k.next_sequence + 1 < 2 ^ 64) where
  start_transfer-IsFaithful :
      (asset_id : Text) (amount : Option ℤ) (receiver : Text) (timeout : ℕ)
      (memo chain_id channel_id denom : Text)
      → IsFaithful k
          (start_transfer k asset_id amount receiver timeout memo chain_id channel_id denom).0
  unfolding start_transfer
  start_transfer-IsFaithful asset_id amount receiver timeout memo chain_id channel_id denom =
      elim (Bool-cases (not_positive amount)) [
        | inl bad ↦ rw (bad, start_transfer) (unchanged k k h refl refl)
        | inr fine ↦
            rw (fine, start_transfer)
              (elim (Bool-cases (is_blank receiver)) [
                | inl bad ↦ rw (bad, start_transfer) (unchanged k k h refl refl)
                | inr named ↦
                    rw (named, start_transfer)
                      (elim (Bool-cases (nat_beq timeout 0)) [
                        | inl bad ↦ rw (bad, start_transfer) (unchanged k k h refl refl)
                        | inr timed ↦
                            let r =
                              new_transfer asset_id amount receiver timeout memo chain_id channel_id
                                denom k.next_sequence in
                            let next : (k.next_sequence + 1) % 2 ^ 64 ≡ k.next_sequence + 1 =
                              omega arith in
                            rw (timed, start_transfer)
                              (record {
                                numbered = rw next (start-Numbered k h asset_id r refl);
                                tracks = start-Tracks k h asset_id r refl;
                              })
                      ])
              ])
      ]

  pub initiate_transfer-IsFaithful :
      (asset_id : Text) (amount : Option ℤ) (receiver : Text) (timeout : ℕ) (memo : Text)
      → IsFaithful k (initiate_transfer k asset_id amount receiver timeout memo).0
  unfolding initiate_transfer
  initiate_transfer-IsFaithful asset_id amount receiver timeout memo =
      elim (Option-cases (get_route k asset_id)) [
        | inl missing ↦ rw (missing, initiate_transfer) (unchanged k k h refl refl)
        | inr (route, found) ↦
            rw (found, initiate_transfer)
              (elim (Bool-cases route.enabled) [
                | inr off ↦ rw (off, initiate_transfer) (unchanged k k h refl refl)
                | inl on ↦
                    rw (on, initiate_transfer)
                      (start_transfer-IsFaithful asset_id amount receiver timeout memo
                        route.destination_chain_id route.channel_id route.destination_denom)
              ])
      ]

  pub initiate_transfer_with_profile-IsFaithful :
      (route_id asset_id : Text) (amount : Option ℤ) (receiver : Text) (timeout : ℕ) (memo : Text)
      → IsFaithful k
          (initiate_transfer_with_profile k route_id asset_id amount receiver timeout memo).0
  unfolding initiate_transfer_with_profile
  initiate_transfer_with_profile-IsFaithful route_id asset_id amount receiver timeout memo =
      elim (Option-cases (get_route_profile k route_id)) [
        | inl missing ↦ rw (missing, initiate_transfer_with_profile) (unchanged k k h refl refl)
        | inr (profile, found) ↦
            rw (found, initiate_transfer_with_profile)
              (elim (Bool-cases profile.enabled) [
                | inr off ↦ rw (off, initiate_transfer_with_profile) (unchanged k k h refl refl)
                | inl on ↦ elim (Option-cases (asset_route profile asset_id)) [
                  | inl unlisted ↦
                      rw (unlisted, on, initiate_transfer_with_profile) (unchanged k k h refl refl)
                  | inr (asset, listed) ↦ elim (Bool-cases (allows_action profile.policy memo)) [
                    | inr barred ↦
                        rw (listed, barred, on, initiate_transfer_with_profile)
                          (unchanged k k h refl refl)
                    | inl allowed ↦ elim (Bool-cases (allows_memo profile.policy memo)) [
                      | inr barred ↦
                          rw (listed, allowed, barred, on, initiate_transfer_with_profile)
                            (unchanged k k h refl refl)
                      | inl fits ↦
                          rw (listed, allowed, fits, on, initiate_transfer_with_profile)
                            (start_transfer-IsFaithful asset_id amount receiver timeout memo
                              profile.destination_chain_id profile.channel_id
                              asset.destination_denom)
                    ]
                  ]
                ]
              ])
      ]
