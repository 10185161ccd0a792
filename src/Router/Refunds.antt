-- ===== src/Router/Refunds.antt =====
-- The steps of the IBC router, and which transfers can still be refunded.
use aegis_link.Common.{
  ℕ, ◌+◌, ◌^◌, ◌<◌, ◌≡◌, refl, sym, ap, ◌∙◌, Bool, true, false, Option, some, inl, inr, ◌⊎◌,
}
use mathlib.Core.Path.{subst}
use aegis_link.Common.Int.{ℤ}
use aegis_link.Common.Map.{lookup}
use aegis_link.Text.{Text, text_eq, trim_space}
use aegis_link.Errors.{err, transfer_not_recoverable}
use aegis_link.Router.Profile.{RouteProfile}
use aegis_link.Router.State.{
  Route, TransferStatus, completed, refunded, TransferRecord, Keeper, new_keeper, handshake_open,
  packet_relayed,
}
use aegis_link.Router.Transfers.{
  is_recoverable, initiate_transfer, initiate_transfer_with_profile, receive_ibc_ack,
  handle_ibc_timeout, mark_refunded, open_transport_session, mark_packet_relayed, set_route,
  set_route_profile,
}
use aegis_link.Router.Lifecycle.{
  Becomes, stays, completes, fails, times_out, refunds_failed, refunds_timed_out, Numbered,
  IsFaithful,
}
use aegis_link.Router.Operations.{
  acknowledge_success-IsFaithful, acknowledge_failure-IsFaithful, timeout_transfer-IsFaithful,
  mark_refunded-IsFaithful, move_session-IsFaithful, set_route-IsFaithful,
  set_route_profile-IsFaithful, initiate_transfer-IsFaithful,
  initiate_transfer_with_profile-IsFaithful,
}

-- One call of the router, refused or not. The sequence numbers, of 64 bits, have not run out when a
-- transfer starts.
pub data Step : Keeper → Keeper → Type 0 where
  send :
      (k : Keeper) (asset_id : Text) (amount : Option ℤ) (receiver : Text) (timeout : ℕ)
      (memo : Text)
      → k.next_sequence + 1 < 2 ^ 64
      → Step k (initiate_transfer k asset_id amount receiver timeout memo).0
  send_with_profile :
      (k : Keeper) (route_id asset_id : Text) (amount : Option ℤ) (receiver : Text) (timeout : ℕ)
      (memo : Text)
      → k.next_sequence + 1 < 2 ^ 64
      → Step k (initiate_transfer_with_profile k route_id asset_id amount receiver timeout memo).0
  acknowledge :
      (k : Keeper) (id : Text) (success : Bool) (reason : Text)
      → Step k (receive_ibc_ack k id success reason).0
  time_out : (k : Keeper) (id : Text) → Step k (handle_ibc_timeout k id).0
  refund : (k : Keeper) (id : Text) → Step k (mark_refunded k id).0
  open_session : (k : Keeper) (id : Text) → Step k (open_transport_session k id).0
  relay_packet : (k : Keeper) (id : Text) → Step k (mark_packet_relayed k id).0
  change_route : (k : Keeper) (route : Route) → Step k (set_route k route).0
  change_profile : (k : Keeper) (profile : RouteProfile) → Step k (set_route_profile k profile).0

-- Any number of calls.
pub data Steps : Keeper → Keeper → Type 0 where
  done : (k : Keeper) → Steps k k
  step : (k k' k'' : Keeper) → Step k k' → Steps k' k'' → Steps k k''

receive_ibc_ack-IsFaithful :
    (k : Keeper)
    → Numbered k
    → (id : Text) (success : Bool) (reason : Text)
    → IsFaithful k (receive_ibc_ack k id success reason).0
unfolding receive_ibc_ack
receive_ibc_ack-IsFaithful k h id true reason = acknowledge_success-IsFaithful k h id
receive_ibc_ack-IsFaithful k h id false reason = acknowledge_failure-IsFaithful k h id reason

-- A call keeps every transfer under its id, with all that it was sent with, and moves its status at
-- most one step along the life of a transfer; ids stay unique.
pub step-IsFaithful : (k k' : Keeper) → Step k k' → Numbered k → IsFaithful k k'
unfolding handle_ibc_timeout open_transport_session mark_packet_relayed
step-IsFaithful k _ (send _ asset_id amount receiver timeout memo left) h =
    initiate_transfer-IsFaithful k h left asset_id amount receiver timeout memo
step-IsFaithful k _ (send_with_profile _ route_id asset_id amount receiver timeout memo left) h =
    initiate_transfer_with_profile-IsFaithful k h left route_id asset_id amount receiver timeout
      memo
step-IsFaithful k _ (acknowledge _ id success reason) h =
    receive_ibc_ack-IsFaithful k h id success reason
step-IsFaithful k _ (time_out _ id) h = timeout_transfer-IsFaithful k h id
step-IsFaithful k _ (refund _ id) h = mark_refunded-IsFaithful k h id
step-IsFaithful k _ (open_session _ id) h = move_session-IsFaithful k h id handshake_open
step-IsFaithful k _ (relay_packet _ id) h = move_session-IsFaithful k h id packet_relayed
step-IsFaithful k _ (change_route _ route) h = set_route-IsFaithful k h route
step-IsFaithful k _ (change_profile _ profile) h = set_route_profile-IsFaithful k h profile

-- A transfer that is completed or refunded.
abbrev pub IsFinal : TransferStatus → Type 0
IsFinal s = (s ≡ completed) ⊎ (s ≡ refunded)

final_not_recoverable : (s : TransferStatus) → IsFinal s → is_recoverable s ≡ false
final_not_recoverable s (inl e) = ap is_recoverable e
final_not_recoverable s (inr e) = ap is_recoverable e

final_stays : (s t : TransferStatus) → Becomes s t → IsFinal s → t ≡ s
final_stays s _ (stays _) f = refl
final_stays _ _ completes (inl e) = absurd (cc e)
final_stays _ _ completes (inr e) = absurd (cc e)
final_stays _ _ fails (inl e) = absurd (cc e)
final_stays _ _ fails (inr e) = absurd (cc e)
final_stays _ _ times_out (inl e) = absurd (cc e)
final_stays _ _ times_out (inr e) = absurd (cc e)
final_stays _ _ refunds_failed (inl e) = absurd (cc e)
final_stays _ _ refunds_failed (inr e) = absurd (cc e)
final_stays _ _ refunds_timed_out (inl e) = absurd (cc e)
final_stays _ _ refunds_timed_out (inr e) = absurd (cc e)

-- A record of a transfer with the amount and the receiver of another, and with its status.
pub record IsSettled (k : Keeper) (id : Text) (r : TransferRecord) : Type 0 where
  pub now : TransferRecord
  pub found : lookup id k.transfers ≡ some now
  pub same_status : now.status ≡ r.status
  pub same_amount : now.amount ≡ r.amount
  pub same_receiver : now.receiver ≡ r.receiver

step-IsSettled :
    (k k' : Keeper)
    → Step k k'
    → Numbered k
    → (id : Text) (r : TransferRecord) → IsFinal r.status
    → IsSettled k id r
    → IsSettled k' id r
step-IsSettled k k' one h id r final s =
    let (r', found, f) = (step-IsFaithful k k' one h).tracks id s.now s.found in
    let kept =
      final_stays s.now.status r'.status f.becomes
        (subst (λ x. IsFinal x) (sym s.same_status) final) in
    record {
      now = r';
      found = found;
      same_status = kept ∙ s.same_status;
      same_amount = ap (λ (x : TransferRecord). x.amount) f.same ∙ s.same_amount;
      same_receiver = ap (λ (x : TransferRecord). x.receiver) f.same ∙ s.same_receiver;
    }

Steps-IsSettled :
    (k k' : Keeper)
    → Steps k k'
    → Numbered k
    → (id : Text) (r : TransferRecord) → IsFinal r.status
    → IsSettled k id r
    → IsSettled k' id r
Steps-IsSettled k _ (done _) h id r final s = s
Steps-IsSettled k k' (step _ k₁ _ one more) h id r final s =
    Steps-IsSettled k₁ k' more (step-IsFaithful k k₁ one h).numbered id r final
      (step-IsSettled k k₁ one h id r final s)

refused :
    (k : Keeper) (id : Text) (r : TransferRecord)
    → lookup (trim_space id) k.transfers ≡ some r
    → is_recoverable r.status ≡ false
    → mark_refunded k id ≡ (k, err transfer_not_recoverable)
unfolding mark_refunded
refused k id r found closed = rw (found, mark_refunded) (rw (closed, mark_refunded) refl)

-- A transfer that is completed or refunded stays so, with its amount and its receiver, whatever
-- calls follow, and a refund of it is refused and changes nothing.
pub refund_once :
    (k k' : Keeper) (id : Text) (r : TransferRecord)
    → Numbered k
    → lookup (trim_space id) k.transfers ≡ some r
    → IsFinal r.status
    → Steps k k'
    → IsSettled k' (trim_space id) r × (mark_refunded k' id ≡ (k', err transfer_not_recoverable))
refund_once k k' id r h found final steps =
    let s = Steps-IsSettled k k' steps h (trim_space id) r final (record {
      now = r;
      found = found;
      same_status = refl;
      same_amount = refl;
      same_receiver = refl;
    }) in
    (
      s,
      refused k' id s.now s.found
          (ap is_recoverable s.same_status ∙ final_not_recoverable r.status final),
    )

Steps-Numbered : (k k' : Keeper) → Steps k k' → Numbered k → Numbered k'
Steps-Numbered k _ (done _) h = h
Steps-Numbered k k' (step _ k₁ _ one more) h =
    Steps-Numbered k₁ k' more (step-IsFaithful k k₁ one h).numbered

pub new_keeper-Numbered : Numbered new_keeper
unfolding new_keeper lookup
new_keeper-Numbered id r found = absurd (cc found)

pub reachable-Numbered : (k : Keeper) → Steps new_keeper k → Numbered k
reachable-Numbered k steps = Steps-Numbered new_keeper k steps new_keeper-Numbered
