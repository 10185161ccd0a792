-- ===== src/Router/Lifecycle.antt =====
-- What becomes of the transfers of the IBC router.
use aegis_link.Common.{
  ℕ, ◌+◌, ◌<◌, ◌≡◌, refl, sym, ap, ◌∙◌, none, some, arith, inl, inr, Bool-cases, Option-cases,
}
use mathlib.Core.Path.{subst}
use aegis_link.Common.Map.{Map, lookup, insert, lookup-insert_self, lookup-insert_ne, insert-cases}
use aegis_link.Text.{Text, text_eq, text_beq, text_beq_iff}
use aegis_link.Router.State.{
  TransferStatus, pending, completed, ack_failed, timed_out, refunded, TransferRecord, Keeper,
  transfer_id_of,
}
use aegis_link.Router.Sequence.{transfer_id_of-inj}

-- What a status can become: an open transfer ends in one of three ways, and a failed one is
-- refunded.
pub data Becomes : TransferStatus → TransferStatus → Type 0 where
  stays : (s : TransferStatus) → Becomes s s
  completes : Becomes pending completed
  fails : Becomes pending ack_failed
  times_out : Becomes pending timed_out
  refunds_failed : Becomes ack_failed refunded
  refunds_timed_out : Becomes timed_out refunded

-- The same transfer, in a status that its status can become.
pub record Follows (r r' : TransferRecord) : Type 0 where
  pub reason : Text
  pub same : r' ≡ record r { status = r'.status; failure_reason = reason }
  pub becomes : Becomes r.status r'.status

-- Every transfer is still there, under its id.
abbrev pub Tracks : Map Text TransferRecord → Map Text TransferRecord → Type 0
Tracks m m' =
    (id : Text) (r : TransferRecord)
    → lookup id m ≡ some r
    → (r' : TransferRecord) × (lookup id m' ≡ some r') × Follows r r'

-- Each transfer stands under its id, which was made of an asset and of a sequence number that has
-- been used.
pub record IsNumbered (next : ℕ) (id : Text) (r : TransferRecord) : Type 0 where
  pub own : r.transfer_id ≡ id
  pub asset : Text
  pub sequence : ℕ
  pub named : id ≡ transfer_id_of asset sequence
  pub used : sequence < next

abbrev pub Numbered : Keeper → Type 0
Numbered k =
    (id : Text) (r : TransferRecord)
    → lookup id k.transfers ≡ some r
    → IsNumbered k.next_sequence id r

Follows-refl : (r : TransferRecord) → Follows r r
Follows-refl r = record { reason = r.failure_reason; same = refl; becomes = stays r.status }

-- What an operation does to the transfers, if sequence numbers have not run out.
pub record IsFaithful (k k' : Keeper) : Type 0 where
  pub numbered : Numbered k'
  pub tracks : Tracks k.transfers k'.transfers

pub unchanged :
    (k k' : Keeper)
    → Numbered k
    → k'.transfers ≡ k.transfers
    → k'.next_sequence ≡ k.next_sequence
    → IsFaithful k k'
unchanged k k' h e n = record {
  numbered = rw (e, n) h;
  tracks = λ id r found. (r, ap (lookup id) e ∙ found, Follows-refl r);
}

-- A transfer gets a new status.
module _ (k : Keeper) (h : Numbered k) (id : Text) (r r' : TransferRecord)
    (found : lookup id k.transfers ≡ some r) (f : Follows r r')
    (own : r'.transfer_id ≡ r.transfer_id) where
  pub update-Numbered :
      (j : Text) (x : TransferRecord)
      → lookup j (insert r.transfer_id r' k.transfers) ≡ some x
      → IsNumbered k.next_sequence j x
  update-Numbered j x there = elim (insert-cases r.transfer_id r' k.transfers j x there) [
    | inr (ne, old) ↦ h j x old
    | inl (here, new) ↦
        let n = h id r found in
        record {
          own = ap (λ (y : TransferRecord). y.transfer_id) new ∙ own ∙ sym here;
          asset = n.asset;
          sequence = n.sequence;
          named = here ∙ n.own ∙ n.named;
          used = n.used;
        }
  ]

  pub update-Tracks : Tracks k.transfers (insert r.transfer_id r' k.transfers)
  update-Tracks j x there = elim (Bool-cases (text_beq r.transfer_id j)) [
    | inl q ↦
        let here : r.transfer_id ≡ j = (text_beq_iff r.transfer_id j).0 q in
        let same : x ≡ r =
          cc (sym there ∙ ap (λ i. lookup i k.transfers) (sym here ∙ (h id r found).own) ∙ found) in
        (
          r',
          ap (λ i. lookup i (insert r.transfer_id r' k.transfers)) (sym here)
              ∙ lookup-insert_self r.transfer_id r' k.transfers,
          subst (λ y. Follows y r') (sym same) f,
        )
    | inr q ↦ (
      x,
      lookup-insert_ne r.transfer_id j r' k.transfers
            (λ e. cc (sym q ∙ (text_beq_iff r.transfer_id j).1 e))
          ∙ there,
      Follows-refl x,
    )
  ]

-- A new transfer gets an id that no transfer has.
module _ (k : Keeper) (h : Numbered k) (asset : Text) (r : TransferRecord)
    (own : r.transfer_id ≡ transfer_id_of asset k.next_sequence) where
  fresh : lookup r.transfer_id k.transfers ≡ none
  fresh = elim (Option-cases (lookup r.transfer_id k.transfers)) [
    | inl free ↦ free
    | inr (old, there) ↦
        let n = h r.transfer_id old there in
        let same : n.sequence ≡ k.next_sequence =
          transfer_id_of-inj n.asset asset n.sequence k.next_sequence (sym n.named ∙ own) in
        let used = n.used in absurd (omega arith)
  ]

  pub start-Tracks : Tracks k.transfers (insert r.transfer_id r k.transfers)
  start-Tracks j x there = (
    x,
    lookup-insert_ne r.transfer_id j r k.transfers
          (λ e. cc (sym fresh ∙ ap (λ i. lookup i k.transfers) e ∙ there))
        ∙ there,
    Follows-refl x,
  )

  pub start-Numbered :
      (j : Text) (x : TransferRecord)
      → lookup j (insert r.transfer_id r k.transfers) ≡ some x
      → IsNumbered (k.next_sequence + 1) j x
  start-Numbered j x there = elim (insert-cases r.transfer_id r k.transfers j x there) [
    | inr (ne, old) ↦
        let n = h j x old in
        let used = n.used in
        record {
          own = n.own;
          asset = n.asset;
          sequence = n.sequence;
          named = n.named;
          used = omega arith;
        }
    | inl (here, new) ↦ record {
      own = ap (λ (y : TransferRecord). y.transfer_id) new ∙ sym here;
      asset = asset;
      sequence = k.next_sequence;
      named = here ∙ own;
      used = omega arith;
    }
  ]
