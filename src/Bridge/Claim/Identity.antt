-- ===== src/Bridge/Claim/Identity.antt =====
-- The bytes that a replay key hashes determine what they are made of.
use mathlib.Core.List.{append_assoc}
use aegis_link.Common.{
  append-inj, ℕ, ◌^◌, ◌<◌, ◌+◌, ◌/◌, ◌%◌, ◌≡◌, refl, sym, ap, ◌∙◌, List, [], ◌∷◌, ◌++◌, length,
  arith, All, Bool-cases, inl, inr, if◌then◌else◌, ltb,
}
use aegis_link.Text.{Text, trim_space, text_beq}
use aegis_link.Text.Trim.{trim_space-trim_space}
use aegis_link.Codec.{put_uvarint, put_uint64, max_varint_len64, hex_encode}
use aegis_link.Codec.Uvarint.{put_uvarint-inj}
use aegis_link.Codec.Fixed.{put_uint64-inj}
use aegis_link.Crypto.{Crypto}
use aegis_link.Bridge.Claim.{
  ClaimIdentity, canonical_replay_source_asset_kind, write_canonical_string,
  canonical_identity_bytes, replay_key, source_asset_kind_erc20,
}

-- A canonical text, before what follows it, if its length is that of a Go string.
write_canonical_string-inj :
    (s t : Text) (u v : List ℕ)
    → length (trim_space s) < 2 ^ 64
    → length (trim_space t) < 2 ^ 64
    → write_canonical_string s ++ u ≡ write_canonical_string t ++ v
    → (trim_space s ≡ trim_space t) × (u ≡ v)
unfolding write_canonical_string
write_canonical_string-inj s t u v hs ht e =
    let x = trim_space s in
    let y = trim_space t in
    let e' =
      sym (append_assoc (put_uvarint max_varint_len64 (length x)) x u)
      ∙ e
      ∙ append_assoc (put_uvarint max_varint_len64 (length y)) y v in
    let (n, f) =
      put_uvarint-inj max_varint_len64 (length x) (length y) (x ++ u) (y ++ v) (omega arith)
        (omega arith) e' in
    append-inj x y u v n f

-- The sizes of a Go value: lengths and numbers are 64 bits wide.
pub record IsSized (i : ClaimIdentity) : Type 0 where
  pub kind : length (trim_space i.kind) < 2 ^ 64
  pub asset_kind :
      length (trim_space (canonical_replay_source_asset_kind i.source_asset_kind)) < 2 ^ 64
  pub chain_id : length (trim_space i.source_chain_id) < 2 ^ 64
  pub contract : length (trim_space i.source_contract) < 2 ^ 64
  pub tx_hash : length (trim_space i.source_tx_hash) < 2 ^ 64
  pub log_index : i.source_log_index < 2 ^ 64
  pub nonce : i.nonce < 2 ^ 64

-- Two identities of one event: they agree up to white space and to the spelling of the ERC-20 kind.
pub record IsSameEvent (i j : ClaimIdentity) : Type 0 where
  pub kind : trim_space i.kind ≡ trim_space j.kind
  pub asset_kind :
      canonical_replay_source_asset_kind i.source_asset_kind
      ≡ canonical_replay_source_asset_kind j.source_asset_kind
  pub chain_id : trim_space i.source_chain_id ≡ trim_space j.source_chain_id
  pub contract : trim_space i.source_contract ≡ trim_space j.source_contract
  pub tx_hash : trim_space i.source_tx_hash ≡ trim_space j.source_tx_hash
  pub log_index : i.source_log_index ≡ j.source_log_index
  pub nonce : i.nonce ≡ j.nonce

canonical_kind_trimmed :
    (s : Text)
    → trim_space (canonical_replay_source_asset_kind s) ≡ canonical_replay_source_asset_kind s
unfolding canonical_replay_source_asset_kind
canonical_kind_trimmed s = elim (Bool-cases (text_beq (trim_space s) source_asset_kind_erc20)) [
  | inl q ↦ rw q (unfold trim_space in refl)
  | inr q ↦ rw q (trim_space-trim_space s)
]

-- Two events with the same canonical bytes are one.
pub canonical_identity_bytes-inj :
    (i j : ClaimIdentity)
    → IsSized i
    → IsSized j
    → canonical_identity_bytes i ≡ canonical_identity_bytes j
    → IsSameEvent i j
unfolding canonical_identity_bytes
canonical_identity_bytes-inj i j hi hj e =
    let (k, e₁) = write_canonical_string-inj i.kind j.kind _ _ hi.kind hj.kind e in
    let (a, e₂) =
      write_canonical_string-inj (canonical_replay_source_asset_kind i.source_asset_kind)
        (canonical_replay_source_asset_kind j.source_asset_kind) _ _ hi.asset_kind hj.asset_kind
        e₁ in
    let (c, e₃) =
      write_canonical_string-inj i.source_chain_id j.source_chain_id _ _ hi.chain_id hj.chain_id
        e₂ in
    let (o, e₄) =
      write_canonical_string-inj i.source_contract j.source_contract _ _ hi.contract hj.contract
        e₃ in
    let (t, e₅) =
      write_canonical_string-inj i.source_tx_hash j.source_tx_hash _ _ hi.tx_hash hj.tx_hash e₄ in
    let (l, e₆) =
      put_uint64-inj i.source_log_index j.source_log_index (put_uint64 i.nonce) (put_uint64 j.nonce)
        hi.log_index hj.log_index e₅ in
    let (n, e₇) = put_uint64-inj i.nonce j.nonce [] [] hi.nonce hj.nonce (ap (λ x. x ++ []) e₆) in
    record {
      kind = k;
      asset_kind =
          sym (canonical_kind_trimmed i.source_asset_kind)
          ∙ a
          ∙ canonical_kind_trimmed j.source_asset_kind;
      chain_id = c;
      contract = o;
      tx_hash = t;
      log_index = l;
      nonce = n;
    }

-- Hexadecimal text gives the bytes back.
hex_digit-inj :
    (x y : ℕ)
    → x < 16
    → y < 16
    → (if ltb x 10 then x + 48 else x + 87) ≡ (if ltb y 10 then y + 48 else y + 87)
    → x ≡ y
hex_digit-inj x y hx hy e = ground arith

byte_of_digits : (x y : ℕ) → x / 16 ≡ y / 16 → x % 16 ≡ y % 16 → x ≡ y
byte_of_digits x y d m = omega arith

hex_encode-inj :
    (x y : List ℕ)
    → All (λ b. b < 256) x
    → All (λ b. b < 256) y
    → hex_encode x ≡ hex_encode y
    → x ≡ y
unfolding hex_encode
hex_encode-inj [] [] hx hy e = refl
hex_encode-inj [] (b ∷ y) hx hy e = absurd (cc)
hex_encode-inj (a ∷ x) [] hx hy e = absurd (cc)
hex_encode-inj (a ∷ x) (b ∷ y) (ha, hx) (hb, hy) e =
    let high = hex_digit-inj (a / 16) (b / 16) (omega arith) (omega arith) (cc) in
    let low = hex_digit-inj (a % 16) (b % 16) (omega arith) (omega arith) (cc) in
    let first : a ≡ b = byte_of_digits a b high low in
    let rest : x ≡ y = hex_encode-inj x y hx hy (cc) in cc

-- If the hash of bytes is made of bytes and does not collide on the two identities, the same replay
-- key means the same event.
pub replay_key-inj :
    (crypto : Crypto) (i j : ClaimIdentity)
    → ((x : List ℕ) → All (λ b. b < 256) (crypto.sha256 x))
    → (crypto.sha256 (canonical_identity_bytes i) ≡ crypto.sha256 (canonical_identity_bytes j)
        → canonical_identity_bytes i ≡ canonical_identity_bytes j)
    → IsSized i
    → IsSized j
    → replay_key crypto i ≡ replay_key crypto j
    → IsSameEvent i j
unfolding replay_key
replay_key-inj crypto i j bytes no_collision hi hj e = canonical_identity_bytes-inj i j hi hj (
    no_collision (
      hex_encode-inj _ _ (bytes (canonical_identity_bytes i)) (bytes (canonical_identity_bytes j))
        e))
