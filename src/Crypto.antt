-- ===== src/Crypto.antt =====
-- The cryptography that the bridge calls and does not implement: crypto/sha256, the Keccak hash of
-- golang.org/x/crypto/sha3 and the recovery of a public key of decred's secp256k1.
use aegis_link.Common.{ℕ, List, Option}

pub record Crypto : Type 0 where
  -- `sha256.Sum256`
  pub sha256 : List ℕ → List ℕ
  -- `keccak256`
  pub keccak256 : List ℕ → List ℕ
  -- `ecdsa.RecoverCompact(signature, digest)` with `SerializeUncompressed` of the key
  pub recover_compact : List ℕ → List ℕ → Option (List ℕ)
