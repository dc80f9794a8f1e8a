-- ===== src/Examples/Authentication.antt =====
-- Runs of the authenticators of src/auth.ts, with a toy in place of the cryptography.
use libeam.Shared.{
  ℕ, String, ◌≡◌, refl, false, List, [], ◌∷◌, none, some, arith, length, replicate, ◌>>=◌,
}
use libeam.Shared.Text.{units, units_of}
use libeam.Shared.Dict.{lookup, delete_where}
use libeam.GossipProtocol.{GossipMessage}
use libeam.Auth.{
  Crypto, AuthenticatedGossipMessage, CookieAuthenticator, CurveKeyPair, Keyring, init, derive_keys,
  verify_gossip, verify_fields, genuine, compute_gossip_hmac, equal_bytes, admit_nonce,
  evict_expired_nonces, activate, install, remove, default_nonce_ttl_ms,
  default_nonce_cache_max_size,
}
use libeam.Auth.Z85.{z85_encode, z85_decode, encode_words, put_digits, z85_char}
use libeam.Auth.Z85.RoundTrip.{z85_decode-z85_encode}
use libeam.Auth.Nonces.{replay_rejected, verify_all}
use libeam.Auth.Rotation.{rotation}

abbrev bytes : List ℕ
bytes = 134 ∷ 79 ∷ 210 ∷ 111 ∷ 181 ∷ 89 ∷ 247 ∷ 91 ∷ []

z85_decode-z85_encode_example :
    (z85_encode bytes ≡ some (encode_words bytes)) × (z85_decode (encode_words bytes) ≡ some bytes)
z85_decode-z85_encode_example =
    z85_decode-z85_encode bytes
      (
        omega arith,
        (
          omega arith,
          (
            omega arith,
            (omega arith, (omega arith, (omega arith, (omega arith, (omega arith, tt))))),
          ),
        ),
      )
      refl

abbrev crypto : Crypto
unfolding units units_of
crypto = record {
  hkdf = λ cookie salt info. replicate 32 (length (units cookie));
  x25519_public = λ seed. seed;
  hmac_hex = λ key payload. payload;
  payload = λ message nonce. nonce;
  from_hex = units;
  sha256_hex = λ text. "f00d";
}

abbrev pair : CurveKeyPair
pair = record { public_key = []; secret_key = [] }

abbrev own : CookieAuthenticator
own = record {
  hmac_key = 1 ∷ [];
  nonce_ttl_ms = 100;
  nonce_cache_max_size = 3;
  nonce_cache = [];
  curve_key_pair = pair;
}

abbrev message : GossipMessage
message = record { version = some 1; sender_id = "n1"; peers = [] }

abbrev signed : String → AuthenticatedGossipMessage
signed nonce = record { message = message; nonce = some nonce; hmac = some nonce }

replay_rejected_example :
    (verify_gossip crypto 110 (signed "aa") (
      verify_all crypto
        ((60, signed "bb") ∷ (50, signed "cc") ∷ [])
        (verify_gossip crypto 20 (signed "aa") own).0)).1
    ≡ false
unfolding verify_gossip verify_fields genuine compute_gossip_hmac equal_bytes admit_nonce
    evict_expired_nonces lookup delete_where units units_of
replay_rejected_example =
    replay_rejected crypto own (signed "aa") (signed "aa") "aa" 20 110
      ((60, signed "bb") ∷ (50, signed "cc") ∷ []) refl refl refl (omega arith, (omega arith, tt))
      (omega arith) (omega arith)

abbrev keyring : Keyring
keyring = record {
  primary = own;
  secondary = some (record own { hmac_key = 2 ∷ [] });
  salt = "libeam-v2";
}

abbrev derived : CookieAuthenticator
unfolding encode_words put_digits z85_char units units_of
derived = record {
  hmac_key = replicate 32 20;
  nonce_ttl_ms = 10000;
  nonce_cache_max_size = 10000;
  nonce_cache = [];
  curve_key_pair = record {
    public_key = encode_words (replicate 32 20);
    secret_key = encode_words (replicate 32 20);
  };
}

abbrev before : Keyring
before = record { primary = own; secondary = none; salt = "libeam-v2" }

rotation_example :
    ((do
      installed ← install crypto "a_cookie_of_twenty__" before
      activated ← activate installed
      some (remove activated.0))
      ≡ some (record before { primary = derived; secondary = none }))
    × (derived.nonce_ttl_ms ≡ default_nonce_ttl_ms)
    × (derived.nonce_cache_max_size ≡ default_nonce_cache_max_size)
unfolding init derive_keys z85_encode encode_words put_digits z85_char units units_of
rotation_example = rotation crypto "a_cookie_of_twenty__" before derived refl refl
