-- ===== src/Auth.antt =====
-- src/auth.ts: authenticated gossip and the rotation of cookies. What node's crypto module does is
-- a parameter, the record `Crypto`: HKDF, the X25519 public key of a seed, HMAC-SHA256 and SHA-256,
-- with the JSON text of a message and the reading of hexadecimal digits. `now` stands for
-- `Date.now()`, and the random nonce of a signature is an argument.
pub mod Z85
pub mod Nonces
pub mod Rotation
use libeam.Shared.{
  ℕ, zero, suc, ◌+◌, String, Bool, true, false, not, ◌&&◌, ◌||◌, List, [], ◌∷◌, Option, none, some,
  ltb, leb, ◌==◌, str_eq, if◌then◌else◌, length, or_else, ◌>>=◌,
}
use libeam.Shared.Text.{units}
use libeam.Shared.Dict.{Dict, insert, delete, delete_where, has, size}
use libeam.GossipProtocol.{GossipMessage}
use libeam.Auth.Z85.{z85_encode}

pub record Crypto : Type 0 where
  -- `hkdfSync("sha256", cookie, salt, info, 32)`.
  pub hkdf : String → String → String → List ℕ
  -- The raw public key of the X25519 private key with this seed.
  pub x25519_public : List ℕ → List ℕ
  -- `createHmac("sha256", key).update(payload).digest("hex")`.
  pub hmac_hex : List ℕ → String → String
  -- `JSON.stringify({ senderId, peers, nonce })`.
  pub payload : GossipMessage → String → String
  -- `Buffer.from(text, "hex")`.
  pub from_hex : String → List ℕ
  -- `createHash("sha256").update(text).digest("hex")`, of a text given by its units.
  pub sha256_hex : List ℕ → String

pub record AuthenticatedGossipMessage : Type 0 where
  pub message : GossipMessage
  pub nonce : Option String
  pub hmac : Option String

pub record CurveKeyPair : Type 0 where
  pub public_key : List ℕ
  pub secret_key : List ℕ

pub record DerivedKeys : Type 0 where
  pub hmac_key : List ℕ
  pub curve_key_pair : CurveKeyPair

pub record CookieAuthenticatorOptions : Type 0 where
  pub nonce_ttl_ms : Option ℕ
  pub nonce_cache_max_size : Option ℕ
  pub salt : Option String

pub record CookieAuthenticator : Type 0 where
  pub hmac_key : List ℕ
  pub nonce_ttl_ms : ℕ
  pub nonce_cache_max_size : ℕ
  pub nonce_cache : Dict ℕ
  pub curve_key_pair : CurveKeyPair

abbrev pub min_cookie_length : ℕ
min_cookie_length = 16

abbrev pub default_nonce_ttl_ms : ℕ
default_nonce_ttl_ms = 10000

abbrev pub default_nonce_cache_max_size : ℕ
default_nonce_cache_max_size = 10000

abbrev pub default_salt : String
default_salt = "libeam-v2"

-- An exception is `none`.
unfoldable pub derive_keys : Crypto → String → String → Option DerivedKeys
derive_keys crypto cookie salt =
    let hmac_key = crypto.hkdf cookie salt "gossip-hmac" in
    let curve_seed = crypto.hkdf cookie salt "curve-seed" in
    do
      public_key ← z85_encode (crypto.x25519_public curve_seed)
      secret_key ← z85_encode curve_seed
      some (record {
        hmac_key = hmac_key;
        curve_key_pair = record { public_key = public_key; secret_key = secret_key };
      })

unfoldable pub init :
    Crypto → String → Option CookieAuthenticatorOptions → Option CookieAuthenticator
unfolding derive_keys
init crypto cookie options = if ltb (length (units cookie)) min_cookie_length then none else (do
  derived ← derive_keys crypto cookie (or_else (options >>= (λ o. o.salt)) default_salt)
  some (record {
    hmac_key = derived.hmac_key;
    nonce_ttl_ms = or_else (options >>= (λ o. o.nonce_ttl_ms)) default_nonce_ttl_ms;
    nonce_cache_max_size =
        or_else (options >>= (λ o. o.nonce_cache_max_size)) default_nonce_cache_max_size;
    nonce_cache = [];
    curve_key_pair = derived.curve_key_pair;
  }))

unfoldable pub compute_gossip_hmac : Crypto → GossipMessage → String → CookieAuthenticator → String
compute_gossip_hmac crypto message nonce a =
    crypto.hmac_hex a.hmac_key (crypto.payload message nonce)

-- `nonce` is the text of the random bytes.
unfoldable pub sign_gossip :
    Crypto → String → GossipMessage → CookieAuthenticator → AuthenticatedGossipMessage
unfolding compute_gossip_hmac
sign_gossip crypto nonce message a = record {
  message = message;
  nonce = some nonce;
  hmac = some (compute_gossip_hmac crypto message nonce a);
}

-- `timingSafeEqual`, for buffers of the same length.
unfoldable pub equal_bytes : List ℕ → List ℕ → Bool
equal_bytes [] [] = true
equal_bytes [] (y ∷ ys) = false
equal_bytes (x ∷ xs) [] = false
equal_bytes (x ∷ xs) (y ∷ ys) = x == y && equal_bytes xs ys

unfoldable pub evict_expired_nonces : ℕ → CookieAuthenticator → CookieAuthenticator
evict_expired_nonces now a = record a {
  nonce_cache =
      delete_where (λ nonce timestamp. ltb (a.nonce_ttl_ms + timestamp) now) a.nonce_cache;
}

-- The oldest nonce goes until the cache fits.
unfoldable pub drop_oldest : ℕ → Dict ℕ → Dict ℕ
drop_oldest most [] = []
drop_oldest most ((nonce, timestamp) ∷ cache) =
    if ltb most (suc (size cache)) then drop_oldest most cache else (nonce, timestamp) ∷ cache

unfoldable pub evict_overflow_nonces : CookieAuthenticator → CookieAuthenticator
unfolding drop_oldest
evict_overflow_nonces a = record a {
  nonce_cache = drop_oldest a.nonce_cache_max_size a.nonce_cache;
}

-- A text that is absent or empty counts as missing.
abbrev pub given : Option String → Option String
given none = none
given (some text) = if str_eq text "" then none else some text

-- Whether the message carries the digest that the key gives.
unfoldable pub genuine : Crypto → GossipMessage → String → String → CookieAuthenticator → Bool
unfolding compute_gossip_hmac
genuine crypto message nonce hmac a =
    let expected = crypto.from_hex (compute_gossip_hmac crypto message nonce a) in
    let actual = crypto.from_hex hmac in
    length expected == length actual && equal_bytes expected actual

-- The end of `verifyGossip`, for a digest that is right.
unfoldable pub admit_nonce : ℕ → String → CookieAuthenticator → CookieAuthenticator × Bool
unfolding evict_expired_nonces evict_overflow_nonces
admit_nonce now nonce a =
    let a' = evict_expired_nonces now a in
    if has nonce a'.nonce_cache
    then (a', false)
    else (evict_overflow_nonces (record a' { nonce_cache = insert nonce now a'.nonce_cache }), true)

unfoldable pub verify_fields :
    Crypto
    → ℕ
    → GossipMessage
    → Option String
    → Option String
    → CookieAuthenticator
    → CookieAuthenticator × Bool
unfolding genuine admit_nonce
verify_fields crypto now message none hmac a = (a, false)
verify_fields crypto now message (some nonce) none a = (a, false)
verify_fields crypto now message (some nonce) (some hmac) a =
    if genuine crypto message nonce hmac a then admit_nonce now nonce a else (a, false)

unfoldable pub verify_gossip :
    Crypto → ℕ → AuthenticatedGossipMessage → CookieAuthenticator → CookieAuthenticator × Bool
unfolding verify_fields
verify_gossip crypto now m a = verify_fields crypto now m.message (given m.nonce) (given m.hmac) a

pub fingerprint : Crypto → List ℕ → String
fingerprint crypto z85_public_key = crypto.sha256_hex z85_public_key

pub record Keyring : Type 0 where
  pub primary : CookieAuthenticator
  pub secondary : Option CookieAuthenticator
  pub salt : String

pub init_keyring : Crypto → String → Option CookieAuthenticatorOptions → Option Keyring
unfolding init
init_keyring crypto cookie options = do
  primary ← init crypto cookie options
  some (record {
    primary = primary;
    secondary = none;
    salt = or_else (options >>= (λ o. o.salt)) default_salt;
  })

-- `none` is an exception: a cookie is installed already, or this one is refused.
pub install : Crypto → String → Keyring → Option Keyring
unfolding init
install crypto cookie k = elim k.secondary [
  | some pending ↦ none
  | none ↦ do
    fresh ←
        init crypto cookie
          (some (record { nonce_ttl_ms = none; nonce_cache_max_size = none; salt = some k.salt }))
    some (record k { secondary = some fresh })
]

unfoldable pub activate : Keyring → Option (Keyring × CurveKeyPair)
activate k = elim k.secondary [
  | none ↦ none
  | some pending ↦
      some (record k { primary = pending; secondary = some k.primary }, pending.curve_key_pair)
]

pub remove : Keyring → Keyring
remove k = record k { secondary = none }

fingerprint? : Crypto → Option CookieAuthenticator → List String
unfolding fingerprint
fingerprint? crypto none = []
fingerprint? crypto (some a) = fingerprint crypto a.curve_key_pair.public_key ∷ []

pub list : Crypto → Keyring → List String
unfolding fingerprint fingerprint?
list crypto k =
    fingerprint crypto k.primary.curve_key_pair.public_key ∷ fingerprint? crypto k.secondary

pub keyring_sign_gossip : Crypto → String → GossipMessage → Keyring → AuthenticatedGossipMessage
unfolding sign_gossip
keyring_sign_gossip crypto nonce message k = sign_gossip crypto nonce message k.primary

pub verify_secondary :
    Crypto
    → ℕ
    → AuthenticatedGossipMessage
    → Option CookieAuthenticator
    → Option CookieAuthenticator × Bool
unfolding verify_gossip
verify_secondary crypto now m none = (none, false)
verify_secondary crypto now m (some a) =
    let (a', accepted) = verify_gossip crypto now m a in (some a', accepted)

pub keyring_verify_gossip : Crypto → ℕ → AuthenticatedGossipMessage → Keyring → Keyring × Bool
unfolding verify_gossip verify_secondary
keyring_verify_gossip crypto now m k =
    let (primary, accepted) = verify_gossip crypto now m k.primary in
    let (secondary, accepted') = verify_secondary crypto now m k.secondary in
    if accepted
    then (record k { primary = primary }, true)
    else (record k { primary = primary; secondary = secondary }, accepted')
