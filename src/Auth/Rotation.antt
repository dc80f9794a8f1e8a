-- ===== src/Auth/Rotation.antt =====
-- The rotation of cookies in src/auth.ts: which signatures are accepted while two keys are
-- installed, and what a rotation leaves.
use libeam.Shared.{
  ℕ, ◌+◌, String, ◌≡◌, refl, true, false, List, [], ◌∷◌, none, some, arith, ltb, str_eq, ◌>>=◌,
}
use libeam.Shared.Dict.{has}
use libeam.GossipProtocol.{GossipMessage}
use libeam.Auth.{
  Crypto, AuthenticatedGossipMessage, CookieAuthenticator, Keyring, admit_nonce,
  evict_expired_nonces, genuine, verify_fields, verify_gossip, compute_gossip_hmac, sign_gossip,
  equal_bytes, init, install, activate, remove, keyring_verify_gossip, verify_secondary,
  default_nonce_ttl_ms, default_nonce_cache_max_size,
}
use libeam.Auth.Nonces.{has-delete_where}

equal_bytes_refl : (xs : List ℕ) → equal_bytes xs xs ≡ true
unfolding equal_bytes
equal_bytes_refl [] = refl
equal_bytes_refl (x ∷ xs) = ground (arith, equal_bytes_refl xs)

genuine-compute :
    (crypto : Crypto) (message : GossipMessage) (nonce : String) (a : CookieAuthenticator)
    → genuine crypto message nonce (compute_gossip_hmac crypto message nonce a) a ≡ true
unfolding genuine
genuine-compute crypto message nonce a =
    ground (arith, equal_bytes_refl (crypto.from_hex (compute_gossip_hmac crypto message nonce a)))

admit_nonce-fresh :
    (now : ℕ) (nonce : String) (a : CookieAuthenticator)
    → has nonce a.nonce_cache ≡ false
    → (admit_nonce now nonce a).1 ≡ true
unfolding admit_nonce evict_expired_nonces
admit_nonce-fresh now nonce a h =
    rw
      (has-delete_where (λ nonce timestamp. ltb (a.nonce_ttl_ms + timestamp) now) nonce
        a.nonce_cache h)
      refl

-- What the authenticator signs with a nonce that its cache does not hold, it accepts.
signed_accepted :
    (crypto : Crypto) (now : ℕ) (nonce : String) (message : GossipMessage) (a : CookieAuthenticator)
    → str_eq nonce "" ≡ false
    → str_eq (compute_gossip_hmac crypto message nonce a) "" ≡ false
    → has nonce a.nonce_cache ≡ false
    → (verify_gossip crypto now (sign_gossip crypto nonce message a) a).1 ≡ true
unfolding verify_gossip verify_fields sign_gossip
signed_accepted crypto now nonce message a n h fresh =
    rw (n, h, genuine-compute crypto message nonce a) (admit_nonce-fresh now nonce a fresh)

verify_primary :
    (crypto : Crypto) (now : ℕ) (m : AuthenticatedGossipMessage) (k : Keyring)
    → (verify_gossip crypto now m k.primary).1 ≡ true
    → (keyring_verify_gossip crypto now m k).1 ≡ true
unfolding keyring_verify_gossip
verify_primary crypto now m k h = ground (arith, h)

verify_pending :
    (crypto : Crypto) (now : ℕ) (m : AuthenticatedGossipMessage) (k : Keyring)
    (a : CookieAuthenticator)
    → k.secondary ≡ some a
    → (verify_gossip crypto now m a).1 ≡ true
    → (keyring_verify_gossip crypto now m k).1 ≡ true
unfolding keyring_verify_gossip verify_secondary
verify_pending crypto now m k a e h = rw (e) (ground (arith, h))

-- While two keys are installed, a signature of either is accepted, the old one and the new one,
-- provided that the nonce and the digest are not empty and the signer's cache does not hold the
-- nonce; before and after `activate`, which swaps the two.
pub both_accepted :
    (crypto : Crypto) (now : ℕ) (nonce : String) (message : GossipMessage) (k : Keyring)
    (a : CookieAuthenticator)
    → k.secondary ≡ some a
    → str_eq nonce "" ≡ false
    → str_eq (compute_gossip_hmac crypto message nonce k.primary) "" ≡ false
    → str_eq (compute_gossip_hmac crypto message nonce a) "" ≡ false
    → has nonce k.primary.nonce_cache ≡ false
    → has nonce a.nonce_cache ≡ false
    → let swapped = record k { primary = a; secondary = some k.primary } in
      (activate k ≡ some (swapped, a.curve_key_pair))
      × ((keyring_verify_gossip crypto now (sign_gossip crypto nonce message k.primary) k).1 ≡ true)
      × ((keyring_verify_gossip crypto now (sign_gossip crypto nonce message a) k).1 ≡ true)
      × ((keyring_verify_gossip crypto now (sign_gossip crypto nonce message k.primary) swapped).1
          ≡ true)
      × ((keyring_verify_gossip crypto now (sign_gossip crypto nonce message a) swapped).1 ≡ true)
unfolding activate
both_accepted crypto now nonce message k a e n hp ha fp fa =
    let swapped = record k { primary = a; secondary = some k.primary } in
    let by_old = signed_accepted crypto now nonce message k.primary n hp fp in
    let by_new = signed_accepted crypto now nonce message a n ha fa in
    (
      rw (e) refl,
      verify_primary crypto now (sign_gossip crypto nonce message k.primary) k by_old,
      verify_pending crypto now (sign_gossip crypto nonce message a) k a e by_new,
      verify_pending crypto now (sign_gossip crypto nonce message k.primary) swapped k.primary refl
          by_old,
      verify_primary crypto now (sign_gossip crypto nonce message a) swapped by_new,
    )

-- A second `activate` puts the old cookie in charge again.
pub activate-activate :
    (k : Keyring) (a : CookieAuthenticator)
    → k.secondary ≡ some a
    → (activate k >>= (λ r. activate r.0)) ≡ some (k, k.primary.curve_key_pair)
unfolding activate
activate-activate k a e = rw (e) refl

init_defaults :
    (crypto : Crypto) (cookie salt : String) (fresh : CookieAuthenticator)
    → init crypto cookie
        (some (record { nonce_ttl_ms = none; nonce_cache_max_size = none; salt = some salt }))
      ≡ some fresh
    → (fresh.nonce_ttl_ms ≡ default_nonce_ttl_ms)
      × (fresh.nonce_cache_max_size ≡ default_nonce_cache_max_size)
unfolding init
init_defaults crypto cookie salt fresh h = ground (arith, h)

-- Where no other cookie is installed and the new one is accepted, a whole rotation, `install`, `activate` and `remove`, leaves the new cookie's authenticator alone
-- in charge, and it has the default time to live and cache size whatever the old one had.
pub rotation :
    (crypto : Crypto) (cookie : String) (k : Keyring) (fresh : CookieAuthenticator)
    → k.secondary ≡ none
    → init crypto cookie
        (some (record { nonce_ttl_ms = none; nonce_cache_max_size = none; salt = some k.salt }))
      ≡ some fresh
    → ((do
      installed ← install crypto cookie k
      activated ← activate installed
      some (remove activated.0))
        ≡ some (record k { primary = fresh; secondary = none }))
      × (fresh.nonce_ttl_ms ≡ default_nonce_ttl_ms)
      × (fresh.nonce_cache_max_size ≡ default_nonce_cache_max_size)
unfolding install activate remove
rotation crypto cookie k fresh e h =
    let (ttl, room) = init_defaults crypto cookie k.salt fresh h in (rw (e, h) refl, ttl, room)
