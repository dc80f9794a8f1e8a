-- ===== src/Auth/Nonces.antt =====
-- The replay protection of src/auth.ts: how long a nonce that was taken stays in the cache.
use libeam.Shared.{
  ℕ, suc, ◌+◌, ◌≤◌, ◌<◌, String, ◌≡◌, refl, sym, subst, ◌⊎◌, inl, inr, Bool, true, false, List, [],
  ◌∷◌, Option, none, some, arith, ltb, str_eq, eq_iff, if◌then◌else◌, length, Bool-cases,
}
use libeam.Shared.Dict.{Dict, lookup, insert, delete_where, has, size}
use libeam.GossipProtocol.{GossipMessage}
use libeam.Auth.{
  Crypto, AuthenticatedGossipMessage, CookieAuthenticator, drop_oldest, evict_expired_nonces,
  evict_overflow_nonces, admit_nonce, genuine, given, verify_fields, verify_gossip,
}

-- The nonce was taken at this time, and at most so many have been taken since.
unfoldable Recent : String → ℕ → ℕ → Dict ℕ → Type 0
Recent nonce time since [] = ⊥
Recent nonce time since ((n, t) ∷ cache) =
    ((n ≡ nonce) × (t ≡ time) × (size cache ≤ since)) ⊎ Recent nonce time since cache

Recent-has :
    (nonce : String) (time since : ℕ) (cache : Dict ℕ)
    → Recent nonce time since cache
    → has nonce cache ≡ true
unfolding Recent lookup
Recent-has nonce time since [] r = absurd r
Recent-has nonce time since ((n, t) ∷ cache) (inl (e, _, _)) = ground (arith, eq_iff n nonce, e)
Recent-has nonce time since ((n, t) ∷ cache) (inr r) =
    ground (arith, Recent-has nonce time since cache r)

size-delete_where-le :
    (p : String → ℕ → Bool) (cache : Dict ℕ) → size (delete_where p cache) ≤ size cache
unfolding delete_where
size-delete_where-le p [] = omega arith
size-delete_where-le p ((n, t) ∷ cache) = ground (arith, size-delete_where-le p cache)

Recent-delete_where :
    (p : String → ℕ → Bool) (nonce : String) (time since : ℕ) (cache : Dict ℕ)
    → p nonce time ≡ false
    → Recent nonce time since cache
    → Recent nonce time since (delete_where p cache)
unfolding Recent delete_where
Recent-delete_where p nonce time since [] h r = absurd r
Recent-delete_where p nonce time since ((n, t) ∷ cache) h (inl (e, e', l)) =
    rw (e, e', h) (inl (refl, refl, omega (arith, size-delete_where-le p cache)))
Recent-delete_where p nonce time since ((n, t) ∷ cache) h (inr r) = elim (Bool-cases (p n t)) [
  | inl gone ↦ rw (gone) (Recent-delete_where p nonce time since cache h r)
  | inr stays ↦ rw (stays) (inr (Recent-delete_where p nonce time since cache h r))
]

other_key :
    (n new : String) (t : ℕ) (cache : Dict ℕ)
    → has new ((n, t) ∷ cache) ≡ false
    → str_eq n new ≡ false
unfolding lookup
other_key n new t cache h = ground arith

not_in_rest :
    (n new : String) (t : ℕ) (cache : Dict ℕ)
    → has new ((n, t) ∷ cache) ≡ false
    → has new cache ≡ false
unfolding lookup
not_in_rest n new t cache h = ground arith

size-insert-le : (n : String) (t : ℕ) (cache : Dict ℕ) → size (insert n t cache) ≤ suc (size cache)
unfolding insert
size-insert-le n t [] = omega arith
size-insert-le n t ((j, u) ∷ cache) = ground (arith, size-insert-le n t cache)

Recent-insert :
    (nonce new : String) (time since now : ℕ) (cache : Dict ℕ)
    → has new cache ≡ false
    → Recent nonce time since cache
    → Recent nonce time (suc since) (insert new now cache)
unfolding Recent insert lookup
Recent-insert nonce new time since now [] h r = absurd r
Recent-insert nonce new time since now ((n, t) ∷ cache) h (inl (e, e', l)) =
    rw (other_key n new t cache h) (inl (e, e', omega (arith, size-insert-le new now cache)))
Recent-insert nonce new time since now ((n, t) ∷ cache) h (inr r) =
    rw (other_key n new t cache h)
      (inr (Recent-insert nonce new time since now cache (not_in_rest n new t cache h) r))

fits : (most since n : ℕ) → since < most → n ≤ since → ltb most (suc n) ≡ false
fits most since n h l = ground arith

Recent-drop_oldest :
    (nonce : String) (time since most : ℕ) (cache : Dict ℕ)
    → since < most
    → Recent nonce time since cache
    → Recent nonce time since (drop_oldest most cache)
unfolding Recent drop_oldest
Recent-drop_oldest nonce time since most [] h r = absurd r
Recent-drop_oldest nonce time since most ((n, t) ∷ cache) h (inl (e, e', l)) =
    rw (fits most since (size cache) h l) (inl (e, e', l))
Recent-drop_oldest nonce time since most ((n, t) ∷ cache) h (inr r) =
    elim (Bool-cases (ltb most (suc (size cache)))) [
      | inl full ↦ rw (full) (Recent-drop_oldest nonce time since most cache h r)
      | inr room ↦ rw (room) (inr r)
    ]

size-drop_oldest-le : (most : ℕ) (cache : Dict ℕ) → size (drop_oldest most cache) ≤ most
unfolding drop_oldest
size-drop_oldest-le most [] = omega arith
size-drop_oldest-le most ((n, t) ∷ cache) = ground (arith, size-drop_oldest-le most cache)

Recent-suc :
    (nonce : String) (time since : ℕ) (cache : Dict ℕ)
    → Recent nonce time since cache
    → Recent nonce time (suc since) cache
unfolding Recent
Recent-suc nonce time since [] r = absurd r
Recent-suc nonce time since ((n, t) ∷ cache) (inl (e, e', l)) = inl (e, e', omega arith)
Recent-suc nonce time since ((n, t) ∷ cache) (inr r) = inr (Recent-suc nonce time since cache r)

Recent-insert_new :
    (nonce : String) (now : ℕ) (cache : Dict ℕ)
    → has nonce cache ≡ false
    → Recent nonce now 0 (insert nonce now cache)
unfolding Recent insert lookup
Recent-insert_new nonce now [] h = inl (refl, refl, omega arith)
Recent-insert_new nonce now ((n, t) ∷ cache) h =
    rw (other_key n nonce t cache h)
      (inr (Recent-insert_new nonce now cache (not_in_rest n nonce t cache h)))

-- An authenticator with the settings of another, in whose cache the nonce is still recent.
record Keeps (a a' : CookieAuthenticator) (nonce : String) (time since : ℕ) : Type 0 where
  recent : Recent nonce time since a'.nonce_cache
  same_ttl : a'.nonce_ttl_ms ≡ a.nonce_ttl_ms
  same_size : a'.nonce_cache_max_size ≡ a.nonce_cache_max_size

unexpired : (ttl time now : ℕ) → now ≤ time + ttl → ltb (ttl + time) now ≡ false
unexpired ttl time now h = ground arith

admit_nonce-Keeps :
    (a a' : CookieAuthenticator) (nonce new : String) (time since now : ℕ)
    → now ≤ time + a.nonce_ttl_ms
    → suc since < a.nonce_cache_max_size
    → Keeps a a' nonce time since
    → Keeps a (admit_nonce now new a').0 nonce time (suc since)
unfolding admit_nonce evict_expired_nonces evict_overflow_nonces
admit_nonce-Keeps a a' nonce new time since now h bound k =
    elim (Bool-cases (has new (evict_expired_nonces now a').nonce_cache)) [
      | inl there ↦ rw (there) (record {
        recent = Recent-suc _ _ _ _ left;
        same_ttl = k.same_ttl;
        same_size = k.same_size;
      })
      | inr gone ↦ rw (gone) (record {
        recent =
            Recent-drop_oldest _ _ _ _ _ (omega (arith, k.same_size))
              (Recent-insert _ _ _ _ _ _ gone left);
        same_ttl = k.same_ttl;
        same_size = k.same_size;
      })
    ]
  where
    left : Recent nonce time since (evict_expired_nonces now a').nonce_cache
    left =
        Recent-delete_where _ _ _ _ _
          (unexpired a'.nonce_ttl_ms time now (omega (arith, k.same_ttl))) k.recent

later :
    (a a' : CookieAuthenticator) (nonce : String) (time since : ℕ)
    → Keeps a a' nonce time since
    → Keeps a a' nonce time (suc since)
later a a' nonce time since k = record {
  recent = Recent-suc nonce time since a'.nonce_cache k.recent;
  same_ttl = k.same_ttl;
  same_size = k.same_size;
}

verify_fields-Keeps :
    (crypto : Crypto) (a a' : CookieAuthenticator) (nonce : String) (time since now : ℕ)
    (message : GossipMessage) (n h : Option String)
    → now ≤ time + a.nonce_ttl_ms
    → suc since < a.nonce_cache_max_size
    → Keeps a a' nonce time since
    → Keeps a (verify_fields crypto now message n h a').0 nonce time (suc since)
unfolding verify_fields
verify_fields-Keeps crypto a a' nonce time since now message none h l bound k =
    later a a' nonce time since k
verify_fields-Keeps crypto a a' nonce time since now message (some n) none l bound k =
    later a a' nonce time since k
verify_fields-Keeps crypto a a' nonce time since now message (some n) (some h) l bound k =
    elim (Bool-cases (genuine crypto message n h a')) [
      | inl right ↦ rw (right) (admit_nonce-Keeps a a' nonce n time since now l bound k)
      | inr wrong ↦ rw (wrong) (later a a' nonce time since k)
    ]

-- Messages verified one after the other, each at its time.
unfoldable pub verify_all :
    Crypto → List (ℕ × AuthenticatedGossipMessage) → CookieAuthenticator → CookieAuthenticator
verify_all crypto [] a = a
verify_all crypto ((now, m) ∷ ms) a = (verify_gossip crypto now m (verify_all crypto ms a)).0

-- None of them comes after this time.
abbrev pub NoneAfter : ℕ → List (ℕ × AuthenticatedGossipMessage) → Type 0
NoneAfter last [] = Unit
NoneAfter last ((now, m) ∷ ms) = (now ≤ last) × NoneAfter last ms

verify_all-Keeps :
    (crypto : Crypto) (a a' : CookieAuthenticator) (nonce : String) (time : ℕ)
    (ms : List (ℕ × AuthenticatedGossipMessage))
    → NoneAfter (time + a.nonce_ttl_ms) ms
    → length ms < a.nonce_cache_max_size
    → Keeps a a' nonce time 0
    → Keeps a (verify_all crypto ms a') nonce time (length ms)
unfolding verify_all verify_gossip
verify_all-Keeps crypto a a' nonce time [] l bound k = k
verify_all-Keeps crypto a a' nonce time ((now, m) ∷ ms) (l, ls) bound k =
    verify_fields-Keeps crypto a (verify_all crypto ms a') nonce time (length ms) now m.message
      (given m.nonce) (given m.hmac) l bound
      (verify_all-Keeps crypto a a' nonce time ms ls (omega arith) k)

admitted :
    (a : CookieAuthenticator) (nonce : String) (now : ℕ)
    → 0 < a.nonce_cache_max_size
    → (admit_nonce now nonce a).1 ≡ true
    → Keeps a (admit_nonce now nonce a).0 nonce now 0
unfolding admit_nonce evict_expired_nonces evict_overflow_nonces
admitted a nonce now bound h =
    elim (Bool-cases (has nonce (evict_expired_nonces now a).nonce_cache)) [
      | inl there ↦ absurd (ground (arith, there, h))
      | inr gone ↦ rw (gone) (record {
        recent = Recent-drop_oldest _ _ _ _ _ bound (Recent-insert_new nonce now _ gone);
        same_ttl = refl;
        same_size = refl;
      })
    ]

refused :
    (a a' : CookieAuthenticator) (nonce : String) (time since now : ℕ)
    → now ≤ time + a.nonce_ttl_ms
    → Keeps a a' nonce time since
    → (admit_nonce now nonce a').1 ≡ false
unfolding admit_nonce evict_expired_nonces
refused a a' nonce time since now h k = rw (Recent-has nonce time since _ left) refl
  where
    left : Recent nonce time since (evict_expired_nonces now a').nonce_cache
    left =
        Recent-delete_where _ _ _ _ _
          (unexpired a'.nonce_ttl_ms time now (omega (arith, k.same_ttl))) k.recent

accepted-Keeps :
    (crypto : Crypto) (a : CookieAuthenticator) (n : String) (now : ℕ) (message : GossipMessage)
    (h : Option String)
    → 0 < a.nonce_cache_max_size
    → (verify_fields crypto now message (some n) h a).1 ≡ true
    → Keeps a (verify_fields crypto now message (some n) h a).0 n now 0
unfolding verify_fields
accepted-Keeps crypto a n now message none bound t = cc
accepted-Keeps crypto a n now message (some h) bound t =
    elim (Bool-cases (genuine crypto message n h a)) [
      | inl right ↦ rw (right) (
          admitted a n now bound
            (subst (λ b. (if b then admit_nonce now n a else (a, false)).1 ≡ true) right t))
      | inr wrong ↦ absurd (ground (arith, wrong, t))
    ]

replayed :
    (crypto : Crypto) (a a' : CookieAuthenticator) (n : String) (time since now : ℕ)
    (message : GossipMessage) (h : Option String)
    → now ≤ time + a.nonce_ttl_ms
    → Keeps a a' n time since
    → (verify_fields crypto now message (some n) h a').1 ≡ false
unfolding verify_fields
replayed crypto a a' n time since now message none l k = refl
replayed crypto a a' n time since now message (some h) l k =
    elim (Bool-cases (genuine crypto message n h a')) [
      | inl right ↦ rw (right) (refused a a' n time since now l k)
      | inr wrong ↦ rw (wrong) refl
    ]

-- After a message was accepted, no message with its nonce is accepted, as long as the time to live of its nonce has
-- not passed and fewer messages than the cache has room for have been verified in between.
pub replay_rejected :
    (crypto : Crypto) (a : CookieAuthenticator) (m m' : AuthenticatedGossipMessage) (n : String)
    (now later : ℕ) (ms : List (ℕ × AuthenticatedGossipMessage))
    → given m.nonce ≡ some n
    → given m'.nonce ≡ some n
    → (verify_gossip crypto now m a).1 ≡ true
    → NoneAfter (now + a.nonce_ttl_ms) ms
    → length ms < a.nonce_cache_max_size
    → later ≤ now + a.nonce_ttl_ms
    → (verify_gossip crypto later m' (verify_all crypto ms (verify_gossip crypto now m a).0)).1
      ≡ false
unfolding verify_gossip
replay_rejected crypto a m m' n now later ms e e' t l bound h =
    rw (e, e')
      (replayed crypto a
        (verify_all crypto ms (verify_fields crypto now m.message (some n) (given m.hmac) a).0) n
        now (length ms) later m'.message (given m'.hmac) h
        (verify_all-Keeps crypto a _ n now ms l bound
          (accepted-Keeps crypto a n now m.message (given m.hmac) (omega arith) (rw (sym e) t))))

admit_nonce-bounded :
    (a : CookieAuthenticator) (n : String) (now : ℕ)
    → size a.nonce_cache ≤ a.nonce_cache_max_size
    → size (admit_nonce now n a).0.nonce_cache ≤ a.nonce_cache_max_size
unfolding admit_nonce evict_expired_nonces evict_overflow_nonces
admit_nonce-bounded a n now l = elim (Bool-cases (has n (evict_expired_nonces now a).nonce_cache)) [
  | inl there ↦ rw (there) (
      omega (
        arith,
        l,
        size-delete_where-le (λ nonce timestamp. ltb (a.nonce_ttl_ms + timestamp) now)
            a.nonce_cache,
      ))
  | inr gone ↦ rw (gone) (size-drop_oldest-le a.nonce_cache_max_size _)
]

verify_fields-bounded :
    (crypto : Crypto) (a : CookieAuthenticator) (message : GossipMessage) (n h : Option String)
    (now : ℕ)
    → size a.nonce_cache ≤ a.nonce_cache_max_size
    → size (verify_fields crypto now message n h a).0.nonce_cache ≤ a.nonce_cache_max_size
unfolding verify_fields
verify_fields-bounded crypto a message none h now l = l
verify_fields-bounded crypto a message (some n) none now l = l
verify_fields-bounded crypto a message (some n) (some h) now l =
    elim (Bool-cases (genuine crypto message n h a)) [
      | inl right ↦ rw (right) (admit_nonce-bounded a n now l)
      | inr wrong ↦ rw (wrong) l
    ]

-- A cache that is within its size stays so, whatever message is verified.
pub verify_gossip-bounded :
    (crypto : Crypto) (a : CookieAuthenticator) (m : AuthenticatedGossipMessage) (now : ℕ)
    → size a.nonce_cache ≤ a.nonce_cache_max_size
    → size (verify_gossip crypto now m a).0.nonce_cache ≤ a.nonce_cache_max_size
unfolding verify_gossip
verify_gossip-bounded crypto a m now h =
    verify_fields-bounded crypto a m.message (given m.nonce) (given m.hmac) now h

pub has-delete_where :
    (p : String → ℕ → Bool) (nonce : String) (cache : Dict ℕ)
    → has nonce cache ≡ false
    → has nonce (delete_where p cache) ≡ false
unfolding lookup delete_where
has-delete_where p nonce [] h = refl
has-delete_where p nonce ((n, t) ∷ cache) h = ground (arith, has-delete_where p nonce cache)
