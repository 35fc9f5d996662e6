-- ===== src/Crypto/Crypt/Keys.antt =====
-- src/client/crypto/crypt.ts: the cache of keys against the keys derived from the IV anew.
use teamspeak_js.Common.{
  ℕ, ◌≡◌, refl, ◌^◌, ◌<◌, Bool, true, false, ◌==◌, Option, none, some, Bool-cases, inl, inr, arith,
  ==_iff,
}
use teamspeak_js.Common.Maps.{lookup, insert, lookup-insert}
use teamspeak_js.Crypto.Crypt.{
  Primitives, KeyNonce, Crypt, make_cache_key, derive, cached, cached_or,
}

-- Two triples within their bounds have one cache key only when they are the same.
pub make_cache_key_inj :
    (from from' : Bool) (t t' gen gen' : ℕ)
    → t < 16
    → t' < 16
    → gen < 2 ^ 32
    → gen' < 2 ^ 32
    → make_cache_key from t gen ≡ make_cache_key from' t' gen'
    → (from ≡ from') × (t ≡ t') × (gen ≡ gen')
unfolding make_cache_key
make_cache_key_inj true true t t' gen gen' ht ht' hg hg' h = (refl, omega arith, omega arith)
make_cache_key_inj true false t t' gen gen' ht ht' hg hg' h = absurd (omega arith)
make_cache_key_inj false true t t' gen gen' ht ht' hg hg' h = absurd (omega arith)
make_cache_key_inj false false t t' gen gen' ht ht' hg hg' h = (refl, omega arith, omega arith)

module _ (p : Primitives) where
  -- Each entry of the cache is what the current IV yields for the direction, the type and the
  -- generation in its key.
  abbrev pub IsCoherent : Crypt → Type 0
  IsCoherent c =
      (from_server : Bool) (packet_type generation_id : ℕ) (kn : KeyNonce)
      → packet_type < 16
      → generation_id < 2 ^ 32
      → lookup (make_cache_key from_server packet_type generation_id) c.cached_keys ≡ some kn
      → kn ≡ derive p c.iv_struct from_server packet_type generation_id

  -- The cache after a step is coherent again, and the session is the same.
  abbrev pub Follows : Crypt → Crypt → Type 0
  Follows c c' =
      IsCoherent c'
      × (c'.iv_struct ≡ c.iv_struct)
      × (c'.fake_signature ≡ c.fake_signature)
      × (c'.crypto_init_complete ≡ c.crypto_init_complete)

  inserted-IsCoherent :
      (from_server : Bool) (packet_type generation_id : ℕ) (c : Crypt)
      → packet_type < 16
      → generation_id < 2 ^ 32
      → IsCoherent c
      → IsCoherent (record c {
        cached_keys =
            insert
              (make_cache_key from_server packet_type generation_id)
              (derive p c.iv_struct from_server packet_type generation_id)
              c.cached_keys;
      })
  inserted-IsCoherent from_server packet_type generation_id c ht hg hc from t gen kn t16 g32 e =
      elim (Bool-cases
        (make_cache_key from_server packet_type generation_id == make_cache_key from t gen)) [
          | inl same ↦
              let (ef, et, eg) =
                make_cache_key_inj from_server from packet_type t generation_id gen ht t16 hg g32
                  ((==_iff _ _).0 same) in
              let found =
                rw
                  (
                    lookup-insert (make_cache_key from_server packet_type generation_id)
                        (make_cache_key from t gen)
                        (derive p c.iv_struct from_server packet_type generation_id) c.cached_keys,
                    same,
                  )
                  at e in
              rw (← ef, ← et, ← eg) (cc found)
          | inr other ↦ hc from t gen kn t16 g32 (
              rw
                (
                  lookup-insert (make_cache_key from_server packet_type generation_id)
                      (make_cache_key from t gen)
                      (derive p c.iv_struct from_server packet_type generation_id) c.cached_keys,
                  other,
                )
                at e)
        ]

  cached_or_lem :
      (from_server : Bool) (packet_type generation_id : ℕ) (c : Crypt) (o : Option KeyNonce)
      → packet_type < 16
      → generation_id < 2 ^ 32
      → IsCoherent c
      → lookup (make_cache_key from_server packet_type generation_id) c.cached_keys ≡ o
      → ((cached_or p from_server packet_type generation_id
            (make_cache_key from_server packet_type generation_id)
            c
            o).0
          ≡ derive p c.iv_struct from_server packet_type generation_id)
        × Follows c
            (cached_or p from_server packet_type generation_id
              (make_cache_key from_server packet_type generation_id)
              c
              o).1
  unfolding cached_or
  cached_or_lem from_server packet_type generation_id c (some kn) ht hg hc e =
      (hc from_server packet_type generation_id kn ht hg e, (hc, refl, refl, refl))
  cached_or_lem from_server packet_type generation_id c none ht hg hc e = (
    refl,
    (inserted-IsCoherent from_server packet_type generation_id c ht hg hc, refl, refl, refl),
  )

  pub cached-derive :
      (from_server : Bool) (packet_type generation_id : ℕ) (c : Crypt)
      → packet_type < 16
      → generation_id < 2 ^ 32
      → IsCoherent c
      → ((cached p from_server packet_type generation_id c).0
          ≡ derive p c.iv_struct from_server packet_type generation_id)
        × Follows c (cached p from_server packet_type generation_id c).1
  unfolding cached
  cached-derive from_server packet_type generation_id c ht hg hc =
      cached_or_lem from_server packet_type generation_id c _ ht hg hc refl
