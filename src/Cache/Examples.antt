-- ===== src/Cache/Examples.antt =====
-- gate/src/cache.rs on concrete data: instances of the theorems.
use xddp.Prelude.{
  ℕ, ◌≤◌, ◌≡◌, refl, List, [], ◌∷◌, ◌++◌, Option, none, some, Bool, true, false, length, arith,
}
use xddp.Prelude.Int.{pos}
use xddp.Protocol.Varint.{put_varint, frame}
use xddp.Protocol.Reader.{Conn, got}
use xddp.Cache.{render}
use xddp.Cache.{
  Json, version_prefix, protocol_key, version_key, wire_size, varint_size, status_frame,
  new_prepared,
}
use xddp.Cache.Fits.{status_frame-length}
use xddp.Cache.Status.{StatusCache, get, new_cache, refreshed}
use xddp.Cache.Expiry.{get-expired}
use xddp.Metrics.{inc}
use xddp.Cache.Rounds.{get-within}
use native.Mathlib.Decide.{dec_lt, dec_le}

-- Values with and without a version.
pub data Doc : Type 0 where
  raw : List ℕ → Doc
  version_of : List ℕ → Doc
  status : List ℕ → List ℕ → Doc

abbrev write : Doc → Option (List ℕ)
write (raw bs) = some bs
write (version_of bs) = some bs
write (status v d) = some (v ++ d)

abbrev entries : Doc → Option (List (List ℕ × Doc))
entries (raw bs) = none
entries (version_of bs) = some ((protocol_key, raw (52 ∷ 55 ∷ [])) ∷ (110 ∷ [], raw bs) ∷ [])
entries (status v d) = some ((version_key, version_of v) ∷ (100 ∷ [], raw d) ∷ [])

abbrev pub docs : Json
docs = record {
  Value = Doc;
  to_vec = write;
  key_to_vec = λ k. some k;
  from_str = λ bs. some (status bs bs);
  as_object = entries;
}

abbrev text : List ℕ
text = 123 ∷ 125 ∷ []

status_frame-length_example : wire_size (length text) ≡ some (length (status_frame text))
status_frame-length_example = status_frame-length text (omega arith)

abbrev pub fallback : Doc
fallback = status (97 ∷ []) (98 ∷ [])

abbrev pub cache : StatusCache
cache = record {
  value = none;
  fallback = record {
    original = 4 ∷ 0 ∷ 2 ∷ 97 ∷ 98 ∷ [];
    parts = some (version_prefix, 44 ∷ 110 ∷ 58 ∷ 97 ∷ 125 ∷ 44 ∷ 100 ∷ 58 ∷ 98 ∷ 125 ∷ []);
  };
  ttl = 1000000000;
}

started : new_cache docs fallback 256 1 ≡ some cache
unfolding new_cache new_prepared wire_size varint_size status_frame put_varint frame dec_le dec_lt
started = refl

-- A round without a permit, and one whose backend sends an object.
abbrev rounds : List (Bool × Option (ℕ × Conn) × ℕ)
rounds =
    (false, none, 10)
    ∷ (
      true,
      some (
        18,
        record { clock = 20; arrivals = got 21 (4 ∷ 0 ∷ 2 ∷ 123 ∷ 125 ∷ []) ∷ []; remaining = 0 },
      ),
      30,
    )
    ∷ []

get-within_example :
    length
      (get
        (refreshed docs 256 1000 cache (λ i. 0) rounds).0
        (refreshed docs 256 1000 cache (λ i. 0) rounds).1
        (pos 774)
        40).0
    ≤ 256
get-within_example =
    get-within docs 256 (omega arith) fallback 1 1000 cache (λ i. 0) rounds (pos 774) 40
      (omega arith) started

-- A response that was stored, no permit, and a backend that does not answer.
get-expired_example :
    get
      (refreshed docs 256 1000
        (record cache { value = some (record { value = cache.fallback; at = 5 }) })
        (λ i. 0)
        ((false, none, 10) ∷ (true, none, 20) ∷ [])).0
      (refreshed docs 256 1000
        (record cache { value = some (record { value = cache.fallback; at = 5 }) })
        (λ i. 0)
        ((false, none, 10) ∷ (true, none, 20) ∷ [])).1
      (pos 47)
      1000000005
    ≡ (
      render cache.fallback (pos 47),
      inc
          (refreshed docs 256 1000
            (record cache { value = some (record { value = cache.fallback; at = 5 }) })
            (λ i. 0)
            ((false, none, 10) ∷ (true, none, 20) ∷ [])).1
          24,
    )
get-expired_example =
    get-expired docs 256 1000
      (record cache { value = some (record { value = cache.fallback; at = 5 }) }) (λ i. 0)
      (record { value = cache.fallback; at = 5 }) ((false, none, 10) ∷ (true, none, 20) ∷ [])
      (pos 47) 1000000005 refl (refl, (refl, tt)) (omega arith)
