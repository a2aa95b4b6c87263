-- ===== src/LoadBalancer/IpHash.antt =====
-- ipHash, clientIP and fnv1a of loadbalancer.go.
use gateway_pro.Prelude.{
  length-eq-zero, ◌==◌, if◌then◌else◌, Bool-cases, length, Text, codes, is_empty, ℕ, ◌*◌, ◌%◌, ◌^◌,
  ◌<◌, ◌≡◌, refl, inl, inr, not, List, [], ◌∷◌, arith,
}
use Prim.Native.Nat.{bit_xor}
use gateway_pro.Http.{Request, get}
use gateway_pro.Config.{BackendConfig}
use gateway_pro.LoadBalancer.Merge.{merge_backends}
use gateway_pro.LoadBalancer.Heap.{
  Heap, healthy, Pick, no_healthy_backend, panics, pick_at, Sound, healthy-nil, pick_at-Sound,
  length-healthy-le,
}

pub record IpHash : Type 0 where
  pub backends : List ℕ

unfoldable pub client_ip : Request → Text
client_ip r =
    let xff = get r.header "X-Forwarded-For" in
    let xri = get r.header "X-Real-IP" in
    if not (is_empty xff) then xff else if not (is_empty xri) then xri else r.remote_addr

-- The loop of fnv1a from the hash `h` on, in uint32.
fnv1a_from : ℕ → Text → ℕ
fnv1a_from h [] = h
fnv1a_from h (c ∷ s) = fnv1a_from (bit_xor h c * 16777619 % 2 ^ 32) s

unfoldable pub fnv1a : Text → ℕ
unfolding fnv1a_from
fnv1a s = fnv1a_from 2166136261 s

-- `alive[h%uint32(len(alive))]`: the conversion keeps 32 bits, and a remainder by 0 panics.
unfoldable pub next : Heap → IpHash → Request → Pick
next h ih r =
    let alive = healthy h ih.backends in
    let n = length alive % 2 ^ 32 in
    if length alive == 0
    then no_healthy_backend
    else if n == 0
    then panics
    else pick_at alive (fnv1a (client_ip r) % n)

-- Backends
unfoldable pub backends_of : IpHash → List ℕ
backends_of ih = ih.backends

-- Update
unfoldable pub update : IpHash → List BackendConfig → Heap → IpHash × Heap
unfolding merge_backends
update ih cfgs h =
    let (ps, h') = merge_backends ih.backends cfgs h in (record ih { backends = ps }, h')

-- Next answers with a live backend of the list, fails only if there is none, and never panics, for
-- fewer than 2 ^ 32 backends.
pub next-Sound :
    (h : Heap) (ih : IpHash) (r : Request)
    → length ih.backends < 2 ^ 32
    → Sound h ih.backends (next h ih r)
unfolding next
next-Sound h ih r few = elim (Bool-cases (length (healthy h ih.backends) == 0)) [
  | inl none_alive ↦
      rw none_alive
        (healthy-nil h ih.backends (length-eq-zero (healthy h ih.backends) (ground arith)))
  | inr some_alive ↦
      let fits : length (healthy h ih.backends) % 2 ^ 32 ≡ length (healthy h ih.backends) =
        omega (arith, length-healthy-le h ih.backends) in
      rw (some_alive, fits, some_alive) (pick_at-Sound h ih.backends _ (ground arith))
]

-- Requests with one client address get one backend, whatever else they hold and however the load
-- has changed between them, as long as the same backends of the list are alive.
next_sticky :
    (h h' : Heap) (ih : IpHash) (r r' : Request)
    → client_ip r ≡ client_ip r'
    → healthy h ih.backends ≡ healthy h' ih.backends
    → next h ih r ≡ next h' ih r'
unfolding next
next_sticky h h' ih r r' ip same = rw (ip, same)

-- The published test vectors of 32-bit FNV-1a.
fnv1a_vectors :
    (fnv1a [] ≡ 0x811c9dc5)
    × (fnv1a (codes "a") ≡ 0xe40c292c)
    × (fnv1a (codes "foobar") ≡ 0xbf9cf968)
unfolding fnv1a
fnv1a_vectors = (refl, refl, refl)
