-- ===== src/Proxy/Overlap/InFlight.antt =====
-- Any number of requests of one route at once, and the counts of requests in flight.
use gateway_pro.Prelude.{
  ◌==◌, if◌then◌else◌, ==_refl, Bool-cases, length, get_elem?, length-append, ◌+ℤ◌, ◌-ℤ◌, wrap64,
  pos, wrap64_of_Int64, eq_of_parts, int_laws, ℕ, zero, suc, ◌+◌, ◌-◌, ◌^◌, ◌≤◌, ◌<◌, ◌≡◌, refl,
  sym, ap, subst, ◌∙◌, inl, inr, Bool, some, List, [], ◌∷◌, ◌++◌, arith,
}
use gateway_pro.Http.{Request}
use gateway_pro.LoadBalancer.Heap.{Heap, set_alive, inc, dec, write}
use gateway_pro.Proxy.{Surroundings}
use gateway_pro.Proxy.Overlap.{
  Stage, arrived, admitted, chosen, passed, counted, answered, recorded, leaving, finished,
  after_limit, after_pick, succeeds, Shared, advance,
}
use gateway_pro.RateLimiter.Results.{Verdict}
use gateway_pro.LoadBalancer.Heap.{Pick}

pub record Entry : Type 0 where
  pub request : Request
  pub stage : Stage

pub record System : Type 0 where
  pub shared : Shared
  pub requests : List Entry

abbrev pub set {ℓ} : {A : Type ℓ} → List A → ℕ → A → List A
set [] i v = []
set (x ∷ xs) zero v = v ∷ xs
set (x ∷ xs) (suc i) v = x ∷ set xs i v

-- The system after a step of the request `x` at the index `i`.
abbrev pub moved : System → ℕ → Entry → Stage × Shared → System
moved s i x (stage, shared) = record {
  shared = shared;
  requests = set s.requests i (record x { stage = stage });
}

-- A request comes in, some request makes a step, at any time and with any answers from outside, or
-- a health check sets a flag.
pub data Step (s : System) : System → Type 0 where
  arrives :
      (r : Request)
      → Step s (record s { requests = s.requests ++ record { request = r; stage = arrived } ∷ [] })
  moves :
      (i : ℕ) (x : Entry) (e : Surroundings)
      → get_elem? s.requests i ≡ some x
      → Step s (moved s i x (advance e x.request x.stage s.shared))
  checks :
      (p : ℕ) (alive : Bool)
      → Step s (record s { shared = record s.shared { heap = set_alive p alive s.shared.heap } })

pub data Reach (s : System) : System → Type 0 where
  here : Reach s s
  later : {t u : System} → Reach s t → Step t u → Reach s u

-- 1 between a request's Inc of the backend `q` and its Dec.
abbrev pub holds : ℕ → Stage → ℕ
holds q (counted p) = if p == q then 1 else 0
holds q (answered p o) = if p == q then 1 else 0
holds q (recorded p o) = if p == q then 1 else 0
holds q (leaving p reply) = if p == q then 1 else 0
holds q _ = 0

abbrev pub in_flight : ℕ → List Entry → ℕ
in_flight q [] = 0
in_flight q (x ∷ xs) = holds q x.stage + in_flight q xs

-- Every backend counts the requests that are in flight to it.
abbrev pub Counts : System → Type 0
Counts s = (q : ℕ) → (s.shared.heap.cell q).inflight ≡ pos (in_flight q s.requests)

holds-le : (q : ℕ) (st : Stage) → holds q st ≤ 1
holds-le q st = ground arith

in_flight-le : (q : ℕ) (xs : List Entry) → in_flight q xs ≤ length xs
in_flight-le q [] = omega arith
in_flight-le q (x ∷ xs) = omega (arith, in_flight-le q xs, holds-le q x.stage)

in_flight-append :
    (q : ℕ) (xs ys : List Entry) → in_flight q (xs ++ ys) ≡ in_flight q xs + in_flight q ys
in_flight-append q [] ys = omega arith
in_flight-append q (x ∷ xs) ys = omega (arith, in_flight-append q xs ys)

in_flight-set :
    (q : ℕ) (xs : List Entry) (i : ℕ) (x y : Entry)
    → get_elem? xs i ≡ some x
    → in_flight q (set xs i y) + holds q x.stage ≡ in_flight q xs + holds q y.stage
in_flight-set q [] i x y at = cc
in_flight-set q (z ∷ xs) zero x y at =
    let same : z ≡ x = ground arith in
    subst
      (λ (w : Entry).
        holds q y.stage + in_flight q xs + holds q w.stage
        ≡ holds q z.stage + in_flight q xs + holds q y.stage)
      same (omega arith)
in_flight-set q (z ∷ xs) (suc i) x y at = omega (arith, in_flight-set q xs i x y at)

length-set : (xs : List Entry) (i : ℕ) (y : Entry) → length (set xs i y) ≡ length xs
length-set [] i y = refl
length-set (x ∷ xs) zero y = refl
length-set (x ∷ xs) (suc i) y = omega (arith, length-set xs i y)

one_more : (n : ℕ) → n + 1 < 2 ^ 63 → wrap64 (pos n +ℤ pos 1) ≡ pos (n + 1)
one_more n small =
    let sum : pos n +ℤ pos 1 ≡ pos (n + 1) = eq_of_parts _ _ (omega int_laws) in
    rw sum (wrap64_of_Int64 (pos (n + 1)) (omega arith))

one_less : (n : ℕ) → n < 2 ^ 63 → 1 ≤ n → wrap64 (pos n -ℤ pos 1) ≡ pos (n - 1)
one_less n small one =
    let difference : pos n -ℤ pos 1 ≡ pos (n - 1) = eq_of_parts _ _ (omega (int_laws, one)) in
    rw difference (wrap64_of_Int64 (pos (n - 1)) (omega arith))

abbrev same_one : ℕ → ℕ → ℕ
same_one p q = if p == q then 1 else 0

inflight-inc :
    (p q n : ℕ) (h : Heap)
    → (h.cell q).inflight ≡ pos n
    → n + 1 < 2 ^ 63
    → ((inc p h).cell q).inflight ≡ pos (n + same_one p q)
unfolding inc write
inflight-inc p q n h e small = elim (Bool-cases (q == p)) [
  | inr other ↦ ground arith
  | inl same ↦
      let here : q ≡ p = ground arith in
      let e' : (h.cell p).inflight ≡ pos n = ap (λ (r : ℕ). (h.cell r).inflight) (sym here) ∙ e in
      rw (here, ==_refl p, e') (one_more n small)
]

inflight-dec :
    (p q n : ℕ) (h : Heap)
    → (h.cell q).inflight ≡ pos n
    → n < 2 ^ 63
    → same_one p q ≤ n
    → ((dec p h).cell q).inflight ≡ pos (n - same_one p q)
unfolding dec write
inflight-dec p q n h e small one = elim (Bool-cases (q == p)) [
  | inr other ↦ ground arith
  | inl same ↦
      let here : q ≡ p = ground arith in
      let e' : (h.cell p).inflight ≡ pos n = ap (λ (r : ℕ). (h.cell r).inflight) (sym here) ∙ e in
      rw (here, ==_refl p, e') (one_less n small (ground arith))
]

inflight-set_alive :
    (p q : ℕ) (v : Bool) (h : Heap) → ((set_alive p v h).cell q).inflight ≡ (h.cell q).inflight
unfolding set_alive write
inflight-set_alive p q v h = ground arith

-- What a step of a request does to the count of the backend `q`, which is `n`.
abbrev Follows : ℕ → ℕ → Stage → Stage × Shared → Type 0
Follows q n st (st', s') =
    (m : ℕ) × ((s'.heap.cell q).inflight ≡ pos m) × (m + holds q st ≡ n + holds q st')

after_limit-holds : (q : ℕ) (v : Verdict) → holds q (after_limit v) ≡ 0
unfolding after_limit
after_limit-holds q v = ground arith

after_pick-holds : (q : ℕ) (k : Pick) → holds q (after_pick k) ≡ 0
unfolding after_pick
after_pick-holds q k = ground arith

advance-Follows :
    (e : Surroundings) (r : Request) (q n : ℕ) (st : Stage) (s : Shared)
    → (s.heap.cell q).inflight ≡ pos n
    → n + 1 < 2 ^ 63
    → holds q st ≤ n
    → Follows q n st (advance e r st s)
unfolding advance
advance-Follows e r q n arrived s c small some_there = (n, c, omega (arith, after_limit-holds q _))
advance-Follows e r q n admitted s c small some_there = (n, c, omega (arith, after_pick-holds q _))
advance-Follows e r q n (chosen p) s c small some_there = (n, c, ground arith)
advance-Follows e r q n (passed p) s c small some_there =
    (n + same_one p q, inflight-inc p q n s.heap c small, omega arith)
advance-Follows e r q n (counted p) s c small some_there = (n, c, ground arith)
advance-Follows e r q n (answered p o) s c small some_there = (n, c, omega arith)
advance-Follows e r q n (recorded p o) s c small some_there =
    (n, inflight-set_alive p q (succeeds o) s.heap ∙ c, omega arith)
advance-Follows e r q n (leaving p reply) s c small some_there = (
  n - same_one p q,
  inflight-dec p q n s.heap c (omega arith) some_there,
  omega (arith, some_there),
)
advance-Follows e r q n (finished reply) s c small some_there = (n, c, omega arith)

holds-le_in_flight :
    (q : ℕ) (xs : List Entry) (i : ℕ) (x : Entry)
    → get_elem? xs i ≡ some x
    → holds q x.stage ≤ in_flight q xs
holds-le_in_flight q [] i x at = cc
holds-le_in_flight q (z ∷ xs) zero x at =
    let same : z ≡ x = ground arith in
    subst (λ (w : Entry). holds q w.stage ≤ holds q z.stage + in_flight q xs) same (omega arith)
holds-le_in_flight q (z ∷ xs) (suc i) x at = omega (arith, holds-le_in_flight q xs i x at)

abbrev Few : System → Type 0
Few s = length s.requests + 1 < 2 ^ 63

Step-Few : {s t : System} → Step s t → Few t → Few s
Step-Few {s} (arrives r) few =
    omega (arith, few, length-append s.requests (record { request = r; stage = arrived } ∷ []))
Step-Few {s} (moves i x e at) few = omega (arith, few, length-set s.requests i _)
Step-Few (checks p alive) few = few

Step-Counts : {s t : System} → Step s t → Few s → Counts s → Counts t
Step-Counts {s} (arrives r) few c q =
    c q
    ∙ ap pos (
        omega (arith, in_flight-append q s.requests (record { request = r; stage = arrived } ∷ [])))
Step-Counts {s} (checks p alive) few c q = inflight-set_alive p q alive s.shared.heap ∙ c q
Step-Counts {s} (moves i x e at) few c q =
    let n = in_flight q s.requests in
    let (st', s') = advance e x.request x.stage s.shared in
    let (m, count, follows) =
      advance-Follows e x.request q n x.stage s.shared (c q)
        (omega (arith, few, in_flight-le q s.requests)) (holds-le_in_flight q s.requests i x at) in
    count
    ∙ ap pos (omega (arith, follows, in_flight-set q s.requests i x (record x { stage = st' })))

-- However requests of a route come in, overlap and are answered, and whenever health checks set
-- flags: the count of requests in flight of every backend is always the number of requests that are
-- between their Inc and their Dec of it. The system starts so, and there are fewer than 2 ^ 63 - 1
-- requests.
pub Reach-Counts : {s t : System} → Counts s → length t.requests + 1 < 2 ^ 63 → Reach s t → Counts t
Reach-Counts c few here = c
Reach-Counts c few (later r st) =
    let few' = Step-Few st few in Step-Counts st few' (Reach-Counts c few' r)
