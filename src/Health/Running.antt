-- ===== src/Health/Running.antt =====
-- The goroutine of a Checker: run of health.go, with Update and Stop.
use gateway_pro.Prelude.{
  if◌then◌else◌, Bool-cases, Text, ℕ, ◌≡◌, refl, sym, ap, subst, ◌∙◌, ◌⊎◌, inl, inr, Bool, true,
  false, ◌||◌, List, [], ◌∷◌, ◌++◌, arith,
}
use gateway_pro.LoadBalancer.Heap.{Heap}
use gateway_pro.Health.{Response, failed, check_all}
use gateway_pro.Health.Rounds.{member, check_all-cell}

-- `cancelled` is whether the context is done; `running` is whether run has not returned.
pub record Checker : Type 0 where
  pub backends : List ℕ
  pub cancelled : Bool
  pub running : Bool

-- The two cases of run's select, and the two calls from outside. A case of the ticker comes with what
-- `http.NewRequestWithContext` accepts and the answers of the requests.
pub data Event : Type 0 where
  ticks : (Text → Bool) → (Text → Response) → Event
  returns stops : Event
  updates : List ℕ → Event

-- Update
pub update : List ℕ → Checker → Checker
update bs c = record c { backends = bs }

-- Stop
pub stop_checker : Checker → Checker
stop_checker c = record c { cancelled = true }

-- checkAll in run: a request with a context that is done fails.
pub check : (Text → Bool) → (Text → Response) → Checker → Heap → Heap
check accepts answer c h =
    check_all accepts (λ url. if c.cancelled then failed else answer url) c.backends h

-- An event, where it can happen: only a running goroutine takes a case, and it takes that of
-- `ctx.Done()` only if the context is done.
pub happen : Event → Checker × Heap → Checker × Heap
unfolding check update stop_checker
happen (ticks accepts answer) (c, h) = (c, if c.running then check accepts answer c h else h)
happen returns (c, h) = (if c.cancelled then record c { running = false } else c, h)
happen stops (c, h) = (stop_checker c, h)
happen (updates bs) (c, h) = (update bs c, h)

pub events : List Event → Checker × Heap → Checker × Heap
unfolding happen
events [] x = x
events (e ∷ es) x = events es (happen e x)

-- New, and run from its immediate check on.
pub run : List ℕ → (Text → Bool) → (Text → Response) → List Event → Heap → Checker × Heap
unfolding events check
run bs accepts answer es h =
    let c : Checker = record { backends = bs; cancelled = false; running = true } in
    events es (c, check accepts answer c h)

-- Whether a backend is in one of the lists that Update brings.
abbrev pub given : ℕ → List Event → Bool
given q [] = false
given q (updates bs ∷ es) = member q bs || given q es
given q (ticks accepts answer ∷ es) = given q es
given q (returns ∷ es) = given q es
given q (stops ∷ es) = given q es

-- The cell of `q` is the same but for its alive flag, and that too if `q` is not `touched`.
abbrev pub Spared : Bool → ℕ → Heap → Heap → Type 0
Spared touched q h h' =
    ((h'.cell q).url ≡ (h.cell q).url)
    × ((h'.cell q).inflight ≡ (h.cell q).inflight)
    × ((touched ≡ true) ⊎ ((h'.cell q).alive ≡ (h.cell q).alive))

Spared-trans :
    (a b d : Bool) (q : ℕ) (h h' h'' : Heap)
    → ((a || b) ≡ true → d ≡ true)
    → Spared a q h h'
    → Spared b q h' h''
    → Spared d q h h''
Spared-trans true b d q h h' h'' up (u, i, f) (u', i', f') = (u' ∙ u, i' ∙ i, inl (up refl))
Spared-trans false true d q h h' h'' up (u, i, f) (u', i', f') = (u' ∙ u, i' ∙ i, inl (up refl))
Spared-trans false false d q h h' h'' up (u, i, f) (u', i', f') = (
  u' ∙ u,
  i' ∙ i,
  elim f [
    | inl wrong ↦ absurd (ground (arith, wrong))
    | inr same ↦ elim f' [
      | inl wrong ↦ absurd (ground (arith, wrong))
      | inr same' ↦ inr (same' ∙ same)
    ]
  ],
)

check-Spared :
    (accepts : Text → Bool) (answer : Text → Response) (c : Checker) (h : Heap) (q : ℕ)
    → Spared (member q c.backends) q h (check accepts answer c h)
unfolding check
check-Spared accepts answer c h q =
    let (url, load, flag) =
      check_all-cell accepts (λ u. if c.cancelled then failed else answer u) c.backends h q in
    (
      url,
      load,
      elim (Bool-cases (member q c.backends)) [
        | inl here ↦ inl here
        | inr away ↦ inr (flag ∙ rw away refl)
      ],
    )

Spared-none : (q : ℕ) (h : Heap) → Spared false q h h
Spared-none q h = (refl, refl, inr refl)

tick-Spared :
    (accepts : Text → Bool) (answer : Text → Response) (c : Checker) (h : Heap) (q : ℕ)
    → Spared (member q c.backends) q h (if c.running then check accepts answer c h else h)
tick-Spared accepts answer c h q = elim (Bool-cases c.running) [
  | inl on ↦
      subst
        (λ (b : Bool). Spared (member q c.backends) q h (if b then check accepts answer c h else h))
        (sym on) (check-Spared accepts answer c h q)
  | inr off ↦
      subst
        (λ (b : Bool). Spared (member q c.backends) q h (if b then check accepts answer c h else h))
        (sym off)
        (Spared-trans false false (member q c.backends) q h h h
          (λ wrong. absurd (ground (arith, wrong))) (Spared-none q h) (Spared-none q h))
]

abbrev AfterReturns : List Event → Checker → Heap → ℕ → Bool → Type 0
AfterReturns es c h q over =
    Spared (member q c.backends || given q es) q h
      (events es (if over then record c { running = false } else c, h)).1

events-Spared :
    (es : List Event) (c : Checker) (h : Heap) (q : ℕ)
    → Spared (member q c.backends || given q es) q h (events es (c, h)).1
unfolding events happen update stop_checker
events-Spared [] c h q =
    Spared-trans false false _ q h h h (λ wrong. absurd (ground (arith, wrong))) (Spared-none q h)
      (Spared-none q h)
events-Spared (ticks accepts answer ∷ es) c h q =
    let h' = if c.running then check accepts answer c h else h in
    Spared-trans (member q c.backends) (member q c.backends || given q es) _ q h h'
      (events es (c, h')).1 (λ e. ground (arith, e)) (tick-Spared accepts answer c h q)
      (events-Spared es c h' q)
events-Spared (returns ∷ es) c h q = elim (Bool-cases c.cancelled) [
  | inl over ↦
      subst (λ (b : Bool). AfterReturns es c h q b) (sym over)
        (events-Spared es (record c { running = false }) h q)
  | inr on ↦ subst (λ (b : Bool). AfterReturns es c h q b) (sym on) (events-Spared es c h q)
]
events-Spared (stops ∷ es) c h q = events-Spared es (record c { cancelled = true }) h q
events-Spared (updates bs ∷ es) c h q =
    Spared-trans false (member q bs || given q es) _ q h h
      (events es (record c { backends = bs }, h)).1 (λ e. ground (arith, e)) (Spared-none q h)
      (events-Spared es (record c { backends = bs }) h q)

-- A goroutine that has returned writes nothing more.
events-returned :
    (es : List Event) (c : Checker) (h : Heap) → c.running ≡ false → (events es (c, h)).1 ≡ h
unfolding events happen update stop_checker
events-returned [] c h off = refl
events-returned (ticks accepts answer ∷ es) c h off =
    ap (λ (b : Bool). (events es (c, if b then check accepts answer c h else h)).1) off
    ∙ events-returned es c h off
events-returned (returns ∷ es) c h off = elim (Bool-cases c.cancelled) [
  | inl over ↦
      ap (λ (b : Bool). (events es (if b then record c { running = false } else c, h)).1) over
      ∙ events-returned es (record c { running = false }) h refl
  | inr on ↦
      ap (λ (b : Bool). (events es (if b then record c { running = false } else c, h)).1) on
      ∙ events-returned es c h off
]
events-returned (stops ∷ es) c h off = events-returned es (record c { cancelled = true }) h off
events-returned (updates bs ∷ es) c h off = events-returned es (record c { backends = bs }) h off

events-append :
    (es es' : List Event) (x : Checker × Heap) → events (es ++ es') x ≡ events es' (events es x)
unfolding events
events-append [] es' x = refl
events-append (e ∷ es) es' x = events-append es es' (happen e x)

events-stopped :
    (es : List Event) (c : Checker) (h : Heap) → (events (stops ∷ returns ∷ es) (c, h)).1 ≡ h
unfolding events happen stop_checker
events-stopped es c h = events-returned es (record c { cancelled = true; running = false }) h refl

-- Whatever the ticker and the calls of Update and Stop do, a checker never changes a URL or a count
-- of requests in flight, and it writes the alive flag of no backend but those that it was made with
-- or that an Update has brought. Once it has been stopped and its goroutine has returned, it
-- changes nothing at all.
pub run-Spared :
    (bs : List ℕ) (accepts : Text → Bool) (answer : Text → Response) (es es' : List Event)
    (h : Heap) (q : ℕ)
    → Spared (member q bs || given q es) q h (run bs accepts answer es h).1
      × ((run bs accepts answer (es ++ stops ∷ returns ∷ es') h).1 ≡ (run bs accepts answer es h).1)
unfolding run
run-Spared bs accepts answer es es' h q =
    let c : Checker = record { backends = bs; cancelled = false; running = true } in
    let h' = check accepts answer c h in
    (
      Spared-trans (member q bs) (member q bs || given q es) _ q h h' (events es (c, h')).1
          (λ e. ground (arith, e)) (check-Spared accepts answer c h q) (events-Spared es c h' q),
      ap (λ (x : Checker × Heap). x.1) (events-append es (stops ∷ returns ∷ es') (c, h'))
          ∙ events-stopped es' (events es (c, h')).0 (events es (c, h')).1,
    )
