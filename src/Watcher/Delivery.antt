-- ===== src/Watcher/Delivery.antt =====
-- Which configurations a watcher delivers, whatever happens to it and in whatever order.
use gateway_pro.Prelude.{
  leb, if◌then◌else◌, Bool-cases, Option-cases, All, All-append, Text, ℕ, suc, ◌+◌, ◌≤◌, ◌≡◌, refl,
  sym, subst, ◌⊎◌, inl, inr, Bool, true, false, ◌&&◌, Option, none, some, List, [], ◌∷◌, ◌++◌,
  arith,
}
use mathlib.Core.List.{append-nil, Sublistᴰ}
use mathlib.Core.List.Sublistᴰ
use gateway_pro.Config.{Config}
use gateway_pro.Validate.{Invalid, validate}
use gateway_pro.Validate.Settled.{Settled, validate-Settled, Result-cases}
use gateway_pro.Watcher.{
  Loaded, loaded, read_failed, parse_failed, invalid, Watcher, new_watcher, notice, send, give_up,
  close, check, load, reload_file,
}
use gateway_pro.Watcher.Events.{
  Event, notices, fires, returns, closes, receives, Log, nothing_yet, configs, waiting, armed,
  happen, watch,
}

-- `log` is what has happened to the watcher `w`.
pub record Inv (log : Log) (w : Watcher) : Type 0 where
  pub order : Sublistᴰ (log.received ++ waiting w.updates) log.loads
  pub settled : All Settled log.loads
  pub burst : log.firings + armed w.debounce ≤ log.writes
  pub stopped : (w.running ≡ true) ⊎ (w.done ≡ true)

pub Loaded-cases :
    (l : Loaded)
    → ((cfg : Config) × (l ≡ loaded cfg))
      ⊎ ((l ≡ read_failed) ⊎ ((l ≡ parse_failed) ⊎ ((e : Invalid) × (l ≡ invalid e))))
Loaded-cases (loaded cfg) = inl (cfg, refl)
Loaded-cases read_failed = inr (inl refl)
Loaded-cases parse_failed = inr (inr (inl refl))
Loaded-cases (invalid e) = inr (inr (inr (e, refl)))

longer_log : (xs loads new : List Config) → Sublistᴰ xs loads → Sublistᴰ xs (loads ++ new)
longer_log xs loads new s =
    subst (λ ys. Sublistᴰ ys (loads ++ new)) (append-nil xs)
      (Sublistᴰ.append s (Sublistᴰ.nil-sublist new))

send-order :
    (cfg : Config) (received loads : List Config) (w : Watcher)
    → Sublistᴰ (received ++ waiting w.updates) loads
    → Sublistᴰ (received ++ waiting (send cfg w).updates) (loads ++ cfg ∷ [])
unfolding send
send-order cfg received loads w s = elim (Option-cases w.updates) [
  | inl free ↦
      let empty : Sublistᴰ received loads =
        subst (λ xs. Sublistᴰ xs loads) (append-nil received) (rw free at s) in
      rw (send, free) (Sublistᴰ.append empty (Sublistᴰ.refl (cfg ∷ [])))
  | inr (c, taken) ↦
      let same : (send cfg w).updates ≡ w.updates = rw (send, taken) taken in
      subst (λ u. Sublistᴰ (received ++ waiting u) (loads ++ cfg ∷ [])) (sym same)
        (longer_log (received ++ waiting w.updates) loads (cfg ∷ []) s)
]

module _ (expand_env : Text → Text) (unmarshal : Text → Option Config) where
  pub load-Settled :
      (file : Option Text) (cfg : Config)
      → load expand_env unmarshal file ≡ loaded cfg
      → Settled cfg
  unfolding load check
  load-Settled none cfg e = absurd (ground arith)
  load-Settled (some data') cfg e = elim (Option-cases (unmarshal (expand_env data'))) [
    | inl bad ↦ absurd (ground arith)
    | inr (c, parsed) ↦ elim (Result-cases (validate c)) [
      | inl (why, bad) ↦ absurd (ground arith)
      | inr (c', good) ↦
          let same : c' ≡ cfg = ground arith in subst Settled same (validate-Settled c c' good).0
    ]
  ]

  loads-Settled : (file : Option Text) → All Settled (configs (load expand_env unmarshal file))
  loads-Settled file = elim (Loaded-cases (load expand_env unmarshal file)) [
    | inl (cfg, e) ↦ rw e (load-Settled file cfg e, tt)
    | inr (inl e) ↦ rw e tt
    | inr (inr (inl e)) ↦ rw e tt
    | inr (inr (inr (why, e))) ↦ rw e tt
  ]

  -- The debounce channel's case, as what it does to each field.
  reload_file-cases :
      (file : Option Text) (w : Watcher)
      → ((cfg : Config) × (load expand_env unmarshal file ≡ loaded cfg)
          × (reload_file expand_env unmarshal file w ≡ send cfg (record w { debounce = none })))
        ⊎ ((configs (load expand_env unmarshal file) ≡ [])
            × (reload_file expand_env unmarshal file w ≡ record w { debounce = none }))
  unfolding reload_file
  reload_file-cases file w = elim (Loaded-cases (load expand_env unmarshal file)) [
    | inl (cfg, e) ↦ inl (cfg, e, rw (reload_file, e) refl)
    | inr (inl e) ↦ inr (rw e refl, rw (reload_file, e) refl)
    | inr (inr (inl e)) ↦ inr (rw e refl, rw (reload_file, e) refl)
    | inr (inr (inr (why, e))) ↦ inr (rw e refl, rw (reload_file, e) refl)
  ]

  send-rest :
      (cfg : Config) (w : Watcher)
      → ((send cfg w).debounce ≡ w.debounce)
        × ((send cfg w).running ≡ w.running)
        × ((send cfg w).done ≡ w.done)
  unfolding send
  send-rest cfg w = elim (Option-cases w.updates) [
    | inl free ↦ rw (send, free) (refl, refl, refl)
    | inr (c, taken) ↦ rw (send, taken) (refl, refl, refl)
  ]

  reload_file-Inv :
      (file : Option Text) (t : ℕ) (w : Watcher) (log : Log)
      → w.debounce ≡ some t
      → Inv log w
      → Inv
          (record log {
            loads = log.loads ++ configs (load expand_env unmarshal file);
            firings = suc log.firings;
          })
          (reload_file expand_env unmarshal file w)
  reload_file-Inv file t w log due v =
      let small : suc log.firings ≤ log.writes =
        omega (arith, subst (λ d. log.firings + armed d ≤ log.writes) due v.burst) in
      let w' = record w { debounce = none } in
      elim (reload_file-cases file w) [
        | inl (cfg, got, sent) ↦
            let (later, runs, over) = send-rest cfg w' in
            rw (got, sent)
              (record {
                order = send-order cfg log.received log.loads w' v.order;
                settled =
                    All-append Settled log.loads (cfg ∷ []) v.settled
                      (load-Settled file cfg got, tt);
                burst = rw later (omega (arith, small));
                stopped = rw (runs, over) v.stopped;
              })
        | inr (none', kept) ↦
            rw (none', kept, append-nil)
              (record {
                order = v.order;
                settled = v.settled;
                burst = omega (arith, small);
                stopped = v.stopped;
              })
      ]

  notice-Inv :
      (writes : Bool) (now : ℕ) (w : Watcher) (log : Log)
      → Inv log w
      → Inv
          (record log { writes = if writes then suc log.writes else log.writes })
          (notice writes now w)
  unfolding notice
  notice-Inv true now w log v = record {
    order = v.order;
    settled = v.settled;
    burst = omega (arith, v.burst);
    stopped = v.stopped;
  }
  notice-Inv false now w log v = record {
    order = v.order;
    settled = v.settled;
    burst = v.burst;
    stopped = v.stopped;
  }

  happen-Inv :
      (e : Event) (w w' : Watcher) (log log' : Log)
      → happen expand_env unmarshal e w log ≡ some (w', log')
      → Inv log w
      → Inv log' w'
  unfolding happen
  happen-Inv (notices writes now) w w' log log' h v = elim (Bool-cases w.running) [
    | inr off ↦ absurd (ground arith)
    | inl on ↦
        let log'' = record log { writes = if writes then suc log.writes else log.writes } in
        let same : notice writes now w ≡ w' = ground arith in
        let logged : log'' ≡ log' = ground arith in
        subst (λ l. Inv l w') logged (subst (Inv log'') same (notice-Inv writes now w log v))
  ]
  happen-Inv (fires now file) w w' log log' h v = elim (Option-cases w.debounce) [
    | inl idle ↦ absurd (ground arith)
    | inr (t, due) ↦ elim (Bool-cases (w.running && leb t now)) [
      | inr early ↦ absurd (ground arith)
      | inl ready ↦
          let log'' = record log {
            loads = log.loads ++ configs (load expand_env unmarshal file);
            firings = suc log.firings;
          } in
          let same : reload_file expand_env unmarshal file w ≡ w' = ground arith in
          let logged : log'' ≡ log' = ground arith in
          subst (λ l. Inv l w') logged (subst (Inv log'') same (reload_file-Inv file t w log due v))
    ]
  ]
  happen-Inv returns w w' log log' h v = elim (Bool-cases (w.running && w.done)) [
    | inr open' ↦ absurd (ground arith)
    | inl shut ↦
        let same : give_up w ≡ w' = ground arith in
        let logged : log ≡ log' = ground arith in
        let over : w.done ≡ true = ground arith in
        subst (λ l. Inv l w') logged
          (subst (Inv log) same (
            unfold give_up in
            record { order = v.order; settled = v.settled; burst = v.burst; stopped = inr over }))
  ]
  happen-Inv closes w w' log log' h v =
      let same : close w ≡ w' = ground arith in
      let logged : log ≡ log' = ground arith in
      subst (λ l. Inv l w') logged
        (subst (Inv log) same (
          unfold close in
          record { order = v.order; settled = v.settled; burst = v.burst; stopped = inr refl }))
  happen-Inv receives w w' log log' h v = elim (Option-cases w.updates) [
    | inl nothing ↦ absurd (ground arith)
    | inr (c, there) ↦
        let log'' = record log { received = log.received ++ c ∷ [] } in
        let same : record w { updates = none } ≡ w' = ground arith in
        let logged : log'' ≡ log' = ground arith in
        subst (λ l. Inv l w') logged
          (subst (Inv log'') same (record {
            order =
                subst (λ xs. Sublistᴰ xs log.loads) (sym (append-nil (log.received ++ c ∷ [])))
                  (subst (λ u. Sublistᴰ (log.received ++ waiting u) log.loads) there v.order);
            settled = v.settled;
            burst = v.burst;
            stopped = v.stopped;
          }))
  ]

  watch-Inv :
      (es : List Event) (w w' : Watcher) (log log' : Log)
      → watch expand_env unmarshal es w log ≡ some (w', log')
      → Inv log w
      → Inv log' w'
  unfolding watch
  watch-Inv [] w w' log log' h v =
      let same : w ≡ w' = ground arith in
      let all : log ≡ log' = ground arith in subst (Inv log') same (subst (λ l. Inv l w) all v)
  watch-Inv (e ∷ es) w w' log log' h v = elim (Option-cases (happen expand_env unmarshal e w log)) [
    | inl blocked ↦ absurd (ground arith)
    | inr ((w'', log''), step) ↦
        watch-Inv es w'' w' log'' log' (ground arith) (happen-Inv e w w'' log log'' step v)
  ]

  -- Whatever happens to a new watcher, in whatever order: the configurations that were received, and
  -- the one that waits, are some of those that load returned, in their order; each of them has passed
  -- validate and has its guarantees; the file is loaded at most once for each event that has armed
  -- the debounce channel; and the goroutine only returns after Close.
  pub watch-Inv_new :
      (es : List Event) (w : Watcher) (log : Log)
      → watch expand_env unmarshal es new_watcher nothing_yet ≡ some (w, log)
      → Inv log w
  unfolding new_watcher
  watch-Inv_new es w log h =
      watch-Inv es new_watcher w nothing_yet log h
        (record { order = Sublistᴰ.slnil; settled = tt; burst = omega arith; stopped = inl refl })
