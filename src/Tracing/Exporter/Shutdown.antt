-- ===== src/Tracing/Exporter/Shutdown.antt =====
-- Stop of the exporter of tracing.go: loop returns, and nothing that was accepted stays behind.
use gateway_pro.Prelude.{
  Bool-cases, length, ℕ, suc, ◌+◌, ◌≤◌, ◌<◌, ◌≡◌, refl, sym, ap, ◌∙◌, inl, inr, true, false, some,
  List, [], ◌∷◌, ◌++◌, arith,
}
use mathlib.Core.Path.{ap₂}
use mathlib.Core.List.{append-nil}
use gateway_pro.Tracing.Exporter.{
  Exporter, Case, from_channel, from_ticker, flush, flush_some, collect, receive_from, receive,
  tick, round, loop, close, stop,
}
use gateway_pro.Tracing.Exporter.Delivery.{Inv, concat, round-Inv, close-Inv}

-- How many rounds take what comes from the channel.
abbrev pub receives : List Case → ℕ
receives [] = 0
receives (from_channel ∷ cs) = suc (receives cs)
receives (from_ticker ∷ cs) = receives cs

module _ {ℓ} {Span : Type ℓ} where
  receive_from-closed :
      (xs : List Span) (e : Exporter Span)
      → e.channel ≡ xs
      → e.closed ≡ true
      → ((receive_from xs e).closed ≡ true)
        × ((receive_from xs e).running ≡ true
            → length (receive_from xs e).channel < length e.channel)
  unfolding receive_from flush_some collect flush
  receive_from-closed [] e at shut = ground arith
  receive_from-closed (s ∷ rest) e at shut = ground (arith, ap length at)

  -- On a closed channel a round that receives takes a span away or ends loop, and the ticker's does
  -- neither.
  round-closed :
      (c : Case) (e : Exporter Span)
      → e.closed ≡ true
      → ((round c e).closed ≡ true)
        × ((round c e).running ≡ true
            → (e.running ≡ true)
              × (receives (c ∷ []) + length (round c e).channel ≤ length e.channel))
  unfolding round receive tick flush_some flush
  round-closed from_ticker e shut = ground arith
  round-closed from_channel e shut = elim (Bool-cases e.running) [
    | inr over ↦ ground arith
    | inl on ↦
        let (still, less) = receive_from-closed e.channel e refl shut in ground (arith, still, less)
  ]

  loop_ends :
      (cs : List Case) (e : Exporter Span)
      → e.closed ≡ true
      → (e.running ≡ true → length e.channel < receives cs)
      → (loop cs e).running ≡ false
  unfolding loop
  loop_ends [] e shut enough = elim (Bool-cases e.running) [
    | inl on ↦ absurd (omega (arith, enough on))
    | inr over ↦ over
  ]
  loop_ends (from_channel ∷ cs) e shut enough =
      let (still, less) = round-closed from_channel e shut in
      loop_ends cs (round from_channel e) still
        (λ on. let (was, smaller) = less on in omega (arith, enough was, smaller))
  loop_ends (from_ticker ∷ cs) e shut enough =
      let (still, less) = round-closed from_ticker e shut in
      loop_ends cs (round from_ticker e) still
        (λ on. let (was, smaller) = less on in omega (arith, enough was, smaller))

  loop-Inv :
      (log : List Span) (cs : List Case) (e : Exporter Span) → Inv log e → Inv log (loop cs e)
  unfolding loop
  loop-Inv log [] e v = v
  loop-Inv log (c ∷ cs) e v = loop-Inv log cs (round c e) (round-Inv log c e v)

  close-open : (e : Exporter Span) → e.closed ≡ false → close e ≡ some (record e { closed = true })
  unfolding close
  close-open e open' = rw open' refl

  -- Stop of an exporter that is not closed, while loop goes through any rounds of which more receive
  -- than there are spans in the channel: loop returns, so that Stop does, and the batches that were
  -- handed over are then all the spans that were accepted, in their order.
  pub stop_complete :
      (log : List Span) (cs : List Case) (e : Exporter Span)
      → Inv log e
      → e.closed ≡ false
      → length e.channel < receives cs
      → (e' : Exporter Span) × (stop cs e ≡ some e') × (concat e'.sent ≡ log)
  unfolding stop
  stop_complete log cs e v open' enough =
      let shut = record e { closed = true } in
      let over = loop_ends cs shut refl (λ _. enough) in
      let w = loop-Inv log cs shut (close-Inv log e shut (close-open e open') v) in
      let (c, batch, channel) = w.ended over in
      (
        loop cs shut,
        rw (stop, close-open e open', over) refl,
        sym (append-nil _)
            ∙ ap (λ xs. concat (loop cs shut).sent ++ xs) (sym (ap₂ ◌++◌ batch channel))
            ∙ w.kept,
      )
