-- ===== src/Tracing/Exporter/Delivery.antt =====
-- What the exporter of tracing.go does with the spans that it has accepted.
use gateway_pro.Prelude.{
  ltb, leb, ltb→lt, ltb→le, Bool-cases, Option-cases, length, All, length-append, All-append, ◌+◌,
  ◌≤◌, ◌<◌, ◌≡◌, refl, sym, ap, subst, ◌∙◌, ◌⊎◌, inl, inr, true, false, some, List, [], ◌∷◌, ◌++◌,
  arith, length-eq-zero, if_true, if_false,
}
use mathlib.Core.List.{append-nil, append_assoc}
use gateway_pro.Tracing.Exporter.{
  Exporter, capacity, batch_size, Offer, accepted, dropped, panics, Case, from_channel, from_ticker,
  new_span_exporter, record_span, flush, flush_some, collect, receive_from, receive, tick, round,
  close,
}
use gateway_pro.Tracing.Exporter.Events.{Event, offers, rounds, closes, happen, run}

module _ {ℓ} {Span : Type ℓ} where
  abbrev pub concat : List (List Span) → List Span
  concat [] = []
  concat (xs ∷ xss) = xs ++ concat xss

  -- A batch that was handed over: not empty, and not above the batch size.
  abbrev pub Sized : List Span → Type 0
  Sized b = (0 < length b) × (length b ≤ batch_size)

  -- `log` are the spans that were accepted.
  pub record Inv (log : List Span) (e : Exporter Span) : Type ℓ where
    pub kept : concat e.sent ++ (e.batch ++ e.channel) ≡ log
    pub room : length e.channel ≤ capacity
    pub small : length e.batch < batch_size
    pub sized : All Sized e.sent
    pub ended : e.running ≡ false → (e.closed ≡ true) × (e.batch ≡ []) × (e.channel ≡ [])

  concat-append : (xss yss : List (List Span)) → concat (xss ++ yss) ≡ concat xss ++ concat yss
  concat-append [] yss = refl
  concat-append (xs ∷ xss) yss =
      rw (concat-append xss yss) (sym (append_assoc xs (concat xss) (concat yss)))

  concat-flush :
      (xss : List (List Span)) (b rest : List Span)
      → concat (xss ++ b ∷ []) ++ rest ≡ concat xss ++ (b ++ rest)
  concat-flush xss b rest =
      rw (concat-append xss (b ∷ []), append-nil b) (append_assoc (concat xss) b rest)

  record_span-Inv :
      (s : Span) (e e' : Exporter Span) (log : List Span)
      → record_span s e ≡ accepted e'
      → Inv log e
      → Inv (log ++ s ∷ []) e'
  unfolding record_span
  record_span-Inv s e e' log a v = elim (Bool-cases e.closed) [
    | inl shut ↦ absurd (ground arith)
    | inr open' ↦ elim (Bool-cases (ltb (length e.channel) capacity)) [
      | inr full ↦ absurd (ground arith)
      | inl free ↦
          let same : record e { channel = e.channel ++ s ∷ [] } ≡ e' = ground arith in
          subst (Inv (log ++ s ∷ [])) same (record {
            kept = rw (← v.kept) (simp (append_assoc));
            room = omega (arith, ltb→lt _ _ free, length-append e.channel (s ∷ []));
            small = v.small;
            sized = v.sized;
            ended = λ over. let both = v.ended over in absurd (ground arith);
          })
    ]
  ]

  -- A flush of a batch that is not empty.
  flush-Inv :
      (log : List Span) (e : Exporter Span)
      → concat e.sent ++ (e.batch ++ e.channel) ≡ log
      → length e.channel ≤ capacity
      → Sized e.batch
      → All Sized e.sent
      → e.running ≡ true
      → Inv log (flush e)
  unfolding flush
  flush-Inv log e kept room fits sized on = record {
    kept = concat-flush e.sent e.batch e.channel ∙ kept;
    room = room;
    small = omega arith;
    sized = All-append _ e.sent (e.batch ∷ []) sized (fits, tt);
    ended = λ over. absurd (ground arith);
  }

  collect-Inv :
      (log : List Span) (s : Span) (rest : List Span) (e : Exporter Span)
      → e.channel ≡ s ∷ rest
      → e.running ≡ true
      → Inv log e
      → Inv log (collect s (record e { channel = rest }))
  unfolding collect
  collect-Inv log s rest e at on v =
      let joined : concat e.sent ++ ((e.batch ++ s ∷ []) ++ rest) ≡ log =
        ap (λ xs. concat e.sent ++ xs) (append_assoc e.batch (s ∷ []) rest)
        ∙ ap (λ xs. concat e.sent ++ (e.batch ++ xs)) (sym at)
        ∙ v.kept in
      let less : length rest ≤ capacity = omega (arith, v.room, ap length at) in
      let grown : length (e.batch ++ s ∷ []) ≡ length e.batch + 1 =
        omega (arith, length-append e.batch (s ∷ [])) in
      elim (Bool-cases (leb batch_size (length (e.batch ++ s ∷ [])))) [
        | inl full ↦ rw full (
            flush-Inv log (record e { channel = rest; batch = e.batch ++ s ∷ [] }) joined less
              (omega (arith, grown), omega (arith, grown, v.small)) v.sized on)
        | inr more ↦ rw more (record {
          kept = joined;
          room = less;
          small = ground arith;
          sized = v.sized;
          ended = λ over. absurd (ground arith);
        })
      ]

  flush_some-Inv :
      (log : List Span) (e : Exporter Span)
      → e.running ≡ true
      → Inv log e
      → Inv log (flush_some e) × ((flush_some e).batch ≡ [])
  unfolding flush_some flush
  flush_some-Inv log e on v = elim (Bool-cases (ltb 0 (length e.batch))) [
    | inl some' ↦
        rw some' (
          flush-Inv log e v.kept v.room (ltb→lt _ _ some', omega (arith, v.small)) v.sized on,
          refl,
        )
    | inr none' ↦ rw none' (v, length-eq-zero e.batch (omega (arith, ltb→le _ _ none')))
  ]

  flush_some_keeps :
      (e : Exporter Span)
      → ((flush_some e).closed ≡ e.closed) × ((flush_some e).channel ≡ e.channel)
  unfolding flush_some flush
  flush_some_keeps e = ground arith

  receive_from-Inv :
      (log : List Span) (cs : List Span) (e : Exporter Span)
      → e.channel ≡ cs
      → e.running ≡ true
      → Inv log e
      → Inv log (receive_from cs e)
  unfolding receive_from
  receive_from-Inv log (s ∷ rest) e at on v = collect-Inv log s rest e at on v
  receive_from-Inv log [] e at on v = elim (Bool-cases e.closed) [
    | inr open' ↦ if_false (Inv log) e.closed _ e open' v
    | inl shut ↦
        let (v', idle) = flush_some-Inv log e on v in
        let (same, same') = flush_some_keeps e in
        if_true (Inv log) e.closed (record (flush_some e) { running = false }) e shut
          (record {
            kept = v'.kept;
            room = v'.room;
            small = v'.small;
            sized = v'.sized;
            ended = λ _. (same ∙ shut, idle, same' ∙ at);
          })
  ]

  -- Every round of loop keeps the invariant.
  pub round-Inv : (log : List Span) (c : Case) (e : Exporter Span) → Inv log e → Inv log (round c e)
  unfolding round receive tick
  round-Inv log from_channel e v = elim (Bool-cases e.running) [
    | inl on ↦ if_true (Inv log) e.running _ e on (receive_from-Inv log e.channel e refl on v)
    | inr over ↦ if_false (Inv log) e.running _ e over v
  ]
  round-Inv log from_ticker e v = elim (Bool-cases e.running) [
    | inl on ↦ if_true (Inv log) e.running _ e on (flush_some-Inv log e on v).0
    | inr over ↦ if_false (Inv log) e.running _ e over v
  ]

  pub close-Inv :
      (log : List Span) (e e' : Exporter Span) → close e ≡ some e' → Inv log e → Inv log e'
  unfolding close
  close-Inv log e e' c v = elim (Bool-cases e.closed) [
    | inl shut ↦ absurd (ground arith)
    | inr open' ↦
        let same : record e { closed = true } ≡ e' = ground arith in
        subst (Inv log) same (record {
          kept = v.kept;
          room = v.room;
          small = v.small;
          sized = v.sized;
          ended = λ over. (refl, (v.ended over).1, (v.ended over).2);
        })
  ]

  Offer-cases :
      (o : Offer Span) → ((e : Exporter Span) × (o ≡ accepted e)) ⊎ ((o ≡ dropped) ⊎ (o ≡ panics))
  Offer-cases (accepted e) = inl (e, refl)
  Offer-cases dropped = inr (inl refl)
  Offer-cases panics = inr (inr refl)

  nothing_new :
      (log : List Span) (e : Exporter Span) (new : List Span)
      → [] ≡ new
      → Inv log e
      → Inv (log ++ new) e
  nothing_new log e new nothing v =
      subst (λ xs. Inv (log ++ xs) e) nothing (subst (λ xs. Inv xs e) (sym (append-nil log)) v)

  happen-Inv :
      (log new : List Span) (ev : Event Span) (e e' : Exporter Span)
      → happen ev e ≡ some (e', new)
      → Inv log e
      → Inv (log ++ new) e'
  unfolding happen
  happen-Inv log new (rounds c) e e' h v =
      let same : round c e ≡ e' = ground arith in
      let nothing : [] ≡ new = ground arith in
      nothing_new log e' new nothing (subst (Inv log) same (round-Inv log c e v))
  happen-Inv log new closes e e' h v = elim (Option-cases (close e)) [
    | inl panic ↦ absurd (ground arith)
    | inr (e'', done) ↦
        let same : e'' ≡ e' = ground arith in
        let nothing : [] ≡ new = ground arith in
        nothing_new log e' new nothing (close-Inv log e e' (done ∙ ap some same) v)
  ]
  happen-Inv log new (offers s) e e' h v = elim (Offer-cases (record_span s e)) [
    | inl (e'', took) ↦
        let same : e'' ≡ e' = ground arith in
        let one : s ∷ [] ≡ new = ground arith in
        subst (λ xs. Inv (log ++ xs) e') one
          (record_span-Inv s e e' log (took ∙ ap accepted same) v)
    | inr (inl full) ↦
        let same : e ≡ e' = ground arith in
        let nothing : [] ≡ new = ground arith in
        nothing_new log e' new nothing (subst (Inv log) same v)
    | inr (inr panic) ↦ absurd (ground arith)
  ]

  run-Inv :
      (evs : List (Event Span)) (e e' : Exporter Span) (log log' : List Span)
      → run evs e log ≡ some (e', log')
      → Inv log e
      → Inv log' e'
  unfolding run
  run-Inv [] e e' log log' h v =
      let same : e ≡ e' = ground arith in
      let all : log ≡ log' = ground arith in subst (Inv log') same (subst (λ xs. Inv xs e) all v)
  run-Inv (ev ∷ evs) e e' log log' h v = elim (Option-cases (happen ev e)) [
    | inl panic ↦ absurd (ground arith)
    | inr ((e'', new), step) ↦
        run-Inv evs e'' e' (log ++ new) log' (ground arith) (happen-Inv log new ev e e'' step v)
  ]

  new-Inv : Inv [] new_span_exporter
  unfolding new_span_exporter
  new-Inv = record {
    kept = refl;
    room = omega arith;
    small = omega arith;
    sized = tt;
    ended = λ over. cc;
  }

  -- However calls of `record`, rounds of loop and the closing of the channel follow one another on a
  -- new exporter, short of a panic: the batches that were handed over, the batch in work and the
  -- channel together are exactly the spans that were accepted, in their order, none lost and none
  -- twice; the channel and the batches keep within their bounds, no empty batch is handed over, and
  -- loop has returned only when nothing is left.
  pub run-Inv_new :
      (evs : List (Event Span)) (e : Exporter Span) (log : List Span)
      → run evs new_span_exporter [] ≡ some (e, log)
      → Inv log e
  run-Inv_new evs e log h = run-Inv evs new_span_exporter e [] log h new-Inv
