-- ===== src/Tracing/Exporter/Events.antt =====
-- What can happen to an exporter, and which spans it has accepted after that.
use gateway_pro.Prelude.{
  Bool-cases, ltb→lt, ltb→le, ltb, length, ◌<◌, ◌≤◌, ◌≡◌, refl, ◌⊎◌, inl, inr, false, ◌++◌, Option,
  none, some, List, [], ◌∷◌, ◌++◌,
}
use gateway_pro.Tracing.Exporter.{
  Exporter, accepted, dropped, panics, capacity, new_span_exporter, Case, record_span, round, close,
}

-- What happens to an exporter, in the order in which it happens.
pub data Event {ℓ} (Span : Type ℓ) : Type ℓ where
  offers : Span → Event Span
  rounds : Case → Event Span
  closes : Event Span

module _ {ℓ} {Span : Type ℓ} where
  -- An event, and the spans that it makes the exporter accept. `none` is a panic.
  unfoldable pub happen : Event Span → Exporter Span → Option (Exporter Span × List Span)
  unfolding record_span round close
  happen (offers s) e = elim (record_span s e) [
    | accepted e' ↦ some (e', s ∷ [])
    | dropped ↦ some (e, [])
    | panics ↦ none
  ]
  happen (rounds c) e = some (round c e, [])
  happen closes e = elim (close e) [ none ↦ none | some e' ↦ some (e', []) ]

  -- Events after the spans `log` were accepted.
  unfoldable pub run :
      List (Event Span) → Exporter Span → List Span → Option (Exporter Span × List Span)
  unfolding happen
  run [] e log = some (e, log)
  run (ev ∷ evs) e log = elim (happen ev e) [
    | none ↦ none
    | some (e', new) ↦ run evs e' (log ++ new)
  ]

module _ {ℓ} {Span : Type ℓ} where
  -- What `record` does with a span while the exporter has not been stopped.
  abbrev pub Offered : Span → Exporter Span → Type ℓ
  Offered s e =
      ((length e.channel < capacity)
        × (record_span s e ≡ accepted (record e { channel = e.channel ++ s ∷ [] })))
      ⊎ ((capacity ≤ length e.channel) × (record_span s e ≡ dropped))

  pub record_span-Offered : (s : Span) (e : Exporter Span) → e.closed ≡ false → Offered s e
  unfolding record_span
  record_span-Offered s e open_yet = elim (Bool-cases (ltb (length e.channel) capacity)) [
    | inl room ↦ inl (ltb→lt _ _ room, rw (record_span, open_yet, room) refl)
    | inr full ↦ inr (ltb→le _ _ full, rw (record_span, open_yet, full) refl)
  ]

pub new_span_exporter_open {ℓ} : (Span : Type ℓ) → (new_span_exporter {Span = Span}).closed ≡ false
unfolding new_span_exporter
new_span_exporter_open Span = refl
