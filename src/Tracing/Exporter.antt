-- ===== src/Tracing/Exporter.antt =====
-- spanExporter of tracing.go: the goroutine that collects spans into batches for the collector.
pub mod Events
pub mod Delivery
pub mod Shutdown
mod Examples
use gateway_pro.Prelude.{
  ltb, leb, if◌then◌else◌, length, ℕ, Bool, true, false, Option, none, some, List, [], ◌∷◌, ◌++◌,
}

-- `channel` is the buffered channel `ch`; `batch` and `running` are loop's slice and whether it has
-- not returned yet. `sent` are the batches that were handed to `send`, in their order: what the
-- collector makes of them is not seen here.
pub record Exporter {ℓ} (Span : Type ℓ) : Type ℓ where
  pub channel : List Span
  pub closed : Bool
  pub batch : List Span
  pub sent : List (List Span)
  pub running : Bool

abbrev pub capacity : ℕ
capacity = 2048

abbrev pub batch_size : ℕ
batch_size = 100

-- What becomes of a call of `record`. A send on a closed channel panics, also in a select.
pub data Offer {ℓ} (Span : Type ℓ) : Type ℓ where
  accepted : Exporter Span → Offer Span
  dropped panics : Offer Span

-- The two cases of loop's select.
pub data Case : Type 0 where
  from_channel from_ticker : Case

module _ {ℓ} {Span : Type ℓ} where
  -- newSpanExporter
  pub new_span_exporter : Exporter Span
  new_span_exporter = record { channel = []; closed = false; batch = []; sent = []; running = true }

  -- spanExporter.record
  pub record_span : Span → Exporter Span → Offer Span
  record_span s e =
      if e.closed
      then panics
      else if ltb (length e.channel) capacity
      then accepted (record e { channel = e.channel ++ s ∷ [] })
      else dropped

  -- `e.send(batch)` and `batch = batch[:0]`
  pub flush : Exporter Span → Exporter Span
  flush e = record e { batch = []; sent = e.sent ++ e.batch ∷ [] }

  -- `if len(batch) > 0`
  pub flush_some : Exporter Span → Exporter Span
  unfolding flush
  flush_some e = if ltb 0 (length e.batch) then flush e else e

  -- A span that comes out of the channel.
  pub collect : Span → Exporter Span → Exporter Span
  unfolding flush
  collect s e =
      let e' = record e { batch = e.batch ++ s ∷ [] } in
      if leb batch_size (length e'.batch) then flush e' else e'

  -- `case s, ok := <-e.ch`: the body for a span, the return from a closed and empty channel, and
  -- waiting at an empty one.
  pub receive_from : List Span → Exporter Span → Exporter Span
  unfolding collect flush_some
  receive_from [] e = if e.closed then record (flush_some e) { running = false } else e
  receive_from (s ∷ rest) e = collect s (record e { channel = rest })

  -- One round of loop by either case, once it has returned none.
  pub receive : Exporter Span → Exporter Span
  unfolding receive_from
  receive e = if e.running then receive_from e.channel e else e

  pub tick : Exporter Span → Exporter Span
  unfolding flush_some
  tick e = if e.running then flush_some e else e

  -- `close(e.ch)` of Stop. To close it twice panics.
  pub close : Exporter Span → Option (Exporter Span)
  close e = if e.closed then none else some (record e { closed = true })

  -- A round of loop, by the case that select takes.
  pub round : Case → Exporter Span → Exporter Span
  unfolding receive tick
  round from_channel e = receive e
  round from_ticker e = tick e

  pub loop : List Case → Exporter Span → Exporter Span
  unfolding round
  loop [] e = e
  loop (c ∷ cs) e = loop cs (round c e)

  -- Stop, while loop goes through the rounds `cs`: `none` is a panic, or that `e.wg.Wait()` still
  -- waits after them.
  pub stop : List Case → Exporter Span → Option (Exporter Span)
  unfolding close loop
  stop cs e = elim (close e) [
    | none ↦ none
    | some e' ↦ let e'' = loop cs e' in if e''.running then none else some e''
  ]
