-- ===== src/Tracing/Exporter/Examples.antt =====
-- Concrete runs of the exporter of tracing.go.
use gateway_pro.Prelude.{ℕ, ◌≡◌, refl, true, false, some, List, [], ◌∷◌, arith}
use gateway_pro.Tracing.Exporter.{
  Exporter, from_channel, from_ticker, new_span_exporter, record_span, receive_from, receive, tick,
  round, flush, flush_some, collect, stop,
}
use gateway_pro.Tracing.Exporter.Events.{Event, offers, rounds, happen, run}
use gateway_pro.Tracing.Exporter.Delivery.{concat, Inv, run-Inv_new}
use gateway_pro.Tracing.Exporter.Shutdown.{stop_complete}

-- Two spans are accepted, one is taken into the batch, which the ticker sends.
abbrev story : List (Event ℕ)
story = offers 7 ∷ offers 8 ∷ rounds from_channel ∷ rounds from_ticker ∷ []

abbrev after_story : Exporter ℕ
after_story = record {
  channel = 8 ∷ [];
  closed = false;
  batch = [];
  sent = (7 ∷ []) ∷ [];
  running = true;
}

abbrev accepted_spans : List ℕ
accepted_spans = 7 ∷ 8 ∷ []

story_outcome : run story new_span_exporter [] ≡ some (after_story, accepted_spans)
unfolding run happen new_span_exporter record_span round receive receive_from collect tick
    flush_some flush
story_outcome = refl

run-Inv_new_example : Inv accepted_spans after_story
run-Inv_new_example = run-Inv_new story after_story accepted_spans story_outcome

stop_complete_example :
    (e' : Exporter ℕ) × (stop (from_ticker ∷ from_channel ∷ from_channel ∷ []) after_story
      ≡ some e')
    × (concat e'.sent ≡ accepted_spans)
stop_complete_example =
    stop_complete accepted_spans (from_ticker ∷ from_channel ∷ from_channel ∷ []) after_story
      run-Inv_new_example refl (omega arith)
