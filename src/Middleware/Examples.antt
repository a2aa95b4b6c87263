-- ===== src/Middleware/Examples.antt =====
-- A handler within the wrapper of NewTracingMiddleware, with rates in tenths.
use gateway_pro.Prelude.{ltb, leb, pos, codes, ℕ, ◌+◌, ◌≡◌, refl, true, false, none, some, [], ◌∷◌}
use gateway_pro.Http.{Request}
use gateway_pro.Tracing.Exporter.{new_span_exporter}
use gateway_pro.Tracing.{new_trace_store}
use gateway_pro.Middleware.{Handler, Writer, Observed, Arrival, write_header}
use gateway_pro.Middleware.Export.{
  Formats, TracingConfig, Collecting, new_tracing_middleware, skips,
}

abbrev tenths : Formats ℕ
tenths = record {
  less = ltb;
  less_eq = leb;
  zero_rate = 0;
  one_rate = 10;
  decimal = λ n. codes "200";
}

abbrev cfg : TracingConfig ℕ
cfg = record {
  enabled = true;
  collector_url = codes "http://c";
  service_name = codes "gateway-pro";
  sample_rate = 4;
}

abbrev first : Collecting
first = record { store = new_trace_store (pos 100); exporter = new_span_exporter }

made : new_tracing_middleware tenths cfg ≡ some (cfg, first)
unfolding new_tracing_middleware
made = refl

abbrev next : Handler ℕ
next r w o s = record { writer = write_header 200 w; observed = o; state = s + 1; panicked = false }

abbrev request : Request
request = record {
  method = codes "GET";
  path = codes "/api";
  host = codes "gateway";
  remote_addr = codes "10.0.0.1:4711";
  tls = false;
  header = ("User-Agent", codes "curl") ∷ [];
}

abbrev arrival : Arrival
arrival = record {
  fresh_id = codes "1";
  fresh_trace = codes "2";
  fresh_span = codes "3";
  start = 5000;
  duration = 4000;
}

abbrev writer : Writer
writer = record { header = []; written = none }

abbrev observed : Observed
observed = record { traces = none; samples = []; lines = [] }

sampling : (skips tenths cfg 3 ≡ false) × (skips tenths cfg 5 ≡ true)
unfolding skips
sampling = (refl, refl)
