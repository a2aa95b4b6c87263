-- ===== src/Watcher/Examples.antt =====
-- A file that is saved twice in quick succession, and then once more before anybody receives.
use gateway_pro.Prelude.{
  pos, Text, codes, String, ◌≡◌, refl, true, false, Option, none, some, List, [], ◌∷◌,
}
use gateway_pro.Config.{Config}
use gateway_pro.Validate.{
  validate, validate_routes, finish, missing_key, default_server, default_admin, default_tracing,
  text_or, int_or,
}
use gateway_pro.Watcher.{
  Watcher, new_watcher, notice, send, close, give_up, receive, check, load, reload_file,
}
use gateway_pro.Watcher.Events.{
  Event, notices, fires, returns, closes, receives, Log, nothing_yet, happen, watch,
}
use gateway_pro.Watcher.Delivery.{Inv, watch-Inv_new}

-- Parses to a configuration without routes whose log level is the text.
abbrev parse : Text → Option Config
parse t = some (record {
  server = record {
    addr = codes ":80";
    read_timeout_seconds = pos 5;
    write_timeout_seconds = pos 5;
  };
  admin = record { addr = codes ":90" };
  routes = [];
  logging = record { level = t; format = [] };
  auth = record { enabled = false; jwks_url = []; public_key_path = []; skip_paths = [] };
  tracing = record { enabled = false; exporter = []; service_name = [] };
})

abbrev same_text : Text → Text
same_text t = t

abbrev config_at : String → Config
config_at level = record {
  server = record {
    addr = codes ":80";
    read_timeout_seconds = pos 5;
    write_timeout_seconds = pos 5;
  };
  admin = record { addr = codes ":90" };
  routes = [];
  logging = record { level = codes level; format = [] };
  auth = record { enabled = false; jwks_url = []; public_key_path = []; skip_paths = [] };
  tracing = record { enabled = false; exporter = []; service_name = [] };
}

abbrev story : List Event
story =
    notices true 0
    ∷ notices true 5
    ∷ fires 200000005 (some (codes "info"))
    ∷ notices true 300000000
    ∷ fires 500000000 (some (codes "debug"))
    ∷ receives
    ∷ closes
    ∷ returns
    ∷ []

-- The second configuration finds the channel full and is dropped.
abbrev after_story : Watcher
after_story = record { debounce = none; updates = none; done = true; running = false }

abbrev story_log : Log
story_log = record {
  loads = config_at "info" ∷ config_at "debug" ∷ [];
  received = config_at "info" ∷ [];
  writes = 3;
  firings = 2;
}

story_watched : watch same_text parse story new_watcher nothing_yet ≡ some (after_story, story_log)
unfolding watch happen new_watcher notice send close give_up receive check load reload_file validate
    validate_routes finish missing_key default_server default_admin default_tracing text_or int_or
story_watched = refl

watch-Inv_new_example : Inv story_log after_story
watch-Inv_new_example = watch-Inv_new same_text parse story after_story story_log story_watched
