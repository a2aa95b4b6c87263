-- ===== src/Watcher.antt =====
-- internal/config/config.go: load, and LoadAndWatch with the goroutine that it starts.
pub mod Events
pub mod Delivery
mod Examples
use gateway_pro.Prelude.{if◌then◌else◌, Text, ℕ, ◌+◌, Bool, true, false, Option, none, some}
use gateway_pro.Config.{Config}
use gateway_pro.Validate.{Invalid, ok, error, validate}

-- What load returns.
pub data Loaded : Type 0 where
  loaded : Config → Loaded
  read_failed parse_failed : Loaded
  invalid : Invalid → Loaded

-- `debounce` is the time at which the channel of that name fires, if there is one; `updates` has one
-- place. `done` is closed by Close; `running` is whether the goroutine has not returned.
pub record Watcher : Type 0 where
  pub debounce : Option ℕ
  pub updates : Option Config
  pub done : Bool
  pub running : Bool

unfoldable pub new_watcher : Watcher
new_watcher = record { debounce = none; updates = none; done = false; running = true }

-- 200 milliseconds
abbrev pub debounce_delay : ℕ
debounce_delay = 200000000

-- The case of an event at time `now`: whether it has fsnotify.Write or fsnotify.Create.
unfoldable pub notice : Bool → ℕ → Watcher → Watcher
notice writes now w = if writes then record w { debounce = some (now + debounce_delay) } else w

-- The non-blocking send.
unfoldable pub send : Config → Watcher → Watcher
send cfg w = elim w.updates [ none ↦ record w { updates = some cfg } | some waiting ↦ w ]

-- `<-w.done`, and the channels of fsnotify that are closed.
pub give_up : Watcher → Watcher
give_up w = record w { running = false }

-- Close
pub close : Watcher → Watcher
close w = record w { done = true }

-- A receive from Updates().
unfoldable pub receive : Watcher → Option Config × Watcher
receive w = (w.updates, record w { updates = none })

-- `os.ExpandEnv` and `yaml.Unmarshal`.
module _ (expand_env : Text → Text) (unmarshal : Text → Option Config) where
  -- load, after the file has been parsed.
  unfoldable pub check : Config → Loaded
  check cfg = elim (validate cfg) [ error e ↦ invalid e | ok cfg' ↦ loaded cfg' ]

  -- load, of what os.ReadFile returns.
  unfoldable pub load : Option Text → Loaded
  unfolding check
  load none = read_failed
  load (some data') = elim (unmarshal (expand_env data')) [
    | none ↦ parse_failed
    | some cfg ↦ check cfg
  ]

  -- The case of the debounce channel.
  unfoldable pub reload_file : Option Text → Watcher → Watcher
  unfolding load send
  reload_file file w =
      let w' = record w { debounce = none } in
      elim (load file) [
        | loaded cfg ↦ send cfg w'
        | read_failed ↦ w'
        | parse_failed ↦ w'
        | invalid e ↦ w'
      ]

  -- LoadAndWatch, for a file that fsnotify can watch or not.
  unfoldable pub load_and_watch : Option Text → Bool → Option (Config × Watcher)
  unfolding load new_watcher
  load_and_watch file watches = elim (load file) [
    | loaded cfg ↦ if watches then some (cfg, new_watcher) else none
    | read_failed ↦ none
    | parse_failed ↦ none
    | invalid e ↦ none
  ]
