-- ===== src/Watcher/Events.antt =====
-- What can happen to a watcher, and what it has delivered after that.
use gateway_pro.Prelude.{
  leb, if◌then◌else◌, Text, ℕ, suc, Bool, ◌&&◌, Option, none, some, List, [], ◌∷◌, ◌++◌,
}
use gateway_pro.Config.{Config}
use gateway_pro.Watcher.{
  Loaded, loaded, read_failed, parse_failed, invalid, Watcher, notice, give_up, close, receive,
  load, reload_file,
}

-- What happens: an event of fsnotify or the firing of the debounce channel, each with its time, the
-- return of the goroutine, Close, and a receive from Updates().
pub data Event : Type 0 where
  notices : Bool → ℕ → Event
  fires : ℕ → Option Text → Event
  returns closes receives : Event

-- The configurations that load returned and those that were received, in order, and how many events
-- have armed the debounce channel and how often it has fired.
pub record Log : Type 0 where
  pub loads : List Config
  pub received : List Config
  pub writes : ℕ
  pub firings : ℕ

abbrev pub nothing_yet : Log
nothing_yet = record { loads = []; received = []; writes = 0; firings = 0 }

abbrev pub configs : Loaded → List Config
configs (loaded cfg) = cfg ∷ []
configs read_failed = []
configs parse_failed = []
configs (invalid e) = []

abbrev pub waiting : Option Config → List Config
waiting none = []
waiting (some cfg) = cfg ∷ []

abbrev pub armed : Option ℕ → ℕ
armed none = 0
armed (some t) = 1

module _ (expand_env : Text → Text) (unmarshal : Text → Option Config) where
  -- An event that can happen: the goroutine still runs, the debounce channel is due, `done` is
  -- closed, or a configuration waits.
  unfoldable pub happen : Event → Watcher → Log → Option (Watcher × Log)
  unfolding notice load reload_file give_up close receive
  happen (notices writes now) w log =
      if w.running
      then some (
        notice writes now w,
        record log { writes = if writes then suc log.writes else log.writes },
      )
      else none
  happen (fires now file) w log = elim w.debounce [
    | none ↦ none
    | some t ↦
        if w.running && leb t now
        then some (
          reload_file expand_env unmarshal file w,
          record log {
            loads = log.loads ++ configs (load expand_env unmarshal file);
            firings = suc log.firings;
          },
        )
        else none
  ]
  happen returns w log = if w.running && w.done then some (give_up w, log) else none
  happen closes w log = some (close w, log)
  happen receives w log =
      let (cfg, w') = receive w in
      elim cfg [
        | none ↦ none
        | some c ↦ some (w', record log { received = log.received ++ c ∷ [] })
      ]

  unfoldable pub watch : List Event → Watcher → Log → Option (Watcher × Log)
  unfolding happen
  watch [] w log = some (w, log)
  watch (e ∷ es) w log = elim (happen e w log) [ none ↦ none | some (w', log') ↦ watch es w' log' ]
