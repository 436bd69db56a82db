-- ===== src/Hmr.antt =====
-- internal/hmr/hmr.go, internal/hmr/watching.go and internal/watching/debounce.go: a file that
-- changes marks components as pending, a timer restarts, and when it fires the components are
-- invalidated and the tabs that show them are told to reload.
pub mod Lifetime
pub mod Pending
pub mod Progress
mod Tests
use go_solid.Prelude.{
  ℕ, suc, zero, Text, text_comparable, nat_comparable, List, [], ◌∷◌, ◌++◌, map, Bool, true, false,
  is_empty, contains, if◌then◌else◌, ◌≡◌,
}
use go_solid.Collections.SetMap.{SetMap, add, remove, members_of}

-- What others see: a call of `invalidate`, or a "reload" written to a connection.
pub data Effect : Type 0 where
  invalidated : Text → Effect
  reloaded : Text → ℕ → Effect

-- The Debouncer: whether its timer runs, the timers that have expired and whose `fire` waits for
-- the lock, the calls of fn that `running` counts and that have not drained yet, and `stopped`.
pub record Debouncer : Type 0 where
  pub armed : Bool
  pub expired : ℕ
  pub running : ℕ
  pub stopped : Bool

-- The Hub and the Watcher. `arming` counts the calls of enqueue between their unlock and Arm;
-- `calls` holds, for each call of the callback that has drained, the names left to its loop.
pub record Watcher : Type 0 where
  pub pending : List Text
  pub arming : ℕ
  pub calls : List (List Text)
  pub debounce : Debouncer
  pub conns : SetMap Text ℕ
  pub log : List Effect

-- Arm
unfoldable pub arm : Debouncer → Debouncer
arm d = if d.stopped then d else record d { armed = true }

-- fire, up to the call of fn
unfoldable pub fire : Debouncer → Debouncer
fire d = if d.stopped then d else record d { running = suc d.running }

-- Stop, up to the wait
unfoldable pub stop : Debouncer → Debouncer
stop d = record d { stopped = true; armed = false }

-- The writes to w.pending in enqueue: a set, as a list without repetition
unfoldable pub mark : List Text → List Text → List Text
mark [] pending = pending
mark (name ∷ names) pending = mark names (if contains name pending then pending else name ∷ pending)

-- enqueue, up to its call of Arm
unfoldable pub enqueue : List Text → Watcher → Watcher
unfolding mark
enqueue names w =
    if is_empty names then w else record w { pending = mark names w.pending; arming = suc w.arming }

-- Hub.Reload
unfoldable pub reload : SetMap Text ℕ → Text → List Effect
reload conns component = map (reloaded component) (members_of conns component)

-- The start of the callback that NewWatcher gives to its Debouncer: drain
unfoldable pub drain : Watcher → Watcher
drain w = record w { pending = []; calls = w.pending ∷ w.calls }

-- One turn of the loop of the callback
unfoldable pub notify : Text → Watcher → Watcher
unfolding reload
notify name w = record w { log = w.log ++ invalidated name ∷ reload w.conns name }

-- One step of the threads that share a Watcher: a step is what runs under one lock, and a turn of
-- the callback's loop.
pub data Moves : Watcher → Watcher → Type 0 where
  enqueues : (w : Watcher) (names : List Text) → Moves w (enqueue names w)
  arms :
      (w : Watcher) (n : ℕ)
      → w.arming ≡ suc n
      → Moves w (record w { arming = n; debounce = arm w.debounce })
  expires :
      (w : Watcher)
      → w.debounce.armed ≡ true
      → Moves w (record w {
        debounce = record w.debounce { armed = false; expired = suc w.debounce.expired };
      })
  fires :
      (w : Watcher) (n : ℕ)
      → w.debounce.expired ≡ suc n
      → Moves w (record w { debounce = fire (record w.debounce { expired = n }) })
  drains :
      (w : Watcher) (n : ℕ)
      → w.debounce.running ≡ suc n
      → Moves w (drain (record w { debounce = record w.debounce { running = n } }))
  notifies :
      (w : Watcher) (others more : List (List Text)) (name : Text) (names : List Text)
      → w.calls ≡ others ++ (name ∷ names) ∷ more
      → Moves w (notify name (record w { calls = others ++ names ∷ more }))
  returns :
      (w : Watcher) (others more : List (List Text))
      → w.calls ≡ others ++ [] ∷ more
      → Moves w (record w { calls = others ++ more })
  stops : (w : Watcher) → Moves w (record w { debounce = stop w.debounce })
  connects :
      (w : Watcher) (component : Text) (c : ℕ)
      → Moves w (record w { conns = add w.conns component c })
  disconnects :
      (w : Watcher) (component : Text) (c : ℕ)
      → Moves w (record w { conns = remove w.conns component c })

pub data Reaches : Watcher → Watcher → Type 0 where
  here : (w : Watcher) → Reaches w w
  later : (w w' w'' : Watcher) → Moves w w' → Reaches w' w'' → Reaches w w''

-- NewWatcher and NewHub
abbrev pub new_watcher : Watcher
new_watcher = record {
  pending = [];
  arming = 0;
  calls = [];
  debounce = record { armed = false; expired = 0; running = 0; stopped = false };
  conns = [];
  log = [];
}
