-- ===== src/Networking/HandlerMap.antt =====
-- shared/networking/handlermap.go and handlerMode.go: chains of handlers, filed under types. S is
-- what handlers may change: a handler takes an event and S, and gives an outcome and S.
pub mod Dispatch
pub mod Filing
pub mod Narrowing
use go_solid.Prelude.{
  length, keys, ℕ, Text, Option, none, some, List, [], ◌∷◌, ◌++◌, Bool, true, false, ◌&&◌, ◌==◌,
  leb, GoMap, keys, map, lookup, insert, delete, length, is_some, if◌then◌else◌,
}
use go_solid.Networking.Events.{
  EventType, RType, rtype_eq, rtype_comparable, plain, Event, is_interface, implements,
  dynamic_ancestry,
}

-- HandlerNarrowingDefect caught at dispatch: the type that the handler requires, and the event's.
pub record Defect : Type 0 where
  pub requires : RType
  pub received : RType

-- What a handler returns (nil or an error), or panics with.
pub data Outcome : Type 0 where
  ok : Outcome
  err : Text → Outcome
  panic : Defect → Outcome

pub data HandlerMode : Type 0 where
  invalid replace prefix postfix : HandlerMode
  unknown : ℕ → HandlerMode

-- Why AddType panics.
pub data Misuse : Type 0 where
  nil_map nil_type nil_handler : Misuse
  bad_mode : HandlerMode → Misuse

pub data Registered (M : Type 0) : Type 0 where
  done : M → Registered M
  panics : Misuse → Registered M

-- NarrowableTo, and Go's `event.(T)`. A pointer to a type has the methods of the type.
unfoldable pub narrowable_to : RType → RType → Bool
narrowable_to dynamic want =
    if (want.pointers == 0) && is_interface want.base
    then leb dynamic.pointers 1 && implements dynamic.base want.base
    else rtype_eq dynamic want

module _ (S : Type 0) where
  abbrev pub Handler : Type 0
  Handler = Event → S → Outcome × S

  -- A nil handler is none.
  abbrev pub Chain : Type 0
  Chain = List (Option Handler)

  abbrev pub HandlerMap : Type 0
  HandlerMap = GoMap RType Chain

module _ {S : Type 0} where
  -- Go on after a handler only if it returned nil.
  abbrev pub after : Outcome × S → (S → Outcome × S) → Outcome × S
  after (ok, s) next = next s
  after (err e, s) next = (err e, s)
  after (panic d, s) next = (panic d, s)

  -- Chain.Run
  unfoldable pub run : Chain S → Event → S → Outcome × S
  run [] event s = (ok, s)
  run (none ∷ chain) event s = run chain event s
  run (some handler ∷ chain) event s = after (handler event s) (run chain event)

  -- m.internal[key], the nil chain where it is missing
  unfoldable pub chain_at : HandlerMap S → RType → Chain S
  chain_at m key = elim (lookup key m) [ none ↦ [] | some chain ↦ chain ]

  unfoldable pub put_handler :
      HandlerMap S → RType → Handler S → HandlerMode → Registered (HandlerMap S)
  unfolding chain_at
  put_handler m key h replace = done (insert key (some h ∷ []) m)
  put_handler m key h prefix = done (insert key (some h ∷ chain_at m key) m)
  put_handler m key h postfix = done (insert key (chain_at m key ++ some h ∷ []) m)
  put_handler m key h mode = panics (bad_mode mode)

  -- AddType, where none is a nil receiver, type or handler
  unfoldable pub add_type :
      Option (HandlerMap S)
      → Option RType
      → Option (Handler S)
      → HandlerMode
      → Registered (HandlerMap S)
  unfolding put_handler
  add_type none key handler mode = panics nil_map
  add_type (some m) none handler mode = panics nil_type
  add_type (some m) (some key) none mode = panics nil_handler
  add_type (some m) (some key) (some h) mode = put_handler m key h mode

  -- The wrapper of Add[T], which narrows the event before it calls the handler.
  unfoldable pub narrowing : RType → Handler S → Handler S
  unfolding narrowable_to
  narrowing key handler event s =
      if narrowable_to event.dynamic key
      then handler event s
      else (panic (record { requires = key; received = event.dynamic }), s)

  -- Add[T], for a handler that is not nil
  unfoldable pub add :
      Option (HandlerMap S) → RType → Handler S → HandlerMode → Registered (HandlerMap S)
  unfolding add_type narrowing
  add m key handler mode = add_type m (some key) (some (narrowing key handler)) mode

  -- Get
  unfoldable pub get : HandlerMap S → RType → Option (Chain S)
  get m key = lookup key m

  -- Set
  unfoldable pub set_chain : HandlerMap S → RType → Chain S → HandlerMap S
  set_chain m key chain = insert key chain m

  -- Has
  unfoldable pub has : HandlerMap S → RType → Bool
  has m key = is_some (lookup key m)

  -- Delete
  unfoldable pub remove : HandlerMap S → RType → HandlerMap S × Bool
  remove m key = if is_some (lookup key m) then (delete key m, true) else (m, false)

  -- Len, Types and Clear, where none is a nil receiver.
  unfoldable pub len : Option (HandlerMap S) → ℕ
  len none = 0
  len (some m) = length (keys m)

  unfoldable pub types : Option (HandlerMap S) → List RType
  types none = []
  types (some m) = keys m

  unfoldable pub clear : Option (HandlerMap S) → Option (HandlerMap S)
  clear none = none
  clear (some m) = some []

  -- The loop of Dispatch
  unfoldable pub dispatch_along : HandlerMap S → List EventType → Event → S → Outcome × S
  unfolding run chain_at
  dispatch_along m [] event s = (ok, s)
  dispatch_along m (t ∷ ts) event s =
      after (run (chain_at m (plain t)) event s) (dispatch_along m ts event)

  -- Dispatch
  unfoldable pub dispatch : HandlerMap S → Event → S → Outcome × S
  unfolding dispatch_along
  dispatch m event = dispatch_along m (dynamic_ancestry event) event
