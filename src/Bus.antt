-- ===== src/Bus.antt =====
-- internal/bus/bus.go. A handler is a value of any type `H`: what it does is not in this package,
-- so `publish` returns the calls that it makes, in their order. The lock makes each operation one
-- step.
pub mod Delivery
use brazier.Base.{Text, Bool, true, false, List, [], ◌∷◌, ◌++◌, if◌then◌else◌, map}

pub data EventType : Type 0 where
  trigger_received job_dispatched job_completed job_failed run_completed : EventType

-- Every payload of the program is an id.
pub record Event : Type 0 where
  pub type : EventType
  pub payload : Text

abbrev pub same_type : EventType → EventType → Bool
same_type trigger_received trigger_received = true
same_type job_dispatched job_dispatched = true
same_type job_completed job_completed = true
same_type job_failed job_failed = true
same_type run_completed run_completed = true
same_type _ _ = false

pub record Bus (H : Type 0) : Type 0 where
  pub handlers : EventType → List H

unfoldable pub new : (H : Type 0) → Bus H
new H = record { handlers = λ t. [] }

module _ {H : Type 0} where
  abbrev add_handler : H → EventType → Bus H → Bus H
  add_handler h t b = record {
    handlers = λ u. if same_type t u then b.handlers u ++ h ∷ [] else b.handlers u;
  }

  unfoldable pub subscribe : H → List EventType → Bus H → Bus H
  subscribe h [] b = b
  subscribe h (t ∷ types) b = subscribe h types (add_handler h t b)

  -- The handlers that are called, each with the event.
  unfoldable pub publish : Event → Bus H → List (H × Event)
  publish e b = map (λ h. (h, e)) (b.handlers e.type)
