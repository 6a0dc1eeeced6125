-- ===== src/Logger/Methods.antt =====
-- pkg/logger/logger.go: the methods of `HyperFleetLogger` that take a format, and a call of any
-- method that writes.
use hyperfleet_sentinel.Base.{String, Option, List, Value}
use hyperfleet_sentinel.Logger.{Context, HyperFleetLogger}
use hyperfleet_sentinel.Logger.Entry.{Printer}
use hyperfleet_sentinel.Logger.Output.{Moment, Effect, debug, info, warn, error, fatal}

-- `fmt.Sprintf`
abbrev pub Sprintf : Type 0
Sprintf = String → List Value → String

module _ (printer : Printer) (sprintf : Sprintf) where
  unfoldable pub debugf : HyperFleetLogger → Moment → Option Context → String → List Value → Effect
  debugf l now ctx format args = debug printer l now ctx (sprintf format args)

  unfoldable pub infof : HyperFleetLogger → Moment → Option Context → String → List Value → Effect
  infof l now ctx format args = info printer l now ctx (sprintf format args)

  unfoldable pub warnf : HyperFleetLogger → Moment → Option Context → String → List Value → Effect
  warnf l now ctx format args = warn printer l now ctx (sprintf format args)

  unfoldable pub errorf : HyperFleetLogger → Moment → Option Context → String → List Value → Effect
  errorf l now ctx format args = error printer l now ctx (sprintf format args)

  unfoldable pub fatalf : HyperFleetLogger → Moment → Option Context → String → List Value → Effect
  fatalf l now ctx format args = fatal printer l now ctx (sprintf format args)

-- A call of a method with its message, or with its format and arguments.
pub data Call : Type 0 where
  debug_call info_call warn_call error_call fatal_call : String → Call
  debugf_call infof_call warnf_call errorf_call fatalf_call : String → List Value → Call

module _ (printer : Printer) (sprintf : Sprintf) where
  unfoldable pub invoke : HyperFleetLogger → Moment → Option Context → Call → Effect
  unfolding debugf infof warnf errorf fatalf
  invoke l now ctx (debug_call message) = debug printer l now ctx message
  invoke l now ctx (info_call message) = info printer l now ctx message
  invoke l now ctx (warn_call message) = warn printer l now ctx message
  invoke l now ctx (error_call message) = error printer l now ctx message
  invoke l now ctx (fatal_call message) = fatal printer l now ctx message
  invoke l now ctx (debugf_call format args) = debugf printer sprintf l now ctx format args
  invoke l now ctx (infof_call format args) = infof printer sprintf l now ctx format args
  invoke l now ctx (warnf_call format args) = warnf printer sprintf l now ctx format args
  invoke l now ctx (errorf_call format args) = errorf printer sprintf l now ctx format args
  invoke l now ctx (fatalf_call format args) = fatalf printer sprintf l now ctx format args
