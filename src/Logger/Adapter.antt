-- ===== src/Logger/Adapter.antt =====
-- pkg/logger/broker_adapter.go: the logger as the broker library takes one.
use hyperfleet_sentinel.Base.{String, Option}
use hyperfleet_sentinel.Logger.{Context, HyperFleetLogger}
use hyperfleet_sentinel.Logger.Entry.{Printer}
use hyperfleet_sentinel.Logger.Output
use hyperfleet_sentinel.Logger.Output.{Effect, Moment}

pub record BrokerLoggerAdapter : Type 0 where
  pub log : HyperFleetLogger

unfoldable pub new_broker_logger_adapter : HyperFleetLogger → BrokerLoggerAdapter
new_broker_logger_adapter log = record { log = log }

module _ (printer : Printer) where
  unfoldable pub debug : BrokerLoggerAdapter → Moment → Option Context → String → Effect
  debug a = Output.debug printer a.log

  unfoldable pub info : BrokerLoggerAdapter → Moment → Option Context → String → Effect
  info a = Output.info printer a.log

  unfoldable pub warn : BrokerLoggerAdapter → Moment → Option Context → String → Effect
  warn a = Output.warn printer a.log

  unfoldable pub error : BrokerLoggerAdapter → Moment → Option Context → String → Effect
  error a = Output.error printer a.log
