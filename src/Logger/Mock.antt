-- ===== src/Logger/Mock.antt =====
-- pkg/logger/logger.go: `MockLoggerWithContext`, which captures what is logged.
use hyperfleet_sentinel.Base.{
  String, ◌≡◌, refl, Bool, true, false, not, ◌&&◌, Option, none, some, List, [], ◌∷◌, ◌++◌, Value,
  ◌+++◌, ℤ,
}
use hyperfleet_sentinel.Logger.{Context, HyperFleetLogger, active, noop}
use hyperfleet_sentinel.Logger.Entry.{Printer}
use hyperfleet_sentinel.Logger.Output.{Moment, Effect, debug, info, warn, error, fatal, log_at}
use hyperfleet_sentinel.Logger.{stderr}
use hyperfleet_sentinel.Logger.Methods.{
  Sprintf, debugf, infof, warnf, errorf, fatalf, Call, debug_call, info_call, warn_call, error_call,
  fatal_call, debugf_call, infof_call, warnf_call, errorf_call, fatalf_call, invoke,
}

-- A nil pointer is none, and so is a nil context.
pub record MockLogger : Type 0 where
  pub captured_logs : Option (List String)
  pub captured_contexts : Option (List (Option Context))

unfoldable pub new_mock_logger : MockLogger
new_mock_logger = record { captured_logs = some []; captured_contexts = some [] }

abbrev or_nil {ℓ} : {A : Type ℓ} → Option (List A) → List A
or_nil none = []
or_nil (some xs) = xs

unfoldable pub capture : MockLogger → Option Context → String → MockLogger
capture m ctx msg = record {
  captured_logs = some (or_nil m.captured_logs ++ msg ∷ []);
  captured_contexts = some (or_nil m.captured_contexts ++ ctx ∷ []);
}

abbrev silent : Effect
silent = record { writes = []; exits = false }

abbrev fatal_write : String → Bool → Effect
fatal_write message exits = record {
  writes = record { writer = stderr; output = "FATAL: " +++ message +++ "\n" } ∷ [];
  exits = exits;
}

module _ (sprintf : Sprintf) where
  abbrev message_of : Call → String
  message_of (debug_call message) = message
  message_of (info_call message) = message
  message_of (warn_call message) = message
  message_of (error_call message) = message
  message_of (fatal_call message) = message
  message_of (debugf_call format args) = sprintf format args
  message_of (infof_call format args) = sprintf format args
  message_of (warnf_call format args) = sprintf format args
  message_of (errorf_call format args) = sprintf format args
  message_of (fatalf_call format args) = sprintf format args

  -- `Fatalf` returns, unlike `Fatal`.
  unfoldable pub mock_invoke : MockLogger → Option Context → Call → MockLogger × Effect
  mock_invoke m ctx (fatal_call message) = (capture m ctx message, fatal_write message true)
  mock_invoke m ctx (fatalf_call format args) =
      (capture m ctx (sprintf format args), fatal_write (sprintf format args) false)
  mock_invoke m ctx c = (capture m ctx (message_of c), silent)

-- `V` and `Extra` answer the mock itself.
unfoldable pub mock_v : MockLogger → ℤ → MockLogger
mock_v m level = m

unfoldable pub mock_extra : MockLogger → String → Value → MockLogger
mock_extra m key value = m

abbrev pub is_fatalf : Call → Bool
is_fatalf (fatalf_call format args) = true
is_fatalf _ = false

abbrev pub Captures : Sprintf → MockLogger → Option Context → Call → MockLogger → Type 0
Captures sprintf m ctx c m' =
    (or_nil m'.captured_logs ≡ or_nil m.captured_logs ++ message_of sprintf c ∷ [])
    × (or_nil m'.captured_contexts ≡ or_nil m.captured_contexts ++ ctx ∷ [])

module _ (printer : Printer) (sprintf : Sprintf) where
  -- Whatever method is called, at whatever level, the mock captures the message, formatted if the
  -- method takes a format, and the context, after those of the calls before; and it exits the
  -- process where a logger does, but that it returns from Fatalf.
  pub mock_invoke-invoke :
      (m : MockLogger) (l : HyperFleetLogger) (now : Moment) (ctx : Option Context) (c : Call)
      → Captures sprintf m ctx c (mock_invoke sprintf m ctx c).0
        × ((mock_invoke sprintf m ctx c).1.exits
            ≡ (invoke printer sprintf l now ctx c).exits && not (is_fatalf c))
  unfolding mock_invoke capture invoke debug info warn error fatal log_at debugf infof warnf errorf
      fatalf
  mock_invoke-invoke m (active l) now ctx (debug_call message) = ((refl, refl), refl)
  mock_invoke-invoke m (active l) now ctx (info_call message) = ((refl, refl), refl)
  mock_invoke-invoke m (active l) now ctx (warn_call message) = ((refl, refl), refl)
  mock_invoke-invoke m (active l) now ctx (error_call message) = ((refl, refl), refl)
  mock_invoke-invoke m (active l) now ctx (fatal_call message) = ((refl, refl), refl)
  mock_invoke-invoke m (active l) now ctx (debugf_call format args) = ((refl, refl), refl)
  mock_invoke-invoke m (active l) now ctx (infof_call format args) = ((refl, refl), refl)
  mock_invoke-invoke m (active l) now ctx (warnf_call format args) = ((refl, refl), refl)
  mock_invoke-invoke m (active l) now ctx (errorf_call format args) = ((refl, refl), refl)
  mock_invoke-invoke m (active l) now ctx (fatalf_call format args) = ((refl, refl), refl)
  mock_invoke-invoke m noop now ctx (debug_call message) = ((refl, refl), refl)
  mock_invoke-invoke m noop now ctx (info_call message) = ((refl, refl), refl)
  mock_invoke-invoke m noop now ctx (warn_call message) = ((refl, refl), refl)
  mock_invoke-invoke m noop now ctx (error_call message) = ((refl, refl), refl)
  mock_invoke-invoke m noop now ctx (fatal_call message) = ((refl, refl), refl)
  mock_invoke-invoke m noop now ctx (debugf_call format args) = ((refl, refl), refl)
  mock_invoke-invoke m noop now ctx (infof_call format args) = ((refl, refl), refl)
  mock_invoke-invoke m noop now ctx (warnf_call format args) = ((refl, refl), refl)
  mock_invoke-invoke m noop now ctx (errorf_call format args) = ((refl, refl), refl)
  mock_invoke-invoke m noop now ctx (fatalf_call format args) = ((refl, refl), refl)
