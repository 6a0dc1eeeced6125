-- ===== src/Serve/Actions.antt =====
-- A function with deferred calls: its actions so far, and what it has deferred, the last first. When
-- it returns, with an error or a panic too, the deferred actions follow.
use hyperfleet_sentinel.Base.{String, Bool, List, [], ◌∷◌, ◌++◌, Result, ok, err, map_err, Duration}

pub data Action : Type 0 where
  init_tracer shutdown_tracer register_metrics new_publisher close_publisher : Action
  with_cancel cancel_context serve_metrics notify run_sentinel : Action
  add_check : String → Action
  set_ready : Bool → Action
  serve_health : Duration → Action

-- How the function ends otherwise than by returning nil.
pub data Failure : Type 0 where
  returned : String → Failure
  panicked : Failure

pub record Frame : Type 0 where
  pub actions : List Action
  pub deferred : List Action

abbrev pub Go : Type 0 → Type 0
Go A = Frame → Result Failure A × Frame

module _ {A : Type 0} where
  abbrev pub pure : A → Go A
  pure a f = (ok a, f)

  abbrev pub fail : Failure → Go A
  fail e f = (err e, f)

abbrev pub perform : Action → Go (Unit {0})
perform a f = (ok tt, record f { actions = f.actions ++ a ∷ [] })

-- An action, and the one that is deferred once it has succeeded.
abbrev pub acquire : Action → Action → Go (Unit {0})
acquire a close f = (ok tt, record { actions = f.actions ++ a ∷ []; deferred = close ∷ f.deferred })

unfoldable pub lift : {A : Type 0} → (String → String) → Result String A → Go A
lift wrap r f = (map_err (λ e. returned (wrap e)) r, f)

abbrev pub continue_with :
    {A B : Type 0} → Result Failure A → Frame → (A → Go B) → Result Failure B × Frame
continue_with (err e) f k = (err e, f)
continue_with (ok a) f k = k a f

infixl 5 ◌>>=◌ ◌>>◌
unfoldable pub ◌>>=◌ : {A B : Type 0} → Go A → (A → Go B) → Go B
◌>>=◌ m k = λ f. continue_with (m f).0 (m f).1 k

abbrev pub ◌>>◌ : {B : Type 0} → Go (Unit {0}) → Go B → Go B
m >> k = m >>= λ _. k

unfoldable pub run : {A : Type 0} → Go A → Result Failure A × List Action
run m =
    let (result, f) = m (record { actions = []; deferred = [] }) in
    (result, f.actions ++ f.deferred)
