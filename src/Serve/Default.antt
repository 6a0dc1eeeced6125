-- ===== src/Serve/Default.antt =====
-- The sentinel that `serve` makes of a configuration that sets no message decision.
use hyperfleet_sentinel.Base.{
  String, map_err, ◌+++◌, object, ◌≡◌, refl, sym, ap, ◌∙◌, Option, none, some, [], ok, Host,
  Environment, >>=-eq-ok, ok_inj, Option-cases, inl, inr,
}
use hyperfleet_sentinel.Cel.{Cel}
use hyperfleet_sentinel.Config.{SentinelConfig, new_sentinel_config, default_message_decision}
use hyperfleet_sentinel.Config.Loading.{Viper, FlagSet, load_config, merged, with_default}
use hyperfleet_sentinel.Config.Loading.Laws.{loaded_parts}
use hyperfleet_sentinel.Engine.{DecisionEngine, new_decision_engine}
use hyperfleet_sentinel.Engine.Creation.{new_decision_engine-eq-ok_iff}
use hyperfleet_sentinel.Payload.{new_builder}
use hyperfleet_sentinel.Payload.Tree.{Nodes}
use hyperfleet_sentinel.Sentinel.{Sentinel, new_sentinel}

module _ (host : Host) (cel : Cel) where
  -- A sentinel before its first cycle.
  abbrev fresh : SentinelConfig → DecisionEngine cel → Option (Nodes cel.Program) → Sentinel cel
  fresh cfg e builder = record {
    last_successful_poll = 0;
    config = cfg;
    decision_engine = e;
    payload_builder = builder;
  }

  new_sentinel-fresh :
      (cfg : SentinelConfig) (e : DecisionEngine cel) (s : Sentinel cel)
      → new_sentinel host cel cfg e ≡ ok s
      → (builder : Option (Nodes cel.Program)) × (fresh cfg e builder ≡ s)
  unfolding new_sentinel
  new_sentinel-fresh cfg e s h = elim (Option-cases cfg.message_data) [
    | inl absent ↦ (
      none,
      ap (λ d. fresh (record cfg { message_data = d }) e none) absent ∙ ok_inj (rw absent at h),
    )
    | inr (data_map, given) ↦
        (let (builder, built, same) =
            >>=-eq-ok
              (map_err (λ x. "failed to create payload builder: " +++ x)
                (new_builder host cel (object data_map)))
              (λ b. ok (fresh (record cfg { message_data = some data_map }) e (some b)))
              (rw given at h) in
          (
            some builder,
            ap (λ d. fresh (record cfg { message_data = d }) e (some builder)) given ∙ ok_inj same,
          ))
  ]

  -- The conditions of a new engine are empty.
  new_decision_engine-fresh :
      (e : DecisionEngine cel)
      → new_decision_engine host cel (some default_message_decision) ≡ ok e
      → e ≡ record e { conditions_lookup = [] }
  new_decision_engine-fresh e h =
      let (cfg, _, created) =
        (new_decision_engine-eq-ok_iff host cel (some default_message_decision) e).0 h in
      ap (λ x. record e { conditions_lookup = x }) created.no_conditions

  -- When LoadConfig returns a configuration, and what it unmarshals, the file with the variables
  -- and the flags merged into it, sets no message decision: a sentinel that is made of this
  -- configuration and the engine of its message decision has this configuration, has not polled,
  -- and has the engine that is created from the default message decision.
  pub new_sentinel-default :
      (viper : Viper) (getenv : Environment) (config_file : String) (flags : Option FlagSet)
      (t : viper.State) (raw cfg : SentinelConfig) (e : DecisionEngine cel) (s : Sentinel cel)
      → merged viper getenv config_file flags ≡ ok t
      → viper.unmarshal_exact t new_sentinel_config ≡ ok raw
      → raw.message_decision ≡ none
      → load_config viper host getenv config_file flags ≡ ok cfg
      → new_decision_engine host cel cfg.message_decision ≡ ok e
      → new_sentinel host cel cfg e ≡ ok s
      → (s.config ≡ cfg)
        × (s.last_successful_poll ≡ 0)
        × (new_decision_engine host cel (some default_message_decision)
            ≡ ok (record s.decision_engine { conditions_lookup = [] }))
  new_sentinel-default viper getenv config_file flags t raw cfg e s merges decodes unset loaded made
        built =
      let (t', merges', raw', decodes', _, same) =
        loaded_parts viper host getenv config_file flags cfg loaded in
      let same_state : t' ≡ t = ok_inj (sym merges' ∙ merges) in
      let same_raw : raw' ≡ raw = ok_inj (
        sym decodes'
        ∙ ap (λ x. viper.unmarshal_exact x new_sentinel_config) same_state
        ∙ decodes) in
      let is_default : cfg.message_decision ≡ some default_message_decision =
        ap (λ (c : SentinelConfig). c.message_decision) (sym same)
        ∙ ap (λ o. some (with_default o))
            (ap (λ (c : SentinelConfig). c.message_decision) same_raw ∙ unset) in
      let created : new_decision_engine host cel (some default_message_decision) ≡ ok e =
        ap (new_decision_engine host cel) (sym is_default) ∙ made in
      let (builder, same') = new_sentinel-fresh cfg e s built in
      rw (sym same') (refl, refl, created ∙ ap ok (new_decision_engine-fresh e created))
