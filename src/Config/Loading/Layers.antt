-- ===== src/Config/Loading/Layers.antt =====
-- What each layer of viper holds when the configuration is unmarshalled.
use hyperfleet_sentinel.Base.{
  String, ◌≡◌, refl, sym, ap, ◌∙◌, Option, none, some, [], ◌∷◌, Dict, ok, ◌==◌, if◌then◌else◌,
  ◌+++◌, Environment, arith, >>=-eq-ok, map_err-eq-ok_iff, ok_inj,
}
use hyperfleet_sentinel.Config.Loading.{
  Viper, FlagSet, env_prefix, viper_key_mappings, cli_flags, changed_value, config_path, bind_all,
  set_changed, set_flags, merged,
}
use hyperfleet_sentinel.Config.Loading.Settings.{
  key_of, flag_of, variable_of, or_else, by_precedence, variable_value, Setting, sentinel_name,
  resource_type, log_level, log_format, log_output, IsViper,
}

-- The last entry for a key, of flags and of variables.
last_set : Option FlagSet → Dict String → String → Option String → Option String
last_set flags [] key o = o
last_set flags ((flag_name, path) ∷ names) key o =
    last_set flags names key (if path == key then or_else (changed_value flags flag_name) o else o)

last_bound : Dict String → String → Option String → Option String
last_bound [] key o = o
last_bound ((path, env_suffix) ∷ mappings) key o =
    last_bound mappings key (if path == key then some (env_prefix +++ "_" +++ env_suffix) else o)

module _ {viper : Viper} {getenv : Environment} (laws : IsViper viper getenv) where
  open viper use {State}
  open laws use {override, variable, file}

  -- A state with what each layer holds for a key.
  abbrev pub Layers : State → String → Option String → Option String → Option String → Type 0
  Layers s key o v f = (override s key ≡ o) × (variable s key ≡ v) × (file s key ≡ f)

  set_changed-Layers :
      (s : State) (path key : String) (value : Option String)
      → Layers
          (set_changed viper s path value)
          key
          (if path == key then or_else value (override s key) else override s key)
          (variable s key)
          (file s key)
  set_changed-Layers s path key none = (ground arith, refl, refl)
  set_changed-Layers s path key (some value) = (
    laws.override_set s path value key,
    laws.variable_set s path value key,
    laws.file_set s path value key,
  )

  set_flags-Layers :
      (flags : Option FlagSet) (s : State) (names : Dict String) (key : String)
      → Layers
          (set_flags viper flags s names)
          key
          (last_set flags names key (override s key))
          (variable s key)
          (file s key)
  unfolding set_flags last_set
  set_flags-Layers flags s [] key = (refl, refl, refl)
  set_flags-Layers flags s ((flag_name, path) ∷ names) key =
      let value = changed_value flags flag_name in
      let (set_o, set_v, set_f) = set_changed-Layers s path key value in
      let (o, v, f) = set_flags-Layers flags (set_changed viper s path value) names key in
      (o ∙ ap (last_set flags names key) set_o, v ∙ set_v, f ∙ set_f)

  bind_all-Layers :
      (s t : State) (mappings : Dict String) (key : String)
      → bind_all viper s mappings ≡ ok t
      → Layers t key (override s key) (last_bound mappings key (variable s key)) (file s key)
  unfolding bind_all last_bound
  bind_all-Layers s t [] key h = let same = ok_inj h in rw (sym same) (refl, refl, refl)
  bind_all-Layers s t ((path, env_suffix) ∷ mappings) key h =
      let (bound, bind, rest) = >>=-eq-ok _ (λ r. bind_all viper r mappings) h in
      let binds = (map_err-eq-ok_iff _ _ bound).0 bind in
      let (o, v, f) = bind_all-Layers bound t mappings key rest in
      (
        o ∙ laws.override_bind key binds,
        v ∙ ap (last_bound mappings key) (laws.variable_bind key binds),
        f ∙ laws.file_bind key binds,
      )

  or_else-none : (o : Option String) → or_else o none ≡ o
  or_else-none none = refl
  or_else-none (some s) = refl

  -- The maps of flags and of variables hold each setting.
  last_set-cli_flags :
      (flags : Option FlagSet) (x : Setting)
      → last_set flags cli_flags (key_of x) none ≡ changed_value flags (flag_of x)
  unfolding last_set
  last_set-cli_flags flags sentinel_name = or_else-none _
  last_set-cli_flags flags resource_type = or_else-none _
  last_set-cli_flags flags log_level = or_else-none _
  last_set-cli_flags flags log_format = or_else-none _
  last_set-cli_flags flags log_output = or_else-none _

  last_bound-viper_key_mappings :
      (x : Setting) (o : Option String)
      → last_bound viper_key_mappings (key_of x) o ≡ some (variable_of x)
  unfolding last_bound
  last_bound-viper_key_mappings sentinel_name o = refl
  last_bound-viper_key_mappings resource_type o = refl
  last_bound-viper_key_mappings log_level o = refl
  last_bound-viper_key_mappings log_format o = refl
  last_bound-viper_key_mappings log_output o = refl

  pub merged-Layers :
      (config_file : String) (flags : Option FlagSet) (t : State)
      → merged viper getenv config_file flags ≡ ok t
      → (s : State) × (viper.read_in_config (config_path getenv config_file) ≡ ok s)
        × ((x : Setting)
            → Layers t
                (key_of x)
                (changed_value flags (flag_of x))
                (some (variable_of x))
                (file s (key_of x)))
  unfolding merged
  merged-Layers config_file flags t h =
      let (s, read, rest) = >>=-eq-ok _ _ h in
      let (bound, bind, last) = >>=-eq-ok (bind_all viper s viper_key_mappings) _ rest in
      let is_read = (map_err-eq-ok_iff _ _ s).0 read in
      (
        s,
        is_read,
        λ x.
            let (bind_o, bind_v, bind_f) =
              bind_all-Layers s bound viper_key_mappings (key_of x) bind in
            let (o, v, f) = set_flags-Layers flags bound cli_flags (key_of x) in
            let none_set = bind_o ∙ laws.override_read (key_of x) is_read in
            rw (sym (ok_inj last)) (
              o ∙ ap (last_set flags cli_flags (key_of x)) none_set ∙ last_set-cli_flags flags x,
              v ∙ bind_v ∙ last_bound-viper_key_mappings x (variable s (key_of x)),
              f ∙ bind_f,
            ),
      )

  pub by_precedence-Layers :
      (x : Setting) {t : State} {o v f : Option String} (base : String)
      → Layers t (key_of x) o v f
      → by_precedence
          (override t (key_of x))
          (variable_value getenv (variable t (key_of x)))
          (file t (key_of x))
          base
        ≡ by_precedence o (variable_value getenv v) f base
  by_precedence-Layers x base (o, v, f) = rw (o, v, f) refl
