-- ===== src/Serve/Flags/Laws.antt =====
-- The flags that are declared, those that `LoadConfig` reads, and the environment variables.
use hyperfleet_sentinel.Base.{
  String, ◌≡◌, ◌≢◌, ◌⊎◌, refl, sym, ap, ◌++◌, Bool, true, false, not, ◌&&◌, ◌||◌, Bool-cases, some,
  List, [], ◌∷◌, map, ◌+++◌, ◌==◌, eq_iff, In, inl, inr, All, All-In, arith, lookup,
}
use hyperfleet_sentinel.Config.Loading.{viper_key_mappings, cli_flags, env_prefix}
use hyperfleet_sentinel.Serve.Flags.{
  Command, serve, config_dump, version, flags_of, Declaration, config_override_flags,
}

-- A flag that LoadConfig reads, into a key that is bound to the variable that the flag's usage
-- names.
abbrev pub IsRead : Declaration → Type 0
IsRead d =
    (key : String) × (suffix : String) × (about : String) × (lookup d.name cli_flags ≡ some key)
    × (lookup key viper_key_mappings ≡ some suffix)
    × (d.usage ≡ about +++ "Env: " +++ env_prefix +++ "_" +++ suffix)

each_IsRead : All IsRead config_override_flags
unfolding lookup
each_IsRead = (
  (_, _, "Log the full merged configuration after load. ", refl, refl, refl),
  (
    (_, _, "Sentinel component name. ", refl, refl, refl),
    (
      (_, _, "Log level: debug, info, warn, error. ", refl, refl, refl),
      (
        (_, _, "Log format: text, json. ", refl, refl, refl),
        (
          (_, _, "Log output: stdout, stderr. ", refl, refl, refl),
          (
            (_, _, "HyperFleet API base URL. ", refl, refl, refl),
            (
              (_, _, "HyperFleet API version. ", refl, refl, refl),
              (
                (_, _, "HyperFleet API timeout (e.g., 10s). ", refl, refl, refl),
                (
                  (_, _, "Broker topic. ", refl, refl, refl),
                  (
                    (_, _, "Resource type to watch (clusters, nodepools). ", refl, refl, refl),
                    (
                      (_, _, "Poll interval (e.g., 5s). ", refl, refl, refl),
                      ((_, _, "Enable OpenTelemetry tracing. ", refl, refl, refl), tt),
                    ),
                  ),
                ),
              ),
            ),
          ),
        ),
      ),
    ),
  ),
)

abbrev elem : String → List String → Bool
elem s [] = false
elem s (t ∷ ts) = (s == t) || elem s ts

-- Two flags that the library takes for one, so that it panics when the second is declared.
abbrev pub Clash : Declaration → Declaration → Type 0
Clash d e = (d.name ≡ e.name) ⊎ ((d.shorthand ≡ e.shorthand) × (d.shorthand ≢ ""))

abbrev clash : Declaration → Declaration → Bool
clash d e = (d.name == e.name) || ((d.shorthand == e.shorthand) && not (d.shorthand == ""))

abbrev clash_with : Declaration → List Declaration → Bool
clash_with d [] = false
clash_with d (e ∷ ds) = clash d e || clash_with d ds

abbrev any_clash : List Declaration → Bool
any_clash [] = false
any_clash (d ∷ ds) = clash_with d ds || any_clash ds

clash-false : (d e : Declaration) → clash d e ≡ false → ¬ Clash d e
clash-false d e h (inl same) = ground (arith, eq_iff d.name e.name)
clash-false d e h (inr (same, given)) =
    ground (arith, eq_iff d.shorthand e.shorthand, eq_iff d.shorthand "")

clash_with-false :
    (d e : Declaration) (middle after : List Declaration)
    → clash_with d (middle ++ e ∷ after) ≡ false
    → clash d e ≡ false
clash_with-false d e [] after h = ground arith
clash_with-false d e (x ∷ middle) after h = clash_with-false d e middle after (ground arith)

any_clash-false :
    (d e : Declaration) (before middle after : List Declaration)
    → any_clash (before ++ d ∷ middle ++ e ∷ after) ≡ false
    → clash d e ≡ false
any_clash-false d e [] middle after h = clash_with-false d e middle after (ground arith)
any_clash-false d e (x ∷ before) middle after h =
    any_clash-false d e before middle after (ground arith)

flags_of-unclashed : (c : Command) → any_clash (flags_of c) ≡ false
flags_of-unclashed serve = refl
flags_of-unclashed config_dump = refl
flags_of-unclashed version = refl

-- No command of the program declares, at two places of its flags, the same name or the same
-- shorthand: the library panics on a flag that is declared twice.
pub flags_of-Clash :
    (c : Command) (d e : Declaration) (before middle after : List Declaration)
    → flags_of c ≡ before ++ d ∷ middle ++ e ∷ after
    → ¬ Clash d e
flags_of-Clash c d e before middle after declared =
    clash-false d e
      (any_clash-false d e before middle after (rw declared at (flags_of-unclashed c)))

find_declared :
    (n : String) (ds : List Declaration)
    → elem n (map (λ d. d.name) ds) ≡ true
    → (d : Declaration) × In d ds × (d.name ≡ n)
find_declared n [] h = cc
find_declared n (d ∷ ds) h = elim (Bool-cases (n == d.name)) [
  | inl same ↦ (d, inl refl, sym ((eq_iff n d.name).0 same))
  | inr other ↦
      (let (e, i, named) = find_declared n ds (ground (arith, h, other)) in (e, inr i, named))
]

all_elem : List String → List String → Bool
all_elem [] ns = true
all_elem (n ∷ names) ns = elem n ns && all_elem names ns

all_elem-In :
    (n : String) (names ns : List String) → all_elem names ns ≡ true → In n names → elem n ns ≡ true
unfolding all_elem
all_elem-In n [] ns h i = absurd i
all_elem-In n (m ∷ names) ns h (inl same) = ground (arith, h, same)
all_elem-In n (m ∷ names) ns h (inr i) = all_elem-In n names ns (ground (arith, h)) i

each_declared : all_elem (map (λ p. p.0) cli_flags) (map (λ d. d.name) config_override_flags) ≡ true
unfolding all_elem
each_declared = refl

-- The flag of the file, and those of `serve` that runServe reads.
abbrev pub IsOwn : Command → Declaration → Type 0
IsOwn c d =
    (d.name ≡ "config")
    ⊎ ((c ≡ serve)
        × ((d.name ≡ "health-server-bindaddress") ⊎ (d.name ≡ "metrics-server-bindaddress")))

flags_of-IsOwn :
    (c : Command) (d : Declaration)
    → c ≢ version
    → In d (flags_of c)
    → IsOwn c d ⊎ In d config_override_flags
flags_of-IsOwn version d loads i = absurd (loads refl)
flags_of-IsOwn config_dump d loads (inl same) = inl (inl (ap (λ (x : Declaration). x.name) same))
flags_of-IsOwn config_dump d loads (inr i) = inr i
flags_of-IsOwn serve d loads (inl same) = inl (inl (ap (λ (x : Declaration). x.name) same))
flags_of-IsOwn serve d loads (inr (inl same)) =
    inl (inr (refl, inl (ap (λ (x : Declaration). x.name) same)))
flags_of-IsOwn serve d loads (inr (inr (inl same))) =
    inl (inr (refl, inr (ap (λ (x : Declaration). x.name) same)))
flags_of-IsOwn serve d loads (inr (inr (inr i))) = inr i

override_flags-In :
    (c : Command) (d : Declaration) → c ≢ version → In d config_override_flags → In d (flags_of c)
override_flags-In version d loads i = absurd (loads refl)
override_flags-In config_dump d loads i = inr i
override_flags-In serve d loads i = inr (inr (inr i))

-- Each flag that serve or config-dump declares is the one of the configuration file, or one of the
-- two bind addresses, which only serve declares, or LoadConfig reads it into a key, and the usage
-- of the flag ends with the environment variable that LoadConfig binds to that key; and both
-- commands declare each flag that LoadConfig reads.
pub flags_of-IsRead :
    (c : Command) (d : Declaration) (name : String)
    → c ≢ version
    → In d (flags_of c)
    → In name (map (λ p. p.0) cli_flags)
    → (IsOwn c d ⊎ IsRead d) × ((f : Declaration) × In f (flags_of c) × (f.name ≡ name))
flags_of-IsRead c d name loads i j =
    let (f, k, named) =
      find_declared name config_override_flags (all_elem-In name _ _ each_declared j) in
    (
      elim (flags_of-IsOwn c d loads i) [
        | inl own ↦ inl own
        | inr k ↦ inr (All-In IsRead d config_override_flags each_IsRead k)
      ],
      (f, override_flags-In c f loads k, named),
    )
