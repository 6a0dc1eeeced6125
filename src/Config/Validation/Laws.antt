-- ===== src/Config/Validation/Laws.antt =====
-- The configurations that `SentinelConfig.Validate` accepts.
use hyperfleet_sentinel.Base.{
  String, ◌≡◌, ◌≢◌, ◌↔◌, ◌⊎◌, refl, Bool, true, false, not, Option, none, some, Result, ok, arith,
  ◌==◌, eq_iff, Host, Fields, map_err-eq-ok_iff, ◌>>◌, >>-eq-ok_iff, inl, inr, err≢ok, some_inj,
  ◌+++◌,
}
use hyperfleet_sentinel.Config.{
  SentinelConfig, MessageDecisionConfig, HyperFleetApiConfig, contains,
}
use hyperfleet_sentinel.Config.Decision.{validate_decision, validate_decision-eq-ok_iff}
use hyperfleet_sentinel.Config.Leaves.{
  validate_message_data_leaves, validate_message_data_leaves-eq-ok_iff,
}
use hyperfleet_sentinel.Config.Validation.{
  reject_if, validate_api, validate_message_decision, validate_message_data, validate,
  valid_resource_types, IsValid,
}

reject_if-eq-ok_iff : (b : Bool) (e : String) → (reject_if b e ≡ ok tt) ↔ (b ≡ false)
reject_if-eq-ok_iff true e = (λ h. absurd (err≢ok h), λ h. cc)
reject_if-eq-ok_iff false e = (λ _. refl, λ _. refl)

eq-empty_iff : (s : String) → ((s == "") ≡ false) ↔ (s ≢ "")
eq-empty_iff s = (λ h e. cc ((eq_iff s "").1 e), λ h. ground (arith, eq_iff s ""))

contains-types_iff :
    (s : String)
    → (not (contains valid_resource_types s) ≡ false) ↔ ((s ≡ "clusters") ⊎ (s ≡ "nodepools"))
unfolding contains
contains-types_iff s = (
  λ h. ground (arith, eq_iff "clusters" s, eq_iff "nodepools" s),
  λ h. ground (arith, eq_iff "clusters" s, eq_iff "nodepools" s),
)

not-empty-type : (s : String) → (s ≡ "clusters") ⊎ (s ≡ "nodepools") → (s == "") ≡ false
not-empty-type s (inl e) = rw e refl
not-empty-type s (inr e) = rw e refl

not-eq-false_iff : (b : Bool) → (not b ≡ false) ↔ (b ≡ true)
not-eq-false_iff true = (λ _. refl, λ _. refl)
not-eq-false_iff false = (λ h. cc, λ h. cc)

join_ok : {m n : Result String (Unit {0})} → m ≡ ok tt → n ≡ ok tt → (m >> n) ≡ ok tt
join_ok p q = (>>-eq-ok_iff _ _).1 (p, q)

module _ (host : Host) where
  validate_api-eq-ok_iff :
      (o : Option HyperFleetApiConfig)
      → (validate_api host o ≡ ok tt)
        ↔ ((api : HyperFleetApiConfig) × (o ≡ some api) × (api.base_url ≢ ""))
  unfolding validate_api
  validate_api-eq-ok_iff none = (λ h. absurd (err≢ok h), λ h. cc (h.1))
  validate_api-eq-ok_iff (some api) =
      let r = reject_if-eq-ok_iff (api.base_url == "") _ in
      let e = eq-empty_iff api.base_url in
      (λ h. (api, refl, e.0 (r.0 h)), λ h. r.1 (e.1 (rw (some_inj h.1) h.2)))

  validate_message_decision-eq-ok_iff :
      (o : Option MessageDecisionConfig)
      → (validate_message_decision host o ≡ ok tt)
        ↔ ((md : MessageDecisionConfig) × (o ≡ some md) × (validate_decision host md ≡ ok tt))
  unfolding validate_message_decision
  validate_message_decision-eq-ok_iff none = (λ h. absurd (err≢ok h), λ h. cc (h.1))
  validate_message_decision-eq-ok_iff (some md) =
      let r = map_err-eq-ok_iff (λ e. "message_decision: " +++ e) (validate_decision host md) tt in
      (λ h. (md, refl, r.0 h), λ h. r.1 (rw (some_inj h.1) h.2))

  validate_message_data-eq-ok_iff :
      (o : Option Fields)
      → (validate_message_data host o ≡ ok tt)
        ↔ ((md : Fields) × (o ≡ some md) × (validate_message_data_leaves md "message_data" ≡ ok tt))
  unfolding validate_message_data
  validate_message_data-eq-ok_iff none = (λ h. absurd (err≢ok h), λ h. cc (h.1))
  validate_message_data-eq-ok_iff (some md) = (λ h. (md, refl, h), λ h. rw (some_inj h.1) h.2)

  validate-IsValid : (c : SentinelConfig) → validate host c ≡ ok tt → IsValid c
  unfolding validate
  validate-IsValid c h =
      let (named, h1) = (>>-eq-ok_iff _ _).0 h in
      let (_, h2) = (>>-eq-ok_iff _ _).0 h1 in
      let (typed, h3) = (>>-eq-ok_iff _ _).0 h2 in
      let (with_api, h4) = (>>-eq-ok_iff _ _).0 h3 in
      let (polls, h5) = (>>-eq-ok_iff _ _).0 h4 in
      let (decides, leaves) = (>>-eq-ok_iff _ _).0 h5 in
      let (api, has_api, has_url) = (validate_api-eq-ok_iff c.clients.hyperfleet_api).0 with_api in
      let (md, has_decision, decided) =
        (validate_message_decision-eq-ok_iff c.message_decision).0 decides in
      let (fields, has_data, given) = (validate_message_data-eq-ok_iff c.message_data).0 leaves in
      record {
        named = (eq-empty_iff c.sentinel.name).0 ((reject_if-eq-ok_iff _ _).0 named);
        typed = (contains-types_iff c.resource_type).0 ((reject_if-eq-ok_iff _ _).0 typed);
        api = api;
        has_api = has_api;
        has_url = has_url;
        polls = (not-eq-false_iff _).0 ((reject_if-eq-ok_iff _ _).0 polls);
        decision = md;
        has_decision = has_decision;
        decides = (validate_decision-eq-ok_iff host md).0 decided;
        message_data = fields;
        has_data = has_data;
        leaves = (validate_message_data_leaves-eq-ok_iff fields "message_data").0 given;
      }

  IsValid-validate : (c : SentinelConfig) → IsValid c → validate host c ≡ ok tt
  unfolding validate
  IsValid-validate c v =
      join_ok ((reject_if-eq-ok_iff _ _).1 ((eq-empty_iff c.sentinel.name).1 v.named)) (
        join_ok ((reject_if-eq-ok_iff _ _).1 (not-empty-type c.resource_type v.typed)) (
          join_ok ((reject_if-eq-ok_iff _ _).1 ((contains-types_iff c.resource_type).1 v.typed)) (
            join_ok
              ((validate_api-eq-ok_iff c.clients.hyperfleet_api).1 (v.api, v.has_api, v.has_url))
              (join_ok ((reject_if-eq-ok_iff _ _).1 ((not-eq-false_iff _).1 v.polls)) (
                join_ok
                  ((validate_message_decision-eq-ok_iff c.message_decision).1 (
                    v.decision,
                    v.has_decision,
                    (validate_decision-eq-ok_iff host v.decision).1 v.decides,
                  ))
                  ((validate_message_data-eq-ok_iff c.message_data).1 (
                    v.message_data,
                    v.has_data,
                    (validate_message_data_leaves-eq-ok_iff v.message_data "message_data").1
                        v.leaves,
                  )))))))

  -- A configuration is accepted exactly when it is valid: it has a name, one of the two resource
  -- types, an API with a base URL, a positive poll interval, a well-formed message decision, and
  -- message data in which no value, at any depth of nested maps, is nil or the empty text.
  pub validate-eq-ok_iff : (c : SentinelConfig) → (validate host c ≡ ok tt) ↔ IsValid c
  validate-eq-ok_iff c = (validate-IsValid c, IsValid-validate c)
