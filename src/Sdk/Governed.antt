-- ===== src/Sdk/Governed.antt =====
-- Which configurations are loaded, and what the policy that is made of one allows
-- (config/load-config.js, validate-lifetime.js and merge-policy.js).
use frontend_observability.Base.{
  ℕ, ◌+◌, ◌≤◌, ◌<◌, String, Bool, true, false, not, ◌&&◌, ◌||◌, and-eq-true_iff, Option, none, some,
  ◌≡◌, refl, sym, ap, subst, ltb, ◌==◌, in_either, arith,
}
use frontend_observability.Base.Json.{Value, Num, bool, num, nat, fraction, get}
use frontend_observability.Base.Try.{done, done_injective, not_failed, guard-done}
use frontend_observability.RuntimeControl.Fetch.{
  Platform, Attempt, responded, threw, BodyResult, body_text, body_too_large, body_threw,
  is_json_content_type,
}
use frontend_observability.Sdk.Options.{NormalizedOptions}
use frontend_observability.Sdk.Configuration.{
  is_boolean_value, is_false_value, is_true_value, is_rate, is_sampling, is_kill_switch,
  validate_runtime_config_shape, parse_date_of, config_lifetime, refused_or, check_config,
  parse_config, check_config_body, load_config, min_one, PrivacyPolicy, merge_privacy_policy,
}

-- The times of a configuration that may be used now.
pub record IsCurrent (parse_date : String → Option ℕ) (config : Value) (now : ℕ) : Type 0 where
  pub issued : ℕ
  pub expires : ℕ
  pub issued_at : parse_date_of parse_date (get "issuedAt" config) ≡ some issued
  pub expires_at : parse_date_of parse_date (get "expiresAt" config) ≡ some expires
  pub ordered : issued < expires
  pub unexpired : now < expires
  pub begun : issued ≤ now + 300000

-- 0, 1, or what lies strictly between.
abbrev pub IsUnitRate : Num → Type 0
IsUnitRate (nat n) = n ≤ 1
IsUnitRate (fraction below_zero n p) = (below_zero ≡ false) × (n ≡ 0)
IsUnitRate _ = ⊥

rate-IsUnitRate : (n : Num) → is_rate (num n) ≡ true → IsUnitRate n
rate-IsUnitRate (nat n) h = ground arith
rate-IsUnitRate (fraction true n p) h = cc
rate-IsUnitRate (fraction false n p) h = (refl, ground arith)
rate-IsUnitRate _ h = cc

-- What a policy allows is what the configuration says.
pub record IsGoverned (config : Value) (policy : PrivacyPolicy) : Type 0 where
  pub on_only_if :
      policy.telemetry_enabled ≡ true
      → (get "enabled" config ≡ bool true) × (get "engaged" (get "killSwitch" config) ≡ bool false)
  pub logs_only_if :
      policy.browser_logs_enabled ≡ true
      → (policy.telemetry_enabled ≡ true) × (get "enabled" (get "browserLogs" config) ≡ bool true)
  pub sampled : num policy.session_sample_rate ≡ get "sessionSampleRate" (get "sampling" config)
  pub within : IsUnitRate policy.session_sample_rate
  pub captures_nothing :
      (policy.capture_bodies ≡ false)
      × (policy.capture_cookies ≡ false)
      × (policy.capture_headers ≡ false)
  pub no_replay :
      (policy.session_replay_enabled ≡ false)
      × (get "enabled" (get "sessionReplay" config) ≡ bool false)

is_true_value-bool : (v : Value) → is_true_value v ≡ true → v ≡ bool true
is_true_value-bool (bool true) h = refl
is_true_value-bool (bool false) h = cc
is_true_value-bool _ h = cc

is_false_value-bool : (v : Value) → is_false_value v ≡ true → v ≡ bool false
is_false_value-bool (bool false) h = refl
is_false_value-bool (bool true) h = cc
is_false_value-bool _ h = cc

untrue_boolean : (v : Value) → is_boolean_value v ≡ true → is_true_value v ≡ false → v ≡ bool false
untrue_boolean (bool false) h k = refl
untrue_boolean (bool true) h k = cc
untrue_boolean _ h k = cc

-- The minimum with 1 leaves a rate as it is.
min_one-rate : (v : Value) → is_rate v ≡ true → num (min_one v) ≡ v
min_one-rate (num (nat n)) h = ap (λ x. num (nat x)) (ground arith)
min_one-rate (num (fraction true n p)) h = cc
min_one-rate (num (fraction false n p)) h = ap num (
    in_either (λ x. x ≡ fraction false n p) (not false && ltb 0 n) (λ e. absurd (ground arith))
      (λ e. refl))
min_one-rate _ h = cc

enabled_only_if :
    (enabled engaged : Value)
    → is_boolean_value engaged ≡ true
    → is_true_value enabled && not (is_true_value engaged) ≡ true
    → (enabled ≡ bool true) × (engaged ≡ bool false)
enabled_only_if enabled engaged b h =
    (is_true_value-bool enabled (ground (arith, h)), untrue_boolean engaged b (ground (arith, h)))

first : (a b : Bool) → a && b ≡ true → a ≡ true
first a b h = ((and-eq-true_iff a b).0 h).0

second : (a b : Bool) → a && b ≡ true → b ≡ true
second a b h = ((and-eq-true_iff a b).0 h).1

-- What a valid shape says of the fields that the policy reads.
validate_runtime_config_shape-read_fields :
    (config : Value)
    → validate_runtime_config_shape config ≡ true
    → (is_boolean_value (get "enabled" config) ≡ true)
      × (is_boolean_value (get "engaged" (get "killSwitch" config)) ≡ true)
      × (is_rate (get "sessionSampleRate" (get "sampling" config)) ≡ true)
      × (is_false_value (get "enabled" (get "sessionReplay" config)) ≡ true)
unfolding validate_runtime_config_shape is_kill_switch is_sampling
validate_runtime_config_shape-read_fields config h =
    let replay = first _ _ (first _ _ h) in
    let sampling = first _ _ (first _ _ (first _ _ (first _ _ (first _ _ (first _ _ replay))))) in
    let switch = first _ _ (first _ _ sampling) in
    let enabled = first _ _ (first _ _ (first _ _ switch)) in
    (
      second _ _ enabled,
      second _ _ (first _ _ (first _ _ (second _ _ switch))),
      second _ _ (second _ _ sampling),
      second _ _ replay,
    )

merge_privacy_policy-IsGoverned :
    (identity : NormalizedOptions) (config : Value)
    → validate_runtime_config_shape config ≡ true
    → IsGoverned config (merge_privacy_policy identity config)
unfolding merge_privacy_policy
merge_privacy_policy-IsGoverned identity config h =
    let fields = validate_runtime_config_shape-read_fields config h in
    let rated = fields.2 in
    let kept = min_one-rate (get "sessionSampleRate" (get "sampling" config)) rated in
    record {
      on_only_if = λ on.
          enabled_only_if (get "enabled" config) (get "engaged" (get "killSwitch" config)) fields.1
            on;
      logs_only_if = λ on. (ground (arith, on), is_true_value-bool _ (ground (arith, on)));
      sampled = kept;
      within = rate-IsUnitRate _ (subst (λ x. is_rate x ≡ true) (sym kept) rated);
      captures_nothing = (refl, refl, refl);
      no_replay = (refl, is_false_value-bool _ fields.3);
    }

refused_or-done :
    {a b : Value} (why : Option String) → refused_or a why ≡ done b → (a ≡ b) × (why ≡ none)
refused_or-done none h = (done_injective refl h, refl)
refused_or-done (some e) h = absurd (not_failed h)

-- What config_lifetime says of times it has no objection to.
config_lifetime-none :
    (parse_date : String → Option ℕ) (config : Value) (now : ℕ) (i e : Option ℕ)
    → parse_date_of parse_date (get "issuedAt" config) ≡ i
    → parse_date_of parse_date (get "expiresAt" config) ≡ e
    → config_lifetime i e now ≡ none
    → IsCurrent parse_date config now
unfolding config_lifetime
config_lifetime-none parse_date config now (some i) (some e) hi he h = record {
  issued = i;
  expires = e;
  issued_at = hi;
  expires_at = he;
  ordered = ground (arith, h);
  unexpired = ground (arith, h);
  begun = ground (arith, h);
}
config_lifetime-none parse_date config now none e hi he h = cc
config_lifetime-none parse_date config now (some i) none hi he h = cc

module _ (p : Platform) where
  check_config-done :
      (config loaded : Value) (now : ℕ)
      → check_config p config now ≡ done loaded
      → (validate_runtime_config_shape loaded ≡ true) × IsCurrent p.parse_date loaded now
  unfolding check_config
  check_config-done config loaded now h =
      let (shaped, h') = guard-done (not (validate_runtime_config_shape config)) _ h in
      let (same, current) = refused_or-done _ h' in
      subst (λ x. (validate_runtime_config_shape x ≡ true) × IsCurrent p.parse_date x now) same
        (ground (arith, shaped), config_lifetime-none p.parse_date config now _ _ refl refl current)

  check_config_body-done :
      (b : BodyResult) (loaded : Value) (now : ℕ)
      → check_config_body p b now ≡ done loaded
      → (validate_runtime_config_shape loaded ≡ true) × IsCurrent p.parse_date loaded now
  unfolding check_config_body parse_config
  check_config_body-done (body_text text) loaded now h = parsed (p.parse_json text) h
    where
      parsed :
          (c : Option Value)
          → parse_config p c now ≡ done loaded
          → (validate_runtime_config_shape loaded ≡ true) × IsCurrent p.parse_date loaded now
      parsed none k = absurd (not_failed k)
      parsed (some c) k = check_config-done c loaded now k
  check_config_body-done body_too_large loaded now h = absurd (not_failed h)
  check_config_body-done (body_threw t) loaded now h = absurd (not_failed h)

  -- A configuration that loadConfig returns has times that can be read, expires after it is issued
  -- and after now, and was issued at most five minutes in the future. The policy that
  -- mergePrivacyPolicy makes of it turns telemetry on only if the configuration is enabled and its
  -- kill switch is not engaged, and browser logs only if telemetry is on and the configuration
  -- enables them. Its sample rate is the configuration's, a rate from 0 to 1. It captures no bodies, no cookies and no
  -- headers, and neither the policy nor the configuration enables session replay.
  pub load_config-IsGoverned :
      (attempt : Attempt) (now : ℕ) (identity : NormalizedOptions) (config : Value)
      → load_config p attempt now ≡ done config
      → IsCurrent p.parse_date config now × IsGoverned config (merge_privacy_policy identity config)
  unfolding load_config
  load_config-IsGoverned (threw t) now identity config h = absurd (not_failed h)
  load_config-IsGoverned (responded r) now identity config h =
      let (_, h') = guard-done (not (r.status == 200) || r.redirected) _ h in
      let (_, h'') = guard-done (not (is_json_content_type r.content_type)) _ h' in
      let (shaped, current) = check_config_body-done _ config now h'' in
      (current, merge_privacy_policy-IsGoverned identity config shaped)
