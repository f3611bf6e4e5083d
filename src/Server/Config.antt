-- ===== src/Server/Config.antt =====
-- runner/src/utils/config.ts. The environment and `parseInt` are parameters.
use supallm.Common.{
  ℕ, zero, suc, String, Bool, true, false, Option, none, some, Result, ok, error, ◌==◌, ◌||◌, ◌>>=◌,
  if◌then◌else◌, ◌≡◌, refl, arith, ap, sym, ◌∙◌, inl, inr, Bool-cases,
}
use supallm.Queue.{new_consumer, has_slot}
use Prim.Native.String
use mathlib.Core.Path.{transport}

infixr 5 ◌+++◌
abbrev pub ◌+++◌ : String → String → String
s +++ t = String.◌++◌ s t

-- A whole number; `negsuc n` is - n - 1.
pub data ℤ : Type 0 where
  pos negsuc : ℕ → ℤ

pub record RedisConfig : Type 0 where
  pub url : String
  pub password : String

pub record RunnerConfig : Type 0 where
  pub node_env : String
  pub max_concurrent_jobs : ℤ
  pub redis : RedisConfig
  pub secret_key : String
  pub ns_jail_clone_new_user : String
  pub disable_ns_jail : Bool

pub data ConfigError : Type 0 where
  not_set : String → ConfigError
  not_positive : ConfigError

abbrev or_empty : Option String → String
or_empty none = ""
or_empty (some s) = s

has_slot-new_consumer : (n : ℕ) → has_slot (new_consumer (suc n)) ≡ true
unfolding has_slot new_consumer
has_slot-new_consumer n = ground arith

ok_of_bind :
    {A B E : Type 0} (r : Result A E) (f : A → Result B E) {b : B}
    → (r >>= f) ≡ ok b
    → (a : A) × (r ≡ ok a) × (f a ≡ ok b)
ok_of_bind (ok a) f h = (a, refl, h)
ok_of_bind (error e) f h = absurd (ground (arith, h))

abbrev read_ok : {A E : Type 0} → A → Result A E → A
read_ok default (ok a) = a
read_ok default (error e) = default

abbrev read : (RunnerConfig → String) → Result RunnerConfig ConfigError → String
read f (ok c) = f c
read f (error e) = ""

-- `parse_int`: `none` is NaN.
module _ (env : String → Option String) (parse_int : String → Option ℤ) where
  unfoldable pub get_number_env : String → ℤ → ℤ
  get_number_env key default =
      let value = or_empty (env key) in
      if value == "" then default else elim (parse_int value) [ none ↦ default | some n ↦ n ]

  unfoldable pub get_string_env : String → String → String
  get_string_env key default =
      let value = or_empty (env key) in if value == "" then default else value

  unfoldable pub get_bool_env : String → Bool → Bool
  get_bool_env key default = or_empty (env key) == "true" || default

  unfoldable pub get_key : String → Result String ConfigError
  get_key key =
      let value = or_empty (env key) in if value == "" then error (not_set key) else ok value

  unfoldable pub get_redis_url : Result String ConfigError
  unfolding get_key
  get_redis_url = get_key "REDIS_HOST" >>= λ host.
      get_key "REDIS_PORT" >>= λ port. ok ("redis://" +++ host +++ ":" +++ port)

  unfoldable pub config : Result RunnerConfig ConfigError
  unfolding get_number_env get_string_env get_bool_env get_key get_redis_url
  config = get_redis_url >>= λ url. get_key "REDIS_PASSWORD" >>= λ password.
      get_key "SECRET_KEY" >>= λ secret_key. ok (record {
        node_env = get_string_env "NODE_ENV" "development";
        max_concurrent_jobs = get_number_env "RUNNER_MAX_CONCURRENT_JOBS" (pos 5);
        redis = record { url = url; password = password };
        secret_key = secret_key;
        ns_jail_clone_new_user =
            if get_string_env "NSJAIL_CLONE_NEW_USER" "true" == "true" then "true" else "false";
        disable_ns_jail = get_bool_env "DISABLE_NSJAIL" false;
      })

  abbrev is_positive : ℤ → Bool
  is_positive (pos (suc n)) = true
  is_positive (pos zero) = false
  is_positive (negsuc n) = false

  unfoldable pub validate_config : RunnerConfig → Result RunnerConfig ConfigError
  validate_config c = if is_positive c.max_concurrent_jobs then ok c else error not_positive

  -- What loading the module gives.
  unfoldable pub load_config : Result RunnerConfig ConfigError
  unfolding config validate_config
  load_config = config >>= validate_config

  get_key-full : (key value : String) → get_key key ≡ ok value → (value == "") ≡ false
  unfolding get_key
  get_key-full key value h = elim (Bool-cases (or_empty (env key) == "")) [
    | inl e ↦ absurd (ground (arith, rw (get_key, e) at h))
    | inr e ↦
        let same : or_empty (env key) ≡ value = ground (arith, rw (get_key, e) at h) in
        transport (ap (λ v. (v == "") ≡ false) same) e
  ]

  is_positive-pos : (i : ℤ) → is_positive i ≡ true → (n : ℕ) × (i ≡ pos (suc n))
  is_positive-pos (pos (suc n)) h = (n, refl)
  is_positive-pos (pos zero) h = absurd (ground (arith, h))
  is_positive-pos (negsuc n) h = absurd (ground (arith, h))

  validate_config-pos :
      (c d : RunnerConfig)
      → validate_config c ≡ ok d
      → (c ≡ d) × ((n : ℕ) × (c.max_concurrent_jobs ≡ pos (suc n)))
  unfolding validate_config
  validate_config-pos c d h = elim (Bool-cases (is_positive c.max_concurrent_jobs)) [
    | inl e ↦
        (ground (arith, rw (validate_config, e) at h), is_positive-pos c.max_concurrent_jobs e)
    | inr e ↦ absurd (ground (arith, rw (validate_config, e) at h))
  ]

  get_redis_url-full :
      (url : String)
      → get_redis_url ≡ ok url
      → (host port : String) × ((host == "") ≡ false)
        × ((port == "") ≡ false)
        × (url ≡ "redis://" +++ host +++ ":" +++ port)
  unfolding get_redis_url
  get_redis_url-full url h =
      let (host, a, h1) = ok_of_bind (get_key "REDIS_HOST") _ h in
      let (port, b, h2) = ok_of_bind (get_key "REDIS_PORT") _ h1 in
      (
        host,
        port,
        get_key-full "REDIS_HOST" host a,
        get_key-full "REDIS_PORT" port b,
        ap (read_ok "") (sym h2),
      )

  config-full :
      (c : RunnerConfig)
      → config ≡ ok c
      → ((host port : String) × ((host == "") ≡ false)
          × ((port == "") ≡ false)
          × (c.redis.url ≡ "redis://" +++ host +++ ":" +++ port))
        × ((c.secret_key == "") ≡ false)
        × ((c.redis.password == "") ≡ false)
  unfolding config
  config-full c h =
      let (url, a, h1) = ok_of_bind get_redis_url _ h in
      let (password, b, h2) = ok_of_bind (get_key "REDIS_PASSWORD") _ h1 in
      let (secret_key, d, h3) = ok_of_bind (get_key "SECRET_KEY") _ h2 in
      let (host, port, host_full, port_full, made) = get_redis_url-full url a in
      (
        (host, port, host_full, port_full, sym (ap (read (λ x. x.redis.url)) h3) ∙ made),
        transport (ap (λ v. (v == "") ≡ false) (ap (read (λ x. x.secret_key)) h3))
            (get_key-full "SECRET_KEY" secret_key d),
        transport (ap (λ v. (v == "") ≡ false) (ap (read (λ x. x.redis.password)) h3))
            (get_key-full "REDIS_PASSWORD" password b),
      )

  -- A configuration that is loaded lets the queue's consumer run at least one job at once, so that it asks
  -- for messages. The four keys that must be set are not empty in it: the host and the port, which make its
  -- redis URL, the secret key and the password.
  pub load_config-has_slot :
      (c : RunnerConfig)
      → load_config ≡ ok c
      → (n : ℕ) × (c.max_concurrent_jobs ≡ pos (suc n))
        × (has_slot (new_consumer (suc n)) ≡ true)
        × ((host port : String) × ((host == "") ≡ false)
            × ((port == "") ≡ false)
            × (c.redis.url ≡ "redis://" +++ host +++ ":" +++ port))
        × ((c.secret_key == "") ≡ false)
        × ((c.redis.password == "") ≡ false)
  unfolding load_config config validate_config get_key
  load_config-has_slot c h =
      let (d, a, h1) = ok_of_bind config validate_config h in
      let (same, (n, e)) = validate_config-pos d c h1 in
      let (url, secret, password) = config-full d a in
      rw (sym same) (n, e, has_slot-new_consumer n, url, secret, password)
