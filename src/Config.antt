-- ===== src/Config.antt =====
-- cmd/server/config/config.go: the configuration that the server reads from its environment.
use cbtraining.Base.{
  ℤ, pos, negsuc, ℕ, ◌*◌, String, ◌≢◌, arith, Bool, true, Option, none, some, List, [], ◌∷◌, str_eq,
  if◌then◌else◌, ◌⊎◌, ◌↔◌,
}
use Prim.Native.String.{◌++◌ as str_append}
use cbtraining.Errors.{Result, ok, panic, ◌>>=◌}

-- What is called of os, strconv and time. A duration is a number of nanoseconds.
pub record Environment : Type 0 where
  pub lookup_env : String → Option String
  pub atoi : String → Option ℤ
  pub parse_bool : String → Option Bool
  pub parse_duration : String → Option ℤ

pub record HttpConfig : Type 0 where
  pub addr : String

pub record DbConfig : Type 0 where
  pub host : String
  pub port : String
  pub user : String
  pub password : String
  pub name : String
  pub ssl : String
  pub max_connections : ℤ
  pub shared_buffers : String
  pub max_wal_size : String
  pub log_min_duration : ℤ
  pub local_port : String

pub record KafkaConfig : Type 0 where
  pub host : String
  pub port : String
  pub controller_port : String
  pub cluster_id : String
  pub partitions : ℤ
  pub replication_factor : ℤ
  pub auto_create_topics : Bool
  pub request_topic : String
  pub response_topic : String
  pub consumer_group : String
  pub start_offset : ℤ
  pub commit_interval : ℤ

pub record OutboxConfig : Type 0 where
  pub batch_size : ℤ
  pub interval : ℤ
  pub workers : ℤ

pub record Config : Type 0 where
  pub http : HttpConfig
  pub db : DbConfig
  pub kafka : KafkaConfig
  pub outbox : OutboxConfig
  pub max_workers : ℤ
  pub shutdown_timeout : ℤ

unfoldable pub dsn : DbConfig → String
dsn d = str_append "postgres://" (
    str_append d.user (
      str_append ":" (
        str_append d.password (
          str_append "@" (
            str_append d.host (
              str_append ":" (
                str_append d.port
                  (str_append "/" (str_append d.name (str_append "?sslmode=" d.ssl))))))))))

unfoldable pub brokers : KafkaConfig → List String
brokers k = str_append k.host (str_append ":" k.port) ∷ []

-- A variable that is set to the empty text counts as not set.
unfoldable pub set_value : Option String → Option String
set_value none = none
set_value (some v) = if str_eq v "" then none else some v

unfoldable pub or_else {ℓ} : {A : Type ℓ} → Option A → A → A
or_else none fallback = fallback
or_else (some a) fallback = a

-- A value that cannot be parsed counts as not set.
unfoldable pub parsed {ℓ} : {A : Type ℓ} → (String → Option A) → Option String → Option A
parsed parse none = none
parsed parse (some v) = parse v

second : ℕ
second = 1000000000

module _ (os : Environment) where
  open os use {lookup_env, atoi, parse_bool, parse_duration}

  unfoldable pub require_env : String → Result String
  unfolding set_value
  require_env key = elim (set_value (lookup_env key)) [ none ↦ panic | some v ↦ ok v ]

  unfoldable pub get_env : String → String → String
  unfolding set_value or_else
  get_env key fallback = or_else (set_value (lookup_env key)) fallback

  unfoldable pub get_int : String → ℤ → ℤ
  unfolding parsed or_else
  get_int key fallback = or_else (parsed atoi (lookup_env key)) fallback

  unfoldable pub get_bool : String → Bool → Bool
  unfolding parsed or_else
  get_bool key fallback = or_else (parsed parse_bool (lookup_env key)) fallback

  unfoldable pub get_duration : String → ℤ → ℤ
  unfolding parsed or_else
  get_duration key fallback = or_else (parsed parse_duration (lookup_env key)) fallback

  unfoldable pub get_kafka_host : Result String
  unfolding set_value require_env
  get_kafka_host = elim (set_value (lookup_env "SERVER_KAFKA_HOST")) [
    | none ↦ require_env "KAFKA_HOST"
    | some v ↦ ok v
  ]

  unfoldable pub get_kafka_port : String
  unfolding set_value or_else get_env
  get_kafka_port =
      or_else (set_value (lookup_env "SERVER_KAFKA_PORT")) (get_env "KAFKA_PORT" "9092")

  unfoldable pub load : Result Config
  unfolding get_kafka_host get_kafka_port require_env get_env get_int get_bool get_duration second
  load = do
    db_host ← require_env "DB_HOST"
    db_user ← require_env "DB_USER"
    db_pass ← require_env "DB_PASS"
    db_name ← require_env "DB_NAME"
    kafka_host ← get_kafka_host
    ok (record {
      http = record { addr = str_append ":" (get_env "APP_PORT" "8080") };
      db = record {
        host = db_host;
        port = get_env "DB_PORT" "5432";
        user = db_user;
        password = db_pass;
        name = db_name;
        ssl = get_env "DB_SSL" "disable";
        max_connections = get_int "DB_MAX_CONNECTIONS" (pos 100);
        shared_buffers = get_env "DB_SHARED_BUFFERS" "128MB";
        max_wal_size = get_env "DB_MAX_WAL_SIZE" "1GB";
        log_min_duration = get_int "DB_LOG_MIN_DURATION" (pos 200);
        local_port = get_env "DB_LOCAL_PORT" "5432";
      };
      kafka = record {
        host = kafka_host;
        port = get_kafka_port;
        controller_port = get_env "KAFKA_CONTROLLER_PORT" "9093";
        cluster_id = get_env "KAFKA_CLUSTER_ID" "";
        partitions = get_int "KAFKA_PARTITIONS" (pos 3);
        replication_factor = get_int "KAFKA_REPLICATION_FACTOR" (pos 1);
        auto_create_topics = get_bool "KAFKA_AUTO_CREATE_TOPICS" true;
        request_topic = get_env "KAFKA_REQUEST_TOPIC" "payment.processing.request";
        response_topic = get_env "KAFKA_RESPONSE_TOPIC" "payment.processing.response";
        consumer_group = get_env "KAFKA_CONSUMER_GROUP" "payment-service-consumer";
        start_offset = negsuc 0;
        commit_interval = get_duration "KAFKA_COMMIT_INTERVAL" (pos second);
      };
      outbox = record {
        batch_size = get_int "OUTBOX_BATCH_SIZE" (pos 10);
        interval = get_duration "OUTBOX_INTERVAL" (pos (5 * second));
        workers = get_int "OUTBOX_WORKERS" (pos 1);
      };
      max_workers = get_int "MAX_WORKERS" (pos 5);
      shutdown_timeout = get_duration "SHUTDOWN_TIMEOUT" (pos (30 * second));
    })

  -- A variable that is set, and not to the empty text.
  abbrev pub IsGiven : String → Type 0
  IsGiven key = set_value (lookup_env key) ≢ none

  -- `Load` ends without a panic exactly where every variable that has no default is set to a text that
  -- is not empty, with either of the two variables for the host of Kafka.
  pub load-panic : (load ≢ panic) ↔ (
      IsGiven "DB_HOST"
      × IsGiven "DB_USER"
      × IsGiven "DB_PASS"
      × IsGiven "DB_NAME"
      × (IsGiven "SERVER_KAFKA_HOST" ⊎ IsGiven "KAFKA_HOST"))
  unfolding load
  load-panic = (
    λ h. (ground arith, ground arith, ground arith, ground arith, ground arith),
    λ (a, b, c, d, e). ground arith,
  )
