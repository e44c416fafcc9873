-- ===== src/Tests/Starting.antt =====
-- A start of the service, with every variable of the environment set, and a migration.
use cbtraining.Base.{
  false, ℕ, pos, negsuc, String, true, [], ◌∷◌, ◌++◌, ◌≡◌, ◌⊎◌, refl, arith, All, some, none, ◌-◌,
}
use cbtraining.Manager.Laws.{loaded, readable}
use cbtraining.Config.{or_else, Environment, Config, load}
use cbtraining.Service.{Outside, after, serve, gives, stuck, main}
use cbtraining.Service.Startup.{started, all_gives, Stops, Starts, main-recovers}
use cbtraining.Migrate.{
  Flags, Migrator, done, no_change, migrate_main, IsDecided, migrate_main-IsDecided,
}
use cbtraining.Tests.{sample_server, sample_libs}
use cbtraining.Tests.Storing.{world, stored_tables, stored_can_be_read}

-- Every variable has the value "1".
abbrev environment : Environment
environment = record {
  lookup_env = λ key. some "1";
  atoi = λ s. some (pos 1);
  parse_bool = λ s. some true;
  parse_duration = λ s. some (pos 1);
}

abbrev outside : Outside String
outside = record {
  env = environment;
  opens = λ url. true;
  answers = true;
  world = world;
  blocks = λ tx. false;
  reader = λ topic group. true;
  ahead = 0;
}

abbrev config : Config
config = record {
  http = record { addr = ":1" };
  db = record {
    host = "1";
    port = "1";
    user = "1";
    password = "1";
    name = "1";
    ssl = "1";
    max_connections = pos 1;
    shared_buffers = "1";
    max_wal_size = "1";
    log_min_duration = pos 1;
    local_port = "1";
  };
  kafka = record {
    host = "1";
    port = "1";
    controller_port = "1";
    cluster_id = "1";
    partitions = pos 1;
    replication_factor = pos 1;
    auto_create_topics = true;
    request_topic = "1";
    response_topic = "1";
    consumer_group = "1";
    start_offset = negsuc 0;
    commit_interval = pos 1;
  };
  outbox = record { batch_size = pos 1; interval = pos 1; workers = pos 1 };
  max_workers = pos 1;
  shutdown_timeout = pos 1;
}

outside-Starts : Starts sample_server sample_libs outside config
unfolding load
outside-Starts = record { read = refl; opened = refl; answered = refl; workers = (1, refl) }

main-recovers_example :
    let txs = readable sample_server sample_libs (loaded sample_server sample_libs stored_tables) in
    (All (λ tx. outside.blocks tx ≡ false) txs
      × (main sample_server sample_libs outside stored_tables
          ≡ after
              (started sample_server sample_libs outside config)
              (after (all_gives txs) (serve config))))
    ⊎ ((s : Stops outside.blocks txs) × (main sample_server sample_libs outside stored_tables ≡ (
      started sample_server sample_libs outside config ++ (all_gives s.before ++ gives s.tx ∷ []),
      stuck,
    )))
main-recovers_example =
    main-recovers sample_server sample_libs outside stored_tables config 0 outside-Starts refl refl
      refl (λ tx. ground arith) stored_can_be_read

-- A database that is the number of its migrations.
abbrev numbered : Migrator ℕ
numbered = record {
  init = λ source. λ url. true;
  up = λ s. (no_change, s);
  steps = λ n. λ s. (done, s - 1);
  force = λ v. λ s. (done, 7);
}

abbrev down_flags : Flags
down_flags = record { path = none; database = some "db"; cmd = some "down"; version = none }

migrate_main-IsDecided_example :
    IsDecided numbered (λ s. none) "down" "" 5 (migrate_main numbered (λ s. none) down_flags none 5)
unfolding or_else
migrate_main-IsDecided_example = migrate_main-IsDecided numbered (λ s. none) down_flags none 5
