-- ===== src/Config/Loading.antt =====
-- The schema and `load` of src/lib/env/index.ts.
use saral.Base.{Bool, true, false, not, ◌&&◌, Option, none, some, [], ◌∷◌, String, if◌then◌else◌}
use saral.Meta.Schema.{◌>>=◌}
use saral.Meta.Client.Paginate.{truthy}
use saral.Config.Env.{
  Driver, local, aws, ServiceSettings, MetaSettings, SyncSettings, DriverSettings, Env,
  EnvCoercions, or_text, one_of, within, driver, booleanish, required_url, required_text,
  with_slash, is_version,
}

abbrev pub Variables : Type 0
Variables = String → Option String

module _ (to : EnvCoercions) (env : Variables) where
  unfoldable pub service_settings : Option ServiceSettings
  service_settings = do
    node_env ←
        one_of ("development" ∷ "test" ∷ "production" ∷ []) (or_text "development" (env "NODE_ENV"))
    port ← within to 1 none 3000 (env "APP_PORT")
    prefix ← with_slash (or_text "/api/v1" (env "APP_ROUTE_PREFIX"))
    level ←
        one_of ("trace" ∷ "debug" ∷ "info" ∷ "warn" ∷ "error" ∷ "fatal" ∷ [])
          (or_text "info" (env "LOG_LEVEL"))
    output ← one_of ("dev" ∷ "json" ∷ []) (or_text "json" (env "LOG_OUTPUT"))
    url ← required_url to (env "DATABASE_URL")
    pool ← within to 1 none 10 (env "DATABASE_POOL_MAX")
    metrics ← booleanish (env "METRICS_ENABLED")
    some (record {
      node_env = node_env;
      app_port = port;
      app_route_prefix = prefix;
      log_level = level;
      log_output = output;
      database_url = url;
      database_pool_max = pool;
      metrics_enabled = metrics;
    })

  unfoldable pub meta_settings : Option MetaSettings
  unfolding is_version
  meta_settings = do
    token ← required_text (env "META_ACCESS_TOKEN")
    user ← required_text (env "META_IG_USER_ID")
    version ←
        (let v = or_text "v24.0" (env "META_GRAPH_VERSION") in
          if is_version v then some v else none)
    base ← required_url to (some (or_text "https://graph.facebook.com" (env "META_API_BASE_URL")))
    some (record {
      access_token = token;
      ig_user_id = user;
      graph_version = version;
      api_base_url = base;
    })

  unfoldable pub sync_settings : Option SyncSettings
  sync_settings = do
    per_run ← within to 1 (some 10000) 500 (env "SYNC_MAX_MEDIA_PER_RUN")
    size ← within to 1 (some 50) 25 (env "SYNC_PAGE_SIZE")
    concurrency ← within to 1 (some 50) 5 (env "DOWNLOAD_CONCURRENCY")
    threshold ← within to 1 (some 100) 80 (env "META_THROTTLE_THRESHOLD_PCT")
    timeout ← within to 1 none 60000 (env "META_REQUEST_TIMEOUT_MS")
    some (record {
      max_media_per_run = per_run;
      page_size = size;
      download_concurrency = concurrency;
      throttle_threshold_pct = threshold;
      request_timeout_ms = timeout;
    })

  unfoldable pub driver_settings : Option DriverSettings
  driver_settings = do
    queue ← driver (env "QUEUE_DRIVER")
    storage ← driver (env "STORAGE_DRIVER")
    scheduler ← driver (env "SCHEDULER_DRIVER")
    visibility ← within to 1 none 300 (env "SQS_VISIBILITY_TIMEOUT")
    wait ← within to 0 (some 20) 20 (env "SQS_WAIT_TIME_SECONDS")
    some (record {
      queue_driver = queue;
      storage_driver = storage;
      scheduler_driver = scheduler;
      local_storage_dir = or_text "./storage" (env "LOCAL_STORAGE_DIR");
      recent_sync_cron = or_text "0 */3 * * *" (env "RECENT_SYNC_CRON");
      aws_region = or_text "eu-west-2" (env "AWS_REGION");
      s3_bucket = env "S3_BUCKET";
      sqs_queue_url = env "SQS_QUEUE_URL";
      sqs_dlq_url = env "SQS_DLQ_URL";
      sqs_visibility_timeout = visibility;
      sqs_wait_time_seconds = wait;
      schedule_name = or_text "sync-recent-hashtag-media" (env "EVENTBRIDGE_SCHEDULE_NAME");
      schedule_role_arn = env "EVENTBRIDGE_SCHEDULE_ROLE_ARN";
    })

abbrev pub is_aws : Driver → Bool
is_aws local = false
is_aws aws = true

-- `superRefine`: whether it adds no issue.
unfoldable pub is_refined : DriverSettings → Bool
is_refined d =
    not (is_aws d.storage_driver && not (truthy d.s3_bucket))
    && not (is_aws d.queue_driver && not (truthy d.sqs_queue_url))
    && not (is_aws d.scheduler_driver && not (is_aws d.queue_driver))

-- `load()`; `none` is the error that ends the process.
unfoldable pub load : EnvCoercions → Variables → Option Env
load to env = do
  service ← service_settings to env
  meta ← meta_settings to env
  sync ← sync_settings to env
  drivers ← driver_settings to env
  if is_refined drivers
      then some (record { service = service; meta = meta; sync = sync; drivers = drivers })
      else none
