-- ===== src/Config.antt =====
-- src/eka/config.py: the settings that bound what the program does, with the bounds of their fields.
-- The names, addresses and secrets among the settings and
-- the poll interval, a float, are left out.
use eka_knowledge_assistant.Prelude.{ℕ, Bool, true, ◌&&◌, not, Text, codes, text_eq, ℤ, pos, ltb_ℤ}

pub record Settings : Type 0 where
  pub environment : Text
  pub database_pool_size : ℤ
  pub embedding_dimension : ℤ
  pub chunk_size : ℤ
  pub chunk_overlap : ℤ
  pub ingestion_max_attempts : ℤ
  pub worker_id : Text
  pub worker_batch_size : ℤ
  pub search_cache_ttl_seconds : ℤ
  pub search_pool_size : ℤ
  pub search_default_top_k : ℤ
  pub jwt_access_ttl_seconds : ℤ
  pub auth_dev_token_enabled : Bool

-- Field(ge=low, le=high), and Field(ge=low).
abbrev pub between : ℕ → ℕ → ℤ → Bool
between low high n = not (ltb_ℤ n (pos low)) && not (ltb_ℤ (pos high) n)

abbrev pub at_least : ℕ → ℤ → Bool
at_least low n = not (ltb_ℤ n (pos low))

-- Whether the settings pass the bounds of their fields.
unfoldable pub is_valid : Settings → Bool
is_valid s =
    between 1 100 s.database_pool_size
    && between 8 4096 s.embedding_dimension
    && at_least 64 s.chunk_size
    && at_least 0 s.chunk_overlap
    && between 1 20 s.ingestion_max_attempts
    && between 1 100 s.worker_batch_size
    && at_least 0 s.search_cache_ttl_seconds
    && between 1 500 s.search_pool_size
    && between 1 50 s.search_default_top_k
    && at_least 60 s.jwt_access_ttl_seconds

-- The fields' defaults.
abbrev pub default_settings : Settings
default_settings = record {
  environment = codes "development";
  database_pool_size = pos 10;
  embedding_dimension = pos 384;
  chunk_size = pos 800;
  chunk_overlap = pos 120;
  ingestion_max_attempts = pos 5;
  worker_id = codes "worker-1";
  worker_batch_size = pos 5;
  search_cache_ttl_seconds = pos 300;
  search_pool_size = pos 50;
  search_default_top_k = pos 5;
  jwt_access_ttl_seconds = pos 3600;
  auth_dev_token_enabled = true;
}

-- settings.is_production and settings.json_logs; `lower` is str.lower.
unfoldable pub is_production : (Text → Text) → Settings → Bool
is_production lower s = text_eq (lower s.environment) (codes "production")

unfoldable pub json_logs : (Text → Text) → Settings → Bool
json_logs lower s = not (text_eq (lower s.environment) (codes "development"))
