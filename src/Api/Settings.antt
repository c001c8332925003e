-- ===== src/Api/Settings.antt =====
-- core/config.py: the settings that the environment gives.
use review_signal.Base.{[], Text, codes, nat_eq, list_eq, option_eq}

-- `Settings`
pub record Settings : Type 0 where
  pub app_env : Text
  pub database_url : Text
  pub redis_url : Text
  pub google_client_id : Text
  pub google_client_secret : Text
  pub google_redirect_uri : Text
  pub ollama_base_url : Text
  pub ollama_model : Text
  pub embedding_model : Text
  pub benchmark_path : Text
  pub session_secret : Text
  pub operator_password : Text
  pub credential_encryption_key : Text

-- The defaults; the three fields without one are arguments.
abbrev pub default_settings : (database_url redis_url session_secret : Text) → Settings
default_settings database_url redis_url session_secret = record {
  app_env = codes "local";
  database_url = database_url;
  redis_url = redis_url;
  google_client_id = [];
  google_client_secret = [];
  google_redirect_uri = [];
  ollama_base_url = codes "http://localhost:11434";
  ollama_model = codes "qwen3:8b";
  embedding_model = codes "BAAI/bge-small-en-v1.5";
  benchmark_path = [];
  session_secret = session_secret;
  operator_password = [];
  credential_encryption_key = [];
}
