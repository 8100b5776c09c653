-- ===== src/Settings/Defaults.antt =====
-- components/ServiceAdvancedSettings.jsx, lines 4 to 66: the settings of a service and their defaults.
use karna.Common.{String, Bool, true, false, List, [], ◌∷◌, ◌||◌}
use karna.Text.{codes}
use karna.Value.{Value, bool, num, str, obj, no_properties, texts}
use text.Mathlib.Text.{◌==◌ as name_eq}

unfoldable pub default_settings : List (String × Value)
default_settings =
    ("set_karna_headers", bool false)
    ∷ ("local_rules_enabled", bool true)
    ∷ ("mcp_enabled", bool false)
    ∷ ("mcp_routes", texts ([]))
    ∷ ("mcp_detection_heuristic", bool false)
    ∷ (
      "mcp_protocol_versions_allowed",
      texts (codes "2025-11-25" ∷ codes "2025-06-18" ∷ codes "2025-03-26" ∷ []),
    )
    ∷ ("mcp_block_legacy_sse_transport", bool false)
    ∷ ("mcp_origin_check_enabled", bool true)
    ∷ ("mcp_origins_allowed", texts ([]))
    ∷ ("mcp_max_event_size_bytes", num (codes "1048576"))
    ∷ ("mcp_max_stream_buffer_bytes", num (codes "8388608"))
    ∷ ("mcp_redact_session_id_in_audit", bool true)
    ∷ ("mcp_redact_authorization_in_audit", bool true)
    ∷ ("ignore_from_local_ips", bool false)
    ∷ ("check_invalid_chars_in_path", bool false)
    ∷ ("limit_invalid_chars_in_path", num (codes "1"))
    ∷ ("check_special_chars_in_path", bool true)
    ∷ ("limit_special_chars_in_path", num (codes "3"))
    ∷ (
      "request_methods_allowed",
      texts (
          codes "GET"
          ∷ codes "HEAD"
          ∷ codes "PUT"
          ∷ codes "POST"
          ∷ codes "DELETE"
          ∷ codes "OPTIONS"
          ∷ codes "PATCH"
          ∷ codes "PROPFIND"
          ∷ []),
    )
    ∷ (
      "request_headers_denied",
      texts (
          codes "content-encoding"
          ∷ codes "proxy"
          ∷ codes "lock-token"
          ∷ codes "content-range"
          ∷ codes "if"
          ∷ []),
    )
    ∷ ("total_arg_value_length", num (codes "64000"))
    ∷ ("restricted_extensions", texts ([]))
    ∷ (
      "request_content_type_charset_allowed",
      texts (codes "utf-8" ∷ codes "iso-8859-1" ∷ codes "iso-8859-15" ∷ codes "windows-1252" ∷ []),
    )
    ∷ (
      "request_content_type_allowed",
      texts (
          codes "application/x-www-form-urlencoded"
          ∷ codes "multipart/form-data"
          ∷ codes "multipart/related"
          ∷ codes "text/xml"
          ∷ codes "application/xml"
          ∷ codes "application/soap+xml"
          ∷ codes "application/json"
          ∷ codes "application/cloudevents+json"
          ∷ codes "application/cloudevents-batch+json"
          ∷ []),
    )
    ∷ ("request_content_type_enforce", bool true)
    ∷ ("limit_arg_name_length", num (codes "100"))
    ∷ ("limit_arg_value_length", num (codes "400"))
    ∷ ("limit_arg_num", num (codes "255"))
    ∷ ("inspection_table_convert", texts ([]))
    ∷ ("validate_utf8_encoding", bool true)
    ∷ ("try_bas64decode_if_possible", bool false)
    ∷ ("crs_plugins_path", str (codes "/opt/coreruleset-plugins/"))
    ∷ ("default_block_response_body", str (codes ""))
    ∷ ("default_block_response_headers", obj no_properties)
    ∷ ("default_ratelimit_response_body", str (codes ""))
    ∷ ("default_ratelimit_response_headers", obj no_properties)
    ∷ ("default_50x_response_body", str (codes ""))
    ∷ ("default_50x_response_headers", obj no_properties)
    ∷ ("auditlog_enabled", bool true)
    ∷ ("auditlog_path", str (codes "/usr/local/openresty/nginx/logs"))
    ∷ ("auditlog_format", str (codes "v2"))
    ∷ ("auditlog_only_on_match", bool false)
    ∷ ("auditlog_modsec", bool false)
    ∷ ("auditlog_error_log_on_match", bool false)
    ∷ ("redis_host", str (codes "localhost"))
    ∷ ("redis_port", num (codes "6379"))
    ∷ ("redis_inspect_enabled", bool false)
    ∷ ("redis_database", num (codes "0"))
    ∷ ("redis_timeout_ms", num (codes "50"))
    ∷ ("redis_keepalive_pool_size", num (codes "64"))
    ∷ ("redis_keepalive_idle_ms", num (codes "60000"))
    ∷ ("redis_on_error", str (codes "skip"))
    ∷ ("private_debug", bool false)
    ∷ []

-- `OPTIONAL_BODY_FIELDS.has(key)`
abbrev pub is_optional_body : String → Bool
is_optional_body key =
    name_eq key "default_block_response_body"
    || name_eq key "default_ratelimit_response_body"
    || name_eq key "default_50x_response_body"
