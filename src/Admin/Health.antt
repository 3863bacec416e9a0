-- ===== src/Admin/Health.antt =====
-- The health of the services as the panel shows it: the second half of
-- frontend/admin/src/types/index.ts. The panel keeps it and only renders it.
use pairline.Base.{ℕ, Text, List, Option, Bool}
use pairline.Admin.Json.{Number, Fields}

pub record InfraSummary : Type 0 where
  pub healthy_services : ℕ
  pub degraded_services : ℕ
  pub total_services : ℕ

pub record InfraTopology : Type 0 where
  pub phoenix_configured_nodes : ℕ
  pub phoenix_connected_nodes : ℕ
  pub phoenix_node_names : List Text
  pub go_configured_services : ℕ
  pub redis_configured_nodes : ℕ
  pub redis_reachable_nodes : ℕ

pub record PostgresConnectionStats : Type 0 where
  pub open_count : ℕ
  pub in_use : ℕ
  pub idle : ℕ
  pub max_open : ℕ

pub record PostgresHealth : Type 0 where
  pub status : Text
  pub latency_ms : ℕ
  pub error : Option Text
  pub connections : PostgresConnectionStats

pub record RedisMemoryInfo : Type 0 where
  pub used_memory_bytes : ℕ
  pub used_memory_human : Text
  pub used_memory_rss_bytes : ℕ
  pub used_memory_rss_human : Text
  pub used_memory_peak_bytes : ℕ
  pub used_memory_peak_human : Text
  pub used_memory_peak_perc : Text
  pub used_memory_dataset_bytes : ℕ
  pub used_memory_dataset_perc : Text
  pub total_system_memory_bytes : ℕ
  pub total_system_memory_human : Text
  pub maxmemory_bytes : ℕ
  pub maxmemory_human : Text
  pub maxmemory_policy : Text
  pub allocator : Text
  pub fragmentation_ratio : Number
  pub fragmentation_bytes : Number

pub record RedisCommandStat : Type 0 where
  pub command : Text
  pub calls : ℕ
  pub usec_total : ℕ
  pub usec_per_call : Number

pub record RedisNodeHealth : Type 0 where
  pub node_id : Text
  pub address : Text
  pub role : Text
  pub status : Text
  pub link_state : Text
  pub flags : List Text
  pub master_id : Option Text
  pub slots : Option (List Text)
  pub master_link_status : Option Text
  pub replication_lag_seconds : Option ℕ
  pub memory : RedisMemoryInfo
  pub command_stats : Option (List RedisCommandStat)
  pub error : Option Text

pub record RedisClusterInfo : Type 0 where
  pub state : Text
  pub slots_assigned : ℕ
  pub slots_ok : ℕ
  pub slots_pfail : ℕ
  pub slots_fail : ℕ
  pub known_nodes : ℕ
  pub size : ℕ
  pub current_epoch : ℕ
  pub my_epoch : ℕ
  pub total_cluster_links_buffer_limit_exceeded : ℕ

pub record RedisHealth : Type 0 where
  pub status : Text
  pub latency_ms : ℕ
  pub error : Option Text
  pub configured_nodes : List Text
  pub cluster : RedisClusterInfo
  pub nodes : List RedisNodeHealth

pub record CollectorHealth : Type 0 where
  pub url : Text
  pub status : Text
  pub latency_ms : ℕ
  pub error : Option Text

pub record ObservabilityHealth : Type 0 where
  pub status : Text
  pub traces_configured : Bool
  pub metrics_configured : Bool
  pub otlp_endpoint : Text
  pub collector : CollectorHealth

pub record RemoteServiceHealth : Type 0 where
  pub name : Text
  pub kind : Text
  pub url : Text
  pub status : Text
  pub http_status : ℕ
  pub latency_ms : ℕ
  pub error : Option Text
  pub service : Option Text
  pub reported_at : Option ℕ
  pub details : Option Fields

pub record InfraHealthResponse : Type 0 where
  pub status : Text
  pub service : Text
  pub timestamp : ℕ
  pub topology : InfraTopology
  pub postgres : PostgresHealth
  pub redis : RedisHealth
  pub observability : ObservabilityHealth
  pub services : List RemoteServiceHealth
  pub summary : InfraSummary
