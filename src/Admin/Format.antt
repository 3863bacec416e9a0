-- ===== src/Admin/Format.antt =====
-- The texts of the health page: frontend/admin/src/components/admin-panel/utils.ts from `formatLatency` on, and
-- what AdminPanelRuntime.tsx shows of a service and of the memory of a Redis node. A number is an exact
-- decimal, which a double is for the whole numbers of bytes below 2 ^ 53.
use pairline.Base.{
  ℕ, zero, suc, ◌+◌, ◌*◌, ◌^◌, ◌≤◌, ◌<◌, ◌==◌, ◌||◌, leb, Text, lit, truthy, text_eq, List, [], ◌∷◌,
  ◌++◌, Option, none, some, or_else, false, if◌then◌else◌, take, map, if-holds_cases, ◌≡◌, refl,
  arith,
}
use Prim.Native.Nat.{◌/◌}
use pairline.Admin.Json.{
  Number, Json, number, string, object, Fields, whole, print, to_number, get_field,
}
use pairline.Admin.Health.{RedisNodeHealth, RedisCommandStat, RemoteServiceHealth}

-- Not finite, missing, zero and negative are `0ms`.
unfoldable pub format_latency : Option Number → Text
format_latency none = lit "0ms"
format_latency (some ms) =
    if (ms.digits == 0) || ms.negative then lit "0ms" else print ms ++ lit "ms"

-- `value.toFixed(places)` of n / d: the nearest decimal, of two the larger.
unfoldable fixed : ℕ → ℕ → ℕ → Text
fixed places n d =
    print
      (record { negative = false; digits = (2 * (10 ^ places * n) + d) / (2 * d); scale = places })

-- The loop of `formatBytes`, with the steps that the units leave: the value is n / d, and the result is
-- the index of the unit with the last d.
unfoldable scaled : ℕ → ℕ → ℕ → ℕ → ℕ × ℕ
scaled zero unit_index n d = (unit_index, d)
scaled (suc left) unit_index n d =
    let rest = scaled left (suc unit_index) n (1024 * d) in
    if leb (1024 * d) n then rest else (unit_index, d)

abbrev units : List Text
units = lit "B" ∷ lit "KB" ∷ lit "MB" ∷ lit "GB" ∷ lit "TB" ∷ []

abbrev unit_at : ℕ → List Text → Text
unit_at i [] = []
unit_at zero (u ∷ us) = u
unit_at (suc i) (u ∷ us) = unit_at i us

abbrev shown : ℕ → ℕ × ℕ → Text
shown n (unit_index, d) =
    fixed (if leb (10 * d) n || (unit_index == 0) then 0 else 1) n d
    ++ lit " "
    ++ unit_at unit_index units

unfoldable pub format_bytes : Option Number → Text
unfolding scaled fixed
format_bytes none = lit "0 B"
format_bytes (some bytes) =
    if bytes.negative || (bytes.digits == 0)
    then lit "0 B"
    else shown bytes.digits (scaled 4 0 bytes.digits (10 ^ bytes.scale))

abbrev as_record : Option Json → Option Fields
as_record (some (object fs)) = some fs
as_record _ = none

abbrev as_number : Option Json → Option Number
as_number (some (number n)) = some n
as_number (some (string s)) = to_number s
as_number _ = none

pub record GoMemory : Type 0 where
  pub primary : Text
  pub secondary : Text
  pub goroutines : Number

pub record PhoenixMemory : Type 0 where
  pub total : Text
  pub binary : Text
  pub processes : Number

-- `details?.memory`, if it is a record.
abbrev memory_of : Option Fields → Option Fields
memory_of none = none
memory_of (some details) = as_record (get_field (lit "memory") details)

abbrev count : Text → Fields → Number
count key memory = or_else (as_number (get_field key memory)) (whole 0)

abbrev size : Text → Fields → Text
size key memory = format_bytes (as_number (get_field key memory))

unfoldable pub go_memory_summary : Option Fields → Option GoMemory
go_memory_summary details = elim (memory_of details) [
  | none ↦ none
  | some memory ↦ some (record {
    primary = size (lit "heap_alloc_bytes") memory;
    secondary = size (lit "sys_bytes") memory;
    goroutines = count (lit "goroutines") memory;
  })
]

unfoldable pub phoenix_memory_summary : Option Fields → Option PhoenixMemory
phoenix_memory_summary details = elim (memory_of details) [
  | none ↦ none
  | some memory ↦ some (record {
    total = size (lit "total_bytes") memory;
    binary = size (lit "binary_bytes") memory;
    processes = count (lit "process_count") memory;
  })
]

-- What the card of a service shows: a summary only of its own kind.
unfoldable pub memory_of_service : RemoteServiceHealth → Option GoMemory × Option PhoenixMemory
memory_of_service service = (
  (if text_eq service.kind (lit "go") then go_memory_summary service.details else none),
  (if text_eq service.kind (lit "phoenix") then phoenix_memory_summary service.details else none),
)

unfoldable pub top_redis_command_stats : RedisNodeHealth → List RedisCommandStat
top_redis_command_stats node = take 8 (or_else node.command_stats [])

-- The text of the server where there is one.
abbrev human_or_bytes : Text → ℕ → Text
human_or_bytes human bytes = if truthy human then human else format_bytes (some (whole bytes))

-- The sizes on the card of a Redis node, from "Used" on.
unfoldable pub memory_lines : RedisNodeHealth → List Text
memory_lines node =
    human_or_bytes node.memory.used_memory_human node.memory.used_memory_bytes
    ∷ human_or_bytes node.memory.used_memory_rss_human node.memory.used_memory_rss_bytes
    ∷ human_or_bytes node.memory.used_memory_peak_human node.memory.used_memory_peak_bytes
    ∷ format_bytes (some (whole node.memory.used_memory_dataset_bytes))
    ∷ format_bytes (some node.memory.fragmentation_bytes)
    ∷ human_or_bytes node.memory.maxmemory_human node.memory.maxmemory_bytes
    ∷ human_or_bytes node.memory.total_system_memory_human node.memory.total_system_memory_bytes
    ∷ []

-- A result of the loop from the value n: a unit that the value reaches, and if it is not the last, no
-- larger unit that it reaches.
abbrev IsScaled : ℕ → ℕ → ℕ × ℕ → Type 0
IsScaled last n (unit_index, d) = (d ≤ n) × (unit_index < last → n < 1024 * d)

scaled_lem :
    (left unit_index n d : ℕ) → d ≤ n → IsScaled (left + unit_index) n (scaled left unit_index n d)
unfolding scaled
scaled_lem zero i n d h = (h, λ k. absurd (ground arith))
scaled_lem (suc left) i n d h =
    if-holds_cases (IsScaled (suc left + i) n) (leb (1024 * d) n)
      (λ e.
        let t = scaled_lem left (suc i) n (1024 * d) (ground arith) in
        (t.0, λ k. t.1 (omega arith)))
      (λ e. (h, λ k. ground arith))

bytes_test :
    map (λ n. format_bytes (some (whole n))) (zero ∷ 1023 ∷ 1024 ∷ 10239 ∷ 1048575 ∷ 1048576 ∷ [])
    ≡ lit "0 B" ∷ lit "1023 B" ∷ lit "1.0 KB" ∷ lit "10.0 KB" ∷ lit "1024 KB" ∷ lit "1.0 MB" ∷ []
unfolding format_bytes scaled fixed print
bytes_test = refl
