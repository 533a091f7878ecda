-- ===== src/Jobs/ResultCache.antt =====
-- jobs/dedup/result-cache.ts: `InMemoryResultCache`, from a compute identity to a finished result.
use backtester.Prelude.{ℕ, String, Option, none, some, Bool, true, false, if◌then◌else◌, is_some}
use backtester.OrderedMap.{OrderedMap, get, set, has}
use backtester.Jobs.Sweep
pub mod Laws

pub record CacheEntry : Type 0 where
  pub compute_identity : String
  pub request_fingerprint : String
  pub dataset_fingerprint : String
  pub compute_version : String
  pub sandbox_policy_version : String
  pub template_ref : String
  pub created_at_ms : ℕ

abbrev pub Cache : Type 0
Cache = OrderedMap CacheEntry

unfoldable pub lookup : Cache → String → Option CacheEntry
lookup rows ci = get ci rows

unfoldable pub put : Cache → CacheEntry → Cache
put rows entry =
    if has entry.compute_identity rows then rows else set entry.compute_identity entry rows

abbrev cache_key : CacheEntry → String
cache_key e = e.compute_identity

abbrev cache_stamp : CacheEntry → ℕ
cache_stamp e = e.created_at_ms

unfoldable pub sweep_expired : Cache → ℕ → ℕ → ℕ → Cache × ℕ
unfolding Sweep.sweep
sweep_expired rows now ttl limit = Sweep.sweep cache_key cache_stamp rows now ttl limit
