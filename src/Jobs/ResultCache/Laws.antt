-- ===== src/Jobs/ResultCache/Laws.antt =====
-- The first writer of a cache entry wins, until the entry is older than its time to live.
use backtester.Prelude.{
  ℕ, String, List, [], ◌∷◌, some, false, ◌≡◌, arith, eq_iff, inl, inr, Bool-cases, if◌then◌else◌,
  str_eq, is_some,
}
use backtester.OrderedMap.{get, has, keys, Distinct}
use backtester.OrderedMap.Laws.{get-set, Distinct-set}
use backtester.Jobs.Sweep.Laws.{IsKeyed, get-sweep_kept, sweep-Distinct, sweep-IsKeyed}
use backtester.Jobs.Sweep.{is_old}
use backtester.Jobs.ResultCache.{
  CacheEntry, Cache, lookup, put, sweep_expired, cache_key, cache_stamp,
}

pub data CacheCall : Type 0 where
  puts : CacheEntry → CacheCall
  sweeps : (now ttl limit : ℕ) → CacheCall

unfoldable pub cache_step : Cache → CacheCall → Cache
cache_step rows (puts entry) = put rows entry
cache_step rows (sweeps now ttl limit) = (sweep_expired rows now ttl limit).0

unfoldable pub cache_run : Cache → List CacheCall → Cache
cache_run rows [] = rows
cache_run rows (c ∷ cs) = cache_run (cache_step rows c) cs

pub record IsSound (rows : Cache) : Type 0 where
  pub keyed : IsKeyed cache_key cache_stamp rows
  pub distinct : Distinct (keys rows)

put-keyed :
    (rows : Cache) (e : CacheEntry) (k : String) (r : CacheEntry)
    → IsKeyed cache_key cache_stamp rows
    → get k (put rows e) ≡ some r
    → r.compute_identity ≡ k
unfolding put
put-keyed rows e k r h held =
    ground (arith, eq_iff e.compute_identity k, get-set e.compute_identity k e rows, h k r)

put-Distinct : (rows : Cache) (e : CacheEntry) → Distinct (keys rows) → Distinct (keys (put rows e))
unfolding put
put-Distinct rows e d = elim (Bool-cases (has e.compute_identity rows)) [
  | inl old ↦ rw (old, put) d
  | inr new ↦ rw (new, put) (Distinct-set e.compute_identity e rows d)
]

pub cache_step-IsSound : (rows : Cache) (c : CacheCall) → IsSound rows → IsSound (cache_step rows c)
unfolding cache_step sweep_expired
cache_step-IsSound rows (puts e) s = record {
  keyed = λ k r h. put-keyed rows e k r s.keyed h;
  distinct = put-Distinct rows e s.distinct;
}
cache_step-IsSound rows (sweeps now ttl limit) s = record {
  keyed = sweep-IsKeyed cache_key cache_stamp rows now ttl limit s.distinct s.keyed;
  distinct = sweep-Distinct cache_key cache_stamp rows now ttl limit s.distinct;
}

-- `put` never replaces an entry, and afterwards there is one.
pub lookup-put :
    (rows : Cache) (e : CacheEntry) (ci : String)
    → lookup (put rows e) ci ≡ (
        if str_eq e.compute_identity ci
        then (if is_some (lookup rows ci) then lookup rows ci else some e)
        else lookup rows ci)
unfolding lookup put
lookup-put rows e ci =
    ground (arith, eq_iff e.compute_identity ci, get-set e.compute_identity ci e rows)

-- The clean-ups among some calls find the entry within its time to live.
abbrev pub AllYoung : CacheEntry → List CacheCall → Type 0
AllYoung e [] = Unit {0}
AllYoung e (puts _ ∷ cs) = AllYoung e cs
AllYoung e (sweeps now ttl limit ∷ cs) =
    (is_old cache_key cache_stamp now ttl e ≡ false) × AllYoung e cs

cache_step-get :
    (rows : Cache) (c : CacheCall) (ci : String) (e : CacheEntry)
    → IsSound rows
    → lookup rows ci ≡ some e
    → AllYoung e (c ∷ [])
    → lookup (cache_step rows c) ci ≡ some e
unfolding cache_step sweep_expired lookup
cache_step-get rows (puts new) ci e s held y =
    let e' : get ci (put rows new) ≡ (
        if str_eq new.compute_identity ci
        then (if is_some (get ci rows) then get ci rows else some new)
        else get ci rows) =
      lookup-put rows new ci in
    ground arith
cache_step-get rows (sweeps now ttl limit) ci e s held (y, _) =
    get-sweep_kept cache_key cache_stamp rows now ttl limit ci e s.distinct s.keyed held y

AllYoung-split :
    (e : CacheEntry) (c : CacheCall) (cs : List CacheCall)
    → AllYoung e (c ∷ cs)
    → AllYoung e (c ∷ []) × AllYoung e cs
AllYoung-split e (puts _) cs y = (tt, y)
AllYoung-split e (sweeps now ttl limit) cs (h, y) = ((h, tt), y)

-- An entry of a sound cache stays as it was written, whatever is put and swept afterwards, as long
-- as no sweep finds it older than the time to live.
pub cache_run-stable :
    (rows : Cache) (cs : List CacheCall) (ci : String) (e : CacheEntry)
    → IsSound rows
    → lookup rows ci ≡ some e
    → AllYoung e cs
    → lookup (cache_run rows cs) ci ≡ some e
unfolding cache_run
cache_run-stable rows [] ci e s held y = held
cache_run-stable rows (c ∷ cs) ci e s held y =
    let (one, rest) = AllYoung-split e c cs y in
    cache_run-stable (cache_step rows c) cs ci e (cache_step-IsSound rows c s)
      (cache_step-get rows c ci e s held one) rest
