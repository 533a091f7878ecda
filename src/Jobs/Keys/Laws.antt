-- ===== src/Jobs/Keys/Laws.antt =====
-- Which requests share a key.
use backtester.Prelude.{String, ◌≡◌}
use backtester.Json.{Json}
use backtester.Jobs.Row.{RunSubmitRequest}
use backtester.Jobs.Keys.{compute_family_key, family_preimage, hint_of}

-- Two requests on whose texts the digest does not collide are of one trial family only if they
-- have the same hint, data set, timeframe and period: the same idea on another window is another
-- family.
pub compute_family_key_separates :
    (digest : Json → String) (a b : RunSubmitRequest)
    → (digest (family_preimage a) ≡ digest (family_preimage b)
        → family_preimage a ≡ family_preimage b)
    → compute_family_key digest a ≡ compute_family_key digest b
    → (hint_of a ≡ hint_of b)
      × (a.dataset_ref ≡ b.dataset_ref)
      × (a.timeframe ≡ b.timeframe)
      × (a.period.from ≡ b.period.from)
      × (a.period.to ≡ b.period.to)
unfolding compute_family_key
compute_family_key_separates digest a b inj h = let same = inj h in (cc, cc, cc, cc, cc)
