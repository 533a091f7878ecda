-- ===== src/Actor/Timeline/Order.antt =====
-- What a stream with contiguous seqs says of its frontiers.
use backtester.Prelude.{
  ℕ, suc, ◌≤◌, String, List, [], ◌∷◌, Option, none, some, Bool, true, false, ◌≡◌, refl, ◌∙◌, All,
  override, arith, ◌==◌, if◌then◌else◌,
}
use backtester.Actor.Timeline.{ActorTimelineEntry, TimelineAxis, seqs_of, assert_actor_timeline}
use backtester.Actor.Timeline.Laws.{last_seq, HasWatermarks, IsTimeline, assert_actor_timeline_iff}

-- One after the other, from the first.
abbrev pub Contiguous : ℕ → List ℕ → Type 0
Contiguous first [] = Unit
Contiguous first (s ∷ ss) = (s ≡ first) × Contiguous (suc first) ss

-- No entry of a frontier lies above its mark.
abbrev pub IsMarked : List ActorTimelineEntry → ℕ → ℕ → Type 0
IsMarked es k mark = All (λ e. (e.frontier == k) ≡ true → e.seq ≤ mark) es

no_override :
    (o : Option ℕ) (b : Bool) (s : ℕ)
    → override o (if b then some s else none) ≡ none
    → (o ≡ none) × (b ≡ false)
no_override none true s h = absurd (cc)
no_override none false s h = (refl, refl)
no_override (some t) b s h = absurd (cc)

own_mark : (b : Bool) (s mark : ℕ) → (if b then some s else none) ≡ some mark → s ≡ mark
own_mark true s mark h = cc
own_mark false s mark h = absurd (cc)

no_last-IsMarked :
    (es : List ActorTimelineEntry) (k mark : ℕ) → last_seq k es ≡ none → IsMarked es k mark
no_last-IsMarked [] k mark h = tt
no_last-IsMarked (e ∷ es) k mark h =
    let parts = no_override (last_seq k es) (e.frontier == k) e.seq h in
    (λ at. absurd (cc), no_last-IsMarked es k mark parts.0)

last_seq-IsMarked :
    (first : ℕ) (es : List ActorTimelineEntry) (k mark : ℕ)
    → Contiguous first (seqs_of es)
    → last_seq k es ≡ some mark
    → (first ≤ mark) × IsMarked es k mark
last_seq-IsMarked first [] k mark c h = absurd (cc)
last_seq-IsMarked first (e ∷ es) k mark (same, c) h =
    by_rest (last_seq k es) refl h (λ s at. last_seq-IsMarked (suc first) es k s c at)
  where
    by_rest :
        (o : Option ℕ)
        → last_seq k es ≡ o
        → override o (if e.frontier == k then some e.seq else none) ≡ some mark
        → ((s : ℕ) → last_seq k es ≡ some s → (suc first ≤ s) × IsMarked es k s)
        → (first ≤ mark) × IsMarked (e ∷ es) k mark
    by_rest none at own later =
        let here = own_mark (e.frontier == k) e.seq mark own in
        (ground (arith, here, same), (λ on. ground (arith, here), no_last-IsMarked es k mark at))
    by_rest (some s) at own later =
        let rest = later mark (at ∙ own) in
        (ground (arith, rest.0), (λ on. ground (arith, rest.0, same), rest.1))

All-IsMarked :
    (first : ℕ) (es : List ActorTimelineEntry) (axis : List TimelineAxis)
    → Contiguous first (seqs_of es)
    → HasWatermarks es axis
    → All (λ f. IsMarked es f.index f.last_committed_seq) axis
All-IsMarked first es [] c h = tt
All-IsMarked first es (f ∷ fs) c (h, hs) =
    ((last_seq-IsMarked first es f.index f.last_committed_seq c h).1, All-IsMarked first es fs c hs)

module _ (is_contiguous : List ℕ → ℕ → Bool) (is_blank : String → Bool)
    (contiguous_seqs : (first : ℕ) (ss : List ℕ)
      → is_contiguous ss first ≡ true
      → Contiguous first ss) where
  IsTimeline-IsMarked :
      (es : List ActorTimelineEntry) (axis : List TimelineAxis)
      → IsTimeline is_contiguous is_blank es axis
      → All (λ f. IsMarked es f.index f.last_committed_seq) axis
  IsTimeline-IsMarked [] [] t = tt
  IsTimeline-IsMarked (e ∷ es) [] t = tt
  IsTimeline-IsMarked [] (f ∷ fs) t = absurd t
  IsTimeline-IsMarked (e ∷ es) (f ∷ fs) (safe, joined, fits, watermarks) =
      All-IsMarked e.seq (e ∷ es) (f ∷ fs) (contiguous_seqs e.seq (seqs_of (e ∷ es)) joined)
        watermarks

  -- If the engine only finds seqs contiguous that follow one another, then in a timeline that
  -- passes no entry of a frontier has a seq above the one that the frontier has committed.
  pub assert_actor_timeline-IsMarked :
      (es : List ActorTimelineEntry) (axis : List TimelineAxis)
      → assert_actor_timeline is_contiguous is_blank es axis ≡ none
      → All (λ f. IsMarked es f.index f.last_committed_seq) axis
  assert_actor_timeline-IsMarked es axis h =
      IsTimeline-IsMarked es axis ((assert_actor_timeline_iff is_contiguous is_blank es axis).0 h)
