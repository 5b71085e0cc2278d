-- ===== src/Graph/Fresh.antt =====
-- modules/graph/api/graph.go: the answer of Query has each time once, and loses no cached point.
use falcon_plus.Base.{
  ℕ, ◌+◌, ◌*◌, ◌≤◌, ◌<◌, ◌≡◌, refl, ap, sym, ◌∙◌, subst, ◌⊎◌, inl, inr, true, false, Option, some,
  List, [], ◌∷◌, Run, ◌>>=◌, arith,
}
use falcon_plus.Base.Int.{ℤ, pos}
use falcon_plus.Base.Word.{two63}
use falcon_plus.Base.Text.{codes, eq_text}
use falcon_plus.Base.Float.{Float64}
use falcon_plus.Graph.Linked.{GraphItem, last_of}
use falcon_plus.Graph.Query.{
  RrdData, Sources, in_range, within, rounds, cache_of, do_merging, format_result, ret_size, merge,
}
use falcon_plus.Graph.Consec.{Consec, Has}
use falcon_plus.Graph.Joined.{do_merging-Merges}
use falcon_plus.Graph.Ranged.{
  within-Consec, within-Consec_from, within-Has, Lined, datum_of, gauge_loop-Formats,
}
use falcon_plus.Graph.Formatted.{
  All-HasItem, Answers, HasItem, Lined-bounded, enough_rounds, format_result-Answers, room,
}

module _ {F : Type 0} ⦃f : Float64 F⦄ (env : Sources F) where
  -- The cached data of a gauge in range are consecutive from a time of the answer on.
  cached-Consec :
      (s a b t g : ℕ) (full : List (RrdData F))
      → 0 < s
      → (a ≡ t + g * s) ⊎ (t ≡ a + g * s)
      → Consec s t full
      → (k : ℕ) × Consec s (a + k * s) (within (pos a) (pos b) full) × ((k ≡ 0) ⊎ (a + k * s ≡ t))
  cached-Consec s a b t g full p (inl e) h =
      let same : a ≡ a + 0 * s = omega arith in
      (
        0,
        subst (λ u. Consec s u (within (pos a) (pos b) full)) same
            (within-Consec_from s a b t g full p e h),
        inl refl,
      )
  cached-Consec s a b t g full p (inr e) h = (
    g,
    subst (λ u. Consec s u (within (pos a) (pos b) full)) e
        (within-Consec s a b t full (omega (arith, e)) h),
    inr (sym e),
  )

  -- do_merging of what is in range, where the datum is a cached number.
  merged_cache :
      (s a k : ℕ) (merged cache : List (RrdData F)) (d : RrdData F)
      → 0 < s
      → a + k * s + s < two63
      → Consec s a merged
      → Consec s (a + k * s) cache
      → env.is_nan d.value ≡ false
      → Has d cache
      → (k' : ℕ) × (l : List (RrdData F)) × (do_merging env (pos s) cache merged ≡ some l)
        × Consec s (a + k' * s) l
        × Has d l
  merged_cache s a k merged [] d p fits h c number m = absurd m
  merged_cache s a k merged (x ∷ cache) d p fits h c number m =
      let (k', l, run, hl, kept) = do_merging-Merges env s a k merged cache x p fits h c in
      (k', l, run, hl, kept d number m)

  -- For a GAUGE, a step above 0, a start that is not after the end, times that fit in an int64
  -- with a step to spare, cached points in rising order on times that the start is a whole number
  -- of steps from, and archived points that are consecutive from the start on: the merge of Query
  -- returns, its times are those from the start to the end, step by step, each once, and a given
  -- cached point in that range whose value is a number is among its points.
  pub merge-Fresh :
      (s a b t g e : ℕ) (item last i : GraphItem F) (items : List (GraphItem F))
      (datas : List (RrdData F))
      → 0 < s
      → a ≤ b
      → b + s < two63
      → e + s < two63
      → (a ≡ t + g * s) ⊎ (t ≡ a + g * s)
      → item.timestamp ≡ pos t
      → Lined s (t + s) items
      → last_of (item ∷ items) ≡ some last
      → last.timestamp ≡ pos e
      → Consec s a datas
      → HasItem i (item ∷ items)
      → in_range (pos a) (pos b) i.timestamp ≡ true
      → env.is_nan i.value ≡ false
      → Answers env a b s
          (datum_of i)
          (merge env (codes "GAUGE") (pos a) (pos b) (pos s) item items datas)
  unfolding merge cache_of eq_text
  merge-Fresh s a b t g e item last i items datas p o fits fits' aligned at_t lined final at_e whole
        among inside number =
      let zero_times : t + 0 * s ≡ t = omega arith in
      let lined' : Lined s t (item ∷ items) = (
        0,
        at_t ∙ ap pos (sym zero_times),
        subst (λ u. Lined s (u + s) items) (sym zero_times) lined,
      ) in
      let bounded = Lined-bounded s t e (item ∷ items) last lined' final at_e in
      let low : t ≤ e = ground (arith, bounded.0, at_t) in
      let (full, run, consec, has) =
        gauge_loop-Formats env (rounds (pos t) (pos e)) s a b t e (item ∷ items) p fits'
          (omega arith) (enough_rounds t e low) lined' bounded in
      let (k, cached, edge) = cached-Consec s a b t g full p aligned consec in
      let datum = datum_of i in
      let here : Has datum (within (pos a) (pos b) full) =
        within-Has (pos a) (pos b) datum full inside
          (All-HasItem (λ j. Has (datum_of j) full) i (item ∷ items) has among) in
      let (k', l, run', hl, kept) =
        merged_cache s a k (within (pos a) (pos b) datas) (within (pos a) (pos b) full) datum p
          (room s a b t e k fits fits' o low edge) (within-Consec s a b a datas (omega arith) whole)
          cached number here in
      let answer = format_result-Answers env a b s k' l datum p o fits hl inside kept in
      let merged = within (pos a) (pos b) datas in
      let size_then = λ (l : List (RrdData F)).
        ret_size env (codes "GAUGE") (pos a) (pos b) (pos s) >>= λ size.
        some (format_result env size (pos s) (pos a) l) in
      let then_merge = λ (r : Run (List (RrdData F))).
        r >>= λ cache. do_merging env (pos s) cache merged >>= size_then in
      let body = λ (ts te : ℤ).
        then_merge (cache_of env (codes "GAUGE") (pos a) (pos b) (pos s) ts te (item ∷ items)) in
      let whole_run : merge env (codes "GAUGE") (pos a) (pos b) (pos s) item items datas
          ≡ size_then l =
        ap (λ (o : Option (GraphItem F)). o >>= λ z. body item.timestamp z.timestamp) final
        ∙ ap (λ ts. body ts last.timestamp) at_t
        ∙ ap (body (pos t)) at_e
        ∙ ap then_merge run
        ∙ ap (λ (r : Run (List (RrdData F))). r >>= size_then) run' in
      subst (Answers env a b s datum) (sym whole_run) answer
