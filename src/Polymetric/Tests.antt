-- ===== src/Polymetric/Tests.antt =====
-- GeneralPolyMethods at concrete batches.
use falcon_plus.Base.{ℕ, ◌*◌, ◌/◌, ◌<◌, ◌≤◌, ◌≡◌, refl, true, some, List, [], ◌∷◌, ◌++◌, map, arith}
use falcon_plus.Base.Int.{ℤ, pos}
use falcon_plus.Base.Text.{codes}
use falcon_plus.Base.Dict.{Dict}
use falcon_plus.Base.Float.{fixed_float, fixed_IsOrdered}
use falcon_plus.Transfer.Model.{PolyRequest}
use falcon_plus.Polymetric.Worker.{Config, Summary, Output, summary_of, general_poly_methods}
use falcon_plus.Polymetric.Ranks.{IsRanked, Summarises, general_poly_methods-Summarises}
use falcon_plus.Polymetric.Changes.{methods, changes, Pushes, general_poly_methods-changes}

abbrev config : Config
config = record {
  half = λ n. n / 2;
  most = λ n. n * 95 / 100;
  nearly_all = λ n. n * 99 / 100;
  prome_enabled = true;
  has_producer = true;
  nump_enabled = true;
}

config-IsRanked : IsRanked config
config-IsRanked = record {
  half_below = λ n h. omega arith;
  most_below = λ n h. omega arith;
  nearly_all_below = λ n h. omega arith;
}

abbrev sent : ℕ → PolyRequest ℤ
sent value = record {
  poly_name = codes "ams_tag||web||load";
  end_point = codes "web1";
  type = codes "GAUGE";
  value = pos value;
}

general_poly_methods-Summarises_example :
    Summarises fixed_IsOrdered config config-IsRanked
      (codes "ams_tag")
      (codes "web")
      (codes "load")
      (pos 7 ∷ pos 2 ∷ pos 5 ∷ [])
      (general_poly_methods config (codes "ams_tag||web||load") (sent 7 ∷ sent 2 ∷ sent 5 ∷ []) [])
unfolding falcon_plus.Base.Strings.split_pair
general_poly_methods-Summarises_example =
    general_poly_methods-Summarises fixed_IsOrdered config config-IsRanked
      (codes "ams_tag||web||load") (codes "ams_tag") (codes "web") (codes "load") [] (sent 7)
      (sent 2 ∷ sent 5 ∷ []) [] refl (refl, (refl, (refl, tt)))

general_poly_methods-changes_example :
    (s s' : Summary ℤ) × (history : Dict (List ℕ) ℤ) × (out : List (Output ℤ)) × (summary_of config
        (pos 7 ∷ pos 2 ∷ [])
      ≡ some s)
    × (summary_of config (pos 4 ∷ []) ≡ some s')
    × (general_poly_methods config (codes "ams_tag||web||load") (sent 7 ∷ sent 2 ∷ []) []
        ≡ some (history, out))
    × Pushes fixed_IsOrdered config config-IsRanked
        (codes "ams_tag_poly_web")
        (codes "load")
        s'
        (changes (codes "ams_tag_poly_web") (codes "load") (methods s s'))
        (general_poly_methods config (codes "ams_tag||web||load") (sent 4 ∷ []) history)
unfolding falcon_plus.Base.Strings.split_pair
general_poly_methods-changes_example =
    general_poly_methods-changes fixed_IsOrdered config config-IsRanked (codes "ams_tag||web||load")
      (codes "ams_tag") (codes "web") (codes "load") [] (sent 7) (sent 4) (sent 2 ∷ []) [] [] refl
      (refl, (refl, tt)) (refl, tt)
