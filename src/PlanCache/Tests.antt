-- ===== src/PlanCache/Tests.antt =====
-- Runs of the plan cache.
use querix_semantic_search.Prelude.{
  ℕ, ◌≡◌, ◌≢◌, refl, true, none, some, [], ◌∷◌, Text, codes, text_eq, text_eq_iff, lookup, arith,
}
use querix_semantic_search.PlanCache.Cache.{CachedPlan, PlanCache, cached_plan, cache_plan}
use querix_semantic_search.PlanCache.Recent.{looks, uses, leaves, stored_plan_found}

abbrev rent : Text
rent = codes "rent a car"

abbrev sofa : Text
sofa = codes "sofa"

abbrev desk : Text
desk = codes "desk"

abbrev cached : CachedPlan ℕ
cached = record { expires_at = 100; plan = 7 }

abbrev full : PlanCache ℕ
full = record {
  size = 2;
  ttl = 60;
  entries = (rent, cached) ∷ (sofa, record { expires_at = 90; plan = 8 }) ∷ [];
}

-- A plan for `desk` is stored, and that for `rent` is looked up before it is asked for.
rent-leaves : leaves {P = ℕ} desk 110 (looks none rent 60 60) ≡ true
unfolding text_eq
rent-leaves = refl

stored_plan_found_example :
    (cached_plan none desk 100 100
      (uses (looks none rent 60 60 ∷ []) (cache_plan true desk 9 50 full).0)).1
    ≡ some 9
stored_plan_found_example =
    stored_plan_found true desk 9 50 (looks none rent 60 60 ∷ []) none 100 100 full refl
      (rent-leaves, tt) (omega arith) (omega arith)

is_cached : lookup rent full.entries ≡ some cached
unfolding lookup text_eq
is_cached = refl

rent_is_not_desk : rent ≢ desk
unfolding text_eq
rent_is_not_desk = λ e. let h = (text_eq_iff rent desk).1 e in cc
