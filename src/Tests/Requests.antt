-- ===== src/Tests/Requests.antt =====
-- The theorems on requests, retention and load at concrete inputs.
use tuzka_as_a_service.Prelude.{
  ℕ, ◌+◌, ◌-◌, ◌≤◌, ◌<◌, ◌≡◌, refl, true, ◌&&◌, Option, none, some, List, [], ◌∷◌, arith, ◌⊎◌,
  codes, Text, take, length, sort_texts, text_in,
}
use tuzka_as_a_service.Prelude.Int.{ℤ, pos}
use tuzka_as_a_service.RateLimit.{Bucket, gcra, retry_after_suffices}
use tuzka_as_a_service.Retention.{evict_target, plan_eviction, keys, total_size, plan_eviction_lem}
use tuzka_as_a_service.Scopes.{
  Principal, check_scope, visible_outputs, permitted, visible_iff_permitted,
}
use tuzka_as_a_service.Load.{load_field, parse_load_field, load_roundtrip}
use tuzka_as_a_service.Load.Totals.{compute_load, group_load, by_domain}
use tuzka_as_a_service.Load.Groups.{sum_loads, group_load-sum}

abbrev full : Option Bucket
full = some (record { tat = 120; expires = 140 })

retry_after_suffices_example :
    ((gcra 10 15 1 100 full).0 ≡ full)
    × ((gcra 10 15 1 (100 + (gcra 10 15 1 100 full).1.retry_after) full).1.allowed ≡ true)
unfolding gcra
retry_after_suffices_example = retry_after_suffices 10 15 1 100 full (omega arith) refl

abbrev results : List (ℕ × ℕ)
results = (1, 40) ∷ (2, 30) ∷ (3, 30) ∷ []

plan_eviction_lem_example :
    (k : ℕ) × (plan_eviction results 100 90 ≡ keys (take k results))
    × ((100 ≤ evict_target 90 + total_size (take k results)) ⊎ (length results ≤ k))
    × ((k ≡ 0) ⊎ (evict_target 90 + total_size (take (k - 1) results) < 100))
plan_eviction_lem_example = plan_eviction_lem results 100 90 (omega arith)

abbrev anna : Principal
anna = record {
  username = codes "anna";
  allowed_domains = none;
  allowed_outputs = some (codes "txt" ∷ []);
}

visible_iff_permitted_example :
    text_in (codes "txt") (visible_outputs anna (codes "default") (codes "alto" ∷ codes "txt" ∷ []))
    ≡ (text_in (codes "txt") (codes "alto" ∷ codes "txt" ∷ [])
        && permitted (check_scope anna (codes "default") (codes "txt" ∷ [])))
visible_iff_permitted_example =
    visible_iff_permitted anna (codes "default") (codes "txt") (codes "alto" ∷ codes "txt" ∷ [])

load_roundtrip_example :
    parse_load_field (load_field (codes "maps") (codes "txt" ∷ codes "alto" ∷ []))
    ≡ (codes "maps", sort_texts (codes "txt" ∷ codes "alto" ∷ []))
load_roundtrip_example = load_roundtrip (codes "maps") (codes "txt" ∷ codes "alto" ∷ []) refl refl

abbrev waiting_pages : List (Text × ℤ)
waiting_pages = (codes "maps|txt", pos 3) ∷ (codes "default|alto", pos 2) ∷ []

group_load-sum_example :
    sum_loads (group_load waiting_pages [] [] 4 by_domain [] none)
    ≡ compute_load waiting_pages [] [] 4 none none
group_load-sum_example = group_load-sum waiting_pages [] [] 4 []
