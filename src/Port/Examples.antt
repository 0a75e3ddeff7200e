-- ===== src/Port/Examples.antt =====
-- Queue claims on a port with two queues.
use dpdk_wrapper_library.Base.{◌≡◌, ◌<◌, refl, [], ◌∷◌, true, false, get_or, arith}
use dpdk_wrapper_library.Port.Handed.{
  next, by_id, serve_all, after, AllDistinct, All, serve_all-AllDistinct, claim_next-exhausted,
}
use dpdk_wrapper_library.Port.{new_queues, skip_claimed, claim_next, claim_by_id}

serve_all-AllDistinct_example :
    AllDistinct (serve_all (by_id 0 ∷ next ∷ by_id 1 ∷ []) (new_queues 2))
    × All (λ i. i < 2) (serve_all (by_id 0 ∷ next ∷ by_id 1 ∷ []) (new_queues 2))
serve_all-AllDistinct_example = serve_all-AllDistinct 2 (by_id 0 ∷ next ∷ by_id 1 ∷ [])

claim_next-exhausted_example :
    get_or (after (by_id 0 ∷ next ∷ []) (new_queues 2)).claimed 0 false ≡ true
unfolding new_queues skip_claimed claim_next claim_by_id
claim_next-exhausted_example = claim_next-exhausted 2 (by_id 0 ∷ next ∷ []) refl 0 (omega arith)
