-- ===== src/Route/Tests.antt =====
-- Four workers: packages of the worker 1 and of the other thread.
use avant.Base.{
  ℕ, ◌≡◌, ◌⊎◌, refl, ℤ, pos, negsuc, ◌&&◌, true, false, some, List, [], ◌∷◌, nat_eq, int_eq,
}
use avant.Base.Set
use avant.TunnelId.{TunnelId, is_worker_tunnel_id}
use avant.Route.{TunnelEnd, all_target, worker_tunnel_forward}
use avant.Route.Targets.{reaches, all_target-reaches}
use avant.Route.Delivery.{IsRouted, is_end, worker_tunnel_forward-IsRouted}

abbrev four_workers : TunnelId
four_workers = record { m_worker_cnt = 4 }

all_target-reaches_example :
    (all : List ℤ) × (all_target four_workers (negsuc 0) (pos 2 ∷ negsuc 1 ∷ pos 9 ∷ []) ≡ some all)
    × Set.IsSetList all
    × ((id : ℤ)
        → Set.contains id all ≡ reaches four_workers (negsuc 0) (pos 2 ∷ negsuc 1 ∷ pos 9 ∷ []) id)
all_target-reaches_example =
    all_target-reaches four_workers (negsuc 0) (pos 2 ∷ negsuc 1 ∷ pos 9 ∷ []) refl

abbrev open_end : TunnelEnd ℕ
open_end = record { connected = true; send_buffer = []; flushes = 0; write_interest = false }

abbrev dests : List ℤ
dests = pos 0 ∷ negsuc 0 ∷ negsuc 1 ∷ pos 0 ∷ []

worker_tunnel_forward-IsRouted_example :
    ((worker_tunnel_forward four_workers 1 dests 77 true open_end ≡ (negsuc 0, open_end))
      × ((id : ℤ) → Set.contains id dests && is_end four_workers id ≡ false))
    ⊎ (((worker_tunnel_forward four_workers 1 dests 77 true open_end).0 ≡ pos 0)
        × IsRouted four_workers dests 77 open_end
            (worker_tunnel_forward four_workers 1 dests 77 true open_end).1)
unfolding is_worker_tunnel_id
worker_tunnel_forward-IsRouted_example =
    worker_tunnel_forward-IsRouted four_workers 1 dests 77 true open_end refl refl
