-- ===== src/Route/Targets.antt =====
-- Which ends a package reaches.
use avant.Base.{
  ℕ, zero, suc, ◌≡◌, ◌<◌, inl, inr, ℤ, pos, eq_ℤ, eq_ℤ_iff, Bool, true, not, ◌&&◌, ◌||◌, some, List,
  [], ◌∷◌, nat_eq, int_eq, length, arith, Bool-cases,
}
use avant.Base.Set
use avant.TunnelId.{
  TunnelId, get_other_tunnel_id, get_main_tunnel_id, is_tunnel_id, is_worker_tunnel_id,
  workers_below, contains-workers_below,
}
use avant.Route.{filter_dest, targets_from_other, targets_from_worker, all_target}

pub contains-filter_dest :
    (t : TunnelId) (id : ℤ) (dests all : List ℤ)
    → Set.contains id (filter_dest t dests all)
      ≡ Set.contains id all
        || (Set.contains id dests && (is_tunnel_id t id && not (eq_ℤ get_main_tunnel_id id)))
unfolding filter_dest Set.contains
contains-filter_dest t id [] all = ground arith
contains-filter_dest t id (dest ∷ rest) all = ground (
  arith,
  contains-filter_dest t id rest all,
  contains-filter_dest t id rest (Set.insert dest all),
  Set.contains-insert dest id all,
  eq_ℤ_iff dest id,
)

contains-targets_from_other :
    (t : TunnelId) (id : ℤ) (targets all : List ℤ)
    → Set.contains id (targets_from_other t targets all)
      ≡ Set.contains id all || (Set.contains id targets && is_worker_tunnel_id t id)
unfolding targets_from_other Set.contains is_worker_tunnel_id
contains-targets_from_other t id [] all = ground arith
contains-targets_from_other t id (target ∷ rest) all = ground (
  arith,
  contains-targets_from_other t id rest all,
  contains-targets_from_other t id rest (Set.insert target all),
  Set.contains-insert target id all,
  eq_ℤ_iff target id,
  eq_ℤ_iff target get_main_tunnel_id,
)

contains-targets_from_worker :
    (t : TunnelId) (id : ℤ) (targets all : List ℤ)
    → Set.contains id (targets_from_worker t targets all)
      ≡ Set.contains id all
        || (Set.contains id targets && (is_worker_tunnel_id t id || eq_ℤ id get_other_tunnel_id))
unfolding targets_from_worker Set.contains is_worker_tunnel_id
contains-targets_from_worker t id [] all = ground arith
contains-targets_from_worker t id (target ∷ rest) all = ground (
  arith,
  contains-targets_from_worker t id rest all,
  contains-targets_from_worker t id rest (Set.insert target all),
  Set.contains-insert target id all,
  eq_ℤ_iff target id,
  eq_ℤ_iff target get_main_tunnel_id,
  eq_ℤ_iff target get_other_tunnel_id,
)

targets_from_other-IsSetList :
    (t : TunnelId) (targets all : List ℤ)
    → Set.IsSetList all
    → Set.IsSetList (targets_from_other t targets all)
unfolding targets_from_other
targets_from_other-IsSetList t [] all h = h
targets_from_other-IsSetList t (target ∷ rest) all h =
    targets_from_other-IsSetList t rest _ (ground (arith, Set.insert-IsSetList target all h))

targets_from_worker-IsSetList :
    (t : TunnelId) (targets all : List ℤ)
    → Set.IsSetList all
    → Set.IsSetList (targets_from_worker t targets all)
unfolding targets_from_worker
targets_from_worker-IsSetList t [] all h = h
targets_from_worker-IsSetList t (target ∷ rest) all h =
    targets_from_worker-IsSetList t rest _ (ground (arith, Set.insert-IsSetList target all h))

workers_below-IsSetList :
    (n : ℕ) (all : List ℤ) → Set.IsSetList all → Set.IsSetList (workers_below n all)
workers_below-IsSetList zero all h = h
workers_below-IsSetList (suc n) all h =
    Set.insert-IsSetList (pos n) (workers_below n all) (workers_below-IsSetList n all h)

-- Which ends a package from `source` with these targets is for: every worker if it names none, and
-- else those workers that it names; the other thread only if a worker names it.
abbrev pub reaches : TunnelId → ℤ → List ℤ → ℤ → Bool
reaches t source [] id = is_worker_tunnel_id t id
reaches t source (target ∷ rest) id =
    Set.contains id (target ∷ rest)
    && (is_worker_tunnel_id t id || (eq_ℤ id get_other_tunnel_id && is_worker_tunnel_id t source))

-- The targets that the main thread computes for a package of a worker or of the other thread are
-- the ends that the package is for, each once, and no other: never the main thread, and no id
-- beyond the workers.
pub all_target-reaches :
    (t : TunnelId) (source : ℤ) (target : List ℤ)
    → eq_ℤ source get_other_tunnel_id || is_worker_tunnel_id t source ≡ true
    → (all : List ℤ) × (all_target t source target ≡ some all)
      × Set.IsSetList all
      × ((id : ℤ) → Set.contains id all ≡ reaches t source target id)
unfolding all_target is_worker_tunnel_id Set.contains
all_target-reaches t source [] h = (
  workers_below t.m_worker_cnt [],
  ground arith,
  workers_below-IsSetList t.m_worker_cnt [] tt,
  λ id. ground (arith, contains-workers_below t id []),
)
all_target-reaches t source (x ∷ xs) h = elim (Bool-cases (eq_ℤ source get_other_tunnel_id)) [
  | inl q ↦ (
    targets_from_other t (x ∷ xs) [],
    ground arith,
    targets_from_other-IsSetList t (x ∷ xs) [] tt,
    λ id. ground (
      arith,
      contains-targets_from_other t id (x ∷ xs) [],
      (eq_ℤ_iff source get_other_tunnel_id).0 q,
    ),
  )
  | inr q ↦ (
    targets_from_worker t (x ∷ xs) [],
    ground arith,
    targets_from_worker-IsSetList t (x ∷ xs) [] tt,
    λ id. ground (arith, contains-targets_from_worker t id (x ∷ xs) []),
  )
]

pub length-contains : (id : ℤ) (xs : List ℤ) → Set.contains id xs ≡ true → 0 < length xs
unfolding Set.contains
length-contains id [] h = absurd (ground (arith, h))
length-contains id (x ∷ xs) h = omega arith
