-- ===== src/Route/Delivery.antt =====
-- From a worker's tunnel_forward to the ends that receive the package.
use avant.Base.{
  ℕ, zero, suc, ◌≡◌, ◌<◌, ◌⊎◌, refl, ap, ◌∙◌, inl, inr, ℤ, pos, negsuc, eq_ℤ, Bool, true, false,
  not, ◌&&◌, ◌||◌, some, List, [], ◌∷◌, ◌++◌, nat_eq, int_eq, leb, length, arith, Bool-cases,
}
use avant.Base.Set
use avant.TunnelId.{
  TunnelId, get_other_tunnel_id, get_main_tunnel_id, is_tunnel_id, is_worker_tunnel_id,
}
use avant.Route.{
  TunnelPackage, TunnelEnd, filter_dest, all_target, worker_tunnel_forward, append_package,
}
use avant.Route.Targets.{contains-filter_dest, length-contains, all_target-reaches, reaches}

-- a worker or the other thread
abbrev pub is_end : TunnelId → ℤ → Bool
is_end t id = is_worker_tunnel_id t id || eq_ℤ id get_other_tunnel_id

is_end_iff :
    (t : TunnelId) (id : ℤ) → (is_tunnel_id t id && not (eq_ℤ get_main_tunnel_id id)) ≡ is_end t id
unfolding is_tunnel_id is_worker_tunnel_id
is_end_iff t (pos n) = ground arith
is_end_iff t (negsuc zero) = ground arith
is_end_iff t (negsuc (suc zero)) = ground arith
is_end_iff t (negsuc (suc (suc n))) = ground arith

contains-filtered :
    (t : TunnelId) (id : ℤ) (dests : List ℤ)
    → Set.contains id (filter_dest t dests []) ≡ Set.contains id dests && is_end t id
unfolding Set.contains
contains-filtered t id dests =
    contains-filter_dest t id dests []
    ∙ ap (λ (b : Bool). Set.contains id dests && b) (is_end_iff t id)

-- What becomes of a package with these destinations: one package is appended, and the main thread
-- forwards it once to each worker and to the other thread, where they are named.
pub record IsRouted {P : Type 0} (t : TunnelId) (dests : List ℤ) (message : P) (e e' : TunnelEnd P)
    : Type 0 where
  pub sent : TunnelPackage P
  pub all : List ℤ
  pub appended : e'.send_buffer ≡ e.send_buffer ++ (sent ∷ [])
  pub same_message : sent.innerprotopackage ≡ message
  pub targets : all_target t sent.sourcetunnelsid sent.targettunnelsid ≡ some all
  pub once : Set.IsSetList all
  pub exact : (id : ℤ) → Set.contains id all ≡ Set.contains id dests && is_end t id

reaches_nonempty :
    (t : TunnelId) (source id : ℤ) (targets : List ℤ)
    → 0 < length targets
    → is_worker_tunnel_id t source ≡ true
    → reaches t source targets id ≡ Set.contains id targets && is_end t id
reaches_nonempty t source id [] h w = absurd (omega arith)
reaches_nonempty t source id (x ∷ xs) h w = ground arith

module _ {P : Type 0} (t : TunnelId) (worker_idx : ℕ) (dests : List ℤ) (message : P) (flush : Bool)
    (e : TunnelEnd P) where
  routed :
      is_worker_tunnel_id t (pos worker_idx) ≡ true
      → 0 < length (filter_dest t dests [])
      → e.connected ≡ true
      → IsRouted t dests message e (worker_tunnel_forward t worker_idx dests message flush e).1
  unfolding worker_tunnel_forward append_package
  routed w nonempty c =
      let r = all_target-reaches t (pos worker_idx) (filter_dest t dests []) (ground arith) in
      record {
        sent = record {
          sourcetunnelsid = pos worker_idx;
          targettunnelsid = filter_dest t dests [];
          innerprotopackage = message;
        };
        all = r.0;
        appended = ground arith;
        same_message = refl;
        targets = r.1;
        once = r.2;
        exact = λ id.
            r.3 id
            ∙ reaches_nonempty t (pos worker_idx) id (filter_dest t dests []) nonempty w
            ∙ ground (arith, contains-filtered t id dests);
      }

  -- For a call of one of the workers, whose tunnel is connected: one package is appended, and
  -- the targets that the main thread computes for it are the workers and the other thread as far
  -- as the destinations name them, each once, and nobody else. The call answers -1 and sends
  -- nothing only where the destinations name none of these.
  pub worker_tunnel_forward-IsRouted :
      is_worker_tunnel_id t (pos worker_idx) ≡ true
      → e.connected ≡ true
      → ((worker_tunnel_forward t worker_idx dests message flush e ≡ (negsuc 0, e))
          × ((id : ℤ) → Set.contains id dests && is_end t id ≡ false))
        ⊎ (((worker_tunnel_forward t worker_idx dests message flush e).0 ≡ pos 0)
            × IsRouted t dests message e
                (worker_tunnel_forward t worker_idx dests message flush e).1)
  unfolding worker_tunnel_forward
  worker_tunnel_forward-IsRouted w c = elim (Bool-cases (leb (length (filter_dest t dests [])) 0)) [
    | inl q ↦ inl (
      ground arith,
      λ id.
          ground (arith, contains-filtered t id dests, length-contains id (filter_dest t dests [])),
    )
    | inr q ↦ inr (ground arith, routed w (ground arith) c)
  ]
