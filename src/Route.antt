-- ===== src/Route.antt =====
-- How a package finds its way through the main thread: the `tunnel_forward` of workers and of the
-- other thread (src/workers/worker.cpp, src/workers/other.cpp), and `on_tunnel_process` of the main
-- thread (src/server/server.cpp). An unordered_set is a list without repetition.
pub mod Targets
pub mod Delivery
mod Tests
use avant.Base.{
  ℕ, zero, suc, ◌+◌, ℤ, pos, negsuc, eq_ℤ, leb_ℤ, Bool, true, false, not, Option, none, some, List,
  [], ◌∷◌, ◌++◌, Bytes, if◌then◌else◌, nat_eq, int_eq, leb, length, ◌&&◌,
}
use avant.Base.Set
use avant.TunnelId.{
  TunnelId, get_worker_tunnel_id_min, get_worker_tunnel_id_max, get_other_tunnel_id,
  get_main_tunnel_id, get_worker_tunnel_id, is_tunnel_id, is_worker_tunnel_id, workers_below,
}

-- ProtoTunnelPackage
pub record TunnelPackage (P : Type 0) : Type 0 where
  pub sourcetunnelsid : ℤ
  pub targettunnelsid : List ℤ
  pub innerprotopackage : P

-- the loop over `dest_tunnel_id` in tunnel_forward: it inserts in the order of the list, so the
-- last of the list is inserted last
unfoldable pub filter_dest : TunnelId → List ℤ → List ℤ → List ℤ
filter_dest t [] dest_tunnel_id_set = dest_tunnel_id_set
filter_dest t (dest ∷ rest) dest_tunnel_id_set = filter_dest t rest (
    if eq_ℤ get_main_tunnel_id dest
    then dest_tunnel_id_set
    else if not (is_tunnel_id t dest)
    then dest_tunnel_id_set
    else Set.insert dest dest_tunnel_id_set)

-- The send half of a worker's or the other thread's end: whether its connection is found, the
-- packages appended to its send buffer, and whether the flush was tried.
pub record TunnelEnd (P : Type 0) : Type 0 where
  pub connected : Bool
  pub send_buffer : List (TunnelPackage P)
  pub flushes : ℕ
  pub write_interest : Bool

module _ {P : Type 0} where
  -- append the package; then flush or ask for the write event
  unfoldable pub append_package : Bool → TunnelPackage P → TunnelEnd P → TunnelEnd P
  append_package flush p e =
      if flush
      then record e { send_buffer = e.send_buffer ++ (p ∷ []); flushes = e.flushes + 1 }
      else record e { send_buffer = e.send_buffer ++ (p ∷ []); write_interest = true }

  -- worker::tunnel_forward
  unfoldable pub worker_tunnel_forward :
      TunnelId → ℕ → List ℤ → P → Bool → TunnelEnd P → ℤ × TunnelEnd P
  unfolding filter_dest append_package
  worker_tunnel_forward t worker_idx dest_tunnel_id message flush e =
      let dest_tunnel_id_set = filter_dest t dest_tunnel_id [] in
      if leb (length dest_tunnel_id_set) 0
      then (negsuc 0, e)
      else if not e.connected
      then (negsuc 1, e)
      else (
        pos 0,
        append_package flush
            (record {
              sourcetunnelsid = get_worker_tunnel_id worker_idx;
              targettunnelsid = dest_tunnel_id_set;
              innerprotopackage = message;
            })
            e,
      )

  -- other::tunnel_forward: it looks for its connection first
  unfoldable pub other_tunnel_forward : TunnelId → List ℤ → P → Bool → TunnelEnd P → ℤ × TunnelEnd P
  unfolding filter_dest append_package
  other_tunnel_forward t dest_tunnel_id message flush e =
      let dest_tunnel_id_set = filter_dest t dest_tunnel_id [] in
      if not e.connected
      then (negsuc 0, e)
      else if leb (length dest_tunnel_id_set) 0
      then (negsuc 0, e)
      else (
        pos 0,
        append_package flush
            (record {
              sourcetunnelsid = get_other_tunnel_id;
              targettunnelsid = dest_tunnel_id_set;
              innerprotopackage = message;
            })
            e,
      )

-- the loop over the targets of a package of the other thread
unfoldable pub targets_from_other : TunnelId → List ℤ → List ℤ → List ℤ
targets_from_other t [] all_target = all_target
targets_from_other t (target ∷ rest) all_target = targets_from_other t rest (
    if eq_ℤ target get_main_tunnel_id
    then all_target
    else if leb_ℤ get_worker_tunnel_id_min target && leb_ℤ target (get_worker_tunnel_id_max t)
    then Set.insert target all_target
    else all_target)

-- the loop over the targets of a package of a worker
unfoldable pub targets_from_worker : TunnelId → List ℤ → List ℤ → List ℤ
targets_from_worker t [] all_target = all_target
targets_from_worker t (target ∷ rest) all_target = targets_from_worker t rest (
    if eq_ℤ target get_main_tunnel_id
    then all_target
    else if eq_ℤ target get_other_tunnel_id
    then Set.insert target all_target
    else if leb_ℤ get_worker_tunnel_id_min target && leb_ℤ target (get_worker_tunnel_id_max t)
    then Set.insert target all_target
    else all_target)

-- The set `all_target`; `none` where the source is undefined and the handler returns.
unfoldable pub all_target : TunnelId → ℤ → List ℤ → Option (List ℤ)
unfolding targets_from_other targets_from_worker
all_target t source target =
    if eq_ℤ source get_other_tunnel_id
    then (if leb (length target) 0
        then some (workers_below t.m_worker_cnt [])
        else some (targets_from_other t target []))
    else if leb_ℤ get_worker_tunnel_id_min source && leb_ℤ source (get_worker_tunnel_id_max t)
    then (if leb (length target) 0
        then some (workers_below t.m_worker_cnt [])
        else some (targets_from_worker t target []))
    else none

-- The main thread, with its `tunnel_forward(source, target, message)` as a parameter and whether
-- and how a message is a tunnel package.
module _ {P S : Type 0} (t : TunnelId) (as_tunnel_package : P → Option (TunnelPackage P))
    (tunnel_forward : ℤ → ℤ → P → S → S) where
  abbrev pub forward_all : ℤ → List ℤ → P → S → S
  forward_all source [] message s = s
  forward_all source (target ∷ rest) message s =
      forward_all source rest message (tunnel_forward source target message s)

  unfoldable pub on_tunnel_process : S → P → S
  on_tunnel_process s message = elim (as_tunnel_package message) [
    | none ↦ s
    | some p ↦ elim (all_target t p.sourcetunnelsid p.targettunnelsid) [
      | none ↦ s
      | some all ↦ forward_all p.sourcetunnelsid all p.innerprotopackage s
    ]
  ]
