-- ===== src/Worker/Send.antt =====
-- src/workers/worker.cpp: worker::send_client_forward_message, a message of a client to clients of all
-- workers. S is the state of the thread; packing and parsing give the message back, so the
-- packages are left out. The order of the unordered_map of the targets is a parameter.
use avant.Base.Map
use avant.Base.{
  ℕ, zero, suc, ℤ, pos, negsuc, eq_ℤ, Bool, true, not, none, some, List, [], ◌∷◌, ◌++◌,
  if◌then◌else◌, nat_eq, int_eq,
}
use avant.ConnectionMgr.{ConnectionMgr}
use avant.Route.{TunnelEnd, worker_tunnel_forward}
use avant.TunnelId.{TunnelId, get_worker_tunnel_id, hash_gid_2_worker_tunnel_id}
use avant.Worker.{TaskType, ForwardMessage, client_forward}

-- target_tunnel_id[t].push_back(gid)
unfoldable pub push_target : ℤ → ℕ → Map.Map ℤ (List ℕ) → Map.Map ℤ (List ℕ)
push_target tunnel gid targets =
    Map.assign tunnel
      ((elim (Map.find tunnel targets) [ none ↦ [] | some gids ↦ gids ]) ++ (gid ∷ [])) targets

abbrev pub group_targets : List ℕ → Map.Map ℤ (List ℕ) → Map.Map ℤ (List ℕ)
group_targets [] targets = targets
group_targets (gid ∷ rest) targets =
    group_targets rest (push_target (hash_gid_2_worker_tunnel_id gid) gid targets)

-- the tunnel ids of the workers, upwards
abbrev pub worker_ids : ℕ → List ℤ
worker_ids zero = []
worker_ids (suc n) = worker_ids n ++ (pos n ∷ [])

-- `on_tunnel_process` gets the message for this worker's clients.
module _ {M S : Type 0} (t : TunnelId) (worker_idx : ℕ)
    (on_tunnel_process : ForwardMessage M → S → S)
    (tunnel_forward : List ℤ → ForwardMessage M → S → S) where
  -- for each worker: this one at once, and the others are collected
  abbrev pub to_workers : List ℤ → ForwardMessage M → List ℤ → S → List ℤ × S
  to_workers [] message all_target_tunnel s = (all_target_tunnel, s)
  to_workers (worker_id ∷ rest) message all_target_tunnel s =
      if eq_ℤ worker_id (get_worker_tunnel_id worker_idx)
      then to_workers rest message all_target_tunnel (on_tunnel_process message s)
      else to_workers rest message (all_target_tunnel ++ (worker_id ∷ [])) s

  -- for each tunnel of the map
  abbrev pub to_tunnels : List ℤ → Map.Map ℤ (List ℕ) → ForwardMessage M → S → S
  to_tunnels [] targets message s = s
  to_tunnels (tunnel ∷ rest) targets message s =
      let gids : List ℕ = elim (Map.find tunnel targets) [ none ↦ [] | some gids ↦ gids ] in
      let addressed = record message { targetgid = gids } in
      to_tunnels rest targets message (
        if eq_ℤ tunnel (get_worker_tunnel_id worker_idx)
        then on_tunnel_process addressed s
        else tunnel_forward (tunnel ∷ []) addressed s)

  -- `order` is the order of the map.
  unfoldable pub send_targets : (Map.Map ℤ (List ℕ) → List ℤ) → ℕ → List ℕ → M → S → ℤ × S
  send_targets order source_gid dest_conn_gid inner s =
      let message : ForwardMessage M = record {
        sourcegid = source_gid;
        targetgid = [];
        inner = inner;
      } in
      if not (eq_ℤ (hash_gid_2_worker_tunnel_id source_gid) (get_worker_tunnel_id worker_idx))
      then (negsuc 0, s)
      else elim dest_conn_gid [
        | [] ↦
            let sent = to_workers (worker_ids t.m_worker_cnt) message [] s in
            elim sent.0 [
              | [] ↦ (pos 0, sent.1)
              | worker_id ∷ others ↦ (pos 0, tunnel_forward (worker_id ∷ others) message sent.1)
            ]
        | gid ∷ gids ↦
            let targets = group_targets (gid ∷ gids) [] in
            (pos 0, to_tunnels (order targets) targets message s)
      ]

module _ {M S : Type 0} (t : TunnelId) (worker_idx : ℕ)
    (tunnel_of : S → TunnelEnd (ForwardMessage M))
    (set_tunnel : TunnelEnd (ForwardMessage M) → S → S) where
  -- tunnel_forward, of which the result is not looked at
  unfoldable pub forward_tunnel : List ℤ → ForwardMessage M → S → S
  forward_tunnel dest message s =
      set_tunnel (worker_tunnel_forward t worker_idx dest message true (tunnel_of s)).1 s

  unfoldable pub send_client_forward_message :
      TaskType
      → (S → ConnectionMgr)
      → (ℕ → Bool → M → S → S)
      → (Map.Map ℤ (List ℕ) → List ℤ)
      → ℕ
      → List ℕ
      → M
      → S
      → ℤ × S
  unfolding send_targets forward_tunnel
  send_client_forward_message type pool on_client_forward_message order =
      send_targets t worker_idx (client_forward type worker_idx pool on_client_forward_message)
        forward_tunnel order
