-- ===== src/Worker/Sent.antt =====
-- What send_client_forward_message sends where.
use avant.Base.Map
use avant.Base.{
  ℕ, zero, suc, ◌≡◌, ◌<◌, ◌==◌, refl, ap, sym, ◌∙◌, ℤ, pos, negsuc, eq_ℤ, eq_ℤ_iff, Bool, true,
  false, not, Option, none, some, List, [], ◌∷◌, ◌++◌, if◌then◌else◌, arith, nat_eq, int_eq,
  Bool-cases, inl, inr, append_assoc, append-nil, ltb,
}
use avant.ConnectionMgr.{ConnectionMgr}
use avant.Route.{TunnelEnd}
use avant.TunnelId.{TunnelId, get_worker_tunnel_id, hash_gid_2_worker_tunnel_id}
use avant.Worker.{TaskType, ForwardMessage, client_forward}
use avant.Worker.Send.{
  push_target, group_targets, worker_ids, forward_tunnel, to_workers, to_tunnels,
  send_client_forward_message, send_targets,
}

-- the targets of a tunnel, in their order
abbrev pub targets_of : ℤ → List ℕ → List ℕ
targets_of tunnel [] = []
targets_of tunnel (gid ∷ rest) =
    if eq_ℤ (hash_gid_2_worker_tunnel_id gid) tunnel
    then gid ∷ targets_of tunnel rest
    else targets_of tunnel rest

-- the other workers' tunnels
abbrev pub others : ℕ → List ℤ → List ℤ
others worker_idx [] = []
others worker_idx (id ∷ ids) =
    if eq_ℤ id (get_worker_tunnel_id worker_idx)
    then others worker_idx ids
    else id ∷ others worker_idx ids

-- What it does, told without the map and the collected list.
others-append :
    (worker_idx : ℕ) (ids more : List ℤ)
    → others worker_idx (ids ++ more) ≡ others worker_idx ids ++ others worker_idx more
others-append worker_idx [] more = refl
others-append worker_idx (id ∷ ids) more = ground (arith, others-append worker_idx ids more)

-- `here` is the delivery to this worker's clients, `there` the sending to other threads.
module _ {M S : Type 0} (worker_idx : ℕ) (here : ForwardMessage M → S → S)
    (there : List ℤ → ForwardMessage M → S → S) where
  abbrev pub deliver : ℤ → ForwardMessage M → S → S
  deliver tunnel message s =
      if eq_ℤ tunnel (get_worker_tunnel_id worker_idx)
      then here message s
      else there (tunnel ∷ []) message s

  abbrev pub deliver_each : List ℤ → List ℕ → ForwardMessage M → S → S
  deliver_each [] dest message s = s
  deliver_each (tunnel ∷ rest) dest message s =
      deliver_each rest dest message
        (deliver tunnel (record message { targetgid = targets_of tunnel dest }) s)

  abbrev pub send_others : List ℤ → ForwardMessage M → S → S
  send_others [] message s = s
  send_others (id ∷ ids) message s = there (id ∷ ids) message s

  abbrev pub reference : TunnelId → List ℤ → ℕ → List ℕ → M → S → ℤ × S
  reference t tunnels source dest inner s =
      let message : ForwardMessage M = record {
        sourcegid = source;
        targetgid = [];
        inner = inner;
      } in
      if not (eq_ℤ (hash_gid_2_worker_tunnel_id source) (get_worker_tunnel_id worker_idx))
      then (negsuc 0, s)
      else (
        pos 0,
        elim dest [
          | [] ↦
              send_others (others worker_idx (worker_ids t.m_worker_cnt)) message (here message s)
          | gid ∷ gids ↦ deliver_each tunnels (gid ∷ gids) message s
        ],
      )

abbrev gids_at : Map.Map ℤ (List ℕ) → ℤ → List ℕ
gids_at targets tunnel = elim (Map.find tunnel targets) [ none ↦ [] | some gids ↦ gids ]

gids_at-push_target :
    (tunnel k : ℤ) (gid : ℕ) (targets : Map.Map ℤ (List ℕ))
    → gids_at (push_target tunnel gid targets) k
      ≡ (if eq_ℤ tunnel k then gids_at targets k ++ (gid ∷ []) else gids_at targets k)
unfolding push_target
gids_at-push_target tunnel k gid targets = elim (Bool-cases (eq_ℤ tunnel k)) [
  | inl b ↦
      let same : tunnel ≡ k = ground (arith, b, eq_ℤ_iff tunnel k) in
      rw b (
        ap at_value (Map.find-assign tunnel k (gids_at targets tunnel ++ (gid ∷ [])) targets)
        ∙ rw b (ap (λ x. gids_at targets x ++ (gid ∷ [])) same))
  | inr b ↦ rw b (
      ap at_value (Map.find-assign tunnel k (gids_at targets tunnel ++ (gid ∷ [])) targets)
      ∙ rw b refl)
]
  where
    at_value : Option (List ℕ) → List ℕ
    at_value o = elim o [ none ↦ [] | some gids ↦ gids ]

-- The map holds the targets by tunnel.
gids_at-group_targets :
    (dest : List ℕ) (k : ℤ) (targets : Map.Map ℤ (List ℕ))
    → gids_at (group_targets dest targets) k ≡ gids_at targets k ++ targets_of k dest
gids_at-group_targets [] k targets = sym (append-nil (gids_at targets k))
gids_at-group_targets (gid ∷ rest) k targets =
    gids_at-group_targets rest k (push_target (hash_gid_2_worker_tunnel_id gid) gid targets)
    ∙ ap (λ x. x ++ targets_of k rest)
        (gids_at-push_target (hash_gid_2_worker_tunnel_id gid) k gid targets)
    ∙ both (eq_ℤ (hash_gid_2_worker_tunnel_id gid) k)
  where
    both :
        (b : Bool)
        → (if b then gids_at targets k ++ (gid ∷ []) else gids_at targets k) ++ targets_of k rest
          ≡ gids_at targets k ++ (if b then gid ∷ targets_of k rest else targets_of k rest)
    both true = append_assoc (gids_at targets k) (gid ∷ []) (targets_of k rest)
    both false = refl

module _ {M S : Type 0} (t : TunnelId) (worker_idx : ℕ) (here : ForwardMessage M → S → S)
    (there : List ℤ → ForwardMessage M → S → S) where
  to_tunnels-deliver_each :
      (tunnels : List ℤ) (dest : List ℕ) (message : ForwardMessage M) (s : S)
      → to_tunnels t worker_idx here there tunnels (group_targets dest []) message s
        ≡ deliver_each worker_idx here there tunnels dest message s
  to_tunnels-deliver_each [] dest message s = refl
  to_tunnels-deliver_each (tunnel ∷ rest) dest message s =
      ap
        (λ gids.
          to_tunnels t worker_idx here there rest (group_targets dest []) message
            (deliver worker_idx here there tunnel (record message { targetgid = gids }) s))
        (gids_at-group_targets dest tunnel []
          ∙ ap (λ x. at_value x ++ targets_of tunnel dest) (Map.find-nil tunnel))
      ∙ to_tunnels-deliver_each rest dest message (
          deliver worker_idx here there tunnel
            (record message { targetgid = targets_of tunnel dest }) s)
    where
      at_value : Option (List ℕ) → List ℕ
      at_value o = elim o [ none ↦ [] | some gids ↦ gids ]

  to_workers-append :
      (ids more : List ℤ) (message : ForwardMessage M) (all : List ℤ) (s : S)
      → to_workers t worker_idx here there (ids ++ more) message all s
        ≡ to_workers t worker_idx here there more message
            (to_workers t worker_idx here there ids message all s).0
            (to_workers t worker_idx here there ids message all s).1
  to_workers-append [] more message all s = refl
  to_workers-append (id ∷ ids) more message all s = elim (Bool-cases (eq_ℤ id (pos worker_idx))) [
    | inl e ↦ rw e (to_workers-append ids more message all (here message s))
    | inr e ↦ rw e (to_workers-append ids more message (all ++ (id ∷ [])) s)
  ]

  to_workers-worker_ids :
      (n : ℕ) (message : ForwardMessage M) (all : List ℤ) (s : S)
      → to_workers t worker_idx here there (worker_ids n) message all s
        ≡ (all ++ others worker_idx (worker_ids n), if ltb worker_idx n then here message s else s)
  to_workers-worker_ids zero message all s =
      let none_below : ltb worker_idx 0 ≡ false = ground arith in
      rw none_below (ap (λ x. (x, s)) (sym (append-nil all)))
  to_workers-worker_ids (suc n) message all s =
      to_workers-append (worker_ids n) (pos n ∷ []) message all s
      ∙ ap (λ (r : List ℤ × S). to_workers t worker_idx here there (pos n ∷ []) message r.0 r.1)
          (to_workers-worker_ids n message all s)
      ∙ elim (Bool-cases (n == worker_idx)) [
        | inl e ↦
            let before : ltb worker_idx n ≡ false = ground (arith, e) in
            let after : ltb worker_idx (suc n) ≡ true = ground (arith, e) in
            let this : others worker_idx (worker_ids n ++ (pos n ∷ []))
                ≡ others worker_idx (worker_ids n) =
              others-append worker_idx (worker_ids n) (pos n ∷ [])
              ∙ rw e (append-nil (others worker_idx (worker_ids n))) in
            rw (e, before, after, this) refl
        | inr e ↦
            let same : ltb worker_idx (suc n) ≡ ltb worker_idx n = ground (arith, e) in
            let more : others worker_idx (worker_ids n ++ (pos n ∷ []))
                ≡ others worker_idx (worker_ids n) ++ (pos n ∷ []) =
              others-append worker_idx (worker_ids n) (pos n ∷ []) ∙ rw e refl in
            rw (e, same, more)
              (ap (λ x. (x, if ltb worker_idx n then here message s else s))
                (append_assoc all (others worker_idx (worker_ids n)) (pos n ∷ [])))
      ]

  send_targets-reference :
      (order : Map.Map ℤ (List ℕ) → List ℤ) (source : ℕ) (dest : List ℕ) (inner : M) (s : S)
      → worker_idx < t.m_worker_cnt
      → send_targets t worker_idx here there order source dest inner s
        ≡ reference worker_idx here there t (order (group_targets dest [])) source dest inner s
  unfolding send_targets
  send_targets-reference order source [] inner s lt =
      ap
        (λ r.
          if not (eq_ℤ (hash_gid_2_worker_tunnel_id source) (get_worker_tunnel_id worker_idx))
          then (negsuc 0, s)
          else finish r)
        (to_workers-worker_ids t.m_worker_cnt message [] s ∙ rw in_range refl)
      ∙ ap
          (λ r.
            if not (eq_ℤ (hash_gid_2_worker_tunnel_id source) (get_worker_tunnel_id worker_idx))
            then (negsuc 0, s)
            else r)
          (finished (others worker_idx (worker_ids t.m_worker_cnt)))
    where
      message : ForwardMessage M
      message = record { sourcegid = source; targetgid = []; inner = inner }

      in_range : ltb worker_idx t.m_worker_cnt ≡ true
      in_range = ground (arith, lt)

      finish : List ℤ × S → ℤ × S
      finish sent = elim sent.0 [
        | [] ↦ (pos 0, sent.1)
        | worker_id ∷ others ↦ (pos 0, there (worker_id ∷ others) message sent.1)
      ]

      finished :
          (ids : List ℤ)
          → finish (ids, here message s)
            ≡ (pos 0, send_others worker_idx here there ids message (here message s))
      finished [] = refl
      finished (id ∷ ids) = refl
  send_targets-reference order source (gid ∷ gids) inner s lt =
      ap
        (λ r.
          if not (eq_ℤ (hash_gid_2_worker_tunnel_id source) (get_worker_tunnel_id worker_idx))
          then (negsuc 0, s)
          else (pos 0, r))
        (to_tunnels-deliver_each (order (group_targets (gid ∷ gids) [])) (gid ∷ gids)
          (record { sourcegid = source; targetgid = []; inner = inner }) s)

module _ {M S : Type 0} (t : TunnelId) (worker_idx : ℕ)
    (tunnel_of : S → TunnelEnd (ForwardMessage M))
    (set_tunnel : TunnelEnd (ForwardMessage M) → S → S) where
  -- For a worker that is one of the program's, sending a message is refused with -1 and no effect
  -- where the sender's gid is not this worker's. Else it answers 0; without targets it hands the message to this
  -- worker's clients, once, and then sends one package to all the other workers, if there are any; with
  -- targets, it takes the tunnels in the order of the map, and for each one hands over or sends a message that has just
  -- the targets of that tunnel, in their order.
  pub send_client_forward_message-reference :
      (type : TaskType) (pool : S → ConnectionMgr)
      (on_client_forward_message : ℕ → Bool → M → S → S) (order : Map.Map ℤ (List ℕ) → List ℤ)
      (source : ℕ) (dest : List ℕ) (inner : M) (s : S)
      → worker_idx < t.m_worker_cnt
      → send_client_forward_message t worker_idx tunnel_of set_tunnel type pool
          on_client_forward_message order source dest inner s
        ≡ reference worker_idx
            (client_forward type worker_idx pool on_client_forward_message)
            (forward_tunnel t worker_idx tunnel_of set_tunnel)
            t
            (order (group_targets dest []))
            source
            dest
            inner
            s
  unfolding send_client_forward_message
  send_client_forward_message-reference type pool on_client_forward_message order source dest inner
        s lt =
      send_targets-reference t worker_idx
        (client_forward type worker_idx pool on_client_forward_message)
        (forward_tunnel t worker_idx tunnel_of set_tunnel) order source dest inner s lt
