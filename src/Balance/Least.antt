-- ===== src/Balance/Least.antt =====
-- Which worker is chosen.
use avant.Base.{
  ℕ, zero, suc, ◌<◌, ◌≤◌, ◌≡◌, ◌≢◌, refl, sym, ap, ◌∙◌, ℤ, pos, negsuc, eq_ℤ, leb_ℤ, eq_ℤ_iff, ◌==◌,
  true, false, some, List, [], ◌∷◌, ◌++◌, get_elem?, bit_and, bit_or, arith, length, subst,
  append-nil, append_assoc, length-append, Bool-cases, inl, inr, ◌⊎◌,
}
use avant.Base.Bits.{bit_and-0x1ff}
use avant.Balance.{
  ListenState, NewClient, choose, listen_client, forward_client, count_at, add_one, sub_one,
}

leb_ℤ_refl : (a : ℤ) → leb_ℤ a a ≡ true
leb_ℤ_refl (pos n) = ground arith
leb_ℤ_refl (negsuc n) = ground arith

leb_ℤ_trans : (a b c : ℤ) → leb_ℤ a b ≡ true → leb_ℤ b c ≡ true → leb_ℤ a c ≡ true
leb_ℤ_trans (pos a) (pos b) (pos c) h k = ground (arith, h, k)
leb_ℤ_trans (pos a) (pos b) (negsuc c) h k = absurd (ground (arith, k))
leb_ℤ_trans (pos a) (negsuc b) c h k = absurd (ground (arith, h))
leb_ℤ_trans (negsuc a) (pos b) (pos c) h k = refl
leb_ℤ_trans (negsuc a) (pos b) (negsuc c) h k = absurd (ground (arith, k))
leb_ℤ_trans (negsuc a) (negsuc b) (pos c) h k = refl
leb_ℤ_trans (negsuc a) (negsuc b) (negsuc c) h k = ground (arith, h, k)

leb_ℤ_total : (a b : ℤ) → leb_ℤ a b ≡ false → leb_ℤ b a ≡ true
leb_ℤ_total (pos a) (pos b) h = ground (arith, h)
leb_ℤ_total (pos a) (negsuc b) h = refl
leb_ℤ_total (negsuc a) (pos b) h = absurd (ground (arith, h))
leb_ℤ_total (negsuc a) (negsuc b) h = ground (arith, h)

-- `i` is the index of a least element of `xs`, whose value is `v`.
pub record IsLeast (xs : List ℤ) (i : ℕ) (v : ℤ) : Type 0 where
  pub there : get_elem? xs i ≡ some v
  pub least : (j : ℕ) (w : ℤ) → get_elem? xs j ≡ some w → leb_ℤ v w ≡ true

get_elem?-append_old :
    (xs : List ℤ) (ys : List ℤ) (j : ℕ) (w : ℤ)
    → get_elem? xs j ≡ some w
    → get_elem? (xs ++ ys) j ≡ some w
get_elem?-append_old [] ys j w h = absurd (ground (arith, h))
get_elem?-append_old (x ∷ xs) ys zero w h = h
get_elem?-append_old (x ∷ xs) ys (suc j) w h = get_elem?-append_old xs ys j w h

get_elem?-append_last : (xs : List ℤ) (x : ℤ) → get_elem? (xs ++ (x ∷ [])) (length xs) ≡ some x
get_elem?-append_last [] x = refl
get_elem?-append_last (y ∷ xs) x = get_elem?-append_last xs x

get_elem?-snoc :
    (xs : List ℤ) (x : ℤ) (j : ℕ) (w : ℤ)
    → get_elem? (xs ++ (x ∷ [])) j ≡ some w
    → (get_elem? xs j ≡ some w) ⊎ (x ≡ w)
get_elem?-snoc [] x zero w h = inr (ground (arith, h))
get_elem?-snoc [] x (suc j) w h = absurd (ground (arith, h))
get_elem?-snoc (y ∷ xs) x zero w h = inl h
get_elem?-snoc (y ∷ xs) x (suc j) w h = get_elem?-snoc xs x j w h

get_elem?_bound : (xs : List ℤ) (i : ℕ) (v : ℤ) → get_elem? xs i ≡ some v → i < length xs
get_elem?_bound [] i v h = absurd (ground (arith, h))
get_elem?_bound (x ∷ xs) zero v h = omega arith
get_elem?_bound (x ∷ xs) (suc i) v h = omega (arith, get_elem?_bound xs i v h)

-- one more counter is read, and it is taken or not
more_taken :
    (xs : List ℤ) (x v : ℤ) (i : ℕ)
    → IsLeast xs i v
    → leb_ℤ x v ≡ true
    → IsLeast (xs ++ (x ∷ [])) (length xs) x
more_taken xs x v i h le = record {
  there = get_elem?-append_last xs x;
  least = λ j w e. elim (get_elem?-snoc xs x j w e) [
    | inl q ↦ leb_ℤ_trans x v w le (h.least j w q)
    | inr q ↦ subst (λ (u : ℤ). leb_ℤ x u ≡ true) q (leb_ℤ_refl x)
  ];
}

more_left :
    (xs : List ℤ) (x v : ℤ) (i : ℕ)
    → IsLeast xs i v
    → leb_ℤ x v ≡ false
    → IsLeast (xs ++ (x ∷ [])) i v
more_left xs x v i h gt = record {
  there = get_elem?-append_old xs (x ∷ []) i v h.there;
  least = λ j w e. elim (get_elem?-snoc xs x j w e) [
    | inl q ↦ h.least j w q
    | inr q ↦ subst (λ (u : ℤ). leb_ℤ v u ≡ true) q (leb_ℤ_total x v gt)
  ];
}

choose_from :
    (rest xs : List ℤ) (k i : ℕ) (v : ℤ)
    → length xs ≡ k
    → IsLeast xs i v
    → (w : ℤ) × IsLeast (xs ++ rest) (choose k rest i v) w
unfolding choose
choose_from [] xs k i v len h = (v, subst (λ (ys : List ℤ). IsLeast ys i v) (sym (append-nil xs)) h)
choose_from (x ∷ rest) xs k i v len h =
    let seen : i < k = omega (arith, get_elem?_bound xs i v h.there, len) in
    let len' : length (xs ++ (x ∷ [])) ≡ suc k = omega (arith, length-append xs (x ∷ []), len) in
    let other : (i == k) ≡ false = ground arith in
    let result : ℕ → Type 0 = λ (r : ℕ). (w : ℤ) × IsLeast (xs ++ (x ∷ rest)) r w in
    elim (Bool-cases (leb_ℤ x v)) [
      | inl q ↦
          let t =
            choose_from rest (xs ++ (x ∷ [])) (suc k) (length xs) x len'
              (more_taken xs x v i h q) in
          rw (other, q)
            (subst result (ap (λ (a : ℕ). choose (suc k) rest a x) len) (
              t.0,
              subst (λ (ys : List ℤ). IsLeast ys (choose (suc k) rest (length xs) x) t.0)
                  (append_assoc xs (x ∷ []) rest) t.1,
            ))
      | inr q ↦
          let t = choose_from rest (xs ++ (x ∷ [])) (suc k) i v len' (more_left xs x v i h q) in
          rw (other, q)
            (
              t.0,
              subst (λ (ys : List ℤ). IsLeast ys (choose (suc k) rest i v) t.0)
                  (append_assoc xs (x ∷ []) rest) t.1,
            )
    ]

choose-IsLeast :
    (x : ℤ) (rest : List ℤ) → (w : ℤ) × IsLeast (x ∷ rest) (choose 0 (x ∷ rest) 0 (pos 0)) w
unfolding choose
choose-IsLeast x rest =
    choose_from rest (x ∷ []) 1 0 x refl (record { there = refl; least = first })
  where
    first : (j : ℕ) (w : ℤ) → get_elem? (x ∷ []) j ≡ some w → leb_ℤ x w ≡ true
    first zero w e = ground (arith, e, leb_ℤ_refl x)
    first (suc j) w e = absurd (ground (arith, e))

get_elem?-count_at :
    (f : ℤ → ℤ) (xs : List ℤ) (i : ℕ) (v : ℤ)
    → get_elem? xs i ≡ some v
    → get_elem? (count_at f i xs) i ≡ some (f v)
get_elem?-count_at f [] i v h = absurd (ground (arith, h))
get_elem?-count_at f (x ∷ xs) zero v h = ground (arith, h)
get_elem?-count_at f (x ∷ xs) (suc i) v h = get_elem?-count_at f xs i v h

-- Where a client went: to the worker `idx`, which had `v` connections, no worker having fewer.
pub record IsPlaced (tunnel_forward : NewClient → ℤ) (fd : ℤ) (gid : ℕ) (s s' : ListenState)
    : Type 0 where
  pub idx : ℕ
  pub v : ℤ
  pub least : IsLeast s.worker_connection_nums idx v
  pub counted : get_elem? s'.worker_connection_nums idx ≡ some (add_one v)
  pub client : NewClient
  pub its_worker : client.target_worker_tunnel_id ≡ pos idx
  pub its_fd : client.fd ≡ fd
  pub its_gid : client.gid ≡ bit_or gid idx
  pub outcome :
      ((tunnel_forward client ≡ pos 0)
        × (s'.forwarded ≡ s.forwarded ++ (client ∷ []))
        × (s'.closed ≡ s.closed)
        × (s'.m_curr_connection_num ≡ s.m_curr_connection_num))
      ⊎ ((tunnel_forward client ≢ pos 0)
          × (s'.forwarded ≡ s.forwarded)
          × (s'.closed ≡ s.closed ++ (fd ∷ []))
          × (s'.m_curr_connection_num ≡ sub_one s.m_curr_connection_num))

module _ (tunnel_forward : NewClient → ℤ) (c : NewClient) (s : ListenState) where
  forward_client_counts :
      (forward_client tunnel_forward c s).worker_connection_nums ≡ s.worker_connection_nums
  unfolding forward_client
  forward_client_counts = ground arith

  forward_client_outcome :
      ((tunnel_forward c ≡ pos 0)
        × ((forward_client tunnel_forward c s).forwarded ≡ s.forwarded ++ (c ∷ []))
        × ((forward_client tunnel_forward c s).closed ≡ s.closed)
        × ((forward_client tunnel_forward c s).m_curr_connection_num ≡ s.m_curr_connection_num))
      ⊎ ((tunnel_forward c ≢ pos 0)
          × ((forward_client tunnel_forward c s).forwarded ≡ s.forwarded)
          × ((forward_client tunnel_forward c s).closed ≡ s.closed ++ (c.fd ∷ []))
          × ((forward_client tunnel_forward c s).m_curr_connection_num
              ≡ sub_one s.m_curr_connection_num))
  unfolding forward_client
  forward_client_outcome = elim (Bool-cases (eq_ℤ (pos 0) (tunnel_forward c))) [
    | inl q ↦
        inl (
          sym ((eq_ℤ_iff (pos 0) (tunnel_forward c)).0 q),
          ground arith,
          ground arith,
          ground arith,
        )
    | inr q ↦ inr (
      (λ e. absurd (ground (arith, q, (eq_ℤ_iff (pos 0) (tunnel_forward c)).1 (sym e)))),
      ground arith,
      ground arith,
      ground arith,
    )
  ]

-- A new client is handed to a worker that no other worker has fewer connections than, for 1 to 512
-- workers, under a gid that carries this worker's index; if the hand-over fails, its socket is
-- closed and the process counts one connection less. In both cases the counter of the worker has
-- gone up by one.
pub listen_client-IsPlaced :
    (tunnel_forward : NewClient → ℤ) (fd : ℤ) (gid : ℕ) (s : ListenState)
    → 0 < length s.worker_connection_nums
    → length s.worker_connection_nums ≤ 512
    → IsPlaced tunnel_forward fd gid s (listen_client tunnel_forward fd gid s)
unfolding listen_client
listen_client-IsPlaced tunnel_forward fd gid s some_worker bound = go s.worker_connection_nums refl
  where
    target : ℕ
    target = choose 0 s.worker_connection_nums 0 (pos 0)

    placed :
        (v : ℤ)
        → IsLeast s.worker_connection_nums target v
        → bit_and target 0x1FF ≡ target
        → IsPlaced tunnel_forward fd gid s (listen_client tunnel_forward fd gid s)
    placed v h q =
        let client : NewClient = record {
          target_worker_tunnel_id = pos (bit_and target 0x1FF);
          fd = fd;
          gid = bit_or gid (bit_and target 0x1FF);
        } in
        let counted : ListenState = record s {
          worker_connection_nums = count_at add_one (bit_and target 0x1FF) s.worker_connection_nums;
        } in
        record {
          idx = target;
          v = v;
          least = h;
          counted =
              ap (λ (ys : List ℤ). get_elem? ys target)
                (forward_client_counts tunnel_forward client counted)
              ∙ ap (λ (i : ℕ). get_elem? (count_at add_one i s.worker_connection_nums) target) q
              ∙ get_elem?-count_at add_one s.worker_connection_nums target v h.there;
          client = client;
          its_worker = ap pos q;
          its_fd = refl;
          its_gid = ap (bit_or gid) q;
          outcome = forward_client_outcome tunnel_forward client counted;
        }

    go :
        (xs : List ℤ)
        → s.worker_connection_nums ≡ xs
        → IsPlaced tunnel_forward fd gid s (listen_client tunnel_forward fd gid s)
    go [] q = absurd (omega (arith, ap (λ (ys : List ℤ). length ys) q))
    go (x ∷ xs) q =
        let c : (w : ℤ) × IsLeast s.worker_connection_nums target w =
          subst (λ (ys : List ℤ). (w : ℤ) × IsLeast ys (choose 0 ys 0 (pos 0)) w) (sym q)
            (choose-IsLeast x xs) in
        placed c.0 c.1 (
          omega (
            arith,
            bit_and-0x1ff target,
            get_elem?_bound s.worker_connection_nums target c.0 c.1.there,
          ))
