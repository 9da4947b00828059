-- ===== src/Ipc/Pairs.antt =====
-- `authenticated_ipc_pair`: the two tables, and who is heard.
use avant.Base.Map
use avant.Base.{
  ℕ, ◌≡◌, ◌⊎◌, refl, false, Option, none, some, [], ◌∷◌, ◌++◌, arith, Eq, nat_eq, Bool-cases,
  Option-cases, inl, inr,
}
use avant.Ipc.{
  Codec, IpcState, Peer, on_recv_package, on_close_connection, authenticate, answer, recv_handshake,
  recv_message,
}

-- `{app id, gid}` is in one table exactly when it is in the other.
pub record IsPaired {A P M : Type 0} ⦃e : Eq A⦄ (s : IpcState A P M) : Type 0 where
  pub to_gid : (g : ℕ) (a : A) → Map.find g s.gid2appid ≡ some a → Map.find a s.appid2gid ≡ some g
  pub to_appid : (g : ℕ) (a : A) → Map.find a s.appid2gid ≡ some g → Map.find g s.gid2appid ≡ some a

same_tables :
    {A P M : Type 0} ⦃e : Eq A⦄ (s t : IpcState A P M)
    → t.gid2appid ≡ s.gid2appid
    → t.appid2gid ≡ s.appid2gid
    → IsPaired s
    → IsPaired t
same_tables s t p q h = record {
  to_gid = λ g a k. ground (arith, p, q, h.to_gid g a);
  to_appid = λ g a k. ground (arith, p, q, h.to_appid g a);
}

module _ {A P M : Type 0} ⦃e : Eq A⦄ (codec : Codec A P M) (peer : Peer) where
  authenticate-IsPaired :
      (app_id : A) (s : IpcState A P M) → IsPaired s → IsPaired (authenticate codec peer app_id s)
  unfolding authenticate
  authenticate-IsPaired app_id s h = record {
    to_gid = λ g a. ground (
      arith,
      h.to_gid g a,
      Map.find-assign app_id a peer.gid s.appid2gid,
      Map.find-assign peer.gid g app_id s.gid2appid,
      e.beq_iff app_id a,
      h.to_gid g app_id,
    );
    to_appid = λ g a. ground (
      arith,
      h.to_appid g a,
      Map.find-assign app_id a peer.gid s.appid2gid,
      Map.find-assign peer.gid g app_id s.gid2appid,
      e.beq_iff app_id a,
    );
  }

  answer_tables :
      (s : IpcState A P M)
      → ((answer codec peer s).gid2appid ≡ s.gid2appid)
        × ((answer codec peer s).appid2gid ≡ s.appid2gid)
  unfolding answer
  answer_tables s = ground arith

  recv_message_tables :
      (s : IpcState A P M) (p : P)
      → ((recv_message codec peer p s).gid2appid ≡ s.gid2appid)
        × ((recv_message codec peer p s).appid2gid ≡ s.appid2gid)
  unfolding recv_message
  recv_message_tables s p = ground arith

  recv_handshake-IsPaired :
      (s : IpcState A P M) (p : P) → IsPaired s → IsPaired (recv_handshake codec peer p s)
  unfolding recv_handshake
  recv_handshake-IsPaired s p h = go (codec.parse_handshake p) refl
    where
      answered : IsPaired (answer codec peer s)
      answered = same_tables s (answer codec peer s) (answer_tables s).0 (answer_tables s).1 h

      go : (o : Option A) → codec.parse_handshake p ≡ o → IsPaired (recv_handshake codec peer p s)
      go none q = rw (q, recv_handshake) answered
      go (some a) q =
          rw (q, recv_handshake) (authenticate-IsPaired a (answer codec peer s) answered)

  -- Whatever package a peer sends, tables that are inverse to one another stay so.
  pub on_recv_package-IsPaired :
      (s : IpcState A P M) (p : P) → IsPaired s → IsPaired (on_recv_package codec peer s p)
  unfolding on_recv_package
  on_recv_package-IsPaired s p h = elim (Bool-cases (codec.is_handshake p)) [
    | inl q ↦ rw (q, on_recv_package) (recv_handshake-IsPaired s p h)
    | inr q ↦
        rw (q, on_recv_package)
          (same_tables s (recv_message codec peer p s) (recv_message_tables s p).0
            (recv_message_tables s p).1 h)
  ]

  -- When a connection closes, tables that are inverse to one another stay so.
  pub on_close_connection-IsPaired :
      (s : IpcState A P M) → IsPaired s → IsPaired (on_close_connection codec peer s)
  unfolding on_close_connection
  on_close_connection-IsPaired s h = elim (Option-cases (Map.find peer.gid s.gid2appid)) [
    | inl none_bound ↦ rw (none_bound, on_close_connection) h
    | inr (app_id, bound) ↦
        rw (bound, on_close_connection)
          (record {
            to_gid = λ g a. ground (
              arith,
              h.to_gid g a,
              h.to_gid peer.gid app_id,
              Map.find-erase app_id a s.appid2gid,
              Map.find-erase peer.gid g s.gid2appid,
              e.beq_iff app_id a,
            );
            to_appid = λ g a. ground (
              arith,
              h.to_appid g a,
              h.to_appid peer.gid a,
              Map.find-erase app_id a s.appid2gid,
              Map.find-erase peer.gid g s.gid2appid,
              e.beq_iff app_id a,
            );
          })
  ]

  -- A bound app id stays with its connection whatever is received: no peer can take it over.
  pub on_recv_package_keeps_binding :
      (s : IpcState A P M) (p : P) (a : A) (g : ℕ)
      → Map.find a s.appid2gid ≡ some g
      → Map.find a (on_recv_package codec peer s p).appid2gid ≡ some g
  unfolding on_recv_package recv_handshake authenticate
  on_recv_package_keeps_binding s p a g h = go (codec.parse_handshake p) refl
    where
      go :
          (o : Option A)
          → codec.parse_handshake p ≡ o
          → Map.find a (on_recv_package codec peer s p).appid2gid ≡ some g
      go none q = ground (arith, answer_tables s, recv_message_tables s p)
      go (some b) q = ground (
        arith,
        answer_tables s,
        recv_message_tables s p,
        Map.find-assign b a peer.gid s.appid2gid,
        e.beq_iff b a,
      )

  lua_messages-handshake :
      (s : IpcState A P M) (p : P) → (recv_handshake codec peer p s).lua_messages ≡ s.lua_messages
  unfolding recv_handshake authenticate answer
  lua_messages-handshake s p = ground arith

  -- The Lua machine hears a package only from a connection that is bound to an app id, under that
  -- app id, and never a handshake; every other package leaves its messages as they are.
  pub on_recv_package_heard :
      (s : IpcState A P M) (p : P)
      → ((on_recv_package codec peer s p).lua_messages ≡ s.lua_messages)
        ⊎ ((m : M) × (a : A) × (codec.is_handshake p ≡ false)
            × (Map.find peer.gid s.gid2appid ≡ some a)
            × (codec.parse_message p ≡ some m)
            × ((on_recv_package codec peer s p).lua_messages ≡ s.lua_messages ++ ((m, a) ∷ [])))
  unfolding on_recv_package recv_message
  on_recv_package_heard s p = elim (Bool-cases (codec.is_handshake p)) [
    | inl q ↦ inl (ground (arith, lua_messages-handshake s p))
    | inr q ↦ heard q (Map.find peer.gid s.gid2appid) (codec.parse_message p) refl refl
  ]
    where
      heard :
          codec.is_handshake p ≡ false
          → (o : Option A) (n : Option M) → Map.find peer.gid s.gid2appid ≡ o
          → codec.parse_message p ≡ n
          → ((on_recv_package codec peer s p).lua_messages ≡ s.lua_messages)
            ⊎ ((m : M) × (a : A) × (codec.is_handshake p ≡ false)
                × (Map.find peer.gid s.gid2appid ≡ some a)
                × (codec.parse_message p ≡ some m)
                × ((on_recv_package codec peer s p).lua_messages ≡ s.lua_messages ++ ((m, a) ∷ [])))
      heard q none n o k = inl (ground arith)
      heard q (some a) none o k = inl (ground arith)
      heard q (some a) (some m) o k = inr (m, a, q, o, k, ground arith)
