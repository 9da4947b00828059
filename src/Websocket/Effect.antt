-- ===== src/Websocket/Effect.antt =====
-- What a client's frame does to the connection, field by field.
use avant.Base.{
  ℕ, ◌<◌, ◌≡◌, ◌⊎◌, inl, inr, refl, sym, subst, Bool, true, false, Option, none, some, [], ◌∷◌,
  ◌++◌, Bytes, ◌==◌, arith, if◌then◌else◌,
}
use avant.Proto.Frame.{again}
use avant.Session.{client_package, begin_close, rwe, to_other}
use avant.Websocket.{
  WebsocketCtx, websocket_step, take_frame, on_process_frame, close_ctx, first_opcode,
  n_2_websocket_frame_type,
}
use avant.Websocket.Decode.{ClientFrame, IsClientFrame, frame_bytes, websocket_step-frame_bytes}

module _ {P : Type 0} (parse : Bytes → Option P) where
  -- a frame that is not the last of its message
  pub record IsAppended (f : ClientFrame) (ctx ctx' : WebsocketCtx P) : Type 0 where
    pub not_last : f.fin ≡ false
    pub appended : ctx'.frame_payload_data ≡ ctx.frame_payload_data ++ f.payload
    pub same_session : ctx'.session ≡ ctx.session

  -- the last frame of a message that parses
  pub record IsHandedOn (f : ClientFrame) (ctx ctx' : WebsocketCtx P) : Type 0 where
    pub is_last : f.fin ≡ true
    pub next_message : ctx'.frame_payload_data ≡ []
    pub inner : P
    pub parsed : parse (ctx.frame_payload_data ++ f.payload) ≡ some inner
    pub handed_on : ctx'.session ≡ record (ctx.session) {
      outbox =
          ctx.session.outbox
          ++ (record {
            gid = ctx.session.gid;
            workeridx = ctx.session.worker_idx;
            inner = client_package inner;
          }
              ∷ []);
    }

  -- the last frame of one that does not
  pub record IsRejected (f : ClientFrame) (ctx ctx' : WebsocketCtx P) : Type 0 where
    pub is_last : f.fin ≡ true
    pub next_message : ctx'.frame_payload_data ≡ []
    pub not_parsed : parse (ctx.frame_payload_data ++ f.payload) ≡ none
    pub marked : ctx'.session ≡ record (ctx.session) { is_close = true; interest = rwe }

  pub record IsTaken (f : ClientFrame) (ctx ctx' : WebsocketCtx P) : Type 0 where
    pub kind :
        ctx'.frame_first_opcode ≡ (if f.opcode == 0 then ctx.frame_first_opcode else f.opcode)
    pub same_thrown : ctx'.thrown ≡ ctx.thrown
    pub effect : IsAppended f ctx ctx' ⊎ IsHandedOn f ctx ctx' ⊎ IsRejected f ctx ctx'

  three_cases : (n : ℕ) → n < 3 → (n ≡ 0) ⊎ (n ≡ 1) ⊎ (n ≡ 2)
  three_cases n h = ground (arith, h)

  first_opcode-kept :
      (n : ℕ) (ctx : WebsocketCtx P)
      → n < 3
      → first_opcode n ctx
        ≡ record ctx { frame_first_opcode = if n == 0 then ctx.frame_first_opcode else n }
  unfolding first_opcode n_2_websocket_frame_type
  first_opcode-kept n ctx h = elim (three_cases n h) [
    | inl e ↦ rw e refl
    | inr (inl e) ↦ rw e refl
    | inr (inr e) ↦ rw e refl
  ]

  -- the context behind a frame's first byte
  abbrev kept : ClientFrame → WebsocketCtx P → WebsocketCtx P
  kept f ctx = record ctx {
    frame_first_opcode = if f.opcode == 0 then ctx.frame_first_opcode else f.opcode;
  }

  take_frame-kept :
      (max_size : ℕ) (f : ClientFrame) (ctx : WebsocketCtx P) (fin : Bool) (inner : Option P)
      → f.fin ≡ fin
      → parse (ctx.frame_payload_data ++ f.payload) ≡ inner
      → IsTaken f ctx (take_frame max_size parse fin f.payload (kept f ctx))
  unfolding take_frame on_process_frame close_ctx begin_close to_other
  take_frame-kept max_size f ctx false inner e q = record {
    kind = refl;
    same_thrown = refl;
    effect = inl (record { not_last = e; appended = refl; same_session = refl });
  }
  take_frame-kept max_size f ctx true none e q =
      rw (q, on_process_frame)
        (record {
          kind = refl;
          same_thrown = refl;
          effect =
              inr
                (inr (record { is_last = e; next_message = refl; not_parsed = q; marked = refl }));
        })
  take_frame-kept max_size f ctx true (some p) e q =
      rw (q, on_process_frame)
        (record {
          kind = refl;
          same_thrown = refl;
          effect = inr (
              inl (record {
                is_last = e;
                next_message = refl;
                inner = p;
                parsed = q;
                handed_on = refl;
              }));
        })

  take_frame-IsTaken :
      (max_size : ℕ) (f : ClientFrame) (ctx : WebsocketCtx P)
      → f.opcode < 3
      → IsTaken f ctx (take_frame max_size parse f.fin f.payload (first_opcode f.opcode ctx))
  take_frame-IsTaken max_size f ctx h =
      subst (λ c. IsTaken f ctx (take_frame max_size parse f.fin f.payload c))
        (sym (first_opcode-kept f.opcode ctx h))
        (take_frame-kept max_size f ctx f.fin (parse (ctx.frame_payload_data ++ f.payload)) refl
          refl)

  -- A text, binary or continuation frame of a client, with or without a masking key, that stands at
  -- the front of the receive buffer is taken off whole, and what stands behind it is left. A frame
  -- that is not the last of its message appends its unmasked payload to the message and leaves the
  -- session as it was. The last one ends the message, so that the next begins with no bytes: if the
  -- message with the payload behind it parses, the package goes to the other thread with the
  -- connection's gid and worker, and else the connection is marked to be closed. A text or binary
  -- frame sets the opcode of the message, a continuation keeps it. Lengths of one, two and eight bytes
  -- are covered, up to the size of a string.
  pub websocket_step-IsTaken :
      (max_size : ℕ) (f : ClientFrame) (rest : Bytes) (ctx : WebsocketCtx P)
      → IsClientFrame max_size f
      → (ctx' : WebsocketCtx P) × (websocket_step max_size parse
            (record { m_data = frame_bytes f ++ rest })
            ctx
          ≡ again (record { m_data = rest }) ctx')
        × IsTaken f ctx ctx'
  websocket_step-IsTaken max_size f rest ctx h = (
    take_frame max_size parse f.fin f.payload (first_opcode f.opcode ctx),
    websocket_step-frame_bytes max_size parse f rest ctx h,
    take_frame-IsTaken max_size f ctx h.allowed,
  )
