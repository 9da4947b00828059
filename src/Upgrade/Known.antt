-- ===== src/Upgrade/Known.antt =====
-- Every event keeps apart who is past the handshake and who is not.
use avant.Base.{
  ℕ, ◌+◌, ◌-◌, ◌<◌, ◌≡◌, inl, inr, refl, sym, ap, ◌∙◌, Bool, true, false, ◌||◌, not, some, List, [],
  ◌∷◌, ◌++◌, Bytes, length, take, leb, arith, append-nil, append_assoc, if_case,
}
use avant.Buffer.{append}
use avant.StreamCtx.{
  Link, SendResult, RecvResult, received, recv_blocked, recv_interrupted, recv_closed,
  try_send_flush,
}
use avant.StreamCtx.Flush.{outgoing, try_send_flush-IsFlushed}
use avant.Http.Parser.{eq_bytes, eq_bytes_iff}
use avant.Upgrade.{UpgradeCtx, drop_timeout_timer, in_order, take_headers}
use avant.Upgrade.Event.{
  UpgradeSite, to_app, closing, greeting, execute_head, head_loop, greet, answer_head,
}
use avant.Upgrade.Texts.{supported_version, websocket_guid}
use avant.Upgrade.Trusted.{
  IsStranger, IsTrusted, IsKnown, IsHonest, IsHeadOf, IsTrusted-extended, try_send_flush_ready,
  run_head_events-IsHeadOf, take_headers-IsHeadOf, IsStranger-head,
}

-- marking, registering and telling keep both
pub closing-IsKnown :
    (site : UpgradeSite) (c : UpgradeCtx) → IsKnown site c → IsKnown site (closing c)
closing-IsKnown site c (inl h) = inl (ground (arith, h))
closing-IsKnown site c (inr h) = inr (record {
  connected = h.connected;
  ready = h.ready;
  processed = h.processed;
  upgraded = h.upgraded;
  version_13 = h.version_13;
  some_key = h.some_key;
  greeted = h.greeted;
})

pub closing-IsStranger : (c : UpgradeCtx) → IsStranger c → IsStranger (closing c)
closing-IsStranger c h = ground (arith, h)

module _ (site : UpgradeSite) (ok : IsHonest site) where
  execute_head-IsHeadOf : (at : Bytes) (c : UpgradeCtx) → IsHeadOf c (execute_head site at c).0
  unfolding execute_head
  execute_head-IsHeadOf at c =
      ground (arith, run_head_events-IsHeadOf (site.parse_head c.parsed at).0 c)

  pub head_loop-IsStranger :
      (answers : List RecvResult) (n : ℕ) (c : UpgradeCtx)
      → IsStranger c
      → IsStranger (head_loop site answers n c).0
  unfolding head_loop
  head_loop-IsStranger [] n c h = h
  head_loop-IsStranger (received bytes ∷ rest) n c h =
      let at : Bytes = take (10240 - n) bytes in
      let r : UpgradeCtx × Bool = execute_head site at c in
      let g : IsStranger r.0 = IsStranger-head c r.0 (execute_head-IsHeadOf at c) h in
      let P : UpgradeCtx × Bool → Type 0 = λ q. IsStranger q.0 in
      if_case P (leb 10240 n) (c, false) _ (λ q. h)
        (λ q.
          if_case P r.1 (head_loop site rest (n + length at) r.0) (closing r.0, true)
            (λ q. head_loop-IsStranger rest (n + length at) r.0 g) (λ q. closing-IsStranger r.0 g))
  head_loop-IsStranger (recv_blocked ∷ rest) n c h = h
  head_loop-IsStranger (recv_interrupted ∷ rest) n c h =
      let P : UpgradeCtx × Bool → Type 0 = λ q. IsStranger q.0 in
      if_case P (leb 10240 n) (c, false) (head_loop site rest n c) (λ q. h)
        (λ q. head_loop-IsStranger rest n c h)
  head_loop-IsStranger (recv_closed ∷ rest) n c h =
      let P : UpgradeCtx × Bool → Type 0 = λ q. IsStranger q.0 in
      if_case P (leb 10240 n) (c, false) (closing c, true) (λ q. h) (λ q. closing-IsStranger c h)

  greet-IsTrusted :
      (sends : List SendResult) (c : UpgradeCtx)
      → IsStranger c
      → c.http_processed ≡ true
      → c.is_upgrade ≡ true
      → c.sec_websocket_version ≡ supported_version
      → 0 < length c.sec_websocket_key
      → IsTrusted site (greet site sends c).0
  unfolding greet append
  greet-IsTrusted sends c h p u v k =
      let response : Bytes = greeting (site.digest (c.sec_websocket_key ++ websocket_guid)) in
      let filled : Link = record (c.link) {
        send_buffer = append (some response) c.link.send_buffer;
        is_ready = true;
      } in
      let connected : UpgradeCtx = record c {
        is_connected = true;
        link = try_send_flush sends filled;
      } in
      let told : UpgradeCtx =
        to_app drop_timeout_timer (record connected { app_layer_notified = true }) in
      let out : outgoing (try_send_flush sends filled) ≡ response ++ [] =
        (try_send_flush-IsFlushed sends filled).same_bytes
        ∙ sym (append_assoc c.link.wire c.link.send_buffer.m_data response)
        ∙ ap (λ (t : Bytes). t ++ response) h.nothing_out
        ∙ sym (append-nil response) in
      let t : IsTrusted site told = record {
        connected = refl;
        ready = try_send_flush_ready sends filled;
        processed = p;
        upgraded = u;
        version_13 = v;
        some_key = k;
        greeted = ([], out);
      } in
      let r : UpgradeCtx × Bool = site.new_connection told in
      let g : IsTrusted site r.0 = IsTrusted-extended site told r.0 (ok.new_extends told) t in
      if_case (λ (q : UpgradeCtx × Bool). IsTrusted site q.0) r.1 (closing r.0, true) (r.0, false)
        (λ q. ground (arith, g)) (λ q. g)

  pub answer_head-IsKnown :
      (sends : List SendResult) (c : UpgradeCtx)
      → IsStranger c
      → c.http_processed ≡ true
      → c.is_upgrade ≡ true
      → IsKnown site (answer_head site sends c).0
  unfolding answer_head
  answer_head-IsKnown sends c h p u =
      let asked : UpgradeCtx = take_headers (in_order c.headers) c in
      let same = take_headers-IsHeadOf (in_order c.headers) c in
      let g : IsStranger asked = IsStranger-head c asked same.0 h in
      if_case (λ (q : UpgradeCtx × Bool). IsKnown site q.0)
        (leb (length asked.sec_websocket_key) 0
          || not (eq_bytes asked.sec_websocket_version supported_version))
        (closing asked, true) (greet site sends asked) (λ q. inl (closing-IsStranger asked g))
        (λ q. inr (
          greet-IsTrusted sends asked g (same.1 ∙ p) (same.2 ∙ u)
            ((eq_bytes_iff asked.sec_websocket_version supported_version).0 (ground (arith, q)))
            (ground (arith, q))))
