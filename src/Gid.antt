-- ===== src/Gid.antt =====
-- The ids of client connections: server_gen_gid and the worker's 9 bits in src/server/server.cpp,
-- other_gen_gid in src/workers/other.cpp. `ticks` is `m_latest_tick_time`, in seconds.
mod Tests
use avant.Base.{
  ℕ, ◌+◌, ◌*◌, ◌^◌, ◌/◌, ◌%◌, ◌<◌, ◌≡◌, refl, ap, ap₂, sym, ◌∙◌, pos, bit_and, bit_or, arith,
  u64_mod, add64,
}
use avant.Base.Bits.{bit_or-shift, bit_and-0x7fffff, bit_and-0x1ff}
use avant.TunnelId.{hash_gid_2_worker_tunnel_id}

pub record GidState : Type 0 where
  pub m_gid_seq : ℕ
  pub m_latest_tick_time : ℕ

-- 32bit(timestamp) 23bit(m_gid_seq) 9bit(worker_idx)
unfoldable pub server_gen_gid : GidState → ℕ × GidState
server_gen_gid s = (
  bit_or (s.m_latest_tick_time * 2 ^ 32 % 2 ^ 64) (bit_and s.m_gid_seq 0x7FFFFF * 2 ^ 9 % 2 ^ 64),
  record s { m_gid_seq = (s.m_gid_seq + 1) % 2 ^ 64 },
)

unfoldable pub other_gen_gid : GidState → ℕ × GidState
other_gen_gid s = (
  bit_or (s.m_latest_tick_time * 2 ^ 32 % 2 ^ 64) s.m_gid_seq,
  record s { m_gid_seq = (s.m_gid_seq + 1) % 2 ^ 64 },
)

-- the three fields of a gid, as numbers
gid_value :
    (s : GidState) (idx : ℕ)
    → s.m_latest_tick_time < 4294967296
    → idx < 512
    → bit_or (server_gen_gid s).0 idx
      ≡ s.m_latest_tick_time * 4294967296 + (s.m_gid_seq % 8388608) * 512 + idx
unfolding server_gen_gid
gid_value s idx ht hi =
    let seq = s.m_gid_seq % 8388608 in
    let time = s.m_latest_tick_time in
    let low : bit_and s.m_gid_seq 0x7FFFFF * 2 ^ 9 % 2 ^ 64 ≡ seq * 512 =
      omega (arith, bit_and-0x7fffff s.m_gid_seq) in
    let high : time * 2 ^ 32 % 2 ^ 64 ≡ time * 2 ^ 32 = omega arith in
    ap (λ (t : ℕ). bit_or t idx)
      (ap₂ bit_or high low ∙ bit_or-shift 32 time (seq * 512) (omega arith))
    ∙ ap (λ (t : ℕ). bit_or t idx) (omega arith)
    ∙ bit_or-shift 9 (time * 8388608 + seq) idx (omega arith)
    ∙ omega arith

-- The gid that a client gets from the main thread, with its worker's index in the low 9 bits, is
-- hashed to the tunnel id of that worker, for a clock of 32 bits and up to 512 workers.
pub hash_gid_2_worker_tunnel_id-server_gen_gid :
    (s : GidState) (idx : ℕ)
    → s.m_latest_tick_time < 4294967296
    → idx < 512
    → hash_gid_2_worker_tunnel_id (bit_or (server_gen_gid s).0 idx) ≡ pos idx
unfolding hash_gid_2_worker_tunnel_id
hash_gid_2_worker_tunnel_id-server_gen_gid s idx ht hi =
    ap pos (omega (arith, bit_and-0x1ff (bit_or (server_gen_gid s).0 idx), gid_value s idx ht hi))

-- Two gids are equal only if they were made in the same second, at sequence numbers that agree
-- in their 23 low bits, for the same worker, for a clock of 32 bits and up to 512 workers.
pub server_gen_gid_distinct :
    (s t : GidState) (i j : ℕ)
    → s.m_latest_tick_time < 4294967296
    → t.m_latest_tick_time < 4294967296
    → i < 512
    → j < 512
    → bit_or (server_gen_gid s).0 i ≡ bit_or (server_gen_gid t).0 j
    → (s.m_latest_tick_time ≡ t.m_latest_tick_time)
      × (s.m_gid_seq % 8388608 ≡ t.m_gid_seq % 8388608)
      × (i ≡ j)
server_gen_gid_distinct s t i j hs ht hi hj e =
    let q : s.m_latest_tick_time * 4294967296 + (s.m_gid_seq % 8388608) * 512 + i
        ≡ t.m_latest_tick_time * 4294967296 + (t.m_gid_seq % 8388608) * 512 + j =
      sym (gid_value s i hs hi) ∙ e ∙ gid_value t j ht hj in
    (omega (arith, q), omega (arith, q), omega (arith, q))
