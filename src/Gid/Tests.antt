-- ===== src/Gid/Tests.antt =====
-- Two clients that come in one second.
use avant.Base.{ℕ, ◌≡◌, pos, bit_or, arith}
use avant.TunnelId.{hash_gid_2_worker_tunnel_id}
use avant.Gid.{GidState, server_gen_gid, hash_gid_2_worker_tunnel_id-server_gen_gid}

abbrev now : GidState
now = record { m_gid_seq = 8388609; m_latest_tick_time = 1732602750 }

hash_example : hash_gid_2_worker_tunnel_id (bit_or (server_gen_gid now).0 3) ≡ pos 3
hash_example = hash_gid_2_worker_tunnel_id-server_gen_gid now 3 (omega arith) (omega arith)

-- the sequence number one second later, when it has been set back
abbrev later : GidState
later = record { m_gid_seq = 1; m_latest_tick_time = 1732602750 }

abbrev worker : ℕ
worker = 3
