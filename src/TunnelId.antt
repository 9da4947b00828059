-- ===== src/TunnelId.antt =====
-- src/global/tunnel_id.h and tunnel_id.cpp: the names of the ends of the tunnels. The values of the
-- enumeration are those of protocol/proto_tunnel.proto: workers from 0 on, -1 and -2.
use avant.Base.{
  ℕ, zero, suc, ◌≡◌, refl, ℤ, pos, negsuc, eq_ℤ, leb_ℤ, Bool, true, false, ◌&&◌, ◌||◌, List,
  bit_and, arith, if◌then◌else◌, nat_eq, int_eq, ltb, ap, sym, ◌∙◌,
}
use avant.Base.Set

pub record TunnelId : Type 0 where
  pub m_worker_cnt : ℕ

abbrev pub get_worker_tunnel_id_min : ℤ
get_worker_tunnel_id_min = pos 0

-- m_worker_cnt - 1
abbrev pub get_worker_tunnel_id_max : TunnelId → ℤ
get_worker_tunnel_id_max t = elim t.m_worker_cnt [ zero ↦ negsuc 0 | suc n ↦ pos n ]

abbrev pub get_other_tunnel_id : ℤ
get_other_tunnel_id = negsuc 0

abbrev pub get_main_tunnel_id : ℤ
get_main_tunnel_id = negsuc 1

abbrev pub get_worker_tunnel_id : ℕ → ℤ
get_worker_tunnel_id worker_idx = pos worker_idx

unfoldable pub hash_gid_2_worker_tunnel_id : ℕ → ℤ
hash_gid_2_worker_tunnel_id gid = get_worker_tunnel_id (bit_and gid 0x1FF)

unfoldable pub is_worker_tunnel_id : TunnelId → ℤ → Bool
is_worker_tunnel_id t id =
    leb_ℤ get_worker_tunnel_id_min id && leb_ℤ id (get_worker_tunnel_id_max t)

unfoldable pub is_tunnel_id : TunnelId → ℤ → Bool
is_tunnel_id t id =
    if leb_ℤ get_worker_tunnel_id_min id && leb_ℤ id (get_worker_tunnel_id_max t)
    then true
    else if eq_ℤ get_other_tunnel_id id
    then true
    else eq_ℤ get_main_tunnel_id id

-- for (i = min; i <= max; i++) all.insert(i)
abbrev pub workers_below : ℕ → List ℤ → List ℤ
workers_below zero all = all
workers_below (suc n) all = Set.insert (pos n) (workers_below n all)

below : ℕ → ℤ → Bool
below n (pos k) = ltb k n
below n (negsuc k) = false

contains-below :
    (n : ℕ) (id : ℤ) (all : List ℤ)
    → Set.contains id (workers_below n all) ≡ below n id || Set.contains id all
unfolding below
contains-below zero (pos k) all = ground arith
contains-below zero (negsuc k) all = refl
contains-below (suc n) (pos k) all =
    ground (
      arith,
      contains-below n (pos k) all,
      Set.contains-insert (pos n) (pos k) (workers_below n all),
    )
contains-below (suc n) (negsuc k) all = ground (
  arith,
  contains-below n (negsuc k) all,
  Set.contains-insert (pos n) (negsuc k) (workers_below n all),
)

is_worker_below : (t : TunnelId) (id : ℤ) → is_worker_tunnel_id t id ≡ below t.m_worker_cnt id
unfolding is_worker_tunnel_id below
is_worker_below t (pos k) = go t.m_worker_cnt refl
  where
    go : (n : ℕ) → t.m_worker_cnt ≡ n → is_worker_tunnel_id t (pos k) ≡ below t.m_worker_cnt (pos k)
    go zero q = rw q (ground arith)
    go (suc n) q = rw q (ground arith)
is_worker_below t (negsuc k) = refl

-- The loop over all workers inserts exactly the workers' tunnel ids.
pub contains-workers_below :
    (t : TunnelId) (id : ℤ) (all : List ℤ)
    → Set.contains id (workers_below t.m_worker_cnt all)
      ≡ is_worker_tunnel_id t id || Set.contains id all
contains-workers_below t id all =
    contains-below t.m_worker_cnt id all
    ∙ ap (λ (b : Bool). b || Set.contains id all) (sym (is_worker_below t id))
