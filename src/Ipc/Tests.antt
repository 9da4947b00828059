-- ===== src/Ipc/Tests.antt =====
-- An IPC connection whose packages are single bytes: from 100 on they are handshakes, which name the
-- app id.
use avant.Base.Map
use avant.Base.{
  ℕ, zero, suc, ◌≤◌, ◌≡◌, refl, inl, true, false, Option, none, some, List, [], ◌∷◌, Bytes, arith,
  length, take, leb, ◌==◌, if◌then◌else◌, nat_eq,
}
use avant.Buffer.{VecStrBuffer}
use avant.Proto.{IsCodec, pack_package}
use avant.Proto.Reader.{IsSendable}
use avant.Proto.Chunks.{feed}
use avant.Session.{re}
use avant.Ipc.{Codec, IpcState, Peer, on_recv_package, on_close_connection, on_process_connection}
use avant.Ipc.Pairs.{IsPaired, on_recv_package-IsPaired, on_recv_package_keeps_binding}
use avant.Ipc.Delivery.{max_payload, ipc_delivery}

abbrev parse : Bytes → Option ℕ
parse (n ∷ []) = some n
parse _ = none

abbrev parse_from_array : Bytes → ℕ → Option ℕ
parse_from_array bs n = if n == 1 then parse (take 1 bs) else none

within : (bs : Bytes) (n : ℕ) → n ≤ length bs → parse_from_array bs n ≡ parse (take n bs)
within bs zero h = refl
within bs (suc zero) h = refl
within [] (suc (suc n)) h = absurd (omega arith)
within (x ∷ []) (suc (suc n)) h = absurd (omega arith)
within (x ∷ y ∷ bs) (suc (suc n)) h = ground arith

negative : (bs : Bytes) (n : ℕ) → 18446744073709551608 ≤ n → parse_from_array bs n ≡ none
negative bs n h = ground arith

abbrev codec : Codec ℕ ℕ ℕ
codec = record {
  parse_from_array = parse_from_array;
  is_handshake = λ p. leb 100 p;
  parse_handshake = λ p. some p;
  parse_message = λ p. some p;
  whoami = 200;
}

abbrev peer : Peer
peer = record { gid = 9; this2remote = true }

abbrev fresh : IpcState ℕ ℕ ℕ
fresh = record {
  gid2appid = [];
  appid2gid = [];
  lua_messages = [];
  sent = [];
  is_close = false;
  interest = re;
}

fresh-IsPaired : IsPaired fresh
unfolding Map.find
fresh-IsPaired = record {
  to_gid = λ g a e. absurd (ground (arith, e));
  to_appid = λ g a e. absurd (ground (arith, e));
}

on_recv_package-IsPaired_example : IsPaired (on_recv_package codec peer fresh 101)
on_recv_package-IsPaired_example = on_recv_package-IsPaired codec peer fresh 101 fresh-IsPaired

-- after the handshake
abbrev bound : IpcState ℕ ℕ ℕ
bound = on_recv_package codec peer fresh 101

bound-IsPaired : IsPaired bound
bound-IsPaired = on_recv_package-IsPaired codec peer fresh 101 fresh-IsPaired

-- a second handshake, as 102, changes nothing
on_recv_package_keeps_binding_example :
    Map.find 101 (on_recv_package codec peer bound 102).appid2gid ≡ some 9
unfolding on_recv_package avant.Ipc.authenticate Map.find Map.assign Map.erase
on_recv_package_keeps_binding_example =
    on_recv_package_keeps_binding codec peer bound 102 101 9 refl

abbrev serialize : ℕ → Option Bytes
serialize n = some (n ∷ [])

serialize_lem : (p : ℕ) (d : Bytes) → serialize p ≡ some d → parse d ≡ some p
serialize_lem p d e = ground arith

serialize-IsCodec : IsCodec serialize parse
serialize-IsCodec = record { parse_serialized = serialize_lem }

sendable : (n : ℕ) → IsSendable serialize max_payload n
sendable n = record {
  payload = n ∷ [];
  serialized = refl;
  nonempty = omega arith;
  fits = omega arith;
}

abbrev empty : VecStrBuffer
empty = record { m_data = [] }

abbrev cut : List Bytes
cut = (0 ∷ 0 ∷ 0 ∷ 0 ∷ 0 ∷ 0 ∷ 0 ∷ 1 ∷ 101 ∷ 0 ∷ 0 ∷ []) ∷ (0 ∷ 0 ∷ 0 ∷ 0 ∷ 0 ∷ 1 ∷ 7 ∷ 0 ∷ []) ∷ []

ipc_delivery_example :
    ((feed (on_process_connection codec peer) cut empty fresh).0.m_data ≡ 0 ∷ [])
    × ((feed (on_process_connection codec peer) cut empty fresh).1
        ≡ on_recv_package codec peer (on_recv_package codec peer fresh 101) 7)
unfolding pack_package
ipc_delivery_example =
    ipc_delivery codec peer parse within serialize serialize-IsCodec cut (101 ∷ 7 ∷ []) (0 ∷ [])
      empty fresh (omega arith) (sendable 101, (sendable 7, tt)) (inl (omega arith))
      (inl (omega arith)) refl

-- the header 2^64 - 8
abbrev wrapping : VecStrBuffer
wrapping = record { m_data = 255 ∷ 255 ∷ 255 ∷ 255 ∷ 255 ∷ 255 ∷ 255 ∷ 248 ∷ [] }
