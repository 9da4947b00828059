-- ===== src/Tunnel/Tests.antt =====
-- A tunnel end that collects packages of one byte.
use avant.Base.{ℕ, ◌≡◌, refl, inl, Option, none, some, List, [], ◌∷◌, ◌++◌, Bytes, arith}
use avant.Buffer.{VecStrBuffer}
use avant.Proto.{IsCodec, pack_package}
use avant.Proto.Reader.{IsSendable}
use avant.Proto.Chunks.{feed}
use avant.Tunnel.{tunnel_read}
use avant.Tunnel.Reader.{max_payload, tunnel_delivery}

abbrev serialize : ℕ → Option Bytes
serialize n = some (n ∷ [])

abbrev parse : Bytes → Option ℕ
parse (n ∷ []) = some n
parse _ = none

codec_lem : (p : ℕ) (d : Bytes) → serialize p ≡ some d → parse d ≡ some p
codec_lem p d e = ground arith

codec : IsCodec serialize parse
codec = record { parse_serialized = codec_lem }

sendable : (n : ℕ) → IsSendable serialize max_payload n
sendable n = record {
  payload = n ∷ [];
  serialized = refl;
  nonempty = omega arith;
  fits = omega arith;
}

abbrev collect : List ℕ → ℕ → List ℕ
collect seen n = seen ++ (n ∷ [])

abbrev empty : VecStrBuffer
empty = record { m_data = [] }

abbrev cut : List Bytes
cut =
    (0 ∷ 0 ∷ 0 ∷ 0 ∷ 0 ∷ []) ∷ (0 ∷ 0 ∷ 1 ∷ 7 ∷ 0 ∷ 0 ∷ 0 ∷ 0 ∷ 0 ∷ 0 ∷ []) ∷ (0 ∷ 1 ∷ 9 ∷ []) ∷ []

tunnel_delivery_example :
    ((feed (tunnel_read parse collect) cut empty []).0.m_data ≡ [])
    × ((feed (tunnel_read parse collect) cut empty []).1 ≡ 7 ∷ 9 ∷ [])
unfolding pack_package
tunnel_delivery_example =
    tunnel_delivery serialize parse codec collect cut (7 ∷ 9 ∷ []) [] empty [] (omega arith)
      (sendable 7, (sendable 9, tt)) (inl (omega arith)) (inl (omega arith)) refl

abbrev one_package : VecStrBuffer
one_package = record { m_data = 0 ∷ 0 ∷ 0 ∷ 0 ∷ 0 ∷ 0 ∷ 0 ∷ 1 ∷ 7 ∷ [] }
