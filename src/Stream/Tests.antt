-- ===== src/Stream/Tests.antt =====
-- `stream_app` on concrete streams, with packages that are single bytes.
use avant.Base.{
  ℕ, ◌≡◌, refl, false, true, inl, inr, Option, none, some, List, [], ◌∷◌, ◌++◌, Bytes, arith, be64,
  length,
}
use avant.Buffer.{VecStrBuffer}
use avant.Proto.{IsCodec, pack_package}
use avant.Proto.Reader.{IsSendable}
use avant.Proto.Chunks.{feed}
use avant.Session.{Session, re}
use avant.Stream.{max_packsize, on_process_connection}
use avant.Stream.Delivery.{stream_delivery, message_of}
use avant.Stream.Refusal.{stream_stall}

-- a package is a number, serialised as one byte
abbrev serialize : ℕ → Option Bytes
serialize n = some (n ∷ [])

abbrev parse : Bytes → Option ℕ
parse (n ∷ []) = some n
parse _ = none

codec_lem : (p : ℕ) (d : Bytes) → serialize p ≡ some d → parse d ≡ some p
codec_lem p d e = ground arith

codec : IsCodec serialize parse
codec = record { parse_serialized = codec_lem }

sendable : (n : ℕ) → IsSendable serialize max_packsize n
sendable n = record {
  payload = n ∷ [];
  serialized = refl;
  nonempty = omega arith;
  fits = omega arith;
}

abbrev session : Session ℕ
session = record {
  gid = 5;
  worker_idx = 1;
  is_close = false;
  closed_flag = false;
  is_ready = true;
  app_layer_notified = true;
  interest = re;
  outbox = [];
}

abbrev empty : VecStrBuffer
empty = record { m_data = [] }

-- two packages, cut inside the first header and inside the second
abbrev cut : List Bytes
cut =
    (0 ∷ 0 ∷ 0 ∷ [])
    ∷ (0 ∷ 0 ∷ 0 ∷ 0 ∷ 1 ∷ 7 ∷ 0 ∷ 0 ∷ [])
    ∷ (0 ∷ 0 ∷ 0 ∷ 0 ∷ 0 ∷ 1 ∷ 9 ∷ 0 ∷ [])
    ∷ []

stream_delivery_example :
    ((feed (on_process_connection parse) cut empty session).0.m_data ≡ 0 ∷ [])
    × ((feed (on_process_connection parse) cut empty session).1
        ≡ record session { outbox = message_of session 7 ∷ message_of session 9 ∷ [] })
unfolding pack_package
stream_delivery_example =
    stream_delivery serialize parse codec cut (7 ∷ 9 ∷ []) (0 ∷ []) empty session (omega arith)
      (sendable 7, (sendable 9, tt)) (inl (omega arith)) (inl (omega arith)) refl

abbrev oversized : VecStrBuffer
oversized = record { m_data = be64 10241 }

oversized_header : avant.Base.of_be64 oversized.m_data ≡ 10241
oversized_header = avant.Base.of_be64-be64 10241 [] (omega arith)

-- the package 7 stays behind the empty one
stream_stall_example :
    on_process_connection parse (record { m_data = be64 0 ++ ([] ++ be64 1 ++ (7 ∷ [])) }) session
    ≡ (record { m_data = be64 1 ++ (7 ∷ []) }, session)
stream_stall_example =
    stream_stall parse [] (be64 1 ++ (7 ∷ [])) session (inl refl) (omega arith) (omega arith)
