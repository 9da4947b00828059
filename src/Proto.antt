-- ===== src/Proto.antt =====
-- src/proto/proto_util.cpp: the length prefix of every package on a stream.
-- Protocol buffers are generated code and a library: serialising and parsing are parameters.
pub mod Frame
pub mod Reader
pub mod Deliver
pub mod Chunks
pub mod Fuel
use avant.Base.{ℕ, ◌≡◌, Option, none, some, List, [], ◌++◌, Bytes, be64, of_be64, length}

-- toh64_from_buffer: the word that the first eight bytes at the read pointer hold
abbrev pub toh64_from_buffer : Bytes → ℕ
toh64_from_buffer = of_be64

-- What the code relies on: a serialised message parses back to itself.
pub record IsCodec {P : Type 0} (serialize : P → Option Bytes) (parse : Bytes → Option P)
    : Type 0 where
  pub parse_serialized : (p : P) (d : Bytes) → serialize p ≡ some d → parse d ≡ some p

-- pack_package(std::string &, const ProtoPackage &): `SerializeToString` may fail
unfoldable pub pack_package : {P : Type 0} → (P → Option Bytes) → P → Bytes
pack_package serialize p = elim (serialize p) [ none ↦ [] | some d ↦ be64 (length d) ++ d ]
