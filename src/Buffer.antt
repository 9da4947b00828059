-- ===== src/Buffer.antt =====
-- src/utility/vec_str_buffer.cpp: the byte queue of a connection, over a `std::string`.
-- `reserve` and the capacity of the string are not modelled: they change no byte.
pub mod Laws
mod Tests
use avant.Base.{
  ℕ, Bool, Option, none, some, List, [], ◌∷◌, ◌++◌, Bytes, length, drop, ltb, if◌then◌else◌,
}

pub record VecStrBuffer : Type 0 where
  pub m_data : Bytes

abbrev pub size : VecStrBuffer → ℕ
size b = length b.m_data

abbrev pub empty : VecStrBuffer → Bool
empty b = elim b.m_data [ [] ↦ Bool.true | x ∷ xs ↦ Bool.false ]

-- get_read_ptr: the bytes from the first on
abbrev pub get_read_ptr : VecStrBuffer → Bytes
get_read_ptr b = b.m_data

unfoldable pub move_read_ptr_n : ℕ → VecStrBuffer → VecStrBuffer
move_read_ptr_n n b = record { m_data = drop (if ltb (size b) n then size b else n) b.m_data }

-- `none` is a null pointer.
unfoldable pub append : Option Bytes → VecStrBuffer → VecStrBuffer
append none b = b
append (some bytes) b = record { m_data = b.m_data ++ bytes }

unfoldable pub clear : VecStrBuffer → VecStrBuffer
clear b = record { m_data = [] }
