-- ===== src/Syscall.antt =====
-- include/E/Networking/E_Host.hpp: the parameters of a system call. A pointer is its address; integers
-- are words of their size.
use kensv.Prelude.{ℕ, Option, none, some}

-- `SystemCallInterface::SystemCall`.
pub data SystemCall : Type 0 where
  socket close read write connect listen accept bind getsockname getpeername nsleep gettimeofday :
      SystemCall

-- The alternatives of the `std::variant`.
pub data Value : Type 0 where
  pointer int8 int16 int32 int64 uint8 uint16 uint32 uint64 : ℕ → Value

-- `std::get` of an alternative; `none` is the exception for any other.
unfoldable pub get_int : Value → Option ℕ
get_int (int32 n) = some n
get_int _ = none

unfoldable pub get_uint64 : Value → Option ℕ
get_uint64 (uint64 n) = some n
get_uint64 _ = none

unfoldable pub get_pointer : Value → Option ℕ
get_pointer (pointer n) = some n
get_pointer _ = none

-- The three `params`; one that is not set is a null pointer.
pub record SystemCallParameter : Type 0 where
  pub syscall_number : SystemCall
  pub param0 : Value
  pub param1 : Value
  pub param2 : Value
