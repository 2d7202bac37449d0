-- ===== src/Host/Messages.antt =====
-- The messages that a host sends to itself, in src/Networking/E_Host.cpp and src/E/E_TimerModule.cpp, as
-- calls of the core. `self` is the module id of the host; a payload is a number.
use Prim.Native.String.{String}
use kensv.Prelude.{ℕ}
use kensv.Packet.{Packet}
use kensv.Syscall.{SystemCallParameter}
use kensv.System.{Prog, send, cancel}
use kensv.Host.Modules.{PacketPass, Effect, passes, leaves}

-- `Wire::Message`, `PacketPass`, `Syscall`, `Timer` and `Return`.
pub data Message : Type 0 where
  wire_message : Packet → Message
  packet_pass : PacketPass → Message
  syscall : (pid : ℕ) → SystemCallParameter → Message
  timer : (from : String) → (payload : ℕ) → Message
  returned : (pid return_value : ℕ) → Message

module _ {R : Type 0} (self : ℕ) where
  -- `Module::sendMessageSelf`.
  unfoldable pub send_message_self :
      Message → (time_after : ℕ) → (ℕ → Prog Message R) → Prog Message R
  send_message_self message time_after k = send self self message time_after k

  -- `TimerModule::addTimer` of the module `name`, through `Host::addTimer`.
  unfoldable pub add_timer :
      (name : String) → (payload time_after : ℕ) → (ℕ → Prog Message R) → Prog Message R
  unfolding send_message_self
  add_timer name payload time_after k = send_message_self (timer name payload) time_after k

  -- `TimerModule::cancelTimer`, through `Host::cancelTimer`, whose result is not used.
  unfoldable pub cancel_timer : (key : ℕ) → Prog Message R → Prog Message R
  cancel_timer key k = cancel key (λ found. k)

  unfoldable pub issue_system_call :
      (pid : ℕ) → SystemCallParameter → (ℕ → Prog Message R) → Prog Message R
  unfolding send_message_self
  issue_system_call pid param k = send_message_self (syscall pid param) 0 k

  unfoldable pub exit_process : (pid return_value : ℕ) → (ℕ → Prog Message R) → Prog Message R
  unfolding send_message_self
  exit_process pid return_value k = send_message_self (returned pid return_value) 0 k

  -- An effect of `Host.Modules`: a message to itself, or one to the wire of a port.
  unfoldable pub perform : (wire_of : ℕ → ℕ) → Effect → (ℕ → Prog Message R) → Prog Message R
  unfolding send_message_self
  perform wire_of (passes m) k = send_message_self (packet_pass m) 0 k
  perform wire_of (leaves port p) k = send self (wire_of port) (wire_message p) 0 k
