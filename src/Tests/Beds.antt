-- ===== src/Tests/Beds.antt =====
-- The environment TestEnv2, with a class that only has its names, and a datagram for the first address of its second host.
use kensv.Prelude.{ℕ, ◌≡◌, refl, true, some, [], ◌∷◌, ◌++◌, replicate, arith}
use kensv.Packet.{Packet, Allocator}
use kensv.Host.Syscalls.{installed}
use kensv.Host.Modules.{Modules, Others, has_module}
use kensv.Host.Install.{Parts, add_host_module, insert_name, insert_interface}
use kensv.Testbed.{Testbed}
use kensv.Testbed.TwoHosts.{TestEnv, ip1, ip2}
use kensv.Testbed.Delivery.{Delivered}
use kensv.Testbed.Reach.{Allocates, set_up}
use kensv.Testbed.Ways.{to_ip2, from, to, set_up_delivers}

abbrev tcp : Parts
tcp = record {
  as_host_module = some "TCP";
  as_timer_module = some "TCP";
  as_interface = some (record { domain = 2; protocol = 6 });
}

tcp-Allocates : Allocates (add_host_module tcp)
unfolding add_host_module insert_name insert_interface installed has_module
tcp-Allocates = record {
  after = record {
    host_modules = "TCP" ∷ "IPv4" ∷ "Ethernet" ∷ [];
    timer_modules = "TCP" ∷ "DefaultSyscall" ∷ [];
    interfaces = record { domain = 2; protocol = 6 } ∷ record { domain = 0; protocol = 0 } ∷ [];
  };
  adds = refl;
  keeps_ethernet = refl;
  keeps_ipv4 = refl;
  has_tcp = refl;
}

abbrev datagram : Packet
datagram = record { buffer = replicate 26 0 ++ (ip1 ++ (ip2 ++ (1 ∷ 2 ∷ []))); packet_id = 0 }

abbrev ignores : Others ℕ
ignores to from p s = some (s, [])

abbrev modules : Modules ℕ
modules = record { identification = 7; others = 0 }

abbrev allocator : Allocator
allocator = record { packet_uuid_set = 0 ∷ []; packet_uuid_start = 1 }

set_up_delivers_example :
    (t : Testbed) × (e : TestEnv) × (set_up true (add_host_module tcp) (add_host_module tcp)
      ≡ some (t, e))
    × Delivered ignores t
        (from to_ip2 e)
        (to to_ip2 e)
        datagram
        modules
        modules
        (λ w. true)
        allocator
set_up_delivers_example =
    set_up_delivers true (add_host_module tcp) (add_host_module tcp) ignores to_ip2 datagram modules
      modules (λ w. true) allocator tcp-Allocates tcp-Allocates (omega arith) (ground arith)
      (omega arith) refl (omega arith, omega arith)
