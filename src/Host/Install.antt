-- ===== src/Host/Install.antt =====
-- include/E/Networking/E_Host.hpp: the modules that are installed in a host, and the branch of
-- messageReceived in src/Networking/E_Host.cpp that hands a timer to its module.
use Prim.Native.String.{String}
use text.Mathlib.Text.{◌==◌ as str_eq}
use kensv.Prelude.{ℕ, not, Option, none, some, List, ◌∷◌, if◌then◌else◌}
use kensv.Prelude.Maybe.{◌>>=◌, ◌>>◌, assert}
use kensv.Host.{Namespace, Host}
use kensv.Host.Syscalls.{installed}
use kensv.Host.Default.{timer_callback}
use kensv.Host.Modules.{has_module}

-- The keys of `hostModuleMap`, `timerModuleMap` and `interfaceMap`.
pub record Installed : Type 0 where
  pub host_modules : List String
  pub timer_modules : List String
  pub interfaces : List Namespace

-- The parts of a class that is installed: its name as a `HostModule`, its name as a `TimerModule`, and
-- its namespace as a `SystemCallInterface`.
pub record Parts : Type 0 where
  pub as_host_module : Option String
  pub as_timer_module : Option String
  pub as_interface : Option Namespace

-- `insert` into a map of modules by name, and the assertion that the name was free.
unfoldable pub insert_name : Option String → List String → Option (List String)
insert_name none names = some names
insert_name (some name) names = assert (not (has_module name names)) >> some (name ∷ names)

unfoldable pub insert_interface : Option Namespace → List Namespace → Option (List Namespace)
insert_interface none spaces = some spaces
insert_interface (some ns) spaces = assert (not (installed ns spaces)) >> some (ns ∷ spaces)

-- `addHostModule`.
unfoldable pub add_host_module : Parts → Installed → Option Installed
add_host_module p i = do
  host_modules ← insert_name p.as_host_module i.host_modules
  timer_modules ← insert_name p.as_timer_module i.timer_modules
  interfaces ← insert_interface p.as_interface i.interfaces
  some (record {
    host_modules = host_modules;
    timer_modules = timer_modules;
    interfaces = interfaces;
  })

-- `DefaultSystemCall`, which the constructor of a host installs.
abbrev pub default_system_call : Parts
default_system_call = record {
  as_host_module = none;
  as_timer_module = some "DefaultSyscall";
  as_interface = some (record { domain = 0; protocol = 0 });
}

-- The branch for `Timer`; `others` are the callbacks of the other timer modules. A name that is not there
-- is called through null.
unfoldable pub timer_received {ℓ} :
    {S : Type ℓ}
    → (others : String → ℕ → S → Option S) → List String
    → (from : String) → (payload : ℕ) → Host
    → S
    → Option (Host × S)
timer_received others timer_modules from payload h s = do
  assert (has_module from timer_modules)
  if str_eq from "DefaultSyscall"
      then (timer_callback payload h >>= λ h'. some (h', s))
      else (others from payload s >>= λ s'. some (h, s'))
