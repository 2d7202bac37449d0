-- ===== src/System.antt =====
-- The discrete-event core: include/E/E_System.hpp, src/E/E_System.cpp and the part of
-- src/E/E_Module.cpp through which a module reaches it.
pub mod Queue
pub mod Ensures
pub mod Rules
pub mod Invariant
pub mod Time
pub mod Hands
pub mod Budget
pub mod Deliveries
pub mod Returns
pub mod Spec
pub mod Valid
pub mod Steps
pub mod Refines
use kensv.Prelude.{
  ℕ, zero, suc, ◌+◌, ◌%◌, ◌^◌, Bool, true, false, not, ◌&&◌, Option, none, some, List, [], ◌∷◌, ltb,
  ◌==◌, if◌then◌else◌,
}
use kensv.Prelude.Table.{Table, lookup, assign, erase}
use kensv.Prelude.NumSet.{member, insert, remove}
use Queue.{Entry, push}

-- `Time` and `UUID` are `uint64_t`.
abbrev pub word : ℕ
word = 2 ^ 64

-- `TimerContainerInner`.
pub record TimerContainer {ℓ} (M : Type ℓ) : Type ℓ where
  pub from : ℕ
  pub to : ℕ
  pub canceled : Bool
  pub wakeup : ℕ
  pub message : M
  pub uuid : ℕ

-- A container is owned jointly by the queue and by `active_timer`. It is kept here once, in
-- `active_timer`, and the queue holds a pointer to it: its uuid, with the wake-up time that the
-- comparator reads.
pub record System {ℓ} (M : Type ℓ) : Type ℓ where
  pub current_time : ℕ
  pub current_uuid : ℕ
  pub timer_queue : List Entry
  pub active_timer : Table (TimerContainer M)
  pub active_uuid : List ℕ
  pub registered_module : List ℕ
  pub runnable_ready : List ℕ

-- A failed `assert`, a call through the null pointer that `registered_module[id]` yields for an
-- unknown module, and a pointer in the queue whose container is gone.
pub data Fault : Type 0 where
  assertion null_module dangling : Fault

pub data Result {ℓ} (A : Type ℓ) : Type ℓ where
  ok : A → Result A
  fault : Fault → Result A
  out_of_fuel : Result A

infixl 5 ◌>>=◌
abbrev pub ◌>>=◌ {ℓ κ} : {A : Type ℓ} {B : Type κ} → Result A → (A → Result B) → Result B
ok a >>= f = f a
fault e >>= f = fault e
out_of_fuel >>= f = out_of_fuel

-- What the code of a module may do: a `Module` has no access to its `System` but these calls.
-- `from` is the id of the module that sends.
pub data Prog {ℓ} (M R : Type ℓ) : Type ℓ where
  done : R → Prog M R
  fail : Prog M R
  send : ℕ → ℕ → M → ℕ → (ℕ → Prog M R) → Prog M R
  cancel : ℕ → (Bool → Prog M R) → Prog M R
  clock : (ℕ → Prog M R) → Prog M R
  add_runnable : ℕ → Prog M R → Prog M R
  del_runnable : ℕ → Prog M R → Prog M R

-- `Runnable::State`, as far as the scheduler distinguishes it.
pub data WakeResult : Type 0 where
  still_ready stopped : WakeResult

-- The virtual methods of the registered modules, and the runnables, over a joint state `W`.
-- `message_received to from m w` takes the message by reference, and returns it as it is left,
-- with the reply (`none` for the null pointer).
pub record Modules {ℓ} (M W : Type ℓ) : Type (ℓ + 1) where
  pub empty_message : M
  pub message_received : ℕ → ℕ → M → W → Prog M (W × M × Option M)
  pub message_finished : ℕ → ℕ → M → M → W → Prog M W
  pub message_cancelled : ℕ → ℕ → M → W → Prog M W
  pub wake : ℕ → W → Prog M (W × WakeResult)

-- Whether every module is pointed to once.
unfoldable all_once : (use_count : ℕ → ℕ) → List ℕ → Bool
all_once use_count [] = true
all_once use_count (m ∷ ms) = (use_count m == 1) && all_once use_count ms

module _ {ℓ} {M : Type ℓ} where
  -- `System::System`.
  unfoldable pub init : List ℕ → System M
  init modules = record {
    current_time = 0;
    current_uuid = 0;
    timer_queue = [];
    active_timer = [];
    active_uuid = [];
    registered_module = modules;
    runnable_ready = [];
  }

  -- `System::~System`, which aborts unless it holds the only pointer to each module.
  unfoldable pub destroy : (use_count : ℕ → ℕ) → System M → Result (System M)
  unfolding all_once
  destroy use_count s =
      if all_once use_count s.registered_module
      then ok (record s { active_timer = []; timer_queue = [] })
      else fault assertion

  unfoldable pub allocate_uuid : System M → Result (System M × ℕ)
  allocate_uuid s =
      let candidate = (s.current_uuid + 1) % word in
      if member candidate s.active_uuid
      then fault assertion
      else ok (
        record s { current_uuid = candidate; active_uuid = insert candidate s.active_uuid },
        candidate,
      )

  unfoldable pub deallocate_uuid : ℕ → System M → System M × Bool
  deallocate_uuid candidate s =
      if member candidate s.active_uuid
      then (record s { active_uuid = remove candidate s.active_uuid }, true)
      else (s, false)

  unfoldable pub is_registered : ℕ → System M → Bool
  is_registered id s = member id s.registered_module

  -- `activeTimer.insert` and `timerQueue.push` of `sendMessage`.
  unfoldable pub enqueue : TimerContainer M → System M → System M
  enqueue c s = record s {
    active_timer = assign c.uuid c s.active_timer;
    timer_queue = push (record { wakeup = c.wakeup; uuid = c.uuid }) s.timer_queue;
  }

  unfoldable pub send_message : ℕ → ℕ → M → ℕ → System M → Result (System M × ℕ)
  unfolding allocate_uuid enqueue
  send_message from to message time_after s = do
    (s', uuid) ← allocate_uuid s
    ok (
      enqueue
          (record {
            from = from;
            to = to;
            canceled = false;
            wakeup = (s'.current_time + time_after) % word;
            message = message;
            uuid = uuid;
          })
          s',
      uuid,
    )

  unfoldable pub cancel_message : ℕ → System M → System M × Bool
  cancel_message id s = elim (lookup id s.active_timer) [
    | none ↦ (s, false)
    | some c ↦
        (record s { active_timer = assign id (record c { canceled = true }) s.active_timer }, true)
  ]

  -- The calls of a module's code, in order.
  unfoldable pub exec : {R : Type ℓ} → Prog M R → System M → Result (System M × R)
  exec (done r) s = ok (s, r)
  exec fail s = fault assertion
  exec (send from to m after k) s =
      send_message from to m after s >>= λ (s', uuid). exec (k uuid) s'
  exec (cancel id k) s = let (s', found) = cancel_message id s in exec (k found) s'
  exec (clock k) s = exec (k s.current_time) s
  exec (add_runnable r k) s = exec k (record s { runnable_ready = insert r s.runnable_ready })
  exec (del_runnable r k) s = exec k (record s { runnable_ready = remove r s.runnable_ready })

  -- `activeTimer.erase` and `activeUUID.erase` after the handling.
  unfoldable pub retire : ℕ → System M → System M
  retire id s = record s {
    active_timer = erase id s.active_timer;
    active_uuid = remove id s.active_uuid;
  }

-- `registeredModule[id]->...`: calling through an unknown id dereferences null.
unfoldable pub call {ℓ} : {M R : Type ℓ} → ℕ → Prog M R → System M → Result (System M × R)
call id body s = if is_registered id s then exec body s else fault null_module

-- `till != 0 && timerQueue.top()->wakeup > till`.
unfoldable pub past : ℕ → Entry → Bool
past till e = not (till == 0) && ltb till e.wakeup

-- The top of the queue and what is left below it, or `none` where `run` breaks off.
unfoldable pub next_event : ℕ → List Entry → Option (Entry × List Entry)
next_event till [] = none
next_event till (e ∷ rest) = if past till e then none else some (e, rest)

module _ {ℓ} {M W : Type ℓ} (modules : Modules M W) where
  -- The rest of the handling of a popped container, by its `canceled` flag.
  unfoldable pub dispatch : TimerContainer M → System M → W → Result (System M × W)
  dispatch c s w =
      if c.canceled then call c.from (modules.message_cancelled c.from c.to c.message w) s else do
        (s₁, (w₁, m₁, ret)) ← call c.to (modules.message_received c.to c.from c.message w) s
        elim ret [
          | none ↦ call c.from (modules.message_finished c.from c.to m₁ modules.empty_message w₁) s₁
          | some r ↦ do
            (s₂, w₂) ← call c.from (modules.message_finished c.from c.to m₁ r w₁) s₁
            call c.to (modules.message_finished c.to c.to r modules.empty_message w₂) s₂
        ]

  -- One popped container: the clock moves to it, its module handles it, and it is forgotten.
  unfoldable pub deliver : Entry → List Entry → System M → W → Result (System M × W)
  deliver e rest s w = elim (lookup e.uuid s.active_timer) [
    | none ↦ fault dangling
    | some c ↦ do
      (s', w') ← dispatch c (record s { current_time = e.wakeup; timer_queue = rest }) w
      ok (retire e.uuid s', w')
  ]

  -- `(*r)->wake()`, and the erasure of `r` unless it is still ready.
  unfoldable pub wake_one : ℕ → System M → W → Result (System M × W)
  wake_one r s w = do
    (s', (w', next)) ← exec (modules.wake r w) s
    elim next [
      | still_ready ↦ ok (s', w')
      | stopped ↦ ok (record s' { runnable_ready = remove r s'.runnable_ready }, w')
    ]

  -- One pass of the inner `for` over the runnables that are ready when it starts; one that was
  -- removed meanwhile is passed over, and one that is added waits for the next pass: where the set of the
  -- source puts it is not specified.
  unfoldable pub wake_each : List ℕ → System M → W → Result (System M × W)
  wake_each [] s w = ok (s, w)
  wake_each (r ∷ rs) s w = do
    (s', w') ← if member r s.runnable_ready then wake_one r s w else ok (s, w)
    wake_each rs s' w'

  -- `while (!runnableReady.empty())`.
  unfoldable pub wake_all : ℕ → System M → W → Result (System M × W)
  wake_all zero s w = out_of_fuel
  wake_all (suc fuel) s w = elim s.runnable_ready [
    | [] ↦ ok (s, w)
    | r ∷ rs ↦ do (s', w') ← wake_each (r ∷ rs) s w; wake_all fuel s' w'
  ]

  unfoldable pub run : ℕ → ℕ → System M → W → Result (System M × W)
  run zero till s w = out_of_fuel
  run (suc fuel) till s w = do
    (s₁, w₁) ← wake_all fuel s w
    elim (next_event till s₁.timer_queue) [
      | none ↦ ok (s₁, w₁)
      | some (e, rest) ↦ do (s₂, w₂) ← deliver e rest s₁ w₁; run fuel till s₂ w₂
    ]
