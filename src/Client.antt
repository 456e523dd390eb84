-- ===== src/Client.antt =====
-- rkvm-master/rkvm-client/src/client.rs: the loop of `run` after the greeting. The `uinput` writers
-- are a library: what their calls return is part of each round. Times are in milliseconds.
pub mod Devices
pub mod Confirms
use nexus_kvm.Base.{
  ℕ, ◌+◌, ◌≡◌, refl, Option, none, some, List, [], ◌∷◌, ◌++◌, Result, ok, err, ℕ_discrete,
}
use nexus_kvm.Base.Dict.{lookup, insert, remove}
use nexus_kvm.Net.{IoError, invalid_data, timed_out}
use nexus_kvm.Server.{Event, create_device, destroy_device, event_update, take_control}
use nexus_kvm.Server.Connection.{
  NetUpdate, ping, carried, ClientEvent, pong, ready, ping_interval, read_timeout,
}

pub data ClientError : Type 0 where
  network_error : IoError → ClientError
  input_error : IoError → ClientError

-- What the client does to the outside, in the order in which it does it.
pub data Effect : Type 0 where
  built : ℕ → Effect
  dropped : ℕ → Effect
  wrote : ℕ → Event → Effect
  replied : ClientEvent → Effect

-- `writers`, with the events that each has written, the next tick of `interval`, and the effects.
pub record Client : Type 0 where
  pub writers : List (ℕ × List Event)
  pub next_tick : ℕ
  pub effects : List Effect

-- What ends the `select!`: a message, an error of the stream, or a tick. With a message come the
-- time and what the calls return that it leads to.
pub record Io : Type 0 where
  pub now : ℕ
  pub build : Result (Unit {0}) IoError
  pub write : Result (Unit {0}) IoError
  pub reply : Result (Unit {0}) IoError

pub data Wake : Type 0 where
  received : Io → NetUpdate → Wake
  lost : IoError → Wake
  ticked : Wake

abbrev pub Handled : Type 0
Handled = Client × Option ClientError

abbrev pub start_client : ℕ → Client
start_client now = record {
  writers = [];
  next_tick = now + (ping_interval + read_timeout);
  effects = [];
}

unfoldable pub on_create : Io → ℕ → Client → Handled
on_create io id c = elim (lookup ℕ_discrete id c.writers) [
  | some events ↦ (c, some (network_error invalid_data))
  | none ↦ elim io.build [
    | ok done ↦ (
      record c {
        writers = insert ℕ_discrete id [] c.writers;
        effects = c.effects ++ built id ∷ [];
      },
      none,
    )
    | err problem ↦ (c, some (input_error problem))
  ]
]

unfoldable pub on_destroy : ℕ → Client → Handled
on_destroy id c = elim (lookup ℕ_discrete id c.writers) [
  | none ↦ (c, some (network_error invalid_data))
  | some events ↦ (
    record c { writers = remove ℕ_discrete id c.writers; effects = c.effects ++ dropped id ∷ [] },
    none,
  )
]

unfoldable pub on_input : Io → ℕ → Event → Client → Handled
on_input io id event c = elim (lookup ℕ_discrete id c.writers) [
  | none ↦ (c, some (network_error invalid_data))
  | some events ↦ elim io.write [
    | err problem ↦ (c, some (input_error problem))
    | ok done ↦ (
      record c {
        writers = insert ℕ_discrete id (events ++ event ∷ []) c.writers;
        effects = c.effects ++ wrote id event ∷ [];
      },
      none,
    )
  ]
]

unfoldable pub reply : Io → ClientEvent → Client → Handled
reply io event c = elim io.reply [
  | ok done ↦ (record c { effects = c.effects ++ replied event ∷ [] }, none)
  | err problem ↦ (c, some (network_error problem))
]

-- The `match` on an update.
unfoldable pub on_update : Io → NetUpdate → Client → Handled
unfolding on_create on_destroy on_input reply
on_update io ping c =
    reply io pong (record c { next_tick = io.now + (ping_interval + read_timeout) })
on_update io (carried (create_device id)) c = on_create io id c
on_update io (carried (destroy_device id)) c = on_destroy id c
on_update io (carried (event_update id event)) c = on_input io id event c
on_update io (carried (take_control epoch)) c = reply io (ready epoch) c

unfoldable pub wake : Wake → Client → Handled
unfolding on_update
wake (received io update) c = on_update io update c
wake (lost problem) c = (c, some (network_error problem))
wake ticked c = (c, some (network_error timed_out))

-- The loop, until it returns an error.
unfoldable pub run : List Wake → Client → Handled
run [] c = (c, none)
run (w ∷ ws) c =
    let (next, problem) = wake w c in elim problem [ none ↦ run ws next | some e ↦ (next, some e) ]

pub run_goes :
    (w : Wake) (ws : List Wake) (c : Client)
    → (wake w c).1 ≡ none
    → run (w ∷ ws) c ≡ run ws (wake w c).0
unfolding run
run_goes w ws c fine = rw (run, fine) refl

pub run_stops :
    (w : Wake) (ws : List Wake) (c : Client) (e : ClientError)
    → (wake w c).1 ≡ some e
    → run (w ∷ ws) c ≡ ((wake w c).0, some e)
unfolding run
run_stops w ws c e ends = rw (run, ends) refl
