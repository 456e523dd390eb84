-- ===== src/Scenarios/Links.antt =====
-- Runs of the connection between the server and a client.
use nexus_kvm.Base.{
  ℕ, ◌≡◌, ◌≢◌, ◌⊎◌, refl, sym, inl, inr, true, false, none, some, List, [], ◌∷◌, ◌++◌, map, ok,
  arith, ℕ_discrete,
}
use nexus_kvm.Base.Dict.{lookup}
use nexus_kvm.Common.Auth.{Bytes}
use nexus_kvm.Common.Auth.Replay.{bytes_dec}
use nexus_kvm.Net.{Codec, encode, framed, u16_be, invalid_data, timed_out}
use nexus_kvm.Net.Calls.{join}
use nexus_kvm.Net.Deliver.{messages, recv_each, idle, IsStream, join_all, recv_each-encode}
use nexus_kvm.Net.Handshake.{
  greet_client, greet_server, respond, verify, judge, client_version, client_status, server_version,
  server_status,
}
use nexus_kvm.Net.Handshake.Agree.{clear_server, clear_client, greet_server_agreed}
use nexus_kvm.Server.{Update, take_control, create_device, event_update, Event}
use nexus_kvm.Server.Connection.{
  Connection, Round, carried, rounds, round, on_timers, on_tick, on_queue, write_batch, after_write,
  is_ping, pong_is_late, broken,
}
use nexus_kvm.Server.Connection.Silent.{IsSilent, rounds-silent}
use nexus_kvm.Server.Connection.Written.{updates, all_taken, rounds-written}
use nexus_kvm.Client
use nexus_kvm.Client.{Client, received, run, start_client, network_error, wake, on_update, reply}
use nexus_kvm.Client.Devices.{clear, device, run-device}
use nexus_kvm.Client.Confirms
use nexus_kvm.Client.Confirms.{confirmed, handoffs, confirmed-handoffs}
use nexus_kvm.Scenarios.Shared.{plain, secret}

-- Messages that are their own bytes.
abbrev bytes_codec : Codec Bytes
bytes_codec = record {
  serialize = λ b. some b;
  deserialize = λ b. some b;
  deserialize-serialize = λ a body e. sym e;
}

abbrev two_messages : List Bytes
two_messages = (7 ∷ []) ∷ (8 ∷ 9 ∷ []) ∷ []

abbrev wire : Bytes
wire = 0 ∷ 1 ∷ 7 ∷ 0 ∷ 2 ∷ 8 ∷ 9 ∷ []

-- Three calls, of which the first two are dropped within a frame.
abbrev arrivals : List (List Bytes)
arrivals = ((0 ∷ []) ∷ []) ∷ ((1 ∷ 7 ∷ 0 ∷ []) ∷ (2 ∷ 8 ∷ []) ∷ []) ∷ ((9 ∷ []) ∷ []) ∷ []

recv_each-encode_example :
    messages bytes_codec (recv_each bytes_codec [] [] (arrivals ++ idle bytes_codec 2))
    ≡ ok two_messages
unfolding IsStream encode framed u16_be join_all join
recv_each-encode_example =
    recv_each-encode bytes_codec two_messages wire arrivals 2
      (0 ∷ 1 ∷ 7 ∷ [], 0 ∷ 2 ∷ 8 ∷ 9 ∷ [], refl, refl, (0 ∷ 2 ∷ 8 ∷ 9 ∷ [], [], refl, refl, refl))
      ((refl, tt), ((refl, (refl, tt)), ((refl, tt), tt))) refl (omega arith)

abbrev challenge : Bytes
challenge = 4 ∷ 2 ∷ []

greet_server_agreed_example :
    ((greet_client plain challenge secret (clear_server plain challenge secret secret)).result
      ≡ ok tt)
    × (plain.hmac secret challenge ≡ plain.hmac secret challenge)
unfolding greet_client greet_server respond verify judge client_version client_status server_version
    server_status bytes_dec ℕ_discrete
greet_server_agreed_example =
    greet_server_agreed plain challenge secret secret (clear_server plain challenge secret secret)
      (clear_client plain challenge secret secret)
      (record {
        version_delivered = inl refl;
        challenge_delivered = inr (inl refl);
        status_delivered = inr (inr (inl refl));
        greeting_delivered = inl refl;
        response_delivered = inr (inl refl);
      })
      refl

abbrev connected : Connection
connected = record {
  awaiting_pong = false;
  ping_sent_at = 0;
  next_tick = 0;
  written = [];
  readies = [];
  latencies = [];
}

abbrev quiet_at : ℕ → List Update → Round
quiet_at now queue = record {
  now = now;
  received = none;
  loop_open = true;
  queue = queue;
  senders_gone = false;
  written_at = now;
  write = ok tt;
}

abbrev silence : List Round
silence = quiet_at 0 [] ∷ quiet_at 1000 [] ∷ quiet_at 2000 [] ∷ quiet_at 3000 [] ∷ []

rounds-silent_example : (rounds "desk" silence connected).1 ≢ broken timed_out
unfolding IsSilent round on_timers on_tick on_queue write_batch after_write is_ping pong_is_late
rounds-silent_example = rounds-silent "desk" 0 silence connected refl (
  record {
    nothing = refl;
    in_time = omega arith;
    after = omega arith;
    works = refl;
    short = omega arith;
  },
  (
    record {
      nothing = refl;
      in_time = omega arith;
      after = omega arith;
      works = refl;
      short = omega arith;
    },
    (
      record {
        nothing = refl;
        in_time = omega arith;
        after = omega arith;
        works = refl;
        short = omega arith;
      },
      (
        record {
          nothing = refl;
          in_time = omega arith;
          after = omega arith;
          works = refl;
          short = omega arith;
        },
        tt,
      ),
    ),
  ),
)

abbrev handing_over : List Round
handing_over = quiet_at 5 (take_control 3 ∷ []) ∷ quiet_at 1000 (take_control 4 ∷ []) ∷ []

rounds-written_example :
    updates (rounds "desk" handing_over connected).0.written
    ≡ updates connected.written ++ all_taken handing_over
unfolding rounds round on_timers on_tick on_queue write_batch after_write is_ping pong_is_late
rounds-written_example = rounds-written "desk" handing_over connected refl

run-device_example :
    let us = carried (create_device 1) ∷ carried (event_update 1 Event.sync) ∷ [] in
    let c = start_client 0 in
    let h = run (map (received clear) us) c in
    ((h.1 ≡ none)
      × ((q : ℕ)
          → device q us (lookup ℕ_discrete q c.writers) ≡ some (lookup ℕ_discrete q h.0.writers)))
    ⊎ ((h.1 ≡ some (network_error invalid_data))
        × (q : ℕ) × (device q us (lookup ℕ_discrete q c.writers) ≡ none))
run-device_example =
    run-device (carried (create_device 1) ∷ carried (event_update 1 Event.sync) ∷ [])
      (start_client 0)

abbrev came : List Client.Wake
came = map (received clear) (rounds "desk" handing_over connected).0.written

confirmed-handoffs_example :
    confirmed (run came (start_client 0)).0.effects ≡ handoffs (all_taken handing_over)
unfolding rounds round on_timers on_tick on_queue write_batch after_write is_ping pong_is_late
    Confirms.messages run wake on_update reply
confirmed-handoffs_example =
    confirmed-handoffs "desk" handing_over connected came 0 refl refl refl refl
