-- ===== src/Daemon/Ipc/Sessions.antt =====
-- The loop of a session in crates/nexus-daemon/src/ipc_server.rs.
use nexus_kvm.Base.{
  ℕ, zero, suc, ◌+◌, ◌≤◌, ◌<◌, ◌≡◌, false, not, Option, none, some, List, [], ◌∷◌, ltb, if_intro,
  is_empty, length, arith, All,
}
use nexus_kvm.Common.Auth.{Bytes, Crypto}
use nexus_kvm.Daemon.Transport.{InputTransport}
use nexus_kvm.Daemon.Controller.{Controller}
use nexus_kvm.Daemon.Ipc.{
  ControlResponse, Json, Moment, read_until, line_limit, with_reply, answer, handle,
}

-- A read takes bytes as long as there are any, and not more than the limit.
pub read_until-length :
    (limit : ℕ) (input : Bytes)
    → let (line, rest) = read_until limit input in
      (length line + length rest ≡ length input) × (length line ≤ limit)
unfolding read_until
read_until-length zero input = (omega arith, omega arith)
read_until-length (suc limit) [] = (omega arith, omega arith)
read_until-length (suc limit) (b ∷ input) = ground (arith, read_until-length limit input)

length-nonempty : (line : Bytes) → is_empty line ≡ false → 0 < length line
length-nonempty [] e = cc
length-nonempty (b ∷ line) e = omega arith

-- `P` holds of the lines that a session of so many rounds can read of its input.
unfoldable pub Lines : (Bytes → Type 0) → ℕ → Bytes → Type 0
Lines P zero input = Unit
Lines P (suc fuel) input =
    let (line, rest) = read_until (suc line_limit) input in P line × Lines P fuel rest

pub Lines-map :
    (P Q : Bytes → Type 0)
    → ((line : Bytes) → P line → Q line)
    → (fuel : ℕ) (input : Bytes) → Lines P fuel input
    → Lines Q fuel input
unfolding Lines
Lines-map P Q f zero input h = tt
Lines-map P Q f (suc fuel) input h =
    let (line, rest) = read_until (suc line_limit) input in
    (f line h.0, Lines-map P Q f fuel rest h.1)

pub Lines-all :
    (P : Bytes → Type 0)
    → ((line : Bytes) → P line)
    → (fuel : ℕ) (input : Bytes) → Lines P fuel input
unfolding Lines
Lines-all P f zero input = tt
Lines-all P f (suc fuel) input =
    let (line, rest) = read_until (suc line_limit) input in (f line, Lines-all P f fuel rest)

module _ (t : InputTransport) (x : Crypto) (json : Json) (expected : Bytes) where
  -- A session has fuel enough, `J` holds of the controller that it leaves, and `R` of its replies.
  abbrev pub Ends :
      (Controller t.World → Type 0)
      → (ControlResponse → Type 0)
      → Option (Controller t.World × List ControlResponse)
      → Type 0
  Ends J R none = ⊥
  Ends J R (some (c, replies)) = J c × All R replies

  module _ (J : Controller t.World → Type 0) (R : ControlResponse → Type 0) where
    with_reply-Ends :
        (reply : ControlResponse) (r : Option (Controller t.World × List ControlResponse))
        → R reply
        → Ends J R r
        → Ends J R (with_reply reply r)
    unfolding with_reply
    with_reply-Ends reply none first later = absurd later
    with_reply-Ends reply (some (c, replies)) first later = (later.0, (first, later.1))

    -- What each line of the input keeps, the session keeps.
    pub handle-Ends :
        (fuel n : ℕ) (moments : ℕ → Moment) (input : Bytes) (c : Controller t.World)
        → Lines
            (λ line.
              (m : Moment) (c : Controller t.World)
              → J c
              → let (c', reply) = answer t x json expected m (json.from_str line) c in
                J c' × R reply)
            fuel
            input
        → length input < fuel
        → J c
        → Ends J R (handle t x json expected fuel n moments input c)
    unfolding handle Lines
    handle-Ends zero n moments input c keeps h j = absurd (omega arith)
    handle-Ends (suc fuel) n moments input c (keeps, later) h j =
        let (line, rest) = read_until (suc line_limit) input in
        let (j', r') = keeps (moments n) c j in
        let (c', reply) = answer t x json expected (moments n) (json.from_str line) c in
        let (parts, _) = read_until-length (suc line_limit) input in
        if_intro (Ends J R) (is_empty line) (λ _. (j, tt))
          (λ some_bytes.
            if_intro (Ends J R) (ltb line_limit (length line)) (λ _. (j, tt))
              (λ _.
                if_intro (Ends J R) (not (json.is_utf8 line)) (λ _. (j, tt))
                  (λ _.
                    if_intro (Ends J R) (not (moments n).writes) (λ _. (j', tt))
                      (λ _. with_reply-Ends reply _ r' (
                        handle-Ends fuel (suc n) moments rest c' later
                          (omega (arith, length-nonempty line some_bytes, parts)) j')))))
