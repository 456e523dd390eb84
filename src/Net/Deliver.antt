-- ===== src/Net/Deliver.antt =====
-- rkvm-master/rkvm-net/src/message.rs: many calls of `FrameDecoder::recv` on one stream, of which some
-- are dropped while they wait.
use nexus_kvm.Base.{
  ℕ, zero, suc, ◌≤◌, ◌≡◌, refl, sym, ap, ◌∙◌, inl, inr, List, [], ◌∷◌, ◌++◌, length, length-append,
  All, All-append, Result, ok, err, arith,
}
use nexus_kvm.Common.Auth.{Bytes}
use nexus_kvm.Net.{Codec, IoError, encode, attempt, recv, Received, message, pending, failed}
use nexus_kvm.Net.Frames.{encode-IsFrame}
use mathlib.Core.List.{append-nil, append_assoc}
use nexus_kvm.Net.Calls.{join, IsRead, join-append, nothing_left, recv-frame}

module _ {A : Type 0} (codec : Codec A) where
  -- The calls of `recv` one after another. With each call come the chunks that arrive until it
  -- returns or is dropped.
  unfoldable pub recv_each : Bytes → List Bytes → List (List Bytes) → List (Received A)
  recv_each buf left [] = []
  recv_each buf left (arrived ∷ calls) =
      let c = recv codec buf (left ++ arrived) in c.answer ∷ recv_each c.buf c.left calls

  -- The messages of the answers, until one of them is an error.
  unfoldable pub messages : List (Received A) → Result (List A) IoError
  messages [] = ok []
  messages (message a ∷ answers) = elim (messages answers) [
    | ok ms ↦ ok (a ∷ ms)
    | err problem ↦ err problem
  ]
  messages (pending ∷ answers) = messages answers
  messages (failed problem ∷ answers) = err problem

  -- The bytes that `encode` writes for the messages, one after another.
  unfoldable pub IsStream : List A → Bytes → Type 0
  IsStream [] stream = stream ≡ []
  IsStream (a ∷ ms) stream =
      (frame : Bytes) × (s : Bytes) × (encode codec a ≡ ok frame)
      × (stream ≡ frame ++ s)
      × IsStream ms s

  unfoldable pub join_all : List (List Bytes) → Bytes
  join_all [] = []
  join_all (arrived ∷ calls) = join arrived ++ join_all calls

  -- Calls with which nothing arrives.
  unfoldable pub idle : ℕ → List (List Bytes)
  idle zero = []
  idle (suc n) = [] ∷ idle n

  arrives :
      (buf : Bytes) (left arrived : List Bytes) (future s : Bytes)
      → buf ++ (join left ++ (join arrived ++ future)) ≡ s
      → buf ++ (join (left ++ arrived) ++ future) ≡ s
  arrives buf left arrived future s e =
      rw (join-append left arrived, append_assoc (join left) (join arrived) future) e

  -- One call on a stream that has ended.
  recv_nothing :
      (buf : Bytes) (left : List Bytes) (future : Bytes)
      → All IsRead left
      → buf ++ (join left ++ future) ≡ []
      → recv codec buf left ≡ record { answer = pending; buf = []; left = [] }
  unfolding recv attempt
  recv_nothing buf left future reads e =
      let (b, l, _) = nothing_left buf left future reads e in rw (b, l) refl

  idle_calls :
      (n : ℕ) (ms : List A) (buf : Bytes) (left : List Bytes) (s : Bytes)
      → All IsRead left
      → buf ++ (join left ++ []) ≡ s
      → IsStream ms s
      → length ms ≤ n
      → messages (recv_each buf left (idle n)) ≡ ok ms
  unfolding messages recv_each idle IsStream join
  idle_calls zero [] buf left s reads e st h = refl
  idle_calls zero (a ∷ ms) buf left s reads e st h = absurd (omega arith)
  idle_calls (suc n) [] buf left s reads e st h =
      rw (append-nil left, recv_nothing buf left [] reads (e ∙ st))
        (idle_calls n [] [] [] [] tt refl refl (omega arith))
  idle_calls (suc n) (a ∷ ms) buf left s reads e (frame, rest, made, parts, st) h =
      let sum : buf ++ join left ≡ s = ap (λ t. buf ++ t) (sym (append-nil (join left))) ∙ e in
      elim (recv-frame codec a frame rest [] (encode-IsFrame codec a frame made) left buf reads
        (e ∙ parts)) [
          | inl t ↦
              rw
                (
                  append-nil left,
                  t.answer,
                  idle_calls n ms (recv codec buf left).buf (recv codec buf left).left rest t.reads
                      t.rest st (omega arith),
                )
                refl
          | inr w ↦
              absurd (omega (arith, w.part, length-append frame rest, ap length (sum ∙ parts)))
        ]

  -- Before the last bytes come, the calls may stop short of a frame; after them `length ms` calls
  -- are enough.
  calls-messages :
      (calls : List (List Bytes)) (ms : List A) (buf : Bytes) (left : List Bytes) (s : Bytes)
      → All IsRead left
      → All (All IsRead) calls
      → buf ++ (join left ++ join_all calls) ≡ s
      → IsStream ms s
      → (n : ℕ) → length ms ≤ n
      → messages (recv_each buf left (calls ++ idle n)) ≡ ok ms
  unfolding messages recv_each IsStream join join_all
  calls-messages [] ms buf left s reads come e st n h = idle_calls n ms buf left s reads e st h
  calls-messages (arrived ∷ calls) [] buf left s reads come e st n h =
      let both = All-append IsRead left arrived reads come.0 in
      let now = arrives buf left arrived (join_all calls) s e in
      let (_, _, last) = nothing_left buf (left ++ arrived) (join_all calls) both (now ∙ st) in
      rw (recv_nothing buf (left ++ arrived) (join_all calls) both (now ∙ st))
        (calls-messages calls [] [] [] [] tt come.1 last refl n h)
  calls-messages (arrived ∷ calls) (a ∷ ms) buf left s reads come e (frame, rest, made, parts, st) n
        h =
      let both = All-append IsRead left arrived reads come.0 in
      let now = arrives buf left arrived (join_all calls) s e in
      elim (recv-frame codec a frame rest (join_all calls) (encode-IsFrame codec a frame made)
        (left ++ arrived) buf both (now ∙ parts)) [
          | inl t ↦
              rw
                (
                  t.answer,
                  calls-messages calls ms (recv codec buf (left ++ arrived)).buf
                      (recv codec buf (left ++ arrived)).left rest t.reads come.1 t.rest st n
                      (omega arith),
                )
                refl
          | inr w ↦
              rw (w.answer, w.nothing, w.kept)
                (calls-messages calls (a ∷ ms) (buf ++ join (left ++ arrived)) [] s tt come.1
                  (append_assoc buf (join (left ++ arrived)) (join_all calls) ∙ now)
                  (frame, rest, made, parts, st) n h)
        ]

  -- The messages that were encoded one after another are received, each once, in their order and
  -- with no error, however the stream is cut into reads, and wherever the calls of `recv` are dropped
  -- while they wait, provided that as many calls as messages still follow the last bytes.
  pub recv_each-encode :
      (ms : List A) (stream : Bytes) (calls : List (List Bytes)) (n : ℕ)
      → IsStream ms stream
      → All (All IsRead) calls
      → join_all calls ≡ stream
      → length ms ≤ n
      → messages (recv_each [] [] (calls ++ idle n)) ≡ ok ms
  unfolding join
  recv_each-encode ms stream calls n st reads e h =
      calls-messages calls ms [] [] stream tt reads e st n h
