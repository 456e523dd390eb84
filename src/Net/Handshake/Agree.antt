-- ===== src/Net/Handshake/Agree.antt =====
-- The greetings of the two sides together, over a stream that delivers what was sent or fails.
use nexus_kvm.Base.{
  ℕ, ◌≡◌, ◌≢◌, ◌∙◌, ap, sym, subst, true, List, [], ◌∷◌, if◌then◌else◌, Result, ok, err, ◌⊎◌, inl,
  inr, arith, Result-cases,
}
use nexus_kvm.Common.Auth.{Bytes, Crypto}
use nexus_kvm.Net.{IoError}
use nexus_kvm.Net.Handshake.{
  current, passed, respond, verify, Greeting, version_sent, challenge_sent, response_sent,
  status_sent, auth_error, version_error, ClientIo, ServerIo, client_status, client_version,
  server_version, server_status, greet_server, judge, greet_client,
}

abbrev Holds : List Greeting → Greeting → Type 0
Holds [] g = ⊥
Holds (h ∷ sent) g = (h ≡ g) ⊎ Holds sent g

-- A read that returns gives what the other side has sent.
abbrev Delivered {ℓ} : {A : Type ℓ} → (A → Greeting) → List Greeting → Result A IoError → Type 0
Delivered make sent (err problem) = Unit
Delivered make sent (ok a) = Holds sent (make a)

module _ (x : Crypto) (challenge mine theirs : Bytes) where
  -- The stream between the server, whose password is `mine`, and the client.
  pub record IsLinked (server : ServerIo) (client : ClientIo) : Type 0 where
    pub version_delivered :
        Delivered version_sent (greet_client x challenge mine server).sent client.read_version
    pub challenge_delivered :
        Delivered challenge_sent (greet_client x challenge mine server).sent client.read_challenge
    pub status_delivered :
        Delivered status_sent (greet_client x challenge mine server).sent client.read_status
    pub greeting_delivered :
        Delivered version_sent (greet_server x theirs client).sent server.read_version
    pub response_delivered :
        Delivered response_sent (greet_server x theirs client).sent server.read_response

  -- What the server reads and writes where nothing fails and the client is of this version.
  abbrev pub clear_server : ServerIo
  clear_server = record {
    write_version = ok tt;
    read_version = ok current;
    write_challenge = ok tt;
    read_response = ok (respond x challenge theirs);
    write_status = ok tt;
  }

  abbrev pub clear_client : ClientIo
  clear_client = record {
    write_version = ok tt;
    read_version = ok current;
    read_challenge = ok challenge;
    write_response = ok tt;
    read_status = ok (judge x (respond x challenge theirs) challenge mine);
  }

  -- Where nothing fails, both sides accept if the two passwords give the same code of the challenge,
  -- and otherwise both end with the error of the password.
  pub greet_agrees :
      let same = x.ct_eq (x.hmac mine challenge) (x.hmac theirs challenge) in
      let answer = if same then ok tt else err auth_error in
      ((greet_client x challenge mine clear_server).result ≡ answer)
      × ((greet_server x theirs clear_client).result ≡ answer)
  unfolding greet_client greet_server client_version client_status server_version judge
      server_status verify respond
  greet_agrees = (ground arith, ground arith)

  -- A version that is not the current one ends both greetings before any secret is used. Each side
  -- names its own version as the server's, also the client, whose peer is the server.
  pub greet_server-version_error :
      (server : ServerIo) (client : ClientIo) (v : ℕ)
      → server.write_version ≡ ok tt
      → server.read_version ≡ ok v
      → client.write_version ≡ ok tt
      → client.read_version ≡ ok v
      → v ≢ current
      → (greet_client x challenge mine server
          ≡ record { sent = version_sent current ∷ []; result = err (version_error current v) })
        × (greet_server x theirs client
            ≡ record { sent = version_sent current ∷ []; result = err (version_error current v) })
  unfolding greet_client greet_server client_version server_version
  greet_server-version_error server client v w r w' r' n =
      (rw (w, r) (ground arith), rw (w', r') (ground arith))

  client_ok :
      (client : ClientIo)
      → (greet_server x theirs client).result ≡ ok tt
      → client.read_status ≡ ok passed
  unfolding greet_server client_version client_status
  client_ok client e = ground arith

  server_ok :
      (server : ServerIo)
      → Holds (greet_client x challenge mine server).sent (status_sent passed)
      → (response : Bytes) × (server.read_response ≡ ok response)
        × (verify x response challenge mine ≡ true)
        × ((greet_client x challenge mine server).result ≡ ok tt)
  unfolding greet_client server_version judge server_status verify
  server_ok server h = elim (Result-cases server.read_response) [
    | inl (response, e) ↦ (response, e, ground arith, ground arith)
    | inr (problem, e) ↦ absurd (ground arith)
  ]

  server_challenge :
      (server : ServerIo) (c : Bytes)
      → Holds (greet_client x challenge mine server).sent (challenge_sent c)
      → c ≡ challenge
  unfolding greet_client server_version judge server_status verify
  server_challenge server c h = ground arith

  client_response :
      (client : ClientIo) (r : Bytes)
      → Holds (greet_server x theirs client).sent (response_sent r)
      → (c : Bytes) × (client.read_challenge ≡ ok c) × (r ≡ respond x c theirs)
  unfolding greet_server client_version client_status
  client_response client r h = elim (Result-cases client.read_challenge) [
    | inl (c, e) ↦ (c, e, ground arith)
    | inr (problem, e) ↦ absurd (ground arith)
  ]

  same_code :
      (response c : Bytes)
      → verify x response challenge mine ≡ true
      → response ≡ respond x c theirs
      → c ≡ challenge
      → x.hmac theirs challenge ≡ x.hmac mine challenge
  unfolding verify respond
  same_code response c accepted made same =
      ap (x.hmac theirs) (sym same)
      ∙ sym made
      ∙ sym ((x.ct_eq_iff (x.hmac mine challenge) response).0 accepted)

  -- Where the client ends the greeting well over a stream that delivers only what was sent, the
  -- server accepted it too, and the two passwords give the same code of the server's challenge.
  pub greet_server_agreed :
      (server : ServerIo) (client : ClientIo)
      → IsLinked server client
      → (greet_server x theirs client).result ≡ ok tt
      → ((greet_client x challenge mine server).result ≡ ok tt)
        × (x.hmac theirs challenge ≡ x.hmac mine challenge)
  greet_server_agreed server client link e =
      let passes = client_ok client e in
      let (response, read, accepted, done) =
        server_ok server (subst (Delivered status_sent _) passes link.status_delivered) in
      let (c, got_c, made) =
        client_response client response
          (subst (Delivered response_sent _) read link.response_delivered) in
      let same =
        server_challenge server c
          (subst (Delivered challenge_sent _) got_c link.challenge_delivered) in
      (done, same_code response c accepted made same)
