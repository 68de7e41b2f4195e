-- ===== src/Client/Login/Completes.antt =====
-- An honest login ends with a verified session on both sides.
use go_r2ps_service.Base.{
  ℕ, suc, ◌<◌, ◌≡◌, refl, ◌∙◌, String, true, false, none, some, All, string_eq, eq_self,
}
use go_r2ps_service.Base.Assoc.{lookup, lookup-insert}
use go_r2ps_service.Base.Exec.{ok, modify, ◌>>=◌}
use go_r2ps_service.Base.Exec.Runs.{require-runs}
use go_r2ps_service.Base.Text.Base64
use go_r2ps_service.Base.Text.Base64.RoundTrip.{decode-encode}
use go_r2ps_service.Client.{
  Client, ClientState, Sending, Act, wrapped, request_of, opaque_request, authenticate,
}
use go_r2ps_service.Client.Login.{World, direct, IsSent, IsAnswered}
use go_r2ps_service.Client.Login.Link.{IsTimely, send_2fa-runs}
use go_r2ps_service.Client.Login.Phases.{
  pending, opened, closed, evaluated_answer, finalized_answer, evaluate-runs, finalize-runs,
}
use go_r2ps_service.Pake.Counter.{check}
use go_r2ps_service.Pake.Opaque
use go_r2ps_service.Pake.Session.{Session, is_expired}
use go_r2ps_service.Protocol.{
  Bytes, ServiceRequest, state_evaluate, state_finalize, type_2fa_authenticate,
}
use go_r2ps_service.Service.Dispatcher.{Dispatcher, Moment, State, tfa_auth}
use go_r2ps_service.Service.Dispatcher.Access.{Admits}

pub wrapped-runs :
    {W A B : Type 0} (x : ClientState W) (r : _) (msg : String) (m : Act W A) (f : A → Act W B)
    {a : A} {y : ClientState W}
    → m x ≡ (ok a, y)
    → f a y ≡ r
    → (wrapped msg m >>= f) x ≡ r
unfolding wrapped ◌>>=◌
wrapped-runs x r msg m f h k = rw h k

module _ {K J C N S M : Type 0} (c : Client K J C N (World S)) (d : Dispatcher S M)
    (moments : ℕ → Moment) where
  -- The password is that of the record that the store has for the client, for which the two OPAQUE
  -- libraries agree on a key; the account is not locked, the new session identifier is not taken,
  -- and the second request comes before the session expires.
  pub record CanLogin (t u : Sending) (password : Bytes) (n : ℕ) (s : State S) : Type 0 where
    pub start : C
    pub created : c.opaque_client.client ≡ some start
    pub ke1 : N
    pub middle : C
    pub started : c.opaque_client.generate_ke1 start password ≡ some (ke1, middle)
    pub small_1 : All (λ x. x < 256) (c.opaque_client.serialize ke1)
    pub client_record : Opaque.ClientRecord M
    pub known : d.records.get_record c.client_id c.context s.world ≡ some client_record
    pub ke2_bytes : Bytes
    pub mac : Bytes
    pub key : Bytes
    pub evaluated :
        Opaque.auth_evaluate d.opaque_server (c.opaque_client.serialize ke1) client_record
        ≡ some (ke2_bytes, mac, key)
    pub small_2 : All (λ x. x < 256) ke2_bytes
    pub readable : c.opaque_client.has_deserializer ≡ some tt
    pub ke2 : N
    pub deserialized : c.opaque_client.deserialize_ke2 ke2_bytes ≡ some ke2
    pub ke3 : N
    pub finished : c.opaque_client.generate_ke3 middle ke2 ≡ some (ke3, key)
    pub small_3 : All (λ x. x < 256) (c.opaque_client.serialize ke3)
    pub confirmed : Opaque.auth_finalize d.opaque_server (c.opaque_client.serialize ke3) mac ≡ true
    pub admitted : (check (moments n).now c.client_id c.context c.context s.counter).1 ≡ true
    pub new : lookup (Base64.encode (moments n).session_bytes) s.sessions ≡ none
    pub timely_1 : IsTimely c d (moments n) t
    pub timely_2 : IsTimely c d (moments (suc n)) u
    pub sent_1 :
        IsSent c d
          (moments n)
          t
          type_2fa_authenticate
          ""
          (opaque_request state_evaluate (c.opaque_client.serialize ke1))
    pub answered_1 :
        IsAnswered c d (moments n) (request_of c t type_2fa_authenticate "" sent_1.data_bytes) (
          tfa_auth (
            evaluated_answer c d
              (moments n)
              t
              sent_1.data_bytes
              (c.opaque_client.serialize ke1)
              ke2_bytes))
    pub unexpired :
        is_expired
          (moments (suc n)).now
          (pending c d (moments n) t sent_1.data_bytes (c.opaque_client.serialize ke1) mac key)
        ≡ false
    pub sent_2 :
        IsSent c d
          (moments (suc n))
          u
          type_2fa_authenticate
          (Base64.encode (moments n).session_bytes)
          (opaque_request state_finalize (c.opaque_client.serialize ke3))
    pub answered_2 :
        IsAnswered c d
          (moments (suc n))
          (request_of c u type_2fa_authenticate
            (Base64.encode (moments n).session_bytes)
            sent_2.data_bytes)
          (tfa_auth (
            finalized_answer c d
              (moments (suc n))
              u
              sent_2.data_bytes
              (c.opaque_client.serialize ke3)
              (Base64.encode (moments n).session_bytes)
              (pending c d
                (moments n)
                t
                sent_1.data_bytes
                (c.opaque_client.serialize ke1)
                mac
                key)))

  -- A login with the password of the stored record, over a transport that loses nothing, succeeds:
  -- the client then holds the key that OPAQUE makes and the identifier of a session of its own with
  -- the same key, which lets every later request of its context through that names it, as long as
  -- it has not expired and the sessions are as they were left.
  pub authenticate-completes :
      (t u : Sending) (password : Bytes) (n : ℕ) (x : ClientState (World S)) (s : State S)
      → c.transport ≡ direct d moments
      → (can : CanLogin t u password n s) → x.world ≡ (n, s)
      → (y : Session) × (v : State S) × (authenticate c t u password x ≡ (
        ok tt,
        record {
          session_id = Base64.encode (moments n).session_bytes;
          session_key = some can.key;
          world = (suc (suc n), v);
        },
      ))
        × (y.client_id ≡ c.client_id)
        × (y.session_key ≡ can.key)
        × ((later : Moment) (req : ServiceRequest)
            → req.tfa_session_id ≡ Base64.encode (moments n).session_bytes
            → req.context ≡ c.context
            → is_expired later.now y ≡ false
            → Admits later req v.sessions y)
  unfolding authenticate modify
  authenticate-completes t u password n x s transported can at =
      let m1 = c.opaque_client.serialize can.ke1 in
      let m3 = c.opaque_client.serialize can.ke3 in
      let b1 = can.sent_1.data_bytes in
      let b3 = can.sent_2.data_bytes in
      let id = Base64.encode (moments n).session_bytes in
      let y = pending c d (moments n) t b1 m1 can.mac can.key in
      let s1 = opened c d (moments n) t b1 m1 s can.mac can.key in
      let s2 = closed c d (moments (suc n)) u b3 m3 s1 y id in
      let x1 : ClientState (World S) = record x { world = (suc n, s1) } in
      let held : lookup id s1.sessions ≡ some y =
        lookup-insert id id y s.sessions ∙ rw (eq_self id) in
      let first =
        send_2fa-runs c d moments transported t type_2fa_authenticate ""
          (opaque_request state_evaluate m1) n s s1 _ x can.sent_1 can.answered_1 can.timely_1
          (evaluate-runs c d (moments n) t b1 m1 s can.client_record can.ke2_bytes can.mac can.key
            can.sent_1.read_tfa can.small_1 can.admitted can.known can.evaluated can.new
            can.answered_1)
          at in
      let second =
        send_2fa-runs c d moments transported u type_2fa_authenticate id
          (opaque_request state_finalize m3) (suc n) s1 s2 _ x1 can.sent_2 can.answered_2
          can.timely_2
          (finalize-runs c d (moments (suc n)) u b3 m3 s1 id y can.sent_2.read_tfa can.small_3 held
            can.unexpired can.confirmed can.answered_2)
          refl in
      (
        record y { verified = true },
        s2,
        require-runs x _ _ _ _ can.created (
            require-runs x _ _ _ _ can.started (
              wrapped-runs x _ _ _ _ first (
                require-runs x1 _ _ _ _ can.answered_1.read (
                  require-runs x1 _ _ _ _ can.readable (
                    require-runs x1 _ _ _ _ (decode-encode can.ke2_bytes can.small_2) (
                      require-runs x1 _ _ _ _ can.deserialized (
                        require-runs x1 _ _ _ _ can.finished
                          (wrapped-runs x1 _ _ _ _ second refl)))))))),
        refl,
        refl,
        λ later req named in_context unexpired. record {
          found =
              rw named
                (lookup-insert id id (record y { verified = true }) s1.sessions ∙ rw (eq_self id));
          unexpired = unexpired;
          verified = refl;
          in_context = rw in_context;
        },
      )
